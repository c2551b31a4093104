-- ===== src/Listing/Local.antt =====
-- list/list.py: the local instances, under the locks of their ids, with GetAllLocalInstanceConfigs of
-- list/instance.py. What is read of the instances is a record of actions of the world.
pub mod Probed
use tools_acloud.Base.{
  true, false, [], none, some, ℕ, String, Bool, Option, List, ◌∷◌, ◌++◌, if◌then◌else◌, not, ◌==◌,
}
use tools_acloud.Errors.{exc, type_error}
use tools_acloud.Exec.{Exec, Result, ok, err, pure, raise, ◌>>=◌, finally}
use tools_acloud.Listing.{Instance, filter_instances_by_names}
use tools_acloud.LocalCreate.{Locks, on_locks, on_host, lift}
use tools_acloud.LocalInstance.{get_local_instance_id_by_name}

pub record Probe (W : Type 0) : Type 0 where
  pub is_supported_platform : Exec W Bool
  pub is_file : String → Exec W Bool
  -- LocalInstance(cfg_path), and its CvdStatus.
  pub local_instance : String → Exec W Instance
  pub cvd_status : Instance → Exec W Bool
  -- GetLocalInstanceConfig, GetDefaultCuttlefishConfig, and the names in the directory of the local
  -- instances, if it exists.
  pub get_local_instance_config : ℕ → Exec W (Option String)
  pub get_default_cuttlefish_config : Exec W (Option String)
  pub list_dir : Exec W (List String)
  -- LocalGoldfishInstance.GetExistingInstances, and GetRemoteInstances of a configuration.
  pub get_existing_goldfish : Exec W (List Instance)
  pub get_remote_instances : Exec W (List Instance)

module _ {W : Type 0} (io : Probe W) where
  -- An instance whose CvdStatus is true.
  if_up : Instance → Bool → Option Instance
  if_up ins true = some ins
  if_up ins false = none

  unfoldable pub active_of : Option String → Exec W (Option Instance)
  unfolding if_up
  active_of none = pure none
  active_of (some cfg_path) =
      io.local_instance cfg_path >>= λ ins. io.cvd_status ins >>= λ up. pure (if_up ins up)

  or_default_cvd : ℕ → Option Instance → Exec W (Option Instance)
  unfolding active_of
  or_default_cvd local_instance_id (some ins) = pure (some ins)
  or_default_cvd local_instance_id none = io.get_default_cuttlefish_config >>= λ cfg_path.
      if local_instance_id == 1 then active_of cfg_path else pure none

  -- GetActiveCVD
  unfoldable pub get_active_cvd : ℕ → Exec W (Option Instance)
  unfolding active_of or_default_cvd
  get_active_cvd local_instance_id = io.get_local_instance_config local_instance_id >>= λ cfg_path.
      active_of cfg_path >>= or_default_cvd local_instance_id

  default_pair : Option String → List (ℕ × String)
  default_pair none = []
  default_pair (some cfg_path) = (1, cfg_path) ∷ []

  -- os.path.isfile raises where the path is None.
  pair_of : ℕ → Option String → Exec W (List (ℕ × String))
  pair_of ins_id none =
      raise
        (exc type_error "stat: path should be string, bytes, os.PathLike or integer, not NoneType")
  pair_of ins_id (some cfg_path) =
      io.is_file cfg_path >>= λ there. pure (if there then (ins_id, cfg_path) ∷ [] else [])

  pair_of_id : Option ℕ → Exec W (List (ℕ × String))
  unfolding pair_of
  pair_of_id none = pure []
  pair_of_id (some ins_id) = io.get_local_instance_config ins_id >>= pair_of ins_id

  unfoldable pub pairs_of_names : List String → Exec W (List (ℕ × String))
  unfolding pair_of_id
  pairs_of_names [] w = (ok [], w)
  pairs_of_names (ins_name ∷ names) w =
      (pair_of_id (get_local_instance_id_by_name ins_name) >>= λ first.
      pairs_of_names names >>= λ rest. pure (first ++ rest))
        w

  -- GetAllLocalInstanceConfigs
  unfoldable pub get_all_local_instance_configs : Exec W (List (ℕ × String))
  unfolding default_pair pairs_of_names
  get_all_local_instance_configs = io.get_default_cuttlefish_config >>= λ cfg_path.
      io.list_dir >>= λ names.
      pairs_of_names names >>= λ pairs. pure (default_pair cfg_path ++ pairs)

  -- The pairs of one name in GetLocalInstancesByNames.
  own_pair : ℕ → Option String → List (ℕ × String)
  own_pair ins_id none = []
  own_pair ins_id (some cfg_path) = (ins_id, cfg_path) ∷ []

  named_pairs : Option ℕ → Exec W (List (ℕ × String))
  unfolding own_pair default_pair
  named_pairs none = pure []
  named_pairs (some ins_id) = io.get_local_instance_config ins_id >>= λ cfg_path.
      (if ins_id == 1
        then (io.get_default_cuttlefish_config >>= λ d. pure (default_pair d))
        else pure [])
      >>= λ more. pure (own_pair ins_id cfg_path ++ more)

  unfoldable pub all_named_pairs : List String → Exec W (List (ℕ × String))
  unfolding named_pairs
  all_named_pairs [] w = (ok [], w)
  all_named_pairs (name ∷ names) w =
      (named_pairs (get_local_instance_id_by_name name) >>= λ first.
      all_named_pairs names >>= λ rest. pure (first ++ rest))
        w

module _ {L W : Type 0} (locks : Locks L) (io : Probe W) where
  -- The `try` for one configuration: the instance, if it is active.
  unfoldable pub probe : String → Exec W (List Instance)
  probe cfg_path = io.is_file cfg_path >>= λ there.
      if not there
      then pure []
      else (io.local_instance cfg_path >>= λ ins.
          io.cvd_status ins >>= λ up. pure (if up then ins ∷ [] else []))

  unfoldable pub list_one : ℕ → String → Exec (L × W) (List Instance)
  unfolding probe
  list_one ins_id cfg_path = on_locks (locks.lock ins_id) >>= λ got.
      if not got
      then pure []
      else finally (on_host (probe cfg_path)) (on_locks (locks.unlock ins_id))

  -- _GetLocalCuttlefishInstances
  unfoldable pub get_local_cuttlefish_instances : List (ℕ × String) → Exec (L × W) (List Instance)
  unfolding list_one
  get_local_cuttlefish_instances [] s = (ok [], s)
  get_local_cuttlefish_instances ((ins_id, cfg_path) ∷ pairs) s =
      (list_one ins_id cfg_path >>= λ first.
      get_local_cuttlefish_instances pairs >>= λ rest. pure (first ++ rest))
        s

  -- GetLocalInstances
  unfoldable pub get_local_instances : Exec (L × W) (List Instance)
  unfolding get_all_local_instance_configs get_local_cuttlefish_instances
  get_local_instances = on_host io.is_supported_platform >>= λ supported.
      if not supported
      then pure []
      else (on_host (get_all_local_instance_configs io) >>= λ pairs.
          get_local_cuttlefish_instances pairs >>= λ cuttlefish.
          on_host io.get_existing_goldfish >>= λ goldfish. pure (cuttlefish ++ goldfish))

  -- GetInstances
  unfoldable pub get_instances : Exec (L × W) (List Instance)
  unfolding get_local_instances
  get_instances = on_host io.get_remote_instances >>= λ remote.
      get_local_instances >>= λ here. pure (remote ++ here)

  -- GetLocalInstancesByNames
  unfoldable pub get_local_instances_by_names : List String → Exec (L × W) (List Instance)
  unfolding all_named_pairs get_local_cuttlefish_instances
  get_local_instances_by_names names = on_host (all_named_pairs io names) >>= λ pairs.
      get_local_cuttlefish_instances pairs >>= λ cuttlefish.
      on_host io.get_existing_goldfish >>= λ goldfish.
      lift (filter_instances_by_names (cuttlefish ++ goldfish) names)

  -- GetInstancesFromInstanceNames
  unfoldable pub get_instances_from_instance_names : List String → Exec (L × W) (List Instance)
  unfolding get_local_instances_by_names
  get_instances_from_instance_names instance_names =
      get_local_instances_by_names instance_names >>= λ here.
      on_host io.get_remote_instances >>= λ remote.
      lift (filter_instances_by_names (here ++ remote) instance_names)
