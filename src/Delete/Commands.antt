-- ===== src/Delete/Commands.antt =====
-- delete/delete.py: CleanUpRemoteHost, DeleteInstanceByNames and Run. The locks and the rest of the world
-- are two parts of one world, as listing has them.
use tools_acloud.Base.{
  [], none, some, String, Bool, Option, ℕ, List, ◌∷◌, ◌++◌, if◌then◌else◌, not, is_nil, select,
}
use tools_acloud.Base.Dict.{mem}
use tools_acloud.Base.Text.{is_empty}
use tools_acloud.Delete.{
  Effects, called_process_failure, add_deletion_result_to_report, delete_remote_instances,
  delete_instances, returned,
}
use tools_acloud.Exec.{Exec, ok, pure, ◌>>=◌, catch}
use tools_acloud.Listing.{Instance, filter_instances_by_adb_port}
use tools_acloud.Listing.Local.{Probe, get_local_instances, get_local_instances_by_names}
use tools_acloud.LocalCreate.{Locks, on_host, lift}
use tools_acloud.Report.{Report, init, set_status, given}
use tools_acloud.Report.Status
use tools_acloud.Report.Steps.{method, world, change}
use package.text.Mathlib.Text.{starts_with}

-- The arguments of the command that are read.
pub record DeleteArgs : Type 0 where
  pub instance_names : List String
  pub remote_host : String
  pub local_only : Bool
  pub adb_port : Option ℕ
  pub all : Bool

-- The names of `xs` that are not in `ys`, each once; the order of a Python set is not fixed.
unfoldable pub difference : List String → List String → List String
difference [] ys = []
difference (x ∷ xs) ys =
    let rest = difference xs ys in if mem x ys then rest else if mem x rest then rest else x ∷ rest

abbrev pub is_local_name : String → Bool
is_local_name name = starts_with name "local-"

module _ {L V : Type 0} (locks : Locks L) (probe : Probe V) (io : Effects (L × V)) where
  -- CleanUpRemoteHost; `init_remote_host` makes the client and runs its InitRemoteHost.
  unfoldable pub clean_up_remote_host :
      Exec (L × V) (Unit {0}) → String → Exec (L × V) (Option Report)
  unfolding called_process_failure add_deletion_result_to_report method returned
  clean_up_remote_host init_remote_host remote_host w = returned io (
      catch
        (world init_remote_host >>= λ _. change (method (set_status Status.success)) >>= λ _.
          change (add_deletion_result_to_report (remote_host ∷ []) [] [] "remote host"))
        called_process_failure (init "delete", w))

  delete_local_names : Bool → List String → Exec (L × V) (Option Report)
  unfolding get_local_instances_by_names delete_instances
  delete_local_names support_remote_instance [] = pure (some (init "delete"))
  delete_local_names support_remote_instance (name ∷ names) =
      get_local_instances_by_names locks probe (name ∷ names)
      >>= delete_instances io support_remote_instance

  -- A report that is None is made anew.
  or_new : Option Report → Report
  or_new none = init "delete"
  or_new (some r) = r

  delete_remote_names : Bool → List String → Option Report → Exec (L × V) (Option Report)
  unfolding delete_remote_instances or_new returned
  delete_remote_names support_remote_instance [] r w = (ok r, w)
  delete_remote_names support_remote_instance (name ∷ names) r w =
      returned io (delete_remote_instances io support_remote_instance (name ∷ names) (or_new r, w))

  -- DeleteInstanceByNames
  unfoldable pub delete_instance_by_names : Bool → List String → Exec (L × V) (Option Report)
  unfolding delete_local_names delete_remote_names difference
  delete_instance_by_names support_remote_instance instances =
      delete_local_names support_remote_instance (select is_local_name instances)
      >>= delete_remote_names support_remote_instance
          (difference instances (select is_local_name instances))

  -- The instances that Run hands to DeleteInstances.
  chosen :
      DeleteArgs
      → (List Instance → Exec (L × V) (List Instance))
      → List Instance
      → Option ℕ
      → Exec (L × V) (List Instance)
  chosen args choose instances (some port) = lift (filter_instances_by_adb_port instances port)
  chosen args choose instances none = if args.all then pure instances else choose instances

  -- Run, with the configuration's SupportRemoteInstance and ChooseInstancesFromList.
  unfoldable pub run :
      Bool
      → Exec (L × V) (Unit {0})
      → (List Instance → Exec (L × V) (List Instance))
      → DeleteArgs
      → Exec (L × V) (Option Report)
  unfolding delete_instance_by_names clean_up_remote_host chosen get_local_instances
      delete_instances
  run support_remote_instance init_remote_host choose args =
      if not (is_nil args.instance_names)
      then delete_instance_by_names support_remote_instance args.instance_names
      else if not (is_empty args.remote_host)
      then clean_up_remote_host init_remote_host args.remote_host
      else (get_local_instances locks probe >>= λ here.
          (if args.local_only
            then pure here
            else if support_remote_instance
            then (on_host probe.get_remote_instances >>= λ remote. pure (here ++ remote))
            else pure here)
          >>= λ instances.
              chosen args choose instances (given args.adb_port)
              >>= delete_instances io support_remote_instance)
