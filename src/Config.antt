-- ===== src/Config.antt =====
-- public/config.py: AcloudConfig and AcloudConfigManager. A message of the protobuf library is a record
-- of its fields, with the library's defaults (empty, 0, False) where the file gives none; the files and
-- the parser of the text format are actions of the world.
pub mod Verified
pub mod Overridden
use tools_acloud.Base.{
  false, [], none, some, ℕ, String, Bool, Option, List, ◌∷◌, ◌++◌, if◌then◌else◌, not, is_nil,
  str_eq, select, is_some, ltb, ◌&&◌, ◌||◌,
}
use tools_acloud.Base.Dict.{Dict, lookup, insert, update, mem}
use tools_acloud.Base.Ints.{ℤ, is_zero, eq_ℤ, is_positive}
use tools_acloud.Base.Text.{◌<>◌, str, is_empty, words, join, contains_text}
use tools_acloud.Constants
use tools_acloud.Errors.{exc, Exc, is_instance, config_error, os_error}
use tools_acloud.Exec.{Exec, Result, ok, err, pure, raise, ◌>>=◌, catch}

pub record UserConfig : Type 0 where
  pub service_account_name : String
  pub service_account_private_key_path : String
  pub service_account_json_private_key_path : String
  pub client_id : String
  pub client_secret : String
  pub project : String
  pub zone : String
  pub machine_type : String
  pub network : String
  pub ssh_private_key_path : String
  pub ssh_public_key_path : String
  pub storage_bucket_name : String
  pub orientation : String
  pub resolution : String
  pub stable_host_image_family : String
  pub stable_host_image_name : String
  pub stable_host_image_project : String
  pub stable_goldfish_host_image_name : String
  pub stable_goldfish_host_image_project : String
  pub stable_cheeps_host_image_name : String
  pub stable_cheeps_host_image_project : String
  pub extra_args_ssh_tunnel : String
  pub hw_property : String
  pub launch_args : String
  pub instance_name_pattern : String
  pub fetch_cvd_version : String
  pub metadata_variable : Dict String
  pub extra_data_disk_size_gb : ℤ
  pub extra_scopes : List String
  pub enable_multi_stage : Bool

pub record InternalConfig : Type 0 where
  pub creds_cache_file : String
  pub user_agent : String
  pub min_machine_size : String
  pub disk_image_name : String
  pub disk_image_mime_type : String
  pub disk_image_extension : String
  pub disk_raw_image_name : String
  pub disk_raw_image_extension : String
  pub kernel_build_target : String
  pub emulator_build_target : String
  pub default_extra_data_disk_device : String
  pub device_resolution_map : Dict String
  pub device_default_orientation_map : Dict String
  pub no_project_access_msg_map : Dict String
  pub common_hw_property_map : Dict String
  pub valid_branch_and_min_build_id : Dict ℤ
  pub precreated_data_image : List (ℤ × String)
  pub default_usr_cfg : UserConfig

pub record AcloudConfig : Type 0 where
  pub service_account_name : String
  pub service_account_private_key_path : String
  pub service_account_json_private_key_path : String
  pub client_id : String
  pub client_secret : String
  pub project : String
  pub zone : String
  pub machine_type : String
  pub network : String
  pub ssh_private_key_path : String
  pub ssh_public_key_path : String
  pub storage_bucket_name : String
  pub orientation : String
  pub resolution : String
  pub stable_host_image_family : String
  pub stable_host_image_name : String
  pub stable_host_image_project : String
  pub stable_goldfish_host_image_name : String
  pub stable_goldfish_host_image_project : String
  pub stable_cheeps_host_image_name : String
  pub stable_cheeps_host_image_project : String
  pub extra_args_ssh_tunnel : String
  pub hw_property : String
  pub launch_args : String
  pub instance_name_pattern : String
  pub fetch_cvd_version : String
  pub creds_cache_file : String
  pub user_agent : String
  pub min_machine_size : String
  pub disk_image_name : String
  pub disk_image_mime_type : String
  pub disk_image_extension : String
  pub disk_raw_image_name : String
  pub disk_raw_image_extension : String
  pub kernel_build_target : String
  pub emulator_build_target : String
  pub device_resolution_map : Dict String
  pub device_default_orientation_map : Dict String
  pub no_project_access_msg_map : Dict String
  pub common_hw_property_map : Dict String
  pub metadata_variable : Dict String
  pub valid_branch_and_min_build_id : Dict ℤ
  pub precreated_data_image_map : List (ℤ × String)
  pub extra_data_disk_size_gb : ℤ
  pub extra_scopes : List String
  pub enable_multi_stage : Bool

-- The fields of the parsed arguments that OverrideWithArgs reads.
pub record ParsedArgs : Type 0 where
  pub which : String
  pub spec : String
  pub email : String
  pub service_account_json_private_key_path : String
  pub base_image : String
  pub flavor : String
  pub network : String
  pub zone : String
  pub multi_stage_launch : Option Bool
  pub num_avds_per_instance : ℕ

abbrev pub persistent_data_device : String
persistent_data_device = "cfg_sta_persistent_data_device"

abbrev pub ephemeral_data_size_mb : String
ephemeral_data_size_mb = "cfg_sta_ephemeral_data_size_mb"

-- _DEFAULT_HW_PROPERTY
abbrev pub default_hw_property : String
default_hw_property = "cpu:2,resolution:720x1280,dpi:320,memory:4g"

-- _NUM_INSTANCES_ARG
abbrev pub num_instances_arg : String
num_instances_arg = "-num_instances"

abbrev pub cmd_create : String
cmd_create = "create"

-- `a or b`
unfoldable pub or_else : String → String → String
or_else a b = if is_empty a then b else a

unfoldable pub or_else_ℤ : ℤ → ℤ → ℤ
or_else_ℤ a b = if is_zero a then b else a

-- `d.get(key, default)`
unfoldable pub get_or : Dict String → String → String → String
get_or d key default = found (lookup key d)
  where
    found : Option String → String
    found none = default
    found (some v) = v

-- `del d[key]`, if it is there.
unfoldable pub delete_key : String → Dict String → Dict String
delete_key key [] = []
delete_key key ((k, v) ∷ d) =
    let rest = delete_key key d in if str_eq k key then rest else (k, v) ∷ rest

with_device : Bool → String → Dict String → Dict String
with_device given device d = if given then d else insert persistent_data_device device d

-- The metadata variables with the extra data disk, if there is one; `usr` are the user's own.
unfoldable pub disk_metadata : Bool → Dict String → String → Dict String → Result (Dict String)
unfolding with_device
disk_metadata extra usr device d =
    if not extra
    then ok d
    else if is_some (lookup ephemeral_data_size_mb usr)
    then err (
        exc config_error
          "The following settings can't be set at the same time: extra_data_disk_size_gb andmetadata variable cfg_sta_ephemeral_data_size_mb.")
    else ok (
        delete_key ephemeral_data_size_mb
          (with_device (is_some (lookup persistent_data_device usr)) device d))

-- REQUIRED_FIELD, with the fields' values.
abbrev pub required_fields : AcloudConfig → Dict String
required_fields cfg =
    ("machine_type", cfg.machine_type)
    ∷ ("network", cfg.network)
    ∷ ("min_machine_size", cfg.min_machine_size)
    ∷ ("disk_image_name", cfg.disk_image_name)
    ∷ ("disk_image_mime_type", cfg.disk_image_mime_type)
    ∷ []

abbrev pub missing_of : Dict String → List String
missing_of [] = []
missing_of ((f, v) ∷ fields) = let rest = missing_of fields in if is_empty v then f ∷ rest else rest

unfoldable pub has_size : ℤ → List (ℤ × String) → Bool
has_size size [] = false
has_size size ((z, _) ∷ images) = eq_ℤ z size || has_size size images

-- Verify
unfoldable pub verify : AcloudConfig → Result (Unit {0})
unfolding has_size
verify cfg =
    if not (is_nil (missing_of (required_fields cfg)))
    then err (
        exc config_error (
          "Missing required configuration fields: "
          <> join ", " (missing_of (required_fields cfg))))
    else if not (is_zero cfg.extra_data_disk_size_gb)
        && not (has_size cfg.extra_data_disk_size_gb cfg.precreated_data_image_map)
    then err (exc config_error "Supported extra_data_disk_size_gb options(gb)")
    else ok tt

-- The fields that __init__ sets, with the metadata variables. The test of enable_multi_stage always
-- takes its first branch, since HasField gives a Boolean.
unfoldable pub fields_of : UserConfig → InternalConfig → Dict String → AcloudConfig
unfolding or_else or_else_ℤ
fields_of usr internal metadata = record {
  service_account_name = usr.service_account_name;
  service_account_private_key_path = usr.service_account_private_key_path;
  service_account_json_private_key_path = usr.service_account_json_private_key_path;
  client_id = usr.client_id;
  client_secret = usr.client_secret;
  project = usr.project;
  zone = usr.zone;
  machine_type = or_else usr.machine_type internal.default_usr_cfg.machine_type;
  network = or_else usr.network internal.default_usr_cfg.network;
  ssh_private_key_path = usr.ssh_private_key_path;
  ssh_public_key_path = usr.ssh_public_key_path;
  storage_bucket_name = usr.storage_bucket_name;
  orientation = usr.orientation;
  resolution = usr.resolution;
  stable_host_image_family = usr.stable_host_image_family;
  stable_host_image_name =
      or_else usr.stable_host_image_name internal.default_usr_cfg.stable_host_image_name;
  stable_host_image_project =
      or_else usr.stable_host_image_project internal.default_usr_cfg.stable_host_image_project;
  stable_goldfish_host_image_name =
      or_else usr.stable_goldfish_host_image_name
        internal.default_usr_cfg.stable_goldfish_host_image_name;
  stable_goldfish_host_image_project =
      or_else usr.stable_goldfish_host_image_project
        internal.default_usr_cfg.stable_goldfish_host_image_project;
  stable_cheeps_host_image_name =
      or_else usr.stable_cheeps_host_image_name
        internal.default_usr_cfg.stable_cheeps_host_image_name;
  stable_cheeps_host_image_project =
      or_else usr.stable_cheeps_host_image_project
        internal.default_usr_cfg.stable_cheeps_host_image_project;
  extra_args_ssh_tunnel = usr.extra_args_ssh_tunnel;
  hw_property = usr.hw_property;
  launch_args = usr.launch_args;
  instance_name_pattern =
      or_else usr.instance_name_pattern internal.default_usr_cfg.instance_name_pattern;
  fetch_cvd_version = or_else usr.fetch_cvd_version internal.default_usr_cfg.fetch_cvd_version;
  creds_cache_file = internal.creds_cache_file;
  user_agent = internal.user_agent;
  min_machine_size = internal.min_machine_size;
  disk_image_name = internal.disk_image_name;
  disk_image_mime_type = internal.disk_image_mime_type;
  disk_image_extension = internal.disk_image_extension;
  disk_raw_image_name = internal.disk_raw_image_name;
  disk_raw_image_extension = internal.disk_raw_image_extension;
  kernel_build_target = internal.kernel_build_target;
  emulator_build_target = internal.emulator_build_target;
  device_resolution_map = internal.device_resolution_map;
  device_default_orientation_map = internal.device_default_orientation_map;
  no_project_access_msg_map = internal.no_project_access_msg_map;
  common_hw_property_map = internal.common_hw_property_map;
  metadata_variable = metadata;
  valid_branch_and_min_build_id = internal.valid_branch_and_min_build_id;
  precreated_data_image_map = internal.precreated_data_image;
  extra_data_disk_size_gb =
      or_else_ℤ usr.extra_data_disk_size_gb internal.default_usr_cfg.extra_data_disk_size_gb;
  extra_scopes = usr.extra_scopes;
  enable_multi_stage = usr.enable_multi_stage;
}

verified : AcloudConfig → Result (Unit {0}) → Result AcloudConfig
verified cfg (ok _) = ok cfg
verified cfg (err e) = err e

with_metadata : UserConfig → InternalConfig → Result (Dict String) → Result AcloudConfig
unfolding verified fields_of verify
with_metadata usr internal (err e) = err e
with_metadata usr internal (ok metadata) =
    verified (fields_of usr internal metadata) (verify (fields_of usr internal metadata))

-- AcloudConfig(usr_cfg, internal_cfg)
unfoldable pub init : UserConfig → InternalConfig → Result AcloudConfig
unfolding with_metadata disk_metadata or_else_ℤ
init usr internal = with_metadata usr internal (
    disk_metadata
      (is_positive
        (or_else_ℤ usr.extra_data_disk_size_gb internal.default_usr_cfg.extra_data_disk_size_gb))
      usr.metadata_variable internal.default_extra_data_disk_device
      (update internal.default_usr_cfg.metadata_variable usr.metadata_variable))

-- The steps of OverrideWithArgs, in the source's order.
override_spec : ParsedArgs → AcloudConfig → AcloudConfig
unfolding get_or or_else
override_spec args cfg =
    if str_eq args.which cmd_create && not (is_empty args.spec)
    then record cfg {
      resolution = or_else cfg.resolution (get_or cfg.device_resolution_map args.spec "");
      orientation =
          or_else cfg.orientation (get_or cfg.device_default_orientation_map args.spec "");
    }
    else cfg

override_account : ParsedArgs → AcloudConfig → AcloudConfig
unfolding or_else
override_account args cfg = record cfg {
  service_account_name = or_else args.email cfg.service_account_name;
  service_account_json_private_key_path =
      or_else args.service_account_json_private_key_path cfg.service_account_json_private_key_path;
}

override_base_image : ParsedArgs → AcloudConfig → AcloudConfig
unfolding or_else
override_base_image args cfg =
    if str_eq args.which "create_gf"
    then record cfg {
      stable_goldfish_host_image_name = or_else args.base_image cfg.stable_goldfish_host_image_name;
    }
    else cfg

override_hw : ParsedArgs → AcloudConfig → AcloudConfig
unfolding get_or or_else
override_hw args cfg =
    if str_eq args.which cmd_create && is_empty cfg.hw_property
    then record cfg {
      hw_property =
          get_or cfg.common_hw_property_map (or_else args.flavor Constants.flavor_phone) "";
    }
    else cfg

or_bool : Option Bool → Bool → Bool
or_bool none b = b
or_bool (some a) b = a

override_launch : ParsedArgs → AcloudConfig → AcloudConfig
unfolding or_else or_bool
override_launch args cfg =
    if str_eq args.which cmd_create || str_eq args.which "create_cf"
    then record cfg {
      network = or_else args.network cfg.network;
      enable_multi_stage = or_bool args.multi_stage_launch cfg.enable_multi_stage;
    }
    else cfg

override_zone : ParsedArgs → AcloudConfig → AcloudConfig
unfolding or_else
override_zone args cfg =
    if mem args.which (cmd_create ∷ "create_cf" ∷ "create_gf" ∷ [])
    then record cfg { zone = or_else args.zone cfg.zone }
    else cfg

-- The launch arguments but the number of instances, and the one that is given.
unfoldable pub scrubbed_args : ℕ → List String → List String
scrubbed_args num args =
    select (λ arg. not (contains_text num_instances_arg arg)) args
    ++ (num_instances_arg <> "=" <> str num) ∷ []

override_num : ParsedArgs → AcloudConfig → AcloudConfig
unfolding scrubbed_args
override_num args cfg =
    if str_eq args.which "create_cf" && ltb 1 args.num_avds_per_instance
    then record cfg {
      launch_args = join " " (scrubbed_args args.num_avds_per_instance (words cfg.launch_args));
    }
    else cfg

-- OverrideWithArgs
unfoldable pub override_with_args : ParsedArgs → AcloudConfig → AcloudConfig
unfolding override_spec override_account override_base_image override_hw override_launch
    override_zone override_num
override_with_args args cfg = override_num args (
    override_zone args (
      override_launch args (
        override_hw args
          (override_base_image args (override_account args (override_spec args cfg))))))

-- OverrideHwProperty; the type is None where it is not given.
unfoldable pub override_hw_property : String → Option String → AcloudConfig → AcloudConfig
unfolding get_or
override_hw_property flavor instance_type cfg = record cfg {
  hw_property = get_or cfg.common_hw_property_map (hw_key instance_type) default_hw_property;
}
  where
    hw_key : Option String → String
    hw_key none = flavor
    hw_key (some t) = if str_eq t Constants.instance_type_local then t <> "-" <> flavor else flavor

-- SupportRemoteInstance
unfoldable pub support_remote_instance : AcloudConfig → Bool
support_remote_instance cfg = not (is_empty cfg.project)

-- The files of the configuration: a file's text, and the parser of the text format.
pub record Files (W : Type 0) : Type 0 where
  pub exists : String → Exec W Bool
  pub read : String → Exec W String
  pub get_default_config_file : Exec W String
  pub parse_internal : String → Result InternalConfig
  pub parse_user : String → Result UserConfig
  pub empty_user : UserConfig

module _ {W : Type 0} (io : Files W) (parse_error : Exc → Bool) where
  -- LoadConfigFromProtocolBuffer, of a text that is read; `parse_error` are the exceptions of the parser.
  unfoldable pub load_message : {A : Type 0} → Result A → Exec W A
  load_message (ok a) = pure a
  load_message (err e) =
      if parse_error e
      then raise (exc config_error ("Could not parse config: " <> e.message))
      else raise e

  load_internal : String → Exec W InternalConfig
  unfolding load_message
  load_internal path = catch (io.read path >>= λ text. load_message (io.parse_internal text)) (λ e.
      if is_instance e os_error
      then raise (exc config_error ("Could not load config files: " <> e.message))
      else raise e)

  read_user : String → Exec W UserConfig
  unfolding load_message
  read_user path = io.read path >>= λ text. load_message (io.parse_user text)

  load_user : String → Exec W UserConfig
  unfolding read_user
  load_user user_config_path =
      if not (is_empty user_config_path)
      then (io.exists user_config_path >>= λ there.
          if there
          then read_user user_config_path
          else raise (exc config_error ("The file doesn't exist: " <> user_config_path)))
      else (io.get_default_config_file >>= λ path.
          io.exists path >>= λ there. if there then read_user path else pure io.empty_user)

  -- AcloudConfigManager.Load
  unfoldable pub load : String → String → Exec W AcloudConfig
  unfolding load_internal load_user init
  load internal_config_path user_config_path = load_internal internal_config_path >>= λ internal.
      load_user user_config_path >>= λ usr w. (init usr internal, w)

  -- GetAcloudConfig
  unfoldable pub get_acloud_config : String → String → ParsedArgs → Exec W AcloudConfig
  unfolding load override_with_args
  get_acloud_config internal_config_path config_file args =
      load internal_config_path config_file >>= λ cfg. pure (override_with_args args cfg)
