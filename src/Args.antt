-- ===== src/Args.antt =====
-- create/create_args.py: VerifyArgs, _VerifyLocalArgs, _VerifyHostArgs, and utils.CheckPortFree. What
-- the file system and the ports answer during the check is a parameter. The parser itself, which is
-- argparse with its tables, is not modelled.
pub mod Accepts
pub mod Facts
pub mod Accepted
use tools_acloud.Base.{
  true, false, [], none, some, List, ℕ, ◌&&◌, Bool, String, Option, if◌then◌else◌, ◌∷◌, str_eq, not,
  is_some, ◌||◌, ◌==◌, ltb,
}
use tools_acloud.Constants
use tools_acloud.Report.{given}
use tools_acloud.HwProperty.{parse_hw_property_args}
use tools_acloud.Exec.{Result, ok, err}
use tools_acloud.Base.Dict.{Dict, mem, keys}
use tools_acloud.Errors.{
  Exc, exc, unsupported_flavor, check_path_error, unsupported_create_args, value_error,
  invalid_hw_property_error, port_occupied, unsupported_multi_adb_port,
}
use tools_acloud.Base.Text.{is_empty, ◌<>◌, str}

-- The fields of the parsed arguments that VerifyArgs reads. A text that may be None is an Option;
-- `autoconnect` is none for the False of --no-autoconnect, and an image is none when its option has no value.
-- A count or a port is not negative.
pub record Args : Type 0 where
  pub flavor : Option String
  pub avd_type : String
  pub system_branch : Option String
  pub system_build_id : Option String
  pub system_build_target : Option String
  pub num : ℕ
  pub adb_port : Option ℕ
  pub local_instance : Option ℕ
  pub gpu : Option String
  pub hw_property : Option String
  pub stable_cheeps_host_image_name : Option String
  pub stable_cheeps_host_image_project : Option String
  pub username : Option String
  pub password : Option String
  pub cheeps_betty_image : Option String
  pub autoconnect : Option String
  pub unlock_screen : Bool
  pub local_image : Option String
  pub local_system_image : Option String
  pub local_tool : List String
  pub remote_host : Option String
  pub host_user : String
  pub host_ssh_private_key_path : Option String

-- `bool(s)`: None and the empty text are false.
abbrev pub truthy : Option String → Bool
truthy none = false
truthy (some s) = not (is_empty s)

-- `s == t`, where s may be None.
abbrev pub equals : Option String → String → Bool
equals none t = false
equals (some s) t = str_eq s t

-- `s or ""`
abbrev pub text_of : Option String → String
text_of none = ""
text_of (some s) = s

-- `path and not os.path.exists(path)`
abbrev pub is_missing : (String → Bool) → Option String → Bool
is_missing exists none = false
is_missing exists (some path) = not (is_empty path) && not (exists path)

-- `bool(n)`: None and 0 are false.
abbrev pub nonzero : Option ℕ → Bool
nonzero none = false
nonzero (some n) = not (n == 0)

abbrev pub Check : Type 0
Check = Result (Unit {0})

-- `if c: raise e`, before the rest.
abbrev pub reject : Bool → Exc → Check → Check
reject true e next = err e
reject false e next = next

abbrev pub then_check : Check → Check → Check
then_check (ok _) next = next
then_check (err e) next = err e

-- CheckPortFree
unfoldable pub check_port_free : (ℕ → Bool) → Option ℕ → Check
check_port_free port_is_free none = ok tt
check_port_free port_is_free (some port) =
    if port_is_free port
    then ok tt
    else err (exc port_occupied ("Port (" <> str port <> ") is taken, please choose another port."))

unsupported : String → Exc
unsupported message = exc unsupported_create_args message

no_path : String → Exc
no_path path = exc check_path_error ("Specified path doesn't exist: " <> path)

-- The loop over args.local_tool.
unfoldable pub check_tools : (String → Bool) → List String → Check
unfolding no_path
check_tools exists [] = ok tt
check_tools exists (tool_dir ∷ tool_dirs) =
    let rest = check_tools exists tool_dirs in
    if exists tool_dir then rest else err (no_path tool_dir)

-- _VerifyLocalArgs
unfoldable pub verify_local_args : (String → Bool) → Args → Check
unfolding no_path unsupported check_tools
verify_local_args exists args =
    reject (is_missing exists args.local_image) (no_path (text_of args.local_image)) (
      reject
        (not (equals args.local_system_image "") && not (str_eq args.avd_type Constants.type_gf))
        (unsupported (args.avd_type <> " instance does not support --local-system-image"))
        (reject (is_missing exists args.local_system_image)
          (no_path (text_of args.local_system_image))
          (then_check (check_tools exists args.local_tool) (
            reject
              (equals args.autoconnect Constants.ins_key_webrtc
                && not (str_eq args.avd_type Constants.type_cf))
              (unsupported "'--autoconnect webrtc' only support cuttlefish.") (ok tt)))))

-- _VerifyHostArgs
unfoldable pub verify_host_args : Args → Check
unfolding unsupported
verify_host_args args =
    reject (truthy args.remote_host && is_some args.local_instance)
      (unsupported "--host is not supported for local instance.")
      (reject (truthy args.remote_host && ltb 1 args.num)
        (unsupported "--num is not supported for remote host.")
        (reject (not (str_eq args.host_user Constants.gce_user) && not (is_some args.remote_host))
          (unsupported "--host-user only support for remote host.")
          (reject (truthy args.host_ssh_private_key_path && not (is_some args.remote_host))
            (unsupported "--host-ssh-private-key-path only support for remote host.") (ok tt))))

-- The loop over the keys of the hw properties.
unfoldable pub check_hw_properties : List String → Check
check_hw_properties [] = ok tt
check_hw_properties (key ∷ rest) =
    let next = check_hw_properties rest in
    if mem key Constants.hw_properties
    then next
    else err (exc invalid_hw_property_error ("[" <> key <> "] is an invalid hw property"))

check_parsed : Result (Dict String) → Check
unfolding check_hw_properties
check_parsed (ok hw_properties) = check_hw_properties (keys hw_properties)
check_parsed (err e) = err e

-- `args.flavor in constants.ALL_FLAVORS`
abbrev pub is_known : Option String → Bool
is_known none = false
is_known (some flavor) = mem flavor Constants.all_flavors

abbrev pub default_gpu : String
default_gpu = "default"

-- The part of VerifyArgs that follows the hw properties.
unfoldable pub verify_rest : (String → Bool) → Args → Check
unfolding unsupported verify_local_args verify_host_args
verify_rest exists args =
    reject
      (not (str_eq args.avd_type Constants.type_cheeps)
        && (truthy args.stable_cheeps_host_image_name
            || truthy args.stable_cheeps_host_image_project
            || truthy args.username
            || truthy args.password
            || truthy args.cheeps_betty_image))
      (unsupported
        "--stable-cheeps-*, --betty-image, --username and --password are only valid with avd_type == cheeps")
      (reject
        ((truthy args.username || truthy args.password)
          && not (truthy args.username && truthy args.password))
        (exc value_error "--username and --password must both be set")
        (reject (not (truthy args.autoconnect) && args.unlock_screen)
          (exc value_error "--no-autoconnect and --unlock couldn't be passed in together.")
          (then_check (verify_local_args exists args) (verify_host_args args))))

-- VerifyArgs; the messages leave out the lists of supported values.
unfoldable pub verify_args : (String → Bool) → (ℕ → Bool) → Args → Check
unfolding unsupported check_port_free check_parsed verify_rest
verify_args exists port_is_free args =
    reject (truthy args.flavor && not (is_known args.flavor))
      (exc unsupported_flavor "Flavor isn't in support list")
      (reject
        (not (str_eq args.avd_type Constants.type_cf)
          && (truthy args.system_branch
              || truthy args.system_build_id
              || truthy args.system_build_target))
        (unsupported ("--system-* args are not supported for AVD type: " <> args.avd_type))
        (reject (ltb 1 args.num && nonzero args.adb_port)
          (exc unsupported_multi_adb_port "--adb-port is not supported for multi-devices.")
          (reject (ltb 1 args.num && is_some args.local_instance)
            (unsupported "--num is not supported for local instance.")
            (reject (not (is_some args.local_instance) && equals args.gpu default_gpu)
              (unsupported "Please assign one gpu model for GCE instance.")
              (then_check (check_port_free port_is_free (given args.adb_port)) (
                then_check (check_parsed (parse_hw_property_args (text_of args.hw_property)))
                  (verify_rest exists args)))))))
