-- ===== src/Args/Accepts.antt =====
-- Which arguments VerifyArgs lets pass.
use tools_acloud.Base.{true, false, String, Bool, Option, is_some, ℕ, str_eq, ◌≡◌, ◌⊎◌, All, ◌≤◌}
use tools_acloud.Constants
use tools_acloud.Args.{
  Args, truthy, is_missing, check_port_free, nonzero, equals, default_gpu, is_known, text_of,
}
use tools_acloud.Exec.{ok, err, Result}
use tools_acloud.Report.{given}
use tools_acloud.Base.Dict.{Dict, mem, keys}
use tools_acloud.HwProperty.{parse_hw_property_args}

-- A text that is None or empty.
abbrev pub Absent : Option String → Type 0
Absent o = truthy o ≡ false

-- What the options that only one kind of device has need of it.
pub record SuitsKind (args : Args) : Type 0 where
  pub cuttlefish_only :
      (str_eq args.avd_type Constants.type_cf ≡ true)
      ⊎ (Absent args.system_branch
          × Absent args.system_build_id
          × Absent args.system_build_target
          × (equals args.autoconnect Constants.ins_key_webrtc ≡ false))
  pub goldfish_only :
      (str_eq args.avd_type Constants.type_gf ≡ true) ⊎ (equals args.local_system_image "" ≡ true)
  pub cheeps_only :
      (str_eq args.avd_type Constants.type_cheeps ≡ true)
      ⊎ (Absent args.stable_cheeps_host_image_name
          × Absent args.stable_cheeps_host_image_project
          × Absent args.username
          × Absent args.password
          × Absent args.cheeps_betty_image)

-- The hw properties can be parsed, and each is a supported one.
abbrev pub HwAccepted : Result (Dict String) → Type 0
HwAccepted (ok d) = All (λ k. mem k Constants.hw_properties ≡ true) (keys d)
HwAccepted (err e) = ⊥

-- What holds of options that go together.
pub record IsConsistent (args : Args) : Type 0 where
  pub flavor_is_known : Absent args.flavor ⊎ (is_known args.flavor ≡ true)
  pub user_and_password : truthy args.username ≡ truthy args.password
  pub unlock_connects : (truthy args.autoconnect ≡ true) ⊎ (args.unlock_screen ≡ false)
  pub hw_is_known : HwAccepted (parse_hw_property_args (text_of args.hw_property))

-- What is fixed by the place the device runs at: here, on GCE, or on a host of the user's.
pub record SuitsPlace (args : Args) : Type 0 where
  pub one_device_here : (is_some args.local_instance ≡ false) ⊎ (args.num ≤ 1)
  pub not_on_host : (is_some args.local_instance ≡ false) ⊎ Absent args.remote_host
  pub one_device_on_host : Absent args.remote_host ⊎ (args.num ≤ 1)
  pub one_device_with_port : (nonzero args.adb_port ≡ false) ⊎ (args.num ≤ 1)
  pub gpu_is_named : (is_some args.local_instance ≡ true) ⊎ (equals args.gpu default_gpu ≡ false)
  pub user_of_host :
      (is_some args.remote_host ≡ true) ⊎ (str_eq args.host_user Constants.gce_user ≡ true)
  pub key_of_host : (is_some args.remote_host ≡ true) ⊎ Absent args.host_ssh_private_key_path

-- What the rest of the world must have.
pub record SuitsWorld (exists : String → Bool) (port_is_free : ℕ → Bool) (args : Args)
    : Type 0 where
  pub image_exists : is_missing exists args.local_image ≡ false
  pub system_image_exists : is_missing exists args.local_system_image ≡ false
  pub tools_exist : All (λ tool_dir. exists tool_dir ≡ true) args.local_tool
  pub port_can_be_taken : check_port_free port_is_free (given args.adb_port) ≡ ok tt
