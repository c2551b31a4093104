-- ===== src/LocalCreate.antt =====
-- create/local_image_local_instance.py: LocalImageLocalInstance, with AddUserGroupsToCmd of
-- internal/lib/utils.py. What it calls of the system, of the locks and of the running instances is a
-- record of actions of the world. Logging and timing are left out.
pub mod Selected
pub mod Unlocked
pub mod LockFiles
pub mod Launched
use tools_acloud.Base.{
  true, false, [], none, some, ℕ, zero, suc, String, Bool, Option, List, ◌∷◌, if◌then◌else◌, not,
}
use tools_acloud.Base.Dict.{Dict, lookup, mem}
use tools_acloud.Base.Ints.{ℤ, str_ℤ, is_zero}
use tools_acloud.Base.Text.{◌<>◌, str, path_join, is_empty}
use tools_acloud.Constants
use tools_acloud.Errors.{
  Exc, exc, is_instance, launch_cvd_fail, key_error, system_exit, get_cvd_local_host_package_error,
}
use tools_acloud.Exec.{Exec, Result, ok, err, pure, raise, ◌>>=◌, finally, handle, user_exit}
use tools_acloud.LocalInstance.{
  get_local_instance_name, get_local_instance_home_dir, get_local_instance_runtime_dir,
}
use tools_acloud.Report.{
  Report, init, set_status, add_error, add_device, add_device_boot_failure, given,
}
use tools_acloud.Report.Status

-- The fields of the AVDSpec that are read here.
pub record Spec : Type 0 where
  pub local_instance_id : Option ℕ
  pub local_image_dir : String
  pub local_tool_dirs : List String
  pub hw_property : Dict String
  pub connect_adb : Bool
  pub connect_vnc : Bool
  pub connect_webrtc : Bool
  pub unlock_screen : Bool
  pub gpu : String
  pub boot_timeout_secs : Option ℕ

-- The instance that GetActiveCVD gives: its ports.
pub record Active : Type 0 where
  pub adb_port : Option ℕ
  pub vnc_port : Option ℕ

-- The methods of the LocalInstanceLock of an instance id. The locks are a world of their own, which
-- nothing else that is called here changes.
pub record Locks (L : Type 0) : Type 0 where
  pub lock : ℕ → Exec L Bool
  pub lock_if_not_in_use : ℕ → ℕ → Exec L Bool
  pub set_in_use : ℕ → Bool → Exec L (Unit {0})
  pub unlock : ℕ → Exec L (Unit {0})

pub record Host (W : Type 0) : Type 0 where
  -- utils.IsSupportedPlatform, and GetImageArtifactsPath, which a subclass overrides.
  pub is_supported_platform : Exec W Bool
  pub get_image_artifacts_path : Spec → Exec W (String × String)
  -- list.GetActiveCVD, Delete of that instance, utils.GetUserAnswerYes.
  pub get_active_cvd : ℕ → Exec W (Option Active)
  pub delete_active : ℕ → Exec W (Unit {0})
  pub get_user_answer_yes : String → Exec W Bool
  pub release_port : ℕ → Exec W (Unit {0})
  -- The names of os.getgroups().
  pub current_groups : Exec W (List String)
  pub is_file : String → Exec W Bool
  pub get_environ : String → Exec W (Option String)
  pub rmtree : String → Exec W (Unit {0})
  pub makedirs : String → Exec W (Unit {0})
  -- The command with the variables that are added to the environment, killed after so many seconds:
  -- the return code.
  pub run_process : String → Dict String → ℕ → Exec W ℤ
  pub launch_vnc_from_report : Report → Exec W (Unit {0})
  pub launch_browser_from_report : Report → Exec W (Unit {0})
  pub auto_unlock_screen : Option ℕ → Exec W (Unit {0})

-- _MAX_INSTANCE_ID
abbrev pub max_instance_id : ℕ
max_instance_id = 10

abbrev pub instances_in_use_msg : String
instances_in_use_msg =
    "All instances are in use. Try resetting an instance by specifying --local-instance and an id between 1 and "
    <> str max_instance_id
    <> "."

abbrev pub cvd_status_failure : String
cvd_status_failure = "cvd_status return non-zero after launch_cvd"

-- The loop of AddUserGroupsToCmd; `first` is `idx == 0`.
unfoldable pub group_commands : Bool → List String → String
group_commands first [] = ""
group_commands first (group ∷ groups) =
    ("sg " <> group) <> (if first then " <<EOF\n" else "\n") <> group_commands false groups

-- CheckUserInGroups
unfoldable pub check_user_in_groups : List String → List String → Bool
check_user_in_groups [] current_groups = true
check_user_in_groups (group ∷ groups) current_groups =
    let rest = check_user_in_groups groups current_groups in
    if mem group current_groups then rest else false

unfoldable pub add_user_groups_to_cmd : String → List String → List String → String
unfolding check_user_in_groups group_commands
add_user_groups_to_cmd cmd user_groups current_groups =
    if not (check_user_in_groups user_groups current_groups)
    then group_commands true user_groups <> (cmd <> "\nEOF")
    else cmd

-- `hw_property[key]`
unfoldable pub hw_value : Dict String → String → Result String
hw_value d key = found (lookup key d)
  where
    found : Option String → Result String
    found none = err (exc key_error key)
    found (some v) = ok v

disk_args : Option String → String
disk_args none = ""
disk_args (some disk) = " -blank_data_image_mb " <> disk <> " -data_policy always_create"

webrtc_args : Bool → String
webrtc_args connect_webrtc =
    if connect_webrtc
    then " -guest_enforce_security=false -vm_manager=crosvm -start_webrtc=true -webrtc_public_ip="
      <> Constants.localhost
    else ""

gpu_args : String → String
gpu_args gpu = if is_empty gpu then "" else " -gpu_mode=drm_virgl"

module _ {W : Type 0} where
  abbrev pub lift : {A : Type 0} → Result A → Exec W A
  lift r w = (r, w)

  abbrev pub when : Bool → Exec W (Unit {0}) → Exec W (Unit {0})
  when b m = if b then m else pure tt

  -- PrepareLaunchCVDCmd
  unfoldable pub prepare_launch_cvd_cmd :
      Host W → String → String → Dict String → Bool → String → ℕ → Bool → String → Exec W String
  unfolding hw_value disk_args webrtc_args gpu_args
  prepare_launch_cvd_cmd io temp_dir launch_cvd_path hw connect_adb system_image_dir id
        connect_webrtc gpu =
      lift (hw_value hw Constants.hw_alias_cpus) >>= λ cpu.
      lift (hw_value hw Constants.hw_x_res) >>= λ x_res.
      lift (hw_value hw Constants.hw_y_res) >>= λ y_res.
      lift (hw_value hw Constants.hw_alias_dpi) >>= λ dpi.
      lift (hw_value hw Constants.hw_alias_memory) >>= λ memory.
      io.current_groups >>= λ current_groups. pure (
        add_user_groups_to_cmd
          (launch_cvd_path
            <> " -daemon -cpus "
            <> cpu
            <> " -x_res "
            <> x_res
            <> " -y_res "
            <> y_res
            <> " -dpi "
            <> dpi
            <> " -memory_mb "
            <> memory
            <> " -run_adb_connector="
            <> (if connect_adb then "true" else "false")
            <> " -system_image_dir "
            <> system_image_dir
            <> " -instance_dir "
            <> get_local_instance_runtime_dir temp_dir id
            <> " -undefok=report_anonymous_usage_stats,enable_sandbox -report_anonymous_usage_stats=y -enable_sandbox=false"
            <> disk_args (lookup Constants.hw_alias_disk hw)
            <> webrtc_args connect_webrtc
            <> gpu_args gpu)
          Constants.list_cf_user_groups current_groups)

  module _ (io : Host W) (temp_dir : String) where
    returned_code : String → ℤ → Exec W (Unit {0})
    returned_code cvd_runtime_dir code =
        if is_zero code
        then pure tt
        else raise (
            exc launch_cvd_fail (
              "Can't launch cuttlefish AVD. Return code:"
              <> str_ℤ code
              <> ". \nFor more detail: "
              <> cvd_runtime_dir
              <> "/launcher.log"))

    -- _LaunchCvd
    unfoldable pub launch_cvd : String → ℕ → String → ℕ → Exec W (Unit {0})
    unfolding returned_code
    launch_cvd cmd id host_bins_path timeout =
        io.rmtree (get_local_instance_home_dir temp_dir id) >>= λ _.
        io.makedirs (get_local_instance_runtime_dir temp_dir id) >>= λ _.
        io.run_process cmd
          ((Constants.env_android_host_out, host_bins_path)
            ∷ ("HOME", get_local_instance_home_dir temp_dir id)
            ∷ ("CUTTLEFISH_INSTANCE", str id)
            ∷ [])
          timeout
        >>= returned_code (get_local_instance_runtime_dir temp_dir id)

    -- The report of a launch that failed.
    unfoldable pub boot_failure : ℕ → String → Exec W Report
    boot_failure id error = lift (set_status Status.boot_fail (init "create")) >>= λ r.
        lift (
          add_device_boot_failure (get_local_instance_name id) Constants.localhost none none error
            r)

    -- After the launch: the instance that runs, or none.
    unfoldable pub report_active : Spec → ℕ → Option Active → Exec W Report
    unfolding boot_failure
    report_active spec id none = boot_failure id cvd_status_failure
    report_active spec id (some ins) = lift (set_status Status.success (init "create")) >>= λ r.
        lift (
          add_device (get_local_instance_name id) Constants.localhost ins.adb_port ins.vnc_port
            "devices" r)
        >>= λ r'. when spec.connect_vnc (io.launch_vnc_from_report r') >>= λ _.
            when spec.connect_webrtc (io.launch_browser_from_report r') >>= λ _.
            when spec.unlock_screen (io.auto_unlock_screen ins.adb_port) >>= λ _. pure r'

    -- `except errors.LaunchCVDFail`
    unfoldable pub after_failed_launch : ℕ → Exc → Exec W Report
    unfolding boot_failure
    after_failed_launch id e =
        if is_instance e launch_cvd_fail then boot_failure id e.message else raise e

    -- `avd_spec.boot_timeout_secs or constants.DEFAULT_CF_BOOT_TIMEOUT`
    abbrev pub boot_timeout : Option ℕ → ℕ
    boot_timeout none = Constants.default_cf_boot_timeout
    boot_timeout (some secs) = secs

    -- _CreateInstance
    unfoldable pub create_instance : ℕ → String → String → Spec → Exec W Report
    unfolding prepare_launch_cvd_cmd launch_cvd report_active after_failed_launch
    create_instance id local_image_path host_bins_path spec =
        when spec.connect_webrtc (io.release_port Constants.webrtc_local_port) >>= λ _.
        prepare_launch_cvd_cmd io temp_dir
          (path_join (path_join host_bins_path "bin") Constants.cmd_launch_cvd) spec.hw_property
          spec.connect_adb local_image_path id spec.connect_webrtc spec.gpu
        >>= λ cmd w.
            handle
              (launch_cvd cmd id host_bins_path (boot_timeout (given spec.boot_timeout_secs)) w)
              (λ _. io.get_active_cvd id >>= report_active spec id) (after_failed_launch id)

    confirm_relaunch : ℕ → String
    confirm_relaunch id =
        "\nCuttlefish AVD[id:"
        <> str id
        <> "] is already running. \nEnter 'y' to terminate current instance and launch a new instance, enter anything else to exit out[y/N]: "

    -- What _CheckRunningCvd does with the instance that runs.
    relaunch : ℕ → Bool → Option Active → Exec W Bool
    unfolding confirm_relaunch
    relaunch id no_prompts none = pure true
    relaunch id no_prompts (some ins) =
        (if no_prompts then pure true else io.get_user_answer_yes (confirm_relaunch id)) >>= λ yes.
        if yes then (io.delete_active id >>= λ _. pure true) else pure false

    unfoldable pub check_running_cvd : ℕ → Bool → Exec W Bool
    unfolding relaunch
    check_running_cvd id no_prompts = io.get_active_cvd id >>= relaunch id no_prompts

    -- _FindCvdHostBinaries: the loop over the paths, then the directory of the environment.
    has_launch_cvd : String → Exec W Bool
    has_launch_cvd dir = io.is_file (path_join (path_join dir "bin") Constants.cmd_launch_cvd)

    binaries_not_found : Exec W String
    binaries_not_found = raise (
        exc get_cvd_local_host_package_error
          "CVD host binaries are not found. Please run `make hosttar`, or set --local-tool to an extracted CVD host package.")

    in_host_out : Option String → Exec W String
    unfolding has_launch_cvd binaries_not_found
    in_host_out none = binaries_not_found
    in_host_out (some dir) =
        if is_empty dir
        then binaries_not_found
        else (has_launch_cvd dir >>= λ there. if there then pure dir else binaries_not_found)

    unfoldable pub find_cvd_host_binaries : List String → Exec W String
    unfolding in_host_out
    find_cvd_host_binaries [] w = (io.get_environ Constants.env_android_host_out >>= in_host_out) w
    find_cvd_host_binaries (dir ∷ search_paths) w =
        (has_launch_cvd dir >>= λ there.
        if there then pure dir else find_cvd_host_binaries search_paths)
          w

    -- GetImageArtifactsPath of the class itself.
    unfoldable pub get_image_artifacts_path : Spec → Exec W (String × String)
    unfolding find_cvd_host_binaries
    get_image_artifacts_path spec =
        find_cvd_host_binaries spec.local_tool_dirs >>= λ dir. pure (spec.local_image_dir, dir)

module _ {L : Type 0} (locks : Locks L) where
  -- The loop over range(1, _MAX_INSTANCE_ID + 1), with the number of candidates that are left.
  unfoldable pub select_id : ℕ → ℕ → Exec L (Option ℕ)
  select_id zero candidate_id l = (ok none, l)
  select_id (suc n) candidate_id l =
      (locks.lock_if_not_in_use candidate_id 0 >>= λ got.
      if got then pure (some candidate_id) else select_id n (suc candidate_id))
        l

  -- The lock of the instance id that the spec gives.
  unfoldable pub lock_id : ℕ → Exec L (Option ℕ)
  lock_id id = locks.lock id >>= λ got. pure (if got then some id else none)

  unfoldable pub determine_id : Option ℕ → Exec L (Option ℕ)
  unfolding lock_id select_id
  determine_id (some id) = lock_id id
  determine_id none = select_id max_instance_id 1

module _ {L W : Type 0} where
  abbrev pub on_locks : {A : Type 0} → Exec L A → Exec (L × W) A
  on_locks m (l, w) = let (a, l') = m l in (a, (l', w))

  abbrev pub on_host : {A : Type 0} → Exec W A → Exec (L × W) A
  on_host m (l, w) = let (a, w') = m w in (a, (l, w'))

  module _ (locks : Locks L) (io : Host W) (temp_dir : String) where
    -- The `try` of _CreateAVD.
    unfoldable pub create_locked : ℕ → Bool → Spec → String → String → Exec (L × W) Report
    unfolding check_running_cvd create_instance
    create_locked id no_prompts spec local_image_path host_bins_path =
        on_host (check_running_cvd io temp_dir id no_prompts) >>= λ go_on.
        if not go_on
        then (on_locks (locks.set_in_use id true) >>= λ _. raise user_exit)
        else (on_host (create_instance io temp_dir id local_image_path host_bins_path spec) >>= λ r.
            on_locks (locks.set_in_use id true) >>= λ _. pure r)

    fail_report : Exec (L × W) Report
    fail_report = lift (set_status Status.fail (init "create"))

    error_report : String → Exec (L × W) Report
    error_report message = lift (set_status Status.fail (add_error message (init "create")))

    unfoldable pub create_or_report :
        Bool → Spec → String → String → String → Option ℕ → Exec (L × W) Report
    unfolding create_locked error_report
    create_or_report no_prompts spec local_image_path host_bins_path message none =
        error_report message
    create_or_report no_prompts spec local_image_path host_bins_path message (some id) =
        finally (create_locked id no_prompts spec local_image_path host_bins_path)
          (on_locks (locks.unlock id))

    no_id_message : Option ℕ → String
    no_id_message (some id) = "Instance " <> str id <> " is locked by another process."
    no_id_message none = instances_in_use_msg

    -- _CreateAVD
    unfoldable pub create_avd : Spec → Bool → Exec (L × W) Report
    unfolding determine_id create_or_report fail_report no_id_message
    create_avd spec no_prompts = on_host io.is_supported_platform >>= λ supported.
        if not supported
        then fail_report
        else (on_host (io.get_image_artifacts_path spec) >>= λ (local_image_path, host_bins_path).
            on_locks (determine_id locks (given spec.local_instance_id))
            >>= create_or_report no_prompts spec local_image_path host_bins_path
                (no_id_message (given spec.local_instance_id)))
