-- ===== src/DevicePool.antt =====
-- public/actions/common_operations.py: DevicePool and CreateDevices, with AndroidVirtualDevice of
-- public/avd.py and AVD_PORT_DICT of internal/lib/utils.py. The device factory, the compute client and
-- what connects to a device are a record of actions of the world. Logging and timing are left out.
pub mod Failures
pub mod Reported
pub mod Ended
use tools_acloud.Base.{
  [], none, some, ℕ, zero, suc, String, Bool, Option, List, ◌∷◌, ◌++◌, if◌then◌else◌, is_nil, ◌==◌,
}
use tools_acloud.Base.Dict.{Dict, lookup, insert, update}
use tools_acloud.Base.Text.{◌<>◌, str, is_empty}
use tools_acloud.Constants
use tools_acloud.Errors.{
  Exc, exc, is_instance, driver_error, device_boot_error, value_error, key_error,
}
use tools_acloud.Exec.{Exec, Result, ok, err, pure, raise, ◌>>=◌, handle, catch}
use tools_acloud.Report.{
  Report, Record, Value, Entry, init, txt, num, null, set_status, add_data, add_error, update_data,
}
use tools_acloud.Report.Steps.{method, world, change, note_failure}
use tools_acloud.Report.Status

pub record Ip : Type 0 where
  pub internal : String
  pub external : String

-- AndroidVirtualDevice
pub record Device : Type 0 where
  pub ip : Option Ip
  pub instance_name : String
  pub build_info : Record
  pub time_info : Record
  pub stage : ℕ

-- The ports of AutoConnect.
pub record Ports : Type 0 where
  pub vnc : Option ℕ
  pub adb : Option ℕ

-- The fields of the configuration that are read here; an absent path is empty.
pub record Cfg : Type 0 where
  pub ssh_private_key_path : String
  pub ssh_public_key_path : String

-- The arguments of CreateDevices but the factory, with None or False where one is not given.
pub record Options : Type 0 where
  pub command : String
  pub cfg : Cfg
  pub avd_type : String
  pub report_internal_ip : Bool
  pub autoconnect : Bool
  pub serial_log_file : Option String
  pub client_adb_port : Option ℕ
  pub boot_timeout_secs : Option ℕ
  pub unlock_screen : Bool
  pub wait_for_boot : Bool
  pub connect_webrtc : Bool

pub record Factory (W : Type 0) : Type 0 where
  pub create_ssh_key_pair_if_not_exist : String → String → Exec W (Unit {0})
  -- CreateInstance, GetBuildInfoDict and GetFailures of the factory.
  pub create_instance : Exec W String
  pub get_build_info_dict : Exec W Record
  pub get_failures : Exec W (Dict Exc)
  -- GetInstanceIP, WaitForBoot and GetSerialPortOutput of the client, and its attributes: execution_time
  -- and stage are empty and 0 where it has none.
  pub get_instance_ip : String → Exec W (Option Ip)
  pub wait_for_boot : String → Option ℕ → Exec W (Unit {0})
  pub get_serial_port_output : String → ℕ → Exec W String
  pub execution_time : W → Record
  pub stage : W → ℕ
  pub dict_report : W → Dict Entry
  -- A log that is encoded and written to a file of a temporary directory, and the tar file of such files.
  pub write_log : String → String → Exec W (Unit {0})
  pub make_tar_file : List String → String → Exec W (Unit {0})
  -- utils.AutoConnect with an address, the target ports and the client's adb port;
  -- AdbTools.AutoUnlockScreen; utils.EstablishWebRTCSshTunnel.
  pub auto_connect : String → Ports → Option ℕ → Exec W Ports
  pub auto_unlock_screen : Option ℕ → Exec W (Unit {0})
  pub establish_webrtc_ssh_tunnel : String → Exec W (Unit {0})

-- AVD_PORT_DICT
abbrev pub avd_port_dict : Dict Ports
avd_port_dict =
    (
      Constants.type_gce,
      record { vnc = some Constants.gce_vnc_port; adb = some Constants.gce_adb_port },
    )
    ∷ (
      Constants.type_cf,
      record { vnc = some Constants.cf_vnc_port; adb = some Constants.cf_adb_port },
    )
    ∷ (
      Constants.type_gf,
      record { vnc = some Constants.gf_vnc_port; adb = some Constants.gf_adb_port },
    )
    ∷ (
      Constants.type_cheeps,
      record { vnc = some Constants.cheeps_vnc_port; adb = some Constants.cheeps_adb_port },
    )
    ∷ (Constants.type_fvp, record { vnc = none; adb = some Constants.fvp_adb_port })
    ∷ []

-- _DICT_ERROR_TYPE[stage]
unfoldable pub error_type : ℕ → Result String
error_type stage =
    if stage == Constants.stage_init
    then ok "ACLOUD_INIT_ERROR"
    else if stage == Constants.stage_gce
    then ok "ACLOUD_CREATE_GCE_ERROR"
    else if stage == Constants.stage_artifact
    then ok "ACLOUD_DOWNLOAD_ARTIFACT_ERROR"
    else if stage == Constants.stage_boot_up
    then ok "ACLOUD_BOOT_UP_ERROR"
    else err (exc key_error (str stage))

unfoldable pub found_ports : Option Ports → String → Result Ports
found_ports none avd_type = err (exc key_error avd_type)
found_ports (some p) avd_type = ok p

-- AndroidVirtualDevice.ip
unfoldable pub device_ip : Option Ip → String → Result Ip
device_ip none instance_name =
    err (exc value_error ("IP of instance " <> instance_name <> " is unknown yet."))
device_ip (some ip) instance_name = ok ip

abbrev pub port_value : Option ℕ → Value
port_value none = null
port_value (some p) = num p

with_ports : Option Ports → Record → Record
with_ports none device_dict = device_dict
with_ports (some p) device_dict =
    insert Constants.adb_port (port_value p.adb)
      (insert Constants.vnc_port (port_value p.vnc) device_dict)

-- The `device_dict` of a device; an info that is empty changes nothing.
unfoldable pub device_dict : String → Device → Option Ports → Record
unfolding with_ports
device_dict ip d ports = with_ports ports (
    update (update (("ip", txt ip) ∷ ("instance_name", txt d.instance_name) ∷ []) d.build_info)
      d.time_info)

-- `if failures:`
abbrev pub status_of : Dict Exc → String
status_of failures = if is_nil failures then Status.success else Status.boot_fail

module _ {W : Type 0} where
  abbrev pub from_result : {A : Type 0} → Result A → Exec W A
  from_result r w = (r, w)

  -- The report, unless the exception leaves CreateDevices.
  unfoldable pub returned : Result (Unit {0}) × (Report × W) → Result Report × W
  returned (ok _, (r, w)) = (ok r, w)
  returned (err e, (r, w)) = (err e, w)

  module _ (io : Factory W) where
    -- CreateSshKeyPairIfNecessary; its last branch is never taken.
    unfoldable pub create_ssh_key_pair_if_necessary : Cfg → Exec W (Unit {0})
    create_ssh_key_pair_if_necessary cfg =
        if is_empty cfg.ssh_public_key_path
        then pure tt
        else if is_empty cfg.ssh_private_key_path
        then pure tt
        else io.create_ssh_key_pair_if_not_exist cfg.ssh_private_key_path cfg.ssh_public_key_path

    -- DevicePool.CreateDevices, on the devices so far.
    unfoldable pub pool_create_devices : ℕ → List Device → Exec W (List Device)
    pool_create_devices zero devices w = (ok devices, w)
    pool_create_devices (suc n) devices w =
        (io.create_instance >>= λ instance_name. io.get_instance_ip instance_name >>= λ ip v.
        pool_create_devices n
          (devices
            ++ record {
              ip = ip;
              instance_name = instance_name;
              build_info = [];
              time_info = io.execution_time v;
              stage = io.stage v;
            }
              ∷ [])
          v)
          w

    -- SetDeviceBuildInfo
    unfoldable pub set_device_build_info : List Device → Exec W (List Device)
    set_device_build_info [] w = (ok [], w)
    set_device_build_info (d ∷ devices) w =
        (io.get_build_info_dict >>= λ info.
        set_device_build_info devices >>= λ rest. pure (record d { build_info = info } ∷ rest))
          w

    -- DevicePool.WaitForBoot, on the failures so far.
    unfoldable pub pool_wait_for_boot : Option ℕ → List Device → Dict Exc → Exec W (Dict Exc)
    pool_wait_for_boot boot_timeout_secs [] failures w = (ok failures, w)
    pool_wait_for_boot boot_timeout_secs (d ∷ devices) failures w =
        let rest = pool_wait_for_boot boot_timeout_secs devices in
        handle (io.wait_for_boot d.instance_name boot_timeout_secs w) (λ _. rest failures)
          (λ e.
            if is_instance e device_boot_error
            then rest (insert d.instance_name e failures)
            else raise e)

    serial_log_name : Device → String
    serial_log_name d = d.instance_name <> "_serial_" <> str Constants.default_serial_port <> ".log"

    -- CollectSerialPortLogs: the files, then the tar file.
    unfoldable pub serial_logs : List Device → List String → Exec W (List String)
    unfolding serial_log_name
    serial_logs [] names w = (ok names, w)
    serial_logs (d ∷ devices) names w =
        (io.get_serial_port_output d.instance_name Constants.default_serial_port >>= λ serial_log.
        io.write_log (serial_log_name d) serial_log >>= λ _.
        serial_logs devices (names ++ serial_log_name d ∷ []))
          w

    collect_if : Option String → List Device → Exec W (Unit {0})
    unfolding serial_logs
    collect_if none devices = pure tt
    collect_if (some output_file) devices =
        if is_empty output_file
        then pure tt
        else (serial_logs devices [] >>= λ names. io.make_tar_file names output_file)

    -- `if autoconnect:`
    unfoldable pub forward : Options → String → Exec W (Option Ports)
    unfolding found_ports
    forward o ip =
        if o.autoconnect
        then (from_result (found_ports (lookup o.avd_type avd_port_dict) o.avd_type) >>= λ target.
            io.auto_connect ip target o.client_adb_port >>= λ ports.
            (if o.unlock_screen then io.auto_unlock_screen ports.adb else pure tt) >>= λ _.
            pure (some ports))
        else pure none

    -- The end of the loop's body: the device comes under one of the two keys.
    unfoldable pub file_device : Option Exc → Device → Record → Exec (Report × W) (Unit {0})
    unfolding method error_type
    file_device none d device = change (method (add_data "devices" device))
    file_device (some e) d device = world (from_result (error_type d.stage)) >>= λ t.
        change (method (add_data "devices_failing_boot" (insert "error_type" (txt t) device)))
        >>= λ _. change (method (λ r. ok (add_error e.message r)))

    abbrev pub address : Options → Ip → String
    address o ip = if o.report_internal_ip then ip.internal else ip.external

    unfoldable pub report_device : Options → Dict Exc → Device → Exec (Report × W) (Unit {0})
    unfolding device_ip forward file_device device_dict
    report_device o failures d = world (from_result (device_ip d.ip d.instance_name)) >>= λ ip.
        world (forward o (address o ip)) >>= λ ports.
        world (if o.connect_webrtc then io.establish_webrtc_ssh_tunnel (address o ip) else pure tt)
        >>= λ _.
            file_device (lookup d.instance_name failures) d (device_dict (address o ip) d ports)

    -- The loop over the devices.
    unfoldable pub report_each : Options → Dict Exc → List Device → Exec (Report × W) (Unit {0})
    unfolding report_device
    report_each o failures [] s = (ok tt, s)
    report_each o failures (d ∷ devices) s =
        (report_device o failures d >>= λ _. report_each o failures devices) s

    -- DevicePool.UpdateReport
    unfoldable pub update_report : Exec (Report × W) (Unit {0})
    update_report (r, w) = (ok tt, (update_data (io.dict_report w) r, w))

    unfoldable pub boot_failures : Options → List Device → Exec W (Dict Exc)
    unfolding pool_wait_for_boot
    boot_failures o devices =
        if o.wait_for_boot
        then pool_wait_for_boot o.boot_timeout_secs devices []
        else io.get_failures

    -- What follows once the failures are known.
    unfoldable pub report_all : Options → List Device → Dict Exc → Exec (Report × W) (Unit {0})
    unfolding collect_if update_report report_each method
    report_all o devices failures = change (method (set_status (status_of failures))) >>= λ _.
        world (collect_if o.serial_log_file devices) >>= λ _.
        update_report >>= λ _. report_each o failures devices

    -- The devices with their build info.
    unfoldable pub created : Options → ℕ → Exec W (List Device)
    unfolding create_ssh_key_pair_if_necessary pool_create_devices set_device_build_info
    created o n = create_ssh_key_pair_if_necessary o.cfg >>= λ _.
        pool_create_devices n [] >>= set_device_build_info

    -- The `try` of CreateDevices.
    unfoldable pub create_and_report : Options → ℕ → Exec (Report × W) (Unit {0})
    unfolding created boot_failures report_all
    create_and_report o n = world (created o n) >>= λ devices.
        world (boot_failures o devices) >>= λ failures. report_all o devices failures

    -- `except errors.DriverError as e`
    unfoldable pub on_driver_error : Exc → Exec (Report × W) (Unit {0})
    unfolding note_failure
    on_driver_error e = if is_instance e driver_error then note_failure e.message else raise e

    unfoldable pub create_devices : Options → ℕ → Exec W Report
    unfolding create_and_report on_driver_error returned
    create_devices o n w =
        returned (catch (create_and_report o n) on_driver_error (init o.command, w))
