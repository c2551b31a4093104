-- ===== src/Reconnect.antt =====
-- reconnect/reconnect.py. What is asked of the instances, of adb and of the tunnels is a record of actions
-- of the world; what is printed is left out.
pub mod Skipped
use tools_acloud.Base.{
  false, [], none, some, ℕ, String, Bool, Option, List, ◌∷◌, if◌then◌else◌, not, is_some, ◌&&◌,
}
use tools_acloud.Base.Dict.{lookup}
use tools_acloud.Base.Text.{◌<>◌, str, strip}
use tools_acloud.Constants
use tools_acloud.DevicePool.{Ports, avd_port_dict, port_value}
use tools_acloud.Errors.{exc, unknown_avd_type, port_occupied, Exc, is_instance, config_error}
use tools_acloud.Exec.{Exec, ok, pure, raise, ◌>>=◌, catch}
use tools_acloud.Report.{Report, Record, txt, add_data, add_error, given}
use tools_acloud.Report.Steps.{method, world, change}

-- The fields of an instance that are read.
pub record Device : Type 0 where
  pub name : String
  pub ip : String
  pub avd_type : String
  pub islocal : Bool
  pub adb_port : Option ℕ
  pub vnc_port : Option ℕ
  pub ssh_tunnel_is_connected : Bool
  pub display : String

pub record Tools (W : Type 0) : Type 0 where
  -- AdbTools of a port: its constructor asks adb for the devices.
  pub adb_tools : Option ℕ → Exec W (Unit {0})
  pub is_adb_connection_alive : Option ℕ → Exec W Bool
  pub disconnect_adb : Option ℕ → Exec W (Unit {0})
  pub connect_adb : Option ℕ → Exec W (Unit {0})
  -- enable_webrtc of a local instance's configuration.
  pub local_webrtc : Device → Exec W Bool
  -- Ssh.GetCmdOutput, and enable_webrtc of the configuration that CvdRuntimeConfig reads.
  pub get_cmd_output : Device → String → Exec W String
  pub cvd_runtime_config : String → Exec W Bool
  pub webrtc_port_occupied : Exec W Bool
  pub auto_connect : Device → Ports → Exec W Ports
  pub establish_webrtc_ssh_tunnel : Device → Exec W (Unit {0})
  pub launch_browser : Exec W (Unit {0})
  -- utils.IsCommandRunning, CleanupSSVncviewer, and LaunchVncClient with the size of the display, which
  -- the expression _RE_DISPLAY finds.
  pub is_command_running : String → Exec W Bool
  pub cleanup_ssvnc_viewer : ℕ → Exec W (Unit {0})
  pub match_display : String → Option (String × String)
  pub launch_vnc_client : ℕ → Option (String × String) → Exec W (Unit {0})
  -- AddPublicSshRsaToInstance
  pub add_public_ssh_rsa : String → Exec W (Unit {0})

-- REMOTE_LOG_FOLDER and CUTTLEFISH_CONFIG_FILE of internal/constants.py.
abbrev remote_cuttlefish_config : String
remote_cuttlefish_config = "/home/vsoc-01/cuttlefish_runtime/cuttlefish_config.json"

module _ {W : Type 0} (io : Tools W) where
  no_config : Exc → Exec W Bool
  no_config e = if is_instance e config_error then pure false else raise e

  -- _IsWebrtcEnable
  unfoldable pub is_webrtc_enable : Device → Exec W Bool
  unfolding no_config
  is_webrtc_enable d =
      if d.islocal
      then io.local_webrtc d
      else (io.get_cmd_output d ("cat " <> remote_cuttlefish_config) >>= λ raw_data.
          catch (io.cvd_runtime_config (strip raw_data)) no_config)

  -- StartVnc
  unfoldable pub start_vnc : ℕ → String → Exec W (Unit {0})
  start_vnc vnc_port display =
      io.is_command_running ("ssvnc vnc://127.0.0.1:" <> str vnc_port) >>= λ running.
      if running
      then pure tt
      else (io.cleanup_ssvnc_viewer vnc_port >>= λ _.
          io.launch_vnc_client vnc_port (io.match_display display))

  -- The ports after the connections have been made again.
  unfoldable pub connected : Device → Ports → Exec W Ports
  connected d target =
      if d.ssh_tunnel_is_connected
      then (io.is_adb_connection_alive d.adb_port >>= λ alive.
          if alive
          then pure (record { vnc = d.vnc_port; adb = d.adb_port })
          else (io.disconnect_adb d.adb_port >>= λ _. io.connect_adb d.adb_port >>= λ _.
              pure (record { vnc = d.vnc_port; adb = d.adb_port })))
      else if not d.islocal
      then (io.disconnect_adb d.adb_port >>= λ _. io.auto_connect d target)
      else pure (record { vnc = d.vnc_port; adb = d.adb_port })

  start_webrtc : Device → Exec W (Unit {0})
  start_webrtc d =
      (if d.islocal
        then (io.webrtc_port_occupied >>= λ occupied.
            if occupied
            then raise (
                exc port_occupied (
                  "\nReconnect to a local webrtc instance is not work because remote webrtc "
                  <> "instance has established ssh tunnel which occupied local webrtc instance "
                  <> "port. If you want to connect to a local-instance of webrtc. please run "
                  <> "'acloud create --local-instance --autoconnect webrtc' directly."))
            else pure tt)
        else io.establish_webrtc_ssh_tunnel d)
      >>= λ _. io.launch_browser

  start_vnc_if : Option ℕ → Bool → String → Exec W (Unit {0})
  unfolding start_vnc
  start_vnc_if none connect_vnc display = pure tt
  start_vnc_if (some port) connect_vnc display =
      if connect_vnc then start_vnc port display else pure tt

  -- The screen: webrtc or vnc.
  unfoldable pub show_screen : Device → Option ℕ → Bool → Exec W (Unit {0})
  unfolding is_webrtc_enable start_webrtc start_vnc_if
  show_screen d vnc_port connect_vnc = is_webrtc_enable d >>= λ webrtc.
      if webrtc then start_webrtc d else start_vnc_if (given vnc_port) connect_vnc d.display

  unfoldable pub reconnect_record : Device → Ports → Record
  reconnect_record d ports =
      (Constants.ip, txt d.ip)
      ∷ (Constants.instance_name, txt d.name)
      ∷ (Constants.vnc_port, port_value ports.vnc)
      ∷ (Constants.adb_port, port_value ports.adb)
      ∷ []

  -- A device without one of the ports has failed.
  unfoldable pub file_reconnected : Device → Ports → Exec Report (Unit {0})
  unfolding method reconnect_record
  file_reconnected d ports =
      if is_some (given ports.vnc) && is_some (given ports.adb)
      then method (add_data "devices" (reconnect_record d ports))
      else (method (add_data "device_failing_reconnect" (reconnect_record d ports)) >>= λ _.
          method (λ r. ok (add_error d.name r)))

  reconnect_to : Device → Bool → Option Ports → Exec (Report × W) (Unit {0})
  unfolding connected show_screen file_reconnected
  reconnect_to d connect_vnc none = raise (
      exc unknown_avd_type
        ("Unable to reconnect to instance (" <> d.name <> ") of unknown avd type: " <> d.avd_type))
  reconnect_to d connect_vnc (some target) = world (io.adb_tools d.adb_port) >>= λ _.
      world (connected d target) >>= λ ports.
      world (show_screen d ports.vnc connect_vnc) >>= λ _. change (file_reconnected d ports)

  -- ReconnectInstance
  unfoldable pub reconnect_instance : Device → Bool → Exec (Report × W) (Unit {0})
  unfolding reconnect_to
  reconnect_instance d connect_vnc = reconnect_to d connect_vnc (lookup d.avd_type avd_port_dict)

  -- The loop of Run.
  unfoldable pub reconnect_each : Bool → List Device → Exec (Report × W) (Unit {0})
  unfolding reconnect_instance
  reconnect_each autoconnect [] s = (ok tt, s)
  reconnect_each autoconnect (d ∷ devices) s =
      ((if not (is_some (lookup d.avd_type avd_port_dict))
            then pure tt
            else ((if d.islocal then pure tt else world (io.add_public_ssh_rsa d.name)) >>= λ _.
                reconnect_instance d autoconnect))
          >>= λ _. reconnect_each autoconnect devices)
        s
