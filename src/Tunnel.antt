-- ===== src/Tunnel.antt =====
-- internal/lib/utils.py: AutoConnect, EstablishWebRTCSshTunnel, ReleasePort and the running of commands.
-- What is run is an action of the world; shlex.split is a parameter.
pub mod Connected
use tools_acloud.Base.{[], none, some, ℕ, String, Option, List, ◌∷◌, ◌++◌, if◌then◌else◌}
use tools_acloud.Base.Text.{◌<>◌, str, join, words, is_empty}
use tools_acloud.Constants
use tools_acloud.DevicePool.{Ports}
use tools_acloud.Errors.{Exc, exc, is_instance, called_process_error, no_execute_cmd}
use tools_acloud.Exec.{Exec, Result, pure, raise, ◌>>=◌, handle, catch}
use tools_acloud.Report.{given}

pub record Shell (W : Type 0) : Type 0 where
  pub find_executable : String → Exec W (Option String)
  pub check_call : List String → Exec W (Unit {0})
  pub check_shell : String → Exec W (Unit {0})
  pub pick_free_port : Exec W ℕ
  pub shlex_split : String → Result (List String)

-- PORT_MAPPING
unfoldable pub port_mapping : ℕ → ℕ → String
port_mapping local_port target_port =
    "-L " <> str local_port <> ":127.0.0.1:" <> str target_port <> " "

-- WEBRTC_PORTS_MAPPING: the local and the target ports.
abbrev pub webrtc_ports_mapping : List (ℕ × ℕ)
webrtc_ports_mapping = (Constants.webrtc_local_port, 8443) ∷ (15550, 15550) ∷ (15551, 15551) ∷ []

unfoldable pub port_mappings : List (ℕ × ℕ) → List String
unfolding port_mapping
port_mappings [] = []
port_mappings ((local_port, target_port) ∷ ports) =
    port_mapping local_port target_port ∷ port_mappings ports

-- _SSH_TUNNEL_ARGS
unfoldable pub ssh_tunnel_args : String → List String → String → String → String
ssh_tunnel_args rsa_key_file mappings ssh_user ip_addr =
    "-i "
    <> rsa_key_file
    <> " -o UserKnownHostsFile=/dev/null -o StrictHostKeyChecking=no "
    <> join " " mappings
    <> "-N -f -l "
    <> ssh_user
    <> " "
    <> ip_addr

module _ {W : Type 0} (io : Shell W) where
  -- _ExecuteCommand; a path that is empty counts as none.
  run_command : String → List String → Option String → Exec W (Unit {0})
  run_command cmd args none = raise (exc no_execute_cmd ("unable to locate " <> cmd))
  run_command cmd args (some bin_path) =
      if is_empty bin_path
      then raise (exc no_execute_cmd ("unable to locate " <> cmd))
      else io.check_call (bin_path ∷ args)

  unfoldable pub execute_command : String → List String → Exec W (Unit {0})
  unfolding run_command
  execute_command cmd args = io.find_executable cmd >>= run_command cmd args

  -- `except subprocess.CalledProcessError`: what is printed is left out.
  unfoldable pub unless_called_process_error : {A : Type 0} → A → Exc → Exec W A
  unless_called_process_error a e = if is_instance e called_process_error then pure a else raise e

  -- ReleasePort
  unfoldable pub release_port : ℕ → Exec W (Unit {0})
  unfolding unless_called_process_error
  release_port port =
      catch (io.check_shell ("kill $(lsof -t -i :" <> str port <> ")"))
        (unless_called_process_error tt)

  -- The arguments of ssh, with the extra ones if there are any.
  split_args : String → Option String → Exec W (List String)
  split_args args none w = (io.shlex_split args, w)
  split_args args (some extra) w =
      (lift_split (io.shlex_split args) >>= λ first.
      lift_split (io.shlex_split extra) >>= λ rest. pure (first ++ rest))
        w
    where
      lift_split : Result (List String) → Exec W (List String)
      lift_split r w = (r, w)

  pub open_tunnel : String → Option String → Exec W (Unit {0})
  unfolding split_args execute_command
  open_tunnel args extra_args_ssh_tunnel =
      split_args args extra_args_ssh_tunnel >>= execute_command "ssh"

  -- EstablishWebRTCSshTunnel
  unfoldable pub establish_webrtc_ssh_tunnel :
      String → String → String → Option String → Exec W (Unit {0})
  unfolding open_tunnel release_port port_mappings ssh_tunnel_args unless_called_process_error
  establish_webrtc_ssh_tunnel ip_addr rsa_key_file ssh_user extra_args_ssh_tunnel =
      release_port Constants.webrtc_local_port >>= λ _.
      catch
        (open_tunnel
          (ssh_tunnel_args rsa_key_file (port_mappings webrtc_ports_mapping) ssh_user ip_addr)
          extra_args_ssh_tunnel)
        (unless_called_process_error tt)

  port_or_free : Option ℕ → Exec W ℕ
  port_or_free none = io.pick_free_port
  port_or_free (some port) = pure port

  -- The local port for vnc and the mapping to it, where there is a target.
  vnc_mapping : Option ℕ → Exec W (Option ℕ × List String)
  unfolding port_mapping
  vnc_mapping none = pure (none, [])
  vnc_mapping (some target) =
      io.pick_free_port >>= λ port. pure (some port, port_mapping port target ∷ [])

  -- `adb connect`, once the tunnel stands.
  connect_adb : Option ℕ → ℕ → Exec W Ports
  unfolding execute_command unless_called_process_error
  connect_adb vnc_port adb_port =
      catch (execute_command "adb" (words ("connect 127.0.0.1:" <> str adb_port)))
        (unless_called_process_error tt)
      >>= λ _. pure (record { vnc = vnc_port; adb = some adb_port })

  -- AutoConnect
  unfoldable pub auto_connect :
      String → String → Option ℕ → ℕ → String → Option ℕ → Option String → Exec W Ports
  unfolding port_or_free vnc_mapping open_tunnel connect_adb port_mapping ssh_tunnel_args
      unless_called_process_error
  auto_connect ip_addr rsa_key_file target_vnc_port target_adb_port ssh_user client_adb_port
        extra_args_ssh_tunnel =
      port_or_free (given client_adb_port) >>= λ local_adb_port.
      vnc_mapping (given target_vnc_port) >>= λ (vnc_port, vnc_mappings) w.
      handle
        (open_tunnel
          (ssh_tunnel_args rsa_key_file (port_mapping local_adb_port target_adb_port ∷ vnc_mappings)
            ssh_user ip_addr)
          extra_args_ssh_tunnel w)
        (λ _. connect_adb vnc_port local_adb_port)
        (unless_called_process_error (record { vnc = none; adb = none }))
