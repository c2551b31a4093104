-- ===== src/Tests/Settings.antt =====
-- The theorems on the configuration, the names and ports of instances, and single requests of the compute
-- client, and on tunnels and reconnecting, at concrete inputs.
use tools_acloud.Compute.Access.{zone}
use tools_acloud.LocalInstance.{device_serial}
use tools_acloud.Constants
use tools_acloud.Tunnel
use tools_acloud.Tunnel.{Shell}
use tools_acloud.Tunnel.Connected.{Connected, auto_connect-Connected}
use tools_acloud.Report
use tools_acloud.Reconnect.{Device, Tools, reconnect_each}
use tools_acloud.Reconnect.Skipped.{is_known, reconnect_each-known}
use tools_acloud.Base.{
  true, false, [], some, ℕ, List, String, ◌∷◌, ◌≡◌, refl, if◌then◌else◌, leb, ◌+◌, select, not, map,
  arith, ◌≤◌, suc, str_eq, ◌↔◌, none,
}
use tools_acloud.Base.Ints.{pos}
use tools_acloud.Config.{UserConfig, InternalConfig, init, scrubbed_args, num_instances_arg}
use tools_acloud.Config.Verified.{Inited, init-Inited}
use tools_acloud.Config.Overridden.{scrubbed_args-one, is_num_arg}
use tools_acloud.LocalInstance.{
  get_existing_instances, get_local_instance_id_by_name, adb_max_port, get_local_instance_name,
  console_port, get_max_number_of_instances,
}
use tools_acloud.Base.Dict.{lookup}
use tools_acloud.Base.Ratio.{Ratio}
use tools_acloud.Exec.{Result, Exec, ok, err, pure}
use tools_acloud.Compute.Keys.{
  rsa_not_in_metadata, Item, with_key, updated_items, has_entry, item_value,
}
use tools_acloud.Errors.{is_instance, api_http_error}
use tools_acloud.Compute.Keys.Added.{HasRsa, updated_items-HasRsa}
use tools_acloud.Compute.Access.{
  get_operation_status, OperationScope, check_access, wait_on_operation, Operation,
  operation_timeout, operation_timeout_secs, operation_poll_interval_secs,
}
use tools_acloud.Base.Text.{◌<>◌, str, contains_text}
use tools_acloud.Listing.{Typed}
use tools_acloud.Retry.Poll.{IsClock}
use tools_acloud.LocalInstance.Names.{
  get_existing_instances-serials, get_local_instance_id_by_name-name,
}
use tools_acloud.Compute.Access.Denied.{check_access-denied}
use tools_acloud.Compute.Access.Waited.{Waited, wait_on_operation-Waited}
use tools_acloud.LocalInstance.Ports.{get_max_number_of_instances-fits}

-- A user's configuration with an extra data disk of 10 GB.
abbrev user : UserConfig
user = record {
  service_account_name = "";
  service_account_private_key_path = "";
  service_account_json_private_key_path = "";
  client_id = "";
  client_secret = "";
  project = "proj";
  zone = "";
  machine_type = "n1-standard-4";
  network = "default";
  ssh_private_key_path = "";
  ssh_public_key_path = "";
  storage_bucket_name = "";
  orientation = "";
  resolution = "";
  stable_host_image_family = "";
  stable_host_image_name = "";
  stable_host_image_project = "";
  stable_goldfish_host_image_name = "";
  stable_goldfish_host_image_project = "";
  stable_cheeps_host_image_name = "";
  stable_cheeps_host_image_project = "";
  extra_args_ssh_tunnel = "";
  hw_property = "";
  launch_args = "";
  instance_name_pattern = "";
  fetch_cvd_version = "";
  metadata_variable = ("cfg_sta_display_resolution", "720x1280") ∷ [];
  extra_data_disk_size_gb = pos 10;
  extra_scopes = [];
  enable_multi_stage = false;
}

abbrev internal : InternalConfig
internal = record {
  creds_cache_file = "";
  user_agent = "";
  min_machine_size = "n1-standard-1";
  disk_image_name = "disk.raw";
  disk_image_mime_type = "application/octet-stream";
  disk_image_extension = "";
  disk_raw_image_name = "";
  disk_raw_image_extension = "";
  kernel_build_target = "";
  emulator_build_target = "";
  default_extra_data_disk_device = "/dev/block/sdb";
  device_resolution_map = [];
  device_default_orientation_map = [];
  no_project_access_msg_map = [];
  common_hw_property_map = [];
  valid_branch_and_min_build_id = [];
  precreated_data_image = (pos 4, "extradisk-image-4gb") ∷ (pos 10, "extradisk-image-10gb") ∷ [];
  default_usr_cfg = user;
}

init-Inited_example : Inited user internal (init user internal)
unfolding lookup
init-Inited_example = init-Inited user internal (refl, tt)

abbrev launch_args : List String
launch_args = "-x_res=720" ∷ "-num_instances=4" ∷ "-daemon" ∷ []

scrubbed_args-one_example :
    (select is_num_arg (scrubbed_args 2 launch_args) ≡ (num_instances_arg <> "=" <> str 2) ∷ [])
    × (select (λ arg. not (is_num_arg arg)) (scrubbed_args 2 launch_args)
        ≡ select (λ arg. not (is_num_arg arg)) launch_args)
scrubbed_args-one_example = scrubbed_args-one 2 launch_args

get_local_instance_id_by_name-name_example :
    get_local_instance_id_by_name (get_local_instance_name 12) ≡ some 12
get_local_instance_id_by_name-name_example = get_local_instance_id_by_name-name 12

abbrev ids : List ℕ
ids = 1 ∷ 3 ∷ []

get_existing_instances-serials_example :
    get_existing_instances (map (λ id. device_serial (pos id)) ids) ≡ map pos ids
get_existing_instances-serials_example = get_existing_instances-serials ids

get_max_number_of_instances-fits_example :
    (5554 ≤ adb_max_port (some (Typed.number 5600)))
    × (adb_max_port (some (Typed.number 5600)) ≤ 65535)
    × ((c : ℕ) × (console_port (pos 3) ≡ pos c)
        × ((3 ≤ get_max_number_of_instances (some (Typed.number 5600)))
            ↔ (c + 1 ≤ adb_max_port (some (Typed.number 5600)))))
get_max_number_of_instances-fits_example =
    get_max_number_of_instances-fits (some (Typed.number 5600)) 3

abbrev old_items : List Item
old_items = (("key", "sshKeys") ∷ ("value", "user:old") ∷ []) ∷ []

new_missing : rsa_not_in_metadata old_items "user:new" ≡ ok true
unfolding rsa_not_in_metadata with_key has_entry item_value lookup contains_text
new_missing = refl

updated_items-HasRsa_example : HasRsa "user:new" (updated_items "user:new" old_items)
updated_items-HasRsa_example = updated_items-HasRsa "user:new" old_items refl new_missing

abbrev nap : Ratio → ℕ → ℕ
nap d n = suc n

abbrev denied : Exec ℕ String
denied n = (err (record { cls = api_http_error; code = 403; message = "denied" }), n)

denied_api :
    is_instance (record { cls = api_http_error; code = 403; message = "denied" }) api_http_error
    ≡ true
unfolding is_instance
denied_api = refl

check_access-denied_example : check_access nap denied 5 ≡ (ok false, 5)
check_access-denied_example =
    check_access-denied nap denied 5 5
      (record { cls = api_http_error; code = 403; message = "denied" }) refl denied_api refl

-- The world is the time; the operation is done from 100 on.
abbrev operation : OperationScope → String → String → Exec ℕ Operation
operation scope name scope_name n =
    (ok (record { error = none; status = some (if leb 100 n then "DONE" else "RUNNING") }), n)

operation_clock :
    IsClock
      (λ n. n)
      (λ n w. w + n)
      (get_operation_status operation zone "op" "us")
      (λ s. str_eq s "DONE")
      operation_timeout
      operation_timeout_secs
      operation_poll_interval_secs
unfolding get_operation_status
operation_clock = record { func_time = λ s. omega arith; sleep_time = λ n s. omega arith }

wait_on_operation-Waited_example :
    (r : Result (Unit {0}) × ℕ) × (wait_on_operation
        (λ n. n)
        (λ n w. w + n)
        operation
        zone
        "op"
        "us"
        1802
        7
      ≡ some r)
    × Waited (λ n. n) (λ n w. w + n) operation zone "op" "us" 7 r
wait_on_operation-Waited_example =
    wait_on_operation-Waited (λ n. n) (λ n w. w + n) operation zone "op" "us" operation_clock 1802 7
      (omega arith)

-- Tools that note the tunnels they make, on a machine without webrtc.
abbrev tools : Tools (List String)
tools = record {
  adb_tools = λ port. pure tt;
  is_adb_connection_alive = λ port. pure true;
  disconnect_adb = λ port. pure tt;
  connect_adb = λ port. pure tt;
  local_webrtc = λ d. pure false;
  get_cmd_output = λ d command. pure "";
  cvd_runtime_config = λ raw_data. pure false;
  webrtc_port_occupied = pure false;
  auto_connect = λ d target w. (ok target, d.name ∷ w);
  establish_webrtc_ssh_tunnel = λ d. pure tt;
  launch_browser = pure tt;
  is_command_running = λ command. pure false;
  cleanup_ssvnc_viewer = λ port. pure tt;
  match_display = λ display. none;
  launch_vnc_client = λ port size. pure tt;
  add_public_ssh_rsa = λ name. pure tt;
}

abbrev device : String → String → Device
device name avd_type = record {
  name = name;
  ip = "10.0.0.1";
  avd_type = avd_type;
  islocal = false;
  adb_port = none;
  vnc_port = none;
  ssh_tunnel_is_connected = false;
  display = "";
}

reconnect_each-known_example :
    reconnect_each tools true
      (device "a" "phone" ∷ device "b" Constants.type_cf ∷ [])
      (Report.init "reconnect", [])
    ≡ reconnect_each tools true
        (select is_known (device "a" "phone" ∷ device "b" Constants.type_cf ∷ []))
        (Report.init "reconnect", [])
reconnect_each-known_example =
    reconnect_each-known tools true (device "a" "phone" ∷ device "b" Constants.type_cf ∷ [])
      (Report.init "reconnect", [])

-- Free ports count up from 6000, and every command succeeds.
abbrev shell : Shell ℕ
shell = record {
  find_executable = λ cmd w. (ok (some cmd), w);
  check_call = λ args w. (ok tt, w);
  check_shell = λ cmd w. (ok tt, w);
  pick_free_port = λ w. (ok (6000 + w), suc w);
  shlex_split = λ s. ok (s ∷ []);
}

auto_connect-Connected_example :
    Connected shell "1.1.1.1" "/key"
      (some 6444)
      6520
      "vsoc-01"
      none
      none
      (Tunnel.auto_connect shell "1.1.1.1" "/key" (some 6444) 6520 "vsoc-01" none none 0)
auto_connect-Connected_example =
    auto_connect-Connected shell "1.1.1.1" "/key" (some 6444) 6520 "vsoc-01" none none 0
