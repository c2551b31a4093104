-- ===== src/Tests/Creation.antt =====
-- The theorems on creating local instances, at concrete inputs.
use tools_acloud.Base.{
  true, false, [], none, some, ℕ, Bool, ◌==◌, ◌∷◌, refl, inl, inr, if◌then◌else◌, Bool-cases, ◌||◌,
  ==_iff, suc, str_eq, String, List,
}
use tools_acloud.Base.Ints.{pos}
use tools_acloud.Exec.{ok, err}
use tools_acloud.LocalCreate.{Host, Locks, Spec, create_avd, create_instance, determine_id}
use tools_acloud.LocalCreate.Selected.{Ends, determine_id-bounds}
use tools_acloud.LocalCreate.Unlocked
use tools_acloud.LocalCreate.Unlocked.{IsLocking, create_avd-unlocked, SameBut}
use tools_acloud.DevicePool.{Factory, Options}
use tools_acloud.DevicePool.Ended.{Ended}
use tools_acloud.LocalCreate.Launched.{Says, create_instance-Says}
use tools_acloud.Report.{txt}
use tools_acloud.Errors.{exc, device_boot_error}
use tools_acloud.Listing.Local.Probed.{Probed, get_local_cuttlefish_instances-Probed}
use tools_acloud.Listing.Local.{Probe, get_local_cuttlefish_instances}
use tools_acloud.Listing.{Instance}

-- Which ids are locked, and which are marked as in use.
abbrev Marks : Type 0
Marks = (ℕ → Bool) × (ℕ → Bool)

abbrev held_of : Marks → ℕ → Bool
held_of l = l.0

abbrev marked_of : Marks → ℕ → Bool
marked_of l = l.1

abbrev set_at : (ℕ → Bool) → ℕ → Bool → ℕ → Bool
set_at f id b j = if id == j then b else f j

abbrev free_locks : Locks Marks
free_locks = record {
  lock = λ id l. if l.0 id then (ok false, l) else (ok true, (set_at l.0 id true, l.1));
  lock_if_not_in_use =
      λ id t l. if l.0 id || l.1 id then (ok false, l) else (ok true, (set_at l.0 id true, l.1));
  set_in_use = λ id b l. (ok tt, (l.0, set_at l.1 id b));
  unlock = λ id l. (ok tt, (set_at l.0 id false, l.1));
}

set_at-SameBut :
    (f m : ℕ → Bool) (id : ℕ) → SameBut held_of marked_of id (f, m) (set_at f id true, m)
set_at-SameBut f m id j = elim (Bool-cases (id == j)) [ inl y ↦ inl y | inr n ↦ inr (rw n refl) ]

locks_laws : IsLocking held_of marked_of free_locks
locks_laws = record {
  lock_tells = λ id l. elim (Bool-cases (l.0 id)) [
    | inl y ↦ rw y (λ j. refl)
    | inr n ↦ rw n (set_at-SameBut l.0 l.1 id)
  ];
  lock_if_not_in_use_tells = λ id t l. elim (Bool-cases (l.0 id || l.1 id)) [
    | inl y ↦ rw y (λ j. refl)
    | inr n ↦ rw n (set_at-SameBut l.0 l.1 id)
  ];
  unlock_frees = λ id l. (
    λ j. elim (Bool-cases (id == j)) [ inl y ↦ inl (rw y refl) | inr n ↦ inr (n, rw n refl) ],
    λ j. refl,
  );
  set_in_use_marks = λ id b l. (λ j. refl, rw ((==_iff id id).1 refl) refl);
}

-- A host on which every launch succeeds and instance 2 is up.
abbrev host : Host ℕ
host = record {
  is_supported_platform = λ w. (ok true, w);
  get_image_artifacts_path = λ spec w. (ok ("/image", "/host"), w);
  get_active_cvd = λ id w. (ok (some (record { adb_port = some 6521; vnc_port = some 6445 })), w);
  delete_active = λ id w. (ok tt, w);
  get_user_answer_yes = λ s w. (ok true, w);
  release_port = λ p w. (ok tt, w);
  current_groups = λ w. (ok ("kvm" ∷ []), w);
  is_file = λ p w. (ok true, w);
  get_environ = λ v w. (ok none, w);
  rmtree = λ d w. (ok tt, w);
  makedirs = λ d w. (ok tt, w);
  run_process = λ c env t w. (ok (pos 0), w);
  launch_vnc_from_report = λ r w. (ok tt, w);
  launch_browser_from_report = λ r w. (ok tt, w);
  auto_unlock_screen = λ p w. (ok tt, w);
}

abbrev spec : Spec
spec = record {
  local_instance_id = none;
  local_image_dir = "/image";
  local_tool_dirs = [];
  hw_property =
      ("cpu", "2")
      ∷ ("x_res", "720")
      ∷ ("y_res", "1280")
      ∷ ("dpi", "320")
      ∷ ("memory", "4096")
      ∷ [];
  connect_adb = true;
  connect_vnc = false;
  connect_webrtc = false;
  unlock_screen = false;
  gpu = "";
  boot_timeout_secs = none;
}

-- Instance 1 is marked as in use.
abbrev marks : Marks
marks = (λ _. false, λ id. id == 1)

determine_id-bounds_example : Ends free_locks 1 11 marks (determine_id free_locks none marks)
determine_id-bounds_example = determine_id-bounds free_locks marks

create_avd-unlocked_example :
    Unlocked.Ended held_of marked_of free_locks locks_laws host "/tmp" spec
      (create_avd free_locks host "/tmp" spec true (marks, 0))
create_avd-unlocked_example =
    create_avd-unlocked held_of marked_of free_locks locks_laws host "/tmp" spec true marks 0
      (λ j. refl)

create_instance-Says_example :
    Says host "/tmp" 2 "/image" "/host" spec (create_instance host "/tmp" 2 "/image" "/host" spec 0)
create_instance-Says_example = create_instance-Says host "/tmp" 2 "/image" "/host" spec 0

-- Two instances, of which the second does not boot; the world counts them.
abbrev factory : Factory ℕ
factory = record {
  create_ssh_key_pair_if_not_exist = λ a b w. (ok tt, w);
  create_instance = λ w. (ok (if w == 0 then "ins-0" else "ins-1"), suc w);
  get_build_info_dict = λ w. (ok (("build_id", txt "12") ∷ []), w);
  get_failures = λ w. (ok [], w);
  get_instance_ip =
      λ name w. (ok (some (record { internal = "10.0.0.1"; external = "1.1.1.1" })), w);
  wait_for_boot = λ name secs w.
      if str_eq name "ins-1" then (err (exc device_boot_error "no boot"), w) else (ok tt, w);
  get_serial_port_output = λ name port w. (ok "", w);
  execution_time = λ w. [];
  stage = λ w. 3;
  dict_report = λ w. [];
  write_log = λ name text w. (ok tt, w);
  make_tar_file = λ names out w. (ok tt, w);
  auto_connect = λ ip ports adb w. (ok (record { vnc = none; adb = none }), w);
  auto_unlock_screen = λ adb w. (ok tt, w);
  establish_webrtc_ssh_tunnel = λ ip w. (ok tt, w);
}

abbrev options : Options
options = record {
  command = "create";
  cfg = record { ssh_private_key_path = ""; ssh_public_key_path = "" };
  avd_type = "cuttlefish";
  report_internal_ip = false;
  autoconnect = true;
  serial_log_file = none;
  client_adb_port = none;
  boot_timeout_secs = none;
  unlock_screen = false;
  wait_for_boot = true;
  connect_webrtc = false;
}

-- Two configurations, of which the instance of the second is not active.
abbrev ins_of : String → Instance
ins_of name = record {
  name = name;
  fullname = name;
  islocal = true;
  avd_type = "cuttlefish";
  adb_port = none;
  vnc_port = none;
  device_serial = "";
}

abbrev probes : Probe ℕ
probes = record {
  is_supported_platform = λ w. (ok true, w);
  is_file = λ p w. (ok true, w);
  local_instance = λ p w. (ok (ins_of p), w);
  cvd_status = λ i w. (ok (str_eq i.name "/a"), w);
  get_local_instance_config = λ id w. (ok none, w);
  get_default_cuttlefish_config = λ w. (ok none, w);
  list_dir = λ w. (ok [], w);
  get_existing_goldfish = λ w. (ok [], w);
  get_remote_instances = λ w. (ok [], w);
}

abbrev pairs : List (ℕ × String)
pairs = (1, "/a") ∷ (2, "/b") ∷ []

get_local_cuttlefish_instances-Probed_example :
    Probed held_of marked_of free_locks locks_laws probes
      (get_local_cuttlefish_instances free_locks probes pairs (marks, 0))
get_local_cuttlefish_instances-Probed_example =
    get_local_cuttlefish_instances-Probed held_of marked_of free_locks locks_laws probes pairs marks
      0 (λ j. refl)
