-- ===== src/Tests/Reports.antt =====
-- The theorems on reports and deletions, at concrete inputs.
use tools_acloud.Report.Status
use tools_acloud.Constants
use tools_acloud.Base.{
  true, false, [], none, some, List, All, inl, String, Bool, ℕ, refl, ◌≡◌, ◌∷◌, if◌then◌else◌,
}
use tools_acloud.Report.{init, Report, add_device_boot_failure, device_record}
use tools_acloud.Delete.{
  delete_local_cuttlefish_instance, Effects, add_deletion_result_to_report,
  delete_local_goldfish_instance, delete_android_virtual_devices,
}
use tools_acloud.Base.Dict.{lookup}
use tools_acloud.Delete.Released.{Ended, IsLocking, delete_local-frees}
use tools_acloud.Listing.{Instance}
use tools_acloud.Report.Severity.{HasSeverity, set_statuses, names, max_severity, severity-init}
use tools_acloud.Exec.{ok, err}
use tools_acloud.Report.Devices.{Holds, add_device_boot_failure-Holds}
use tools_acloud.Delete.Reported.{deletion_records, worst, add_deletion_result_to_report-Holds}
use tools_acloud.Errors.{exc, os_error}
use tools_acloud.Compute.{BatchReport}
use tools_acloud.Delete.Remote.{delete_android_virtual_devices-Holds}

abbrev three_statuses : List (String × ℕ)
three_statuses = (Status.success, 1) ∷ (Status.boot_fail, 3) ∷ (Status.fail, 2) ∷ []

three_known : All (λ x. HasSeverity x.0 x.1) three_statuses
unfolding lookup
three_known = (refl, (refl, (refl, tt)))

severity-init_example :
    (r : Report) × (set_statuses (names three_statuses) (init "create") ≡ ok r)
    × HasSeverity r.status (max_severity 0 three_statuses)
    × (r ≡ record (init "create") { status = r.status })
severity-init_example = severity-init "create" three_statuses three_known

fresh-Holds : (key : String) → Holds (init "delete") key []
unfolding lookup
fresh-Holds key = refl

add_device_boot_failure-Holds_example :
    (r' : Report) × (add_device_boot_failure "ins-1" "10.0.0.1" none none "no boot" (init "delete")
      ≡ ok r')
    × Holds r' "devices_failing_boot" (device_record "ins-1" "10.0.0.1" none none ∷ [])
    × (r'.errors ≡ "no boot" ∷ [])
    × (lookup "devices" r'.contents ≡ lookup "devices" [])
    × (r'.status ≡ Status.unknown)
    × (r'.command ≡ "delete")
add_device_boot_failure-Holds_example =
    add_device_boot_failure-Holds "ins-1" "10.0.0.1" "no boot" none none (init "delete") []
      "devices" (fresh-Holds "devices_failing_boot") refl

unknown_severity : HasSeverity Status.unknown 0
unfolding lookup
unknown_severity = refl

add_deletion_result_to_report-Holds_example :
    (r' : Report) × (add_deletion_result_to_report
        ("a" ∷ "b" ∷ [])
        ("c" ∷ [])
        ("lost" ∷ [])
        "instance"
        (init "delete")
      ≡ (ok tt, r'))
    × Holds r' "deleted" (deletion_records "instance" ("a" ∷ "b" ∷ []))
    × Holds r' "failed" (deletion_records "instance" ("c" ∷ []))
    × (r'.errors ≡ "lost" ∷ [])
    × HasSeverity r'.status (worst true 0)
add_deletion_result_to_report-Holds_example =
    add_deletion_result_to_report-Holds ("a" ∷ "b" ∷ []) ("c" ∷ []) ("lost" ∷ []) "instance"
      (init "delete") [] [] 0 (fresh-Holds "deleted") (fresh-Holds "failed") unknown_severity

-- Every instance of a zone is deleted.
abbrev all_done : List String → String → BatchReport
all_done l zone = record { done = l; failed = []; error_msgs = [] }

-- The world says whether the lock is held; deleting the instance always fails.
abbrev stubborn : Effects Bool
stubborn = record {
  lock = λ name w. (ok true, true);
  set_in_use = λ name in_use w. if w then (ok tt, w) else (err (exc os_error "not locked"), w);
  unlock = λ name w. (ok tt, false);
  delete_instance = λ i w. (err (exc os_error "gone"), w);
  emu_kill = λ i w. (ok 1, w);
  cleanup_ssvnc_viewer = λ port w. (ok tt, w);
  create_client = λ w. (ok tt, w);
  get_zones = λ l w. (ok (("west", l) ∷ []), w);
  delete_in_zone = λ l zone w. (ok (all_done l zone), w);
}

stubborn-IsLocking : IsLocking stubborn (λ w name. w)
stubborn-IsLocking = record {
  unlock_frees = λ name w. refl;
  refused_takes_nothing = λ name w. inl refl;
}

abbrev local_cf : Instance
local_cf = record {
  name = "local-instance-1";
  fullname = "device serial: 127.0.0.1:6520";
  islocal = true;
  avd_type = Constants.type_cf;
  adb_port = some 6520;
  vnc_port = some 6444;
  device_serial = "127.0.0.1:6520";
}

delete_local-frees_example :
    Ended stubborn
      (λ w name. w)
      local_cf
      (delete_local_cuttlefish_instance stubborn local_cf (init "delete", false))
    × Ended stubborn
        (λ w name. w)
        local_cf
        (delete_local_goldfish_instance stubborn local_cf (init "delete", false))
delete_local-frees_example =
    delete_local-frees stubborn (λ w name. w) stubborn-IsLocking local_cf (init "delete") false refl

delete_android_virtual_devices-Holds_example :
    (r' : Report) × (t : Bool) × (delete_android_virtual_devices stubborn
        ("a" ∷ "b" ∷ [])
        (init "delete", false)
      ≡ (ok tt, (r', t)))
    × Holds r' "deleted" (deletion_records "instance" ("a" ∷ "b" ∷ []))
    × Holds r' "failed" []
    × (r'.errors ≡ [])
    × HasSeverity r'.status 1
delete_android_virtual_devices-Holds_example =
    delete_android_virtual_devices-Holds stubborn all_done ("a" ∷ "b" ∷ [])
      (("west", "a" ∷ "b" ∷ []) ∷ []) (init "delete") false false false [] [] 0
      (λ instances zone w. (w, refl)) refl refl (fresh-Holds "deleted") (fresh-Holds "failed")
      unknown_severity
