-- ===== src/Delete.antt =====
-- delete/delete.py: deleting local and remote instances, with AddDeletionResultToReport and
-- DeleteAndroidVirtualDevices of public/device_driver.py. The report is one object that all steps
-- change, so it is part of the state, and keeps its changes when a step raises. What is printed, and
-- the timing around a step, are left out.
pub mod Reported
pub mod Released
pub mod Remote
pub mod Commands
use tools_acloud.Base.{
  true, false, [], none, some, String, Bool, List, ℕ, if◌then◌else◌, ◌==◌, ◌∷◌, not, is_nil, ◌||◌,
  Option, ◌++◌, str_eq,
}
use tools_acloud.Constants
use tools_acloud.Report.Status
use tools_acloud.Report.Steps.{method, world, change, note_failure}
use tools_acloud.Report.{
  init, Report, set_status, Record, add_error, txt, add_data, add_errors, given,
}
use tools_acloud.Listing.{Instance}
use tools_acloud.Errors.{Exc, is_instance, called_process_error, driver_error, exc, config_error}
use tools_acloud.Exec.{Exec, ◌>>=◌, Result, ok, catch, err, finally, raise, pure}
use tools_acloud.Base.Text.{◌<>◌}
use tools_acloud.Base.Dict.{Dict}
use tools_acloud.Compute.{BatchReport, nothing}

-- What deleting asks of the locks, the instances and the cloud client.
pub record Effects (W : Type 0) : Type 0 where
  -- LocalInstanceLock of the instance with a name: Lock, SetInUse, Unlock.
  pub lock : String → Exec W Bool
  pub set_in_use : String → Bool → Exec W (Unit {0})
  pub unlock : String → Exec W (Unit {0})
  -- LocalInstance.Delete, and EmuCommand("kill") of a LocalGoldfishInstance.
  pub delete_instance : Instance → Exec W (Unit {0})
  pub emu_kill : Instance → Exec W ℕ
  -- utils.CleanupSSVncviewer
  pub cleanup_ssvnc_viewer : ℕ → Exec W (Unit {0})
  -- GetZonesByInstances and DeleteInstances of the client, with its credentials.
  pub create_client : Exec W (Unit {0})
  pub get_zones : List String → Exec W (Dict (List String))
  pub delete_in_zone : List String → String → Exec W BatchReport

abbrev pub deletion_record : String → String → Record
deletion_record name resource_name = ("name", txt name) ∷ ("type", txt resource_name) ∷ []

-- `for name in names: report_obj.AddData(key, ...)`
unfoldable pub add_each : String → String → List String → Exec Report (Unit {0})
unfolding method
add_each key resource_name [] r = (ok tt, r)
add_each key resource_name (name ∷ names) r =
    (method (add_data key (deletion_record name resource_name)) >>= λ _.
    add_each key resource_name names)
      r

set_fail_if : Bool → Report → Result Report
set_fail_if true r = set_status Status.fail r
set_fail_if false r = ok r

-- AddDeletionResultToReport
unfoldable pub add_deletion_result_to_report :
    List String → List String → List String → String → Exec Report (Unit {0})
unfolding add_each set_fail_if method
add_deletion_result_to_report deleted failed error_msgs resource_name =
    add_each "deleted" resource_name deleted >>= λ _.
    add_each "failed" resource_name failed >>= λ _.
    method (λ r. ok (add_errors error_msgs r)) >>= λ _.
    method (set_fail_if (not (is_nil failed) || not (is_nil error_msgs)))

-- `if r.status == report.Status.UNKNOWN`
unfoldable pub success_if_unknown : Report → Result Report
success_if_unknown r = if str_eq r.status Status.unknown then set_status Status.success r else ok r

module _ {W : Type 0} where
  unfoldable pub note_deleted : String → Exec (Report × W) (Unit {0})
  unfolding method add_deletion_result_to_report
  note_deleted name = change (method (set_status Status.success)) >>= λ _.
      change (add_deletion_result_to_report (name ∷ []) [] [] "instance")

  -- `except subprocess.CalledProcessError as e`
  called_process_failure : Exc → Exec (Report × W) (Unit {0})
  unfolding note_failure
  called_process_failure e =
      if is_instance e called_process_error then note_failure e.message else raise e

  module _ (io : Effects W) where
    -- The `finally` of both.
    pub release : Instance → Exec (Report × W) (Unit {0})
    release i = world (io.set_in_use i.name false) >>= λ _. world (io.unlock i.name)

    unfoldable pub locked_by_another : Instance → Exec (Report × W) (Unit {0})
    unfolding note_failure
    locked_by_another i = note_failure (i.name <> " is locked by another process.")

    -- The `try` of DeleteLocalCuttlefishInstance.
    delete_cuttlefish : Instance → Exec (Report × W) (Unit {0})
    unfolding note_deleted called_process_failure
    delete_cuttlefish i =
        catch (world (io.delete_instance i) >>= λ _. note_deleted i.name) called_process_failure

    -- DeleteLocalCuttlefishInstance
    unfoldable pub delete_local_cuttlefish_instance : Instance → Exec (Report × W) (Unit {0})
    unfolding release locked_by_another delete_cuttlefish
    delete_local_cuttlefish_instance i = world (io.lock i.name) >>= λ got.
        if not got then locked_by_another i else finally (delete_cuttlefish i) (release i)

    -- The `try` of DeleteLocalGoldfishInstance.
    delete_goldfish : Instance → Exec (Report × W) (Unit {0})
    unfolding note_deleted note_failure
    delete_goldfish i = world (io.emu_kill i) >>= λ status.
        if status == 0
        then note_deleted i.name
        else note_failure ("Cannot kill " <> i.device_serial <> ".")

    -- DeleteLocalGoldfishInstance
    unfoldable pub delete_local_goldfish_instance : Instance → Exec (Report × W) (Unit {0})
    unfolding release locked_by_another delete_goldfish
    delete_local_goldfish_instance i = world (io.lock i.name) >>= λ got.
        if not got then locked_by_another i else finally (delete_goldfish i) (release i)

    -- The `except errors.DriverError as e` of DeleteAndroidVirtualDevices.
    driver_failure : Exc → Exec (Report × W) (Unit {0})
    unfolding note_failure
    driver_failure e = if is_instance e driver_error then note_failure e.message else raise e

    -- `zone, instances in zone_instances.items()`: the three lists grow.
    unfoldable pub delete_in_zones : Dict (List String) → BatchReport → Exec W BatchReport
    delete_in_zones [] sum w = (ok sum, w)
    delete_in_zones ((zone, instances) ∷ zones) sum w =
        (io.delete_in_zone instances zone >>= λ b. delete_in_zones zones (record {
          done = sum.done ++ b.done;
          failed = sum.failed ++ b.failed;
          error_msgs = sum.error_msgs ++ b.error_msgs;
        }))
          w

    -- DeleteAndroidVirtualDevices, on the report that the caller gives.
    unfoldable pub delete_android_virtual_devices : List String → Exec (Report × W) (Unit {0})
    unfolding delete_in_zones success_if_unknown driver_failure add_deletion_result_to_report method
    delete_android_virtual_devices instance_names = world io.create_client >>= λ _.
        world (io.get_zones instance_names) >>= λ zone_instances.
        catch
          (world (delete_in_zones zone_instances nothing) >>= λ b.
            change (add_deletion_result_to_report b.done b.failed b.error_msgs "instance") >>= λ _.
            change (method success_if_unknown))
          driver_failure

    -- DeleteRemoteInstances; `support_remote_instance` is cfg.SupportRemoteInstance().
    unfoldable pub delete_remote_instances : Bool → List String → Exec (Report × W) (Unit {0})
    unfolding delete_android_virtual_devices
    delete_remote_instances support_remote_instance instances_to_delete =
        if not support_remote_instance
        then raise (
            exc config_error
              "No gcp project info found in config! The execution of deleting remote instances has been aborted.")
        else delete_android_virtual_devices instances_to_delete

    -- The branches for one instance: the names of the remote instances grow.
    delete_or_collect : Instance → List String → Exec (Report × W) (List String)
    unfolding delete_local_goldfish_instance delete_local_cuttlefish_instance note_failure
    delete_or_collect i remote_instance_list =
        if not i.islocal
        then pure (remote_instance_list ++ i.name ∷ [])
        else if str_eq i.avd_type Constants.type_gf
        then (delete_local_goldfish_instance i >>= λ _. pure remote_instance_list)
        else if str_eq i.avd_type Constants.type_cf
        then (delete_local_cuttlefish_instance i >>= λ _. pure remote_instance_list)
        else (note_failure ("Deleting " <> i.avd_type <> " is not supported.") >>= λ _.
            pure remote_instance_list)

    cleanup_vnc : Option ℕ → Exec (Report × W) (Unit {0})
    cleanup_vnc none = pure tt
    cleanup_vnc (some port) = world (io.cleanup_ssvnc_viewer port)

    -- The loop of DeleteInstances.
    unfoldable pub delete_each : List Instance → List String → Exec (Report × W) (List String)
    unfolding delete_or_collect cleanup_vnc
    delete_each [] remote_instance_list s = (ok remote_instance_list, s)
    delete_each (i ∷ instances) remote_instance_list s =
        (delete_or_collect i remote_instance_list >>= λ remote.
        cleanup_vnc (given i.vnc_port) >>= λ _. delete_each instances remote)
          s

    delete_collected : Bool → List String → Exec (Report × W) (Unit {0})
    unfolding delete_remote_instances
    delete_collected support_remote_instance [] = pure tt
    delete_collected support_remote_instance (name ∷ names) =
        delete_remote_instances support_remote_instance (name ∷ names)

    -- What comes back of the report that was filled; a raise drops it.
    returned : Result (Unit {0}) × (Report × W) → Result (Option Report) × W
    returned (ok _, (r, w)) = (ok (some r), w)
    returned (err e, (r, w)) = (err e, w)

    -- DeleteInstances: a report, or None where there is nothing to delete.
    unfoldable pub delete_instances : Bool → List Instance → Exec W (Option Report)
    unfolding delete_each delete_collected returned
    delete_instances support_remote_instance [] w = (ok none, w)
    delete_instances support_remote_instance (i ∷ instances) w = returned (
        (delete_each (i ∷ instances) [] >>= delete_collected support_remote_instance)
          (init "delete", w))
