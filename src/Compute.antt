-- ===== src/Compute.antt =====
-- internal/lib/gcompute_client.py: ComputeClient, the operations on batches of instances, on zones,
-- and on machine sizes and quotas. The calls of the Google API are parameters.
pub mod Waiting
pub mod Zones
pub mod Sizes
pub mod Keys
pub mod Access
use tools_acloud.Base.{
  ℕ, ◌+◌, Bool, true, false, not, Option, none, some, List, [], ◌∷◌, ◌++◌, String, ltb, str_eq,
  if◌then◌else◌,
}
use tools_acloud.Base.Dict.{Dict, lookup, insert, keys}
use tools_acloud.Base.Text.{contains_text}
use tools_acloud.Batch.{Outcome}
use tools_acloud.Errors.{Exc, exc, is_instance, key_error, driver_error, resource_not_found_error}
use tools_acloud.Exec.{Result, ok, err, Exec, ◌>>=◌}

-- What the batch operations return: done, failed, error_msgs.
pub record BatchReport : Type 0 where
  pub done : List String
  pub failed : List String
  pub error_msgs : List String

abbrev pub nothing : BatchReport
nothing = record { done = []; failed = []; error_msgs = [] }

-- One round of the loop over the results.
abbrev pub note_error : String → Option Exc → BatchReport → BatchReport
note_error resource_name none r = r
note_error resource_name (some error) r = record r {
  failed = r.failed ++ resource_name ∷ [];
  error_msgs = r.error_msgs ++ error.message ∷ [];
}

-- The requests of _BatchExecuteOnInstances. `set(instances)` is the dict's own: a name that comes again changes
-- nothing, and the order of a Python set is not fixed.
unfoldable pub requests_for : {Req : Type 0} → (String → Req) → List String → Dict Req → Dict Req
requests_for action [] requests = requests
requests_for action (instance_name ∷ instances) requests =
    requests_for action instances (insert instance_name (action instance_name) requests)

module _ {Op : Type 0} where
  unfoldable pub collect_errors : Dict (Outcome Op) → BatchReport → BatchReport
  collect_errors [] r = r
  collect_errors ((resource_name, o) ∷ results) r =
      collect_errors results (note_error resource_name o.error r)

  module _ {W : Type 0} (wait_on_operation : Op → Exec W (Unit {0})) where
    -- `try: self.WaitOnOperation(...)` `except errors.DriverError as exc`
    unfoldable pub after_wait :
        String → BatchReport → Result (Unit {0}) × W → Result BatchReport × W
    after_wait resource_name r (ok _, w) =
        (ok (record r { done = r.done ++ resource_name ∷ [] }), w)
    after_wait resource_name r (err e, w) =
        if is_instance e driver_error
        then (ok (note_error resource_name (some e) r), w)
        else (err e, w)

    -- `if operation`
    unfoldable pub wait_if : String → Option Op → BatchReport → Exec W BatchReport
    unfolding after_wait
    wait_if resource_name none r w = (ok r, w)
    wait_if resource_name (some operation) r w =
        after_wait resource_name r (wait_on_operation operation w)

    -- `operation, _ = results[resource_name]`
    unfoldable pub wait_one : Dict (Outcome Op) → String → BatchReport → Exec W BatchReport
    unfolding wait_if
    wait_one results resource_name r w = elim (lookup resource_name results) [
      | none ↦ (err (exc key_error resource_name), w)
      | some o ↦ wait_if resource_name o.response r w
    ]

    unfoldable pub wait_all : Dict (Outcome Op) → List String → BatchReport → Exec W BatchReport
    unfolding wait_one
    wait_all results [] r w = (ok r, w)
    wait_all results (resource_name ∷ names) r w =
        (wait_one results resource_name r >>= wait_all results names) w

    -- _BatchExecuteAndWait, on BatchExecute of the client.
    unfoldable pub batch_execute_and_wait :
        {Req : Type 0} → (Dict Req → Exec W (Dict (Outcome Op))) → Dict Req → Exec W BatchReport
    unfolding wait_all collect_errors
    batch_execute_and_wait batch_execute requests w =
        (batch_execute requests >>= λ results.
        wait_all results (keys requests) (collect_errors results nothing))
          w

    -- _BatchExecuteOnInstances
    unfoldable pub batch_execute_on_instances :
        {Req : Type 0}
        → (Dict Req → Exec W (Dict (Outcome Op)))
        → List String
        → (String → Req)
        → Exec W BatchReport
    unfolding batch_execute_and_wait requests_for
    batch_execute_on_instances batch_execute [] action w = (ok nothing, w)
    batch_execute_on_instances batch_execute (i ∷ instances) action w =
        batch_execute_and_wait batch_execute (requests_for action (i ∷ instances) []) w

-- GetZonesByInstances
abbrev pub zone_list : Option (List String) → List String
zone_list none = []
zone_list (some l) = l

-- `zone_instances[zone].append(instance)`, or a new entry.
unfoldable pub add_to_zone : String → String → Dict (List String) → Dict (List String)
add_to_zone zone instance_name zone_instances =
    insert zone (zone_list (lookup zone zone_instances) ++ instance_name ∷ []) zone_instances

module _ {W : Type 0} (get_zone_by_instance : String → Exec W String) where
  unfoldable pub zones_from : List String → Dict (List String) → Exec W (Dict (List String))
  unfolding add_to_zone
  zones_from [] zone_instances w = (ok zone_instances, w)
  zones_from (i ∷ instances) zone_instances w =
      (get_zone_by_instance i >>= λ zone. zones_from instances (add_to_zone zone i zone_instances))
        w

  unfoldable pub get_zones_by_instances : List String → Exec W (Dict (List String))
  unfolding zones_from
  get_zones_by_instances instances = zones_from instances []

-- CompareMachineSize: -1, 0 and 1.
pub data Size : Type 0 where
  smaller same larger : Size

abbrev pub machine_size_metrics : List String
machine_size_metrics = "guestCpus" ∷ "memoryMb" ∷ []

compare_metric : Size → (Size → Result Size) → Option ℕ → Option ℕ → Result Size
compare_metric result next (some a) (some b) =
    let more = next (if ltb b a then larger else result) in if ltb a b then ok smaller else more
compare_metric result next _ _ = err (exc driver_error "Malformed machine size record")

unfoldable pub compare_metrics : Dict ℕ → Dict ℕ → List String → Size → Result Size
unfolding compare_metric
compare_metrics machine_info_1 machine_info_2 [] result = ok result
compare_metrics machine_info_1 machine_info_2 (metric ∷ metrics) result =
    compare_metric result (compare_metrics machine_info_1 machine_info_2 metrics)
      (lookup metric machine_info_1) (lookup metric machine_info_2)

-- `get_machine_type` is GetMachineType of the client for the zone.
unfoldable pub compare_machine_size :
    {W : Type 0} → (String → Exec W (Dict ℕ)) → String → String → Exec W Size
unfolding compare_metrics
compare_machine_size get_machine_type machine_type_1 machine_type_2 w =
    (get_machine_type machine_type_1 >>= λ machine_info_1.
    get_machine_type machine_type_2 >>= λ machine_info_2 w'.
    (compare_metrics machine_info_1 machine_info_2 machine_size_metrics same, w'))
      w

pub record Quota : Type 0 where
  pub metric : String
  pub limit : ℕ
  pub usage : ℕ

pub record Region : Type 0 where
  pub name : String
  pub quotas : List Quota

first_quota : String → List Quota → Option Quota
first_quota metric [] = none
first_quota metric (q ∷ quotas) =
    if str_eq q.metric metric then some q else first_quota metric quotas

or_else {ℓ} : {A : Type ℓ} → Option A → Option A → Option A
or_else none y = y
or_else (some a) y = some a

-- GetMetricQuota: a region counts for a zone that has its name in it.
unfoldable pub get_metric_quota : List Region → String → String → Option Quota
unfolding first_quota or_else
get_metric_quota [] zone metric = none
get_metric_quota (region ∷ regions) zone metric =
    or_else (if contains_text region.name zone then first_quota metric region.quotas else none)
      (get_metric_quota regions zone metric)

abbrev pub required_metrics : Dict ℕ
required_metrics = ("CPUS", 8) ∷ ("DISKS_TOTAL_GB", 1000) ∷ []

-- `limit - usage < required` of integers, without the subtraction.
has_room : ℕ → Option Quota → Bool
has_room required none = false
has_room required (some quota) = not (ltb quota.limit (quota.usage + required))

unfoldable pub enough_metrics : List Region → String → Dict ℕ → Bool
unfolding has_room get_metric_quota
enough_metrics regions_info zone [] = true
enough_metrics regions_info zone ((metric, required) ∷ metrics) =
    let rest = enough_metrics regions_info zone metrics in
    if has_room required (get_metric_quota regions_info zone metric) then rest else false

-- EnoughMetricsInZone; `get_region_info` is GetRegionInfo of the client.
unfoldable pub enough_metrics_in_zone : {W : Type 0} → Exec W (List Region) → String → Exec W Bool
unfolding enough_metrics
enough_metrics_in_zone get_region_info zone w =
    (get_region_info >>= λ regions_info w'.
    (ok (enough_metrics regions_info zone required_metrics), w'))
      w

-- CheckImageExists and CheckDiskExists, on the call that gets the resource.
exists_after : {W A : Type 0} → Result A × W → Result Bool × W
exists_after (ok _, w) = (ok true, w)
exists_after (err e, w) =
    if is_instance e resource_not_found_error then (ok false, w) else (err e, w)

unfoldable pub check_exists : {W A : Type 0} → Exec W A → Exec W Bool
unfolding exists_after
check_exists get_resource w = exists_after (get_resource w)
