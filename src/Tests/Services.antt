-- ===== src/Tests/Services.antt =====
-- The theorems on the cloud client and its batches, at concrete inputs.
use tools_acloud.Cloud.Translate.{Answer, run, retries, execute-Answer, execute-at_once}
use tools_acloud.Cloud.Pages.{more, last, list_with_multi_pages-Served}
use tools_acloud.Base.{
  true, false, [], none, some, Option, String, ℕ, ◌≡◌, if◌then◌else◌, List, suc, refl, leb, All,
  ◌∷◌, str_eq, Bool-cases, inl, select, inr, arith, ◌++◌,
}
use tools_acloud.Base.Dict.{Dict, keys, lookup}
use tools_acloud.Compute.{
  compare_machine_size, BatchReport, batch_execute_and_wait, get_zones_by_instances, zone_list,
  machine_size_metrics,
}
use tools_acloud.Errors.{
  is_instance, api_http_error, exc, resource_not_found_error, driver_error, http_error,
}
use tools_acloud.Base.Ratio.{Ratio}
use tools_acloud.Exec.{Exec, err, ok}
use tools_acloud.Cloud.{list_with_multi_pages, should_retry, translate_error, Page}
use tools_acloud.Batch.{Outcome}
use tools_acloud.Compute.Sizes.{Says, compare_machine_size-Says}
use tools_acloud.Compute.Waiting.{
  Waits, Waited, failed_of, messages_of, batch_execute_and_wait-Accounts,
}
use tools_acloud.Compute.Zones.{get_zones_by_instances-select}

abbrev nap : Ratio → ℕ → ℕ
nap d n = suc n

abbrev busy : Exec ℕ String
busy n =
    if leb 2 n
    then (ok "up", n)
    else (err (record { cls = api_http_error; code = 503; message = "busy" }), n)

execute-Answer_example :
    Answer nap busy none none none none none 0 (run nap busy none none none none none 0)
execute-Answer_example = execute-Answer nap busy none none none none none 0

abbrev missing : Exec ℕ String
missing n = (err (record { cls = api_http_error; code = 404; message = "no disk" }), n)

missing-api :
    is_instance (record { cls = api_http_error; code = 404; message = "no disk" }) api_http_error
    ≡ true
unfolding is_instance
missing-api = refl

missing-never :
    retries nap missing none none none none none
      (translate_error (record { cls = api_http_error; code = 404; message = "no disk" }))
    ≡ false
unfolding is_instance should_retry translate_error
missing-never = refl

execute-at_once_example :
    run nap missing none none none none none 0
    ≡ (err (record { cls = resource_not_found_error; code = 404; message = "no disk" }), 0)
execute-at_once_example =
    execute-at_once nap missing none none none none none 0 0
      (record { cls = api_http_error; code = 404; message = "no disk" }) refl missing-api
      missing-never

abbrev page_of : Option String → Exec ℕ (Page String)
page_of none n = (ok (record { items = some ("a" ∷ "b" ∷ []); next_page_token = some "p2" }), suc n)
page_of (some token) n = (ok (record { items = some ("c" ∷ []); next_page_token = some "" }), suc n)

list_with_multi_pages-Served_example :
    list_with_multi_pages page_of 2 0 ≡ some (ok ("a" ∷ "b" ∷ "c" ∷ []), 2)
list_with_multi_pages-Served_example =
    list_with_multi_pages-Served page_of 2
      (more (record { items = some ("a" ∷ "b" ∷ []); next_page_token = some "p2" }) refl refl
        (last (record { items = some ("c" ∷ []); next_page_token = some "" }) refl refl))
      (omega arith)

-- One operation that ends, and one that fails.
abbrev wait : String → Exec ℕ (Unit {0})
wait operation n =
    if str_eq operation "good" then (ok tt, n) else (err (exc driver_error "timeout"), n)

wait-Waits : (operation : String) (n : ℕ) → Waits (wait operation n)
unfolding is_instance
wait-Waits operation n = elim (Bool-cases (str_eq operation "good")) [
  | inl y ↦ rw y tt
  | inr bad ↦ rw bad refl
]

abbrev two_results : Dict (Outcome String)
two_results =
    ("i1", record { response = some "good"; error = none })
    ∷ ("i2", record { response = some "bad"; error = none })
    ∷ ("i3", record { response = none; error = some (exc http_error "refused") })
    ∷ []

abbrev three_requests : Dict ℕ
three_requests = ("i1", 1) ∷ ("i2", 2) ∷ ("i3", 3) ∷ []

All-three_requests :
    All (λ name. (o : Outcome String) × (lookup name two_results ≡ some o)) (keys three_requests)
unfolding keys lookup
All-three_requests = ((_, refl), ((_, refl), ((_, refl), tt)))

batch_execute_and_wait-Accounts_example :
    (r : BatchReport) × (u : ℕ) × (batch_execute_and_wait wait
        (λ requests n. (ok two_results, n))
        three_requests
        0
      ≡ (ok r, u))
    × ((ds : List String) × (fs : List String) × (ms : List String) × Waited wait two_results
          (keys three_requests)
          0
          u
          ds
          fs
          ms
        × (r.done ≡ ds)
        × (r.failed ≡ failed_of two_results ++ fs)
        × (r.error_msgs ≡ messages_of two_results ++ ms))
batch_execute_and_wait-Accounts_example =
    batch_execute_and_wait-Accounts wait (λ requests n. (ok two_results, n)) three_requests 0 0
      two_results wait-Waits refl All-three_requests

abbrev zone_of : String → String
zone_of name = if str_eq name "i2" then "east" else "west"

get_zones_by_instances-select_example :
    (d : Dict (List String)) × (v : ℕ) × (get_zones_by_instances
        (λ i n. (ok (zone_of i), suc n))
        ("i1" ∷ "i2" ∷ "i3" ∷ [])
        0
      ≡ (ok d, v))
    × ((z : String)
        → zone_list (lookup z d) ≡ select (λ i. str_eq (zone_of i) z) ("i1" ∷ "i2" ∷ "i3" ∷ []))
get_zones_by_instances-select_example =
    get_zones_by_instances-select (λ i n. (ok (zone_of i), suc n)) zone_of (λ i n. (suc n, refl))
      ("i1" ∷ "i2" ∷ "i3" ∷ []) 0

abbrev machine : String → Exec ℕ (Dict ℕ)
machine name n =
    if str_eq name "big"
    then (ok (("guestCpus", 8) ∷ ("memoryMb", 4096) ∷ []), n)
    else (ok (("guestCpus", 4) ∷ ("memoryMb", 4096) ∷ []), n)

compare_machine_size-Says_example :
    ((compare_machine_size machine "big" "small" 0).1 ≡ 0)
    × Says
        (("guestCpus", 8) ∷ ("memoryMb", 4096) ∷ [])
        (("guestCpus", 4) ∷ ("memoryMb", 4096) ∷ [])
        machine_size_metrics
        (compare_machine_size machine "big" "small" 0).0
compare_machine_size-Says_example =
    compare_machine_size-Says machine "big" "small" 0 0 0
      (("guestCpus", 8) ∷ ("memoryMb", 4096) ∷ []) (("guestCpus", 4) ∷ ("memoryMb", 4096) ∷ []) refl
      refl
