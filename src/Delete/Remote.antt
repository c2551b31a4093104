-- ===== src/Delete/Remote.antt =====
-- What DeleteAndroidVirtualDevices notes in the report.
use tools_acloud.Base.{
  ◌∷◌, ◌||◌, false, [], some, String, List, ℕ, ◌≡◌, str_eq, ◌≤◌, ◌++◌, arith, Bool-cases, inl, inr,
  not, ◌∙◌, ap, is_nil, refl,
}
use tools_acloud.Report.Status
use tools_acloud.Delete.{
  delete_android_virtual_devices, Effects, success_if_unknown, delete_in_zones,
}
use tools_acloud.Report.Steps.{store_report}
use tools_acloud.Report.Steps.{method}
use tools_acloud.Base.Dict.{lookup, Dict}
use tools_acloud.Compute.{BatchReport, nothing}
use tools_acloud.Report.{Report, Record, entry_or_nil}
use tools_acloud.Report.Severity.{HasSeverity, set_status-max}
use tools_acloud.Exec.{ok}
use Prim.Native.Nat.{max}
use tools_acloud.Report.Devices.{Holds}
use tools_acloud.Delete.Reported.{deletion_records, worst, add_deletion_result_to_report-Holds}
use package.text.Mathlib.TextEquality.{eq_iff}

not_unknown : (s : String) (m : ℕ) → HasSeverity s m → str_eq s Status.unknown ≡ false → 1 ≤ m
unfolding lookup
not_unknown s m h ne = ground (arith, eq_iff s Status.unknown, eq_iff Status.unknown s)

success_if_unknown-max :
    (r : Report) (m : ℕ)
    → HasSeverity r.status m
    → (r' : Report) × (success_if_unknown r ≡ ok r')
      × HasSeverity r'.status (max m 1)
      × (r' ≡ record r { status = r'.status })
unfolding success_if_unknown lookup
success_if_unknown-max r m h = elim (Bool-cases (str_eq r.status Status.unknown)) [
  | inl y ↦ rw y (set_status-max Status.success r 1 m refl h)
  | inr n ↦ (r, rw n refl, h ∙ ap some (ground (arith, not_unknown r.status m h n)), refl)
]

-- Two reports of batches, one behind the other.
abbrev pub sum_of : BatchReport → BatchReport → BatchReport
sum_of sum b = record {
  done = sum.done ++ b.done;
  failed = sum.failed ++ b.failed;
  error_msgs = sum.error_msgs ++ b.error_msgs;
}

module _ {W : Type 0} (io : Effects W) (answer : List String → String → BatchReport) where
  -- The client answers every request for a zone, with these three lists.
  abbrev pub Answers : Type 0
  Answers =
      (instances : List String) (zone : String) (w : W)
      → (v : W) × (io.delete_in_zone instances zone w ≡ (ok (answer instances zone), v))

  -- The lists of all zones, one zone after the other.
  abbrev pub total : Dict (List String) → BatchReport → BatchReport
  total [] sum = sum
  total ((zone, instances) ∷ zones) sum = total zones (sum_of sum (answer instances zone))

  delete_in_zones-total :
      Answers
      → (zones : Dict (List String)) (sum : BatchReport) (w : W)
      → (v : W) × (delete_in_zones io zones sum w ≡ (ok (total zones sum), v))
  unfolding delete_in_zones
  delete_in_zones-total answers [] sum w = (w, refl)
  delete_in_zones-total answers ((zone, instances) ∷ zones) sum w =
      let (v, e) = answers instances zone w in
      let (u, e') = delete_in_zones-total answers zones (sum_of sum (answer instances zone)) v in
      (u, rw e e')

-- DeleteAndroidVirtualDevices, where the client can be made, can tell the zones and answers for each
-- zone: it returns; the report has, behind what it had, the instances that the zones' answers call
-- done under `deleted`, those that they call failed under `failed`, and all messages; and its
-- severity is at least that of SUCCESS, and that of FAIL if an answer has a failure or a message.
pub delete_android_virtual_devices-Holds :
    {W : Type 0} (io : Effects W) (answer : List String → String → BatchReport)
    (instance_names : List String) (zones : Dict (List String)) (r : Report) (w v u : W)
    (ds fs : List Record) (m : ℕ)
    → Answers io answer
    → io.create_client w ≡ (ok tt, v)
    → io.get_zones instance_names v ≡ (ok zones, u)
    → Holds r "deleted" ds
    → Holds r "failed" fs
    → HasSeverity r.status m
    → (r' : Report) × (t : W) × (delete_android_virtual_devices io instance_names (r, w)
        ≡ (ok tt, (r', t)))
      × Holds r' "deleted" (ds ++ deletion_records "instance" (total io answer zones nothing).done)
      × Holds r' "failed" (fs ++ deletion_records "instance" (total io answer zones nothing).failed)
      × (r'.errors ≡ r.errors ++ (total io answer zones nothing).error_msgs)
      × HasSeverity r'.status (
          max
            (worst
              (not (is_nil (total io answer zones nothing).failed)
                || not (is_nil (total io answer zones nothing).error_msgs))
              m)
            1)
unfolding delete_android_virtual_devices method store_report
delete_android_virtual_devices-Holds io answer instance_names zones r w v u ds fs m answers made
      told hd hf hm =
    let b = total io answer zones nothing in
    let (t, e) = delete_in_zones-total io answer answers zones nothing u in
    let (r1, e1, d1, f1, msgs, sev) =
      add_deletion_result_to_report-Holds b.done b.failed b.error_msgs "instance" r ds fs m hd hf
        hm in
    let (r2, e2, sev2, same) = success_if_unknown-max r1 _ sev in
    (
      r2,
      t,
      rw made (rw told (rw e (rw e1 (rw e2 refl)))),
      ap (λ (x : Report). entry_or_nil (lookup "deleted" x.contents)) same ∙ d1,
      ap (λ (x : Report). entry_or_nil (lookup "failed" x.contents)) same ∙ f1,
      ap (λ (x : Report). x.errors) same ∙ msgs,
      sev2,
    )
