-- ===== src/Delete/Reported.antt =====
-- What a report holds after deletions have been noted in it.
use tools_acloud.Base.{
  true, false, [], Bool, String, ℕ, List, ◌∷◌, ◌≡◌, str_eq, ◌++◌, refl, not, ◌∙◌, ap, is_nil, ◌||◌,
}
use tools_acloud.Report.Status
use mathlib.Core.List.{append-nil, append_assoc}
use tools_acloud.Report.{Report, Record, records, entry_or_nil, add_errors}
use tools_acloud.Delete.{add_each, add_deletion_result_to_report, set_fail_if, deletion_record}
use tools_acloud.Report.Steps.{store_report}
use tools_acloud.Report.Steps.{method}
use Prim.Native.Nat.{max}
use tools_acloud.Report.Severity.{HasSeverity, set_status-max}
use tools_acloud.Report.Devices.{Holds, add_data-Holds}
use tools_acloud.Exec.{ok}
use tools_acloud.Base.Dict.{lookup}

-- The records of the names, as AddDeletionResultToReport writes them.
abbrev pub deletion_records : String → List String → List Record
deletion_records resource_name [] = []
deletion_records resource_name (name ∷ names) =
    deletion_record name resource_name ∷ deletion_records resource_name names

-- One key has got more records, and the rest is as it was.
abbrev pub Grown : Report → String → List Record → Report → Type 0
Grown r key l r' =
    Holds r' key l
    × ((k : String) → str_eq key k ≡ false → lookup k r'.contents ≡ lookup k r.contents)
    × (r' ≡ record r { contents = r'.contents })

add_each-Grown :
    (key resource_name : String) (names : List String) (r : Report) (l : List Record)
    → Holds r key l
    → (r' : Report) × (add_each key resource_name names r ≡ (ok tt, r'))
      × Grown r key (l ++ deletion_records resource_name names) r'
unfolding add_each method store_report
add_each-Grown key resource_name [] r l h = (r, refl, (rw append-nil h, (λ k ne. refl), refl))
add_each-Grown key resource_name (name ∷ names) r l h =
    let (r1, e1, h1, other1, same1) =
      add_data-Holds key (deletion_record name resource_name) r l h in
    let (r2, e2, (h2, other2, same2)) = add_each-Grown key resource_name names r1 _ h1 in
    (
      r2,
      rw e1 e2,
      (
        h2 ∙ ap records (append_assoc l _ _),
        (λ k ne. other2 k ne ∙ other1 k ne),
        same2 ∙ ap (λ (x : Report). record x { contents = r2.contents }) same1,
      ),
    )

-- The severity that FAIL adds to.
abbrev pub worst : Bool → ℕ → ℕ
worst true m = max m 2
worst false m = m

set_fail_if-worst :
    (bad : Bool) (r : Report) (m : ℕ)
    → HasSeverity r.status m
    → (r' : Report) × (set_fail_if bad r ≡ ok r')
      × HasSeverity r'.status (worst bad m)
      × (r' ≡ record r { status = r'.status })
unfolding set_fail_if lookup
set_fail_if-worst true r m h = set_status-max Status.fail r 2 m refl h
set_fail_if-worst false r m h = (r, refl, h, refl)

-- AddDeletionResultToReport, on a report whose `deleted` and `failed` hold lists of records, if
-- anything: the deleted names come behind the records of the one, the failed names behind those of
-- the other, the messages behind the errors, in their order; the status becomes at least as severe
-- as FAIL exactly if some name failed or there is a message, and keeps its severity otherwise.
pub add_deletion_result_to_report-Holds :
    (deleted failed error_msgs : List String) (resource_name : String) (r : Report)
    (ds fs : List Record) (m : ℕ)
    → Holds r "deleted" ds
    → Holds r "failed" fs
    → HasSeverity r.status m
    → (r' : Report) × (add_deletion_result_to_report deleted failed error_msgs resource_name r
        ≡ (ok tt, r'))
      × Holds r' "deleted" (ds ++ deletion_records resource_name deleted)
      × Holds r' "failed" (fs ++ deletion_records resource_name failed)
      × (r'.errors ≡ r.errors ++ error_msgs)
      × HasSeverity r'.status (worst (not (is_nil failed) || not (is_nil error_msgs)) m)
unfolding add_deletion_result_to_report add_errors method store_report
add_deletion_result_to_report-Holds deleted failed error_msgs resource_name r ds fs m hd hf hm =
    let (r1, e1, (h1, other1, same1)) = add_each-Grown "deleted" resource_name deleted r ds hd in
    let (r2, e2, (h2, other2, same2)) =
      add_each-Grown "failed" resource_name failed r1 fs
        (ap entry_or_nil (other1 "failed" refl) ∙ hf) in
    let (r3, e3, k3, same3) =
      set_fail_if-worst (not (is_nil failed) || not (is_nil error_msgs)) (add_errors error_msgs r2)
        m
        (ap (λ (x : Report). lookup x.status Status.severity_order) same2
          ∙ ap (λ (x : Report). lookup x.status Status.severity_order) same1
          ∙ hm) in
    (
      r3,
      rw e1 (rw e2 (rw e3 refl)),
      ap (λ (x : Report). entry_or_nil (lookup "deleted" x.contents)) same3
          ∙ ap entry_or_nil (other2 "deleted" refl)
          ∙ h1,
      ap (λ (x : Report). entry_or_nil (lookup "failed" x.contents)) same3 ∙ h2,
      ap (λ (x : Report). x.errors) same3
          ∙ ap (λ (x : Report). x.errors ++ error_msgs) same2
          ∙ ap (λ (x : Report). x.errors ++ error_msgs) same1,
      k3,
    )
