-- ===== src/Report/Steps.antt =====
-- Code that fills one report while it works on the world: the report is an object that every step
-- changes, so it is part of the state, and keeps its changes when a step raises.
use tools_acloud.Base.{String}
use tools_acloud.Report.{Report, add_error, set_status}
use tools_acloud.Exec.{Exec, Result, ok, err, ◌>>=◌}
use tools_acloud.Report.Status

-- A method of the report.
unfoldable pub store_report : Report → Result Report → Result (Unit {0}) × Report
store_report r (ok r') = (ok tt, r')
store_report r (err e) = (err e, r)

unfoldable pub method : (Report → Result Report) → Exec Report (Unit {0})
unfolding store_report
method f r = store_report r (f r)

module _ {W : Type 0} where
  -- A step of the world, and a step of the report.
  abbrev pub world : {A : Type 0} → Exec W A → Exec (Report × W) A
  world m (r, w) = let (a, w') = m w in (a, (r, w'))

  abbrev pub change : {A : Type 0} → Exec Report A → Exec (Report × W) A
  change m (r, w) = let (a, r') = m r in (a, (r', w))

  -- `delete_report.AddError(...)`, `delete_report.SetStatus(report.Status.FAIL)`
  unfoldable pub note_failure : String → Exec (Report × W) (Unit {0})
  unfolding method
  note_failure message = change (method (λ r. ok (add_error message r))) >>= λ _.
      change (method (set_status Status.fail))
