-- ===== src/Report/Status.antt =====
-- public/report.py: the class Status.
use tools_acloud.Base.{ℕ, Bool, Option, some, [], ◌∷◌, String, ltb}
use tools_acloud.Base.Dict.{Dict, lookup}
use tools_acloud.Base.Text.{◌<>◌}
use tools_acloud.Errors.{exc, value_error}
use tools_acloud.Exec.{Result, ok, err}

abbrev pub success : String
success = "SUCCESS"

abbrev pub fail : String
fail = "FAIL"

abbrev pub boot_fail : String
boot_fail = "BOOT_FAIL"

abbrev pub unknown : String
unknown = "UNKNOWN"

abbrev pub severity_order : Dict ℕ
severity_order = (unknown, 0) ∷ (success, 1) ∷ (fail, 2) ∷ (boot_fail, 3) ∷ []

unfoldable pub compare_severity : String → String → Option ℕ → Option ℕ → Result Bool
compare_severity candidate reference (some c) (some r) = ok (ltb r c)
compare_severity candidate reference _ _ =
    err (exc value_error (candidate <> " or " <> reference <> " is not recognized."))

unfoldable pub is_more_severe : String → String → Result Bool
unfolding compare_severity
is_more_severe candidate reference =
    compare_severity candidate reference (lookup candidate severity_order)
      (lookup reference severity_order)
