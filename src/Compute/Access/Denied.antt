-- ===== src/Compute/Access/Denied.antt =====
-- How CheckAccess sees that access is denied.
use tools_acloud.Base.{ℕ, true, false, none, some, ◌≡◌, refl, ◌∷◌, [], List}
use tools_acloud.Base.Ratio.{Ratio}
use tools_acloud.Cloud.{should_retry, translate_error}
use tools_acloud.Cloud.Translate.{execute-at_once, translate_error-api, retries}
use tools_acloud.Compute.Access.{check_access, remove_code, denied_or_raise}
use tools_acloud.Errors.{Exc, is_instance, api_http_error}
use tools_acloud.Exec.{ok, err, Exec}
use tools_acloud.Retry.{is_any_instance}

abbrev other_codes : List ℕ
other_codes = 500 ∷ 502 ∷ 503 ∷ []

module _ {W Resp : Type 0} (nap : Ratio → W → W) (api : Exec W Resp) where
  denied-never :
      (e : Exc)
      → is_instance e api_http_error ≡ true
      → e.code ≡ 403
      → retries nap api (some other_codes) none none none none (translate_error e) ≡ false
  unfolding should_retry is_any_instance is_instance
  denied-never e h c = rw (translate_error-api e h) (rw c refl)

  -- CheckAccess answers False at the first HTTP error of the API with the code 403, without a retry,
  -- although 403 is among the codes that requests are retried for.
  pub check_access-denied :
      (w v : W) (e : Exc)
      → api w ≡ (err e, v)
      → is_instance e api_http_error ≡ true
      → e.code ≡ 403
      → check_access nap api w ≡ (ok false, v)
  unfolding check_access remove_code denied_or_raise is_instance
  check_access-denied w v e h k c =
      rw
        (execute-at_once nap api (some other_codes) none none none none w v e h k
          (denied-never e k c))
        (rw c refl)
