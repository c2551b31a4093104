-- ===== src/Cloud/Translate.antt =====
-- Which exceptions leave Execute, and when it does not retry.
use tools_acloud.Base.{
  ℕ, true, false, ◌≡◌, refl, ◌==◌, Bool-cases, inl, inr, if◌then◌else◌, Option, List, Bool, some,
  ◌&&◌, ◌∙◌, ◌⊎◌, none,
}
use tools_acloud.Errors.{
  Exc, is_instance, api_http_error, http_error, resource_not_found_error, ExcClass, exception,
}
use tools_acloud.Exec.{Result, ok, err, Exec}
use tools_acloud.Cloud.{
  translate_error, create_from_http_error, translated, execute_once, execute, or_default,
  should_retry, retry_count, default_retry_http_codes, retriable_errors, retry_sleep_multiplier,
  retry_backoff_factor,
}
use tools_acloud.Base.Ratio.{Ratio}
use tools_acloud.Retry.Trace.{Failed, retry-Ran, Last, retry-at_once, returned, raised}
use mathlib.Core.Path.{subst}

-- What becomes of an exception of the API library.
pub translate_error-api :
    (e : Exc)
    → is_instance e api_http_error ≡ true
    → translate_error e ≡ (
        if e.code == 404
        then record { cls = resource_not_found_error; code = e.code; message = e.message }
        else record { cls = http_error; code = e.code; message = e.message })
unfolding translate_error create_from_http_error
translate_error-api e h = rw h refl

http_not_api :
    (c : ℕ) (m : _)
    → is_instance (record { cls = http_error; code = c; message = m }) api_http_error ≡ false
unfolding is_instance
http_not_api c m = refl

missing_not_api :
    (c : ℕ) (m : _)
    → is_instance (record { cls = resource_not_found_error; code = c; message = m }) api_http_error
      ≡ false
unfolding is_instance
missing_not_api c m = refl

translate_error-not_api :
    (e : Exc)
    → is_instance e api_http_error ≡ true
    → is_instance (translate_error e) api_http_error ≡ false
translate_error-not_api e h = rw (translate_error-api e h) (elim (Bool-cases (e.code == 404)) [
  | inl y ↦ rw y (missing_not_api e.code e.message)
  | inr n ↦ rw n (http_not_api e.code e.message)
])

module _ {W Resp : Type 0} (api : Exec W Resp) where
  -- The exceptions of the class's own kind are gone after ExecuteOnce.
  abbrev NotApi : Result Resp × W → Type 0
  NotApi (ok _, _) = Unit
  NotApi (err e, _) = is_instance e api_http_error ≡ false

  translated-NotApi : (r : Result Resp × W) → NotApi (translated r)
  unfolding translated
  translated-NotApi (ok a, w) = tt
  translated-NotApi (err e, w) = elim (Bool-cases (is_instance e api_http_error)) [
    | inl y ↦ rw y (translate_error-not_api e y)
    | inr n ↦ rw n n
  ]

  execute_once-NotApi : (w : W) → NotApi (execute_once api w)
  unfolding execute_once
  execute_once-NotApi w = translated-NotApi (api w)

module _ {W Resp : Type 0} (nap : Ratio → W → W) (api : Exec W Resp)
    (retry_http_codes : Option (List ℕ)) (max_retry : Option ℕ)
    (sleep backoff_factor : Option Ratio) (other_retriable_errors : Option (List ExcClass)) where
  -- Execute, called with the section's arguments.
  abbrev pub run : Exec W (Option Resp)
  run = execute nap api retry_http_codes max_retry sleep backoff_factor other_retriable_errors

  -- The exceptions that the settings let Execute retry.
  abbrev pub retries : Exc → Bool
  retries e =
      should_retry e (or_default retry_http_codes default_retry_http_codes)
        (or_default other_retriable_errors retriable_errors)

  abbrev Tries : ℕ → W → W → Type 0
  Tries =
      Failed nap retries (or_default max_retry retry_count) (execute_once api)
        (or_default sleep retry_sleep_multiplier) (or_default backoff_factor retry_backoff_factor)

  abbrev Final : ℕ → W → Result (Option Resp) × W → Type 0
  Final =
      Last nap retries (or_default max_retry retry_count) (execute_once api)
        (or_default sleep retry_sleep_multiplier) (or_default backoff_factor retry_backoff_factor)

  -- `Exhausted w`: from `w`, as many attempts as there are retries have failed.
  abbrev pub Exhausted : W → Type 0
  Exhausted w = (u : W) × Tries (or_default max_retry retry_count) w u

  -- What may come out of Execute from the world `w`.
  abbrev pub Answer : W → Result (Option Resp) × W → Type 0
  Answer w (ok none, _) = ⊥
  Answer w (ok (some a), _) = Unit
  Answer w (err e, _) =
      (is_instance e api_http_error ≡ false)
      × (((is_instance e exception && retries e) ≡ false) ⊎ Exhausted w)

  Final-Answer :
      {n : ℕ} {o : Result (Option Resp) × W} (w u : W) → Tries n w u → Final n u o → Answer w o
  Final-Answer w u tries (returned a h) = tt
  Final-Answer w u tries (raised {t = t} e h why) = (
    subst (NotApi api) h (execute_once-NotApi api u),
    elim why [ inl never ↦ inl never | inr enough ↦ inr (u, rw enough at tries) ],
  )

  -- Execute always ends. It never returns None in place of a response; no exception of the API
  -- library's own HTTP class leaves it; and it raises an exception that it is set to retry only when
  -- as many attempts as there are retries have failed before the last.
  pub execute-Answer : (w : W) → Answer w (run w)
  unfolding execute
  execute-Answer w =
      let ran =
        retry-Ran nap retries (or_default max_retry retry_count) (execute_once api)
          (or_default sleep retry_sleep_multiplier) (or_default backoff_factor retry_backoff_factor)
          w in
      Final-Answer w ran.world ran.before ran.last

  -- An HTTP error that is not to be retried ends Execute at the first attempt, translated: as
  -- ResourceNotFoundError for the code 404 and as HttpError for the others, the code and text kept.
  pub execute-at_once :
      (w v : W) (e : Exc)
      → api w ≡ (err e, v)
      → is_instance e api_http_error ≡ true
      → retries (translate_error e) ≡ false
      → run w ≡ (
        err (
            if e.code == 404
            then record { cls = resource_not_found_error; code = e.code; message = e.message }
            else record { cls = http_error; code = e.code; message = e.message }),
        v,
      )
  unfolding execute execute_once translated
  execute-at_once w v e h k never =
      retry-at_once nap retries (or_default max_retry retry_count) (execute_once api)
        (or_default sleep retry_sleep_multiplier) (or_default backoff_factor retry_backoff_factor) w
        v (translate_error e) (rw h (rw k refl)) never
      ∙ rw (translate_error-api e k) refl
