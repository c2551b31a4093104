-- ===== src/Retry.antt =====
-- internal/lib/utils.py: Retry, RetryExceptionType and PollAndWait. The function
-- that is called is an action of the caller's world; `sleep` is what time.sleep does to that world.
pub mod Trace
pub mod Poll
use tools_acloud.Base.{
  ℕ, zero, suc, ◌+◌, ◌-◌, Bool, true, false, not, ◌&&◌, Option, none, some, List, leb, any,
  if◌then◌else◌,
}
use tools_acloud.Base.Ratio.{Ratio, of_ℕ, mul, pow, is_one}
use tools_acloud.Errors.{ExcClass, Exc, exception, is_instance}
use tools_acloud.Exec.{Result, ok, err, Exec}

-- The seconds to sleep after the attempt of this number.
unfoldable pub delay : Ratio → Ratio → ℕ → Ratio
delay sleep_multiplier retry_backoff_factor attempt_count =
    if not (is_one retry_backoff_factor)
    then mul sleep_multiplier (pow retry_backoff_factor (attempt_count - 1))
    else mul sleep_multiplier (of_ℕ attempt_count)

module _ {S A : Type 0} (sleep : Ratio → S → S) (retry_checker : Exc → Bool) (max_retries : ℕ)
    (functor : Exec S A) (sleep_multiplier retry_backoff_factor : Ratio) where
  -- What stands under `try` and `except` once the call has ended; `again` is the rest of the loop.
  -- `except Exception` lets a SystemExit through.
  unfoldable pub after_attempt :
      ℕ → (S → Result (Option A) × S) → Result A × S → Result (Option A) × S
  after_attempt attempt_count again (ok return_value, s) = (ok (some return_value), s)
  after_attempt attempt_count again (err e, s) =
      let next = again (sleep (delay sleep_multiplier retry_backoff_factor attempt_count) s) in
      if is_instance e exception && retry_checker e && leb attempt_count max_retries
      then next
      else (err e, s)

  -- `while attempt_count <= max_retries`, on the number of rounds for which the test still holds.
  -- `none` is the None that the function returns where the loop ends by its test.
  unfoldable pub retry_loop : ℕ → ℕ → Exec S (Option A)
  unfolding after_attempt
  retry_loop zero attempt_count s = (ok none, s)
  retry_loop (suc rounds) attempt_count s =
      after_attempt (suc attempt_count) (retry_loop rounds (suc attempt_count)) (functor s)

  unfoldable pub retry : Exec S (Option A)
  unfolding retry_loop
  retry = retry_loop (suc max_retries) 0

-- `isinstance(e, exception_types)` for a tuple of types.
unfoldable pub is_any_instance : List ExcClass → Exc → Bool
is_any_instance exception_types e = any (is_instance e) exception_types

module _ {S A : Type 0} (sleep : Ratio → S → S) where
  unfoldable pub retry_exception_type :
      List ExcClass → ℕ → Exec S A → Ratio → Ratio → Exec S (Option A)
  unfolding retry is_any_instance
  retry_exception_type exception_types max_retries functor sleep_multiplier retry_backoff_factor =
      retry sleep (is_any_instance exception_types) max_retries functor sleep_multiplier
        retry_backoff_factor
