-- ===== src/Retry/Trace.antt =====
-- What Retry does, as the sequence of its attempts.
use tools_acloud.Base.{
  ℕ, zero, suc, ◌+◌, ◌≤◌, ◌≡◌, refl, ◌⊎◌, inl, inr, Bool, true, false, ◌&&◌, Option, some, arith,
  leb, Bool-cases, &&-true, &&-false, leb→le,
}
use tools_acloud.Base.Ratio.{Ratio}
use tools_acloud.Errors.{Exc, exception, is_instance}
use tools_acloud.Exec.{Result, ok, err, Exec}
use tools_acloud.Retry.{delay, after_attempt, retry_loop, retry}

module _ {S A : Type 0} (sleep : Ratio → S → S) (retry_checker : Exc → Bool) (max_retries : ℕ)
    (functor : Exec S A) (sleep_multiplier retry_backoff_factor : Ratio) where
  abbrev loop : ℕ → ℕ → Exec S (Option A)
  loop = retry_loop sleep retry_checker max_retries functor sleep_multiplier retry_backoff_factor

  abbrev after : ℕ → (S → Result (Option A) × S) → Result A × S → Result (Option A) × S
  after =
      after_attempt sleep retry_checker max_retries functor sleep_multiplier retry_backoff_factor

  -- Retry, called with the section's arguments.
  abbrev pub run : Exec S (Option A)
  run = retry sleep retry_checker max_retries functor sleep_multiplier retry_backoff_factor

  -- The world after the sleep that follows the attempt of this number.
  abbrev pub pause : ℕ → S → S
  pause n v = sleep (delay sleep_multiplier retry_backoff_factor n) v

  -- An exception after which Retry may try again.
  abbrev pub IsRetriable : Exc → Type 0
  IsRetriable e = (is_instance e exception && retry_checker e) ≡ true

  -- `Failed n s u`: from `s`, `n` attempts have failed with retriable exceptions, each one was
  -- followed by the sleep of its number, and `u` is the world after the last sleep.
  pub data Failed : ℕ → S → S → Type 0 where
    start : {s : S} → Failed 0 s s
    attempt :
        {n : ℕ} {s u v : S} (e : Exc)
        → Failed n s u
        → functor u ≡ (err e, v)
        → IsRetriable e
        → Failed (suc n) s (pause (suc n) v)

  -- The last attempt, from `u` after `n` failures: it returned, or it raised an exception that is not
  -- retriable, or it was the attempt of number `max_retries + 1`.
  pub data Last (n : ℕ) (u : S) : Result (Option A) × S → Type 0 where
    returned : {t : S} (a : A) → functor u ≡ (ok a, t) → Last n u (ok (some a), t)
    raised :
        {t : S} (e : Exc)
        → functor u ≡ (err e, t)
        → ((is_instance e exception && retry_checker e) ≡ false) ⊎ (n ≡ max_retries)
        → Last n u (err e, t)

  pub record Ran (s : S) (outcome : Result (Option A) × S) : Type 0 where
    pub count : ℕ
    pub world : S
    pub before : Failed count s world
    pub bound : count ≤ max_retries
    pub last : Last count world outcome

  stop_cases :
      (n : ℕ) (e : Exc)
      → n ≤ max_retries
      → ((is_instance e exception && retry_checker e) ≡ false) ⊎ (leb (suc n) max_retries ≡ false)
      → ((is_instance e exception && retry_checker e) ≡ false) ⊎ (n ≡ max_retries)
  stop_cases n e le (inl h) = inl h
  stop_cases n e le (inr h) = inr (ground arith)

  attempt_cases :
      (n : ℕ) (u : S) (again : S → Result (Option A) × S) (r : Result A × S)
      → functor u ≡ r
      → n ≤ max_retries
      → Last n u (after (suc n) again r)
        ⊎ ((e : Exc) × (v : S) × (functor u ≡ (err e, v))
            × IsRetriable e
            × (suc n ≤ max_retries)
            × (after (suc n) again r ≡ again (pause (suc n) v)))
  unfolding after_attempt
  attempt_cases n u again (ok a, t) h le = inl (returned a h)
  attempt_cases n u again (err e, t) h le =
      elim (Bool-cases (is_instance e exception && retry_checker e && leb (suc n) max_retries)) [
        | inl again_ ↦
            let (can, room) = &&-true _ _ again_ in inr (e, t, h, can, leb→le _ _ room, rw again_)
        | inr stop ↦ rw stop (inl (raised e h (stop_cases n e le (&&-false _ _ stop))))
      ]

  loop-Ran :
      (rounds n : ℕ) (s u : S)
      → n + suc rounds ≡ suc max_retries
      → Failed n s u
      → Ran s (loop (suc rounds) n u)
  unfolding retry_loop
  loop-Ran zero n s u e f =
      elim (attempt_cases n u (loop zero (suc n)) (functor u) refl (omega arith)) [
        | inl l ↦ record { count = n; world = u; before = f; bound = omega arith; last = l }
        | inr (x, v, h, can, room, go) ↦ absurd (omega arith)
      ]
  loop-Ran (suc rounds) n s u e f =
      elim (attempt_cases n u (loop (suc rounds) (suc n)) (functor u) refl (omega arith)) [
        | inl l ↦ record { count = n; world = u; before = f; bound = omega arith; last = l }
        | inr (x, v, h, can, room, go) ↦
            rw go (loop-Ran rounds (suc n) s _ (omega arith) (attempt x f h can))
      ]

  -- Retry ends, and it is a run of this form: some n failures, n at most `max_retries`, each with an
  -- exception that it retries and each followed by the sleep of its number; then one last attempt,
  -- whose value or exception is the result. It gives up on an exception only if that is not to be
  -- retried or n is `max_retries`, and it never returns None.
  pub retry-Ran : (s : S) → Ran s (run s)
  unfolding retry
  retry-Ran s = loop-Ran max_retries 0 s s (omega arith) start

  -- An exception that is not to be retried ends Retry at the first attempt.
  pub retry-at_once :
      (s t : S) (e : Exc) → functor s ≡ (err e, t) → retry_checker e ≡ false → run s ≡ (err e, t)
  unfolding retry retry_loop after_attempt
  retry-at_once s t e h never = rw h (rw never (ground arith))
