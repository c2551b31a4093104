-- ===== src/Retry/Poll.antt =====
-- internal/lib/utils.py: PollAndWait. `time` reads the clock of the caller's world in whole units.
use tools_acloud.Base.{
  ℕ, zero, suc, ◌+◌, ◌-◌, ◌≤◌, ◌<◌, ◌≡◌, refl, ap, Bool, true, false, Option, none, some, arith,
  ltb, inl, inr, if◌then◌else◌, Bool-cases, ltb→lt,
}
use tools_acloud.Errors.{Exc}
use tools_acloud.Exec.{Result, ok, err, Exec}

module _ {S R : Type 0} (time : S → ℕ) (sleep : ℕ → S → S) (func : Exec S R)
    (is_expected : R → Bool) (timeout_exception : Exc) (timeout_secs sleep_interval_secs : ℕ) where
  -- A round once `func` has ended; `again` is the rest of the loop.
  unfoldable pub after_poll :
      ℕ → (S → Option (Result (Unit {0}) × S)) → Result R × S → Option (Result (Unit {0}) × S)
  after_poll started again (err e, s) = some (err e, s)
  after_poll started again (ok return_value, s) =
      let next = again (if ltb 0 sleep_interval_secs then sleep sleep_interval_secs s else s) in
      if is_expected return_value
      then some (ok tt, s)
      else if ltb timeout_secs (time s - started)
      then some (err timeout_exception, s)
      else next

  -- `while True`, on fuel; `none` means that the fuel ran out.
  unfoldable pub poll_loop : ℕ → ℕ → S → Option (Result (Unit {0}) × S)
  unfolding after_poll
  poll_loop zero started s = none
  poll_loop (suc fuel) started s = after_poll started (poll_loop fuel started) (func s)

  unfoldable pub poll_and_wait : ℕ → S → Option (Result (Unit {0}) × S)
  unfolding poll_loop
  poll_and_wait fuel s = poll_loop fuel (time s) s

  -- How a call of PollAndWait ends: `func` gave the expected value, or it raised, or it gave another
  -- value at a time past the limit.
  pub data Ended (started : ℕ) : Result (Unit {0}) × S → Type 0 where
    expected :
        {u t : S} (v : R) → func u ≡ (ok v, t) → is_expected v ≡ true → Ended started (ok tt, t)
    failed : {u t : S} (e : Exc) → func u ≡ (err e, t) → Ended started (err e, t)
    late :
        {u t : S} (v : R)
        → func u ≡ (ok v, t)
        → is_expected v ≡ false
        → timeout_secs < time t - started
        → Ended started (err timeout_exception, t)

  -- The clock does not run backwards under `func`, and a sleep of `n` takes at least `n`.
  pub record IsClock : Type 0 where
    pub func_time : (s : S) → time s ≤ time (func s).1
    pub sleep_time : (n : ℕ) (s : S) → time s + n ≤ time (sleep n s)

  abbrev Answer : ℕ → Option (Result (Unit {0}) × S) → Type 0
  Answer started o = (r : Result (Unit {0}) × S) × (o ≡ some r) × Ended started r

  module _ (clock : IsClock) (waits : 0 < sleep_interval_secs) where
    -- The clock has moved on when the next round begins.
    in_time :
        {v : R} (s t : S)
        → func s ≡ (ok v, t)
        → (started : ℕ) → ltb timeout_secs (time t - started) ≡ false
        → time s ≤ started + timeout_secs
    in_time s t h started l =
        ground (arith, ap (λ (x : Result R × S). time x.1) h, clock.func_time s)

    next_time :
        (s t : S)
        → (func s).1 ≡ t
        → time s < time (if ltb 0 sleep_interval_secs then sleep sleep_interval_secs t else t)
    next_time s t e =
        ground (arith, ap time e, clock.func_time s, clock.sleep_time sleep_interval_secs t)

    after-Ended :
        (started : ℕ) (s : S) (again : S → Option (Result (Unit {0}) × S)) (r : Result R × S)
        → func s ≡ r
        → started ≤ time s
        → (time s ≤ started + timeout_secs → (w : S) → time s < time w → Answer started (again w))
        → Answer started (after_poll started again r)
    unfolding after_poll
    after-Ended started s again (err e, t) h le next = ((err e, t), refl, failed e h)
    after-Ended started s again (ok v, t) h le next = elim (Bool-cases (is_expected v)) [
      | inl e ↦ rw e ((ok tt, t), refl, expected v h e)
      | inr n ↦ elim (Bool-cases (ltb timeout_secs (time t - started))) [
        | inl l ↦ rw n (rw l ((err timeout_exception, t), refl, late v h n (ltb→lt _ _ l)))
        | inr l ↦ rw n (rw l (next (in_time s t h started l) _ (next_time s t (ap (λ x. x.1) h))))
      ]
    ]

    poll_loop-Ended :
        (fuel started : ℕ) (s : S)
        → started ≤ time s
        → 0 < fuel
        → started + timeout_secs + 1 < time s + fuel
        → Answer started (poll_loop fuel started s)
    unfolding poll_loop
    poll_loop-Ended zero started s le pos room = absurd (omega arith)
    poll_loop-Ended (suc fuel) started s le pos room =
        after-Ended started s (poll_loop fuel started) (func s) refl le λ on_time w moved.
          poll_loop-Ended fuel started w (omega arith) (omega arith) (omega arith)

    -- With a clock that does not run backwards and a positive interval, `timeout_secs + 2` rounds are
    -- enough: PollAndWait ends, and it ends by the expected value, by an exception of `func`, or by
    -- the timeout exception after a value that is not expected at a time past the limit.
    pub poll_and_wait-Ended :
        (fuel : ℕ) (s : S)
        → timeout_secs + 1 < fuel
        → (r : Result (Unit {0}) × S) × (poll_and_wait fuel s ≡ some r) × Ended (time s) r
    unfolding poll_and_wait
    poll_and_wait-Ended fuel s room =
        poll_loop-Ended fuel (time s) s (omega arith) (omega arith) (omega arith)
