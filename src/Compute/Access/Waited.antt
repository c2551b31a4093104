-- ===== src/Compute/Access/Waited.antt =====
-- How the waiting for an operation ends.
use package.text.Mathlib.TextEquality.{eq_iff}
use tools_acloud.Base.{
  ℕ, false, String, ◌≡◌, ◌<◌, ◌-◌, ◌⊎◌, str_eq, Bool, inl, true, inr, ◌∙◌, ap, sym, refl, some,
  arith,
}
use tools_acloud.Compute.Access.{
  OperationScope, Operation, operation_timeout, operation_timeout_secs, operation_status,
  get_operation_status, wait_on_operation, operation_poll_interval_secs,
}
use tools_acloud.Exec.{Result, ok, err, Exec, and_then}
use tools_acloud.Errors.{Exc}
use tools_acloud.Retry.Poll.{IsClock, poll_and_wait-Ended, Ended, expected, failed, late}

module _ {W : Type 0} (time : W → ℕ) (sleep : ℕ → W → W)
    (get : OperationScope → String → String → Exec W Operation) (scope : OperationScope)
    (name scope_name : String) where
  -- The state of the operation was read in some world, and this one followed.
  abbrev pub Read : Operation → W → Type 0
  Read o t = (u : W) × (get scope name scope_name u ≡ (ok o, t))

  -- The operation is done; or the state says that it failed, or cannot be read; or it was not done at a
  -- time past the limit.
  abbrev pub Waited : W → Result (Unit {0}) × W → Type 0
  Waited w (ok _, t) = (o : Operation) × Read o t × (operation_status o ≡ ok "DONE")
  Waited w (err e, t) =
      ((o : Operation) × Read o t × (operation_status o ≡ err e))
      ⊎ ((u : W) × (get scope name scope_name u ≡ (err e, t)))
      ⊎ ((e ≡ operation_timeout)
          × (operation_timeout_secs < time t - time w)
          × ((o : Operation) × (s : String) × Read o t
              × (operation_status o ≡ ok s)
              × (str_eq s "DONE" ≡ false)))

  status-Read :
      (r : Result String) (t : W) (u : W)
      → get_operation_status get scope name scope_name u ≡ (r, t)
      → ((o : Operation) × Read o t × (operation_status o ≡ r))
        ⊎ ((e : Exc) × (r ≡ err e) × ((u : W) × (get scope name scope_name u ≡ (err e, t))))
  unfolding get_operation_status
  status-Read r t u h = by_answer (get scope name scope_name u) refl h
    where
      by_answer :
          (x : Result Operation × W)
          → get scope name scope_name u ≡ x
          → and_then x (λ result w. (operation_status result, w)) ≡ (r, t)
          → ((o : Operation) × Read o t × (operation_status o ≡ r))
            ⊎ ((e : Exc) × (r ≡ err e) × ((u : W) × (get scope name scope_name u ≡ (err e, t))))
      by_answer (ok o, v) g e = inl (
        o,
        (u, g ∙ ap (λ (x : Result String × W). (ok o, x.1)) e),
        ap (λ (x : Result String × W). x.0) e,
      )
      by_answer (err z, v) g e = inr (
        z,
        sym (ap (λ (x : Result String × W). x.0) e),
        (u, g ∙ ap (λ (x : Result String × W). (err z, x.1)) e),
      )

  is_ok : {A : Type 0} → Result A → Bool
  is_ok (ok a) = true
  is_ok (err e) = false

  ok-Read :
      (s : String) (t : W)
      → ((o : Operation) × Read o t × (operation_status o ≡ ok s))
        ⊎ ((e : Exc) × (ok s ≡ err e) × ((u : W) × (get scope name scope_name u ≡ (err e, t))))
      → (o : Operation) × Read o t × (operation_status o ≡ ok s)
  unfolding is_ok
  ok-Read s t (inl x) = x
  ok-Read s t (inr (e, bad, g)) = absurd (let p : true ≡ false = ap is_ok bad in cc)

  exc_of : Exc → Result String → Exc
  exc_of d (ok s) = d
  exc_of d (err e) = e

  err-Read :
      (e : Exc) (t : W)
      → ((o : Operation) × Read o t × (operation_status o ≡ err e))
        ⊎ ((z : Exc) × (◌≡◌ {A = Result String} (err e) (err z))
            × ((u : W) × (get scope name scope_name u ≡ (err z, t))))
      → ((o : Operation) × Read o t × (operation_status o ≡ err e))
        ⊎ ((u : W) × (get scope name scope_name u ≡ (err e, t)))
  unfolding exc_of
  err-Read e t (inl x) = inl x
  err-Read e t (inr (z, same, (u, g))) =
      let p : z ≡ e = sym (ap (exc_of e) same) in inr (u, g ∙ ap (λ y. (err y, t)) p)

  abbrev Polled : ℕ → Result (Unit {0}) × W → Type 0
  Polled started r =
      Ended time sleep (get_operation_status get scope name scope_name) (λ s. str_eq s "DONE")
        operation_timeout operation_timeout_secs operation_poll_interval_secs started r

  waited : (w : W) (r : Result (Unit {0}) × W) → Polled (time w) r → Waited w r
  waited w _ (expected {u} {t} s h done) =
      let (o, at, e) = ok-Read s t (status-Read (ok s) t u h) in
      (o, at, e ∙ ap ok ((eq_iff s "DONE").0 done))
  waited w _ (failed {u} {t} e h) = either (err-Read e t (status-Read (err e) t u h))
    where
      either :
          ((o : Operation) × Read o t × (operation_status o ≡ err e))
            ⊎ ((u : W) × (get scope name scope_name u ≡ (err e, t)))
          → Waited w (err e, t)
      either (inl x) = inl x
      either (inr x) = inr (inl x)
  waited w _ (late {u} {t} s h not_done past) =
      let (o, at, e) = ok-Read s t (status-Read (ok s) t u h) in
      inr (inr (refl, past, (o, s, at, e, not_done)))

  -- With a clock that does not run backwards, and on which a sleep takes its time, 1802 rounds are enough:
  -- WaitOnOperation ends, and returns after it has read that the operation is DONE and has no errors. It
  -- raises where the operation has errors or no status, where its state cannot be read, or with a
  -- timeout after a state that is not DONE, at more than 1800 seconds from the start.
  pub wait_on_operation-Waited :
      (clock : IsClock time sleep
        (get_operation_status get scope name scope_name)
        (λ s. str_eq s "DONE")
        operation_timeout
        operation_timeout_secs
        operation_poll_interval_secs)
      (fuel : ℕ) (w : W)
      → 1801 < fuel
      → (r : Result (Unit {0}) × W) × (wait_on_operation time sleep get scope name scope_name fuel w
          ≡ some r)
        × Waited w r
  unfolding wait_on_operation
  wait_on_operation-Waited clock fuel w room =
      let (r, e, ended) =
        poll_and_wait-Ended time sleep (get_operation_status get scope name scope_name)
          (λ s. str_eq s "DONE") operation_timeout operation_timeout_secs
          operation_poll_interval_secs clock (omega arith) fuel w (omega arith) in
      (r, e, waited w r ended)
