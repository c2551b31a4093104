-- ===== src/LocalCreate/Selected.antt =====
-- Which instance id is selected where the command gives none.
use mathlib.Core.Path.{subst}
use tools_acloud.Base.{
  ℕ, zero, suc, Bool, true, false, none, some, Option, ◌+◌, ◌≤◌, ◌<◌, ◌≡◌, refl, arith,
  if◌then◌else◌,
}
use tools_acloud.Exec.{Result, ok, err, and_then, pure}
use tools_acloud.LocalCreate.{select_id, determine_id, max_instance_id, Locks}
use mathlib.Core.Path.{subst}

module _ {L : Type 0} (locks : Locks L) where
  -- The candidates from `a` on and below `b` were tried in turn, and each refused.
  pub data Refused (a : ℕ) (w : L) : ℕ → L → Type 0 where
    none_yet : Refused a w a w
    one_more :
        {b : ℕ} {u v : L}
        → Refused a w b u
        → locks.lock_if_not_in_use b 0 u ≡ (ok false, v)
        → Refused a w (suc b) v

  -- The end of the search: the first candidate that did not refuse, or the end of the range.
  abbrev pub Ends : ℕ → ℕ → L → Result (Option ℕ) × L → Type 0
  Ends a end w (ok none, v) = Refused a w end v
  Ends a end w (ok (some i), v) =
      (a ≤ i)
      × (i < end)
      × ((u : L) × Refused a w i u × (locks.lock_if_not_in_use i 0 u ≡ (ok true, v)))
  Ends a end w (err e, v) =
      (i : ℕ) × (a ≤ i)
      × (i < end)
      × ((u : L) × Refused a w i u × (locks.lock_if_not_in_use i 0 u ≡ (err e, v)))

  Refused-le : {a : ℕ} {w : L} {b : ℕ} {v : L} → Refused a w b v → a ≤ b
  Refused-le none_yet = omega arith
  Refused-le (one_more r e) = let h = Refused-le r in omega arith

  tried :
      (n a c end : ℕ) (w u : L)
      → c + suc n ≡ end
      → Refused a w c u
      → (x : Result Bool × L) → locks.lock_if_not_in_use c 0 u ≡ x
      → ((v : L) → Refused a w (suc c) v → Ends a end w (select_id locks n (suc c) v))
      → Ends a end w (and_then x (λ got. if got then pure (some c) else select_id locks n (suc c)))
  tried n a c end w u e r (ok true, v) h rest =
      let le = Refused-le r in (le, omega (arith, e), (u, r, h))
  tried n a c end w u e r (ok false, v) h rest = rest v (one_more r h)
  tried n a c end w u e r (err x, v) h rest =
      let le = Refused-le r in (c, le, omega (arith, e), (u, r, h))

  select_id-Ends :
      (n a c end : ℕ) (w u : L)
      → c + n ≡ end
      → Refused a w c u
      → Ends a end w (select_id locks n c u)
  unfolding select_id
  select_id-Ends zero a c end w u e r =
      let same : c ≡ end = omega (arith, e) in subst (λ b. Refused a w b u) same r
  select_id-Ends (suc n) a c end w u e r =
      tried n a c end w u e r (locks.lock_if_not_in_use c 0 u) refl
        (λ v r'. select_id-Ends n a (suc c) end w v (omega (arith, e)) r')

  -- Without an id in the command, the ids 1 to 10 are tried in turn with LockIfNotInUse, and the id
  -- that is selected is the first that does not refuse; where all ten refuse none is selected, and an
  -- exception is that of the id it came from, after refusals of all below it.
  pub determine_id-bounds : (w : L) → Ends 1 11 w (determine_id locks none w)
  unfolding determine_id
  determine_id-bounds w = select_id-Ends max_instance_id 1 1 11 w w refl none_yet
