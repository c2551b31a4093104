-- ===== src/Base/Lists.antt =====
-- Lists measured and indexed by native numbers, and tests over lists.
use Prim.Native.Nat.{ℕ, zero, suc, ◌+◌, ◌<◌}
use mathlib.Core.Path.{◌≡◌, refl, ap}
use mathlib.Core.Logic.{◌⊎◌}
use mathlib.Core.Bool.{Bool, true, false, not, ◌&&◌, ◌||◌}
use mathlib.Core.List.{List, [], ◌∷◌, ◌++◌}
use mathlib.Core.Option.{Option, none, some}
use native.Mathlib.Omega.{arith}

-- Is the element in the list?
abbrev pub IsIn : {A : Type 0} → A → List A → Type 0
IsIn a [] = ⊥
IsIn a (x ∷ xs) = (x ≡ a) ⊎ IsIn a xs

module _ {ℓ} {A : Type ℓ} where
  abbrev pub length : List A → ℕ
  length [] = 0
  length (x ∷ xs) = suc (length xs)

  abbrev pub get_elem? : List A → ℕ → Option A
  get_elem? [] i = none
  get_elem? (x ∷ xs) zero = some x
  get_elem? (x ∷ xs) (suc i) = get_elem? xs i

  -- `not xs` of Python.
  abbrev pub is_nil : List A → Bool
  is_nil [] = true
  is_nil (x ∷ xs) = false

  abbrev pub any : (A → Bool) → List A → Bool
  any p [] = false
  any p (x ∷ xs) = p x || any p xs

  abbrev pub all : (A → Bool) → List A → Bool
  all p [] = true
  all p (x ∷ xs) = p x && all p xs

  -- A list comprehension with a condition.
  abbrev pub select : (A → Bool) → List A → List A
  select p [] = []
  select p (x ∷ xs) = elim (p x) [ true ↦ x ∷ select p xs | false ↦ select p xs ]

  abbrev pub All {κ} : (A → Type κ) → List A → Type κ
  All P [] = Unit
  All P (x ∷ xs) = P x × All P xs

  pub length-append : (xs ys : List A) → length (xs ++ ys) ≡ length xs + length ys
  length-append [] ys = omega arith
  length-append (x ∷ xs) ys = omega (arith, length-append xs ys)

  pub All-append {κ} : (P : A → Type κ) (xs ys : List A) → All P xs → All P ys → All P (xs ++ ys)
  All-append P [] ys hx hy = hy
  All-append P (x ∷ xs) ys hx hy = (hx.0, All-append P xs ys hx.1 hy)

  pub get_elem?-of_lt : (xs : List A) (i : ℕ) → i < length xs → (a : A) × (get_elem? xs i ≡ some a)
  get_elem?-of_lt [] i h = absurd (omega arith)
  get_elem?-of_lt (x ∷ xs) zero h = (x, refl)
  get_elem?-of_lt (x ∷ xs) (suc i) h = get_elem?-of_lt xs i (omega arith)

  pub select-append :
      (p : A → Bool) (xs ys : List A) → select p (xs ++ ys) ≡ select p xs ++ select p ys
  select-append p [] ys = refl
  select-append p (x ∷ xs) ys = by_test (p x) (select-append p xs ys)
    where
      by_test :
          (b : Bool)
          → select p (xs ++ ys) ≡ select p xs ++ select p ys
          → elim b [ true ↦ x ∷ select p (xs ++ ys) | false ↦ select p (xs ++ ys) ]
            ≡ elim b [ true ↦ x ∷ select p xs | false ↦ select p xs ] ++ select p ys
      by_test true h = ap (λ l. x ∷ l) h
      by_test false h = h

  -- What is selected out of what was left out, and again of what was selected.
  pub select-select :
      (p : A → Bool) (xs : List A)
      → (select p (select (λ x. not (p x)) xs) ≡ [])
        × (select (λ x. not (p x)) (select (λ x. not (p x)) xs) ≡ select (λ x. not (p x)) xs)
  select-select p [] = (refl, refl)
  select-select p (x ∷ xs) = by_test (p x) refl (select-select p xs)
    where
      by_test :
          (b : Bool)
          → p x ≡ b
          → (select p (select (λ x. not (p x)) xs) ≡ [])
            × (select (λ x. not (p x)) (select (λ x. not (p x)) xs) ≡ select (λ x. not (p x)) xs)
          → (select p (select (λ x. not (p x)) (x ∷ xs)) ≡ [])
            × (select (λ x. not (p x)) (select (λ x. not (p x)) (x ∷ xs))
                ≡ select (λ x. not (p x)) (x ∷ xs))
      by_test true e h = rw (e, select) h
      by_test false e h = rw (e, select) (rw (e, select) (h.0, ap (λ l. x ∷ l) h.1))

  pub select-true :
      (p : A → Bool) (x : A)
      → p x ≡ true
      → (select p (x ∷ []) ≡ x ∷ []) × (select (λ y. not (p y)) (x ∷ []) ≡ [])
  select-true p x h = (rw (h, select) refl, rw (h, select) refl)
