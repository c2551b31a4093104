-- ===== src/Compute/Sizes.antt =====
-- What CompareMachineSize says of two machine types.
use tools_acloud.Compute.{
  compare_metrics, compare_metric, Size, smaller, same, larger, machine_size_metrics,
  compare_machine_size,
}
use tools_acloud.Base.{
  [], true, false, Bool, String, if◌then◌else◌, ℕ, List, ◌≡◌, All, ◌∷◌, none, refl, ◌<◌,
  Option-cases, some, ltb, ◌⊎◌, ◌≤◌, inr, inl, Bool-cases, arith, ltb→lt,
}
use tools_acloud.Base.Dict.{Dict, lookup}
use tools_acloud.Exec.{Exec, ok, Result, err}
use tools_acloud.Errors.{driver_error, Exc, exc}

-- The first machine is at least as large by every metric.
abbrev pub AtLeast : Dict ℕ → Dict ℕ → List String → Type 0
AtLeast m n = All (λ k. (a : ℕ) × (b : ℕ) × (lookup k m ≡ some a) × (lookup k n ≡ some b) × (b ≤ a))

abbrev pub AnyMetric : Dict ℕ → Dict ℕ → (ℕ → ℕ → Type 0) → List String → Type 0
AnyMetric m n R [] = ⊥
AnyMetric m n R (k ∷ l) =
    ((a : ℕ) × (b : ℕ) × (lookup k m ≡ some a) × (lookup k n ≡ some b) × R a b) ⊎ AnyMetric m n R l

-- The meaning of an answer.
abbrev pub Says : Dict ℕ → Dict ℕ → List String → Result Size → Type 0
Says m n l (ok smaller) = AnyMetric m n (λ a b. a < b) l
Says m n l (ok same) = All (λ k. (a : ℕ) × (lookup k m ≡ some a) × (lookup k n ≡ some a)) l
Says m n l (ok larger) = AtLeast m n l × AnyMetric m n (λ a b. b < a) l
Says m n l (err e) = e.cls ≡ driver_error

if_same : {A : Type 0} (c : Bool) {x : A} → (if c then x else x) ≡ x
if_same true = refl
if_same false = refl

-- The same once an earlier metric was larger, and none smaller.
abbrev SaysAfter : Dict ℕ → Dict ℕ → List String → Result Size → Type 0
SaysAfter m n l (ok smaller) = AnyMetric m n (λ a b. a < b) l
SaysAfter m n l (ok same) = ⊥
SaysAfter m n l (ok larger) = AtLeast m n l
SaysAfter m n l (err e) = e.cls ≡ driver_error

module _ (m n : Dict ℕ) (k : String) (l : List String) (a b : ℕ) (ea : lookup k m ≡ some a)
    (eb : lookup k n ≡ some b) where
  step :
      (r : Size)
      → compare_metrics m n (k ∷ l) r
        ≡ (if ltb a b then ok smaller else compare_metrics m n l (if ltb b a then larger else r))
  unfolding compare_metrics compare_metric
  step r = rw ea (rw eb refl)

  SaysAfter-step : b ≤ a → (r : Result Size) → SaysAfter m n l r → SaysAfter m n (k ∷ l) r
  SaysAfter-step le (ok smaller) h = inr h
  SaysAfter-step le (ok same) h = h
  SaysAfter-step le (ok larger) h = ((a, b, ea, eb, le), h)
  SaysAfter-step le (err e) h = h

  Says-step_larger : b < a → (r : Result Size) → SaysAfter m n l r → Says m n (k ∷ l) r
  Says-step_larger lt (ok smaller) h = inr h
  Says-step_larger lt (ok same) h = absurd h
  Says-step_larger lt (ok larger) h = (((a, b, ea, eb, omega arith), h), inl (a, b, ea, eb, lt))
  Says-step_larger lt (err e) h = h

  Says-step_same : a ≡ b → (r : Result Size) → Says m n l r → Says m n (k ∷ l) r
  Says-step_same e (ok smaller) h = inr h
  Says-step_same e (ok same) h = ((a, ea, rw e eb), h)
  Says-step_same e (ok larger) h = (((a, b, ea, eb, omega arith), h.0), inr h.1)
  Says-step_same e (err x) h = h

missing :
    (m n : Dict ℕ) (k : String) (l : List String) (r : Size)
    → (lookup k m ≡ none) ⊎ (lookup k n ≡ none)
    → (e : Exc) × (compare_metrics m n (k ∷ l) r ≡ err e) × (e.cls ≡ driver_error)
unfolding compare_metrics compare_metric
missing m n k l r (inl h) = (exc driver_error "Malformed machine size record", rw h refl, refl)
missing m n k l r (inr h) = elim (Option-cases (lookup k m)) [
  | inl h' ↦ (exc driver_error "Malformed machine size record", rw h' refl, refl)
  | inr (a, e) ↦ (exc driver_error "Malformed machine size record", rw e (rw h refl), refl)
]

compare_metrics-SaysAfter :
    (m n : Dict ℕ) (l : List String) → SaysAfter m n l (compare_metrics m n l larger)
compare_metrics-SaysAfter m n [] = unfold compare_metrics in tt
compare_metrics-SaysAfter m n (k ∷ l) = elim (Option-cases (lookup k m)) [
  | inl h ↦ let (e, p, q) = missing m n k l larger (inl h) in rw p q
  | inr (a, ea) ↦ elim (Option-cases (lookup k n)) [
    | inl h ↦ let (e, p, q) = missing m n k l larger (inr h) in rw p q
    | inr (b, eb) ↦ rw (step m n k l a b ea eb larger) (elim (Bool-cases (ltb a b)) [
      | inl lt ↦ rw lt (inl (a, b, ea, eb, ltb→lt a b lt))
      | inr ge ↦ rw ge (
          rw (if_same (ltb b a))
            (SaysAfter-step m n k l a b ea eb (ground arith) _ (compare_metrics-SaysAfter m n l)))
    ])
  ]
]

compare_metrics-Says : (m n : Dict ℕ) (l : List String) → Says m n l (compare_metrics m n l same)
compare_metrics-Says m n [] = unfold compare_metrics in tt
compare_metrics-Says m n (k ∷ l) = elim (Option-cases (lookup k m)) [
  | inl h ↦ let (e, p, q) = missing m n k l same (inl h) in rw p q
  | inr (a, ea) ↦ elim (Option-cases (lookup k n)) [
    | inl h ↦ let (e, p, q) = missing m n k l same (inr h) in rw p q
    | inr (b, eb) ↦ rw (step m n k l a b ea eb same) (elim (Bool-cases (ltb a b)) [
      | inl lt ↦ rw lt (inl (a, b, ea, eb, ltb→lt a b lt))
      | inr ge ↦ rw ge (elim (Bool-cases (ltb b a)) [
        | inl gt ↦
            rw gt (
              Says-step_larger m n k l a b ea eb (ltb→lt b a gt) _
                (compare_metrics-SaysAfter m n l))
        | inr le ↦
            rw le (Says-step_same m n k l a b ea eb (ground arith) _ (compare_metrics-Says m n l))
      ])
    ])
  ]
]

-- CompareMachineSize, when both machine types can be read: -1 says that some metric of the first is
-- smaller, 0 that all are equal, 1 that none is smaller and some is larger; a DriverError is the only
-- exception.
pub compare_machine_size-Says :
    {W : Type 0} (get_machine_type : String → Exec W (Dict ℕ)) (type_1 type_2 : String) (w v u : W)
    (m n : Dict ℕ)
    → get_machine_type type_1 w ≡ (ok m, v)
    → get_machine_type type_2 v ≡ (ok n, u)
    → ((compare_machine_size get_machine_type type_1 type_2 w).1 ≡ u)
      × Says m n machine_size_metrics (compare_machine_size get_machine_type type_1 type_2 w).0
unfolding compare_machine_size
compare_machine_size-Says get_machine_type type_1 type_2 w v u m n h k =
    rw h (rw k (refl, compare_metrics-Says m n machine_size_metrics))
