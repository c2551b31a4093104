-- ===== src/Report/Severity.antt =====
-- SetStatus keeps the most severe status that was ever set.
use tools_acloud.Base.{
  ℕ, some, List, [], ◌∷◌, String, ltb, ◌≡◌, refl, arith, All, ap, Bool-cases, ◌∙◌, inl, inr,
  if◌then◌else◌,
}
use tools_acloud.Base.Dict.{lookup}
use tools_acloud.Exec.{Result, ok, err}
use tools_acloud.Report.Status.{is_more_severe, severity_order}
use tools_acloud.Report.{Report, init, set_status, set_status_if}
use Prim.Native.Nat.{max}

-- The severity of a known status.
abbrev pub HasSeverity : String → ℕ → Type 0
HasSeverity status n = lookup status severity_order ≡ some n

is_more_severe-eq :
    (c r : String) (n m : ℕ) → HasSeverity c n → HasSeverity r m → is_more_severe c r ≡ ok (ltb m n)
unfolding is_more_severe
is_more_severe-eq c r n m h k = rw h (rw k refl)

set_status-eq :
    (status : String) (r : Report) (n m : ℕ)
    → HasSeverity status n
    → HasSeverity r.status m
    → set_status status r ≡ (if ltb m n then ok (record r { status = status }) else ok r)
unfolding set_status_if set_status
set_status-eq status r n m h k = elim (Bool-cases (ltb m n)) [
  | inl more ↦ rw (is_more_severe-eq status r.status n m h k) (rw more refl)
  | inr less ↦ rw (is_more_severe-eq status r.status n m h k) (rw less refl)
]

-- The severity that a report keeps, of its own and that of the status to set.
pub set_status-max :
    (status : String) (r : Report) (n m : ℕ)
    → HasSeverity status n
    → HasSeverity r.status m
    → (r' : Report) × (set_status status r ≡ ok r')
      × HasSeverity r'.status (max m n)
      × (r' ≡ record r { status = r'.status })
set_status-max status r n m h k = elim (Bool-cases (ltb m n)) [
  | inl more ↦ (
    record r { status = status },
    set_status-eq status r n m h k ∙ rw more refl,
    h ∙ ap some (ground arith),
    refl,
  )
  | inr less ↦ (r, set_status-eq status r n m h k ∙ rw less refl, k ∙ ap some (ground arith), refl)
]

-- SetStatus for each status of a list, in order.
abbrev pub set_statuses : List String → Report → Result Report
set_statuses [] r = ok r
set_statuses (s ∷ l) r = elim (set_status s r) [ ok r' ↦ set_statuses l r' | err e ↦ err e ]

abbrev pub max_severity : ℕ → List (String × ℕ) → ℕ
max_severity m [] = m
max_severity m ((_, n) ∷ l) = max_severity (max m n) l

abbrev pub names : List (String × ℕ) → List String
names [] = []
names ((s, _) ∷ l) = s ∷ names l

set_statuses-max_severity :
    (l : List (String × ℕ)) (r : Report) (m : ℕ)
    → All (λ x. HasSeverity x.0 x.1) l
    → HasSeverity r.status m
    → (r' : Report) × (set_statuses (names l) r ≡ ok r')
      × HasSeverity r'.status (max_severity m l)
      × (r' ≡ record r { status = r'.status })
set_statuses-max_severity [] r m h k = (r, refl, k, refl)
set_statuses-max_severity ((s, n) ∷ l) r m h k =
    let (r', e, k', same) = set_status-max s r n m h.0 k in
    let (r'', e', k'', same') = set_statuses-max_severity l r' (max m n) h.1 k' in
    (
      r'',
      rw (e, set_statuses) e',
      k'',
      same' ∙ ap (λ (x : Report). record x { status = r''.status }) same,
    )

-- A fresh report on which known statuses are set one after the other ends with the most severe of
-- them, whatever their order; nothing but the status changes, and no SetStatus raises.
pub severity-init :
    (command : String) (l : List (String × ℕ))
    → All (λ x. HasSeverity x.0 x.1) l
    → (r : Report) × (set_statuses (names l) (init command) ≡ ok r)
      × HasSeverity r.status (max_severity 0 l)
      × (r ≡ record (init command) { status = r.status })
unfolding lookup
severity-init command l h = set_statuses-max_severity l (init command) 0 h refl
