-- ===== src/Batch/Requeue.antt =====
-- The loop that collects the requests to send again.
use tools_acloud.Base.{
  Bool, true, false, ◌&&◌, ◌||◌, none, some, [], ◌∷◌, String, ◌≡◌, refl, is_some, arith, str_eq,
  Bool-cases, inl, inr, Option-cases,
}
use text.Mathlib.TextEquality.{eq_iff}
use tools_acloud.Base.Dict.{Dict, lookup, insert, NodupKeys, lookup-insert, lookup-cons, lookup-nil}
use tools_acloud.Exec.{ok}
use tools_acloud.Batch.{Outcome, Executor, needs_retry, requeue_one, requeue}

-- `k in d`
abbrev pub has : {V : Type 0} → String → Dict V → Bool
has k d = is_some (lookup k d)

module _ {Req Resp : Type 0} (x : Executor Req Resp) where
  -- Is there an outcome for `k` that asks for a retry?
  abbrev pub wanted : String → Dict (Outcome Resp) → Bool
  wanted k results = elim (lookup k results) [ none ↦ false | some o ↦ needs_retry x o ]

  -- Every id with an outcome is the id of a request.
  abbrev pub IsKnown : Dict (Outcome Resp) → Type 0
  IsKnown results = (k : String) → has k results ≡ true → has k x.requests ≡ true

  requeue_one-eq :
      (i : String) (o : Outcome Resp) (pending : Dict Req)
      → has i x.requests ≡ true
      → (pending' : Dict Req) × (requeue_one x i o pending ≡ ok pending')
        × ((k : String) → has k pending' ≡ (has k pending || (str_eq i k && needs_retry x o)))
  unfolding requeue_one
  requeue_one-eq i o pending h = elim (Option-cases (lookup i x.requests)) [
    | inl n ↦ absurd (ground (arith, n))
    | inr (r, e) ↦ elim (Bool-cases (needs_retry x o)) [
      | inl y ↦ (
        insert i r pending,
        rw y (rw e refl),
        λ k. rw y (ground (arith, lookup-insert k i r pending)),
      )
      | inr n ↦ (pending, rw n refl, λ k. rw n (ground arith))
    ]
  ]

  wanted-cons :
      (k i : String) (o : Outcome Resp) (results : Dict (Outcome Resp))
      → NodupKeys ((i, o) ∷ results)
      → wanted k ((i, o) ∷ results) ≡ ((str_eq i k && needs_retry x o) || wanted k results)
  unfolding lookup
  wanted-cons k i o results u = ground (arith, eq_iff i k)

  IsKnown-tail :
      (i : String) (o : Outcome Resp) (results : Dict (Outcome Resp))
      → IsKnown ((i, o) ∷ results)
      → IsKnown results
  IsKnown-tail i o results known k h = known k (ground (arith, lookup-cons k i o results))

  pub has-requeue :
      (results : Dict (Outcome Resp)) (pending : Dict Req)
      → NodupKeys results
      → IsKnown results
      → ((requeue x results pending).0 ≡ ok tt)
        × ((k : String) → has k (requeue x results pending).1 ≡ (has k pending || wanted k results))
  unfolding requeue
  has-requeue [] pending u known = (refl, λ k. ground (arith, lookup-nil {V = Outcome Resp} k))
  has-requeue ((i, o) ∷ results) pending u known =
      let (p, e, grown) =
        requeue_one-eq i o pending
          (known i (ground (arith, lookup-cons i i o results, eq_iff i i))) in
      let (done, rest) = has-requeue results p u.1 (IsKnown-tail i o results known) in
      rw (e, requeue) (done, λ k. ground (arith, rest k, grown k, wanted-cons k i o results u))
