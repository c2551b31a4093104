-- ===== src/Batch/Rounds.antt =====
-- What a run of the executor leaves.
use tools_acloud.Base.{
  ℕ, ap, true, false, ◌&&◌, ◌||◌, Option, some, [], String, is_nil, ◌≡◌, refl, ◌⊎◌, arith,
  Bool-cases, inl, inr, Option-cases, sym, ◌∙◌,
}
use mathlib.Core.Path.{subst}
use tools_acloud.Base.Dict.{Dict, lookup, update, NodupKeys, lookup-update, lookup-update_absent}
use tools_acloud.Base.Ratio.{Ratio}
use tools_acloud.Errors.{
  Exc, exc, is_instance, has_retriable_requests_error, exception, is_subclass,
}
use tools_acloud.Errors.Hierarchy.{is_instance-is_subclass}
use tools_acloud.Exec.{Result, ok, err, Exec}
use tools_acloud.Batch.{
  Outcome, Executor, needs_retry, requeue, report_pending, after_send, execute_once, give_up,
  execute,
}
use tools_acloud.Batch.Requeue.{has, wanted, has-requeue}
use tools_acloud.Retry.Trace.{Failed, start, attempt, Last, returned, raised, retry-Ran}

own_error :
    is_instance (exc has_retriable_requests_error "Retriable errors") has_retriable_requests_error
    ≡ true
unfolding is_instance
own_error = refl

retriable_base : is_subclass has_retriable_requests_error exception ≡ true
unfolding is_subclass
retriable_base = refl

module _ {Req Resp W : Type 0}
    (execute_once_functor : Dict Req → Exec W (Dict (Outcome Resp))) where
  -- What a batch request promises: one outcome for each request that was sent and no other, and no
  -- exception of the executor's own class.
  pub record IsBatch : Type 0 where
    pub answers :
        (sent : Dict Req) (w w' : W) (results : Dict (Outcome Resp))
        → execute_once_functor sent w ≡ (ok results, w')
        → NodupKeys results × ((k : String) → has k results ≡ has k sent)
    pub own_class :
        (sent : Dict Req) (w w' : W) (e : Exc)
        → execute_once_functor sent w ≡ (err e, w')
        → is_instance e has_retriable_requests_error ≡ false

  -- The outcome on record for `k`, if there is one, is not to be retried.
  abbrev HasFinal : Executor Req Resp → String → Type 0
  HasFinal x k =
      (o : Outcome Resp) × (lookup k x.final_results ≡ some o) × (needs_retry x o ≡ false)

  -- Before an attempt: what is pending was asked for, and what is not pending has its outcome.
  record IsReady (x : Executor Req Resp) : Type 0 where
    asked : (k : String) → has k x.pending_requests ≡ true → has k x.requests ≡ true
    settled :
        (k : String) → has k x.requests ≡ true → (has k x.pending_requests ≡ true) ⊎ HasFinal x k

  -- Every request has an outcome on record, and those that are still pending are exactly those whose
  -- outcome is an exception to be retried.
  pub record IsSettled (x : Executor Req Resp) : Type 0 where
    pub asked : (k : String) → has k x.pending_requests ≡ true → has k x.requests ≡ true
    pub outcome :
        (k : String)
        → has k x.requests ≡ true
        → (o : Outcome Resp) × (lookup k x.final_results ≡ some o)
          × (has k x.pending_requests ≡ needs_retry x o)

  IsSettled-IsReady : (x : Executor Req Resp) → IsSettled x → IsReady x
  IsSettled-IsReady x h = record {
    asked = h.asked;
    settled = λ k r.
        let (o, found, same) = h.outcome k r in
        elim (Bool-cases (needs_retry x o)) [ inl y ↦ inl (same ∙ y) | inr n ↦ inr (o, found, n) ];
  }

  -- The executor after the results of an attempt are stored.
  abbrev stored : Executor Req Resp → Dict (Outcome Resp) → Executor Req Resp
  stored x results = record x {
    final_results = update x.final_results results;
    pending_requests = (requeue x results []).1;
  }

  module _ (batch : IsBatch) (x : Executor Req Resp) (w w' : W) (results : Dict (Outcome Resp))
      (ready : IsReady x)
      (sent : execute_once_functor x.pending_requests w ≡ (ok results, w')) where
    queued :
        ((requeue x results []).0 ≡ ok tt)
        × ((k : String)
            → has k (requeue x results []).1 ≡ (has {V = Req} k [] || wanted x k results))
    queued =
        let (u, ids) = batch.answers x.pending_requests w w' results sent in
        has-requeue x results [] u (λ k h. ready.asked k (sym (ids k) ∙ h))

    has-queued : (k : String) → has k (requeue x results []).1 ≡ wanted x k results
    unfolding lookup
    has-queued k = queued.1 k

    needs_retry-stored : (o : Outcome Resp) → needs_retry (stored x results) o ≡ needs_retry x o
    unfolding needs_retry
    needs_retry-stored o = refl

    stored-outcome :
        (k : String)
        → has k x.requests ≡ true
        → (o : Outcome Resp) × (lookup k (update x.final_results results) ≡ some o)
          × (has k (requeue x results []).1 ≡ needs_retry x o)
    stored-outcome k h =
        let (u, ids) = batch.answers x.pending_requests w w' results sent in
        elim (Option-cases (lookup k results)) [
          | inr (o, e) ↦
              (o, lookup-update k o x.final_results results u e, has-queued k ∙ rw (e, wanted) refl)
          | inl n ↦ elim (ready.settled k h) [
            | inl p ↦ absurd (ground (arith, ids k, n, p))
            | inr (o, found, no_more) ↦ (
              o,
              lookup-update_absent k x.final_results results n ∙ found,
              has-queued k ∙ rw (n, wanted) (sym no_more),
            )
          ]
        ]

    stored-IsSettled : IsSettled (stored x results)
    stored-IsSettled = record {
      asked = λ k h.
          let (u, ids) = batch.answers x.pending_requests w w' results sent in
          ready.asked k (ground (arith, has-queued k, ids k, h));
      outcome = λ k h.
          let (o, found, same) = stored-outcome k h in
          (o, found, same ∙ sym (needs_retry-stored o));
    }

  -- How an attempt ends: all is settled and nothing is pending; or something is, and the exception
  -- says so; or the batch itself raised another exception, and the executor is as it was.
  abbrev Attempted : Executor Req Resp → Result (Unit {0}) × (Executor Req Resp × W) → Type 0
  Attempted x (ok _, (y, w)) =
      IsSettled y × (y.requests ≡ x.requests) × (is_nil y.pending_requests ≡ true)
  Attempted x (err e, (y, w)) =
      (IsSettled y
        × (y.requests ≡ x.requests)
        × (is_instance e has_retriable_requests_error ≡ true))
      ⊎ ((y ≡ x) × (is_instance e has_retriable_requests_error ≡ false))

  report_pending-Attempted :
      (x y : Executor Req Resp) (w : W) (q : Result (Unit {0}) × Dict Req)
      → q.0 ≡ ok tt
      → y.pending_requests ≡ q.1
      → y.requests ≡ x.requests
      → IsSettled y
      → Attempted x (report_pending q, (y, w))
  unfolding report_pending
  report_pending-Attempted x y w (err e, p) h same kept settled = absurd (cc)
  report_pending-Attempted x y w (ok _, p) h same kept settled = elim (Bool-cases (is_nil p)) [
    | inl e ↦ rw e (settled, kept, ap is_nil same ∙ e)
    | inr n ↦ rw n (inl (settled, kept, own_error))
  ]

  module _ (batch : IsBatch) where
    after_send-Attempted :
        (x : Executor Req Resp) (w : W) (r : Result (Dict (Outcome Resp)) × W)
        → execute_once_functor x.pending_requests w ≡ r
        → IsReady x
        → Attempted x (after_send execute_once_functor x r)
    unfolding after_send
    after_send-Attempted x w (err e, w') h ready = inr (refl, batch.own_class _ w w' e h)
    after_send-Attempted x w (ok results, w') h ready =
        report_pending-Attempted x (stored x results) w' (requeue x results [])
          (queued batch x w w' results ready h).0 refl refl
          (stored-IsSettled batch x w w' results ready h)

    execute_once-Attempted :
        (x : Executor Req Resp) (w : W)
        → IsReady x
        → Attempted x (execute_once execute_once_functor (x, w))
    unfolding execute_once
    execute_once-Attempted x w =
        after_send-Attempted x w (execute_once_functor x.pending_requests w) refl

    module _ (nap : Ratio → W → W) (max_retry : ℕ) (sleep backoff_factor : Ratio) where
      abbrev Tries : ℕ → Executor Req Resp × W → Executor Req Resp × W → Type 0
      Tries =
          Failed (λ d (y, v). (y, nap d v)) (λ e. is_instance e has_retriable_requests_error)
            max_retry (execute_once execute_once_functor) sleep backoff_factor

      Tries-IsReady :
          {n : ℕ} {s u : Executor Req Resp × W}
          → Tries n s u
          → IsReady s.0
          → IsReady u.0 × (u.0.requests ≡ s.0.requests)
      Tries-IsReady start ready = (ready, refl)
      Tries-IsReady (attempt {u = u} {v = v} e f h can) ready =
          let (before, same) = Tries-IsReady f ready in
          let ended : Attempted u.0 (err e, v) =
            subst (Attempted u.0) h (execute_once-Attempted u.0 u.1 before) in
          elim ended [
            | inl (settled, kept, own) ↦ (IsSettled-IsReady v.0 settled, kept ∙ same)
            | inr (_, foreign) ↦ absurd (ground arith)
          ]

      -- How a call of Execute on `x` in the world `w` ends.
      abbrev pub Executed :
          Executor Req Resp → W → Result (Unit {0}) × (Executor Req Resp × W) → Type 0
      Executed x w (ok _, (y, _)) =
          IsSettled y
          × (y.requests ≡ x.requests)
          × ((is_nil y.pending_requests ≡ true)
              ⊎ ((u : Executor Req Resp × W) × Tries max_retry
                    (record x { pending_requests = x.requests }, w) u))
      Executed x w (err e, _) = is_instance e has_retriable_requests_error ≡ false

      exhausted :
          {n : ℕ} (x : Executor Req Resp) (w : W) (u : Executor Req Resp × W) (e : Exc)
          → Tries n (record x { pending_requests = x.requests }, w) u
          → is_instance e has_retriable_requests_error ≡ true
          → ((is_instance e exception && is_instance e has_retriable_requests_error) ≡ false)
            ⊎ (n ≡ max_retry)
          → (u : Executor Req Resp × W) × Tries max_retry
              (record x { pending_requests = x.requests }, w)
              u
      exhausted x w u e tries own (inl h) = absurd (
          ground (
            arith,
            is_instance-is_subclass e has_retriable_requests_error exception own retriable_base,
          ))
      exhausted x w u e tries own (inr h) = (u, rw h at tries)

      Last-Executed :
          {n : ℕ} {o : Result (Option (Unit {0})) × (Executor Req Resp × W)} (x : Executor Req Resp)
          (w : W) (u : Executor Req Resp × W)
          → Tries n (record x { pending_requests = x.requests }, w) u
          → Last
              (λ d (y, v). (y, nap d v))
              (λ e. is_instance e has_retriable_requests_error)
              max_retry
              (execute_once execute_once_functor)
              sleep
              backoff_factor
              n
              u
              o
          → IsReady u.0 × (u.0.requests ≡ x.requests)
          → Executed x w (give_up o.0, o.1)
      unfolding give_up
      Last-Executed x w u tries (returned {t = t} a h) (ready, same) =
          let ended : Attempted u.0 (ok a, t) =
            subst (Attempted u.0) h (execute_once-Attempted u.0 u.1 ready) in
          (ended.0, ended.1 ∙ same, inl ended.2)
      Last-Executed x w u tries (raised {t = t} e h why) (ready, same) =
          let ended : Attempted u.0 (err e, t) =
            subst (Attempted u.0) h (execute_once-Attempted u.0 u.1 ready) in
          elim ended [
            | inl (settled, kept, own) ↦
                rw own (settled, kept ∙ same, inr (exhausted x w u e tries own why))
            | inr (_, foreign) ↦ rw foreign foreign
          ]

  init-IsReady : (x : Executor Req Resp) → IsReady (record x { pending_requests = x.requests })
  init-IsReady x = record { asked = λ k h. h; settled = λ k h. inl h }

  -- Execute, on a batch functor that answers each request that it is sent and nothing else: if it
  -- returns, every request has an outcome on record, those still pending are exactly those whose
  -- outcome is an exception to be retried, and either none is or `max_retry` attempts had failed
  -- before the last; if it raises, the exception is none of its own class.
  pub execute-Executed :
      (batch : IsBatch) (nap : Ratio → W → W) (x : Executor Req Resp) (w : W)
      → Executed batch nap x.max_retry x.sleep x.backoff_factor x w
          (execute execute_once_functor nap (x, w))
  unfolding execute
  execute-Executed batch nap x w =
      let ran =
        retry-Ran (λ d (y, v). (y, nap d v)) (λ e. is_instance e has_retriable_requests_error)
          x.max_retry (execute_once execute_once_functor) x.sleep x.backoff_factor
          (record x { pending_requests = x.requests }, w) in
      Last-Executed batch nap x.max_retry x.sleep x.backoff_factor x w ran.world ran.before ran.last
        (Tries-IsReady batch nap x.max_retry x.sleep x.backoff_factor ran.before (init-IsReady x))
