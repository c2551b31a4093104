-- ===== src/Batch.antt =====
-- internal/lib/utils.py: BatchHttpRequestExecutor. The functor that sends a batch is a parameter: an
-- action of the world that gives an outcome for each request id.
pub mod Requeue
pub mod Rounds
use tools_acloud.Base.{
  ℕ, Bool, true, false, ◌&&◌, ◌||◌, Option, none, some, List, [], ◌∷◌, String, any, is_nil, ◌==◌,
  if◌then◌else◌,
}
use tools_acloud.Base.Dict.{Dict, lookup, insert, update}
use tools_acloud.Base.Ratio.{Ratio}
use tools_acloud.Errors.{
  ExcClass, Exc, exc, is_instance, http_error, key_error, has_retriable_requests_error,
}
use tools_acloud.Exec.{Result, ok, err, Exec}
use tools_acloud.Retry.{is_any_instance, retry}

-- A tuple (response, exception).
pub record Outcome (Resp : Type 0) : Type 0 where
  pub response : Option Resp
  pub error : Option Exc

-- The object, with the attributes that `__init__` sets.
pub record Executor (Req Resp : Type 0) : Type 0 where
  pub requests : Dict Req
  pub pending_requests : Dict Req
  pub final_results : Dict (Outcome Resp)
  pub retry_http_codes : List ℕ
  pub max_retry : ℕ
  pub sleep : Ratio
  pub backoff_factor : Ratio
  pub other_retriable_errors : List ExcClass

-- After the loop: an error if there are still requests to send again. Its text, which only a log
-- line shows, is shortened.
unfoldable pub report_pending : {Req : Type 0} → Result (Unit {0}) × Dict Req → Result (Unit {0})
report_pending (ok _, pending) =
    if is_nil pending then ok tt else err (exc has_retriable_requests_error "Retriable errors")
report_pending (err e, pending) = err e

-- `except errors.HasRetriableRequestsError`
unfoldable pub give_up : Result (Option (Unit {0})) → Result (Unit {0})
give_up (ok _) = ok tt
give_up (err e) = if is_instance e has_retriable_requests_error then ok tt else err e

module _ {Req Resp : Type 0} where
  unfoldable pub init : Dict Req → List ℕ → ℕ → Ratio → Ratio → List ExcClass → Executor Req Resp
  init requests retry_http_codes max_retry sleep backoff_factor other_retriable_errors = record {
    requests = requests;
    pending_requests = [];
    final_results = [];
    retry_http_codes = retry_http_codes;
    max_retry = max_retry;
    sleep = sleep;
    backoff_factor = backoff_factor;
    other_retriable_errors = other_retriable_errors;
  }

  unfoldable pub should_retry : Executor Req Resp → Exc → Bool
  unfolding is_any_instance
  should_retry x exception =
      if is_any_instance x.other_retriable_errors exception
      then true
      else is_instance exception http_error && any (λ c. exception.code == c) x.retry_http_codes

  -- `exception is not None and self._ShoudRetry(exception)`
  unfoldable pub needs_retry : Executor Req Resp → Outcome Resp → Bool
  unfolding should_retry
  needs_retry x o = elim (o.error) [ none ↦ false | some e ↦ should_retry x e ]

  -- The body of the loop over the results; `requests[request_id]` may raise a KeyError.
  unfoldable pub requeue_one :
      Executor Req Resp → String → Outcome Resp → Dict Req → Result (Dict Req)
  requeue_one x request_id o pending =
      if needs_retry x o
      then elim (lookup request_id x.requests) [
        | none ↦ err (exc key_error request_id)
        | some r ↦ ok (insert request_id r pending)
      ]
      else ok pending

  unfoldable pub requeue :
      Executor Req Resp → Dict (Outcome Resp) → Dict Req → Result (Unit {0}) × Dict Req
  unfolding requeue_one needs_retry
  requeue x [] pending = (ok tt, pending)
  requeue x ((request_id, o) ∷ results) pending = elim (requeue_one x request_id o pending) [
    | ok pending' ↦ requeue x results pending'
    | err e ↦ (err e, pending)
  ]

  module _ {W : Type 0} (execute_once_functor : Dict Req → Exec W (Dict (Outcome Resp))) where
    unfoldable pub after_send :
        Executor Req Resp
        → Result (Dict (Outcome Resp)) × W
        → Result (Unit {0}) × (Executor Req Resp × W)
    unfolding requeue report_pending
    after_send x (err e, w) = (err e, (x, w))
    after_send x (ok results, w) =
        let queued = requeue x results [] in
        (
          report_pending queued,
          (
            record x {
              final_results = update x.final_results results;
              pending_requests = queued.1;
            },
            w,
          ),
        )

    unfoldable pub execute_once : Exec (Executor Req Resp × W) (Unit {0})
    unfolding after_send
    execute_once (x, w) = after_send x (execute_once_functor x.pending_requests w)

    unfoldable pub execute : (Ratio → W → W) → Exec (Executor Req Resp × W) (Unit {0})
    unfolding retry execute_once give_up
    execute nap (x, w) =
        let (r, s) =
          retry (λ d (y, v). (y, nap d v)) (λ e. is_instance e has_retriable_requests_error)
            x.max_retry execute_once x.sleep x.backoff_factor
            (record x { pending_requests = x.requests }, w) in
        (give_up r, s)
