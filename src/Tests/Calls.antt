-- ===== src/Tests/Calls.antt =====
-- The theorems on retries, batches and the cloud client, at concrete inputs.
use tools_acloud.Base.{
  [], none, some, ℕ, suc, String, ◌∷◌, ◌+◌, ◌≡◌, leb, if◌then◌else◌, arith, refl, Bool-cases,
  str_eq, inl, inr,
}
use tools_acloud.Batch.Requeue.{has}
use tools_acloud.Batch.{execute, Executor, Outcome}
use tools_acloud.Errors.{Exc, exc, driver_error, gce_operation_timeout_error, os_error}
use tools_acloud.Batch.Rounds.{IsBatch, Executed, execute-Executed}
use tools_acloud.Retry.Trace.{run, Ran, retry-Ran}
use tools_acloud.Exec.{Exec, Result, ok, err}
use tools_acloud.Base.Ratio.{Ratio, of_ℕ}
use tools_acloud.Retry.Poll.{IsClock, poll_and_wait, Ended, poll_and_wait-Ended}
use tools_acloud.Base.Dict.{Dict, NodupKeys, insert, insert-NodupKeys, lookup, lookup-insert}
use tools_acloud.Retry.{is_any_instance}
use mathlib.Core.Path.{subst}

-- The world is the number of sleeps so far.
abbrev nap : Ratio → ℕ → ℕ
nap d n = suc n

abbrev flaky : Exec ℕ String
flaky n = if leb 2 n then (ok "up", n) else (err (exc driver_error "down"), n)

retry-Ran_example :
    Ran nap
      (is_any_instance (driver_error ∷ []))
      3
      flaky
      (of_ℕ 2)
      (of_ℕ 1)
      0
      (run nap (is_any_instance (driver_error ∷ [])) 3 flaky (of_ℕ 2) (of_ℕ 1) 0)
retry-Ran_example = retry-Ran nap (is_any_instance (driver_error ∷ [])) 3 flaky (of_ℕ 2) (of_ℕ 1) 0

abbrev timeout : Exc
timeout = exc gce_operation_timeout_error "late"

clock_laws :
    IsClock {S = ℕ} {R = ℕ} (λ s. s) (λ n s. s + n) (λ s. (ok s, s)) (λ v. leb 4 v) timeout 10 2
clock_laws = record { func_time = λ s. omega arith; sleep_time = λ n s. omega arith }

poll_and_wait-Ended_example :
    (r : Result (Unit {0}) × ℕ) × (poll_and_wait {S = ℕ} {R = ℕ}
        (λ s. s)
        (λ n s. s + n)
        (λ s. (ok s, s))
        (λ v. leb 4 v)
        timeout
        10
        2
        12
        0
      ≡ some r)
    × Ended {S = ℕ} {R = ℕ} (λ s. s) (λ n s. s + n) (λ s. (ok s, s)) (λ v. leb 4 v) timeout 10 2 0 r
poll_and_wait-Ended_example =
    poll_and_wait-Ended {S = ℕ} {R = ℕ} (λ s. s) (λ n s. s + n) (λ s. (ok s, s)) (λ v. leb 4 v)
      timeout 10 2 clock_laws (omega arith) 12 0 (omega arith)

-- A batch that gives each request its own content back.
echo : Dict ℕ → Dict (Outcome ℕ)
echo [] = []
echo ((k, n) ∷ sent) = insert k (record { response = some n; error = none }) (echo sent)

echo-has : (sent : Dict ℕ) → NodupKeys (echo sent) × ((k : String) → has k (echo sent) ≡ has k sent)
unfolding echo lookup
echo-has [] = (tt, λ k. refl)
echo-has ((j, n) ∷ sent) = (
  insert-NodupKeys j _ (echo sent) (echo-has sent).0,
  λ k. elim (Bool-cases (str_eq j k)) [
    | inl y ↦ rw (lookup-insert k j) (rw y refl)
    | inr n ↦ rw (lookup-insert k j) (rw n ((echo-has sent).1 k))
  ],
)

same_results :
    {d e : Dict (Outcome ℕ)} {v w : ℕ}
    → ◌≡◌ {A = Result (Dict (Outcome ℕ)) × ℕ} (ok d, v) (ok e, w)
    → d ≡ e
same_results h = cc

echo-IsBatch : IsBatch {Req = ℕ} {Resp = ℕ} {W = ℕ} (λ sent w. (ok (echo sent), w))
echo-IsBatch = record {
  answers = λ sent w w' results e.
      subst (λ d. NodupKeys d × ((k : String) → has k d ≡ has k sent)) (same_results e)
        (echo-has sent);
  own_class = λ sent w w' e x. absurd (cc);
}

abbrev two_requests : Executor ℕ ℕ
two_requests = record {
  requests = ("a", 1) ∷ ("b", 2) ∷ [];
  pending_requests = [];
  final_results = [];
  retry_http_codes = 503 ∷ [];
  max_retry = 2;
  sleep = of_ℕ 1;
  backoff_factor = of_ℕ 2;
  other_retriable_errors = os_error ∷ [];
}

execute-Executed_example :
    Executed
      (λ sent w. (ok (echo sent), w))
      echo-IsBatch
      nap
      2
      (of_ℕ 1)
      (of_ℕ 2)
      two_requests
      0
      (execute (λ sent w. (ok (echo sent), w)) nap (two_requests, 0))
execute-Executed_example =
    execute-Executed (λ sent w. (ok (echo sent), w)) echo-IsBatch nap two_requests 0
