-- ===== src/Compute/Waiting.antt =====
-- The account that _BatchExecuteAndWait gives of its requests.
use mathlib.Core.Path.{subst}
use mathlib.Core.List.{append-nil, append_assoc}
use tools_acloud.Base.{
  [], Option, List, ◌≡◌, String, All, ◌++◌, some, sym, ◌∷◌, true, none, ◌∙◌, ap, refl,
}
use tools_acloud.Compute.{
  batch_execute_and_wait, collect_errors, BatchReport, wait_all, wait_one, wait_if, driver_error,
  after_wait, nothing, note_error,
}
use tools_acloud.Exec.{Result, Exec, ok, err, and_then}
use tools_acloud.Base.Dict.{Dict, lookup, keys}
use tools_acloud.Errors.{Exc, is_instance}
use tools_acloud.Batch.{Outcome}

-- WaitOnOperation raises nothing but a DriverError.
abbrev pub Waits : {W : Type 0} → Result (Unit {0}) × W → Type 0
Waits (ok _, w) = Unit
Waits (err e, w) = is_instance e driver_error ≡ true

-- The resources whose results have an error, and its messages.
with_error {ℓ} : {A : Type ℓ} → (Exc → A) → Option Exc → List A → List A
with_error f none l = l
with_error f (some e) l = f e ∷ l

module _ {Op : Type 0} where
  unfoldable pub failed_of : Dict (Outcome Op) → List String
  unfolding with_error
  failed_of [] = []
  failed_of ((name, o) ∷ results) = with_error (λ e. name) o.error (failed_of results)

  unfoldable pub messages_of : Dict (Outcome Op) → List String
  unfolding with_error
  messages_of [] = []
  messages_of ((name, o) ∷ results) = with_error (λ e. e.message) o.error (messages_of results)

  collect_errors-of :
      (results : Dict (Outcome Op)) (r : BatchReport)
      → ((collect_errors results r).done ≡ r.done)
        × ((collect_errors results r).failed ≡ r.failed ++ failed_of results)
        × ((collect_errors results r).error_msgs ≡ r.error_msgs ++ messages_of results)
  unfolding collect_errors failed_of messages_of with_error
  collect_errors-of [] r = (refl, sym (append-nil r.failed), sym (append-nil r.error_msgs))
  collect_errors-of ((name, o) ∷ results) r = by_error (collect_errors-of results) o.error
    where
      by_error :
          ((r : BatchReport)
            → ((collect_errors results r).done ≡ r.done)
              × ((collect_errors results r).failed ≡ r.failed ++ failed_of results)
              × ((collect_errors results r).error_msgs ≡ r.error_msgs ++ messages_of results))
          → (x : Option Exc)
          → let r' = collect_errors results (note_error name x r) in
            (r'.done ≡ r.done)
            × (r'.failed ≡ r.failed ++ with_error (λ e. name) x (failed_of results))
            × (r'.error_msgs ≡ r.error_msgs ++ with_error (λ e. e.message) x (messages_of results))
      by_error rest none = rest r
      by_error rest (some e) =
          let (a, b, c) = rest (note_error name (some e) r) in
          (
            a,
            b ∙ append_assoc r.failed (name ∷ []) (failed_of results),
            c ∙ append_assoc r.error_msgs (e.message ∷ []) (messages_of results),
          )

module _ {Op W : Type 0} (wait_on_operation : Op → Exec W (Unit {0}))
    (results : Dict (Outcome Op)) where
  -- The operations of the results are waited for in the order of the names, each in the world that the one
  -- before it has left: what was waited for without an exception, what with one, and the messages.
  pub data Waited : List String → W → W → List String → List String → List String → Type 0 where
    all_waited : {w : W} → Waited [] w w [] [] []
    no_operation :
        {names ds fs ms : List String} {w v : W} (name : String) (o : Outcome Op)
        → lookup name results ≡ some o
        → o.response ≡ none
        → Waited names w v ds fs ms
        → Waited (name ∷ names) w v ds fs ms
    succeeded :
        {names ds fs ms : List String} {w v : W} (name : String) (o : Outcome Op) (operation : Op)
        (u : W)
        → lookup name results ≡ some o
        → o.response ≡ some operation
        → wait_on_operation operation w ≡ (ok tt, u)
        → Waited names u v ds fs ms
        → Waited (name ∷ names) w v (name ∷ ds) fs ms
    failed :
        {names ds fs ms : List String} {w v : W} (name : String) (o : Outcome Op) (operation : Op)
        (u : W) (e : Exc)
        → lookup name results ≡ some o
        → o.response ≡ some operation
        → wait_on_operation operation w ≡ (err e, u)
        → Waited names u v ds fs ms
        → Waited (name ∷ names) w v ds (name ∷ fs) (e.message ∷ ms)

  -- The loop ends with what was waited for on top of the report.
  abbrev pub Accounts : List String → BatchReport → W → Result BatchReport × W → Type 0
  Accounts names r w x =
      (r' : BatchReport) × (v : W) × (x ≡ (ok r', v))
      × ((ds : List String) × (fs : List String) × (ms : List String) × Waited names w v ds fs ms
          × (r'.done ≡ r.done ++ ds)
          × (r'.failed ≡ r.failed ++ fs)
          × (r'.error_msgs ≡ r.error_msgs ++ ms))

  wait_one-found :
      (name : String) (r : BatchReport) (w : W) (o : Outcome Op)
      → lookup name results ≡ some o
      → wait_one wait_on_operation results name r w ≡ wait_if wait_on_operation name o.response r w
  unfolding wait_one
  wait_one-found name r w o e = rw (e, wait_one) refl

  module _ (waits : (operation : Op) (w : W) → Waits (wait_on_operation operation w)) where
    wait_one-Accounts :
        (name : String) (names : List String) (r : BatchReport) (w : W) (o : Outcome Op)
        → lookup name results ≡ some o
        → ((r' : BatchReport) (v : W)
            → Accounts names r' v (wait_all wait_on_operation results names r' v))
        → Accounts (name ∷ names) r w (wait_all wait_on_operation results (name ∷ names) r w)
    unfolding wait_all wait_one wait_if after_wait
    wait_one-Accounts name names r w o known rest =
        subst
          (λ x. Accounts (name ∷ names) r w (and_then x (wait_all wait_on_operation results names)))
          (sym (wait_one-found name r w o known)) (by_response o.response refl)
      where
        by_wait :
            (operation : Op)
            → o.response ≡ some operation
            → (x : Result (Unit {0}) × W) → wait_on_operation operation w ≡ x
            → Waits x
            → Accounts (name ∷ names) r w (
                and_then
                  (after_wait wait_on_operation name r x)
                  (wait_all wait_on_operation results names))
        by_wait operation has (ok _, u) e h =
            let (r', v, same, (ds, fs, ms, t, a, b, c)) =
              rest (record r { done = r.done ++ name ∷ [] }) u in
            (
              r',
              v,
              same,
              (
                name ∷ ds,
                fs,
                ms,
                succeeded name o operation u known has e t,
                a ∙ append_assoc r.done (name ∷ []) ds,
                b,
                c,
              ),
            )
        by_wait operation has (err x, u) e h =
            let (r', v, same, (ds, fs, ms, t, a, b, c)) = rest (note_error name (some x) r) u in
            (
              r',
              v,
              rw h same,
              (
                ds,
                name ∷ fs,
                x.message ∷ ms,
                failed name o operation u x known has e t,
                a,
                b ∙ append_assoc r.failed (name ∷ []) fs,
                c ∙ append_assoc r.error_msgs (x.message ∷ []) ms,
              ),
            )

        by_response :
            (x : Option Op)
            → o.response ≡ x
            → Accounts (name ∷ names) r w (
                and_then
                  (wait_if wait_on_operation name x r w)
                  (wait_all wait_on_operation results names))
        by_response none e =
            let (r', v, same, (ds, fs, ms, t, a, b, c)) = rest r w in
            (r', v, same, (ds, fs, ms, no_operation name o known e t, a, b, c))
        by_response (some operation) e =
            by_wait operation e (wait_on_operation operation w) refl (waits operation w)

    wait_all-Accounts :
        (names : List String)
        → All (λ name. (o : Outcome Op) × (lookup name results ≡ some o)) names
        → (r : BatchReport) (w : W)
        → Accounts names r w (wait_all wait_on_operation results names r w)
    unfolding wait_all
    wait_all-Accounts [] h r w = (
      r,
      w,
      refl,
      (
        [],
        [],
        [],
        all_waited,
        sym (append-nil r.done),
        sym (append-nil r.failed),
        sym (append-nil r.error_msgs),
      ),
    )
    wait_all-Accounts (name ∷ names) ((o, known), h) r w =
        wait_one-Accounts name names r w o known (wait_all-Accounts names h)

-- _BatchExecuteAndWait, where BatchExecute has given a result for each request and WaitOnOperation
-- raises DriverErrors only: it waits for the operation of each request that has one, in order; `done` are
-- exactly those whose wait raised nothing; `failed` are the results with an error, and then exactly those
-- whose wait raised; and the messages are those of these errors and exceptions, in the same order.
pub batch_execute_and_wait-Accounts :
    {Op Req W : Type 0} (wait_on_operation : Op → Exec W (Unit {0}))
    (batch_execute : Dict Req → Exec W (Dict (Outcome Op))) (requests : Dict Req) (w v : W)
    (results : Dict (Outcome Op))
    → ((operation : Op) (w : W) → Waits (wait_on_operation operation w))
    → batch_execute requests w ≡ (ok results, v)
    → All (λ name. (o : Outcome Op) × (lookup name results ≡ some o)) (keys requests)
    → (r : BatchReport) × (u : W) × (batch_execute_and_wait wait_on_operation batch_execute requests
          w
        ≡ (ok r, u))
      × ((ds : List String) × (fs : List String) × (ms : List String) × Waited wait_on_operation
            results
            (keys requests)
            v
            u
            ds
            fs
            ms
          × (r.done ≡ ds)
          × (r.failed ≡ failed_of results ++ fs)
          × (r.error_msgs ≡ messages_of results ++ ms))
unfolding batch_execute_and_wait
batch_execute_and_wait-Accounts wait_on_operation batch_execute requests w v results waits e known =
    let (p, q, s) = collect_errors-of results nothing in
    let (r, u, e', (ds, fs, ms, t, a, b, c)) =
      wait_all-Accounts wait_on_operation results waits (keys requests) known
        (collect_errors results nothing) v in
    (
      r,
      u,
      rw e e',
      (ds, fs, ms, t, a ∙ ap (λ l. l ++ ds) p, b ∙ ap (λ l. l ++ fs) q, c ∙ ap (λ l. l ++ ms) s),
    )
