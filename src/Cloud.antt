-- ===== src/Cloud.antt =====
-- internal/lib/base_cloud_client.py: BaseCloudApiClient. The Google API library is a parameter: a
-- call of it is an action of the world, which may raise; so is the sending of a batch.
pub mod Translate
pub mod Pages
use tools_acloud.Base.{
  ℕ, zero, suc, Bool, true, false, Option, none, some, List, [], ◌∷◌, ◌++◌, String, any, ◌==◌,
  if◌then◌else◌,
}
use tools_acloud.Base.Dict.{Dict, insert}
use tools_acloud.Base.Ratio.{Ratio, of_ℕ}
use tools_acloud.Base.Text.{is_empty}
use tools_acloud.Batch
use tools_acloud.Batch.{Outcome, Executor}
use tools_acloud.Errors.{
  ExcClass, Exc, is_instance, http_error, resource_not_found_error, api_http_error, http_exception,
  http_lib2_error, os_error, ssl_error, access_token_refresh_error,
}
use tools_acloud.Exec.{Result, ok, err, Exec, ◌>>=◌}
use tools_acloud.Retry.{retry, retry_exception_type, is_any_instance}

-- errors.HTTP_NOT_FOUND_CODE
abbrev pub http_not_found_code : ℕ
http_not_found_code = 404

abbrev pub retry_count : ℕ
retry_count = 5

-- 1.5
abbrev pub retry_backoff_factor : Ratio
retry_backoff_factor = record { num = 3; den = 2 }

abbrev pub retry_sleep_multiplier : Ratio
retry_sleep_multiplier = of_ℕ 2

abbrev pub default_retry_http_codes : List ℕ
default_retry_http_codes = 403 ∷ 500 ∷ 502 ∷ 503 ∷ []

-- socket.error is OSError.
abbrev pub retriable_errors : List ExcClass
retriable_errors = http_exception ∷ http_lib2_error ∷ os_error ∷ ssl_error ∷ []

abbrev pub retriable_auth_errors : List ExcClass
retriable_auth_errors = access_token_refresh_error ∷ []

-- errors.HttpError.CreateFromHttpError
unfoldable pub create_from_http_error : Exc → Exc
create_from_http_error e = record { cls = http_error; code = e.code; message = e.message }

unfoldable pub translate_error : Exc → Exc
unfolding create_from_http_error
translate_error e =
    if is_instance e api_http_error
    then (let translated = create_from_http_error e in
        if translated.code == http_not_found_code
        then record {
          cls = resource_not_found_error;
          code = translated.code;
          message = translated.message;
        }
        else translated)
    else e

unfoldable pub should_retry : Exc → List ℕ → List ExcClass → Bool
unfolding is_any_instance
should_retry exception retry_http_codes other_retriable_errors =
    if is_any_instance other_retriable_errors exception
    then true
    else if is_instance exception http_error
    then any (λ c. exception.code == c) retry_http_codes
    else false

-- `d` where an optional argument is None.
abbrev pub or_default {ℓ} : {A : Type ℓ} → Option A → A → A
or_default none d = d
or_default (some a) d = a

-- `x or d`, for a number, a list and a float argument: None, 0 and the empty list count as absent.
abbrev pub or_default_count : Option ℕ → ℕ → ℕ
or_default_count none d = d
or_default_count (some zero) d = d
or_default_count (some (suc n)) d = suc n

abbrev pub or_default_list {ℓ} : {A : Type ℓ} → Option (List A) → List A → List A
or_default_list none d = d
or_default_list (some []) d = d
or_default_list (some (x ∷ l)) d = x ∷ l

abbrev pub or_default_ratio : Option Ratio → Ratio → Ratio
or_default_ratio none d = d
or_default_ratio (some a) d = if a.num == 0 then d else a

module _ {W Resp : Type 0} where
  -- `except gerrors.HttpError as e: raise self._TranslateError(e)`
  translated : Result Resp × W → Result Resp × W
  translated (ok a, w) = (ok a, w)
  translated (err e, w) = (err (if is_instance e api_http_error then translate_error e else e), w)

  unfoldable pub execute_once : Exec W Resp → Exec W Resp
  unfolding translated
  execute_once api w = translated (api w)

  unfoldable pub execute :
      (Ratio → W → W)
      → Exec W Resp
      → Option (List ℕ)
      → Option ℕ
      → Option Ratio
      → Option Ratio
      → Option (List ExcClass)
      → Exec W (Option Resp)
  unfolding execute_once
  execute nap api retry_http_codes max_retry sleep backoff_factor other_retriable_errors =
      retry nap
        (λ e.
          should_retry e (or_default retry_http_codes default_retry_http_codes)
            (or_default other_retriable_errors retriable_errors))
        (or_default max_retry retry_count) (execute_once api)
        (or_default sleep retry_sleep_multiplier) (or_default backoff_factor retry_backoff_factor)

  -- Execute with the class's own settings.
  unfoldable pub execute_default : (Ratio → W → W) → Exec W Resp → Exec W (Option Resp)
  unfolding execute
  execute_default nap api = execute nap api none none none none none

  -- InitResourceHandle: `build` is apiclient's.
  unfoldable pub init_resource_handle : (Ratio → W → W) → Exec W Resp → Exec W (Option Resp)
  init_resource_handle nap build =
      retry_exception_type nap retriable_auth_errors retry_count build retry_sleep_multiplier
        retry_backoff_factor

module _ {Req Resp W : Type 0} (send : Dict Req → Exec W (List (String × Outcome Resp))) where
  abbrev translate_outcome : Outcome Resp → Outcome Resp
  translate_outcome o = record o {
    error = elim (o.error) [ none ↦ none | some e ↦ some (translate_error e) ];
  }

  -- `_CallBack`, once for each response that the batch hands over.
  unfoldable pub call_back :
      Dict (Outcome Resp) → List (String × Outcome Resp) → Dict (Outcome Resp)
  call_back results [] = results
  call_back results ((request_id, o) ∷ responses) =
      call_back (insert request_id (translate_outcome o) results) responses

  unfoldable pub batch_execute_once : Dict Req → Exec W (Dict (Outcome Resp))
  unfolding call_back
  batch_execute_once requests = do responses ← send requests; λ w. (ok (call_back [] responses), w)

  -- BatchExecute returns the executor's final results.
  unfoldable pub batch_execute :
      (Ratio → W → W)
      → Dict Req
      → Option (List ℕ)
      → Option ℕ
      → Option Ratio
      → Option Ratio
      → Option (List ExcClass)
      → Exec W (Dict (Outcome Resp))
  unfolding batch_execute_once
  batch_execute nap requests retry_http_codes max_retry sleep backoff_factor others w =
      let x =
        Batch.init {Req = Req} {Resp = Resp} requests
          (or_default_list retry_http_codes default_retry_http_codes)
          (or_default_count max_retry retry_count) (or_default_ratio sleep retry_sleep_multiplier)
          (or_default_ratio backoff_factor retry_backoff_factor)
          (or_default_list others retriable_errors) in
      let (r, (y, w')) = Batch.execute batch_execute_once nap (x, w) in
      elim r [ ok _ ↦ (ok y.final_results, w') | err e ↦ (err e, w') ]

-- A page of a listing.
pub record Page (A : Type 0) : Type 0 where
  pub items : Option (List A)
  pub next_page_token : Option String

-- `not next_page_token`
abbrev pub is_last : Option String → Bool
is_last none = true
is_last (some token) = is_empty token

module _ {A W : Type 0} (get_page : Option String → Exec W (Page A)) where
  -- A round, once `Execute` has given the page; `again` is the rest of the loop.
  after_page :
      List A
      → (Option String → List A → W → Option (Result (List A) × W))
      → Result (Page A) × W
      → Option (Result (List A) × W)
  after_page items again (err e, w) = some (err e, w)
  after_page items again (ok response, w) =
      let items' = items ++ or_default response.items [] in
      let next = again response.next_page_token items' w in
      if is_last response.next_page_token then some (ok items', w) else next

  -- `while True`, on fuel; `get_page` is Execute of the api for a page token.
  unfoldable pub list_pages : ℕ → Option String → List A → W → Option (Result (List A) × W)
  unfolding after_page
  list_pages zero next_page_token items w = none
  list_pages (suc fuel) next_page_token items w =
      after_page items (list_pages fuel) (get_page next_page_token w)

  unfoldable pub list_with_multi_pages : ℕ → W → Option (Result (List A) × W)
  unfolding list_pages
  list_with_multi_pages fuel = list_pages fuel none []
