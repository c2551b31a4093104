-- ===== src/Compute/Access.antt =====
-- internal/lib/gcompute_client.py: CheckAccess, the waiting for operations, GetInstanceNamesByIPs and
-- GetSerialPortOutput. The calls of the API are parameters.
pub mod Denied
pub mod Waited
use tools_acloud.Base.{
  true, false, [], none, some, ℕ, String, Bool, Option, List, ◌∷◌, ◌++◌, if◌then◌else◌, not, str_eq,
  ◌==◌, ◌&&◌, is_nil, ◌*◌,
}
use tools_acloud.Base.Dict.{Dict, lookup, insert, mem}
use tools_acloud.Base.Ratio.{Ratio}
use tools_acloud.Base.Text.{◌<>◌, str, join}
use tools_acloud.Cloud
use tools_acloud.Cloud.{default_retry_http_codes}
use tools_acloud.Errors.{
  Exc, exc, is_instance, value_error, key_error, driver_error, http_error,
  gce_operation_timeout_error,
}
use tools_acloud.Exec.{Exec, Result, ok, err, pure, raise, ◌>>=◌, handle}
use tools_acloud.Retry.Poll.{poll_and_wait}

-- ACCESS_DENIED_CODE
abbrev pub access_denied_code : ℕ
access_denied_code = 403

-- `codes.remove(code)`
unfoldable pub remove_code : ℕ → List ℕ → Result (List ℕ)
remove_code code [] = err (exc value_error "list.remove(x): x not in list")
remove_code code (c ∷ codes) =
    let rest = remove_code code codes in if c == code then ok codes else kept c rest
  where
    kept : ℕ → Result (List ℕ) → Result (List ℕ)
    kept c (ok l) = ok (c ∷ l)
    kept c (err e) = err e

-- OperationScope
pub data OperationScope : Type 0 where
  zone region global : OperationScope

-- The fields of an operation's state that are read: the `errors` of `error`, if that is
-- there and not empty, and the status.
pub record Operation : Type 0 where
  pub error : Option (List String)
  pub status : Option String

abbrev pub operation_timeout_secs : ℕ
operation_timeout_secs = 30 * 60

abbrev pub operation_poll_interval_secs : ℕ
operation_poll_interval_secs = 20

abbrev pub operation_timeout : Exc
operation_timeout =
    exc gce_operation_timeout_error
      ("Operation hits timeout, did not complete within " <> str operation_timeout_secs <> " secs.")

-- What _GetOperationStatus makes of the state.
unfoldable pub operation_status : Operation → Result String
operation_status o = unless_error o.error
  where
    status_or_error : Option String → Result String
    status_or_error none = err (exc key_error "status")
    status_or_error (some s) = ok s

    unless_error : Option (List String) → Result String
    unless_error none = status_or_error o.status
    unless_error (some errors) =
        err (exc driver_error ("Get operation state failed, errors: " <> join ", " errors))

-- The address of an instance, if its interfaces have one, and its name.
pub record Listed : Type 0 where
  pub nat_ip : Option String
  pub name : String

module _ {W : Type 0} where
  -- CheckAccess; `api` is the request that lists the zones.
  denied_or_raise : Exc → Exec W Bool
  denied_or_raise e =
      if is_instance e http_error
      then (if e.code == access_denied_code then pure false else raise e)
      else raise e

  unfoldable pub check_access : {Resp : Type 0} → (Ratio → W → W) → Exec W Resp → Exec W Bool
  unfolding denied_or_raise remove_code
  check_access nap api = with_codes (remove_code access_denied_code default_retry_http_codes)
    where
      with_codes : Result (List ℕ) → Exec W Bool
      with_codes (err e) w = (err e, w)
      with_codes (ok codes) w =
          handle (Cloud.execute nap api (some codes) none none none none w) (λ _. pure true)
            denied_or_raise

  -- _GetOperationStatus; the three requests differ in the argument that the scope's name goes to.
  unfoldable pub get_operation_status :
      (OperationScope → String → String → Exec W Operation)
      → OperationScope
      → String
      → String
      → Exec W String
  unfolding operation_status
  get_operation_status get operation_scope operation_name scope_name =
      get operation_scope operation_name scope_name >>= λ result w. (operation_status result, w)

  -- WaitOnOperation, on the fuel of PollAndWait.
  unfoldable pub wait_on_operation :
      (W → ℕ)
      → (ℕ → W → W)
      → (OperationScope → String → String → Exec W Operation)
      → OperationScope
      → String
      → String
      → ℕ
      → W
      → Option (Result (Unit {0}) × W)
  unfolding get_operation_status
  wait_on_operation time sleep get operation_scope operation_name scope_name fuel w =
      poll_and_wait time sleep (get_operation_status get operation_scope operation_name scope_name)
        (λ s. str_eq s "DONE") operation_timeout operation_timeout_secs operation_poll_interval_secs
        fuel w

  -- GetSerialPortOutput: the `contents` of the response.
  unfoldable pub get_serial_port_output : Exec W (Option String) → Exec W String
  get_serial_port_output execute = execute >>= contents
    where
      contents : Option String → Exec W String
      contents none = raise (exc driver_error "Malformed response for GetSerialPortOutput")
      contents (some text) = pure text

-- `dict.fromkeys(ips)`
unfoldable pub from_keys : List String → Dict (Option String) → Dict (Option String)
from_keys [] d = d
from_keys (ip ∷ ips) d = from_keys ips (insert ip none d)

note_name : List String → Listed → Option String → Dict (Option String) → Dict (Option String)
note_name ips instance none names = names
note_name ips instance (some ip) names =
    if mem ip ips then insert ip (some instance.name) names else names

unfoldable pub names_of : List String → List Listed → Dict (Option String) → Dict (Option String)
unfolding note_name
names_of ips [] names = names
names_of ips (instance ∷ instances) names =
    names_of ips instances (note_name ips instance instance.nat_ip names)

-- GetInstanceNamesByIPs, on the instances that are listed.
unfoldable pub get_instance_names_by_ips : List String → List Listed → Dict (Option String)
unfolding from_keys names_of
get_instance_names_by_ips ips instances = names_of ips instances (from_keys ips [])
