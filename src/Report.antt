-- ===== src/Report.antt =====
-- public/report.py: the class Report, and the evaluators of internal/lib/utils.py that read a report.
-- Report.Dump, which only writes, is not modelled.
pub mod Status
pub mod Severity
pub mod Devices
pub mod Steps
use tools_acloud.Base.{
  ℕ, zero, suc, Bool, true, false, not, ◌&&◌, Option, none, some, List, [], ◌∷◌, ◌++◌, String,
  is_nil, ◌==◌, if◌then◌else◌,
}
use tools_acloud.Base.Dict.{Dict, lookup, insert, update}
use tools_acloud.Base.Text.{◌<>◌, str}
use tools_acloud.Constants
use tools_acloud.Errors.{exc, attribute_error}
use tools_acloud.Exec.{Result, ok, err}
use tools_acloud.Report.Status.{is_more_severe}

-- A value of the report's data: a text, a number, None, or a dict such as a device record.
pub data Value : Type 0 where
  null : Value
  num : ℕ → Value
  txt : String → Value

abbrev pub Record : Type 0
Record = Dict Value

-- What stands under a key of `data`: a list of records, or another value that UpdateData has put.
pub data Entry : Type 0 where
  records : List Record → Entry
  other : Value → Entry

pub record Report : Type 0 where
  pub command : String
  pub status : String
  pub errors : List String
  pub contents : Dict Entry

-- Report(command)
abbrev pub init : String → Report
init command = record { command = command; status = Status.unknown; errors = []; contents = [] }

-- `data.setdefault(key, [])`
abbrev pub entry_or_nil : Option Entry → Entry
entry_or_nil none = records []
entry_or_nil (some e) = e

append_to : String → Record → Report → Entry → Result Report
append_to key value r (records l) =
    ok (record r { contents = insert key (records (l ++ value ∷ [])) r.contents })
append_to key value r (other _) = err (exc attribute_error "append")

unfoldable pub add_data : String → Record → Report → Result Report
unfolding append_to
add_data key value r = append_to key value r (entry_or_nil (lookup key r.contents))

unfoldable pub update_data : Dict Entry → Report → Report
update_data dict_data r = record r { contents = update r.contents dict_data }

unfoldable pub add_error : String → Report → Report
add_error error r = record r { errors = r.errors ++ error ∷ [] }

unfoldable pub add_errors : List String → Report → Report
add_errors errors r = record r { errors = r.errors ++ errors }

unfoldable pub set_status_if : String → Report → Result Bool → Result Report
set_status_if status r (err e) = err e
set_status_if status r (ok true) = ok (record r { status = status })
set_status_if status r (ok false) = ok r

unfoldable pub set_status : String → Report → Result Report
unfolding set_status_if is_more_severe
set_status status r = set_status_if status r (is_more_severe status r.status)

-- A port that is None or 0 counts as absent.
abbrev pub given : Option ℕ → Option ℕ
given none = none
given (some zero) = none
given (some (suc n)) = some (suc n)

device_adb : String → Option ℕ → Record → Record
device_adb ip_address none device = insert Constants.ip (txt ip_address) device
device_adb ip_address (some port) device =
    insert Constants.ip (txt (ip_address <> ":" <> str port))
      (insert Constants.adb_port (num port) device)

device_vnc : Option ℕ → Record → Record
device_vnc none device = device
device_vnc (some port) device = insert Constants.vnc_port (num port) device

-- The record that AddDevice stores.
unfoldable pub device_record : String → String → Option ℕ → Option ℕ → Record
unfolding device_adb device_vnc
device_record instance_name ip_address adb_port vnc_port =
    device_vnc (given vnc_port)
      (device_adb ip_address (given adb_port) ((Constants.instance_name, txt instance_name) ∷ []))

unfoldable pub add_device : String → String → Option ℕ → Option ℕ → String → Report → Result Report
unfolding device_record add_data
add_device instance_name ip_address adb_port vnc_port key r =
    add_data key (device_record instance_name ip_address adb_port vnc_port) r

add_error_after : String → Result Report → Result Report
add_error_after error (ok r) = ok (add_error error r)
add_error_after error (err e) = err e

unfoldable pub add_device_boot_failure :
    String → String → Option ℕ → Option ℕ → String → Report → Result Report
unfolding add_device add_error_after add_error
add_device_boot_failure instance_name ip_address adb_port vnc_port error r =
    add_error_after error
      (add_device instance_name ip_address adb_port vnc_port "devices_failing_boot" r)

-- _EvaluatedResult; the message is None for a good result.
pub record Evaluated (M : Type 0) : Type 0 where
  pub is_result_ok : Bool
  pub result_message : Option M

-- utils.ReportEvaluator: at None the message is read off the missing report.
unfoldable pub report_evaluator : Option Report → Result (Evaluated (List String))
report_evaluator none = err (exc attribute_error "errors")
report_evaluator (some r) =
    if not (is_nil r.errors)
    then ok (record { is_result_ok = false; result_message = some r.errors })
    else ok (record { is_result_ok = true; result_message = none })

-- utils.BootEvaluator, on the dict of boot errors.
unfoldable pub boot_evaluator : {V : Type 0} → Dict V → Evaluated (Dict V)
boot_evaluator boot_dict =
    if not (is_nil boot_dict)
    then record { is_result_ok = false; result_message = some boot_dict }
    else record { is_result_ok = true; result_message = none }
