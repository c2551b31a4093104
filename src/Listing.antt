-- ===== src/Listing.antt =====
-- list/list.py: choosing among instances and filtering them, with utils.GetAnswerFromList. The child Local
-- lists the local instances; listing by the cloud client is not modelled.
pub mod Answers
pub mod Filters
pub mod Local
use tools_acloud.Base.{
  true, false, [], none, some, List, Option, ℕ, String, Bool, ◌++◌, ◌∷◌, select, if◌then◌else◌,
  ◌==◌, not, length, str_eq, ltb, is_nil, ◌+◌, ◌&&◌, get_elem?, ◌-◌,
}
use tools_acloud.Constants
use tools_acloud.Exec.{err, Result, ok, user_exit}
use tools_acloud.Base.Dict.{Dict, insert, lookup}
use tools_acloud.Errors.{exc, Exc, index_error, no_instances_found, system_exit}
use tools_acloud.Base.Text.{◌<>◌, join, str}

-- The fields of instance.Instance that the code here and in delete/delete.py reads.
pub record Instance : Type 0 where
  pub name : String
  pub fullname : String
  pub islocal : Bool
  pub avd_type : String
  pub adb_port : Option ℕ
  pub vnc_port : Option ℕ
  pub device_serial : String

-- A line that is typed, as int() reads it: no integer, a negative one, or another.
pub data Typed : Type 0 where
  word negative : Typed
  number : ℕ → Typed

-- What the dialog comes to on the lines typed so far: a list, an exception (SystemExit too), or
-- still a question.
pub data Answer {ℓ} (A : Type ℓ) : Type ℓ where
  ended : Result (List A) → Answer A
  waiting : Answer A

module _ {ℓ} {A : Type ℓ} where
  abbrev pub max_choice : List A → Bool → ℕ
  max_choice answer_list enable_choose_all =
      length answer_list + (if enable_choose_all then 1 else 0)

  one_of : Option A → Result (List A)
  one_of none = err (exc index_error "list index out of range")
  one_of (some a) = ok (a ∷ [])

  -- A choice that is an integer and not negative; `again` is the next round of the loop.
  unfoldable pub take_choice : List A → Bool → ℕ → Answer A → Answer A
  unfolding one_of
  take_choice answer_list enable_choose_all choice again =
      if choice == 0
      then ended (err user_exit)
      else if enable_choose_all && choice == max_choice answer_list enable_choose_all
      then ended (ok answer_list)
      else if ltb (max_choice answer_list enable_choose_all) choice
      then again
      else ended (one_of (get_elem? answer_list (choice - 1)))

  -- GetAnswerFromList, on the lines that are typed.
  unfoldable pub get_answer_from_list : List A → Bool → List Typed → Answer A
  unfolding take_choice
  get_answer_from_list answer_list enable_choose_all [] = waiting
  get_answer_from_list answer_list enable_choose_all (word ∷ typed) =
      get_answer_from_list answer_list enable_choose_all typed
  get_answer_from_list answer_list enable_choose_all (negative ∷ typed) =
      get_answer_from_list answer_list enable_choose_all typed
  get_answer_from_list answer_list enable_choose_all (number choice ∷ typed) =
      let again = get_answer_from_list answer_list enable_choose_all typed in
      take_choice answer_list enable_choose_all choice again

  -- ChooseInstancesFromList
  unfoldable pub choose_instances_from_list : List A → List Typed → Answer A
  unfolding get_answer_from_list
  choose_instances_from_list instances typed =
      if ltb 1 (length instances)
      then get_answer_from_list instances true typed
      else ended (ok instances)

first_of : Answer Instance → Answer Instance
first_of waiting = waiting
first_of (ended (err e)) = ended (err e)
first_of (ended (ok [])) = ended (err (exc index_error "list index out of range"))
first_of (ended (ok (i ∷ _))) = ended (ok (i ∷ []))

-- ChooseOneRemoteInstance, on what GetCFRemoteInstances gave; the instance is a list of one.
unfoldable pub choose_one_remote_instance : List Instance → List Typed → Answer Instance
unfolding first_of get_answer_from_list
choose_one_remote_instance [] typed = ended (
    err (
      exc no_instances_found
        "Can't find any cuttlefish remote instances, please try '$acloud create' to create instances"))
choose_one_remote_instance (i ∷ []) typed = ended (ok (i ∷ []))
choose_one_remote_instance (i ∷ j ∷ rest) typed =
    first_of (get_answer_from_list (i ∷ j ∷ rest) false typed)

-- GetCFRemoteInstances, on the remote instances.
unfoldable pub cf_instances : List Instance → List Instance
cf_instances instances = select (λ i. str_eq i.avd_type Constants.type_cf) instances

-- The dict `instance_map`.
unfoldable pub instance_map : List Instance → Dict Instance → Dict Instance
instance_map [] d = d
instance_map (i ∷ instances) d = instance_map instances (insert i.name i d)

pub record Found : Type 0 where
  pub found_instances : List Instance
  pub missing_instance_names : List String

note_name : String → Option Instance → Found → Found
note_name name none f = record f { missing_instance_names = f.missing_instance_names ++ name ∷ [] }
note_name name (some i) f = record f { found_instances = f.found_instances ++ i ∷ [] }

-- The loop over the names.
unfoldable pub find_names : Dict Instance → List String → Found → Found
unfolding note_name
find_names d [] f = f
find_names d (name ∷ names) f = find_names d names (note_name name (lookup name d) f)

found_or_error : Found → Result (List Instance)
found_or_error f =
    if not (is_nil f.missing_instance_names)
    then err (
        exc no_instances_found
          ("Did not find the following instances: " <> join " " f.missing_instance_names))
    else ok f.found_instances

-- _FilterInstancesByNames
unfoldable pub filter_instances_by_names : List Instance → List String → Result (List Instance)
unfolding found_or_error find_names instance_map
filter_instances_by_names instances names = found_or_error (
    find_names (instance_map instances []) names
      (record { found_instances = []; missing_instance_names = [] }))

-- `instance_object.adb_port == adb_port`
abbrev pub has_port : Option ℕ → ℕ → Bool
has_port none adb_port = false
has_port (some p) adb_port = p == adb_port

no_port : ℕ → List String → Exc
no_port adb_port [] = exc no_instances_found "No instances to delete."
no_port adb_port (name ∷ names) = exc no_instances_found (
    "No instance with adb port "
    <> str adb_port
    <> ", available instances:\n"
    <> join "\n" (name ∷ names))

-- The loop of FilterInstancesByAdbPort, with the names seen so far.
unfoldable pub port_from : List Instance → ℕ → List String → Result (List Instance)
unfolding no_port
port_from [] adb_port all_instance_info = err (no_port adb_port all_instance_info)
port_from (i ∷ instances) adb_port all_instance_info =
    let rest = port_from instances adb_port (all_instance_info ++ i.fullname ∷ []) in
    if has_port i.adb_port adb_port then ok (i ∷ []) else rest

unfoldable pub filter_instances_by_adb_port : List Instance → ℕ → Result (List Instance)
unfolding port_from
filter_instances_by_adb_port instances adb_port = port_from instances adb_port []
