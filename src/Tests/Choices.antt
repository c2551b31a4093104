-- ===== src/Tests/Choices.antt =====
-- The theorems on arguments, properties and choices, at concrete inputs.
use tools_acloud.Constants
use tools_acloud.Base.Text.{split, strip, contains_char, is_empty}
use tools_acloud.HwProperty.Parsed.{Parsed}
use tools_acloud.HwProperty.{parse_hw_property_args}
use tools_acloud.HwProperty.Roundtrip.{IsWord}
use tools_acloud.Base.Dict.{keys, insert}
use tools_acloud.Base.{
  true, false, [], none, some, String, List, ◌≡◌, ℕ, ◌∷◌, All, refl, ◌↔◌, arith,
}
use tools_acloud.HwProperty.{parse_hw_property_args_by, parse_item}
use tools_acloud.Listing.Filters.{
  FindsNames, FindsPort, filter_instances_by_adb_port-FindsPort,
  filter_instances_by_names-FindsNames,
}
use tools_acloud.Args.{Args, verify_args}
use tools_acloud.Base.Dict.{Dict, lookup, NodupKeys}
use tools_acloud.Listing.{
  get_answer_from_list, filter_instances_by_adb_port, Instance, word, number,
  filter_instances_by_names, waiting, ended,
}
use tools_acloud.Args.Accepts.{IsConsistent, SuitsKind, SuitsPlace, SuitsWorld}
use tools_acloud.HwProperty.Failures.{parse_item-value_error}
use tools_acloud.Base.Text.{strip, contains_char}
use tools_acloud.Errors.{is_instance, exc, value_error, Exc, unsupported_instance_image_type}
use tools_acloud.HwProperty.Roundtrip.{print_dict, IsPair, parse-print}
use tools_acloud.Exec.{ok, err, Result}
use tools_acloud.Args.Accepted.{verify_args-Accepted}
use tools_acloud.Listing.Answers.{Picks, get_answer_from_list-Picks}
use tools_acloud.Create.{get_avd_creator_class, spec, CreatorClass}
use tools_acloud.Create.Dispatch.{Creates, get_avd_creator_class-Creates}

abbrev two_pairs : Dict String
two_pairs = ("cpu", "2") ∷ ("memory", "4g") ∷ []

IsWord-intro :
    (s : String)
    → is_empty s ≡ false
    → strip s ≡ s
    → contains_char b',' s ≡ false
    → contains_char b':' s ≡ false
    → IsWord "," ":" s
IsWord-intro s a b c d = record {
  filled = a;
  stripped = b;
  no_item_separator = c;
  no_key_value_separator = d;
}

two_pairs-IsPair : All (IsPair "," ":") two_pairs
unfolding strip contains_char
two_pairs-IsPair = (
  (IsWord-intro "cpu" refl refl refl refl, IsWord-intro "2" refl refl refl refl),
  ((IsWord-intro "memory" refl refl refl refl, IsWord-intro "4g" refl refl refl refl), tt),
)

two_pairs-NodupKeys : NodupKeys two_pairs
unfolding lookup
two_pairs-NodupKeys = (refl, (refl, tt))

parse-print_example :
    parse_hw_property_args_by b',' b':' (print_dict "," ":" two_pairs) ≡ ok two_pairs
parse-print_example = parse-print "," ":" two_pairs refl two_pairs-IsPair two_pairs-NodupKeys

cpu-no_colon : (contains_char b':' "cpu" ≡ false) × (contains_char b':' "2" ≡ false)
unfolding contains_char
cpu-no_colon = (refl, refl)

parse_item-value_error_example :
    parse_item b':' "cpu:2:3" [] ≡ err (exc value_error "too many values to unpack (expected 2)")
parse_item-value_error_example =
    parse_item-value_error ":" "cpu" "2" "3" [] cpu-no_colon.0 cpu-no_colon.1

abbrev given_properties : Dict String
given_properties = ("cpu", "2") ∷ ("speed", "fast") ∷ ("resolution", "1280x800") ∷ []

abbrev ins : String → ℕ → Instance
ins name port = record {
  name = name;
  fullname = name;
  islocal = false;
  avd_type = Constants.type_cf;
  adb_port = some port;
  vnc_port = none;
  device_serial = "";
}

abbrev two_instances : List Instance
two_instances = ins "a" 1 ∷ ins "b" 2 ∷ []

filter_instances_by_names-FindsNames_example :
    FindsNames two_instances
      ("b" ∷ "a" ∷ [])
      (filter_instances_by_names two_instances ("b" ∷ "a" ∷ []))
filter_instances_by_names-FindsNames_example =
    filter_instances_by_names-FindsNames two_instances ("b" ∷ "a" ∷ [])

filter_instances_by_adb_port-FindsPort_example :
    FindsPort two_instances 2 (filter_instances_by_adb_port two_instances 2)
filter_instances_by_adb_port-FindsPort_example =
    filter_instances_by_adb_port-FindsPort two_instances 2

get_answer_from_list-Picks_example :
    (get_answer_from_list two_instances true (word ∷ number 4 ∷ []) ≡ waiting)
    × ((r : Result (List Instance)) × (get_answer_from_list two_instances true
            (word ∷ number 4 ∷ number 2 ∷ [])
          ≡ ended r)
        × Picks two_instances true 2 r)
get_answer_from_list-Picks_example =
    get_answer_from_list-Picks two_instances true (word ∷ number 4 ∷ []) [] (tt, (omega arith, tt))
      2 (omega arith)

abbrev plain_args : Args
plain_args = record {
  flavor = some "phone";
  avd_type = Constants.type_cf;
  system_branch = none;
  system_build_id = none;
  system_build_target = none;
  num = 2;
  adb_port = none;
  local_instance = none;
  gpu = none;
  hw_property = some "cpu:2,memory:4g";
  stable_cheeps_host_image_name = none;
  stable_cheeps_host_image_project = none;
  username = none;
  password = none;
  cheeps_betty_image = none;
  autoconnect = some "webrtc";
  unlock_screen = true;
  local_image = some "";
  local_system_image = some "";
  local_tool = "tools" ∷ [];
  remote_host = none;
  host_user = Constants.gce_user;
  host_ssh_private_key_path = none;
}

plain_args-passes : verify_args (λ path. true) (λ port. true) plain_args ≡ ok tt
unfolding verify_args parse_hw_property_args split contains_char keys insert strip
plain_args-passes = refl

verify_args-Accepted_example :
    IsConsistent plain_args
    × SuitsKind plain_args
    × SuitsPlace plain_args
    × SuitsWorld (λ path. true) (λ port. true) plain_args
verify_args-Accepted_example =
    verify_args-Accepted (λ path. true) (λ port. true) plain_args plain_args-passes

get_avd_creator_class-Creates_example :
    ((c : CreatorClass)
      → (get_avd_creator_class "goldfish" "local" "local_image" ≡ ok c)
        ↔ Creates c (spec "goldfish" "local_image" "local"))
    × ((e : Exc)
        → get_avd_creator_class "goldfish" "local" "local_image" ≡ err e
        → is_instance e unsupported_instance_image_type ≡ true)
get_avd_creator_class-Creates_example =
    get_avd_creator_class-Creates "goldfish" "local" "local_image"
