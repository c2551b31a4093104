-- ===== src/HwProperty.antt =====
-- create/create_common.py: ParseHWPropertyArgs, and create/avd_spec.py: _ParseHWPropertyStr with its
-- regular expressions. `\d` is read as an ASCII digit.
pub mod Roundtrip
pub mod Failures
pub mod Entries
pub mod Once
pub mod Parsed
use tools_acloud.Base.{
  ℕ, ◌*◌, Bool, not, ◌&&◌, ◌||◌, Option, none, some, List, [], ◌∷◌, String, ◌==◌, str_eq,
  if◌then◌else◌, ◌≡◌,
}
use Prim.Native.Char.{code}
use tools_acloud.Base.Dict.{Dict, insert, mem}
use tools_acloud.Base.Text.{
  ◌<>◌, is_empty, strip, contains_char, split, span_digits, int, at_end, str,
}
use tools_acloud.Constants
use tools_acloud.Errors.{exc, malformed_dict_string_error, value_error, invalid_hw_property_error}
use tools_acloud.Exec.{Result, ok, err}

-- `key, value = ...` takes exactly two texts.
store_pair : String → List String → Dict String → Result (Dict String)
store_pair item (key ∷ value ∷ []) hw_dict =
    if is_empty value || is_empty key
    then err (
        exc malformed_dict_string_error
          ("Missing key or value in " <> item <> ", expecting form of 'a:b'"))
    else ok (insert (strip key) (strip value) hw_dict)
store_pair item (key ∷ value ∷ more ∷ rest) hw_dict =
    err (exc value_error "too many values to unpack (expected 2)")
store_pair item _ hw_dict = err (exc value_error "not enough values to unpack (expected 2, got 1)")

-- The body of the loop over the items.
unfoldable pub parse_item : ℕ → String → Dict String → Result (Dict String)
unfolding store_pair
parse_item key_value_separator item hw_dict =
    if not (contains_char key_value_separator item)
    then err (
        exc malformed_dict_string_error
          ("Expecting ':' in '" <> item <> "' to make a key-val pair"))
    else store_pair item (split key_value_separator item) hw_dict

unfoldable pub parse_items : ℕ → List String → Dict String → Result (Dict String)
unfolding parse_item
parse_items key_value_separator [] hw_dict = ok hw_dict
parse_items key_value_separator (item ∷ items) hw_dict =
    elim (parse_item key_value_separator item hw_dict) [
      | ok hw_dict' ↦ parse_items key_value_separator items hw_dict'
      | err e ↦ err e
    ]

unfoldable pub parse_hw_property_args_by : ℕ → ℕ → String → Result (Dict String)
unfolding parse_items
parse_hw_property_args_by item_separator key_value_separator dict_str =
    if is_empty dict_str
    then ok []
    else parse_items key_value_separator (split item_separator dict_str) []

-- With the default separators.
unfoldable pub parse_hw_property_args : String → Result (Dict String)
unfolding parse_hw_property_args_by
parse_hw_property_args = parse_hw_property_args_by b',' b':'

-- _RE_INT = ^\d+$
unfoldable pub matches_int : String → Bool
matches_int value = let s = span_digits value in not (is_empty s.digits) && at_end s.rest

after_char : ℕ → ℕ → String → Option String
after_char c d String.[] = none
after_char c d (String.◌∷◌ a s) = if code a == c || code a == d then some s else none

-- _RE_RES = ^(?P<x_res>\d+)x(?P<y_res>\d+)$, with the two groups.
unfoldable pub match_res : String → Option (String × String)
unfolding after_char
match_res value =
    let x = span_digits value in
    if is_empty x.digits then none else elim (after_char b'x' b'x' x.rest) [
      | none ↦ none
      | some tail ↦
          let y = span_digits tail in
          if not (is_empty y.digits) && at_end y.rest then some (x.digits, y.digits) else none
    ]

-- _RE_MEMORY = (?P<gb_size>\d+)g$|(?P<mb_size>\d+)m$, in either case.
pub data Memory : Type 0 where
  gb_size mb_size : String → Memory

unfoldable pub match_memory : String → Option Memory
unfolding after_char
match_memory value =
    let s = span_digits value in
    if is_empty s.digits then none else elim (after_char b'g' b'G' s.rest) [
      | some tail ↦ if at_end tail then some (gb_size s.digits) else none
      | none ↦ elim (after_char b'm' b'M' s.rest) [
        | some tail ↦ if at_end tail then some (mb_size s.digits) else none
        | none ↦ none
      ]
    ]

set_res : String → Option (String × String) → Dict String → Result (Dict String)
set_res value none d =
    err (
      exc invalid_hw_property_error
        ("[" <> value <> "] is an invalid resolution. Example:1280x800"))
set_res value (some (x, y)) d = ok (insert Constants.hw_y_res y (insert Constants.hw_x_res x d))

set_memory : String → String → Option Memory → Dict String → Result (Dict String)
set_memory key value none d = err (
    exc invalid_hw_property_error ("Expected gb size.[" <> value <> "] is not allowed. Example:4g"))
set_memory key value (some (gb_size n)) d = ok (insert key (str (int n * 1024)) d)
set_memory key value (some (mb_size n)) d = ok (insert key n d)

-- The body of the loop over the dict: what one property adds; a key that is none of these is
-- passed over.
unfoldable pub parse_property : String → String → Dict String → Result (Dict String)
unfolding set_res set_memory match_res match_memory matches_int
parse_property key value d =
    if str_eq key Constants.hw_alias_resolution
    then set_res value (match_res value) d
    else if mem key (Constants.hw_alias_memory ∷ Constants.hw_alias_disk ∷ [])
    then set_memory key value (match_memory value) d
    else if mem key (Constants.hw_alias_cpus ∷ Constants.hw_alias_dpi ∷ [])
    then (if not (matches_int value)
        then err
            (exc invalid_hw_property_error (key <> " value [" <> value <> "] is not an integer."))
        else ok (insert key value d))
    else ok d

unfoldable pub parse_properties : Dict String → Dict String → Result (Dict String)
unfolding parse_property
parse_properties [] d = ok d
parse_properties ((key, value) ∷ hw_dict) d = elim (parse_property key value d) [
  | ok d' ↦ parse_properties hw_dict d'
  | err e ↦ err e
]

-- _ParseHWPropertyStr
unfoldable pub parse_hw_property_str : String → Result (Dict String)
unfolding parse_properties
parse_hw_property_str hw_property_str = elim (parse_hw_property_args hw_property_str) [
  | ok hw_dict ↦ parse_properties hw_dict []
  | err e ↦ err e
]
