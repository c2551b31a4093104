-- ===== src/HwProperty/Failures.antt =====
-- Items that ParseHWPropertyArgs refuses, and the keys that _ParseHWPropertyStr gives.
use Prim.Native.Char.{Char, code}
use package.text.Mathlib.TextLemmas.{cons-append, nil-append}
use tools_acloud.HwProperty.{
  store_pair, parse_item, parse_properties, parse_property, set_res, set_memory,
  parse_hw_property_str, Memory, gb_size, mb_size, matches_int, parse_hw_property_args,
}
use tools_acloud.Base.{
  String, List, Option, is_some, some, ◌≡◌, true, Bool-cases, str_eq, none, inl, inr, [], refl,
  arith, if◌then◌else◌, ◌∷◌, not, is_nil, ==_iff, false,
}
use tools_acloud.Base.Dict.{Dict, mem, lookup, insert, lookup-insert}
use tools_acloud.Base.Text.{contains_char, ◌<>◌, split}
use tools_acloud.Exec.{Result, ok, err}
use package.text.Mathlib.TextEquality.{eq_iff}
use tools_acloud.Base.Text.Split.{split-filled, split-append}
use tools_acloud.Constants
use mathlib.Core.Path.{subst}
use tools_acloud.Errors.{exc, invalid_hw_property_error, value_error}

-- The properties that the AVD spec knows.
abbrev pub spec_properties : List String
spec_properties =
    Constants.hw_x_res ∷ Constants.hw_y_res ∷ Constants.hw_alias_memory ∷ Constants.hw_alias_disk
    ∷ Constants.hw_alias_cpus ∷ Constants.hw_alias_dpi ∷ []

abbrev pub HasSpecKeys : Dict String → Type 0
HasSpecKeys d = (k : String) → is_some (lookup k d) ≡ true → mem k spec_properties ≡ true

insert-HasSpecKeys :
    (k v : String) (d : Dict String)
    → mem k spec_properties ≡ true
    → HasSpecKeys d
    → HasSpecKeys (insert k v d)
insert-HasSpecKeys k v d m h j found = elim (Bool-cases (str_eq k j)) [
  | inl y ↦ subst (λ x. mem x spec_properties ≡ true) ((eq_iff k j).0 y) m
  | inr n ↦ h j (ground (arith, lookup-insert j k v d))
]

abbrev OnOk : (Dict String → Type 0) → Result (Dict String) → Type 0
OnOk P (ok d) = P d
OnOk P (err e) = Unit

set_res-HasSpecKeys :
    (value : String) (o : Option (String × String)) (d : Dict String)
    → HasSpecKeys d
    → OnOk HasSpecKeys (set_res value o d)
unfolding set_res
set_res-HasSpecKeys value none d h = tt
set_res-HasSpecKeys value (some (x, y)) d h =
    insert-HasSpecKeys Constants.hw_y_res y _ refl
      (insert-HasSpecKeys Constants.hw_x_res x d refl h)

set_memory-HasSpecKeys :
    (key value : String) (o : Option Memory) (d : Dict String)
    → mem key spec_properties ≡ true
    → HasSpecKeys d
    → OnOk HasSpecKeys (set_memory key value o d)
unfolding set_memory
set_memory-HasSpecKeys key value none d m h = tt
set_memory-HasSpecKeys key value (some (gb_size n)) d m h = insert-HasSpecKeys key _ d m h
set_memory-HasSpecKeys key value (some (mb_size n)) d m h = insert-HasSpecKeys key _ d m h

memory_key :
    (key : String)
    → mem key (Constants.hw_alias_memory ∷ Constants.hw_alias_disk ∷ []) ≡ true
    → mem key spec_properties ≡ true
memory_key key h = ground arith

number_key :
    (key : String)
    → mem key (Constants.hw_alias_cpus ∷ Constants.hw_alias_dpi ∷ []) ≡ true
    → mem key spec_properties ≡ true
number_key key h = ground arith

number_property :
    (key value : String) (d : Dict String)
    → HasSpecKeys d
    → OnOk HasSpecKeys (
        if mem key (Constants.hw_alias_cpus ∷ Constants.hw_alias_dpi ∷ [])
        then (if not (matches_int value)
            then err (
                exc invalid_hw_property_error
                  (key <> " value [" <> value <> "] is not an integer."))
            else ok (insert key value d))
        else ok d)
number_property key value d h =
    elim (Bool-cases (mem key (Constants.hw_alias_cpus ∷ Constants.hw_alias_dpi ∷ []))) [
      | inl y ↦ rw y (elim (Bool-cases (not (matches_int value))) [
        | inl bad ↦ rw bad tt
        | inr good ↦ rw good (insert-HasSpecKeys key value d (number_key key y) h)
      ])
      | inr n ↦ rw n h
    ]

parse_property-HasSpecKeys :
    (key value : String) (d : Dict String)
    → HasSpecKeys d
    → OnOk HasSpecKeys (parse_property key value d)
unfolding parse_property
parse_property-HasSpecKeys key value d h =
    elim (Bool-cases (str_eq key Constants.hw_alias_resolution)) [
      | inl y ↦ rw y (set_res-HasSpecKeys value _ d h)
      | inr n ↦
          rw n
            (elim (Bool-cases
              (mem key (Constants.hw_alias_memory ∷ Constants.hw_alias_disk ∷ []))) [
                | inl y ↦ rw y (set_memory-HasSpecKeys key value _ d (memory_key key y) h)
                | inr n' ↦ rw n' (number_property key value d h)
              ])
    ]

contains-sep : (d : Char) (s t : String) → contains_char (code d) (s <> (String.◌∷◌ d t)) ≡ true
unfolding contains_char
contains-sep d String.[] t = rw nil-append (rw ((==_iff (code d) (code d)).1 refl) refl)
contains-sep d (String.◌∷◌ c s) t = rw cons-append (rw (contains-sep d s t) (ground arith))

store_pair-many :
    (item key value : String) (more : List String)
    → is_nil more ≡ false
    → (acc : Dict String)
    → store_pair item (key ∷ value ∷ more) acc
      ≡ err (exc value_error "too many values to unpack (expected 2)")
unfolding store_pair
store_pair-many item key value [] h acc = absurd (cc)
store_pair-many item key value (m ∷ more) h acc = refl

OnOk-elim :
    (r : Result (Dict String)) (f : Dict String → Result (Dict String))
    → OnOk HasSpecKeys r
    → ((d : Dict String) → HasSpecKeys d → OnOk HasSpecKeys (f d))
    → OnOk HasSpecKeys (elim r [ ok d ↦ f d | err e ↦ err e ])
OnOk-elim (ok d) f h next = next d h
OnOk-elim (err e) f h next = tt

parse_properties-HasSpecKeys :
    (hw_dict d : Dict String) → HasSpecKeys d → OnOk HasSpecKeys (parse_properties hw_dict d)
unfolding parse_properties
parse_properties-HasSpecKeys [] d h = h
parse_properties-HasSpecKeys ((key, value) ∷ hw_dict) d h =
    OnOk-elim (parse_property key value d) (parse_properties hw_dict)
      (parse_property-HasSpecKeys key value d h) (parse_properties-HasSpecKeys hw_dict)

HasSpecKeys-nil : HasSpecKeys []
unfolding lookup
HasSpecKeys-nil k h = absurd (cc)

-- Whatever keys the hw property text has, those of the parsed properties are among x_res, y_res,
-- memory, disk, cpu and dpi.
pub parse_hw_property_str-HasSpecKeys :
    (text : String) (d : Dict String) → parse_hw_property_str text ≡ ok d → HasSpecKeys d
unfolding parse_hw_property_str
parse_hw_property_str-HasSpecKeys text d h =
    subst (OnOk HasSpecKeys) h (Result-split (parse_hw_property_args text))
  where
    Result-split :
        (r : Result (Dict String))
        → OnOk HasSpecKeys (elim r [ ok hw_dict ↦ parse_properties hw_dict [] | err e ↦ err e ])
    Result-split (ok hw_dict) = parse_properties-HasSpecKeys hw_dict [] HasSpecKeys-nil
    Result-split (err e) = tt

-- An item with the separator twice or more is refused with a ValueError, and not with the
-- MalformedDictStringError that the documentation of ParseHWPropertyArgs names.
pub parse_item-value_error :
    (d : Char) (key value rest : String) (acc : Dict String)
    → contains_char (code d) key ≡ false
    → contains_char (code d) value ≡ false
    → parse_item (code d) (key <> (String.◌∷◌ d (value <> (String.◌∷◌ d rest)))) acc
      ≡ err (exc value_error "too many values to unpack (expected 2)")
unfolding parse_item
parse_item-value_error d key value rest acc hk hv = rw (contains-sep d key _) (
    rw (split-append d key _ hk) (
      rw (split-append d value rest hv)
        (store_pair-many _ key value (split (code d) rest) (split-filled (code d) rest) acc)))
