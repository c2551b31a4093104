-- ===== src/HwProperty/Once.antt =====
-- ParseHWPropertyArgs gives each key once.
use tools_acloud.Base.{String, List, ◌∷◌, [], not, Bool-cases, inr, inl, ℕ, ◌||◌}
use tools_acloud.HwProperty.{
  store_pair, parse_item, parse_hw_property_args, parse_items, parse_hw_property_args_by,
}
use tools_acloud.Base.Dict.{Dict, NodupKeys, insert-NodupKeys}
use tools_acloud.Exec.{Result, ok, err}
use tools_acloud.Base.Text.{is_empty, contains_char, split, strip}

abbrev pub OnceOnOk : Result (Dict String) → Type 0
OnceOnOk (ok d) = NodupKeys d
OnceOnOk (err e) = Unit

store_pair-Once :
    (item : String) (l : List String) (d : Dict String)
    → NodupKeys d
    → OnceOnOk (store_pair item l d)
unfolding store_pair
store_pair-Once item [] d u = tt
store_pair-Once item (key ∷ []) d u = tt
store_pair-Once item (key ∷ value ∷ []) d u = elim (Bool-cases (is_empty value || is_empty key)) [
  | inl y ↦ rw y tt
  | inr n ↦ rw n (insert-NodupKeys (strip key) (strip value) d u)
]
store_pair-Once item (key ∷ value ∷ more ∷ rest) d u = tt

parse_item-Once :
    (c : ℕ) (item : String) (d : Dict String) → NodupKeys d → OnceOnOk (parse_item c item d)
unfolding parse_item
parse_item-Once c item d u = elim (Bool-cases (not (contains_char c item))) [
  | inl y ↦ rw y tt
  | inr n ↦ rw n (store_pair-Once item (split c item) d u)
]

parse_items-Once :
    (c : ℕ) (items : List String) (d : Dict String) → NodupKeys d → OnceOnOk (parse_items c items d)
unfolding parse_items
parse_items-Once c [] d u = u
parse_items-Once c (item ∷ items) d u =
    first (parse_item c item d) (parse_item-Once c item d u) (parse_items-Once c items)
  where
    first :
        (x : Result (Dict String))
        → OnceOnOk x
        → ((d' : Dict String) → NodupKeys d' → OnceOnOk (parse_items c items d'))
        → OnceOnOk (elim x [ ok d' ↦ parse_items c items d' | err e ↦ err e ])
    first (ok d') h rest = rest d' h
    first (err e) h rest = tt

pub parse_args-Once : (text : String) → OnceOnOk (parse_hw_property_args text)
unfolding parse_hw_property_args parse_hw_property_args_by
parse_args-Once text = elim (Bool-cases (is_empty text)) [
  | inl y ↦ rw y tt
  | inr n ↦ rw n (parse_items-Once b':' (split b',' text) [] tt)
]
