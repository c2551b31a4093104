-- ===== src/HwProperty/Roundtrip.antt =====
-- What ParseHWPropertyArgs reads back of a printed dict.
use Prim.Native.Char.{Char, code}
use Prim.Native.String.{[], ◌∷◌}
use text.Mathlib.TextLemmas.{cons-append, nil-append}
use mathlib.Core.List
use mathlib.Core.List.{append-nil, append_assoc}
use mathlib.Core.Path.{◌≡◌, refl}
use tools_acloud.Base.{
  ◌==◌, String, true, false, All, arith, ==_iff, ℕ, is_some, ||-false, Bool-cases, str_eq, sym, inl,
  inr, ap, ◌∙◌,
}
use tools_acloud.Base.Dict.{Dict, insert, lookup, NodupKeys, lookup-insert}
use tools_acloud.Base.Text.{◌<>◌, is_empty, strip, contains_char, join}
use tools_acloud.Base.Text.Split.{split-word, split-append, Lack, split-join}
use tools_acloud.Exec.{ok}
use tools_acloud.HwProperty.{store_pair, parse_item, parse_items, parse_hw_property_args_by}
use package.text.Mathlib.TextEquality.{eq_iff}

-- The entries are stored one after the other.
abbrev store_all : Dict String → Dict String → Dict String
store_all List.[] acc = acc
store_all (List.◌∷◌ (k, v) d) acc = store_all d (insert k v acc)

module _ (item_separator key_value_separator : Char) where
  -- key:value
  abbrev pub print_item : String × String → String
  print_item (k, v) = k <> (key_value_separator ∷ v)

  abbrev pub print_dict : Dict String → String
  print_dict d = join (item_separator ∷ []) (List.map print_item d)

  -- A text that can be a key or a value: not empty, no space at its ends, none of the separators.
  pub record IsWord (s : String) : Type 0 where
    pub filled : is_empty s ≡ false
    pub stripped : strip s ≡ s
    pub no_item_separator : contains_char (code item_separator) s ≡ false
    pub no_key_value_separator : contains_char (code key_value_separator) s ≡ false

  abbrev pub IsPair : String × String → Type 0
  IsPair (k, v) = IsWord k × IsWord v

  contains-print : (d : Char) (s t : String) → contains_char (code d) (s <> (d ∷ t)) ≡ true
  unfolding contains_char
  contains-print d [] t = rw nil-append (rw ((==_iff (code d) (code d)).1 refl) refl)
  contains-print d (c ∷ s) t = rw cons-append (rw (contains-print d s t) (ground arith))

  parse_item-print :
      (k v : String) (acc : Dict String)
      → IsPair (k, v)
      → parse_item (code key_value_separator) (print_item (k, v)) acc ≡ ok (insert k v acc)
  unfolding parse_item store_pair
  parse_item-print k v acc (wk, wv) = rw (contains-print key_value_separator k v) (
      rw (split-append key_value_separator k v wk.no_key_value_separator) (
        rw (split-word (code key_value_separator) v wv.no_key_value_separator)
          (rw wv.filled (rw wk.filled (rw wk.stripped (rw wv.stripped refl))))))

  parse_items-print :
      (d acc : Dict String)
      → All IsPair d
      → parse_items (code key_value_separator) (List.map print_item d) acc ≡ ok (store_all d acc)
  unfolding parse_items
  parse_items-print List.[] acc h = refl
  parse_items-print (List.◌∷◌ (k, v) d) acc h =
      rw (parse_item-print k v acc h.0, parse_items) (parse_items-print d (insert k v acc) h.1)

  contains_char-append :
      (d : ℕ) (s t : String)
      → contains_char d s ≡ false
      → contains_char d t ≡ false
      → contains_char d (s <> t) ≡ false
  unfolding contains_char
  contains_char-append d [] t h k = rw nil-append k
  contains_char-append d (c ∷ s) t h k =
      let (ne, rest) = ||-false (code c == d) (contains_char d s) h in
      rw cons-append (rw ne (rw (contains_char-append d s t rest k) refl))

  module _ (differ : (code key_value_separator == code item_separator) ≡ false) where
    print-lacks :
        (k v : String)
        → IsPair (k, v)
        → contains_char (code item_separator) (print_item (k, v)) ≡ false
    print-lacks k v (wk, wv) =
        contains_char-append (code item_separator) k (key_value_separator ∷ v) wk.no_item_separator
          (unfold contains_char in rw differ wv.no_item_separator)

    print-Lack :
        (d : Dict String) → All IsPair d → Lack (code item_separator) (List.map print_item d)
    print-Lack List.[] h = tt
    print-Lack (List.◌∷◌ (k, v) d) h = (print-lacks k v h.0, print-Lack d h.1)

-- The keys of the second dict are not in the first.
abbrev Apart : Dict String → Dict String → Type 0
Apart acc List.[] = Unit
Apart acc (List.◌∷◌ (k, v) d) = (is_some (lookup k acc) ≡ false) × Apart acc d

insert-fresh :
    (k v : String) (acc : Dict String)
    → is_some (lookup k acc) ≡ false
    → insert k v acc ≡ List.◌++◌ acc (List.◌∷◌ (k, v) List.[])
unfolding insert lookup
insert-fresh k v List.[] h = refl
insert-fresh k v (List.◌∷◌ (j, w) acc) h = elim (Bool-cases (str_eq j k)) [
  | inl y ↦ absurd (ground arith)
  | inr n ↦ rw n (ap (λ l. List.◌∷◌ (j, w) l) (insert-fresh k v acc (rw n at h)))
]

Apart-insert :
    (k v : String) (acc d : Dict String)
    → is_some (lookup k d) ≡ false
    → Apart acc d
    → Apart (insert k v acc) d
unfolding lookup
Apart-insert k v acc List.[] h a = tt
Apart-insert k v acc (List.◌∷◌ (j, w) d) h a = elim (Bool-cases (str_eq j k)) [
  | inl y ↦ absurd (ground arith)
  | inr n ↦ (
    ground (arith, lookup-insert j k v acc, eq_iff j k, eq_iff k j),
    Apart-insert k v acc d (rw n at h) a.1,
  )
]

store_all-append :
    (d acc : Dict String) → NodupKeys d → Apart acc d → store_all d acc ≡ List.◌++◌ acc d
store_all-append List.[] acc u a = sym (append-nil acc)
store_all-append (List.◌∷◌ (k, v) d) acc u a =
    store_all-append d (insert k v acc) u.1 (Apart-insert k v acc d u.0 a.1)
    ∙ ap (λ l. List.◌++◌ l d) (insert-fresh k v acc a.0)
    ∙ append_assoc acc (List.◌∷◌ (k, v) List.[]) d

Apart-nil : (d : Dict String) → Apart List.[] d
unfolding lookup
Apart-nil List.[] = tt
Apart-nil (List.◌∷◌ _ d) = (refl, Apart-nil d)

print-filled :
    (i c : Char) (k v : String) (d : Dict String)
    → is_empty (print_dict i c (List.◌∷◌ (k, v) d)) ≡ false
unfolding join
print-filled i c [] v List.[] = rw nil-append refl
print-filled i c [] v (List.◌∷◌ _ d) = rw nil-append (rw cons-append refl)
print-filled i c (a ∷ k) v List.[] = rw cons-append refl
print-filled i c (a ∷ k) v (List.◌∷◌ _ d) = rw cons-append (rw cons-append refl)

-- A dict with distinct keys, printed as `key:value` items between item separators, is read back by
-- ParseHWPropertyArgs as it was, in its order: for any two separator characters that differ, and for
-- keys and values that are not empty, have no spaces at their ends and none of the separators.
pub parse-print :
    (item_separator key_value_separator : Char) (d : Dict String)
    → (code key_value_separator == code item_separator) ≡ false
    → All (IsPair item_separator key_value_separator) d
    → NodupKeys d
    → parse_hw_property_args_by
        (code item_separator)
        (code key_value_separator)
        (print_dict item_separator key_value_separator d)
      ≡ ok d
unfolding parse_hw_property_args_by join
parse-print i c List.[] differ h u = refl
parse-print i c (List.◌∷◌ (k, v) d) differ h u = rw (print-filled i c k v d) (
    rw
      (split-join i (print_item i c (k, v)) (List.map (print_item i c) d)
        (print-Lack i c differ (List.◌∷◌ (k, v) d) h))
      (parse_items-print i c (List.◌∷◌ (k, v) d) List.[] h
        ∙ ap ok (store_all-append (List.◌∷◌ (k, v) d) List.[] u (Apart-nil (List.◌∷◌ (k, v) d)))))
