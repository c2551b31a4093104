-- ===== src/Compute/Keys/Added.antt =====
-- What the metadata say once a key has been added.
use Prim.Native.Char.{Char}
use Prim.Native.String.{◌∷◌, []}
use text.Mathlib.TextLemmas.{cons-append, nil-append, append-nil}
use text.Mathlib.TextPositions.{starts_with-append}
use mathlib.Core.List.{List}
use mathlib.Core.Option.{some}
use tools_acloud.Base.Dict.{lookup, insert, lookup-insert}
use tools_acloud.Compute.Keys.{
  Item, rsa_not_in_metadata, joined, metadata_key, metadata_key_value, ssh_keys_name, item_value,
  with_key, has_entry, items_after, updated_items, item_first, with_value, is_ssh_key,
}
use tools_acloud.Exec.{Result, ok, err}
use mathlib.Core.Path.{◌≡◌, refl, ap, ◌∙◌, sym}
use mathlib.Core.Bool.{true, false, Bool, ◌||◌}
use tools_acloud.Base.{String, Bool-cases, inl, inr, str_eq, Option, if◌then◌else◌, none}
use tools_acloud.Base.Text.{◌<>◌, is_empty, contains_text}
use package.text.Mathlib.Text.{starts_with}

-- A text that starts with another contains it.
contains_text-starts :
    (e : String) (c : Char) (s : String)
    → starts_with (c ∷ s) e ≡ true
    → contains_text e (c ∷ s) ≡ true
unfolding contains_text
contains_text-starts e c s h = rw h refl

contains_text_self : (e : String) → contains_text e e ≡ true
unfolding contains_text
contains_text_self [] = refl
contains_text_self (c ∷ e) =
    contains_text-starts (c ∷ e) c e
      (ap (λ t. starts_with t (c ∷ e)) (sym (append-nil (c ∷ e))) ∙ starts_with-append (c ∷ e) [])

or_true : (b : Bool) → (b || true) ≡ true
or_true true = refl
or_true false = refl

contains_text-after : (e s t : String) → contains_text e t ≡ true → contains_text e (s <> t) ≡ true
unfolding contains_text
contains_text-after e [] t h = ap (contains_text e) (nil-append t) ∙ h
contains_text-after e (c ∷ s) t h =
    ap (contains_text e) (cons-append c s t) ∙ rw (contains_text-after e s t h) (or_true _)

joined-contains :
    (value entry : String)
    → is_empty entry ≡ false
    → contains_text entry (joined value entry) ≡ true
unfolding joined
joined-contains value entry full = elim (Bool-cases (is_empty value)) [
  | inl y ↦ rw y (contains_text_self entry)
  | inr n ↦ rw n (
      rw full (
        contains_text-after entry value ("\n" <> entry)
          (contains_text-after entry "\n" entry (contains_text_self entry))))
]

-- The items of metadata that have been updated have the entry.
abbrev pub HasRsa : String → Result (List Item) → Type 0
HasRsa entry (ok items) = rsa_not_in_metadata items entry ≡ ok false
HasRsa entry (err e) = ⊥

-- The tests of an item that has the entry.
changed-found :
    (entry : String) (item : Item) (value : String) (rest : Result Bool) (key : String)
    → is_empty entry ≡ false
    → str_eq key ssh_keys_name ≡ true
    → lookup metadata_key item ≡ some key
    → with_key
        (item_value metadata_key
          (lookup metadata_key (insert metadata_key_value (joined value entry) item)))
        (insert metadata_key_value (joined value entry) item)
        entry
        rest
      ≡ ok false
unfolding with_key has_entry item_value lookup
changed-found entry item value rest key full is h =
    rw (lookup-insert metadata_key metadata_key_value (joined value entry) item) (
      rw h (
        rw is (
          rw (lookup-insert metadata_key_value metadata_key_value (joined value entry) item)
            (rw (joined-contains value entry full) refl))))

with_ssh_key :
    (entry : String) (item : Item) (items : List Item) (key : String)
    → is_empty entry ≡ false
    → str_eq key ssh_keys_name ≡ true
    → lookup metadata_key item ≡ some key
    → (v : Option String)
    → has_entry (item_value metadata_key_value v) entry (rsa_not_in_metadata items entry) ≡ ok true
    → HasRsa entry (item_first items (with_value item entry (item_value metadata_key_value v)))
unfolding has_entry item_value item_first with_value rsa_not_in_metadata
with_ssh_key entry item items key full is h none e = absurd (cc)
with_ssh_key entry item items key full is h (some v) e =
    changed-found entry item v (rsa_not_in_metadata items entry) key full is h

after_other :
    (entry : String) (item : Item) (key : String)
    → str_eq key ssh_keys_name ≡ false
    → lookup metadata_key item ≡ some key
    → (x : Result (List Item)) → HasRsa entry x
    → HasRsa entry (items_after item x)
unfolding items_after rsa_not_in_metadata with_key item_value
after_other entry item key is h (ok items) has = rw h (rw is has)
after_other entry item key is h (err e) has = has

-- Where RsaNotInMetadata says that the entry, a text that is not empty, is not in the metadata, then
-- UpdateRsaInMetadata makes metadata of which it says that the entry is in them, and does not raise.
pub updated_items-HasRsa :
    (entry : String) (items : List Item)
    → is_empty entry ≡ false
    → rsa_not_in_metadata items entry ≡ ok true
    → HasRsa entry (updated_items entry items)
unfolding updated_items rsa_not_in_metadata with_key has_entry item_value lookup
updated_items-HasRsa entry List.[] full e = rw (contains_text_self entry) refl
updated_items-HasRsa entry (List.◌∷◌ item items) full e =
    by_key (lookup metadata_key item) refl e (updated_items-HasRsa entry items full)
  where
    by_key :
        (k : Option String)
        → lookup metadata_key item ≡ k
        → with_key (item_value metadata_key k) item entry (rsa_not_in_metadata items entry)
          ≡ ok true
        → (rsa_not_in_metadata items entry ≡ ok true → HasRsa entry (updated_items entry items))
        → HasRsa entry (
            if is_ssh_key k
            then item_first items (
                with_value item entry
                  (item_value metadata_key_value (lookup metadata_key_value item)))
            else items_after item (updated_items entry items))
    by_key none h missing rest = absurd (cc)
    by_key (some key) h missing rest = elim (Bool-cases (str_eq key ssh_keys_name)) [
      | inl y ↦ rw y (
          with_ssh_key entry item items key full y h (lookup metadata_key_value item)
            (rw y at missing))
      | inr n ↦
          rw n (after_other entry item key n h (updated_items entry items) (rest (rw n at missing)))
    ]
