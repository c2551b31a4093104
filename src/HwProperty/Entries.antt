-- ===== src/HwProperty/Entries.antt =====
-- What one entry of the hw properties does in _ParseHWPropertyStr: the body of its loop.
use package.text.Mathlib.TextEquality.{eq_iff}
use mathlib.Core.Path.{subst}
use tools_acloud.Constants
use tools_acloud.Base.{
  true, Option, String, List, Bool, ◌≡◌, str_eq, All, is_some, some, ◌∷◌, if◌then◌else◌, false, sym,
  [], none, ◌&&◌, not, Bool-cases, inr, inl, ◌*◌, ◌∙◌, refl,
}
use tools_acloud.HwProperty.{
  parse_property, set_memory, Memory, match_res, set_res, match_memory, gb_size, matches_int,
  mb_size,
}
use tools_acloud.Base.Dict.{lookup, Dict, insert, lookup-insert}
use tools_acloud.Errors.{
  is_instance, is_subclass, is_sub_within, parent, invalid_hw_property_error, exc, tag,
}
use tools_acloud.Exec.{Result, ok, err}
use tools_acloud.Base.Text.{str, int, ◌<>◌}

-- The keys of the parsed properties,
pub data Key : Type 0 where
  x_res y_res memory disk cpu dpi : Key

abbrev pub all_keys : List Key
all_keys = x_res ∷ y_res ∷ memory ∷ disk ∷ cpu ∷ dpi ∷ []

-- their names,
abbrev pub name_of : Key → String
name_of x_res = Constants.hw_x_res
name_of y_res = Constants.hw_y_res
name_of memory = Constants.hw_alias_memory
name_of disk = Constants.hw_alias_disk
name_of cpu = Constants.hw_alias_cpus
name_of dpi = Constants.hw_alias_dpi

-- the key of the text that each comes from,
abbrev pub source_of : Key → String
source_of x_res = Constants.hw_alias_resolution
source_of y_res = Constants.hw_alias_resolution
source_of memory = Constants.hw_alias_memory
source_of disk = Constants.hw_alias_disk
source_of cpu = Constants.hw_alias_cpus
source_of dpi = Constants.hw_alias_dpi

abbrev pub width : Option (String × String) → Option String
width none = none
width (some (x, y)) = some x

abbrev pub height : Option (String × String) → Option String
height none = none
height (some (x, y)) = some y

-- A size in MB.
abbrev pub in_mb : Option Memory → Option String
in_mb none = none
in_mb (some (gb_size n)) = some (str (int n * 1024))
in_mb (some (mb_size n)) = some n

-- and what it is by the value there, if that is allowed.
abbrev pub read_as : Key → String → Option String
read_as x_res value = width (match_res value)
read_as y_res value = height (match_res value)
read_as memory value = in_mb (match_memory value)
read_as disk value = in_mb (match_memory value)
read_as cpu value = if matches_int value then some value else none
read_as dpi value = if matches_int value then some value else none

-- An entry of the text is allowed if every key that comes from it can be read.
abbrev allows : String → String → Key → Bool
allows key value k = if str_eq key (source_of k) then is_some (read_as k value) else true

abbrev pub allowed : String → String → Bool
allowed key value =
    allows key value x_res
    && allows key value y_res
    && allows key value memory
    && allows key value disk
    && allows key value cpu
    && allows key value dpi

abbrev pub from_source : Option String → (String → Option String) → Option String → Option String
from_source none f before = before
from_source (some value) f before = f value

-- What one entry does to the properties so far.
abbrev pub Sets : String → String → Dict String → Result (Dict String) → Type 0
Sets key value d (ok d') =
    (allowed key value ≡ true)
    × All
        (λ k.
          lookup (name_of k) d'
          ≡ (if str_eq key (source_of k) then read_as k value else lookup (name_of k) d))
        all_keys
Sets key value d (err e) =
    (is_instance e invalid_hw_property_error ≡ true) × (allowed key value ≡ false)

-- The keys after an entry has been stored.
stored :
    (key v : String) (d : Dict String)
    → All
        (λ k.
          lookup (name_of k) (insert key v d)
          ≡ (if str_eq key (name_of k) then some v else lookup (name_of k) d))
        all_keys
stored key v d = (
  lookup-insert _ key v d,
  (
    lookup-insert _ key v d,
    (
      lookup-insert _ key v d,
      (lookup-insert _ key v d, (lookup-insert _ key v d, (lookup-insert _ key v d, tt))),
    ),
  ),
)

pub All-zip :
    {A : Type 0} {P Q R : A → Type 0}
    → ((a : A) → P a → Q a → R a)
    → (l : List A) → All P l
    → All Q l
    → All R l
All-zip f [] p q = tt
All-zip f (a ∷ l) (p, ps) (q, qs) = (f a p q, All-zip f l ps qs)

resolution-Sets :
    (value : String) (d : Dict String) (o : Option (String × String))
    → match_res value ≡ o
    → Sets Constants.hw_alias_resolution value d (set_res value o d)
unfolding set_res is_instance is_subclass is_sub_within parent tag
resolution-Sets value d none e = rw e (refl, refl)
resolution-Sets value d (some (x, y)) e =
    let d' = insert Constants.hw_x_res x d in
    let (y1, (y2, (y3, (y4, (y5, (y6, _)))))) = stored Constants.hw_y_res y d' in
    let (x1, (x2, (x3, (x4, (x5, (x6, _)))))) = stored Constants.hw_x_res x d in
    rw e (refl, (y1 ∙ x1, (y2, (y3 ∙ x3, (y4 ∙ x4, (y5 ∙ x5, (y6 ∙ x6, tt)))))))

memory-Sets :
    (value : String) (d : Dict String) (o : Option Memory)
    → match_memory value ≡ o
    → Sets Constants.hw_alias_memory value d (set_memory Constants.hw_alias_memory value o d)
unfolding set_memory is_instance is_subclass is_sub_within parent tag
memory-Sets value d none e = rw e (refl, refl)
memory-Sets value d (some (gb_size n)) e = rw e (refl, stored Constants.hw_alias_memory _ d)
memory-Sets value d (some (mb_size n)) e = rw e (refl, stored Constants.hw_alias_memory n d)

disk-Sets :
    (value : String) (d : Dict String) (o : Option Memory)
    → match_memory value ≡ o
    → Sets Constants.hw_alias_disk value d (set_memory Constants.hw_alias_disk value o d)
unfolding set_memory is_instance is_subclass is_sub_within parent tag
disk-Sets value d none e = rw e (refl, refl)
disk-Sets value d (some (gb_size n)) e = rw e (refl, stored Constants.hw_alias_disk _ d)
disk-Sets value d (some (mb_size n)) e = rw e (refl, stored Constants.hw_alias_disk n d)

-- cpu and dpi.
abbrev set_number : String → String → Bool → Dict String → Result (Dict String)
set_number key value b d =
    if not b
    then err (exc invalid_hw_property_error (key <> " value [" <> value <> "] is not an integer."))
    else ok (insert key value d)

cpu-Sets :
    (value : String) (d : Dict String) (b : Bool)
    → matches_int value ≡ b
    → Sets Constants.hw_alias_cpus value d (set_number Constants.hw_alias_cpus value b d)
unfolding is_instance is_subclass is_sub_within parent tag
cpu-Sets value d false e = rw e (refl, refl)
cpu-Sets value d true e = rw e (refl, stored Constants.hw_alias_cpus value d)

dpi-Sets :
    (value : String) (d : Dict String) (b : Bool)
    → matches_int value ≡ b
    → Sets Constants.hw_alias_dpi value d (set_number Constants.hw_alias_dpi value b d)
unfolding is_instance is_subclass is_sub_within parent tag
dpi-Sets value d false e = rw e (refl, refl)
dpi-Sets value d true e = rw e (refl, stored Constants.hw_alias_dpi value d)

-- An entry of any other key.
other-Sets :
    (key value : String) (d : Dict String)
    → str_eq key Constants.hw_alias_resolution ≡ false
    → str_eq key Constants.hw_alias_memory ≡ false
    → str_eq key Constants.hw_alias_disk ≡ false
    → str_eq key Constants.hw_alias_cpus ≡ false
    → str_eq key Constants.hw_alias_dpi ≡ false
    → Sets key value d (ok d)
other-Sets key value d r m k c p =
    rw r (rw m (rw k (rw c (rw p (refl, (refl, (refl, (refl, (refl, (refl, (refl, tt)))))))))))

str_eq_swap : (a b : String) → str_eq a b ≡ false → str_eq b a ≡ false
str_eq_swap a b h = elim (Bool-cases (str_eq b a)) [
  | inl y ↦ let p : false ≡ true = sym h ∙ (eq_iff a b).1 (sym ((eq_iff b a).0 y)) in absurd (cc)
  | inr n ↦ n
]

pub parse_property-Sets :
    (key value : String) (d : Dict String) → Sets key value d (parse_property key value d)
unfolding parse_property
parse_property-Sets key value d = elim (Bool-cases (str_eq key Constants.hw_alias_resolution)) [
  | inl y ↦ at_key _ y (resolution-Sets value d _ refl)
  | inr r ↦ elim (Bool-cases (str_eq key Constants.hw_alias_memory)) [
    | inl y ↦ at_key _ y (memory-Sets value d _ refl)
    | inr m ↦ elim (Bool-cases (str_eq key Constants.hw_alias_disk)) [
      | inl y ↦ at_key _ y (disk-Sets value d _ refl)
      | inr k ↦ elim (Bool-cases (str_eq key Constants.hw_alias_cpus)) [
        | inl y ↦ at_key _ y (cpu-Sets value d _ refl)
        | inr c ↦ elim (Bool-cases (str_eq key Constants.hw_alias_dpi)) [
          | inl y ↦ at_key _ y (dpi-Sets value d _ refl)
          | inr p ↦
              subst (Sets key value d) (sym (passed r m k c p)) (other-Sets key value d r m k c p)
        ]
      ]
    ]
  ]
]
  where
    at_key :
        (k : String)
        → str_eq key k ≡ true
        → Sets k value d (parse_property k value d)
        → Sets key value d (parse_property key value d)
    at_key k y h =
        subst (λ x. Sets x value d (parse_property x value d)) (sym ((eq_iff key k).0 y)) h

    passed :
        str_eq key Constants.hw_alias_resolution ≡ false
        → str_eq key Constants.hw_alias_memory ≡ false
        → str_eq key Constants.hw_alias_disk ≡ false
        → str_eq key Constants.hw_alias_cpus ≡ false
        → str_eq key Constants.hw_alias_dpi ≡ false
        → parse_property key value d ≡ ok d
    passed r m k c p =
        let m' = str_eq_swap key _ m in
        let k' = str_eq_swap key _ k in
        let c' = str_eq_swap key _ c in
        let p' = str_eq_swap key _ p in rw r (rw m' (rw k' (rw c' (rw p' refl))))
