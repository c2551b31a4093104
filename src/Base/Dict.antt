-- ===== src/Base/Dict.antt =====
-- Python's `dict` with text keys, in insertion order. Proofs elsewhere go by the laws.
use text.Mathlib.TextEquality.{eq_iff}
use Prim.Native.String.{String}
use mathlib.Core.Path.{◌≡◌, refl}
use mathlib.Core.Bool.{Bool, false, ◌||◌}
use mathlib.Core.List.{List, [], ◌∷◌}
use mathlib.Core.Option.{Option, none, some}
use native.Mathlib.Omega.{arith}
use tools_acloud.Base.Tests.{str_eq, if◌then◌else◌, is_some}

abbrev pub Dict {ℓ} : Type ℓ → Type ℓ
Dict V = List (String × V)

-- `x in xs`
abbrev pub mem : String → List String → Bool
mem k [] = false
mem k (j ∷ xs) = str_eq j k || mem k xs

module _ {ℓ} {V : Type ℓ} where
  -- `d.get(k)`
  unfoldable pub lookup : String → Dict V → Option V
  lookup k [] = none
  lookup k ((j, v) ∷ d) = if str_eq j k then some v else lookup k d

  -- `d[k] = v`: the entry of a present key keeps its place.
  unfoldable pub insert : String → V → Dict V → Dict V
  insert k v [] = (k, v) ∷ []
  insert k v ((j, w) ∷ d) = if str_eq j k then (j, v) ∷ d else (j, w) ∷ insert k v d

  -- `d.update(e)`
  unfoldable pub update : Dict V → Dict V → Dict V
  update d [] = d
  update d ((k, v) ∷ e) = update (insert k v d) e

  unfoldable pub keys : Dict V → List String
  keys [] = []
  keys ((k, _) ∷ d) = k ∷ keys d

  -- A real dict has one entry to a key.
  abbrev pub NodupKeys : Dict V → Type 0
  NodupKeys [] = Unit
  NodupKeys ((k, _) ∷ d) = (is_some (lookup k d) ≡ false) × NodupKeys d

  pub lookup-nil : (k : String) → lookup k [] ≡ none
  unfolding lookup
  lookup-nil k = refl

  pub lookup-cons :
      (j k : String) (v : V) (d : Dict V)
      → lookup j ((k, v) ∷ d) ≡ (if str_eq k j then some v else lookup j d)
  unfolding lookup
  lookup-cons j k v d = refl

  pub lookup-insert :
      (j k : String) (v : V) (d : Dict V)
      → lookup j (insert k v d) ≡ (if str_eq k j then some v else lookup j d)
  unfolding lookup insert
  lookup-insert j k v [] = refl
  lookup-insert j k v ((i, w) ∷ d) =
      ground (arith, eq_iff k j, eq_iff i k, eq_iff i j, lookup-insert j k v d)

  pub insert-NodupKeys : (k : String) (v : V) (d : Dict V) → NodupKeys d → NodupKeys (insert k v d)
  unfolding insert lookup
  insert-NodupKeys k v [] h = (refl, tt)
  insert-NodupKeys k v ((j, w) ∷ d) h =
      ground (arith, insert-NodupKeys k v d h.1, lookup-insert j k v d, eq_iff j k, eq_iff k j)

  -- What an update leaves: the last entry of the key in `e`, or else the entry of `d`.
  pub lookup-update_absent :
      (j : String) (d e : Dict V) → lookup j e ≡ none → lookup j (update d e) ≡ lookup j d
  unfolding update lookup
  lookup-update_absent j d [] h = refl
  lookup-update_absent j d ((k, v) ∷ e) h =
      ground (arith, lookup-update_absent j (insert k v d) e, lookup-insert j k v d)

  pub lookup-update :
      (j : String) (v : V) (d e : Dict V)
      → NodupKeys e
      → lookup j e ≡ some v
      → lookup j (update d e) ≡ some v
  unfolding update lookup
  lookup-update j v d [] u h = cc
  lookup-update j v d ((k, w) ∷ e) u h = ground (
    arith,
    lookup-update j v (insert k w d) e u.1,
    lookup-update_absent j (insert k w d) e,
    lookup-insert j k w d,
    eq_iff k j,
  )

  pub update-NodupKeys : (d e : Dict V) → NodupKeys d → NodupKeys (update d e)
  unfolding update
  update-NodupKeys d [] h = h
  update-NodupKeys d ((k, v) ∷ e) h = update-NodupKeys (insert k v d) e (insert-NodupKeys k v d h)
