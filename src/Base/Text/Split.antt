-- ===== src/Base/Text/Split.antt =====
-- `split` undoes `join`.
use Prim.Native.Char.{Char, code}
use Prim.Native.String.{[], ◌∷◌, ◌++◌, String}
use text.Mathlib.TextLemmas.{nil-append, cons-append}
use mathlib.Core.List.{List}
use mathlib.Core.Path.{◌≡◌, refl}
use mathlib.Core.Bool.{false}
use tools_acloud.Base.Tests.{◌==◌, ||-false}
use tools_acloud.Base.Lists.{All}
use tools_acloud.Base.Text.{split, push_char, join, contains_char}
use tools_acloud.Base.{ℕ, ==_iff, is_nil, Bool-cases, inl, inr}

-- A text without the separator is one word.
pub split-word :
    (sep : _) (s : String) → contains_char sep s ≡ false → split sep s ≡ List.◌∷◌ s List.[]
unfolding split contains_char push_char
split-word sep [] h = refl
split-word sep (c ∷ s) h =
    let (ne, rest) = ||-false (code c == sep) (contains_char sep s) h in
    rw ne (rw (split-word sep s rest) refl)

-- The first word ends at the first separator.
pub split-append :
    (d : Char) (s t : String)
    → contains_char (code d) s ≡ false
    → split (code d) (s ++ (d ∷ t)) ≡ List.◌∷◌ s (split (code d) t)
unfolding split contains_char push_char
split-append d [] t h = rw nil-append (rw ((==_iff (code d) (code d)).1 refl) refl)
split-append d (c ∷ s) t h =
    let (ne, rest) = ||-false (code c == code d) (contains_char (code d) s) h in
    rw cons-append (rw ne (rw (split-append d s t rest) refl))

-- None of the words has the character.
abbrev pub Lack : ℕ → List String → Type 0
Lack d = All (λ w. contains_char d w ≡ false)

pub split-join :
    (d : Char) (w : String) (ws : List String)
    → Lack (code d) (List.◌∷◌ w ws)
    → split (code d) (join (d ∷ []) (List.◌∷◌ w ws)) ≡ List.◌∷◌ w ws
unfolding join
split-join d w List.[] h = split-word (code d) w h.0
split-join d w (List.◌∷◌ v ws) h = rw cons-append (
    rw nil-append
      (rw (split-append d w (join (d ∷ []) (List.◌∷◌ v ws)) h.0) (rw (split-join d v ws h.1) refl)))

-- There is always a first word.
pub split-filled : (sep : _) (s : String) → is_nil (split sep s) ≡ false
unfolding split push_char
split-filled sep [] = refl
split-filled sep (c ∷ s) = elim (Bool-cases (code c == sep)) [
  | inl y ↦ rw y refl
  | inr n ↦ rw n (pushed (split sep s))
]
  where
    pushed : (ws : List String) → is_nil (push_char c ws) ≡ false
    pushed List.[] = refl
    pushed (List.◌∷◌ w ws) = refl
