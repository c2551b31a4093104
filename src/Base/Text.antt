-- ===== src/Base/Text.antt =====
-- Python's text operations that the program uses, over the native `String`.
pub mod Split
pub mod Digits
use package.text.Mathlib.Text
use Prim.Native.Char.{Char, code}
use Prim.Native.String.{[], ◌∷◌, ◌++◌}
use tools_acloud.Base.Tests.{ltb, leb, ◌==◌, if◌then◌else◌}
use Prim.Native.Nat.{ℕ, zero, suc, ◌+◌, ◌*◌, ◌-◌, ◌/◌, ◌%◌}
use Prim.Native.String.{String}
use mathlib.Core.Bool.{Bool, true, false, not, ◌&&◌, ◌||◌}
use mathlib.Core.Option.{Option, none, some}
use mathlib.Core.List.{List}

-- `a + b`
infixr 65 ◌<>◌
abbrev pub ◌<>◌ : String → String → String
a <> b = a ++ b

-- `bool(s)` negated: the empty text.
abbrev pub is_empty : String → Bool
is_empty [] = true
is_empty (c ∷ s) = false

-- The characters that `str.strip` removes.
abbrev pub is_space : ℕ → Bool
is_space c =
    (leb 9 c && leb c 13)
    || (leb 28 c && leb c 32)
    || c == 0x85
    || c == 0xa0
    || c == 0x1680
    || (leb 0x2000 c && leb c 0x200a)
    || c == 0x2028
    || c == 0x2029
    || c == 0x202f
    || c == 0x205f
    || c == 0x3000

-- An ASCII digit.
abbrev pub is_digit : ℕ → Bool
is_digit c = leb 48 c && leb c 57

-- `s.lstrip()`
unfoldable pub lstrip : String → String
lstrip [] = []
lstrip (c ∷ s) = let rest = lstrip s in if is_space (code c) then rest else c ∷ s

-- `s.rstrip()`
unfoldable pub rstrip : String → String
rstrip [] = []
rstrip (c ∷ s) = let rest = rstrip s in if is_space (code c) && is_empty rest then [] else c ∷ rest

-- `s.strip()`
unfoldable pub strip : String → String
unfolding lstrip rstrip
strip s = rstrip (lstrip s)

-- `sep in s`, for one character.
unfoldable pub contains_char : ℕ → String → Bool
contains_char sep [] = false
contains_char sep (c ∷ s) = code c == sep || contains_char sep s

push_char : Char → List String → List String
push_char c List.[] = List.◌∷◌ (c ∷ []) List.[]
push_char c (List.◌∷◌ w ws) = List.◌∷◌ (c ∷ w) ws

-- `s.split(sep)`, for one character.
unfoldable pub split : ℕ → String → List String
unfolding push_char
split sep [] = List.◌∷◌ [] List.[]
split sep (c ∷ s) =
    let rest = split sep s in if code c == sep then List.◌∷◌ [] rest else push_char c rest

split_spaces : String → List String
unfolding push_char
split_spaces [] = List.◌∷◌ [] List.[]
split_spaces (c ∷ s) =
    let rest = split_spaces s in if is_space (code c) then List.◌∷◌ [] rest else push_char c rest

drop_empty : List String → List String
drop_empty List.[] = List.[]
drop_empty (List.◌∷◌ w ws) =
    let rest = drop_empty ws in if is_empty w then rest else List.◌∷◌ w rest

-- `s.split()`
unfoldable pub words : String → List String
unfolding split_spaces drop_empty
words s = drop_empty (split_spaces s)

-- `sep.join(words)`
unfoldable pub join : String → List String → String
join sep List.[] = []
join sep (List.◌∷◌ w List.[]) = w
join sep (List.◌∷◌ w (List.◌∷◌ v ws)) = w <> sep <> join sep (List.◌∷◌ v ws)

-- The longest prefix of digits, and what follows it.
pub record Span : Type 0 where
  pub digits : String
  pub rest : String

unfoldable pub span_digits : String → Span
span_digits [] = record { digits = []; rest = [] }
span_digits (c ∷ s) =
    let more = span_digits s in
    if is_digit (code c)
    then record { digits = c ∷ more.digits; rest = more.rest }
    else record { digits = []; rest = c ∷ s }

unfoldable pub int_from : ℕ → String → ℕ
int_from n [] = n
int_from n (c ∷ s) = int_from (n * 10 + (code c - 48)) s

-- `int(s)`, for a text of digits.
unfoldable pub int : String → ℕ
unfolding int_from
int s = int_from 0 s

-- Does `$` of a regular expression match here: at the end, or before a newline that ends the text?
abbrev pub at_end : String → Bool
at_end [] = true
at_end (c ∷ s) = code c == 10 && is_empty s

unfoldable pub digit : ℕ → String
digit d =
    if d == 0
    then "0"
    else if d == 1
    then "1"
    else if d == 2
    then "2"
    else if d == 3
    then "3"
    else if d == 4
    then "4"
    else if d == 5
    then "5"
    else if d == 6
    then "6"
    else if d == 7
    then "7"
    else if d == 8
    then "8"
    else "9"

-- The fuel is above the number of digits, since each round divides by ten.
unfoldable pub print_from : ℕ → ℕ → String → String
print_from zero n out = out
print_from (suc fuel) n out =
    let out' = digit (n % 10) <> out in
    let rest = print_from fuel (n / 10) out' in if ltb n 10 then out' else rest

-- `str(n)` and `"%d" % n`
unfoldable pub str : ℕ → String
unfolding print_from digit
str n = print_from (suc n) n []

-- `needle in s`
unfoldable pub contains_text : String → String → Bool
contains_text needle [] = is_empty needle
contains_text needle (c ∷ s) = Text.starts_with (c ∷ s) needle || contains_text needle s

ends_with_slash : String → Bool
ends_with_slash [] = false
ends_with_slash (c ∷ s) = let rest = ends_with_slash s in (code c == 47 && is_empty s) || rest

-- `os.path.join(a, b)` on Linux.
unfoldable pub path_join : String → String → String
unfolding ends_with_slash
path_join a b =
    if Text.starts_with b "/"
    then b
    else if is_empty a || ends_with_slash a
    then a <> b
    else a <> "/" <> b

-- What follows the prefix, if the text starts with it.
unfoldable pub strip_prefix : String → String → Option String
strip_prefix [] s = some s
strip_prefix (c ∷ p) [] = none
strip_prefix (c ∷ p) (d ∷ s) =
    let rest = strip_prefix p s in if code c == code d then rest else none

-- The number of a text that is all digits, as the pattern `(\d+)$` matches it.
unfoldable pub number_to_end : String → Option ℕ
unfolding int
number_to_end s =
    let read = span_digits s in
    if is_empty read.digits || not (at_end read.rest) then none else some (int read.digits)
