-- ===== src/Base/Text/Digits.antt =====
-- A number that is printed is read back.
use Prim.Native.Char.{Char, code}
use Prim.Native.String.{[], ◌∷◌, String}
use Prim.Native.Nat.{ℕ, zero, suc, ◌+◌, ◌*◌, ◌-◌, ◌/◌, ◌%◌, ◌<◌, ◌≤◌}
use text.Mathlib.TextLemmas.{nil-append, cons-append}
use mathlib.Core.Path.{◌≡◌, refl, ap, ◌∙◌}
use mathlib.Core.Bool.{true, false}
use mathlib.Core.Option.{some}
use native.Mathlib.Omega.{arith}
use tools_acloud.Base.Tests.{ltb, Bool-cases, ==_iff, ltb→lt}
use tools_acloud.Base.Text.{
  ◌<>◌, str, print_from, digit, int, int_from, span_digits, is_digit, is_empty, strip_prefix,
  number_to_end,
}
use mathlib.Core.Logic.{inl, inr}

-- A digit below ten is one character, with its value.
digit-code :
    (d : ℕ)
    → d < 10
    → (c : Char) × (digit d ≡ c ∷ []) × (is_digit (code c) ≡ true) × (code c - 48 ≡ d)
unfolding digit
digit-code zero h = ("0", refl, refl, refl)
digit-code (suc zero) h = ("1", refl, refl, refl)
digit-code (suc (suc zero)) h = ("2", refl, refl, refl)
digit-code (suc (suc (suc zero))) h = ("3", refl, refl, refl)
digit-code (suc (suc (suc (suc zero)))) h = ("4", refl, refl, refl)
digit-code (suc (suc (suc (suc (suc zero))))) h = ("5", refl, refl, refl)
digit-code (suc (suc (suc (suc (suc (suc zero)))))) h = ("6", refl, refl, refl)
digit-code (suc (suc (suc (suc (suc (suc (suc zero))))))) h = ("7", refl, refl, refl)
digit-code (suc (suc (suc (suc (suc (suc (suc (suc zero)))))))) h = ("8", refl, refl, refl)
digit-code (suc (suc (suc (suc (suc (suc (suc (suc (suc zero))))))))) h = ("9", refl, refl, refl)
digit-code (suc (suc (suc (suc (suc (suc (suc (suc (suc (suc n)))))))))) h = absurd (omega arith)

abbrev IsDigits : String → Type 0
IsDigits s = span_digits s ≡ record { digits = s; rest = [] }

cons-IsDigits : (c : Char) (s : String) → is_digit (code c) ≡ true → IsDigits s → IsDigits (c ∷ s)
unfolding span_digits
cons-IsDigits c s d h = rw h (rw d refl)

front : (c : Char) (out : String) → (c ∷ []) <> out ≡ c ∷ out
front c out = cons-append c [] out ∙ ap (λ s. c ∷ s) (nil-append out)

-- What is printed in front of `out` is digits, and reads as `n` in front of it.
abbrev Printed : ℕ → String → String → Type 0
Printed n out s = IsDigits s × (int_from 0 s ≡ int_from n out) × (is_empty s ≡ false)

digit-Printed :
    (n : ℕ) (c : Char) (out : String)
    → is_digit (code c) ≡ true
    → code c - 48 ≡ n
    → n < 10
    → IsDigits out
    → Printed n out (c ∷ out)
unfolding int_from
digit-Printed n c out is value small d =
    let e : 0 * 10 + (code c - 48) ≡ n = omega (arith, value) in
    (cons-IsDigits c out is d, ap (λ m. int_from m out) e, refl)

print_from-Printed :
    (fuel n : ℕ) (out : String) → n < fuel → IsDigits out → Printed n out (print_from fuel n out)
unfolding print_from int_from
print_from-Printed zero n out h d = absurd (omega arith)
print_from-Printed (suc fuel) n out h d =
    let (c, one, is, value) = digit-code (n % 10) (omega arith) in
    let put : digit (n % 10) <> out ≡ c ∷ out = ap (λ s. s <> out) one ∙ front c out in
    elim (Bool-cases (ltb n 10)) [
      | inl y ↦
          let small = ltb→lt n 10 y in
          rw y (rw put (digit-Printed n c out is (value ∙ omega arith) small d))
      | inr e ↦
          let big : 10 ≤ n = ground (arith, e) in
          let (digits, reads, some_digit) =
            print_from-Printed fuel (n / 10) (c ∷ out) (omega arith) (cons-IsDigits c out is d) in
          let sum : n / 10 * 10 + (code c - 48) ≡ n = omega (arith, value) in
          rw e (rw put (digits, reads ∙ ap (λ m. int_from m out) sum, some_digit))
    ]

str-Printed : (n : ℕ) → Printed n [] (str n)
unfolding str span_digits
str-Printed n = print_from-Printed (suc n) n [] (omega arith) refl

-- `(\d+)$` and int() read what str() writes.
pub number_to_end-str : (n : ℕ) → number_to_end (str n) ≡ some n
unfolding number_to_end int int_from
number_to_end-str n =
    let (digits, reads, full) = str-Printed n in rw digits (rw full (ap some reads))

pub strip_prefix-append : (p s : String) → strip_prefix p (p <> s) ≡ some s
unfolding strip_prefix
strip_prefix-append [] s = ap (λ t. strip_prefix [] t) (nil-append s)
strip_prefix-append (c ∷ p) s =
    ap (λ t. strip_prefix (c ∷ p) t) (cons-append c p s)
    ∙ rw ((==_iff (code c) (code c)).1 refl) (strip_prefix-append p s)
