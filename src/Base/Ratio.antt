-- ===== src/Base/Ratio.antt =====
-- The program's non-negative float constants (such as 1.5) and what it computes of them, exactly,
-- as fractions with a positive denominator.
use Prim.Native.Nat.{ℕ, zero, suc, ◌*◌}
use mathlib.Core.Bool.{Bool}
use tools_acloud.Base.Tests.{◌==◌}

pub record Ratio : Type 0 where
  pub num : ℕ
  pub den : ℕ

abbrev pub of_ℕ : ℕ → Ratio
of_ℕ n = record { num = n; den = 1 }

unfoldable pub mul : Ratio → Ratio → Ratio
mul a b = record { num = a.num * b.num; den = a.den * b.den }

-- `a ** n`
unfoldable pub pow : Ratio → ℕ → Ratio
unfolding mul
pow a zero = of_ℕ 1
pow a (suc n) = mul a (pow a n)

-- `a == 1`
unfoldable pub is_one : Ratio → Bool
is_one a = a.num == a.den
