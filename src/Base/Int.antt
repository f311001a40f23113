-- ===== src/Base/Int.antt =====
-- The integers that a comparison or a conversion returns, over the native numbers.
use Prim.Native.Nat.{ℕ, zero, suc, ◌+◌, ◌-◌}
use qboot.Base.Tests.{ltb, leb, if◌then◌else◌}

-- `negsuc n` is -(n + 1).
pub data ℤ : Type 0 where
  pos : ℕ → ℤ
  negsuc : ℕ → ℤ

abbrev pub neg : ℤ → ℤ
neg (pos zero) = pos zero
neg (pos (suc n)) = negsuc n
neg (negsuc n) = pos (suc n)

-- `a - b` of two natural numbers.
abbrev pub sub_ℕ : ℕ → ℕ → ℤ
sub_ℕ a b = if leb b a then pos (a - b) else negsuc (b - a - 1)

-- A byte read as the signed `char` of x86: `p - q` for chars goes by `char_sub`.
abbrev pub char_bias : ℕ → ℕ
char_bias c = if ltb c 128 then c + 256 else c

abbrev pub char_sub : ℕ → ℕ → ℤ
char_sub a b = sub_ℕ (char_bias a) (char_bias b)
