-- ===== src/Base/Bits.antt =====
-- `&` and `|` of numbers that are cut at the same bit: the operation acts on the high and on the
-- low parts separately. From this, masks are remainders and `|` of disjoint fields is a sum.
use Prim.Native.Nat.{
  ℕ, zero, suc, ◌+◌, ◌-◌, ◌*◌, ◌/◌, ◌%◌, ◌^◌, ◌≤◌, ◌<◌, min, max, bit_and, bit_or, digits, bitwise,
  bit_and-bitwise, bit_or-bitwise,
}
use mathlib.Core.Path.{◌≡◌, refl, ap, ap₂, ◌∙◌, sym}
use native.Mathlib.Nat.{pow-suc, one-le-pow}
use native.Mathlib.Omega.{arith}

-- The recursion on binary digits does not depend on its fuel, once that suffices.
digits-fuel :
    (z : ℕ → ℕ) (f : ℕ → ℕ → ℕ) (m n a b : ℕ) → a ≤ m → a ≤ n → digits z f m a b ≡ digits z f n a b
digits-fuel z f m n zero b p q = zero_case m n
  where
    zero_case : (m n : ℕ) → digits z f m 0 b ≡ digits z f n 0 b
    zero_case zero zero = refl
    zero_case zero (suc n) = refl
    zero_case (suc m) zero = refl
    zero_case (suc m) (suc n) = refl
digits-fuel z f zero n (suc a) b p q = absurd (omega arith)
digits-fuel z f (suc m) zero (suc a) b p q = absurd (omega arith)
digits-fuel z f (suc m) (suc n) (suc a) b p q =
    ap (λ t. t * 2 + f (suc a % 2) (b % 2))
      (digits-fuel z f m n (suc a / 2) (b / 2) (omega arith) (omega arith))

bitwise-lowest :
    (z : ℕ → ℕ) (f : ℕ → ℕ → ℕ) (a b : ℕ)
    → bitwise z f (suc a) b ≡ bitwise z f (suc a / 2) (b / 2) * 2 + f (suc a % 2) (b % 2)
bitwise-lowest z f a b =
    ap (λ t. t * 2 + f (suc a % 2) (b % 2))
      (digits-fuel z f a (suc a / 2) (suc a / 2) (b / 2) (omega arith) (omega arith))

bit_and-lowest : (a b : ℕ) → bit_and a b ≡ bit_and (a / 2) (b / 2) * 2 + min (a % 2) (b % 2)
bit_and-lowest zero b = omega (arith, bit_and-bitwise 0 b, bit_and-bitwise 0 (b / 2))
bit_and-lowest (suc a) b =
    bit_and-bitwise (suc a) b
    ∙ bitwise-lowest (λ y. 0) min a b
    ∙ ap (λ t. t * 2 + min (suc a % 2) (b % 2)) (sym (bit_and-bitwise (suc a / 2) (b / 2)))

bit_or-lowest : (a b : ℕ) → bit_or a b ≡ bit_or (a / 2) (b / 2) * 2 + max (a % 2) (b % 2)
bit_or-lowest zero b = omega (arith, bit_or-bitwise 0 b, bit_or-bitwise 0 (b / 2))
bit_or-lowest (suc a) b =
    bit_or-bitwise (suc a) b
    ∙ bitwise-lowest (λ y. y) max a b
    ∙ ap (λ t. t * 2 + max (suc a % 2) (b % 2)) (sym (bit_or-bitwise (suc a / 2) (b / 2)))

double-pow : (q k : ℕ) → q * 2 ^ suc k ≡ 2 * (q * 2 ^ k)
double-pow q k = omega (arith, ap (λ (t : ℕ). q * t) (pow-suc 2 k))

-- A number cut at bit 0 is its high part, and a cut one bit further up is a cut of its half.
cut-zero : (p r : ℕ) → r < 2 ^ 0 → p * 2 ^ 0 + r ≡ p
cut-zero p r h = omega arith

cut-half : (k p r : ℕ) → (p * 2 ^ suc k + r) / 2 ≡ p * 2 ^ k + r / 2
cut-half k p r = omega (arith, double-pow p k)

cut-parity : (k p r : ℕ) → (p * 2 ^ suc k + r) % 2 ≡ r % 2
cut-parity k p r = omega (arith, double-pow p k)

half-lt : (k r : ℕ) → r < 2 ^ suc k → r / 2 < 2 ^ k
half-lt k r h = omega (arith, pow-suc 2 k)

-- `&` acts on the parts above and below bit `k` separately.
pub bit_and_split :
    (k p q r s : ℕ)
    → r < 2 ^ k
    → s < 2 ^ k
    → bit_and (p * 2 ^ k + r) (q * 2 ^ k + s) ≡ bit_and p q * 2 ^ k + bit_and r s
bit_and_split zero p q r s hr hs =
    ap₂ bit_and (cut-zero p r hr) (cut-zero q s hs)
    ∙ omega (arith, ap₂ bit_and (zero_of r hr) (zero_of s hs))
  where
    zero_of : (n : ℕ) → n < 2 ^ 0 → n ≡ 0
    zero_of n h = omega arith
bit_and_split (suc k) p q r s hr hs =
    bit_and-lowest (p * 2 ^ suc k + r) (q * 2 ^ suc k + s)
    ∙ rw
        (
          cut-half k p r,
          cut-half k q s,
          cut-parity k p r,
          cut-parity k q s,
          bit_and_split k p q (r / 2) (s / 2) (half-lt k r hr) (half-lt k s hs),
          bit_and-lowest r s,
        )
        (omega (arith, double-pow (bit_and p q) k))

-- `|` acts on the parts above and below bit `k` separately.
pub bit_or_split :
    (k p q r s : ℕ)
    → r < 2 ^ k
    → s < 2 ^ k
    → bit_or (p * 2 ^ k + r) (q * 2 ^ k + s) ≡ bit_or p q * 2 ^ k + bit_or r s
bit_or_split zero p q r s hr hs =
    ap₂ bit_or (cut-zero p r hr) (cut-zero q s hs)
    ∙ omega (arith, ap₂ bit_or (zero_of r hr) (zero_of s hs))
  where
    zero_of : (n : ℕ) → n < 2 ^ 0 → n ≡ 0
    zero_of n h = omega arith
bit_or_split (suc k) p q r s hr hs =
    bit_or-lowest (p * 2 ^ suc k + r) (q * 2 ^ suc k + s)
    ∙ rw
        (
          cut-half k p r,
          cut-half k q s,
          cut-parity k p r,
          cut-parity k q s,
          bit_or_split k p q (r / 2) (s / 2) (half-lt k r hr) (half-lt k s hs),
          bit_or-lowest r s,
        )
        (omega (arith, double-pow (bit_or p q) k))

pub zero-bit_and : (b : ℕ) → bit_and 0 b ≡ 0
zero-bit_and b = bit_and-bitwise 0 b

pub zero-bit_or : (b : ℕ) → bit_or 0 b ≡ b
zero-bit_or b = bit_or-bitwise 0 b

-- `n` bits suffice for the number `n`, which bounds the inductions on digits.
bit_and-zero_below : (n a : ℕ) → a ≤ n → bit_and a 0 ≡ 0
bit_and-zero_below n zero h = refl
bit_and-zero_below zero (suc a) h = absurd (omega arith)
bit_and-zero_below (suc n) (suc a) h =
    omega (arith, bit_and-lowest (suc a) 0, bit_and-zero_below n (suc a / 2) (omega arith))

bit_or-zero_below : (n a : ℕ) → a ≤ n → bit_or a 0 ≡ a
bit_or-zero_below n zero h = refl
bit_or-zero_below zero (suc a) h = absurd (omega arith)
bit_or-zero_below (suc n) (suc a) h =
    omega (arith, bit_or-lowest (suc a) 0, bit_or-zero_below n (suc a / 2) (omega arith))

pub bit_and-zero : (a : ℕ) → bit_and a 0 ≡ 0
bit_and-zero a = bit_and-zero_below a a (omega arith)

pub bit_or-zero : (a : ℕ) → bit_or a 0 ≡ a
bit_or-zero a = bit_or-zero_below a a (omega arith)

-- `k` ones below bit `k`.
bit_and-ones : (k r : ℕ) → r < 2 ^ k → bit_and r (2 ^ k - 1) ≡ r
bit_and-ones zero r h = omega (arith, bit_and-zero r)
bit_and-ones (suc k) r h =
    bit_and-lowest r (2 ^ suc k - 1)
    ∙ rw (halve, bit_and-ones k (r / 2) (half-lt k r h))
        (omega (arith, pow-suc 2 k, one-le-pow k 2))
  where
    halve : (2 ^ suc k - 1) / 2 ≡ 2 ^ k - 1
    halve = omega (arith, pow-suc 2 k, one-le-pow k 2)

pow_pos : (k : ℕ) → 0 < 2 ^ k
pow_pos k = one-le-pow k 2 (omega arith)

-- A number is cut at bit `k` into its quotient and its remainder.
cut : (k a : ℕ) → a ≡ a / 2 ^ k * 2 ^ k + a % 2 ^ k
cut k a = grind (arith, one-le-pow k 2)

low-lt : (k a : ℕ) → a % 2 ^ k < 2 ^ k
low-lt k a = grind (arith, one-le-pow k 2)

no_high : (k r : ℕ) → r ≡ 0 * 2 ^ k + r
no_high k r = omega arith

no_low : (k q : ℕ) → q * 2 ^ k ≡ q * 2 ^ k + 0
no_low k q = omega arith

-- `a & (2^k - 1)` is the remainder.
pub bit_and_mask : (k a : ℕ) → bit_and a (2 ^ k - 1) ≡ a % 2 ^ k
bit_and_mask k a =
    ap₂ bit_and (cut k a) (no_high k (2 ^ k - 1))
    ∙ bit_and_split k (a / 2 ^ k) 0 (a % 2 ^ k) (2 ^ k - 1) (low-lt k a)
        (omega (arith, one-le-pow k 2))
    ∙ rw (bit_and-zero (a / 2 ^ k), bit_and-ones k (a % 2 ^ k) (low-lt k a)) (omega arith)

-- `a & (m << k)` where `m` covers all of `a` above bit `k`: the low bits are cleared.
pub bit_and_clear :
    (k w a : ℕ) → a / 2 ^ k < 2 ^ w → bit_and a ((2 ^ w - 1) * 2 ^ k) ≡ a / 2 ^ k * 2 ^ k
bit_and_clear k w a h =
    ap₂ bit_and (cut k a) (no_low k (2 ^ w - 1))
    ∙ bit_and_split k (a / 2 ^ k) (2 ^ w - 1) (a % 2 ^ k) 0 (low-lt k a) (pow_pos k)
    ∙ rw (bit_and-zero (a % 2 ^ k), bit_and-ones w (a / 2 ^ k) h) (omega arith)

-- `(q << k) | r` is a sum when `r` has `k` bits.
pub bit_or_fields : (k q r : ℕ) → r < 2 ^ k → bit_or (q * 2 ^ k) r ≡ q * 2 ^ k + r
bit_or_fields k q r h =
    ap₂ bit_or (no_low k q) (no_high k r)
    ∙ bit_or_split k q 0 0 r (pow_pos k) h
    ∙ rw (bit_or-zero q, zero-bit_or r) refl

-- The same with the fields in the other order.
pub bit_or_fields_swap : (k q r : ℕ) → r < 2 ^ k → bit_or r (q * 2 ^ k) ≡ q * 2 ^ k + r
bit_or_fields_swap k q r h =
    ap₂ bit_or (no_high k r) (no_low k q)
    ∙ bit_or_split k 0 q r 0 h (pow_pos k)
    ∙ rw (zero-bit_or q, bit_or-zero r) refl

and_below : (n a b : ℕ) → a ≤ n → bit_and a b ≤ a
and_below n zero b h = rw (zero-bit_and b) (omega arith)
and_below zero (suc a) b h = absurd (omega arith)
and_below (suc n) (suc a) b h =
    omega (arith, bit_and-lowest (suc a) b, and_below n (suc a / 2) (b / 2) (omega arith))

pub bit_and-le : (a b : ℕ) → bit_and a b ≤ a
bit_and-le a b = and_below a a b (omega arith)
