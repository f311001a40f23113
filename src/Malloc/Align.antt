-- ===== src/Malloc/Align.antt =====
-- Rounding by `& -align`, for an alignment that is a power of two.
use qboot.Base.Bits.{bit_and-le}
use native.Mathlib.Nat.{pow-suc, one-le-pow, div-lt_iff_lt-mul, mul-mod_left}
use qboot.Base.{
  ℕ, zero, suc, ◌+◌, ◌-◌, ◌*◌, ◌/◌, ◌%◌, ◌^◌, ◌≤◌, ◌<◌, ◌≡◌, bit_and, sub32, neg32, u32, arith, ap,
}
use qboot.Base.Bits.{bit_and_clear}
use qboot.Malloc.{down, up}

pow-sum : (a b c : ℕ) → a + b ≡ c → 2 ^ a * 2 ^ b ≡ 2 ^ c
pow-sum zero b c e = let same : b ≡ c = omega arith in rw (← same) (omega arith)
pow-sum (suc a) b zero e = absurd (omega arith)
pow-sum (suc a) b (suc c) e =
    let rest = pow-sum a b c (omega arith) in
    omega (arith, pow-suc 2 c, ap (λ (t : ℕ). t * 2 ^ b) (pow-suc 2 a), rest)

pred-mul : (a b : ℕ) → 0 < a → (a - 1) * b + b ≡ a * b
pred-mul zero b h = absurd (omega arith)
pred-mul (suc a) b h = let e : suc a - 1 ≡ a = omega arith in rw e (omega arith)

-- `-(2^k)` as a word: ones from bit `k` up.
neg32-pow : (k w : ℕ) → w + k ≡ 32 → neg32 (2 ^ k) ≡ (2 ^ w - 1) * 2 ^ k
neg32-pow k w e = omega (
  arith,
  pow-sum w k 32 e,
  pred-mul (2 ^ w) (2 ^ k) (one-le-pow w 2 (omega arith)),
  one-le-pow k 2 (omega arith),
)

quotient-lt : (k w x : ℕ) → w + k ≡ 32 → x < 2 ^ 32 → x / 2 ^ k < 2 ^ w
quotient-lt k w x e h =
    (div-lt_iff_lt-mul (one-le-pow k 2 (omega arith))).1 (rw (pow-sum w k 32 e) h)

-- For `k ≤ 32`, masking by `-(2^k)` clears the low `k` bits of a word.
pub bit_and-neg_pow :
    (k x : ℕ) → k ≤ 32 → x < 2 ^ 32 → bit_and x (neg32 (2 ^ k)) ≡ x / 2 ^ k * 2 ^ k
bit_and-neg_pow k x h hx =
    rw (neg32-pow k (32 - k) (omega arith))
      (bit_and_clear k (32 - k) x (quotient-lt k (32 - k) x (omega arith) hx))

round_down : (d x : ℕ) → 0 < d → (x / d * d ≤ x) × (x < x / d * d + d) × (x / d * d % d ≡ 0)
round_down d x h = (grind arith, grind arith, mul-mod_left (x / d) d)

-- A block cut off downwards: aligned, and ending at most `2^k - 1` bytes below the old top.
pub down_lem :
    (k x n : ℕ)
    → k ≤ 32
    → n ≤ x
    → x < 2 ^ 32
    → let p = down x n (2 ^ k) in (p % 2 ^ k ≡ 0) × (p + n ≤ x) × (x < p + n + 2 ^ k)
unfolding down
down_lem k x n h fits hx =
    let cut : sub32 x n ≡ x - n = omega arith in
    rw (cut, bit_and-neg_pow k (x - n) h (omega arith))
      (omega (arith, round_down (2 ^ k) (x - n) (one-le-pow k 2 (omega arith))))

-- A base rounded up: aligned, and at most `2^k - 1` bytes above the old one.
pub up_lem :
    (k x : ℕ)
    → k ≤ 32
    → x + 2 ^ k ≤ 2 ^ 32
    → let p = up x (2 ^ k) in (p % 2 ^ k ≡ 0) × (x ≤ p) × (p < x + 2 ^ k)
unfolding up
up_lem k x h fits =
    let pos : 0 < 2 ^ k = one-le-pow k 2 (omega arith) in
    let cut : sub32 (u32 (x + 2 ^ k)) 1 ≡ x + 2 ^ k - 1 = omega arith in
    rw (cut, bit_and-neg_pow k (x + 2 ^ k - 1) h (omega arith))
      (omega (arith, round_down (2 ^ k) (x + 2 ^ k - 1) pos))

pub up-lt : (x align : ℕ) → up x align < 2 ^ 32
unfolding up
up-lt x align = omega (arith, bit_and-le (sub32 (u32 (x + align)) 1) (neg32 align))
