-- ===== src/Memory/Changed.antt =====
-- What a series of stores inside of one region changes: rules for `search`.
use qboot.Base.{
  ◌&&◌, true, false, if◌then◌else◌, zero, suc, ◌==◌, ℕ, ◌+◌, ◌<◌, ◌≤◌, ◌≡◌, ◌∙◌, List, All, Bool,
  length, arith, refl,
}
use qboot.Memory.{Memory, IsBytes, st8, stw_p, stl_p, memset, st_bytes}
use qboot.Memory.Frame.{
  Outside, st8-ne, st8-IsBytes, stw_p-Outside, stw_p-IsBytes, stl_p-Outside, stl_p-IsBytes,
  memset-Outside, memset-IsBytes, st_bytes-Outside, st_bytes-IsBytes,
}

-- From `m` to `g` only the `n` bytes from `p` have changed, and they still are bytes.
pub record Changed (p n : ℕ) (m g : Memory) : Type 0 where
  pub outside : (a : ℕ) → Outside p n a → g a ≡ m a
  pub bytes : IsBytes m → IsBytes g

pub Changed-refl : {p n : ℕ} (m : Memory) → Changed p n m m
Changed-refl m = record { outside = λ a o. refl; bytes = λ b. b }

-- One more store behind others, at `q`.
module _ {p n : ℕ} {m g : Memory} (q : ℕ) where
  pub Changed-st8 :
      (v : ℕ) → p ≤ q → q < p + n → v < 256 → Changed p n m g → Changed p n m (st8 g q v)
  Changed-st8 v h k l c = record {
    outside = λ a o. st8-ne g q v a (ground arith) ∙ c.outside a o;
    bytes = λ b. st8-IsBytes g q v l (c.bytes b);
  }

  pub Changed-stw_p :
      (v : ℕ) → p ≤ q → q + 2 ≤ p + n → Changed p n m g → Changed p n m (stw_p g q v)
  Changed-stw_p v h k c = record {
    outside = λ a o. stw_p-Outside g q v a (ground arith) ∙ c.outside a o;
    bytes = λ b. stw_p-IsBytes g q v (c.bytes b);
  }

  pub Changed-stl_p :
      (v : ℕ) → p ≤ q → q + 4 ≤ p + n → Changed p n m g → Changed p n m (stl_p g q v)
  Changed-stl_p v h k c = record {
    outside = λ a o. stl_p-Outside g q v a (ground arith) ∙ c.outside a o;
    bytes = λ b. stl_p-IsBytes g q v (c.bytes b);
  }

  pub Changed-st_bytes :
      (xs : List ℕ)
      → p ≤ q
      → q + length xs ≤ p + n
      → All (λ x. x < 256) xs
      → Changed p n m g
      → Changed p n m (st_bytes g q xs)
  Changed-st_bytes xs h k l c = record {
    outside = λ a o. st_bytes-Outside g q xs a (ground arith) ∙ c.outside a o;
    bytes = λ b. st_bytes-IsBytes g q xs l (c.bytes b);
  }

  pub Changed-memset :
      (v k : ℕ) → p ≤ q → q + k ≤ p + n → Changed p n m g → Changed p n m (memset g q v k)
  Changed-memset v k h l c = record {
    outside = λ a o. memset-Outside g q v k a (ground arith) ∙ c.outside a o;
    bytes = λ b. memset-IsBytes g q v k (c.bytes b);
  }

pub Changed-if :
    {p n : ℕ} {m g h : Memory} (c : Bool)
    → Changed p n m g
    → Changed p n m h
    → Changed p n m (if c then g else h)
Changed-if true x y = x
Changed-if false x y = y

pub ruleset changes = (
  arith, Changed-st8, Changed-stw_p, Changed-stl_p, Changed-st_bytes, Changed-memset, Changed-refl,
)
