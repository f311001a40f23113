-- ===== src/Malloc.antt =====
-- malloc.c and the two wrappers of include/string.h: blocks are cut off downwards from the start
-- of the firmware's text, or upwards from the end of its data in the F-segment. Nothing is freed.
pub mod Align
pub mod Blocks
use qboot.Base.{ℕ, ◌+◌, ◌-◌, bit_and, u32, sub32, neg32}
use qboot.Machine.{Fw, pure, ◌>>=◌, ◌>>◌, gets, modify}

-- `(x - n) & -align` and `(x + align - 1) & -align` on `uintptr_t`.
unfoldable pub down : ℕ → ℕ → ℕ → ℕ
down x n align = bit_and (sub32 x n) (neg32 align)

unfoldable pub up : ℕ → ℕ → ℕ
up x align = bit_and (sub32 (u32 (x + align)) 1) (neg32 align)

unfoldable pub malloc_align : ℕ → ℕ → Fw ℕ
unfolding down
malloc_align n align = do
  top ← gets (λ g. g.malloc_top)
  let p = down top n align
  modify (λ g. record g { malloc_top = p })
  pure p

unfoldable pub malloc_fseg_align : ℕ → ℕ → Fw ℕ
unfolding up
malloc_fseg_align n align = do
  base ← gets (λ g. g.fseg_base)
  let p = up base align
  modify (λ g. record g { fseg_base = u32 (p + n) })
  pure p

unfoldable pub malloc : ℕ → Fw ℕ
unfolding malloc_align
malloc n = malloc_align n 16

unfoldable pub malloc_fseg : ℕ → Fw ℕ
unfolding malloc_fseg_align
malloc_fseg n = malloc_fseg_align n 16
