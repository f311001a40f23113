-- ===== src/CString/Checksum.antt =====
-- csum8: the sum of a region.
use qboot.Base.{ℕ, zero, suc, ◌+◌, ◌%◌, ◌^◌, ◌≡◌, arith}
use qboot.Memory.{Memory, sum_at}
use qboot.CString.{csum8, csum_loop}

csum_loop-sum :
    (m : Memory) (buf len s : ℕ) → csum_loop m buf len s % 256 ≡ (s + sum_at m buf len) % 256
unfolding csum_loop
csum_loop-sum m buf zero s = omega arith
csum_loop-sum m buf (suc len) s =
    omega (arith, csum_loop-sum m (suc buf) len ((s + m buf) % 2 ^ 32))

-- `csum8` returns the sum of the `len` bytes from `buf`, modulo 256.
pub csum8-sum : (m : Memory) (buf len : ℕ) → csum8 m buf len ≡ sum_at m buf len % 256
unfolding csum8
csum8-sum m buf len = omega (arith, csum_loop-sum m buf len 0)
