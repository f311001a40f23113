-- ===== src/Tables/Checksum.antt =====
-- do_checksum: the range test, and the byte it patches.
use qboot.Base.{ℕ, ◌+◌, ◌%◌, ◌^◌, ◌<◌, ◌≤◌, ◌≡◌, ◌↔◌, false, arith, sub8}
use qboot.Memory.{Memory, IsBytes, sum_at}
use qboot.Memory.Frame.{sum_at-st8}
use qboot.CString.{csum8}
use qboot.CString.Checksum.{csum8-sum}
use qboot.Tables.{checksum_out_of_range, fix_checksum}

-- For a file of less than 2^31 bytes, the test passes exactly when the byte to patch lies in the
-- file of `n` bytes and the summed range does too: no sum of offsets wraps around.
pub checksum_out_of_range_iff :
    (n offset start len : ℕ)
    → n < 2 ^ 31
    → checksum_out_of_range n offset start len ≡ false ↔ (offset < n) × (start + len ≤ n)
unfolding checksum_out_of_range
checksum_out_of_range_iff n offset start len h = (λ e. ground arith, λ k. ground arith)

-- In a memory of bytes, when the byte to patch lies in the summed range, the range adds up to 0
-- modulo 256 afterwards.
pub fix_checksum-sum :
    (p offset start len : ℕ) (m : Memory)
    → IsBytes m
    → start ≤ offset
    → offset < start + len
    → sum_at (fix_checksum p offset start len m) (p + start) len % 256 ≡ 0
unfolding fix_checksum
fix_checksum-sum p offset start len m b h k = omega (
  arith,
  csum8-sum m (p + start) len,
  sum_at-st8 m (p + start) len (p + offset) (sub8 (m (p + offset)) (csum8 m (p + start) len))
      (omega arith) (omega arith),
  b (p + offset),
)
