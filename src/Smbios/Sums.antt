-- ===== src/Smbios/Sums.antt =====
-- The two checksums of the SMBIOS entry point.
use qboot.Base.{ℕ, ◌+◌, ◌-◌, ◌%◌, ◌<◌, ◌≤◌, ◌≡◌, ◌∙◌, arith, sub8, sub32, inr, ap}
use qboot.Memory.{Memory, IsBytes, sum_at, st8}
use qboot.Memory.Frame.{st8-ne, st8-IsBytes, sum_at-st8, sum_at-st8-Outside}
use qboot.CString.{csum8}
use qboot.CString.Checksum.{csum8-sum}
use qboot.Smbios.{sum_entry_point}

-- A byte of a region that loses the sum of the region makes the sum 0.
sum-zero :
    (m : Memory) (p n q : ℕ)
    → IsBytes m
    → p ≤ q
    → q < p + n
    → sum_at (st8 m q (sub8 (m q) (csum8 m p n))) p n % 256 ≡ 0
sum-zero m p n q b h k =
    omega (arith, csum8-sum m p n, sum_at-st8 m p n q (sub8 (m q) (csum8 m p n)) h k, b q)

-- In a memory of bytes, for a length of at least 22, which puts the second checksum inside of the
-- part that it covers, the first 16 bytes and the rest of the entry point both add up to 0 modulo
-- 256.
pub sum_entry_point-sum :
    (ep : ℕ) (m : Memory)
    → IsBytes m
    → 22 ≤ m (ep + 5)
    → let g = sum_entry_point ep m in
      (sum_at g ep 16 % 256 ≡ 0) × (sum_at g (ep + 16) (g (ep + 5) - 16) % 256 ≡ 0)
unfolding sum_entry_point
sum_entry_point-sum ep m b h =
    let v = sub8 (m (ep + 4)) (csum8 m ep 16) in
    let m1 = st8 m (ep + 4) v in
    let b1 = st8-IsBytes m (ep + 4) v (omega arith) b in
    let n = sub32 (m1 (ep + 5)) 16 in
    let w = sub8 (m1 (ep + 21)) (csum8 m1 (ep + 16) n) in
    let g = st8 m1 (ep + 21) w in
    let length : m1 (ep + 5) ≡ m (ep + 5) = st8-ne m (ep + 4) v (ep + 5) (λ e. omega arith) in
    let kept : g (ep + 5) ≡ m1 (ep + 5) = st8-ne m1 (ep + 21) w (ep + 5) (λ e. omega arith) in
    let rest : g (ep + 5) - 16 ≡ n = omega (arith, length, kept, b (ep + 5)) in
    (
      omega (
        arith,
        sum_at-st8-Outside m1 ep 16 (ep + 21) w (inr (omega arith)),
        sum-zero m ep 16 (ep + 4) b (omega arith) (omega arith),
      ),
      ap (λ (k : ℕ). sum_at g (ep + 16) k % 256) rest
          ∙ sum-zero m1 (ep + 16) n (ep + 21) b1 (omega arith) (omega (arith, length, b (ep + 5))),
    )
