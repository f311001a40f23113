-- ===== src/Pci/Bios32.antt =====
-- The BIOS32 service directory: its checksum and its contents.
use qboot.Base.{ℕ, zero, suc, ◌+◌, ◌%◌, ◌≤◌, ◌≡◌, ◌≢◌, refl, arith, ◌∙◌, sub8, [], ◌∷◌, ◌<◌, ap}
use qboot.Memory.{Memory, IsBytes, sum_at, st8, stl_p, st_bytes}
use qboot.Memory.Frame.{
  st8_self, st8-ne, st8-IsBytes, st_bytes-IsBytes, stl_p-IsBytes, memset-IsBytes, memset-inside,
  sum_at-agree, sum_at-append,
}
use qboot.Pci.{subtract_loop, directory, write_bios32}

subtract_loop-ne : (p n i : ℕ) (m : Memory) (a : ℕ) → a ≢ p + 10 → subtract_loop p n i m a ≡ m a
unfolding subtract_loop
subtract_loop-ne p zero i m a h = refl
subtract_loop-ne p (suc n) i m a h =
    subtract_loop-ne p n (suc i) (st8 m (p + 10) (sub8 (m (p + 10)) (m (p + i)))) a h
    ∙ st8-ne m (p + 10) (sub8 (m (p + 10)) (m (p + i))) a (λ e. h (omega arith))

-- The byte at `p + 10` loses the `n` bytes from `p + i`, modulo 256.
subtract_loop_self :
    (p n i : ℕ) (m : Memory)
    → i + n ≤ 10
    → IsBytes m
    → (subtract_loop p n i m (p + 10) + sum_at m (p + i) n) % 256 ≡ m (p + 10) % 256
unfolding subtract_loop
subtract_loop_self p zero i m h bytes = omega arith
subtract_loop_self p (suc n) i m h bytes =
    let v = sub8 (m (p + 10)) (m (p + i)) in
    let m' = st8 m (p + 10) v in
    let next : suc (p + i) ≡ p + suc i = omega arith in
    rw next (
      omega (
        arith,
        subtract_loop_self p n (suc i) m' (omega arith)
            (st8-IsBytes m (p + 10) v (omega arith) bytes),
        st8_self m (p + 10) v,
        sum_at-agree m' m (p + suc i) n (λ a k l. st8-ne m (p + 10) v a (omega arith)),
        bytes (p + 10),
        bytes (p + i),
      ))

pub directory-IsBytes : (p entry : ℕ) (m : Memory) → IsBytes m → IsBytes (directory p entry m)
unfolding directory
directory-IsBytes p entry m b =
    let m1 = st_bytes m p (b'_' ∷ b'3' ∷ b'2' ∷ b'_' ∷ []) in
    let b1 : IsBytes m1 = st_bytes-IsBytes m p _ (omega arith) b in
    let m2 = stl_p m1 (p + 4) entry in
    let b2 : IsBytes m2 = stl_p-IsBytes m1 (p + 4) entry b1 in
    let b3 = st8-IsBytes m2 (p + 8) 0 (omega arith) b2 in
    let b4 = st8-IsBytes (st8 m2 (p + 8) 0) (p + 9) 1 (omega arith) b3 in
    memset-IsBytes (st8 (st8 m2 (p + 8) 0) (p + 9) 1) (p + 10) 0 6 b4

-- Bytes 10 to 15 are cleared.
directory-tail :
    (p entry : ℕ) (m : Memory) (a : ℕ) → p + 10 ≤ a → a < p + 16 → directory p entry m a ≡ 0
unfolding directory
directory-tail p entry m a h k =
    memset-inside
      (st8 (st8 (stl_p (st_bytes m p (b'_' ∷ b'3' ∷ b'2' ∷ b'_' ∷ [])) (p + 4) entry) (p + 8) 0)
        (p + 9) 1)
      (p + 10) 0 6 a h (omega arith)

-- The finished directory differs from the prepared one in the checksum only.
write_bios32-ne :
    (p entry : ℕ) (m : Memory) (a : ℕ)
    → a ≢ p + 10
    → write_bios32 p entry m a ≡ directory p entry m a
unfolding write_bios32
write_bios32-ne p entry m a h = subtract_loop-ne p 10 0 (directory p entry m) a h

write_bios32-checksum :
    (p entry : ℕ) (m : Memory)
    → IsBytes m
    → (write_bios32 p entry m (p + 10) + sum_at (directory p entry m) p 10) % 256 ≡ 0
unfolding write_bios32
write_bios32-checksum p entry m b =
    let d = directory p entry m in
    let start : p + 0 ≡ p = omega arith in
    omega (
      arith,
      subtract_loop_self p 10 0 d (omega arith) (directory-IsBytes p entry m b),
      ap (λ (q : ℕ). sum_at d q 10) start,
      directory-tail p entry m (p + 10) (omega arith) (omega arith),
    )

write_bios32-tail :
    (p entry : ℕ) (m : Memory) (a : ℕ) → p + 11 ≤ a → a < p + 16 → write_bios32 p entry m a ≡ 0
write_bios32-tail p entry m a h k =
    write_bios32-ne p entry m a (λ e. omega arith)
    ∙ directory-tail p entry m a (omega arith) (omega arith)

-- In a memory of bytes, the sixteen bytes of the BIOS32 service directory add up to 0 modulo 256,
-- as its checksum is meant to make them, wherever the entry point lies.
pub write_bios32-sum :
    (p entry : ℕ) (m : Memory) → IsBytes m → sum_at (write_bios32 p entry m) p 16 % 256 ≡ 0
write_bios32-sum p entry m b =
    let w = write_bios32 p entry m in
    let d = directory p entry m in
    omega (
      arith,
      sum_at-append w p 10 6,
      sum_at-agree w d p 10 (λ a h k. write_bios32-ne p entry m a (λ e. omega arith)),
      write_bios32-checksum p entry m b,
      sum_at-agree w (λ _. 0) (suc (p + 10)) 5
          (λ a h k. write_bios32-tail p entry m a (omega arith) (omega arith)),
    )
