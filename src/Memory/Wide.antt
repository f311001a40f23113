-- ===== src/Memory/Wide.antt =====
-- Stores and loads of 8 bytes, and loads behind stores that are cut to their width.
use qboot.Base.{ℕ, suc, ap, sym, ◌+◌, ◌/◌, ◌^◌, ◌<◌, ◌≤◌, ◌≡◌, ◌∙◌, arith, inl, u32, u64}
use qboot.Memory.{Memory, BytesIn, ldl_p, ldq_p, stl_p, stq_p, st8, stw_p}
use qboot.Memory.Frame.{Outside, stl_p-Outside, ldl_p-agree}

pub stq_p-Outside : (m : Memory) (p v a : ℕ) → Outside p 8 a → stq_p m p v a ≡ m a
unfolding stq_p
stq_p-Outside m p v a o =
    stl_p-Outside (stl_p m p v) (p + 4) (v / 2 ^ 32) a (ground arith)
    ∙ stl_p-Outside m p v a (ground arith)

pub ldl_p-stl_p_cut : (m : Memory) (p v : ℕ) → ldl_p (stl_p m p v) p ≡ u32 v
unfolding stl_p stw_p st8
ldl_p-stl_p_cut m p v = ground arith

pub ldq_p-stq_p : (m : Memory) (p v : ℕ) → ldq_p (stq_p m p v) p ≡ u64 v
unfolding stq_p
ldq_p-stq_p m p v =
    let m1 = stl_p m p v in
    omega (
      arith,
      ldl_p-stl_p_cut m1 (p + 4) (v / 2 ^ 32),
      ldl_p-stl_p_cut m p v,
      ldl_p-agree m1 (stl_p m1 (p + 4) (v / 2 ^ 32)) p
          (λ a h k. stl_p-Outside m1 (p + 4) (v / 2 ^ 32) a (inl (omega arith))),
    )

pub ldq_p-agree :
    (m g : Memory) (p : ℕ) → ((a : ℕ) → p ≤ a → a < p + 8 → g a ≡ m a) → ldq_p g p ≡ ldq_p m p
ldq_p-agree m g p h = omega (
  arith,
  ldl_p-agree m g p (λ a k l. h a k (omega arith)),
  ldl_p-agree m g (p + 4) (λ a k l. h a (omega arith) (omega arith)),
)

pub ldl_p-lt : (m : Memory) (p : ℕ) → BytesIn p 4 m → ldl_p m p < 2 ^ 32
ldl_p-lt m p b = omega (
  arith,
  b p (omega arith) (omega arith),
  b (suc p) (omega arith) (omega arith),
  b (suc (suc p)) (omega arith) (omega arith),
  b (suc (suc (suc p))) (omega arith) (omega arith),
)

pub ldq_p-lt : (m : Memory) (p : ℕ) → BytesIn p 8 m → ldq_p m p < 2 ^ 64
ldq_p-lt m p b = omega (
  arith,
  ldl_p-lt m p (λ a k l. b a k (omega arith)),
  ldl_p-lt m (p + 4) (λ a k l. b a (omega arith) (omega arith)),
)

-- A word that has been copied reads the same.
pub ldl_p-copied :
    (m g : Memory) (p q : ℕ) → ((i : ℕ) → i < 4 → g (p + i) ≡ m (q + i)) → ldl_p g p ≡ ldl_p m q
ldl_p-copied m g p q h =
    let cell = λ (i : ℕ) (l : i < 4) (x y : ℕ) (ex : p + i ≡ x) (ey : q + i ≡ y).
      ap g (sym ex) ∙ h i l ∙ ap m ey in
    omega (
      arith,
      cell 0 (omega arith) p q (omega arith) (omega arith),
      cell 1 (omega arith) (suc p) (suc q) (omega arith) (omega arith),
      cell 2 (omega arith) (suc (suc p)) (suc (suc q)) (omega arith) (omega arith),
      cell 3 (omega arith) (suc (suc (suc p))) (suc (suc (suc q))) (omega arith) (omega arith),
    )
