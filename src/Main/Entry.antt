-- ===== src/Main/Entry.antt =====
-- One entry of the memory map: what it holds, and the stores that leave it alone.
use qboot.Base.{ℕ, ◌+◌, ◌^◌, ◌<◌, ◌≤◌, ◌≡◌, ◌∙◌, arith, inl}
use qboot.Memory.{Memory, ldl_p, ldq_p, stl_p, stq_p}
use qboot.Memory.Frame.{Outside, stl_p-Outside, ldl_p-agree}
use qboot.Memory.Wide.{stq_p-Outside, ldq_p-stq_p, ldq_p-agree, ldl_p-stl_p_cut}
use qboot.Main.{st_entry, entry_addr}

-- The entry that stands at `p`.
abbrev pub Holds : Memory → ℕ → (addr size type : ℕ) → Type 0
Holds m p addr size type = (ldq_p m p ≡ addr) × (ldq_p m (p + 8) ≡ size) × (ldl_p m (p + 16) ≡ type)

pub st_entry-Outside :
    (p addr size type a : ℕ) (m : Memory) → Outside p 20 a → st_entry p addr size type m a ≡ m a
unfolding st_entry
st_entry-Outside p addr size type a m o =
    stl_p-Outside (stq_p (stq_p m p addr) (p + 8) size) (p + 16) type a (ground arith)
    ∙ stq_p-Outside (stq_p m p addr) (p + 8) size a (ground arith)
    ∙ stq_p-Outside m p addr a (ground arith)

pub st_entry-Holds :
    (p addr size type : ℕ) (m : Memory)
    → addr < 2 ^ 64
    → size < 2 ^ 64
    → type < 2 ^ 32
    → Holds (st_entry p addr size type m) p addr size type
unfolding st_entry
st_entry-Holds p addr size type m h k l =
    let m1 = stq_p m p addr in
    let m2 = stq_p m1 (p + 8) size in
    let m3 = stl_p m2 (p + 16) type in
    let low = λ (a : ℕ) (o : a < p + 16). stl_p-Outside m2 (p + 16) type a (inl o) in
    (
      ldq_p-agree m2 m3 p (λ a i j. low a (omega arith))
          ∙ ldq_p-agree m1 m2 p (λ a i j. stq_p-Outside m1 (p + 8) size a (inl (omega arith)))
          ∙ ldq_p-stq_p m p addr
          ∙ omega arith,
      ldq_p-agree m2 m3 (p + 8) (λ a i j. low a (omega arith))
          ∙ ldq_p-stq_p m1 (p + 8) size
          ∙ omega arith,
      ldl_p-stl_p_cut m2 (p + 16) type ∙ omega arith,
    )

-- An entry that a change of memory leaves alone.
pub Holds-agree :
    (m g : Memory) (p addr size type : ℕ)
    → ((a : ℕ) → p ≤ a → a < p + 20 → g a ≡ m a)
    → Holds m p addr size type
    → Holds g p addr size type
Holds-agree m g p addr size type h (x, y, z) = (
  ldq_p-agree m g p (λ a k l. h a k (omega arith)) ∙ x,
  ldq_p-agree m g (p + 8) (λ a k l. h a (omega arith) (omega arith)) ∙ y,
  ldl_p-agree m g (p + 16) (λ a k l. h a (omega arith) (omega arith)) ∙ z,
)

-- An entry of the map is kept when a later one is stored.
pub Holds-later :
    (e820 i j : ℕ) (addr size type addr' size' type' : ℕ) (m : Memory)
    → i < j
    → Holds m (entry_addr e820 i) addr size type
    → Holds (st_entry (entry_addr e820 j) addr' size' type' m) (entry_addr e820 i) addr size type
Holds-later e820 i j addr size type addr' size' type' m h =
    let g = st_entry (entry_addr e820 j) addr' size' type' m in
    Holds-agree m g (entry_addr e820 i) addr size type
      (λ a k l. st_entry-Outside (entry_addr e820 j) addr' size' type' a m (inl (omega arith)))
