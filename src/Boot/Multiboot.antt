-- ===== src/Boot/Multiboot.antt =====
-- boot_multiboot_from_fw_cfg: the memory map of a multiboot kernel.
use qboot.Base.{ℕ, ◌+◌, ◌≤◌, ◌<◌, ◌≡◌, ◌^◌, ◌∙◌, ap, ap₂, arith, inl, u32}
use qboot.Memory.{Memory, ldl_p, ldq_p, stl_p, stq_p}
use qboot.Memory.Frame.{Outside, stl_p-Outside, ldl_p-agree}
use qboot.Memory.Wide.{stq_p-Outside, ldq_p-stq_p, ldl_p-stl_p_cut, ldq_p-agree}
use qboot.CString.Copy.{Apart}
use qboot.Main.{entry_addr}
use qboot.Boot.{mmap_round}

-- The multiboot entry at `p`: the size of what follows, and the entry of the firmware's map.
pub store_slot : (p addr size type : ℕ) → Memory → Memory
store_slot p addr size type m =
    stl_p (stq_p (stq_p (stl_p m p 20) (p + 4) addr) (p + 12) size) (p + 20) type

abbrev pub Slot : Memory → (p addr size type : ℕ) → Type 0
Slot m p addr size type =
    (ldl_p m p ≡ 20)
    × (ldq_p m (p + 4) ≡ addr)
    × (ldq_p m (p + 12) ≡ size)
    × (ldl_p m (p + 20) ≡ type)

pub store_slot-Outside :
    (p addr size type a : ℕ) (m : Memory) → Outside p 24 a → store_slot p addr size type m a ≡ m a
unfolding store_slot
store_slot-Outside p addr size type a m o =
    stl_p-Outside (stq_p (stq_p (stl_p m p 20) (p + 4) addr) (p + 12) size) (p + 20) type a
      (ground arith)
    ∙ stq_p-Outside (stq_p (stl_p m p 20) (p + 4) addr) (p + 12) size a (ground arith)
    ∙ stq_p-Outside (stl_p m p 20) (p + 4) addr a (ground arith)
    ∙ stl_p-Outside m p 20 a (ground arith)

pub store_slot-Slot :
    (p addr size type : ℕ) (m : Memory)
    → addr < 2 ^ 64
    → size < 2 ^ 64
    → type < 2 ^ 32
    → Slot (store_slot p addr size type m) p addr size type
unfolding store_slot
store_slot-Slot p addr size type m ha hs ht =
    let m1 = stl_p m p 20 in
    let m2 = stq_p m1 (p + 4) addr in
    let m3 = stq_p m2 (p + 12) size in
    let m4 = stl_p m3 (p + 20) type in
    let k4 = λ (a : ℕ) (o : a < p + 20). stl_p-Outside m3 (p + 20) type a (inl o) in
    let k3 = λ (a : ℕ) (o : a < p + 12). stq_p-Outside m2 (p + 12) size a (inl o) in
    let k2 = λ (a : ℕ) (o : a < p + 4). stq_p-Outside m1 (p + 4) addr a (inl o) in
    (
      ldl_p-agree m1 m4 p (λ a l r. k4 a (omega arith) ∙ k3 a (omega arith) ∙ k2 a r)
          ∙ ldl_p-stl_p_cut m p 20,
      ldq_p-agree m2 m4 (p + 4) (λ a l r. k4 a (omega arith) ∙ k3 a (omega arith))
          ∙ ldq_p-stq_p m1 (p + 4) addr
          ∙ omega arith,
      ldq_p-agree m3 m4 (p + 12) (λ a l r. k4 a (omega arith))
          ∙ ldq_p-stq_p m2 (p + 12) size
          ∙ omega arith,
      ldl_p-stl_p_cut m3 (p + 20) type ∙ omega arith,
    )

pub Slot-agree :
    (m g : Memory) (p addr size type : ℕ)
    → ((a : ℕ) → p ≤ a → a < p + 24 → g a ≡ m a)
    → Slot m p addr size type
    → Slot g p addr size type
Slot-agree m g p addr size type h (w, x, y, z) = (
  ldl_p-agree m g p (λ a k l. h a k (omega arith)) ∙ w,
  ldq_p-agree m g (p + 4) (λ a k l. h a (omega arith) (omega arith)) ∙ x,
  ldq_p-agree m g (p + 12) (λ a k l. h a (omega arith) (omega arith)) ∙ y,
  ldl_p-agree m g (p + 20) (λ a k l. h a (omega arith) (omega arith)) ∙ z,
)

-- One round, with the address of the slot as an argument.
pub round_at : (p e820 mb i : ℕ) → Memory → Memory
round_at p e820 mb i m =
    let from = entry_addr e820 i in
    let m1 = stl_p m p 20 in
    let m2 = stq_p m1 (p + 4) (ldq_p m1 from) in
    let m3 = stq_p m2 (p + 12) (ldq_p m2 (from + 8)) in
    let m4 = stl_p m3 (p + 20) (ldl_p m3 (from + 16)) in
    stl_p m4 (mb + 44) (ldl_p m4 (mb + 44) + 24)

pub mmap_round-round_at :
    (e820 mb i p : ℕ) (c : Memory)
    → u32 (ldl_p c (mb + 48) + ldl_p c (mb + 44)) ≡ p
    → mmap_round e820 mb i c ≡ round_at p e820 mb i c
unfolding mmap_round round_at
mmap_round-round_at e820 mb i p c at = ap (λ p. round_at p e820 mb i c) at

-- The values that a round reads are those from before the round.
pub round_at-store_slot :
    (p e820 mb i : ℕ) (c : Memory)
    → Apart p 24 (entry_addr e820 i) 20
    → Apart p 24 (mb + 44) 4
    → let from = entry_addr e820 i in
      round_at p e820 mb i c
      ≡ stl_p
          (store_slot p (ldq_p c from) (ldq_p c (from + 8)) (ldl_p c (from + 16)) c)
          (mb + 44)
          (ldl_p c (mb + 44) + 24)
unfolding round_at store_slot
round_at-store_slot p e820 mb i c o q =
    let from = entry_addr e820 i in
    let m1 = stl_p c p 20 in
    let a1 = ldq_p m1 from in
    let m2 = stq_p m1 (p + 4) a1 in
    let s1 = ldq_p m2 (from + 8) in
    let m3 = stq_p m2 (p + 12) s1 in
    let t1 = ldl_p m3 (from + 16) in
    let m4 = stl_p m3 (p + 20) t1 in
    let k1 = λ (a : ℕ) (x : Outside p 24 a). stl_p-Outside c p 20 a (ground arith) in
    let k2 =
      λ (a : ℕ) (x : Outside p 24 a). stq_p-Outside m1 (p + 4) a1 a (ground arith) ∙ k1 a x in
    let k3 =
      λ (a : ℕ) (x : Outside p 24 a). stq_p-Outside m2 (p + 12) s1 a (ground arith) ∙ k2 a x in
    let k4 =
      λ (a : ℕ) (x : Outside p 24 a). stl_p-Outside m3 (p + 20) t1 a (ground arith) ∙ k3 a x in
    let ea = ldq_p-agree c m1 from (λ a l r. k1 a (ground arith)) in
    let es = ldq_p-agree c m2 (from + 8) (λ a l r. k2 a (ground arith)) in
    let et = ldl_p-agree c m3 (from + 16) (λ a l r. k3 a (ground arith)) in
    let el = ldl_p-agree c m4 (mb + 44) (λ a l r. k4 a (ground arith)) in
    ap₂
      (λ (f g : ℕ × ℕ).
        stl_p (stl_p (stq_p (stq_p m1 (p + 4) f.0) (p + 12) f.1) (p + 20) g.0) (mb + 44) (g.1 + 24))
      (ap₂ (λ (x y : ℕ). (x, y)) ea es) (ap₂ (λ (x y : ℕ). (x, y)) et el)
