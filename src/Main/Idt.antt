-- ===== src/Main/Idt.antt =====
-- setup_idt: which handler each vector of the real-mode interrupt table reaches.
use qboot.Base.{
  ℕ, zero, suc, ◌+◌, ◌*◌, ◌<◌, ◌≤◌, ◌≡◌, ap₂, subst, ==_iff, ◌∙◌, arith, if◌then◌else◌, ◌||◌, ◌==◌,
  Bool-cases, inl, inr, ◌≢◌,
}
use qboot.Base.Bits.{bit_and_mask}
use qboot.Memory.{Memory, lduw_p, stw_p, in_range}
use qboot.Memory.Frame.{Outside, stw_p-Outside, lduw_p-stw_p, lduw_p-agree}
use qboot.Segment.{segment_to_flat, flat_to_off16, flat_to_seg16, segment_to_flat-flat_to_seg16}
use qboot.Main.{set_realmode_int, set_range, idt}

-- The address that vector `v` leads to.
abbrev pub target : Memory → ℕ → ℕ
target m v = segment_to_flat (lduw_p m (v * 4 + 2)) (lduw_p m (v * 4))

off16-bound : (p : ℕ) → flat_to_off16 p < 65536
unfolding flat_to_off16
off16-bound p = omega (arith, bit_and_mask 16 p)

seg16-bound : (p : ℕ) → flat_to_seg16 p < 65536
unfolding flat_to_seg16
seg16-bound p = omega arith

-- The two halves of the vector that is set, and those of every other.
offset_self :
    (vec p : ℕ) (m : Memory) → lduw_p (set_realmode_int vec p m) (vec * 4) ≡ flat_to_off16 p
unfolding set_realmode_int
offset_self vec p m =
    let m1 = stw_p m (vec * 4) (flat_to_off16 p) in
    lduw_p-agree m1 (set_realmode_int vec p m) (vec * 4)
      (λ a h k. stw_p-Outside m1 (vec * 4 + 2) (flat_to_seg16 p) a (inl (omega arith)))
    ∙ lduw_p-stw_p m (vec * 4) (flat_to_off16 p) (off16-bound p)

segment_self :
    (vec p : ℕ) (m : Memory) → lduw_p (set_realmode_int vec p m) (vec * 4 + 2) ≡ flat_to_seg16 p
unfolding set_realmode_int
segment_self vec p m =
    lduw_p-stw_p (stw_p m (vec * 4) (flat_to_off16 p)) (vec * 4 + 2) (flat_to_seg16 p)
      (seg16-bound p)

set_realmode_int-Outside :
    (vec p a : ℕ) (m : Memory) → Outside (vec * 4) 4 a → set_realmode_int vec p m a ≡ m a
unfolding set_realmode_int
set_realmode_int-Outside vec p a m o =
    stw_p-Outside (stw_p m (vec * 4) (flat_to_off16 p)) (vec * 4 + 2) (flat_to_seg16 p) a
      (ground arith)
    ∙ stw_p-Outside m (vec * 4) (flat_to_off16 p) a (ground arith)

target_self : (vec p : ℕ) (m : Memory) → p < 0x100000 → target (set_realmode_int vec p m) vec ≡ p
target_self vec p m h =
    ap₂ segment_to_flat (segment_self vec p m) (offset_self vec p m)
    ∙ segment_to_flat-flat_to_seg16 p h

target-ne : (vec p v : ℕ) (m : Memory) → vec ≢ v → target (set_realmode_int vec p m) v ≡ target m v
target-ne vec p v m ne =
    let m' = set_realmode_int vec p m in
    ap₂ segment_to_flat
      (lduw_p-agree m m' (v * 4 + 2) (λ a h k.
        set_realmode_int-Outside vec p a m (other a vec v ne (omega arith) (omega arith))))
      (lduw_p-agree m m' (v * 4) (λ a h k.
        set_realmode_int-Outside vec p a m (other a vec v ne (omega arith) (omega arith))))
  where
    other : (a vec v : ℕ) → vec ≢ v → v * 4 ≤ a → a < v * 4 + 4 → Outside (vec * 4) 4 a
    other a vec v ne h k = ground arith

target-set_realmode_int :
    (vec p v : ℕ) (m : Memory)
    → p < 0x100000
    → target (set_realmode_int vec p m) v ≡ (if vec == v then p else target m v)
target-set_realmode_int vec p v m h = elim (Bool-cases (vec == v)) [
  | inl e ↦
      subst (λ w. target (set_realmode_int vec p m) w ≡ (if vec == w then p else target m w))
        ((==_iff vec v).0 e) (target_self vec p m h ∙ ground arith)
  | inr ne ↦ target-ne vec p v m (ground arith) ∙ ground arith
]

target-set_range :
    (n i p v : ℕ) (m : Memory)
    → p < 0x100000
    → target (set_range n i p m) v ≡ (if in_range i n v then p else target m v)
unfolding set_range
target-set_range zero i p v m h = ground arith
target-set_range (suc n) i p v m h =
    let first = target-set_realmode_int i p v m h in
    let others = target-set_range n (suc i) p v (set_realmode_int i p m) h in ground arith

-- The handler that a vector is meant to have.
abbrev pub handler : (fake irq int10 int15 : ℕ) → ℕ → ℕ
handler fake irq int10 int15 v =
    if v == 0x15
    then int15
    else if v == 0x10
    then int10
    else if in_range 8 8 v || in_range 0x70 8 v
    then irq
    else fake

-- For handlers below 1 MB, each of the 256 vectors of the interrupt table leads to its handler: the
-- ones of the timer and the other hardware interrupts to the IRQ stub, 0x10 and 0x15 to their
-- services, and the rest to the stub that does nothing.
pub idt-target :
    (fake irq int10 int15 v : ℕ) (m : Memory)
    → fake < 0x100000
    → irq < 0x100000
    → int10 < 0x100000
    → int15 < 0x100000
    → v < 256
    → target (idt fake irq int10 int15 m) v ≡ handler fake irq int10 int15 v
unfolding idt
idt-target fake irq int10 int15 v m hf hi h0 h5 k =
    let m1 = set_range 256 0 fake m in
    let m2 = set_range 8 8 irq m1 in
    let m3 = set_range 8 0x70 irq m2 in
    let e1 = target-set_range 256 0 fake v m hf in
    let e2 = target-set_range 8 8 irq v m1 hi in
    let e3 = target-set_range 8 0x70 irq v m2 hi in
    let e4 = target-set_realmode_int 0x10 int10 v m3 h0 in
    let e5 = target-set_realmode_int 0x15 int15 v (set_realmode_int 0x10 int10 m3) h5 in
    ground arith
