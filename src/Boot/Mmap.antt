-- ===== src/Boot/Mmap.antt =====
-- The loop of boot_multiboot_from_fw_cfg over the memory map.
use qboot.Base.{
  zero, refl, some, ltb, Bool-cases, inl, inr, ℕ, suc, ◌+◌, ◌*◌, ◌≤◌, ◌<◌, ◌≡◌, ◌^◌, ◌∙◌, sym,
  subst, ap₂, arith, inl, inr, u32, some, Bool-cases, ltb,
}
use qboot.Memory.{Memory, BytesIn, ldl_p, ldq_p, stl_p}
use qboot.Memory.Frame.{Outside, stl_p-Outside, ldl_p-agree}
use qboot.Memory.Wide.{ldl_p-lt, ldq_p-lt, ldl_p-stl_p_cut, ldq_p-agree}
use qboot.CString.Copy.{Apart}
use qboot.Main.{entry_addr}
use qboot.Boot.{map_loop, mmap_round, map_loop}
use qboot.Boot.Memmap.{last_or_before}
use qboot.Boot.Multiboot.{
  Slot, store_slot, store_slot-Outside, store_slot-Slot, Slot-agree, mmap_round-round_at,
  round_at-store_slot,
}

-- The entry `k` of the map of `m` stands in the slot `k` of the multiboot map at `base` in `g`.
abbrev pub Listed : (m g : Memory) → (e820 base k : ℕ) → Type 0
Listed m g e820 base k =
    let from = entry_addr e820 k in
    Slot g (base + 24 * k) (ldq_p m from) (ldq_p m (from + 8)) (ldl_p m (from + 16))

-- What is listed is the same in a memory that agrees on the entry.
pub Listed-source :
    (m m' g : Memory) (e820 base k : ℕ)
    → ((a : ℕ) → entry_addr e820 k ≤ a → a < entry_addr e820 k + 20 → m' a ≡ m a)
    → Listed m' g e820 base k
    → Listed m g e820 base k
Listed-source m m' g e820 base k same (w, x, y, z) =
    let from = entry_addr e820 k in
    (
      w,
      x ∙ ldq_p-agree m m' from (λ a h r. same a h (omega arith)),
      y ∙ ldq_p-agree m m' (from + 8) (λ a h r. same a (omega arith) (omega arith)),
      z ∙ ldl_p-agree m m' (from + 16) (λ a h r. same a (omega arith) (omega arith)),
    )

-- After `i` rounds: `mmap_length` covers `i` slots, these are filled, and but for the `n` slots and
-- `mmap_length` memory is as it was.
pub record IsListed (m : Memory) (e820 mb base n i : ℕ) (c : Memory) : Type 0 where
  pub mmap_length : ldl_p c (mb + 44) ≡ 24 * i
  pub filled : (k : ℕ) → k < i → Listed m c e820 base k
  pub outside : (a : ℕ) → Outside base (24 * n) a → Outside (mb + 44) 4 a → c a ≡ m a

pub IsListed-start :
    (m : Memory) (e820 mb base n : ℕ) → ldl_p m (mb + 44) ≡ 0 → IsListed m e820 mb base n 0 m
IsListed-start m e820 mb base n empty = record {
  mmap_length = empty;
  filled = λ k l. absurd (omega arith);
  outside = λ a o q. refl;
}

module _ (m : Memory) (e820 mb base n : ℕ) (bytes : BytesIn e820 (4 + 20 * n) m)
    (count : ldl_p m e820 ≡ n) (mmap_addr : ldl_p m (mb + 48) ≡ base)
    (small : base + 24 * n < 2 ^ 32) (apart : Apart base (24 * n) e820 (4 + 20 * n))
    (apart_mb : Apart base (24 * n) (mb + 44) 8)
    (apart_map : Apart (mb + 44) 4 e820 (4 + 20 * n)) where
  round-IsListed :
      (i : ℕ) (c : Memory)
      → i < n
      → IsListed m e820 mb base n i c
      → IsListed m e820 mb base n (suc i) (mmap_round e820 mb i c)
  round-IsListed i c h done =
      let from = entry_addr e820 i in
      let p = base + 24 * i in
      let kept = λ (a : ℕ) (l : from ≤ a) (r : a < from + 20).
        done.outside a (ground arith) (ground arith) in
      let ea = ldq_p-agree m c from (λ a l r. kept a l (omega arith)) in
      let es = ldq_p-agree m c (from + 8) (λ a l r. kept a (omega arith) (omega arith)) in
      let et = ldl_p-agree m c (from + 16) (λ a l r. kept a (omega arith) (omega arith)) in
      let addr_kept =
        ldl_p-agree m c (mb + 48) (λ a l r. done.outside a (ground arith) (ground arith)) in
      let at : u32 (ldl_p c (mb + 48) + ldl_p c (mb + 44)) ≡ p =
        omega (arith, addr_kept, done.mmap_length) in
      let x = ldq_p m from in
      let y = ldq_p m (from + 8) in
      let z = ldl_p m (from + 16) in
      let g = store_slot p x y z c in
      let total : ldl_p c (mb + 44) + 24 ≡ 24 * suc i = omega (arith, done.mmap_length) in
      let stored : mmap_round e820 mb i c ≡ stl_p g (mb + 44) (24 * suc i) =
        mmap_round-round_at e820 mb i p c at
        ∙ round_at-store_slot p e820 mb i c (ground arith) (ground arith)
        ∙ ap₂ (λ (f : ℕ × ℕ) (u : ℕ × ℕ). stl_p (store_slot p f.0 f.1 u.0 c) (mb + 44) u.1)
            (ap₂ (λ (x y : ℕ). (x, y)) ea es) (ap₂ (λ (x y : ℕ). (x, y)) et total) in
      let last =
        λ (a : ℕ) (o : Outside (mb + 44) 4 a). stl_p-Outside g (mb + 44) (24 * suc i) a o in
      let slot = λ (a : ℕ) (o : Outside p 24 a). store_slot-Outside p x y z a c o in
      let entry =
        store_slot-Slot p x y z c (ldq_p-lt m from (λ a k l. bytes a (omega arith) (omega arith)))
          (ldq_p-lt m (from + 8) (λ a k l. bytes a (omega arith) (omega arith)))
          (ldl_p-lt m (from + 16) (λ a k l. bytes a (omega arith) (omega arith))) in
      subst (IsListed m e820 mb base n (suc i)) (sym stored) (record {
        mmap_length = ldl_p-stl_p_cut g (mb + 44) (24 * suc i) ∙ omega arith;
        filled = λ k l. elim (last_or_before l) [
          | inl e ↦ subst (Listed m (stl_p g (mb + 44) (24 * suc i)) e820 base) (sym e) (
              Slot-agree g (stl_p g (mb + 44) (24 * suc i)) p x y z (λ a u v. last a (ground arith))
                entry)
          | inr before ↦
              Slot-agree c (stl_p g (mb + 44) (24 * suc i)) (base + 24 * k) _ _ _
                (λ a u v. last a (ground arith) ∙ slot a (inl (omega arith))) (done.filled k before)
        ];
        outside = λ a o q. last a q ∙ slot a (ground arith) ∙ done.outside a o q;
      })

  pub mmap_loop-IsListed :
      (fuel i : ℕ) (c : Memory)
      → i ≤ n
      → n < i + fuel
      → IsListed m e820 mb base n i c
      → (g : Memory) × (map_loop (mmap_round e820 mb) fuel e820 i c ≡ some g)
        × IsListed m e820 mb base n n g
  unfolding map_loop
  mmap_loop-IsListed zero i c h k done = absurd (omega arith)
  mmap_loop-IsListed (suc fuel) i c h k done =
      let same : ldl_p c e820 ≡ n =
        ldl_p-agree m c e820 (λ a l r. done.outside a (ground arith) (ground arith)) ∙ count in
      elim (Bool-cases (ltb i n)) [
        | inl e ↦
            let (g, runs, all) =
              mmap_loop-IsListed fuel (suc i) (mmap_round e820 mb i c) (ground arith) (omega arith)
                (round-IsListed i c (ground arith) done) in
            (g, rw (same, e) runs, all)
        | inr e ↦
            let end : i ≡ n = ground arith in
            (c, rw (same, e) refl, subst (λ j. IsListed m e820 mb base n j c) end done)
      ]

-- The loop of boot_multiboot_from_fw_cfg, for a map made of bytes and with mmap_length set to
-- 0, ends within one more round than the firmware's map has entries. Each entry then stands in the
-- multiboot map that mmap_addr leads to, in order and without gaps, behind its size of 20;
-- mmap_length is the length of that map, and nothing else has changed. The multiboot map ends below
-- 4 GB, and meets neither the firmware's map nor mmap_length and mmap_addr, which lies behind it;
-- mmap_length does not meet the firmware's map.
pub mmap-IsListed :
    (m : Memory) (e820 mb fuel : ℕ)
    → BytesIn e820 (4 + 20 * ldl_p m e820) m
    → ldl_p m (mb + 44) ≡ 0
    → ldl_p m (mb + 48) + 24 * ldl_p m e820 < 2 ^ 32
    → Apart (ldl_p m (mb + 48)) (24 * ldl_p m e820) e820 (4 + 20 * ldl_p m e820)
    → Apart (ldl_p m (mb + 48)) (24 * ldl_p m e820) (mb + 44) 8
    → Apart (mb + 44) 4 e820 (4 + 20 * ldl_p m e820)
    → ldl_p m e820 < fuel
    → (g : Memory) × (map_loop (mmap_round e820 mb) fuel e820 0 m ≡ some g)
      × IsListed m e820 mb (ldl_p m (mb + 48)) (ldl_p m e820) (ldl_p m e820) g
mmap-IsListed m e820 mb fuel bytes zero_length small a b c enough =
    mmap_loop-IsListed m e820 mb (ldl_p m (mb + 48)) (ldl_p m e820) bytes refl refl small a b c fuel
      0 m (omega arith) (omega arith) (IsListed-start m e820 mb _ _ zero_length)
