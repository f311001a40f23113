-- ===== src/Main/E820.antt =====
-- extract_e820: the fixed entries of the memory map, its count, and the entry that is moved to 1
-- MB.
use qboot.Base.{
  ℕ, zero, suc, ◌+◌, ◌-◌, ◌^◌, ◌<◌, ◌≤◌, ◌≡◌, ◌∙◌, arith, Bool, true, false, ◌==◌, Bool-cases, inl,
  inr, u64, subst, Option, none, some,
}
use qboot.Memory.{Memory, ldl_p, ldq_p, stl_p, stq_p}
use qboot.Memory.Frame.{Outside, ldl_p-agree, ldl_p-stl_p}
use qboot.CString.Search.{first_or_later}
use qboot.Memory.Wide.{stq_p-Outside, ldq_p-stq_p, ldq_p-agree}
use qboot.Main.Entry.{Holds, st_entry-Outside, st_entry-Holds, Holds-later, Holds-agree}
use qboot.Main.{
  st_entry, entry_addr, st_fixed, st_mmconfig, find_lowmem, st_lowmem, e820_ram, e820_reserved,
  e820_nvs, first_free,
}
use qboot.PciConfig.{pcie_mmconfig_base, pcie_mmconfig_size}

-- The count and the four ranges that the map always starts with.
abbrev pub Fixed : Memory → (e820 nr_map : ℕ) → Type 0
Fixed m e820 nr_map =
    (ldl_p m e820 ≡ nr_map)
    × Holds m (entry_addr e820 0) 0 0x9fc00 e820_ram
    × Holds m (entry_addr e820 1) 0x9fc00 0x400 e820_reserved
    × Holds m (entry_addr e820 2) 0xd0000 0x20000 e820_nvs
    × Holds m (entry_addr e820 3) 0xf0000 0x10000 e820_reserved

-- Stores outside the fixed entries keep them.
pub Fixed-agree :
    (m g : Memory) (e820 nr_map : ℕ)
    → ((a : ℕ) → e820 ≤ a → a < entry_addr e820 4 → g a ≡ m a)
    → Fixed m e820 nr_map
    → Fixed g e820 nr_map
Fixed-agree m g e820 nr_map h (c, x0, x1, x2, x3) =
    let keep = λ (i : ℕ) (k : i < 4) (addr size type : ℕ).
      Holds-agree m g (entry_addr e820 i) addr size type
        (λ a b l. h a (omega arith) (omega arith)) in
    (
      ldl_p-agree m g e820 (λ a k l. h a (omega arith) (omega arith)) ∙ c,
      keep 0 (omega arith) 0 0x9fc00 e820_ram x0,
      keep 1 (omega arith) 0x9fc00 0x400 e820_reserved x1,
      keep 2 (omega arith) 0xd0000 0x20000 e820_nvs x2,
      keep 3 (omega arith) 0xf0000 0x10000 e820_reserved x3,
    )

st_fixed-Fixed :
    (e820 nr_map : ℕ) (m : Memory) → nr_map < 2 ^ 32 → Fixed (st_fixed e820 nr_map m) e820 nr_map
unfolding st_fixed
st_fixed-Fixed e820 nr_map m h =
    let p = entry_addr e820 in
    let m0 = stl_p m e820 nr_map in
    let m1 = st_entry (p 0) 0 0x9fc00 e820_ram m0 in
    let m2 = st_entry (p 1) 0x9fc00 0x400 e820_reserved m1 in
    let m3 = st_entry (p 2) 0xd0000 0x20000 e820_nvs m2 in
    let m4 = st_entry (p 3) 0xf0000 0x10000 e820_reserved m3 in
    let out0 = λ (a : ℕ) (k : a < e820 + 4).
      st_entry-Outside (p 0) 0 0x9fc00 e820_ram a m0 (inl (omega arith)) in
    let out1 = λ (a : ℕ) (k : a < e820 + 4).
      st_entry-Outside (p 1) 0x9fc00 0x400 e820_reserved a m1 (inl (omega arith)) in
    let out2 = λ (a : ℕ) (k : a < e820 + 4).
      st_entry-Outside (p 2) 0xd0000 0x20000 e820_nvs a m2 (inl (omega arith)) in
    let out3 = λ (a : ℕ) (k : a < e820 + 4).
      st_entry-Outside (p 3) 0xf0000 0x10000 e820_reserved a m3 (inl (omega arith)) in
    let h0 = st_entry-Holds (p 0) 0 0x9fc00 e820_ram m0 (omega arith) (omega arith) (omega arith) in
    let h1 =
      st_entry-Holds (p 1) 0x9fc00 0x400 e820_reserved m1 (omega arith) (omega arith)
        (omega arith) in
    let h2 =
      st_entry-Holds (p 2) 0xd0000 0x20000 e820_nvs m2 (omega arith) (omega arith) (omega arith) in
    let h3 =
      st_entry-Holds (p 3) 0xf0000 0x10000 e820_reserved m3 (omega arith) (omega arith)
        (omega arith) in
    (
      ldl_p-agree m0 m4 e820 (λ a _ l. out3 a l ∙ out2 a l ∙ out1 a l ∙ out0 a l)
          ∙ ldl_p-stl_p m e820 nr_map h,
      Holds-later e820 0 3 0 0x9fc00 e820_ram 0xf0000 0x10000 e820_reserved m3 (omega arith) (
          Holds-later e820 0 2 0 0x9fc00 e820_ram 0xd0000 0x20000 e820_nvs m2 (omega arith) (
            Holds-later e820 0 1 0 0x9fc00 e820_ram 0x9fc00 0x400 e820_reserved m1 (omega arith)
              h0)),
      Holds-later e820 1 3 0x9fc00 0x400 e820_reserved 0xf0000 0x10000 e820_reserved m3
          (omega arith)
          (Holds-later e820 1 2 0x9fc00 0x400 e820_reserved 0xd0000 0x20000 e820_nvs m2
            (omega arith) h1),
      Holds-later e820 2 3 0xd0000 0x20000 e820_nvs 0xf0000 0x10000 e820_reserved m3 (omega arith)
          h2,
      h3,
    )

-- The window of MMCONFIG is in the map if it is enabled.
abbrev pub Window : Bool → Memory → ℕ → Type 0
Window false m e820 = Unit
Window true m e820 = Holds m (entry_addr e820 4) pcie_mmconfig_base pcie_mmconfig_size e820_reserved

pub Window-agree :
    (have : Bool) (m g : Memory) (e820 : ℕ)
    → ((a : ℕ) → e820 ≤ a → a < entry_addr e820 (first_free have) → g a ≡ m a)
    → Window have m e820
    → Window have g e820
Window-agree false m g e820 h w = tt
Window-agree true m g e820 h w =
    Holds-agree m g (entry_addr e820 4) pcie_mmconfig_base pcie_mmconfig_size e820_reserved
      (λ a k l. h a (omega arith) (omega arith)) w

-- For a count below 2^32, the map starts with its count and with the four ranges that never change:
-- low RAM, the EBDA, the ACPI tables and the firmware. When MMCONFIG is enabled, its window is the
-- fifth entry.
pub st_mmconfig-Fixed :
    (have : Bool) (e820 nr_map : ℕ) (m : Memory)
    → nr_map < 2 ^ 32
    → Fixed (st_mmconfig have e820 (st_fixed e820 nr_map m)) e820 nr_map
      × Window have (st_mmconfig have e820 (st_fixed e820 nr_map m)) e820
unfolding st_mmconfig
st_mmconfig-Fixed false e820 nr_map m h = (st_fixed-Fixed e820 nr_map m h, tt)
st_mmconfig-Fixed true e820 nr_map m h =
    let f = st_fixed e820 nr_map m in
    let p = entry_addr e820 4 in
    (
      Fixed-agree f (st_entry p pcie_mmconfig_base pcie_mmconfig_size e820_reserved f) e820 nr_map
          (λ a _ l.
            st_entry-Outside p pcie_mmconfig_base pcie_mmconfig_size e820_reserved a f (inl l))
          (st_fixed-Fixed e820 nr_map m h),
      st_entry-Holds p pcie_mmconfig_base pcie_mmconfig_size e820_reserved f (omega arith)
          (omega arith) (omega arith),
    )

-- What the search among the `n` indices from `i` finds: the first one at which `P` holds.
pub data IsLowest (P : ℕ → Type 0) (i n : ℕ) : Option ℕ → Type 0 where
  lowest :
      (k : ℕ)
      → i ≤ k
      → k < i + n
      → P k
      → ((j : ℕ) → i ≤ j → j < k → ¬ P j)
      → IsLowest P i n (some k)
  nowhere : ((j : ℕ) → i ≤ j → j < i + n → ¬ P j) → IsLowest P i n none

IsLowest-suc :
    {P : ℕ → Type 0} {n : ℕ} {r : Option ℕ} (i : ℕ)
    → ¬ P i
    → IsLowest P (suc i) n r
    → IsLowest P i (suc n) r
IsLowest-suc {P} i h (lowest k l u p before) = lowest k (omega arith) (omega arith) p λ j a b.
    elim (first_or_later a) [ inl e ↦ subst (λ x. ¬ P x) e h | inr later ↦ before j later b ]
IsLowest-suc {P} i h (nowhere none_there) = nowhere λ j a b. elim (first_or_later a) [
  | inl e ↦ subst (λ x. ¬ P x) e h
  | inr later ↦ none_there j later (omega arith)
]

-- The loop stops at the first entry, from `i` on, whose address is 0, and finds nothing exactly
-- when the map has none.
pub find_lowmem-IsLowest :
    (m : Memory) (e820 n i : ℕ)
    → IsLowest (λ k. ldq_p m (entry_addr e820 k) ≡ 0) i n (find_lowmem m e820 n i)
unfolding find_lowmem
find_lowmem-IsLowest m e820 zero i = nowhere (λ j a b. absurd (omega arith))
find_lowmem-IsLowest m e820 (suc n) i = elim (Bool-cases (ldq_p m (entry_addr e820 i) == 0)) [
  | inl e ↦
      rw e (lowest i (omega arith) (omega arith) (ground arith) (λ j a b. absurd (omega arith)))
  | inr e ↦ rw e (IsLowest-suc i (ground arith) (find_lowmem-IsLowest m e820 n (suc i)))
]

-- An entry at address 0 of at least 1 MB and less than 2^64 bytes is moved to 1 MB: it keeps its
-- end and its type, and no byte outside of its address and size is stored.
pub st_lowmem-Holds :
    (e820 i size type : ℕ) (m : Memory)
    → 0x100000 ≤ size
    → Holds m (entry_addr e820 i) 0 size type
    → size < 2 ^ 64
    → Holds (st_lowmem e820 i m) (entry_addr e820 i) 0x100000 (size - 0x100000) type
      × ((a : ℕ) → Outside (entry_addr e820 i) 16 a → st_lowmem e820 i m a ≡ m a)
unfolding st_lowmem
st_lowmem-Holds e820 i size type m l (x, y, z) h =
    let p = entry_addr e820 i in
    let m1 = stq_p m p 0x100000 in
    let v = u64 (ldq_p m1 (p + 8) + 2 ^ 64 - 0x100000) in
    let m2 = stq_p m1 (p + 8) v in
    let old =
      ldq_p-agree m m1 (p + 8) (λ a i _. stq_p-Outside m p 0x100000 a (inr (omega arith))) ∙ y in
    (
      (
        ldq_p-agree m1 m2 p (λ a i j. stq_p-Outside m1 (p + 8) v a (inl (omega arith)))
            ∙ ldq_p-stq_p m p 0x100000,
        ldq_p-stq_p m1 (p + 8) v ∙ omega (arith, old),
        ldl_p-agree m1 m2 (p + 16) (λ a i j. stq_p-Outside m1 (p + 8) v a (inr (omega arith)))
            ∙ ldl_p-agree m m1 (p + 16) (λ a i j. stq_p-Outside m p 0x100000 a (inr (omega arith)))
            ∙ z,
      ),
      λ a o.
          stq_p-Outside m1 (p + 8) v a (ground arith) ∙ stq_p-Outside m p 0x100000 a (ground arith),
    )
