-- ===== src/Boot/MultibootParts.antt =====
-- The parts of boot_multiboot_from_fw_cfg: the two items that are read, and the information that the
-- firmware adds.
use qboot.Memory.Wide.{ldl_p-stl_p_cut}
use qboot.Boot.Mmap.{Listed, Listed-source, mmap_loop-IsListed, IsListed-start}
use qboot.Base.{
  ℕ, ◌+◌, ◌<◌, ◌≡◌, ◌≢◌, ◌==◌, ◌^◌, ◌∙◌, ◌∷◌, ◌>>>◌, refl, arith, List, false, sub32, inl, ◌*◌, ◌≤◌,
}
use qboot.Memory.{Memory, stl_p, BytesIn}
use qboot.Memory.Frame.{Outside, stl_p-Outside, ldl_p-agree}
use qboot.CString.Copy.{Apart}
use qboot.Machine.{Machine, Io, ok, out, word}
use qboot.FwCfg.Served.{reads, Filled}
use qboot.FwCfg.Contract.{Serves, number, number-lt, fw_cfg_read_entry-Serves}
use qboot.Boot.{multiboot_part, multiboot_fields, multiboot_setup, ldl_p, run_map_loop}
use qboot.Boot.Items.{read_item-Serves}

module _ (items : ℕ → ℕ → ℕ) (size addr bytes : ℕ) (s : Machine) (size_item : size < 2 ^ 16)
    (serves : Serves s.env s.symbols.dma s.fuel s.globals.version items) where
  -- The bytes are at the address, which is the result.
  pub multiboot_part-runs :
      addr < 2 ^ 16
      → bytes < 2 ^ 16
      → number items size ≢ 0
      → s.symbols.dma < 2 ^ 32
      → Apart (number items addr) (number items size) s.symbols.dma 16
      → (g : Memory) × (h : List Io) × (multiboot_part size addr bytes s
          ≡ ok (number items addr) (record s { io = h; mem = g }))
        × Filled s.symbols.dma (number items addr) (number items size) (items bytes) s.mem g
  unfolding multiboot_part
  multiboot_part-runs addr_item bytes_item there hd apart =
      let t : Machine = record s { io = reads 4 (out word 0x510 size ∷ s.io) } in
      let u : Machine = record t { io = reads 4 (out word 0x510 addr ∷ t.io) } in
      let ha = number-lt items addr s addr_item serves in
      let hs = number-lt items size s size_item serves in
      let (g, h, read, filled) =
        fw_cfg_read_entry-Serves items bytes u bytes_item serves (number items addr)
          (number items size) (omega (arith, ha)) hs hd apart in
      let some_size : number items size == 0 ≡ false = ground arith in
      (
        g,
        h,
        rw
            (
              read_item-Serves items size s size_item serves,
              some_size,
              read_item-Serves items addr t addr_item serves,
              read,
            )
            refl,
        filled,
      )

multiboot_fields-Outside :
    (lowmem mb a : ℕ) (m : Memory)
    → Outside (mb + 4) 8 a
    → Outside (mb + 44) 4 a
    → multiboot_fields lowmem mb m a ≡ m a
unfolding multiboot_fields
multiboot_fields-Outside lowmem mb a m o q =
    let m1 = stl_p m (mb + 4) 639 in
    let m2 = stl_p m1 (mb + 8) (sub32 lowmem 1048576 >>> 10) in
    stl_p-Outside m2 (mb + 44) 0 a q
    ∙ stl_p-Outside m1 (mb + 8) (sub32 lowmem 1048576 >>> 10) a (ground arith)
    ∙ stl_p-Outside m (mb + 4) 639 a (ground arith)

multiboot_fields_lem :
    (lowmem mb : ℕ) (m : Memory)
    → let g = multiboot_fields lowmem mb m in
      (ldl_p g (mb + 4) ≡ 639)
      × (ldl_p g (mb + 8) ≡ sub32 lowmem 1048576 >>> 10)
      × (ldl_p g (mb + 44) ≡ 0)
unfolding multiboot_fields
multiboot_fields_lem lowmem mb m =
    let upper = sub32 lowmem 1048576 >>> 10 in
    let m1 = stl_p m (mb + 4) 639 in
    let m2 = stl_p m1 (mb + 8) upper in
    let g = stl_p m2 (mb + 44) 0 in
    let last = λ (a : ℕ) (o : a < mb + 44). stl_p-Outside m2 (mb + 44) 0 a (inl o) in
    (
      ldl_p-agree m1 g (mb + 4)
            (λ a h k. last a (omega arith) ∙ stl_p-Outside m1 (mb + 8) upper a (inl (omega arith)))
          ∙ ldl_p-stl_p_cut m (mb + 4) 639,
      ldl_p-agree m2 g (mb + 8) (λ a h k. last a (omega arith))
          ∙ ldl_p-stl_p_cut m1 (mb + 8) upper
          ∙ omega arith,
      ldl_p-stl_p_cut m2 (mb + 44) 0,
    )

-- What the firmware adds to the information at `mb`: the sizes of low and high memory, and every
-- entry of the map that `m` has at `e820`, in the map at `base`.
pub record IsInformed (m : Memory) (lowmem e820 mb base n : ℕ) (g : Memory) : Type 0 where
  pub mem_lower : ldl_p g (mb + 4) ≡ 639
  pub mem_upper : ldl_p g (mb + 8) ≡ sub32 lowmem 1048576 >>> 10
  pub mmap_length : ldl_p g (mb + 44) ≡ 24 * n
  pub mmap : (k : ℕ) → k < n → Listed m g e820 base k
  pub outside :
      (a : ℕ) → Outside (mb + 4) 8 a → Outside (mb + 44) 4 a → Outside base (24 * n) a → g a ≡ m a

pub multiboot_setup-runs :
    (s : Machine) (mb base n : ℕ)
    → let e820 = s.globals.e820 in
      ldl_p s.mem e820 ≡ n
      → ldl_p s.mem (mb + 48) ≡ base
      → BytesIn e820 (4 + 20 * n) s.mem
      → base + 24 * n < 2 ^ 32
      → Apart base (24 * n) e820 (4 + 20 * n)
      → Apart base (24 * n) mb 52
      → Apart mb 52 e820 (4 + 20 * n)
      → n < s.fuel
      → (g : Memory) × (multiboot_setup mb s ≡ ok tt (record s { mem = g }))
        × IsInformed s.mem s.globals.lowmem e820 mb base n g
unfolding multiboot_setup run_map_loop
multiboot_setup-runs s mb base n count at bytes small a b c enough =
    let e820 = s.globals.e820 in
    let m1 = multiboot_fields s.globals.lowmem mb s.mem in
    let (lower, upper, empty) = multiboot_fields_lem s.globals.lowmem mb s.mem in
    let kept = λ (a : ℕ) (o : Outside (mb + 4) 8 a) (q : Outside (mb + 44) 4 a).
      multiboot_fields-Outside s.globals.lowmem mb a s.mem o q in
    let count1 : ldl_p m1 e820 ≡ n =
      ldl_p-agree s.mem m1 e820 (λ a h k. kept a (ground arith) (ground arith)) ∙ count in
    let base1 : ldl_p m1 (mb + 48) ≡ base =
      ldl_p-agree s.mem m1 (mb + 48) (λ a h k. kept a (ground arith) (ground arith)) ∙ at in
    let map_kept : (a : ℕ) → e820 ≤ a → a < e820 + (4 + 20 * n) → m1 a ≡ s.mem a =
      λ a h k. kept a (ground arith) (ground arith) in
    let bytes1 : BytesIn e820 (4 + 20 * n) m1 =
      λ a h k. omega (arith, map_kept a h k, bytes a h k) in
    let (g, runs, done) =
      mmap_loop-IsListed m1 e820 mb base n bytes1 count1 base1 small a (ground arith) (ground arith)
        s.fuel 0 m1 (omega arith) (omega arith) (IsListed-start m1 e820 mb base n empty) in
    (
      g,
      rw runs refl,
      record {
        mem_lower =
            ldl_p-agree m1 g (mb + 4) (λ a h k. done.outside a (ground arith) (ground arith))
            ∙ lower;
        mem_upper =
            ldl_p-agree m1 g (mb + 8) (λ a h k. done.outside a (ground arith) (ground arith))
            ∙ upper;
        mmap_length = done.mmap_length;
        mmap = λ k l.
            Listed-source s.mem m1 g e820 base k (λ a h u. map_kept a (omega arith) (omega arith))
              (done.filled k l);
        outside = λ a o q r. done.outside a r q ∙ kept a o q;
      },
    )
