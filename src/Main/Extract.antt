-- ===== src/Main/Extract.antt =====
-- extract_e820 (main.c) as a whole, from the directory of the configuration device to the map in
-- memory.
use qboot.Base.Text.{codes}
use qboot.Base.{
  Bool, true, false, ◌%◌, ℕ, ◌+◌, ◌-◌, ◌*◌, ◌≤◌, ◌<◌, ◌≡◌, ◌≢◌, ◌^◌, ◌∙◌, refl, arith, inl, Option,
  none, some, u32, bit_and, Bool, u16, ◌>>>◌, inr,
}
use qboot.Memory.{stl_p, Memory, ldl_p, lduw_p, ldq_p}
use qboot.Memory.Frame.{stl_p-Outside, Outside, lduw_p-agree}
use qboot.CString.Copy.{Apart}
use qboot.Machine.{◌>>◌, ◌>>=◌, Machine, Returns, pure, load, modify, store}
use qboot.Malloc.{down, malloc, malloc_align}
use qboot.FwCfg.{
  file_id_loop, int_rounds, file_at, fw_cfg_file_id, fw_cfg_file_size, fw_cfg_read_file,
}
use qboot.FwCfg.Served.{ServesDma}
use qboot.FwCfg.Transfer.{fw_cfg_read_entry-ServesDma}
use qboot.Tables.{literal}
use qboot.PciConfig.{pcie_mmconfig_base, pcie_mmconfig_size}
use qboot.Main.Entry.{st_entry-Outside}
use qboot.Main.{
  st_entry, e820_ram, e820_reserved, e820_nvs, extract_e820, entry_addr, first_free, map_entries,
  st_fixed, st_mmconfig, find_lowmem, st_lowmem,
}
use qboot.Main.E820.{
  Fixed, st_mmconfig-Fixed, Window-agree, IsLowest, find_lowmem-IsLowest, Fixed-agree, Window,
}

-- The bytes of the map for a file of `size` bytes.
abbrev pub map_size : ℕ → ℕ
map_size size = 4 + 20 * map_entries size

-- The size of the file with the given id, the block for its map, and where in it the file goes.
abbrev pub file_size : ℕ → Machine → ℕ
file_size id s = ldl_p s.mem (file_at s.globals.files id)

abbrev pub map_block : ℕ → Machine → ℕ
map_block id s = down s.globals.malloc_top (u32 (map_size (file_size id s))) 16

abbrev pub file_block : ℕ → Machine → ℕ
file_block id s = entry_addr (map_block id s) (first_free s.globals.have_mmconfig)

-- The map at `p` after the search: the entry that it has found is moved.
abbrev pub lowered_at : (p : ℕ) → Option ℕ → Memory → Memory
lowered_at p none g = g
lowered_at p (some i) g = st_lowmem p i g

-- The size of the low memory after the search, `before` where it has found nothing.
abbrev pub lowmem_at : (p : ℕ) → Option ℕ → Memory → (before : ℕ) → ℕ
lowmem_at p none g before = before
lowmem_at p (some i) g before = u32 (ldq_p g (entry_addr p i + 8))

-- The entries that do not come from the file lie in the first 104 bytes.
st_fixed-Outside : (p n a : ℕ) (m : Memory) → Outside p 84 a → st_fixed p n m a ≡ m a
unfolding st_fixed
st_fixed-Outside p n a m o =
    let m0 = stl_p m p n in
    let m1 = st_entry (entry_addr p 0) 0 0x9fc00 e820_ram m0 in
    let m2 = st_entry (entry_addr p 1) 0x9fc00 0x400 e820_reserved m1 in
    let m3 = st_entry (entry_addr p 2) 0xd0000 0x20000 e820_nvs m2 in
    st_entry-Outside (entry_addr p 3) 0xf0000 0x10000 e820_reserved a m3 (ground arith)
    ∙ st_entry-Outside (entry_addr p 2) 0xd0000 0x20000 e820_nvs a m2 (ground arith)
    ∙ st_entry-Outside (entry_addr p 1) 0x9fc00 0x400 e820_reserved a m1 (ground arith)
    ∙ st_entry-Outside (entry_addr p 0) 0 0x9fc00 e820_ram a m0 (ground arith)
    ∙ stl_p-Outside m p n a (ground arith)

st_mmconfig-Outside :
    (have : Bool) (p n a : ℕ) (m : Memory)
    → Outside p (4 + 20 * first_free have) a
    → st_mmconfig have p (st_fixed p n m) a ≡ m a
unfolding st_mmconfig
st_mmconfig-Outside false p n a m o = st_fixed-Outside p n a m (ground arith)
st_mmconfig-Outside true p n a m o =
    st_entry-Outside (entry_addr p 4) pcie_mmconfig_base pcie_mmconfig_size e820_reserved a
      (st_fixed p n m) (ground arith)
    ∙ st_fixed-Outside p n a m (ground arith)

-- Without MMCONFIG the count takes in one entry that nothing is stored to.
abbrev pub Leftover : Bool → (before after : Memory) → (p n : ℕ) → Type 0
Leftover true before after p n = Unit
Leftover false before after p n =
    (a : ℕ) → a < 20 → after (entry_addr p (n - 1) + a) ≡ before (entry_addr p (n - 1) + a)

leftover :
    (have : Bool) (p n size : ℕ) (before after : Memory)
    → n ≡ map_entries size
    → size % 20 ≡ 0
    → ((a : ℕ)
        → entry_addr p (first_free have) + size ≤ a
        → a < entry_addr p n
        → after a ≡ before a)
    → Leftover have before after p n
unfolding map_entries
leftover true p n size before after h whole kept = tt
leftover false p n size before after h whole kept =
    λ a l. kept (entry_addr p (n - 1) + a) (omega (arith, h, whole)) (omega (arith, h))

first_free-bound : (have : Bool) → (4 ≤ first_free have) × (first_free have ≤ 5)
first_free-bound false = (omega arith, omega arith)
first_free-bound true = (omega arith, omega arith)

-- The end of the function stores the lowered entry, where the search has found one.
lower-Returns :
    (p : ℕ) (found : Option ℕ) (t : Machine)
    → Returns
        (λ _ u.
          (u.mem ≡ lowered_at p found t.mem)
          × (u.globals.lowmem ≡ lowmem_at p found t.mem t.globals.lowmem))
        ((do
          elim found [
            | none ↦ pure tt
            | some i ↦ do
              top ← load (λ m. ldq_p m (entry_addr p i + 8))
              modify (λ g. record g { lowmem = u32 top })
              store (st_lowmem p i)
          ]
          modify (λ g. record g { e820_seg = u16 (p >>> 4) }))
          t)
lower-Returns p none t = (refl, refl)
lower-Returns p (some i) t = (refl, refl)

-- Let the directory have a file "etc/e820" whose size, a multiple of 20, gives a map that ends below
-- 2^32, does not meet the DMA descriptor or the file's directory entry, and is read by DMA from a
-- device that serves the file's bytes as `item`. Then extract_e820 returns, and at some memory `g`
-- before its last stores: the map starts with its count, the four fixed ranges and, when it is
-- enabled, the MMCONFIG window; the file's bytes follow them directly; and the search has taken the
-- first entry behind the fixed ones whose address is 0, where there is one. The final memory is `g`
-- but for that entry, which is moved, and its old size is recorded as the size of the low memory.
-- Without MMCONFIG the last of the counted entries still has in `g` the bytes that the heap had there.
pub extract_e820-IsListed :
    (item : ℕ → ℕ) (id e : ℕ) (s : Machine)
    → file_id_loop
        (literal (codes "etc/e820"))
        s.mem
        s.globals.files
        (int_rounds s.globals.filecnt)
        0
      ≡ some id
    → lduw_p s.mem (file_at s.globals.files id + 4) ≡ e
    → e < 2 ^ 16
    → file_size id s % 20 ≡ 0
    → map_block id s + map_size (file_size id s) ≤ 2 ^ 32
    → s.symbols.dma < 2 ^ 32
    → Apart (map_block id s) (map_size (file_size id s)) s.symbols.dma 16
    → Apart (map_block id s) (map_size (file_size id s)) (file_at s.globals.files id) 64
    → bit_and s.globals.version 2 ≢ 0
    → ServesDma s.env s.symbols.dma s.fuel e item
    → let p : ℕ = map_block id s in
      let n : ℕ = map_entries (file_size id s) in
      let i : ℕ = first_free s.globals.have_mmconfig in
      (g : Memory) × (found : Option ℕ) × Returns
        (λ _ t.
          (t.mem ≡ lowered_at p found g)
          × (t.globals.lowmem ≡ lowmem_at p found g s.globals.lowmem))
        (extract_e820 s)
      × IsLowest (λ k. ldq_p g (entry_addr p k) ≡ 0) i (n - i) found
      × ((a : ℕ) → a < file_size id s → g (entry_addr p i + a) ≡ item a)
      × Fixed g p n
      × Window s.globals.have_mmconfig g p
      × Leftover s.globals.have_mmconfig s.mem g p n
unfolding extract_e820 malloc malloc_align fw_cfg_file_id fw_cfg_file_size fw_cfg_read_file
    map_entries
extract_e820-IsListed item id e s found select he whole room hd apart apart_dir offers serves =
    let p = map_block id s in
    let size = file_size id s in
    let have = s.globals.have_mmconfig in
    let n = map_entries size in
    let m = st_mmconfig have p (st_fixed p n s.mem) in
    let t : Machine = record s {
      mem = m;
      globals = record s.globals { malloc_top = p; e820 = p };
    } in
    let dir = file_at s.globals.files id in
    let free = first_free-bound have in
    let kept =
      lduw_p-agree s.mem m (dir + 4)
        (λ a k l. st_mmconfig-Outside have p n a s.mem (ground (arith, free.1))) in
    let (g, h, reads, (filled, same)) =
      fw_cfg_read_entry-ServesDma item e (file_block id s) size t he (omega (arith, free.0, free.1))
        (omega arith) hd (ground (arith, free.0, free.1)) offers serves in
    let (fixed, window) = st_mmconfig-Fixed have p n s.mem (omega arith) in
    let kept_map : (a : ℕ) → p ≤ a → a < entry_addr p (first_free have) → g a ≡ m a =
      λ a k l. same a (inl l) (ground (arith, free.1)) in
    let still = Fixed-agree m g p n (λ a k l. kept_map a k (omega (arith, free.0))) fixed in
    let found_at = find_lowmem g p (n - first_free have) (first_free have) in
    (
      g,
      found_at,
      rw (found, kept ∙ select, reads, still.0) (lower-Returns p found_at _),
      find_lowmem-IsLowest g p (n - first_free have) (first_free have),
      filled,
      still,
      Window-agree have m g p kept_map window,
      leftover have p n size s.mem g refl whole (λ a k l.
          same a (inr k) (ground arith) ∙ st_mmconfig-Outside have p n a s.mem (ground arith)),
    )
