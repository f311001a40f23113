-- ===== src/Boot/Pvh.antt =====
-- pvh_e820_setup: the memory map of a PVH kernel, and the fields of start_info that lead to it.
use qboot.Base.{ℕ, ◌+◌, ◌*◌, ◌<◌, ◌≡◌, ◌∙◌, ◌^◌, arith, u32, subst, refl}
use qboot.Memory.{Memory, BytesIn, ldl_p, memset}
use qboot.Memory.Frame.{memset-Outside, Outside, ldl_p-agree}
use qboot.CString.Copy.{Apart, SameOutside}
use qboot.Machine.{Machine, Returns, ok}
use qboot.Malloc.{down, malloc, malloc_align}
use qboot.Boot.{pvh_e820_setup, run_map_loop}
use qboot.Boot.Memmap.{Copied, Copied-source, IsCopied, memmap-IsCopied}

-- The number of entries of the firmware's map, and the block that `malloc` gives for their copy.
abbrev pub map_count : Machine → ℕ
map_count s = ldl_p s.mem s.globals.e820

abbrev pub map_copy : Machine → ℕ
map_copy s = down s.globals.malloc_top (u32 (24 * map_count s)) 16

-- What the kernel finds in `t`: all entries of the map that `s` had, in order, and where they are.
pub record HasMemmap (s t : Machine) : Type 0 where
  pub memmap_paddr : t.globals.start_info.memmap_paddr ≡ map_copy s
  pub memmap_entries : t.globals.start_info.memmap_entries ≡ map_count s
  pub copied : (k : ℕ) → k < map_count s → Copied s.mem t.mem s.globals.e820 (map_copy s) k

-- The block is cleared first, which leaves the map alone.
Copied-memset :
    (m g : Memory) (e820 table size n k : ℕ)
    → size ≡ 24 * n
    → k < n
    → Apart table (24 * n) e820 (4 + 20 * n)
    → Copied (memset m table 0 size) g e820 table k
    → Copied m g e820 table k
Copied-memset m g e820 table size n k eq l apart =
    Copied-source m (memset m table 0 size) g e820 table k
      (λ a h r. memset-Outside m table 0 size a (ground arith))

-- With a map made of bytes whose copy is smaller than 4 GB and gets a block that does not meet it,
-- and with fuel for its entries, the function returns; of memory only that block has changed.
pub pvh_e820_setup-runs :
    (s : Machine) (n : ℕ)
    → map_count s ≡ n
    → let table = down s.globals.malloc_top (u32 (24 * n)) 16 in
      BytesIn s.globals.e820 (4 + 20 * n) s.mem
      → 24 * n < 2 ^ 32
      → Apart table (24 * n) s.globals.e820 (4 + 20 * n)
      → n < s.fuel
      → (g : Memory) × (pvh_e820_setup s
          ≡ ok tt (record s {
            mem = g;
            globals = record s.globals {
              malloc_top = table;
              start_info = record s.globals.start_info { memmap_paddr = table; memmap_entries = n };
            };
          }))
        × ((k : ℕ) → k < n → Copied s.mem g s.globals.e820 table k)
        × SameOutside table (24 * n) s.mem g
unfolding pvh_e820_setup run_map_loop malloc malloc_align
pvh_e820_setup-runs s n is bytes small apart enough =
    let e = s.globals.e820 in
    let table = down s.globals.malloc_top (u32 (24 * n)) 16 in
    let m1 = memset s.mem table 0 (u32 (24 * n)) in
    let size : u32 (24 * n) ≡ 24 * n = omega arith in
    let clear = λ (a : ℕ) (o : Outside table (24 * n) a).
      memset-Outside s.mem table 0 (u32 (24 * n)) a (ground arith) in
    let count : ldl_p m1 e ≡ n = ldl_p-agree s.mem m1 e (λ a h k. clear a (ground arith)) ∙ is in
    let bytes1 : BytesIn e (4 + 20 * n) m1 =
      λ a h k. omega (arith, clear a (ground arith), bytes a h k) in
    let (g, runs, all) =
      memmap-IsCopied m1 e table s.fuel (rw count bytes1) (rw count apart) (rw count enough) in
    let done = subst (λ j. IsCopied m1 e table j j g) count all in
    let count' : ldl_p g e ≡ n =
      ldl_p-agree m1 g e (λ a h k. done.outside a (ground arith)) ∙ count in
    (
      g,
      rw (is, runs, count') refl,
      λ k l. Copied-memset s.mem g e table (u32 (24 * n)) n k size l apart (done.filled k l),
      λ a o. done.outside a o ∙ clear a o,
    )

-- With a map made of bytes whose copy is smaller than 4 GB and gets a block that does not meet it,
-- and with fuel for its entries, `pvh_e820_setup` returns, and start_info leads to a copy of every
-- entry of the map.
pub pvh_e820_setup-HasMemmap :
    (s : Machine)
    → BytesIn s.globals.e820 (4 + 20 * map_count s) s.mem
    → 24 * map_count s < 2 ^ 32
    → Apart (map_copy s) (24 * map_count s) s.globals.e820 (4 + 20 * map_count s)
    → map_count s < s.fuel
    → Returns (λ _ t. HasMemmap s t) (pvh_e820_setup s)
pvh_e820_setup-HasMemmap s bytes small apart enough =
    let (g, runs, copied, same) =
      pvh_e820_setup-runs s (map_count s) refl bytes small apart enough in
    rw runs (record { memmap_paddr = refl; memmap_entries = refl; copied = copied })
