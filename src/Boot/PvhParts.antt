-- ===== src/Boot/PvhParts.antt =====
-- The command line of a PVH kernel, the blocks of the heap, and the jump (boot_pvh_from_fw_cfg).
use qboot.Base.{ℕ, ◌+◌, ◌*◌, ◌<◌, ◌≤◌, ◌≡◌, ◌≢◌, ◌==◌, ◌^◌, ◌∷◌, refl, arith, List, false, u32}
use qboot.Memory.{Memory}
use qboot.CString.Copy.{Apart}
use qboot.Machine.{Machine, flat_mode, out, word, Io, ok}
use qboot.Malloc.{down, malloc, malloc_align}
use qboot.Malloc.Align.{down_lem}
use qboot.FwCfg.Item
use qboot.FwCfg.Served.{reads, Filled}
use qboot.FwCfg.Contract.{Serves, number, number-lt, fw_cfg_read_entry-Serves}
use qboot.Boot.{pvh_enter, pvh_cmdline, booted}
use qboot.Boot.Items.{read_item-Serves}

-- The two blocks lie in the part of the heap that is reserved for them, one below the other.
pub blocks :
    (top c n : ℕ)
    → c + 24 * n + 30 ≤ top
    → top < 2 ^ 32
    → let block = down top c 16 in
      let table = down block (u32 (24 * n)) 16 in
      (block + c ≤ top) × (table + 24 * n ≤ block) × (top ≤ table + (c + 24 * n + 30))
blocks top c n room small =
    let first = down_lem 4 top c (omega arith) (omega arith) small in
    let size : u32 (24 * n) ≡ 24 * n = omega arith in
    let second =
      down_lem 4 (down top c 16) (u32 (24 * n)) (omega arith) (omega (arith, first, size))
        (omega (arith, first)) in
    omega (arith, first, second, size)

-- A device that serves the items, as the parts of the boot find it.
module _ (items : ℕ → ℕ → ℕ) (s : Machine)
    (serves : Serves s.env s.symbols.dma s.fuel s.globals.version items) where
  -- The command line is in a block of its own, and start_info leads to it.
  pub pvh_cmdline-runs :
      let c = number items Item.cmdline_size in
      let block = down s.globals.malloc_top c 16 in
      block < 2 ^ 32
      → s.symbols.dma < 2 ^ 32
      → Apart block c s.symbols.dma 16
      → (g : Memory) × (h : List Io) × (pvh_cmdline s
          ≡ ok tt (record s {
            io = h;
            mem = g;
            globals = record s.globals {
              malloc_top = block;
              start_info = record s.globals.start_info { cmdline_paddr = block };
            };
          }))
        × Filled s.symbols.dma block c (items Item.cmdline_data) s.mem g
  unfolding pvh_cmdline malloc malloc_align
  pvh_cmdline-runs hb hd apart =
      let c = number items Item.cmdline_size in
      let block = down s.globals.malloc_top c 16 in
      let hc = number-lt items Item.cmdline_size s (omega arith) serves in
      let t : Machine = record s {
        io = reads 4 (out word 0x510 Item.cmdline_size ∷ s.io);
        globals = record s.globals { malloc_top = block };
      } in
      let (g, h, read, filled) =
        fw_cfg_read_entry-Serves items Item.cmdline_data t (omega arith) serves block c
          (omega arith) hc hd apart in
      (
        g,
        h,
        rw (read_item-Serves items Item.cmdline_size s (omega arith) serves, read) refl,
        filled,
      )

  pub pvh_enter-boots :
      (A : Type 0)
      → number items Item.kernel_size ≢ 0
      → (h : List Io) × (pvh_enter {A = A} s
          ≡ booted
              (flat_mode (number items Item.kernel_entry) 0x2badb002 s.symbols.start_info)
              (record s { io = h }))
  unfolding pvh_enter
  pvh_enter-boots A kernel =
      let t : Machine = record s { io = reads 4 (out word 0x510 Item.kernel_size ∷ s.io) } in
      let some_size : number items Item.kernel_size == 0 ≡ false = ground arith in
      (
        reads 4 (out word 0x510 Item.kernel_entry ∷ t.io),
        rw
            (
              read_item-Serves items Item.kernel_size s (omega arith) serves,
              some_size,
              read_item-Serves items Item.kernel_entry t (omega arith) serves,
            )
            refl,
      )
