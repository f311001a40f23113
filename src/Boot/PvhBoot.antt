-- ===== src/Boot/PvhBoot.antt =====
-- boot_pvh_from_fw_cfg as a whole: what a PVH kernel gets.
use qboot.Base.{ℕ, ◌+◌, ◌-◌, ◌*◌, ◌<◌, ◌≤◌, ◌≡◌, ◌≢◌, ◌^◌, ◌∙◌, ◌∷◌, [], refl, arith, List, u32}
use qboot.Memory.{Memory, BytesIn, ldl_p}
use qboot.Memory.Frame.{Outside, ldl_p-agree}
use qboot.CString.Copy.{AllApart, SameOutside}
use qboot.Machine.{Machine, flat_mode, Boots, Io}
use qboot.Malloc.{down}
use qboot.FwCfg.Item
use qboot.FwCfg.Served.{Filled}
use qboot.FwCfg.Contract.{Serves, number}
use qboot.Boot.{boot_pvh_from_fw_cfg, pvh_start_info}
use qboot.Boot.Memmap.{Copied, Copied-source}
use qboot.Boot.Ramdisk.{with_modules, HasRamdisk, HasRamdisk-agree, pvh_initrd-runs}
use qboot.Boot.PvhParts.{blocks, pvh_cmdline-runs, pvh_enter-boots}
use qboot.Boot.Pvh.{map_count, pvh_e820_setup-runs}

-- What the kernel finds: start_info leads to the bytes of the command line, to the initrd, and to a
-- copy of the memory map that `s` had.
pub record IsHandedOver (items : ℕ → ℕ → ℕ) (s t : Machine) : Type 0 where
  pub magic : t.globals.start_info.magic ≡ 0x336ec578
  pub version : t.globals.start_info.version ≡ 1
  pub flags : t.globals.start_info.flags ≡ 0
  pub rsdp_paddr : t.globals.start_info.rsdp_paddr ≡ s.globals.start_info.rsdp_paddr
  pub cmdline :
      (i : ℕ)
      → i < number items Item.cmdline_size
      → t.mem (t.globals.start_info.cmdline_paddr + i) ≡ items Item.cmdline_data i
  pub ramdisk : HasRamdisk items s.symbols.ramdisk_mod t.globals.start_info t.mem
  pub memmap_entries : t.globals.start_info.memmap_entries ≡ map_count s
  pub memmap :
      (k : ℕ)
      → k < map_count s
      → Copied s.mem t.mem s.globals.e820 t.globals.start_info.memmap_paddr k

-- The bytes that the two blocks take off the heap at most, alignment included.
abbrev pub heap_need : (ℕ → ℕ → ℕ) → Machine → ℕ
heap_need items s = number items Item.cmdline_size + 24 * map_count s + 30

-- The regions that must not meet: the top of the heap, the initrd, the map, the DMA descriptor and
-- the entry of the module.
abbrev pub regions : (ℕ → ℕ → ℕ) → Machine → List (ℕ × ℕ)
regions items s =
    (s.globals.malloc_top - heap_need items s, heap_need items s)
    ∷ (number items Item.initrd_addr, number items Item.initrd_size)
    ∷ (s.globals.e820, 4 + 20 * map_count s)
    ∷ (s.symbols.dma, 16)
    ∷ (s.symbols.ramdisk_mod, 16)
    ∷ []

-- The memories after the three steps that change it, in a section over what the steps guarantee.
module _ (items : ℕ → ℕ → ℕ) (s : Machine) (block table : ℕ) (g1 g2 : Memory)
    (apart : AllApart (regions items s))
    (ends : block + number items Item.cmdline_size ≤ s.globals.malloc_top)
    (below : table + 24 * map_count s ≤ block)
    (close : s.globals.malloc_top ≤ table + heap_need items s)
    (filled1 : Filled s.symbols.dma block
      (number items Item.cmdline_size)
      (items Item.cmdline_data)
      s.mem
      g1)
    (same2 : (a : ℕ)
      → Outside (number items Item.initrd_addr) (number items Item.initrd_size) a
      → Outside s.symbols.dma 16 a
      → Outside s.symbols.ramdisk_mod 16 a
      → g2 a ≡ g1 a) where
  map_kept :
      (a : ℕ) → s.globals.e820 ≤ a → a < s.globals.e820 + (4 + 20 * map_count s) → g2 a ≡ s.mem a
  map_kept a l u =
      let ((hi, (hm, (hx, (hr, _)))), ((im, (ix, (ir, _))), ((mx, (mr, _)), _))) = apart in
      same2 a (ground arith) (ground arith) (ground arith)
      ∙ filled1.1 a (ground arith) (ground arith)

  cmdline_kept :
      (i : ℕ) → i < number items Item.cmdline_size → g2 (block + i) ≡ items Item.cmdline_data i
  cmdline_kept i l =
      let ((hi, (hm, (hx, (hr, _)))), _) = apart in
      same2 (block + i) (ground arith) (ground arith) (ground arith) ∙ filled1.0 i l

  map_count_kept : ldl_p g2 s.globals.e820 ≡ map_count s
  map_count_kept = ldl_p-agree s.mem g2 s.globals.e820 (λ a l u. map_kept a l (omega arith))

  map_bytes :
      BytesIn s.globals.e820 (4 + 20 * map_count s) s.mem
      → BytesIn s.globals.e820 (4 + 20 * map_count s) g2
  map_bytes bytes a l u = omega (arith, map_kept a l u, bytes a l u)

  module _ (g3 : Memory) (h : List Io) (p modules : ℕ)
      (copied : (k : ℕ) → k < map_count s → Copied g2 g3 s.globals.e820 table k)
      (same3 : SameOutside table (24 * map_count s) g2 g3) where
    handed_over :
        let info =
          with_modules
            (record (pvh_start_info s.globals.start_info) { cmdline_paddr = block })
            p
            modules in
        HasRamdisk items s.symbols.ramdisk_mod info g2
        → IsHandedOver items s (record s {
          io = h;
          mem = g3;
          globals = record s.globals {
            malloc_top = table;
            start_info = record info { memmap_paddr = table; memmap_entries = map_count s };
          };
        })
    handed_over ramdisk =
        let ((hi, (hm, (hx, (hr, _)))), _) = apart in
        let info =
          with_modules (record (pvh_start_info s.globals.start_info) { cmdline_paddr = block }) p
            modules in
        record {
          magic = refl;
          version = refl;
          flags = refl;
          rsdp_paddr = refl;
          cmdline = λ i l. same3 (block + i) (ground arith) ∙ cmdline_kept i l;
          ramdisk =
              HasRamdisk-agree (record info { memmap_paddr = table; memmap_entries = map_count s })
                g3 refl refl (λ a l u. same3 a (ground arith))
                (λ i l. same3 (number items Item.initrd_addr + i) (ground arith)) ramdisk;
          memmap_entries = refl;
          memmap = λ k l.
              Copied-source s.mem g2 g3 s.globals.e820 table k
                (λ a x y. map_kept a (omega arith) (omega arith)) (copied k l);
        }

-- Let the device serve a kernel of a size other than 0, and let the memory map be made of bytes, with
-- fewer entries than there is fuel. The heap, which ends below 4 GB, has room for the command line, a
-- copy of the map and 30 bytes of alignment; the part of the heap that this takes, the initrd, the
-- map, the DMA descriptor and the module entry do not meet. Then boot_pvh_from_fw_cfg enters the
-- kernel at its entry point with the magic number in EAX and start_info in EBX. start_info has its
-- magic number, version 1, no flags, and the RSDP that it had; it leads to the bytes of the command
-- line, to one module with the initrd's address, size and bytes (or to none if there is no initrd),
-- and to a copy of every entry of the map.
pub boot_pvh_from_fw_cfg-IsHandedOver :
    (A : Type 0) (items : ℕ → ℕ → ℕ) (s : Machine)
    → Serves s.env s.symbols.dma s.fuel s.globals.version items
    → s.symbols.dma < 2 ^ 32
    → number items Item.kernel_size ≢ 0
    → BytesIn s.globals.e820 (4 + 20 * map_count s) s.mem
    → map_count s < s.fuel
    → heap_need items s ≤ s.globals.malloc_top
    → s.globals.malloc_top < 2 ^ 32
    → AllApart (regions items s)
    → Boots
        (λ k t.
          (k ≡ flat_mode (number items Item.kernel_entry) 0x2badb002 s.symbols.start_info)
          × IsHandedOver items s t)
        (boot_pvh_from_fw_cfg {A = A} s)
unfolding boot_pvh_from_fw_cfg
boot_pvh_from_fw_cfg-IsHandedOver A items s serves hd kernel bytes enough room top apart =
    let n = map_count s in
    let ((hi, (hm, (hx, (hr, _)))), ((im, (ix, (ir, _))), _)) = apart in
    let block = down s.globals.malloc_top (number items Item.cmdline_size) 16 in
    let table = down block (u32 (24 * n)) 16 in
    let (ends, below, close) =
      blocks s.globals.malloc_top (number items Item.cmdline_size) n room top in
    let s0 : Machine = record s {
      globals = record s.globals { start_info = pvh_start_info s.globals.start_info };
    } in
    let (g1, h1, run1, filled1) =
      pvh_cmdline-runs items s0 serves (omega arith) hd (ground arith) in
    let s1 : Machine = record s0 {
      io = h1;
      mem = g1;
      globals = record s0.globals {
        malloc_top = block;
        start_info = record s0.globals.start_info { cmdline_paddr = block };
      };
    } in
    let (g2, h2, p, modules, run2, ramdisk, same2) =
      pvh_initrd-runs items s1 serves refl hd ix ir in
    let s2 : Machine = record s1 {
      io = h2;
      mem = g2;
      globals = record s1.globals { start_info = with_modules s1.globals.start_info p modules };
    } in
    let count = map_count_kept items s block table g1 g2 apart ends below close filled1 same2 in
    let (g3, run3, copied, same3) =
      pvh_e820_setup-runs s2 n count
        (map_bytes items s block table g1 g2 apart ends below close filled1 same2 bytes)
        (omega arith) (ground arith) enough in
    let s3 : Machine = record s2 {
      mem = g3;
      globals = record s2.globals {
        malloc_top = table;
        start_info = record s2.globals.start_info { memmap_paddr = table; memmap_entries = n };
      };
    } in
    let (h, run4) = pvh_enter-boots items s3 serves A kernel in
    rw (run1, run2, run3, run4)
      (
        refl,
        handed_over items s block table g1 g2 apart ends below close filled1 same2 g3 h p modules
            copied same3 ramdisk,
      )
