-- ===== src/Boot/MultibootBoot.antt =====
-- boot_multiboot_from_fw_cfg as a whole: what a multiboot kernel gets.
use qboot.Base.{
  ℕ, ◌+◌, ◌*◌, ◌<◌, ◌≤◌, ◌≡◌, ◌≢◌, ◌^◌, ◌∙◌, ◌∷◌, [], ◌>>>◌, refl, arith, List, sub32, ap,
}
use qboot.Memory.{Memory, BytesIn, ldl_p}
use qboot.Memory.Wide.{ldl_p-copied}
use qboot.Memory.Frame.{Outside, ldl_p-agree}
use qboot.CString.Copy.{Apart, AllApart}
use qboot.Machine.{Machine, Boots, flat_mode}
use qboot.FwCfg.Item
use qboot.FwCfg.Served.{Filled}
use qboot.FwCfg.Contract.{Serves, number}
use qboot.Boot.{boot_multiboot_from_fw_cfg}
use qboot.Boot.Items.{read_item-Serves}
use qboot.Boot.Mmap.{Listed, Listed-source}
use qboot.Boot.MultibootParts.{multiboot_part-runs, IsInformed, multiboot_setup-runs}
use qboot.Boot.Pvh.{map_count}

-- The address of the kernel, that of the information, and that of the memory map in it.
abbrev pub kernel_at : (ℕ → ℕ → ℕ) → ℕ
kernel_at items = number items Item.kernel_addr

abbrev pub info_at : (ℕ → ℕ → ℕ) → ℕ
info_at items = number items Item.initrd_addr

abbrev pub mmap_at : (ℕ → ℕ → ℕ) → ℕ
mmap_at items = ldl_p (items Item.initrd_data) 48

-- What the kernel finds: its own bytes, the information that QEMU has prepared but for the fields that
-- the firmware sets, and in these the sizes of low and high memory and the memory map that `s` had.
pub record IsLoaded (items : ℕ → ℕ → ℕ) (s t : Machine) : Type 0 where
  pub kernel :
      (i : ℕ)
      → i < number items Item.kernel_size
      → t.mem (kernel_at items + i) ≡ items Item.kernel_data i
  pub information :
      (i : ℕ)
      → i < number items Item.initrd_size
      → Outside 4 8 i
      → Outside 44 4 i
      → Outside (mmap_at items) (24 * map_count s) (info_at items + i)
      → t.mem (info_at items + i) ≡ items Item.initrd_data i
  pub mem_lower : ldl_p t.mem (info_at items + 4) ≡ 639
  pub mem_upper : ldl_p t.mem (info_at items + 8) ≡ sub32 s.globals.lowmem 1048576 >>> 10
  pub mmap_length : ldl_p t.mem (info_at items + 44) ≡ 24 * map_count s
  pub mmap : (k : ℕ) → k < map_count s → Listed s.mem t.mem s.globals.e820 (mmap_at items) k

-- The regions that must not meet: the kernel, the information, the map, and the DMA descriptor.
abbrev pub loaded_regions : (ℕ → ℕ → ℕ) → Machine → List (ℕ × ℕ)
loaded_regions items s =
    (kernel_at items, number items Item.kernel_size)
    ∷ (info_at items, number items Item.initrd_size)
    ∷ (s.globals.e820, 4 + 20 * map_count s)
    ∷ (s.symbols.dma, 16)
    ∷ []

-- The memories after the two reads, in a section over what the reads guarantee.
module _ (items : ℕ → ℕ → ℕ) (s : Machine) (g1 g2 : Memory)
    (apart : AllApart (loaded_regions items s)) (room : 52 ≤ number items Item.initrd_size)
    (filled1 : Filled s.symbols.dma
      (kernel_at items)
      (number items Item.kernel_size)
      (items Item.kernel_data)
      s.mem
      g1)
    (filled2 : Filled s.symbols.dma
      (info_at items)
      (number items Item.initrd_size)
      (items Item.initrd_data)
      g1
      g2) where
  map_kept :
      (a : ℕ) → s.globals.e820 ≤ a → a < s.globals.e820 + (4 + 20 * map_count s) → g2 a ≡ s.mem a
  map_kept a l u =
      let ((ki, (km, (kx, _))), ((im, (ix, _)), ((mx, _), _))) = apart in
      filled2.1 a (ground arith) (ground arith) ∙ filled1.1 a (ground arith) (ground arith)

  kernel_kept :
      (i : ℕ)
      → i < number items Item.kernel_size
      → g2 (kernel_at items + i) ≡ items Item.kernel_data i
  kernel_kept i l =
      let ((ki, (km, (kx, _))), _) = apart in
      filled2.1 (kernel_at items + i) (ground arith) (ground arith) ∙ filled1.0 i l

  count_kept : ldl_p g2 s.globals.e820 ≡ map_count s
  count_kept = ldl_p-agree s.mem g2 s.globals.e820 (λ a l u. map_kept a l (omega arith))

  bytes_kept :
      BytesIn s.globals.e820 (4 + 20 * map_count s) s.mem
      → BytesIn s.globals.e820 (4 + 20 * map_count s) g2
  bytes_kept bytes a l u = omega (arith, map_kept a l u, bytes a l u)

  mmap_addr_read : ldl_p g2 (info_at items + 48) ≡ mmap_at items
  mmap_addr_read = ldl_p-copied (items Item.initrd_data) g2 (info_at items + 48) 48 λ i l.
      let shift : info_at items + 48 + i ≡ info_at items + (48 + i) = omega arith in
      ap g2 shift ∙ filled2.0 (48 + i) (omega arith)

  loaded :
      (t : Machine)
      → IsInformed g2 s.globals.lowmem s.globals.e820
          (info_at items)
          (mmap_at items)
          (map_count s)
          t.mem
      → Apart (mmap_at items) (24 * map_count s) (kernel_at items) (number items Item.kernel_size)
      → IsLoaded items s t
  loaded t x o =
      let ((ki, _), _) = apart in
      record {
        kernel = λ i l.
            x.outside (kernel_at items + i) (ground arith) (ground arith) (ground arith)
            ∙ kernel_kept i l;
        information = λ i l o q r.
            x.outside (info_at items + i) (ground arith) (ground arith) r ∙ filled2.0 i l;
        mem_lower = x.mem_lower;
        mem_upper = x.mem_upper;
        mmap_length = x.mmap_length;
        mmap = λ k l.
            Listed-source s.mem g2 t.mem s.globals.e820 (mmap_at items) k
              (λ a h u. map_kept a (omega arith) (omega arith)) (x.mmap k l);
      }

-- Let the device serve a kernel of a size other than 0 and an information of 52 bytes or more, and let
-- the memory map be made of bytes, with fewer entries than there is fuel. The kernel, the information,
-- the map and the DMA descriptor do not meet, and neither does the map that the information leads to
-- meet the kernel, the firmware's map or the first 52 bytes of the information; it ends below 4 GB.
-- Then boot_multiboot_from_fw_cfg enters the kernel at its entry point with the magic number in EAX
-- and the information in EBX. The kernel's bytes are in place, and so are those of the information but
-- for the fields that the firmware sets; these hold the sizes of low and high memory and the length of
-- the map, which lists every entry of the firmware's map.
pub boot_multiboot_from_fw_cfg-IsLoaded :
    (A : Type 0) (items : ℕ → ℕ → ℕ) (s : Machine)
    → Serves s.env s.symbols.dma s.fuel s.globals.version items
    → s.symbols.dma < 2 ^ 32
    → number items Item.kernel_size ≢ 0
    → 52 ≤ number items Item.initrd_size
    → BytesIn s.globals.e820 (4 + 20 * map_count s) s.mem
    → map_count s < s.fuel
    → mmap_at items + 24 * map_count s < 2 ^ 32
    → AllApart (loaded_regions items s)
    → Apart (mmap_at items) (24 * map_count s) (kernel_at items) (number items Item.kernel_size)
    → Apart (mmap_at items) (24 * map_count s) s.globals.e820 (4 + 20 * map_count s)
    → Apart (mmap_at items) (24 * map_count s) (info_at items) 52
    → Boots
        (λ k t.
          (k ≡ flat_mode (number items Item.kernel_entry) 0x2badb002 (info_at items))
          × IsLoaded items s t)
        (boot_multiboot_from_fw_cfg {A = A} s)
unfolding boot_multiboot_from_fw_cfg
boot_multiboot_from_fw_cfg-IsLoaded A items s serves hd kernel room bytes enough small apart o p q =
    let n = map_count s in
    let mb = info_at items in
    let ((ki, (km, (kx, _))), ((im, (ix, _)), _)) = apart in
    let (g1, h1, run1, filled1) =
      multiboot_part-runs items Item.kernel_size Item.kernel_addr Item.kernel_data s (omega arith)
        serves (omega arith) (omega arith) kernel hd kx in
    let s1 : Machine = record s { io = h1; mem = g1 } in
    let (g2, h2, run2, filled2) =
      multiboot_part-runs items Item.initrd_size Item.initrd_addr Item.initrd_data s1 (omega arith)
        serves (omega arith) (omega arith) (λ e. absurd (omega (arith, e))) hd ix in
    let s2 : Machine = record s1 { io = h2; mem = g2 } in
    let count = count_kept items s g1 g2 apart room filled1 filled2 in
    let at = mmap_addr_read items s g1 g2 apart room filled1 filled2 in
    let (g3, run3, informed) =
      multiboot_setup-runs s2 mb (mmap_at items) n count at
        (bytes_kept items s g1 g2 apart room filled1 filled2 bytes) small p q (ground arith)
        enough in
    let s3 : Machine = record s2 { mem = g3 } in
    let entry = read_item-Serves items Item.kernel_entry s3 (omega arith) serves in
    rw (run1, run2, run3, entry)
      (refl, loaded items s g1 g2 apart room filled1 filled2 _ informed o)
