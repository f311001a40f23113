-- ===== src/Boot/ElfBoot.antt =====
-- boot_from_fwcfg on a kernel that is an ELF file: the way to boot_pvh_from_fw_cfg.
use qboot.Base.{
  ℕ, ◌≤◌, ◌+◌, ◌*◌, ◌<◌, ◌≡◌, ◌≢◌, ◌==◌, ◌^◌, ◌∙◌, ◌∷◌, arith, false, true, bit_and, none, ap, List,
  sym, subst,
}
use qboot.Memory.{Memory, BytesIn, ldl_p}
use qboot.Memory.Frame.{ldl_p-agree}
use qboot.Memory.Wide.{ldl_p-copied}
use qboot.CString.Copy.{Apart, AllApart}
use qboot.Machine.{Machine, Kernel, Outcome, booted, Boots, out, word, flat_mode, Io}
use qboot.FwCfg.Item
use qboot.FwCfg.Served.{reads}
use qboot.FwCfg.Contract.{Serves, number, number-lt}
use qboot.FwCfg.Sequence.{Continues, after_read, select-Ready, fw_cfg_read-Ready}
use qboot.LinuxBoot.{LinuxbootArgs, parse_bzimage}
use qboot.Boot.{boot_from_fwcfg, boot_pvh_from_fw_cfg}
use qboot.Boot.Items.{read_item-Serves}
use qboot.Boot.Launched.{vmlinuz_of, first_arguments}
use qboot.Boot.Memmap.{Copied-source}
use qboot.Boot.Pvh.{map_count}
use qboot.Boot.PvhBoot.{IsHandedOver, heap_need, regions, boot_pvh_from_fw_cfg-IsHandedOver}

-- Without the magic number of a bzImage nothing is parsed.
parse_bzimage-other :
    (lowmem : ℕ) (args : LinuxbootArgs) (m : Memory)
    → ldl_p m (args.setup_addr + 0x202) ≢ 0x53726448
    → parse_bzimage lowmem args m ≡ none
unfolding parse_bzimage
parse_bzimage-other lowmem args m other = ground arith

-- A boot keeps what follows from what holds at the entry.
Boots-map :
    {A : Type 0} {P Q : Kernel → Machine → Type 0} (o : Outcome A)
    → ((k : Kernel) (t : Machine) → P k t → Q k t)
    → Boots P o
    → Boots Q o
Boots-map (booted k t) f x = f k t x
Boots-map _ f x = absurd x

-- The state behind a read of the start of the setup code, at memory `g`, in a buffer that does not meet
-- the map: the map is the same.
module _ (items : ℕ → ℕ → ℕ) (s : Machine) (h : List Io) (g : Memory)
    (same : (a : ℕ)
      → s.globals.e820 ≤ a
      → a < s.globals.e820 + (4 + 20 * map_count s)
      → g a ≡ s.mem a) where
  abbrev peeked : Machine
  peeked = record s { io = h; mem = g }

  map_count-peeked : map_count peeked ≡ map_count s
  map_count-peeked = ldl_p-agree s.mem g s.globals.e820 (λ a k l. same a k (omega arith))

  -- What is handed over there is what `s` has to hand over.
  IsHandedOver-peeked : (t : Machine) → IsHandedOver items peeked t → IsHandedOver items s t
  IsHandedOver-peeked t x = record {
    magic = x.magic;
    version = x.version;
    flags = x.flags;
    rsdp_paddr = x.rsdp_paddr;
    cmdline = x.cmdline;
    ramdisk = x.ramdisk;
    memmap_entries = x.memmap_entries ∙ map_count-peeked;
    memmap = λ k l.
        Copied-source s.mem g t.mem s.globals.e820 t.globals.start_info.memmap_paddr k
          (λ a i j. same a (omega arith) (omega arith))
          (x.memmap k (omega (arith, map_count-peeked)));
  }

  peeked-Boots :
      Serves s.env s.symbols.dma s.fuel s.globals.version items
      → s.symbols.dma < 2 ^ 32
      → number items Item.kernel_size ≢ 0
      → BytesIn s.globals.e820 (4 + 20 * map_count s) s.mem
      → map_count s < s.fuel
      → heap_need items s ≤ s.globals.malloc_top
      → s.globals.malloc_top < 2 ^ 32
      → AllApart (regions items s)
      → Boots
          (λ k t.
            (k ≡ flat_mode (number items Item.kernel_entry) 0x2badb002 s.symbols.start_info)
            × IsHandedOver items s t)
          (boot_pvh_from_fw_cfg {A = Unit {0}} peeked)
  peeked-Boots serves hd kernel bytes enough room top apart =
      let count = map_count-peeked in
      let there =
        boot_pvh_from_fw_cfg-IsHandedOver (Unit {0}) items peeked serves hd kernel
          (λ a k l.
            subst (λ v. v < 256) (sym (same a k (omega (arith, count))))
              (bytes a k (omega (arith, count))))
          (omega (arith, count)) (omega (arith, count)) top (rw count apart) in
      Boots-map (boot_pvh_from_fw_cfg {A = Unit {0}} peeked)
        (λ k t x. (x.0, IsHandedOver-peeked t x.1)) there

-- Let the device serve a kernel of a size other than 0, whose setup code starts with the magic number of
-- an ELF file and has not the one of a bzImage, and let the start of the setup code be read to a place
-- that meets neither the DMA descriptor nor the memory map. The map is made of bytes, with fewer entries
-- than there is fuel. The heap, which ends below 4 GB, has room for the command line, a copy of the map
-- and 30 bytes of alignment; the part of the heap that this takes, the initrd, the map, the DMA
-- descriptor and the module entry do not meet. Then boot_from_fwcfg enters the kernel the PVH way: at its
-- entry point, with 0x2badb002 in EAX and start_info in EBX, which has its magic number, version 1, no
-- flags and the RSDP that it had, and leads to the bytes of the command line, to the initrd, if there is
-- one, and to a copy of every entry of the map that there was at the call.
pub boot_from_fwcfg-IsHandedOver :
    (items : ℕ → ℕ → ℕ) (s : Machine)
    → Serves s.env s.symbols.dma s.fuel s.globals.version items
    → (bit_and s.globals.version 2 ≢ 0
        → Continues s.env s.symbols.dma s.fuel 8192 Item.setup_data (items Item.setup_data))
    → s.symbols.dma < 2 ^ 32
    → number items Item.kernel_size ≢ 0
    → vmlinuz_of items ≢ 0
    → ldl_p (items Item.setup_data) 0x202 ≢ 0x53726448
    → ldl_p (items Item.setup_data) 0 ≡ 0x464c457f
    → Apart (number items Item.setup_addr) 8192 s.symbols.dma 16
    → Apart (number items Item.setup_addr) 8192 s.globals.e820 (4 + 20 * map_count s)
    → BytesIn s.globals.e820 (4 + 20 * map_count s) s.mem
    → map_count s < s.fuel
    → heap_need items s ≤ s.globals.malloc_top
    → s.globals.malloc_top < 2 ^ 32
    → AllApart (regions items s)
    → Boots
        (λ k t.
          (k ≡ flat_mode (number items Item.kernel_entry) 0x2badb002 s.symbols.start_info)
          × IsHandedOver items s t)
        (boot_from_fwcfg s)
unfolding boot_from_fwcfg qboot.FwCfg.fw_cfg_select
boot_from_fwcfg-IsHandedOver items s serves more hd kernel some_kernel other elf off_dma off_map
      bytes enough room top apart =
    let dma = s.symbols.dma in
    let version = s.globals.version in
    let item = items Item.setup_data in
    let setup = number items Item.setup_addr in
    let (_, (_, ((ed, _), _))) = apart in
    let h1 = reads 4 (out word 0x510 Item.cmdline_size ∷ s.io) in
    let h2 = reads 4 (out word 0x510 Item.initrd_size ∷ h1) in
    let h3 = reads 4 (out word 0x510 Item.kernel_size ∷ h2) in
    let h4 = reads 4 (out word 0x510 Item.setup_size ∷ h3) in
    let h5 = reads 4 (out word 0x510 Item.setup_addr ∷ h4) in
    let port = serves.0 Item.setup_data (omega arith) in
    let h6 = out word 0x510 Item.setup_data ∷ h5 in
    let first = select-Ready s.env dma s.fuel version Item.setup_data 8192 item port more h5 in
    let small = number-lt items Item.setup_addr s (omega arith) serves in
    let (g, run, (filled, same)) =
      fw_cfg_read-Ready item setup 8192 s h6 first (omega arith) (omega arith) hd off_dma in
    let h7 = after_read dma version 8192 h6 in
    let there : vmlinuz_of items == 0 ≡ false = ground arith in
    let at = λ (o : ℕ) (k : o + 4 ≤ 8192). ldl_p-copied item g (setup + o) o (λ i l.
      let shift : setup + o + i ≡ setup + (o + i) = omega arith in
      ap g shift ∙ filled (o + i) (omega arith)) in
    let none_parsed =
      parse_bzimage-other s.globals.lowmem (first_arguments items) g
        (λ e. other (sym (at 0x202 (omega arith)) ∙ e)) in
    let front : setup + 0 ≡ setup = omega arith in
    let is_elf : ldl_p g setup == 0x464c457f ≡ true =
      ground (arith, ap (ldl_p g) front, at 0 (omega arith), elf) in
    rw
      (
        read_item-Serves items Item.cmdline_size s (omega arith) serves,
        read_item-Serves items Item.initrd_size (record s { io = h1 }) (omega arith) serves,
        read_item-Serves items Item.kernel_size (record s { io = h2 }) (omega arith) serves,
        read_item-Serves items Item.setup_size (record s { io = h3 }) (omega arith) serves,
        read_item-Serves items Item.setup_addr (record s { io = h4 }) (omega arith) serves,
        there,
        run,
        none_parsed,
        is_elf,
      )
      (peeked-Boots items s h7 g (λ a k l. same a (ground arith) (ground arith)) serves hd kernel
        bytes enough room top apart)
