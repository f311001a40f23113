-- ===== src/Boot/BzimageBoot.antt =====
-- boot_from_fwcfg on a bzImage as a whole, with parse_bzimage of linuxboot.c: what the kernel gets.
use qboot.Base.{◌%◌, ◌≤◌, ℕ, ◌<◌, ◌≡◌, ◌≢◌, ◌==◌, ◌^◌, ◌∷◌, arith, false, bit_and, ◌+◌}
use qboot.Memory.{Memory, ldl_p}
use qboot.CString.Copy.{AllApart}
use qboot.Machine.{Machine, Boots, out, word}
use qboot.FwCfg.Item
use qboot.FwCfg.Served.{reads}
use qboot.FwCfg.Contract.{Serves, number, number-lt}
use qboot.FwCfg.Sequence.{Continues, after_read, select-Ready, after_read-Ready, fw_cfg_read-Ready}
use qboot.LinuxBoot.{parsed, setup_sectors}
use qboot.LinuxBoot.Loaded.{
  protocol_of, setup_size_of, addresses-small, initrd_place-small, parse_bzimage-arguments,
}
use qboot.Boot.{boot_from_fwcfg}
use qboot.Boot.Items.{read_item-Serves}
use qboot.Boot.BzimageParts.{pushed, Fits, load_bzimage-runs}
use qboot.Boot.Entered.{IsEntered, entry_of-IsEntered, IsLaunched-agree, pushed-Outside}
use qboot.Boot.Launched.{
  IsLaunched, vmlinuz_of, first_arguments, last_arguments, bzimage_regions, launched,
}

setup_size-small : (item : Memory) → item 0x1f1 < 256 → setup_size_of item < 2 ^ 32
unfolding setup_sectors
setup_size-small item h = ground arith

-- A device that serves a kernel to be started at its setup code.
module _ (items : ℕ → ℕ → ℕ) (s : Machine)
    (serves : Serves s.env s.symbols.dma s.fuel s.globals.version items)
    (apart : AllApart
      (bzimage_regions items s.symbols.dma (last_arguments items s.globals.lowmem))) where
  number_small : (e : ℕ) → e < 2 ^ 16 → number items e < 2 ^ 32
  number_small e he = number-lt items e s he serves

  fits : Fits s.symbols.dma (number items Item.kernel_size) (last_arguments items s.globals.lowmem)
  fits =
      let item = items Item.setup_data in
      let ((_, (_, (_, (sd, _)))), ((_, (_, (kd, _))), ((_, (cd, _)), ((id, _), _)))) = apart in
      let a = addresses-small (protocol_of item) (item 0x211) (number items Item.cmdline_size) in
      record {
        setup_addr = number_small Item.setup_addr (omega arith);
        setup_size =
            setup_size-small item
              (omega (arith, serves.0 Item.setup_data (omega arith) s.io 0x1f1));
        kernel_addr = a.1;
        kernel_bytes = number_small Item.kernel_size (omega arith);
        cmdline_addr = a.0;
        cmdline_size = number_small Item.cmdline_size (omega arith);
        initrd_addr = initrd_place-small _ (number items Item.initrd_size);
        initrd_size = number_small Item.initrd_size (omega arith);
        setup = ground arith;
        kernel = kd;
        cmdline = cd;
        initrd = id;
      }

-- Let the device serve a kernel of a size other than 0 whose setup code has the magic number of a
-- bzImage, and let it go on with the setup code when a second transfer asks for it. The setup code is on
-- a multiple of 16, more than 512 bytes below 1 MB, and the command line ends up at least 20 bytes and
-- less than 64 KB and 16 bytes above its start. The setup code, the kernel, the command line, the initrd,
-- the DMA descriptor and the 4 bytes of stack that the entry takes do not meet, at the addresses that
-- follow from the kernel's header. Then boot_from_fwcfg enters the kernel in real mode, with the setup
-- code as its data and stack segment, 512 bytes behind the start of the setup code, and with the stack
-- pointer 16 bytes below the command line. In memory are the setup code but for the loader's parts of
-- the header, the kernel, the command line and the initrd; the header has the address and the size of
-- the initrd and, from protocol 2.02 on, the address of the command line.
pub boot_from_fwcfg-IsLaunched :
    (items : ℕ → ℕ → ℕ) (s : Machine)
    → Serves s.env s.symbols.dma s.fuel s.globals.version items
    → (bit_and s.globals.version 2 ≢ 0
        → Continues s.env s.symbols.dma s.fuel 8192 Item.setup_data (items Item.setup_data))
    → s.symbols.dma < 2 ^ 32
    → vmlinuz_of items ≢ 0
    → ldl_p (items Item.setup_data) 0x202 ≡ 0x53726448
    → AllApart (bzimage_regions items s.symbols.dma (last_arguments items s.globals.lowmem))
    → number items Item.setup_addr % 16 ≡ 0
    → number items Item.setup_addr + 512 < 2 ^ 20
    → number items Item.setup_addr + 20 ≤ (last_arguments items s.globals.lowmem).cmdline_addr
    → (last_arguments items s.globals.lowmem).cmdline_addr
      < number items Item.setup_addr + 16 + 2 ^ 16
    → Boots
        (λ k t.
          IsEntered (last_arguments items s.globals.lowmem) k
          × IsLaunched items (last_arguments items s.globals.lowmem) t.mem)
        (boot_from_fwcfg s)
unfolding boot_from_fwcfg qboot.FwCfg.fw_cfg_select
boot_from_fwcfg-IsLaunched items s serves more hd some_kernel magic apart aligned low above near =
    let dma = s.symbols.dma in
    let version = s.globals.version in
    let lowmem = s.globals.lowmem in
    let item = items Item.setup_data in
    let f = fits items s serves apart in
    let h1 = reads 4 (out word 0x510 Item.cmdline_size ∷ s.io) in
    let h2 = reads 4 (out word 0x510 Item.initrd_size ∷ h1) in
    let h3 = reads 4 (out word 0x510 Item.kernel_size ∷ h2) in
    let h4 = reads 4 (out word 0x510 Item.setup_size ∷ h3) in
    let h5 = reads 4 (out word 0x510 Item.setup_addr ∷ h4) in
    let port = serves.0 Item.setup_data (omega arith) in
    let h6 = out word 0x510 Item.setup_data ∷ h5 in
    let first = select-Ready s.env dma s.fuel version Item.setup_data 8192 item port more h5 in
    let second =
      after_read-Ready s.env dma s.fuel version Item.setup_data 8192 item port more h5 hd in
    let (g1, run1, filled1) =
      fw_cfg_read-Ready item (number items Item.setup_addr) 8192 s h6 first
        (omega (arith, f.setup_addr)) (omega arith) hd (ground arith) in
    let args0 = first_arguments items in
    let parse = parse_bzimage-arguments item lowmem args0 g1 filled1.0 magic in
    let m = (parsed lowmem args0 g1).1 in
    let h7 = after_read dma version 8192 h6 in
    let (g, h, run2, loads) =
      load_bzimage-runs Unit items (number items Item.kernel_size) (last_arguments items lowmem)
        (record s { mem = m }) h7 serves second hd f in
    let args = last_arguments items lowmem in
    let there : vmlinuz_of items == 0 ≡ false = ground arith in
    rw
      (
        read_item-Serves items Item.cmdline_size s (omega arith) serves,
        read_item-Serves items Item.initrd_size (record s { io = h1 }) (omega arith) serves,
        read_item-Serves items Item.kernel_size (record s { io = h2 }) (omega arith) serves,
        read_item-Serves items Item.setup_size (record s { io = h3 }) (omega arith) serves,
        read_item-Serves items Item.setup_addr (record s { io = h4 }) (omega arith) serves,
        there,
        run1,
        parse,
        run2,
      )
      (
        entry_of-IsEntered args aligned low above near,
        IsLaunched-agree items dma args g (pushed args g) apart
            (pushed-Outside args aligned low above near g)
            (launched items dma lowmem g1 g filled1.0 apart loads f.initrd_size),
      )
