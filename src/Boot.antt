-- ===== src/Boot.antt =====
-- The second half of fw_cfg.c: the boot of multiboot, PVH and bzImage kernels that QEMU has loaded
-- into the configuration device, with include/multiboot.h and include/start_info.h.
pub mod Memmap
pub mod Multiboot
pub mod Mmap
pub mod Pvh
pub mod Items
pub mod Ramdisk
pub mod PvhParts
pub mod PvhBoot
pub mod ElfBoot
pub mod MultibootParts
pub mod MultibootBoot
pub mod BzimageParts
pub mod Launched
pub mod Entered
pub mod BzimageBoot
use qboot.Base.{
  ℕ, zero, suc, ◌+◌, ◌*◌, Option, none, some, ltb, ◌==◌, ◌!=◌, if◌then◌else◌, ◌>>>◌, u32, sub32,
  ◌-◌,
}
use qboot.Memory.{Memory, stl_p, stq_p, ldl_p, ldq_p, memset}
use qboot.Machine.{
  HvmStartInfo, Fw, pure, panic, booted, flat_mode, no_fuel, ◌>>=◌, ◌>>◌, gets, modify, load, store,
  symbol,
}
use qboot.Malloc.{malloc}
use qboot.FwCfg.{fw_cfg_select, fw_cfg_readl_le, fw_cfg_read, fw_cfg_read_entry}
use qboot.FwCfg.Item
use qboot.LinuxBoot.{LinuxbootArgs, parse_bzimage, boot_bzimage}
use qboot.Main.{entry_addr}

-- `fw_cfg_select(item); fw_cfg_readl_le()`
unfoldable pub read_item : ℕ → Fw ℕ
unfolding fw_cfg_select fw_cfg_readl_le
read_item item = do fw_cfg_select item; fw_cfg_readl_le

-- One round of the copy to the multiboot map: `mmap_addr` of `mb` is read in each, the entry of 24
-- bytes is stored, and `mmap_length` grows.
unfoldable pub mmap_round : (e820 mb i : ℕ) → Memory → Memory
mmap_round e820 mb i m =
    let from = entry_addr e820 i in
    let p = u32 (ldl_p m (mb + 48) + ldl_p m (mb + 44)) in
    let m1 = stl_p m p 20 in
    let m2 = stq_p m1 (p + 4) (ldq_p m1 from) in
    let m3 = stq_p m2 (p + 12) (ldq_p m2 (from + 8)) in
    let m4 = stl_p m3 (p + 20) (ldl_p m3 (from + 16)) in
    stl_p m4 (mb + 44) (ldl_p m4 (mb + 44) + 24)

-- One round of the copy to the PVH map.
unfoldable pub memmap_round : (e820 table i : ℕ) → Memory → Memory
memmap_round e820 table i m =
    let from = entry_addr e820 i in
    let p = table + 24 * i in
    let m1 = stq_p m p (ldq_p m from) in
    let m2 = stq_p m1 (p + 8) (ldq_p m1 (from + 8)) in stl_p m2 (p + 16) (ldl_p m2 (from + 16))

-- `for (i = ...; i < e820->nr_map; i++)`, which reads the count again in each round, on fuel.
unfoldable pub map_loop : (ℕ → Memory → Memory) → ℕ → (e820 i : ℕ) → Memory → Option Memory
map_loop round zero e820 i m = none
map_loop round (suc fuel) e820 i m =
    let rest = map_loop round fuel e820 (suc i) (round i m) in
    if ltb i (ldl_p m e820) then rest else some m

-- The loop on the machine's memory.
unfoldable pub run_map_loop : (ℕ → Memory → Memory) → (e820 : ℕ) → Fw (Unit {0})
unfolding map_loop
run_map_loop round e820 = do
  copied ← λ s. load (map_loop round s.fuel e820 0) s
  elim copied [ none ↦ no_fuel | some m ↦ store (λ _. m) ]

-- The kernel and the information of a multiboot kernel are read alike: the size, which must not be
-- 0, the address, and the bytes.
unfoldable pub multiboot_part : (size addr bytes : ℕ) → Fw ℕ
multiboot_part size addr bytes = do
  sz ← read_item size
  if sz == 0 then panic else do p ← read_item addr; fw_cfg_read_entry bytes p sz; pure p

-- The fields of `mb` that the firmware sets, and the memory map.
unfoldable pub multiboot_fields : (lowmem mb : ℕ) → Memory → Memory
multiboot_fields lowmem mb m =
    let m1 = stl_p m (mb + 4) 639 in
    let m2 = stl_p m1 (mb + 8) (sub32 lowmem 1048576 >>> 10) in stl_p m2 (mb + 44) 0

unfoldable pub multiboot_setup : (mb : ℕ) → Fw (Unit {0})
unfolding mmap_round run_map_loop
multiboot_setup mb = do
  lowmem ← gets (λ g. g.lowmem)
  e820 ← gets (λ g. g.e820)
  store (multiboot_fields lowmem mb)
  run_map_loop (mmap_round e820 mb) e820

unfoldable pub boot_multiboot_from_fw_cfg : {A : Type 0} → Fw A
boot_multiboot_from_fw_cfg = do
  multiboot_part Item.kernel_size Item.kernel_addr Item.kernel_data
  mb ← multiboot_part Item.initrd_size Item.initrd_addr Item.initrd_data
  multiboot_setup mb
  kernel_entry ← read_item Item.kernel_entry
  booted (flat_mode kernel_entry 0x2badb002 mb)

unfoldable pub pvh_e820_setup : Fw (Unit {0})
unfolding memmap_round run_map_loop
pvh_e820_setup = do
  e820 ← gets (λ g. g.e820)
  n ← load (λ m. ldl_p m e820)
  let pvh_e820_sz = u32 (24 * n)
  table ← malloc pvh_e820_sz
  store (λ m. memset m table 0 pvh_e820_sz)
  run_map_loop (memmap_round e820 table) e820
  n' ← load (λ m. ldl_p m e820)
  modify (λ g. record g {
    start_info = record g.start_info { memmap_paddr = table; memmap_entries = n' };
  })

-- The initrd as the first module, if there is one; `ramdisk_mod` is a local.
unfoldable pub pvh_initrd : Fw (Unit {0})
pvh_initrd = do
  size ← read_item Item.initrd_size
  if size == 0 then pure tt else do
    addr ← read_item Item.initrd_addr
    fw_cfg_read_entry Item.initrd_data addr size
    ramdisk_mod ← symbol (λ y. y.ramdisk_mod)
    store (λ m. stq_p (stq_p m ramdisk_mod addr) (ramdisk_mod + 8) size)
    modify (λ g. record g {
      start_info = record g.start_info { modlist_paddr = ramdisk_mod; nr_modules = 1 };
    })

-- The command line, in a block of its own.
unfoldable pub pvh_cmdline : Fw (Unit {0})
pvh_cmdline = do
  cmdline_size ← read_item Item.cmdline_size
  cmdline_addr ← malloc cmdline_size
  fw_cfg_read_entry Item.cmdline_data cmdline_addr cmdline_size
  modify (λ g. record g { start_info = record g.start_info { cmdline_paddr = cmdline_addr } })

-- The test for a kernel, and the jump.
unfoldable pub pvh_enter : {A : Type 0} → Fw A
pvh_enter = do
  sz ← read_item Item.kernel_size
  if sz == 0 then panic else do
    kernel_entry ← read_item Item.kernel_entry
    start_info ← symbol (λ y. y.start_info)
    booted (flat_mode kernel_entry 0x2badb002 start_info)

-- The fields of start_info that are set first.
abbrev pub pvh_start_info : HvmStartInfo → HvmStartInfo
pvh_start_info info = record info {
  magic = 0x336ec578;
  version = 1;
  flags = 0;
  nr_modules = 0;
  reserved = 0;
}

unfoldable pub boot_pvh_from_fw_cfg : {A : Type 0} → Fw A
boot_pvh_from_fw_cfg = do
  modify (λ g. record g { start_info = pvh_start_info g.start_info })
  pvh_cmdline
  pvh_initrd
  pvh_e820_setup
  pvh_enter

-- The arguments before the header has been read.
abbrev pub linuxboot_args : (cmdline_size initrd_size vmlinuz_size setup_addr : ℕ) → LinuxbootArgs
linuxboot_args cmdline_size initrd_size vmlinuz_size setup_addr = record {
  setup_addr = setup_addr;
  cmdline_addr = 0;
  kernel_addr = 0;
  initrd_addr = 0;
  setup_size = 0;
  kernel_size = 0;
  cmdline_size = cmdline_size;
  vmlinuz_size = vmlinuz_size;
  initrd_size = initrd_size;
}

-- The rest of the kernel's parts, and the jump.
unfoldable pub load_bzimage : {A : Type 0} → (kernel_size : ℕ) → LinuxbootArgs → Fw A
load_bzimage kernel_size args = do
  if ltb 8192 args.setup_size
      then fw_cfg_read (args.setup_addr + 8192) (args.setup_size - 8192)
      else pure tt
  fw_cfg_select Item.kernel_data
  fw_cfg_read_entry Item.kernel_data args.kernel_addr kernel_size
  fw_cfg_read_entry Item.cmdline_data args.cmdline_addr args.cmdline_size
  if args.initrd_size == 0
      then pure tt
      else fw_cfg_read_entry Item.initrd_data args.initrd_addr args.initrd_size
  boot_bzimage args

unfoldable pub boot_from_fwcfg : Fw (Unit {0})
boot_from_fwcfg = do
  cmdline_size ← read_item Item.cmdline_size
  initrd_size ← read_item Item.initrd_size
  kernel_size ← read_item Item.kernel_size
  setup_size ← read_item Item.setup_size
  setup_addr ← read_item Item.setup_addr
  let vmlinuz_size = u32 (kernel_size + setup_size)
  if vmlinuz_size == 0 then pure tt else do
    fw_cfg_select Item.setup_data
    fw_cfg_read setup_addr 8192
    lowmem ← gets (λ g. g.lowmem)
    let args = linuxboot_args cmdline_size initrd_size vmlinuz_size setup_addr
    parsed ← load (parse_bzimage lowmem args)
    elim parsed [
      | some (args', m) ↦ do store (λ _. m); load_bzimage kernel_size args'
      | none ↦ do
        magic ← load (λ m. ldl_p m setup_addr)
        if magic == 0x464c457f then boot_pvh_from_fw_cfg else boot_multiboot_from_fw_cfg
    ]
