-- ===== src/LinuxBoot.antt =====
-- linuxboot.c: reading and patching the header of a bzImage, and the jump into it.
pub mod Placement
pub mod Header
pub mod Loaded
use qboot.Base.{
  sub16, ℕ, ◌+◌, ◌*◌, Option, none, some, if◌then◌else◌, u16, bit_and, sub32, leb, ◌>>>◌, ◌!=◌, ltb,
  ◌==◌, ◌||◌, not32, bit_or,
}
use qboot.Memory.{Memory, st8, stw_p, stl_p, lduw_p, ldl_p}
use qboot.Machine.{Fw, Kernel, real_mode, booted, store, ◌>>◌}

-- `struct linuxboot_args`
pub record LinuxbootArgs : Type 0 where
  pub setup_addr : ℕ
  pub cmdline_addr : ℕ
  pub kernel_addr : ℕ
  pub initrd_addr : ℕ
  pub setup_size : ℕ
  pub kernel_size : ℕ
  pub cmdline_size : ℕ
  pub vmlinuz_size : ℕ
  pub initrd_size : ℕ

-- Where the three kinds of kernel are put.
pub record Addresses : Type 0 where
  pub real_addr : ℕ
  pub cmdline_addr : ℕ
  pub prot_addr : ℕ

-- `(0x9a000 - args->cmdline_size) & ~15`
unfoldable pub old_cmdline : ℕ → ℕ
old_cmdline cmdline_size = bit_and (sub32 0x9a000 cmdline_size) (not32 15)

unfoldable pub addresses : (protocol loadflags cmdline_size : ℕ) → Addresses
unfolding old_cmdline
addresses protocol loadflags cmdline_size =
    if ltb protocol 0x200 || bit_and loadflags 0x01 == 0
    then record {
      real_addr = 0x90000;
      cmdline_addr = old_cmdline cmdline_size;
      prot_addr = 0x10000;
    }
    else if ltb protocol 0x202
    then record {
      real_addr = 0x90000;
      cmdline_addr = old_cmdline cmdline_size;
      prot_addr = 0x100000;
    }
    else record { real_addr = 0x10000; cmdline_addr = 0x20000; prot_addr = 0x100000 }

-- The last address that the initrd may use.
unfoldable pub initrd_limit : (protocol ramdisk_max lowmem : ℕ) → ℕ
initrd_limit protocol ramdisk_max lowmem =
    let initrd_max = if leb 0x203 protocol then ramdisk_max else 0x37ffffff in
    if ltb (sub32 lowmem 1) initrd_max then sub32 lowmem 1 else initrd_max

-- `(initrd_max - args->initrd_size) & ~4095`, or 0 for no initrd.
unfoldable pub initrd_place : (initrd_max initrd_size : ℕ) → ℕ
initrd_place initrd_max initrd_size =
    if initrd_size == 0 then 0 else bit_and (sub32 initrd_max initrd_size) (not32 4095)

-- The stores that tell the kernel where its command line is.
unfoldable pub store_cmdline : ℕ → ℕ → Addresses → Memory → Memory
store_cmdline header protocol a m =
    if leb 0x202 protocol
    then stl_p m (header + 0x228) a.cmdline_addr
    else stw_p (stw_p m (header + 0x20) 0xa33f) (header + 0x22) (sub32 a.cmdline_addr a.real_addr)

unfoldable pub store_loader : ℕ → ℕ → Memory → Memory
store_loader header protocol m = if leb 0x200 protocol then st8 m (header + 0x210) 0xb0 else m

unfoldable pub store_heap : ℕ → ℕ → Addresses → Memory → Memory
store_heap header protocol a m =
    if leb 0x201 protocol
    then stw_p (st8 m (header + 0x211) (bit_or (m (header + 0x211)) 0x80)) (header + 0x224)
        (sub32 (sub32 a.cmdline_addr a.real_addr) 0x200)
    else m

unfoldable pub store_initrd : ℕ → ℕ → ℕ → Memory → Memory
store_initrd header initrd_addr initrd_size m =
    stl_p (stl_p m (header + 0x218) initrd_addr) (header + 0x21c) initrd_size

-- The number of 512-byte sectors of setup code.
unfoldable pub setup_sectors : ℕ → ℕ
setup_sectors n = if n == 0 then 4 else n

-- The stores into the header up to the heap's.
unfoldable pub store_setup : ℕ → ℕ → Addresses → Memory → Memory
unfolding store_cmdline store_loader store_heap
store_setup header protocol a m =
    store_heap header protocol a (store_loader header protocol (store_cmdline header protocol a m))

-- What is done once the magic number has been found.
unfoldable pub parsed : (lowmem : ℕ) → LinuxbootArgs → Memory → LinuxbootArgs × Memory
unfolding addresses initrd_limit initrd_place store_setup store_initrd setup_sectors
parsed lowmem args m =
    let header = args.setup_addr in
    let protocol = lduw_p m (header + 0x206) in
    let a = addresses protocol (m (header + 0x211)) args.cmdline_size in
    let limit = initrd_limit protocol (ldl_p m (header + 0x22c)) lowmem in
    let m1 = store_setup header protocol a m in
    let initrd_addr = initrd_place limit args.initrd_size in
    let m2 = store_initrd header initrd_addr args.initrd_size m1 in
    let sectors = setup_sectors (m2 (header + 0x1f1)) in
    (
      record args {
        setup_size = (sectors + 1) * 512;
        kernel_size = sub32 args.vmlinuz_size sectors;
        initrd_addr = initrd_addr;
        kernel_addr = a.prot_addr;
        cmdline_addr = a.cmdline_addr;
      },
      m2,
    )

-- `none` is the return of false, before anything is stored.
unfoldable pub parse_bzimage :
    (lowmem : ℕ) → LinuxbootArgs → Memory → Option (LinuxbootArgs × Memory)
unfolding parsed
parse_bzimage lowmem args m =
    if ldl_p m (args.setup_addr + 0x202) == 0x53726448 then some (parsed lowmem args m) else none

-- The two words that `lret` takes from the stack again: CS, and an IP of 0.
unfoldable pub push_entry : (bx dx : ℕ) → Memory → Memory
push_entry bx dx m =
    let ss = bx * 16 in stw_p (stw_p m (ss + sub16 dx 2) (u16 (bx + 0x20))) (ss + sub16 dx 4) 0

-- The far jump to `pm16_boot_linux`, and the 16-bit code there up to its `lret`.
unfoldable pub boot_bzimage : {A : Type 0} → LinuxbootArgs → Fw A
boot_bzimage args =
    let bx = u16 (args.setup_addr >>> 4) in
    let dx = u16 (sub32 (sub32 args.cmdline_addr args.setup_addr) 16) in
    store (push_entry bx dx) >> booted (real_mode bx dx (u16 (bx + 0x20)) 0)
