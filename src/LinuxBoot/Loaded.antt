-- ===== src/LinuxBoot/Loaded.antt =====
-- parse_bzimage on the start of a kernel that has been read to its place: what it finds there.
use qboot.Base.{
  ℕ, ◌+◌, ◌*◌, ◌<◌, ◌≤◌, ◌≡◌, ◌==◌, ◌^◌, ◌∙◌, refl, ap, arith, some, true, sub32, leb, inr, suc,
  bit_or,
}
use qboot.Base.Bits.{bit_and-le}
use qboot.Memory.{Memory, lduw_p, ldl_p, stl_p, st8}
use qboot.Memory.Frame.{ldl_p-agree, stl_p-Outside, stw_p-Outside, st8-ne, ldl_p-stl_p}
use qboot.Memory.Wide.{ldl_p-copied}
use qboot.LinuxBoot.{
  LinuxbootArgs, Addresses, addresses, old_cmdline, initrd_limit, initrd_place, setup_sectors,
  store_setup, store_cmdline, store_loader, store_heap, store_initrd, parsed, parse_bzimage,
}
use qboot.LinuxBoot.Header.{parsed-outside, store_initrd-place}

-- The protocol, the three addresses and the limit for the initrd that the header in `item` leads to.
abbrev pub protocol_of : Memory → ℕ
protocol_of item = lduw_p item 0x206

abbrev pub addresses_of : Memory → (cmdline_size : ℕ) → Addresses
addresses_of item cmdline_size = addresses (protocol_of item) (item 0x211) cmdline_size

abbrev pub initrd_addr_of : Memory → (lowmem initrd_size : ℕ) → ℕ
initrd_addr_of item lowmem initrd_size =
    initrd_place (initrd_limit (protocol_of item) (ldl_p item 0x22c) lowmem) initrd_size

abbrev pub setup_size_of : Memory → ℕ
setup_size_of item = (setup_sectors (item 0x1f1) + 1) * 512

-- The arguments that follow from the header.
abbrev pub arguments : Memory → ℕ → LinuxbootArgs → LinuxbootArgs
arguments item lowmem args = record args {
  setup_size = setup_size_of item;
  kernel_size = sub32 args.vmlinuz_size (setup_sectors (item 0x1f1));
  initrd_addr = initrd_addr_of item lowmem args.initrd_size;
  kernel_addr = (addresses_of item args.cmdline_size).prot_addr;
  cmdline_addr = (addresses_of item args.cmdline_size).cmdline_addr;
}

-- All addresses have 32 bits.
pub addresses-small :
    (protocol loadflags cmdline_size : ℕ)
    → let a = addresses protocol loadflags cmdline_size in
      (a.cmdline_addr < 2 ^ 32) × (a.prot_addr < 2 ^ 32)
unfolding addresses old_cmdline
addresses-small protocol loadflags cmdline_size =
    ground (arith, bit_and-le (sub32 0x9a000 cmdline_size) 0xfffffff0)

pub initrd_place-small : (limit size : ℕ) → initrd_place limit size < 2 ^ 32
unfolding initrd_place
initrd_place-small limit size = ground (arith, bit_and-le (sub32 limit size) 0xfffff000)

-- The pointer to the command line is not met by the stores behind its own.
pointer_kept :
    (header protocol : ℕ) (d : Addresses) (x y : ℕ) (m : Memory) (a : ℕ)
    → header + 0x228 ≤ a
    → store_initrd header x y (store_heap header protocol d (store_loader header protocol m)) a
      ≡ m a
unfolding store_initrd store_heap store_loader
pointer_kept header protocol d x y m a h =
    let m1 = store_loader header protocol m in
    let v = bit_or (m1 (header + 0x211)) 0x80 in
    let m2 = store_heap header protocol d m1 in
    stl_p-Outside (stl_p m2 (header + 0x218) x) (header + 0x21c) y a (inr (omega arith))
    ∙ stl_p-Outside m2 (header + 0x218) x a (inr (omega arith))
    ∙ ground (
      arith,
      stw_p-Outside (st8 m1 (header + 0x211) v) (header + 0x224)
          (sub32 (sub32 d.cmdline_addr d.real_addr) 0x200) a,
      st8-ne m1 (header + 0x211) v a,
      st8-ne m (header + 0x210) 0xb0 a,
    )

pointer-stored :
    (header protocol : ℕ) (d : Addresses) (x y : ℕ) (m : Memory)
    → 0x202 ≤ protocol
    → d.cmdline_addr < 2 ^ 32
    → ldl_p (store_initrd header x y (store_setup header protocol d m)) (header + 0x228)
      ≡ d.cmdline_addr
unfolding store_setup store_cmdline
pointer-stored header protocol d x y m new small =
    let m1 = stl_p m (header + 0x228) d.cmdline_addr in
    let modern : leb 0x202 protocol ≡ true = ground arith in
    rw modern (
      ldl_p-agree m1
        (store_initrd header x y (store_heap header protocol d (store_loader header protocol m1)))
        (header + 0x228) (λ a h k. pointer_kept header protocol d x y m1 a h)
      ∙ ldl_p-stl_p m (header + 0x228) d.cmdline_addr small)

-- The first 8192 bytes of `item` are at the setup address.
module _ (item : Memory) (lowmem : ℕ) (args : LinuxbootArgs) (m : Memory)
    (peek : (i : ℕ) → i < 8192 → m (args.setup_addr + i) ≡ item i) where
  word_at : (o : ℕ) → o + 4 ≤ 8192 → ldl_p m (args.setup_addr + o) ≡ ldl_p item o
  word_at o h = ldl_p-copied item m (args.setup_addr + o) o λ i l.
      let shift : args.setup_addr + o + i ≡ args.setup_addr + (o + i) = omega arith in
      ap m shift ∙ peek (o + i) (omega arith)

  protocol_at : lduw_p m (args.setup_addr + 0x206) ≡ protocol_of item
  protocol_at =
      let next : suc (args.setup_addr + 0x206) ≡ args.setup_addr + 0x207 = omega arith in
      omega (arith, peek 0x206 (omega arith), ap m next ∙ peek 0x207 (omega arith))

  sectors_at : (parsed lowmem args m).1 (args.setup_addr + 0x1f1) ≡ item 0x1f1
  sectors_at =
      parsed-outside lowmem args m (args.setup_addr + 0x1f1) (ground arith)
      ∙ peek 0x1f1 (omega arith)

  parsed-arguments : (parsed lowmem args m).0 ≡ arguments item lowmem args
  unfolding parsed
  parsed-arguments =
      rw (sectors_at, protocol_at, peek 0x211 (omega arith), word_at 0x22c (omega arith)) refl

  pub parse_bzimage-arguments :
      ldl_p item 0x202 ≡ 0x53726448
      → parse_bzimage lowmem args m ≡ some (arguments item lowmem args, (parsed lowmem args m).1)
  unfolding parse_bzimage
  parse_bzimage-arguments magic =
      let found : ldl_p m (args.setup_addr + 0x202) == 0x53726448 ≡ true =
        ground (arith, word_at 0x202 (omega arith), magic) in
      rw found (ap (λ a. some (a, (parsed lowmem args m).1)) parsed-arguments)

  -- The header says where the initrd is, and, to a kernel that reads it there, where the command line
  -- is.
  pub parsed-told :
      args.initrd_size < 2 ^ 32
      → let g = (parsed lowmem args m).1 in
        let a = arguments item lowmem args in
        (ldl_p g (args.setup_addr + 0x218) ≡ a.initrd_addr)
        × (ldl_p g (args.setup_addr + 0x21c) ≡ args.initrd_size)
        × (0x202 ≤ protocol_of item → ldl_p g (args.setup_addr + 0x228) ≡ a.cmdline_addr)
  unfolding parsed
  parsed-told hi =
      let p = args.setup_addr in
      let protocol = protocol_of item in
      let d = addresses_of item args.cmdline_size in
      let small = addresses-small protocol (item 0x211) args.cmdline_size in
      let x = initrd_addr_of item lowmem args.initrd_size in
      let limit = initrd_limit protocol (ldl_p item 0x22c) lowmem in
      let placed = initrd_place-small limit args.initrd_size in
      let stored = store_initrd-place p x args.initrd_size (store_setup p protocol d m) placed hi in
      rw (protocol_at, peek 0x211 (omega arith), word_at 0x22c (omega arith))
        (stored.0, stored.1, λ new. pointer-stored p protocol d x args.initrd_size m new small.0)
