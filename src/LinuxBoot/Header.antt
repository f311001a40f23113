-- ===== src/LinuxBoot/Header.antt =====
-- What parse_bzimage tells the kernel in its header, and what it leaves alone.
use qboot.LinuxBoot.{
  LinuxbootArgs, Addresses, parse_bzimage, parsed, store_initrd, initrd_limit, store_setup,
  store_loader, store_cmdline, addresses, store_heap, initrd_place,
}
use qboot.LinuxBoot.Placement.{initrd_place_lem}
use qboot.Memory.Frame.{Outside, ldl_p-agree, stl_p-Outside, stw_p-Outside, st8-ne, ldl_p-stl_p}
use qboot.Memory.{Memory, stl_p, stw_p, st8, ldl_p, lduw_p}
use qboot.Base.{
  leb, if◌then◌else◌, ◌⊎◌, ℕ, ◌≡◌, ◌+◌, ◌%◌, some, ◌<◌, ◌^◌, arith, ◌≤◌, ◌∙◌, subst, sub32, bit_or,
  sym,
}

pub store_initrd-place :
    (header x y : ℕ) (m : Memory)
    → x < 2 ^ 32
    → y < 2 ^ 32
    → let m' = store_initrd header x y m in
      (ldl_p m' (header + 0x218) ≡ x) × (ldl_p m' (header + 0x21c) ≡ y)
unfolding store_initrd
store_initrd-place header x y m hx hy = (
  ldl_p-agree (stl_p m (header + 0x218) x) (stl_p (stl_p m (header + 0x218) x) (header + 0x21c) y)
        (header + 0x218)
        (λ a k l. stl_p-Outside (stl_p m (header + 0x218) x) (header + 0x21c) y a (ground arith))
      ∙ ldl_p-stl_p m (header + 0x218) x hx,
  ldl_p-stl_p (stl_p m (header + 0x218) x) (header + 0x21c) y hy,
)

-- A result is the one of `parsed`.
parsed_of_some :
    (lowmem : ℕ) (args : LinuxbootArgs) (m : Memory) {r : LinuxbootArgs × Memory}
    → parse_bzimage lowmem args m ≡ some r
    → r ≡ parsed lowmem args m
unfolding parse_bzimage
parsed_of_some lowmem args m h = ground arith

abbrev limit_of : (lowmem : ℕ) → LinuxbootArgs → Memory → ℕ
limit_of lowmem args m =
    initrd_limit (lduw_p m (args.setup_addr + 0x206)) (ldl_p m (args.setup_addr + 0x22c)) lowmem

-- The last address that the boot protocol allows for the initrd: from protocol 2.03 on the header says
-- it, and before it is 0x37ffffff.
abbrev pub allowed : LinuxbootArgs → Memory → ℕ
allowed args m =
    if leb 0x203 (lduw_p m (args.setup_addr + 0x206))
    then ldl_p m (args.setup_addr + 0x22c)
    else 0x37ffffff

-- `args` describes an initrd that lies on a page, ends below `top` and not above `most`, and would not
-- do so one page higher; the header in `m` says where it is.
pub record IsPlaced (most top : ℕ) (args : LinuxbootArgs) (m : Memory) : Type 0 where
  pub aligned : args.initrd_addr % 4096 ≡ 0
  pub below : args.initrd_addr + args.initrd_size ≤ most
  pub in_memory : args.initrd_addr + args.initrd_size < top
  pub highest :
      (most < args.initrd_addr + 4096 + args.initrd_size)
      ⊎ (top ≤ args.initrd_addr + 4096 + args.initrd_size)
  pub ramdisk_image : ldl_p m (args.setup_addr + 0x218) ≡ args.initrd_addr
  pub ramdisk_size : ldl_p m (args.setup_addr + 0x21c) ≡ args.initrd_size

-- The limit is the smaller of the two bounds.
limit_of-least :
    (lowmem : ℕ) (args : LinuxbootArgs) (m : Memory)
    → 0 < lowmem
    → lowmem < 2 ^ 32
    → (limit_of lowmem args m ≤ allowed args m)
      × (limit_of lowmem args m < lowmem)
      × ((allowed args m ≤ limit_of lowmem args m) ⊎ (lowmem ≤ limit_of lowmem args m + 1))
unfolding initrd_limit
limit_of-least lowmem args m low top = ground arith

parsed-IsPlaced :
    (lowmem : ℕ) (args : LinuxbootArgs) (m : Memory)
    → 0 < lowmem
    → lowmem < 2 ^ 32
    → 0 < args.initrd_size
    → args.initrd_size ≤ allowed args m
    → args.initrd_size < lowmem
    → IsPlaced (allowed args m) lowmem (parsed lowmem args m).0 (parsed lowmem args m).1
unfolding parsed
parsed-IsPlaced lowmem args m low top pos fits room =
    let limit = limit_of lowmem args m in
    let (le, lt, least) = limit_of-least lowmem args m low top in
    let in_limit : args.initrd_size ≤ limit = omega (arith, least) in
    let placed = initrd_place_lem limit args.initrd_size pos in_limit (omega (arith, lt)) in
    let a =
      addresses (lduw_p m (args.setup_addr + 0x206)) (m (args.setup_addr + 0x211))
        args.cmdline_size in
    let stored =
      store_initrd-place args.setup_addr (initrd_place limit args.initrd_size) args.initrd_size
        (store_setup args.setup_addr (lduw_p m (args.setup_addr + 0x206)) a m)
        (omega (arith, placed, lt)) (omega arith) in
    record {
      aligned = placed.0;
      below = omega (arith, placed, le);
      in_memory = omega (arith, placed, lt);
      highest = ground (arith, least, placed);
      ramdisk_image = stored.0;
      ramdisk_size = stored.1;
    }

-- Where `parse_bzimage` succeeds with an initrd that would fit below the end of the low memory and up
-- to the last address that the kernel's header allows (0x37ffffff before protocol 2.03), the initrd is
-- put on the highest page from which it ends below the one and no higher than the other, and the header's
-- fields for its address and size hold just these.
pub parse_bzimage-IsPlaced :
    (lowmem : ℕ) (args args' : LinuxbootArgs) (m m' : Memory)
    → parse_bzimage lowmem args m ≡ some (args', m')
    → 0 < lowmem
    → lowmem < 2 ^ 32
    → 0 < args.initrd_size
    → args.initrd_size ≤ allowed args m
    → args.initrd_size < lowmem
    → IsPlaced (allowed args m) lowmem args' m'
parse_bzimage-IsPlaced lowmem args args' m m' h low top pos fits room =
    subst (λ r. IsPlaced (allowed args m) lowmem r.0 r.1) (sym (parsed_of_some lowmem args m h))
      (parsed-IsPlaced lowmem args m low top pos fits room)

-- The two parts of the header that the loader may write.
abbrev pub Unpatched : ℕ → ℕ → Type 0
Unpatched header a = Outside (header + 0x20) 4 a × Outside (header + 0x210) 28 a

store_cmdline-outside :
    (header protocol : ℕ) (d : Addresses) (m : Memory) (a : ℕ)
    → Unpatched header a
    → store_cmdline header protocol d m a ≡ m a
unfolding store_cmdline
store_cmdline-outside header protocol d m a o = ground (
  arith,
  stl_p-Outside m (header + 0x228) d.cmdline_addr a,
  stw_p-Outside (stw_p m (header + 0x20) 0xa33f) (header + 0x22) (sub32 d.cmdline_addr d.real_addr)
      a,
  stw_p-Outside m (header + 0x20) 0xa33f a,
)

pub store_loader-outside :
    (header protocol : ℕ) (m : Memory) (a : ℕ)
    → Unpatched header a
    → store_loader header protocol m a ≡ m a
unfolding store_loader
store_loader-outside header protocol m a o = ground (arith, st8-ne m (header + 0x210) 0xb0 a)

pub store_heap-outside :
    (header protocol : ℕ) (d : Addresses) (m : Memory) (a : ℕ)
    → Unpatched header a
    → store_heap header protocol d m a ≡ m a
unfolding store_heap
store_heap-outside header protocol d m a o =
    let v = bit_or (m (header + 0x211)) 0x80 in
    ground (
      arith,
      stw_p-Outside (st8 m (header + 0x211) v) (header + 0x224)
          (sub32 (sub32 d.cmdline_addr d.real_addr) 0x200) a,
      st8-ne m (header + 0x211) v a,
    )

pub store_initrd-outside :
    (header x y : ℕ) (m : Memory) (a : ℕ) → Unpatched header a → store_initrd header x y m a ≡ m a
unfolding store_initrd
store_initrd-outside header x y m a o =
    stl_p-Outside (stl_p m (header + 0x218) x) (header + 0x21c) y a (ground arith)
    ∙ stl_p-Outside m (header + 0x218) x a (ground arith)

pub parsed-outside :
    (lowmem : ℕ) (args : LinuxbootArgs) (m : Memory) (a : ℕ)
    → Unpatched args.setup_addr a
    → (parsed lowmem args m).1 a ≡ m a
unfolding parsed store_setup
parsed-outside lowmem args m a o =
    let header = args.setup_addr in
    let protocol = lduw_p m (header + 0x206) in
    let d = addresses protocol (m (header + 0x211)) args.cmdline_size in
    let m1 = store_cmdline header protocol d m in
    let m2 = store_loader header protocol m1 in
    store_initrd-outside header (initrd_place (limit_of lowmem args m) args.initrd_size)
      args.initrd_size (store_heap header protocol d m2) a o
    ∙ store_heap-outside header protocol d m2 a o
    ∙ store_loader-outside header protocol m1 a o
    ∙ store_cmdline-outside header protocol d m a o
