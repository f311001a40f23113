-- ===== src/Boot/Launched.antt =====
-- What a bzImage kernel finds in memory, and the reads that put it there.
use qboot.Base.{
  ℕ, ◌+◌, ◌-◌, ◌<◌, ◌≤◌, ◌≡◌, ◌^◌, ◌∙◌, ◌∷◌, [], ap, arith, List, u32, inl, inr, ltb, Bool-cases,
}
use qboot.Memory.{Memory, ldl_p}
use qboot.Memory.Frame.{ldl_p-agree}
use qboot.CString.Copy.{AllApart}
use qboot.FwCfg.Item
use qboot.FwCfg.Contract.{number}
use qboot.LinuxBoot.{LinuxbootArgs, parsed}
use qboot.LinuxBoot.Header.{Unpatched, parsed-outside}
use qboot.LinuxBoot.Loaded.{arguments, protocol_of, parsed-told}
use qboot.Boot.{linuxboot_args}
use qboot.Boot.BzimageParts.{Loads}

-- The size of the whole kernel, and the arguments before and behind the look at its header.
abbrev pub vmlinuz_of : (ℕ → ℕ → ℕ) → ℕ
vmlinuz_of items = u32 (number items Item.kernel_size + number items Item.setup_size)

abbrev pub first_arguments : (ℕ → ℕ → ℕ) → LinuxbootArgs
first_arguments items =
    linuxboot_args (number items Item.cmdline_size) (number items Item.initrd_size)
      (vmlinuz_of items) (number items Item.setup_addr)

abbrev pub last_arguments : (ℕ → ℕ → ℕ) → (lowmem : ℕ) → LinuxbootArgs
last_arguments items lowmem = arguments (items Item.setup_data) lowmem (first_arguments items)

-- The setup code that is read: at least the 8192 bytes that are looked at.
abbrev pub setup_bytes : LinuxbootArgs → ℕ
setup_bytes args = 8192 + (args.setup_size - 8192)

-- The regions that must not meet: the setup code, the kernel, the command line, the initrd, the DMA
-- descriptor, and the two words that the entry pushes.
abbrev pub bzimage_regions : (ℕ → ℕ → ℕ) → (dma : ℕ) → LinuxbootArgs → List (ℕ × ℕ)
bzimage_regions items dma args =
    (args.setup_addr, setup_bytes args)
    ∷ (args.kernel_addr, number items Item.kernel_size)
    ∷ (args.cmdline_addr, args.cmdline_size)
    ∷ (args.initrd_addr, args.initrd_size)
    ∷ (dma, 16)
    ∷ (args.cmdline_addr - 20, 4)
    ∷ []

-- What the kernel finds in memory: its setup code but for the parts of the header that the boot
-- protocol gives to the loader, itself, its command line and the initrd, and in the header where the
-- last two are. Before protocol 2.02 the header has another place for the command line.
pub record IsLaunched (items : ℕ → ℕ → ℕ) (args : LinuxbootArgs) (m : Memory) : Type 0 where
  pub setup :
      (i : ℕ)
      → i < setup_bytes args
      → Unpatched 0 i
      → m (args.setup_addr + i) ≡ items Item.setup_data i
  pub kernel :
      (i : ℕ)
      → i < number items Item.kernel_size
      → m (args.kernel_addr + i) ≡ items Item.kernel_data i
  pub command_line :
      (i : ℕ) → i < args.cmdline_size → m (args.cmdline_addr + i) ≡ items Item.cmdline_data i
  pub initrd : (i : ℕ) → i < args.initrd_size → m (args.initrd_addr + i) ≡ items Item.initrd_data i
  pub ramdisk_image : ldl_p m (args.setup_addr + 0x218) ≡ args.initrd_addr
  pub ramdisk_size : ldl_p m (args.setup_addr + 0x21c) ≡ args.initrd_size
  pub cmd_line_ptr :
      0x202 ≤ protocol_of (items Item.setup_data)
      → ldl_p m (args.setup_addr + 0x228) ≡ args.cmdline_addr

-- The four loads, on a memory in which the start of the setup code is in place and patched.
module _ (items : ℕ → ℕ → ℕ) (dma lowmem : ℕ) (m g : Memory)
    (peek : (i : ℕ) → i < 8192 → m (number items Item.setup_addr + i) ≡ items Item.setup_data i)
    (apart : AllApart (bzimage_regions items dma (last_arguments items lowmem)))
    (loads : Loads items dma
      (number items Item.kernel_size)
      (last_arguments items lowmem)
      (parsed lowmem (first_arguments items) m).1
      g) where
  -- The setup code is not met by the reads behind it.
  setup_kept :
      (a : ℕ)
      → number items Item.setup_addr ≤ a
      → a < number items Item.setup_addr + setup_bytes (last_arguments items lowmem)
      → g a ≡ loads.setup a
  setup_kept a l u =
      let ((sk, (sc, (si, (sd, _)))), _) = apart in
      loads.initrd_filled.1 a (ground arith) (ground arith)
      ∙ loads.cmdline_filled.1 a (ground arith) (ground arith)
      ∙ loads.kernel_filled.1 a (ground arith) (ground arith)

  peek_kept :
      (a : ℕ)
      → number items Item.setup_addr ≤ a
      → a < number items Item.setup_addr + 8192
      → g a ≡ (parsed lowmem (first_arguments items) m).1 a
  peek_kept a l u =
      let ((sk, (sc, (si, (sd, _)))), _) = apart in
      setup_kept a l (omega arith) ∙ loads.setup_filled.1 a (inl u) (ground arith)

  setup_read :
      (i : ℕ)
      → i < setup_bytes (last_arguments items lowmem)
      → Unpatched 0 i
      → g (number items Item.setup_addr + i) ≡ items Item.setup_data i
  setup_read i l o =
      let p = number items Item.setup_addr in
      elim (Bool-cases (ltb i 8192)) [
        | inl start ↦
            peek_kept (p + i) (omega arith) (ground arith)
            ∙ parsed-outside lowmem (first_arguments items) m (p + i) (ground arith)
            ∙ peek i (ground arith)
        | inr later ↦
            let at : p + i ≡ p + 8192 + (i - 8192) = ground arith in
            let of : 8192 + (i - 8192) ≡ i = ground arith in
            setup_kept (p + i) (omega arith) (omega arith)
            ∙ ap loads.setup at
            ∙ loads.setup_filled.0 (i - 8192) (ground arith)
            ∙ ap (items Item.setup_data) of
      ]

  kernel_read :
      (i : ℕ)
      → i < number items Item.kernel_size
      → g ((last_arguments items lowmem).kernel_addr + i) ≡ items Item.kernel_data i
  kernel_read i l =
      let (_, ((kc, (ki, (kd, _))), _)) = apart in
      let a = (last_arguments items lowmem).kernel_addr + i in
      loads.initrd_filled.1 a (ground arith) (ground arith)
      ∙ loads.cmdline_filled.1 a (ground arith) (ground arith)
      ∙ loads.kernel_filled.0 i l

  command_line_read :
      (i : ℕ)
      → i < number items Item.cmdline_size
      → g ((last_arguments items lowmem).cmdline_addr + i) ≡ items Item.cmdline_data i
  command_line_read i l =
      let (_, (_, ((ci, (cd, _)), _))) = apart in
      loads.initrd_filled.1 ((last_arguments items lowmem).cmdline_addr + i) (ground arith)
        (ground arith)
      ∙ loads.cmdline_filled.0 i l

  word_kept :
      (o : ℕ)
      → o + 4 ≤ 8192
      → ldl_p g (number items Item.setup_addr + o)
        ≡ ldl_p (parsed lowmem (first_arguments items) m).1 (number items Item.setup_addr + o)
  word_kept o h =
      ldl_p-agree (parsed lowmem (first_arguments items) m).1 g (number items Item.setup_addr + o)
        (λ a k l. peek_kept a (omega arith) (omega arith))

  pub launched :
      number items Item.initrd_size < 2 ^ 32 → IsLaunched items (last_arguments items lowmem) g
  launched small =
      let told = parsed-told (items Item.setup_data) lowmem (first_arguments items) m peek small in
      record {
        setup = setup_read;
        kernel = kernel_read;
        command_line = command_line_read;
        initrd = loads.initrd_filled.0;
        ramdisk_image = word_kept 0x218 (omega arith) ∙ told.0;
        ramdisk_size = word_kept 0x21c (omega arith) ∙ told.1;
        cmd_line_ptr = λ new. word_kept 0x228 (omega arith) ∙ told.2 new;
      }
