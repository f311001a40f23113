-- ===== src/Boot/Entered.antt =====
-- The jump into a bzImage kernel: where it enters, and what its two pushes leave alone.
use qboot.Base.{ℕ, ◌+◌, ◌*◌, ◌-◌, ◌%◌, ◌<◌, ◌≤◌, ◌≡◌, ◌^◌, ◌∙◌, arith, u16, sub16}
use qboot.Memory.{ldl_p, Memory, stw_p}
use qboot.Memory.Frame.{ldl_p-agree, Outside, stw_p-Outside}
use qboot.CString.Copy.{AllApart}
use qboot.Machine.{Kernel, real_mode, flat_mode}
use qboot.LinuxBoot.{LinuxbootArgs, push_entry}
use qboot.Boot.Launched.{IsLaunched, bzimage_regions}
use qboot.Boot.BzimageParts.{entry_bx, entry_dx, entry_of, pushed}

-- A kernel in real mode whose data and stack segments are the setup code, which is entered behind its
-- first 512 bytes, and whose stack pointer is 16 bytes below the command line.
abbrev pub IsEntered : LinuxbootArgs → Kernel → Type 0
IsEntered args (real_mode ds sp cs ip) =
    (ds * 16 ≡ args.setup_addr)
    × (cs * 16 + ip ≡ args.setup_addr + 512)
    × (ds * 16 + sp + 16 ≡ args.cmdline_addr)
IsEntered args (flat_mode eip eax ebx) = ⊥

-- The setup code is on a multiple of 16 in the first MB, and the command line in reach of its segment.
module _ (args : LinuxbootArgs) (aligned : args.setup_addr % 16 ≡ 0)
    (low : args.setup_addr + 512 < 2 ^ 20) (above : args.setup_addr + 20 ≤ args.cmdline_addr)
    (near : args.cmdline_addr < args.setup_addr + 16 + 2 ^ 16) where
  bx_at : entry_bx args * 16 ≡ args.setup_addr
  bx_at = omega arith

  dx_at : entry_dx args + args.setup_addr + 16 ≡ args.cmdline_addr
  dx_at = omega arith

  pub entry_of-IsEntered : IsEntered args (entry_of args)
  entry_of-IsEntered = (bx_at, omega arith, omega (arith, bx_at, dx_at))

  pub pushed-Outside :
      (m : Memory) (a : ℕ) → Outside (args.cmdline_addr - 20) 4 a → pushed args m a ≡ m a
  unfolding push_entry
  pushed-Outside m a o =
      let ss = entry_bx args * 16 in
      let m1 = stw_p m (ss + sub16 (entry_dx args) 2) (u16 (entry_bx args + 0x20)) in
      stw_p-Outside m1 (ss + sub16 (entry_dx args) 4) 0 a (ground (arith, bx_at, dx_at))
      ∙ stw_p-Outside m (ss + sub16 (entry_dx args) 2) (u16 (entry_bx args + 0x20)) a
          (ground (arith, bx_at, dx_at))

-- What the kernel finds is not met by the pushes.
pub IsLaunched-agree :
    (items : ℕ → ℕ → ℕ) (dma : ℕ) (args : LinuxbootArgs) (m g : Memory)
    → AllApart (bzimage_regions items dma args)
    → ((a : ℕ) → Outside (args.cmdline_addr - 20) 4 a → g a ≡ m a)
    → IsLaunched items args m
    → IsLaunched items args g
IsLaunched-agree items dma args m g apart same x =
    let (
      (_, (_, (_, (_, (ss, _))))),
      ((_, (_, (_, (ks, _)))), ((_, (_, (cs, _))), ((_, (is, _)), _))),
    ) =
      apart in
    let word : (o : ℕ)
        → o + 4 ≤ 8192
        → ldl_p g (args.setup_addr + o) ≡ ldl_p m (args.setup_addr + o) =
      λ o h. ldl_p-agree m g (args.setup_addr + o) (λ a k l. same a (ground arith)) in
    record {
      setup = λ i l o. same (args.setup_addr + i) (ground arith) ∙ x.setup i l o;
      kernel = λ i l. same (args.kernel_addr + i) (ground arith) ∙ x.kernel i l;
      command_line = λ i l. same (args.cmdline_addr + i) (ground arith) ∙ x.command_line i l;
      initrd = λ i l. same (args.initrd_addr + i) (ground arith) ∙ x.initrd i l;
      ramdisk_image = word 0x218 (omega arith) ∙ x.ramdisk_image;
      ramdisk_size = word 0x21c (omega arith) ∙ x.ramdisk_size;
      cmd_line_ptr = λ new. word 0x228 (omega arith) ∙ x.cmd_line_ptr new;
    }
