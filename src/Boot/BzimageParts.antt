-- ===== src/Boot/BzimageParts.antt =====
-- The reads behind parse_bzimage, and the jump (the end of boot_from_fwcfg).
use qboot.Base.{
  ℕ, ◌+◌, ◌-◌, ◌<◌, ◌≡◌, ◌==◌, ◌^◌, ◌∷◌, ◌>>>◌, refl, arith, List, u16, sub32, ltb, if◌then◌else◌,
  Bool-cases, inl, inr,
}
use qboot.Memory.{Memory}
use qboot.CString.Copy.{Apart}
use qboot.Machine.{Kernel, Machine, Io, ok, pure, booted, real_mode, out, word}
use qboot.FwCfg.{fw_cfg_read, fw_cfg_read_entry}
use qboot.FwCfg.Item
use qboot.FwCfg.Served.{Filled}
use qboot.FwCfg.Contract.{Serves, fw_cfg_read_entry-Serves}
use qboot.FwCfg.Sequence.{after_read, Ready, from, fw_cfg_read-Ready}
use qboot.LinuxBoot.{push_entry, LinuxbootArgs, boot_bzimage}
use qboot.Boot.{load_bzimage}

-- What is left of the setup code behind the first 8192 bytes.
setup-rest :
    (item : ℕ → ℕ) (p n : ℕ) (s : Machine) (h : List Io)
    → Ready s.env s.symbols.dma s.fuel s.globals.version h (from 8192 item)
    → p < 2 ^ 32
    → n < 2 ^ 32
    → s.symbols.dma < 2 ^ 32
    → Apart (p + 8192) (n - 8192) s.symbols.dma 16
    → (g : Memory) × (h' : List Io) × ((if ltb 8192 n
            then fw_cfg_read (p + 8192) (n - 8192)
            else pure tt)
          (record s { io = h })
        ≡ ok tt (record s { io = h'; mem = g }))
      × Filled s.symbols.dma (p + 8192) (n - 8192) (from 8192 item) s.mem g
setup-rest item p n s h ready hp hn hd apart = elim (Bool-cases (ltb 8192 n)) [
  | inl more ↦
      let (g, runs, filled) =
        fw_cfg_read-Ready (from 8192 item) (p + 8192) (n - 8192) s h ready (omega arith)
          (omega arith) hd apart in
      (g, after_read s.symbols.dma s.globals.version (n - 8192) h, rw more runs, filled)
  | inr enough ↦ (s.mem, h, rw enough refl, (λ i l. absurd (ground arith), λ a o q. refl))
]

-- The initrd, if there is one.
initrd-read :
    (items : ℕ → ℕ → ℕ) (addr size : ℕ) (s : Machine)
    → Serves s.env s.symbols.dma s.fuel s.globals.version items
    → addr < 2 ^ 32
    → size < 2 ^ 32
    → s.symbols.dma < 2 ^ 32
    → Apart addr size s.symbols.dma 16
    → (g : Memory) × (h' : List Io) × ((if size == 0
            then pure tt
            else fw_cfg_read_entry Item.initrd_data addr size)
          s
        ≡ ok tt (record s { io = h'; mem = g }))
      × Filled s.symbols.dma addr size (items Item.initrd_data) s.mem g
initrd-read items addr size s serves ha hs hd apart = elim (Bool-cases (size == 0)) [
  | inl none ↦ (s.mem, s.io, rw none refl, (λ i l. absurd (ground arith), λ a o q. refl))
  | inr there ↦
      let (g, h, runs, filled) =
        fw_cfg_read_entry-Serves items Item.initrd_data s (omega arith) serves addr size
          (omega arith) hs hd apart in
      (g, h, rw there runs, filled)
]

-- The memories that lead from `m` to `g`: the rest of the setup code, the kernel, its command line, and
-- the initrd.
pub record Loads (items : ℕ → ℕ → ℕ) (dma kernel_size : ℕ) (args : LinuxbootArgs) (m g : Memory)
    : Type 0 where
  pub setup : Memory
  pub kernel : Memory
  pub cmdline : Memory
  pub setup_filled :
      Filled dma
        (args.setup_addr + 8192)
        (args.setup_size - 8192)
        (from 8192 (items Item.setup_data))
        m
        setup
  pub kernel_filled : Filled dma args.kernel_addr kernel_size (items Item.kernel_data) setup kernel
  pub cmdline_filled :
      Filled dma args.cmdline_addr args.cmdline_size (items Item.cmdline_data) kernel cmdline
  pub initrd_filled :
      Filled dma args.initrd_addr args.initrd_size (items Item.initrd_data) cmdline g

-- BX and DX at the jump, the entry, and the memory that it leaves.
abbrev pub entry_bx : LinuxbootArgs → ℕ
entry_bx args = u16 (args.setup_addr >>> 4)

abbrev pub entry_dx : LinuxbootArgs → ℕ
entry_dx args = u16 (sub32 (sub32 args.cmdline_addr args.setup_addr) 16)

abbrev pub entry_of : LinuxbootArgs → Kernel
entry_of args = real_mode (entry_bx args) (entry_dx args) (u16 (entry_bx args + 0x20)) 0

abbrev pub pushed : LinuxbootArgs → Memory → Memory
pushed args m = push_entry (entry_bx args) (entry_dx args) m

-- The fields are numbers of 32 bits, and the regions do not meet the descriptor.
pub record Fits (dma kernel_size : ℕ) (args : LinuxbootArgs) : Type 0 where
  pub setup_addr : args.setup_addr < 2 ^ 32
  pub setup_size : args.setup_size < 2 ^ 32
  pub kernel_addr : args.kernel_addr < 2 ^ 32
  pub kernel_bytes : kernel_size < 2 ^ 32
  pub cmdline_addr : args.cmdline_addr < 2 ^ 32
  pub cmdline_size : args.cmdline_size < 2 ^ 32
  pub initrd_addr : args.initrd_addr < 2 ^ 32
  pub initrd_size : args.initrd_size < 2 ^ 32
  pub setup : Apart (args.setup_addr + 8192) (args.setup_size - 8192) dma 16
  pub kernel : Apart args.kernel_addr kernel_size dma 16
  pub cmdline : Apart args.cmdline_addr args.cmdline_size dma 16
  pub initrd : Apart args.initrd_addr args.initrd_size dma 16

pub load_bzimage-runs :
    (A : Type 0) (items : ℕ → ℕ → ℕ) (kernel_size : ℕ) (args : LinuxbootArgs) (s : Machine)
    (h : List Io)
    → Serves s.env s.symbols.dma s.fuel s.globals.version items
    → Ready s.env s.symbols.dma s.fuel s.globals.version h (from 8192 (items Item.setup_data))
    → s.symbols.dma < 2 ^ 32
    → Fits s.symbols.dma kernel_size args
    → (g : Memory) × (h' : List Io) × (load_bzimage {A = A} kernel_size args (record s { io = h })
        ≡ booted (entry_of args) (record s { io = h'; mem = pushed args g }))
      × Loads items s.symbols.dma kernel_size args s.mem g
unfolding load_bzimage boot_bzimage qboot.FwCfg.fw_cfg_select
load_bzimage-runs A items kernel_size args s h serves ready hd f =
    let (g1, h1, run1, filled1) =
      setup-rest (items Item.setup_data) args.setup_addr args.setup_size s h ready f.setup_addr
        f.setup_size hd f.setup in
    let s1 : Machine = record s { io = out word 0x510 Item.kernel_data ∷ h1; mem = g1 } in
    let (g2, h2, run2, filled2) =
      fw_cfg_read_entry-Serves items Item.kernel_data s1 (omega arith) serves args.kernel_addr
        kernel_size (omega (arith, f.kernel_addr)) f.kernel_bytes hd f.kernel in
    let s2 : Machine = record s { io = h2; mem = g2 } in
    let (g3, h3, run3, filled3) =
      fw_cfg_read_entry-Serves items Item.cmdline_data s2 (omega arith) serves args.cmdline_addr
        args.cmdline_size (omega (arith, f.cmdline_addr)) f.cmdline_size hd f.cmdline in
    let s3 : Machine = record s { io = h3; mem = g3 } in
    let (g4, h4, run4, filled4) =
      initrd-read items args.initrd_addr args.initrd_size s3 serves f.initrd_addr f.initrd_size hd
        f.initrd in
    (
      g4,
      h4,
      rw (run1, run2, run3, run4) refl,
      record {
        setup = g1;
        kernel = g2;
        cmdline = g3;
        setup_filled = filled1;
        kernel_filled = filled2;
        cmdline_filled = filled3;
        initrd_filled = filled4;
      },
    )
