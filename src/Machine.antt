-- ===== src/Machine.antt =====
-- The state that the firmware runs on, and programs over it: physical memory, the static variables
-- of the C files, and the history of port accesses (include/ioport.h). What the devices answer is
-- not part of the source: it is a function of that history, in `Env`.
pub mod Initial
pub mod Ports
use qboot.Base.{ℕ, zero, Bool, true, List, [], if◌then◌else◌}
use qboot.Memory.{Memory}

pub data Width : Type 0 where
  byte word long : Width

-- One access to an I/O port: `out width port value` or `input width port`.
pub data Io : Type 0 where
  out : Width → ℕ → ℕ → Io
  inp : Width → ℕ → Io

-- The devices: the value of the newest `inp` of a history (newest first), what direct memory access
-- has done to memory when the processor has polled it `n` times since, whether, behind a history,
-- the chipset lets the firmware write to its own image, and what `cpuid` returns for
-- leaf 1 in EAX and EDX.
pub record Env : Type 0 where
  pub input : List Io → ℕ
  pub image_writable : List Io → Bool
  pub cpuid_eax : ℕ
  pub cpuid_edx : ℕ
  pub dma : List Io → ℕ → Memory → Memory

-- `struct hvm_start_info` of include/start_info.h.
pub record HvmStartInfo : Type 0 where
  pub magic : ℕ
  pub version : ℕ
  pub flags : ℕ
  pub nr_modules : ℕ
  pub modlist_paddr : ℕ
  pub cmdline_paddr : ℕ
  pub rsdp_paddr : ℕ
  pub memmap_paddr : ℕ
  pub memmap_entries : ℕ
  pub reserved : ℕ

-- The static variables of malloc.c, pci.c, fw_cfg.c, tables.c, main.c, code16.c and linuxboot.c.
pub record Globals : Type 0 where
  pub fseg_base : ℕ
  pub malloc_top : ℕ
  pub addend : ℕ
  pub bus : ℕ
  pub bridge_head : ℕ
  pub use_i440fx_routing : Bool
  pub bridge_count : ℕ
  pub max_bus : ℕ
  pub version : ℕ
  pub filecnt : ℕ
  pub files : ℕ
  pub file_address : List ℕ
  pub lowmem : ℕ
  pub e820 : ℕ
  pub have_mmconfig : Bool
  pub e820_seg : ℕ
  pub start_info : HvmStartInfo

-- The addresses that the linker gives to the symbols whose addresses the C code takes, and the
-- stack addresses of the locals that devices or kernels get a pointer to.
pub record Symbols : Type 0 where
  pub stext : ℕ
  pub edata : ℕ
  pub sinit : ℕ
  pub einit : ℕ
  pub rom_check : ℕ
  pub bios32_entry : ℕ
  pub bios_intfake : ℕ
  pub bios_irq : ℕ
  pub bios_int10 : ℕ
  pub bios_int15 : ℕ
  pub start_info : ℕ
  pub dma : ℕ
  pub script : ℕ
  pub ramdisk_mod : ℕ
  pub printf_buf : ℕ

-- `fuel` bounds the polls of a DMA transfer, the depth of the bridges, and the rounds of the copies
-- of the memory map, which read its length again each time.
pub record Machine : Type 0 where
  pub symbols : Symbols
  pub env : Env
  pub fuel : ℕ
  pub io : List Io
  pub mem : Memory
  pub globals : Globals

-- The entry into a kernel: a 16-bit one with the data segments, the stack pointer and CS:IP, or a
-- 32-bit one with EIP, EAX and EBX.
pub data Kernel : Type 0 where
  real_mode : (ds sp cs ip : ℕ) → Kernel
  flat_mode : (eip eax ebx : ℕ) → Kernel

-- How a run ends: with a result, in `panic`, in the code of a kernel, in undefined behaviour, or
-- not within the fuel.
pub data Outcome (A : Type 0) : Type 0 where
  ok : A → Machine → Outcome A
  panicked : Machine → Outcome A
  booted : Kernel → Machine → Outcome A
  undefined : Outcome A
  out_of_fuel : Outcome A

abbrev pub Fw : Type 0 → Type 0
Fw A = Machine → Outcome A

abbrev pub pure : {A : Type 0} → A → Fw A
pure = ok

module _ {A B : Type 0} where
  abbrev pub and_then : Outcome A → (A → Fw B) → Outcome B
  and_then (ok a m) k = k a m
  and_then (panicked m) k = panicked m
  and_then (booted e m) k = booted e m
  and_then undefined k = undefined
  and_then out_of_fuel k = out_of_fuel

  infixl 5 ◌>>=◌ ◌>>◌
  abbrev pub ◌>>=◌ : Fw A → (A → Fw B) → Fw B
  m >>= k = λ s. and_then (m s) k

  abbrev pub ◌>>◌ : Fw A → Fw B → Fw B
  m >> n = m >>= λ _. n

abbrev pub panic : {A : Type 0} → Fw A
panic = panicked

abbrev pub undefined_behaviour : {A : Type 0} → Fw A
undefined_behaviour s = undefined

abbrev pub no_fuel : {A : Type 0} → Fw A
no_fuel s = out_of_fuel

abbrev pub when : Bool → Fw (Unit {0}) → Fw (Unit {0})
when b act = if b then act else pure tt

-- Read and update the parts of the state.
abbrev pub gets : {A : Type 0} → (Globals → A) → Fw A
gets f s = ok (f s.globals) s

abbrev pub symbol : (Symbols → ℕ) → Fw ℕ
symbol f s = ok (f s.symbols) s

abbrev pub modify : (Globals → Globals) → Fw (Unit {0})
modify f s = ok tt (record s { globals = f s.globals })

abbrev pub load : {A : Type 0} → (Memory → A) → Fw A
load f s = ok (f s.mem) s

abbrev pub store : (Memory → Memory) → Fw (Unit {0})
store f s = ok tt (record s { mem = f s.mem })

-- The run returns, and the result and the final state satisfy `P`.
abbrev pub Returns : {A : Type 0} → (A → Machine → Type 0) → Outcome A → Type 0
Returns P (ok a s) = P a s
Returns P _ = ⊥

-- The run enters a kernel, and the entry and the state at that point satisfy `P`.
abbrev pub Boots : {A : Type 0} → (Kernel → Machine → Type 0) → Outcome A → Type 0
Boots P (booted k s) = P k s
Boots P _ = ⊥
