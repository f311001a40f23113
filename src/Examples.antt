-- ===== src/Examples.antt =====
-- Test data that the examples share: memories with given bytes, and a machine.
pub mod Strings
pub mod Devices
pub mod Kernels
pub mod Handoff
pub mod Output
pub mod Device
pub mod Directory
pub mod Launch
use qboot.Base.{
  ℕ, ◌-◌, ◌<◌, ◌+◌, List, [], ◌∷◌, All, get_or, leb, if◌then◌else◌, zero, suc, arith, true, ◌≡◌,
  refl,
}
use qboot.Base.Text.{codes}
use qboot.Memory.{Memory, IsBytes}
use qboot.Machine.{Env, Symbols, Machine}
use qboot.Machine.Initial.{initial}

-- The bytes `xs` from `p` on, and zeros elsewhere.
abbrev pub bytes : ℕ → List ℕ → Memory
bytes p xs a = if leb p a then get_or xs (a - p) 0 else 0

pub get_or-bound : (xs : List ℕ) (i : ℕ) → All (λ x. x < 256) xs → get_or xs i 0 < 256
get_or-bound [] i h = omega arith
get_or-bound (x ∷ xs) zero h = h.0
get_or-bound (x ∷ xs) (suc i) h = get_or-bound xs i h.1

pub bytes-IsBytes : (p : ℕ) (xs : List ℕ) → All (λ x. x < 256) xs → IsBytes (bytes p xs)
bytes-IsBytes p xs h a = ground (arith, get_or-bound xs (a - p) h)

-- Devices that answer every read with `v`, do no direct memory access, and do not let the image be
-- written.
abbrev pub quiet : ℕ → Env
quiet v = record {
  input = λ _. v;
  image_writable = λ _. true;
  cpuid_eax = 0x663;
  cpuid_edx = 0x781;
  dma = λ _ _ m. m;
}

abbrev pub places : Symbols
places = record {
  stext = 0xf0000;
  edata = 0xf8000;
  sinit = 0xfe000;
  einit = 0xff000;
  rom_check = 0xfff00;
  bios32_entry = 0xf1000;
  bios_intfake = 0xf1100;
  bios_irq = 0xf1200;
  bios_int10 = 0xf1300;
  bios_int15 = 0xf1400;
  start_info = 0xf7000;
  dma = 0xefe00;
  script = 0xefc00;
  ramdisk_mod = 0xefd00;
  printf_buf = 0xee000;
}

abbrev pub machine : ℕ → Memory → Machine
machine v m = record {
  symbols = places;
  env = quiet v;
  fuel = 8;
  io = [];
  mem = m;
  globals = initial 0xf0000 0xf8000;
}
