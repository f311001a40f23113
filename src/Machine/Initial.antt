-- ===== src/Machine/Initial.antt =====
-- The static variables before `main`: zero, but for the two ends of the heap of malloc.c.
use qboot.Base.{ℕ, false, replicate}
use qboot.Machine.{Globals, HvmStartInfo}

abbrev pub no_start_info : HvmStartInfo
no_start_info = record {
  magic = 0;
  version = 0;
  flags = 0;
  nr_modules = 0;
  modlist_paddr = 0;
  cmdline_paddr = 0;
  rsdp_paddr = 0;
  memmap_paddr = 0;
  memmap_entries = 0;
  reserved = 0;
}

-- `stext` and `edata` are addresses that the linker chooses.
abbrev pub initial : (stext edata : ℕ) → Globals
initial stext edata = record {
  fseg_base = edata;
  malloc_top = stext;
  addend = 0;
  bus = 0;
  bridge_head = 0;
  use_i440fx_routing = false;
  bridge_count = 0;
  max_bus = 0;
  version = 0;
  filecnt = 0;
  files = 0;
  file_address = replicate 20 0;
  lowmem = 0;
  e820 = 0;
  have_mmconfig = false;
  e820_seg = 0;
  start_info = no_start_info;
}
