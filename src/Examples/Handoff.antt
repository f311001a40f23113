-- ===== src/Examples/Handoff.antt =====
-- Runs of the SMBIOS code and of the boot of PVH and multiboot kernels.
use qboot.Base.{
  if◌then◌else◌, inl, inr, ℕ, ◌≡◌, ◌++◌, List, [], ◌∷◌, Bool, none, some, replicate, arith, refl,
  false, ◌<◌, if_ind, ◌==◌, ◌||◌, u8, ◌+◌, ◌/◌, ◌^◌,
}
use qboot.Memory.{Memory, IsBytes}
use qboot.Smbios.{finish_smbios, need_t0}
use qboot.Smbios.Chain.{Answers, need_t0-Answers}
use qboot.Smbios.Entry.{pointed}
use qboot.Smbios.Finish.{IsFinished, finish_smbios-IsFinished}
use qboot.Boot.{boot_from_fwcfg, boot_multiboot_from_fw_cfg, boot_pvh_from_fw_cfg}
use qboot.Machine.{Machine, Returns, Boots, flat_mode}
use qboot.FwCfg.Item
use qboot.Boot.MultibootBoot.{IsLoaded, boot_multiboot_from_fw_cfg-IsLoaded}
use qboot.Boot.ElfBoot.{boot_from_fwcfg-IsHandedOver}
use qboot.Boot.PvhBoot.{IsHandedOver, boot_pvh_from_fw_cfg-IsHandedOver}
use qboot.Examples.Device.{device, device-Serves, device-Continues}
use qboot.Examples.{machine, bytes, bytes-IsBytes}

-- An entry point of 31 bytes at 0x1000 for 12 bytes of tables at 0x1020: a structure of type 1 with
-- two NULs, and six bytes of the next one.
abbrev entry_point_bytes : List ℕ
entry_point_bytes =
    95 ∷ 83 ∷ 77 ∷ 95 ∷ 0 ∷ 31 ∷ replicate 16 0
    ++ 12 ∷ 0 ∷ 0x20 ∷ 0x10 ∷ 0 ∷ 0 ∷ 1 ∷ 0 ∷ 0 ∷ 0 ∷ 1 ∷ 4 ∷ 0 ∷ 0 ∷ 0 ∷ 0 ∷ 0 ∷ 4 ∷ 0 ∷ 0 ∷ 0 ∷ 0
      ∷ []

abbrev entry_point : Memory
entry_point = bytes 0x1000 entry_point_bytes

entry_point-IsBytes : IsBytes entry_point
entry_point-IsBytes = bytes-IsBytes 0x1000 entry_point_bytes (ground arith)

need_t0-Answers_example :
    (b : Bool) × (need_t0 13 entry_point 0x1000 none ≡ some b) × Answers entry_point 0x1000 none b
need_t0-Answers_example = need_t0-Answers entry_point 0x1000

-- The second structure is found, and has type 0.
need_t0-present : need_t0 13 entry_point 0x1000 none ≡ some false
unfolding need_t0
need_t0-present = refl

-- Six bytes of tables at 0x1060, behind room for a type 0 structure.
abbrev smbios_machine : Machine
smbios_machine = machine 0 entry_point

finish_smbios-IsFinished_example :
    (need : Bool) × Answers (pointed 0x1000 0x1060 6 entry_point) 0x1000 none need
    × Returns
        (λ _ t. IsFinished need 0x1000 0x1060 6 entry_point t.mem)
        (finish_smbios 0x1000 0x1060 6 smbios_machine)
finish_smbios-IsFinished_example =
    finish_smbios-IsFinished 0x1000 0x1060 6 smbios_machine entry_point-IsBytes (omega arith)
      (omega arith) (omega arith) (omega arith) (omega arith) (ground arith)

-- A map of one entry at 0x2000, and the table at 0x3000.
abbrev map_bytes : List ℕ
map_bytes = 1 ∷ 0 ∷ 0 ∷ 0 ∷ 0 ∷ 0 ∷ 16 ∷ []

abbrev ram_map : Memory
ram_map = bytes 0x2000 map_bytes

abbrev pvh_machine : Machine
pvh_machine = let s = machine 0 ram_map in record s { globals = record s.globals { e820 = 0x2000 } }

-- A kernel of one byte at 0x20000, a command line of 4 bytes, and an initrd of 8 bytes at 0x10000.
abbrev value_of : ℕ → ℕ
value_of e =
    if e == Item.cmdline_size
    then 4
    else if e == Item.initrd_size
    then 8
    else if e == Item.initrd_addr
    then 0x10000
    else if e == Item.kernel_size
    then 1
    else if e == Item.kernel_entry
    then 0x20000
    else e

-- The low byte of the number first; the bytes of an item that is no number count up from its entry.
abbrev kernel_items : ℕ → ℕ → ℕ
kernel_items e i =
    if e == Item.cmdline_data || e == Item.initrd_data
    then u8 (e + i)
    else u8 (value_of e / 256 ^ i)

kernel_items-bytes : (e i : ℕ) → kernel_items e i < 256
kernel_items-bytes e i =
    if_ind (λ v. v < 256) (e == Item.cmdline_data || e == Item.initrd_data) (λ _. omega arith)
      (λ _. omega arith)

abbrev kernel_machine : Machine
kernel_machine = record pvh_machine {
  env = device kernel_items 0xefe00;
  globals = record pvh_machine.globals { version = 3 };
}

boot_pvh_from_fw_cfg-IsHandedOver_example :
    Boots
      (λ k t.
        (k ≡ flat_mode 0x20000 0x2badb002 0xf7000) × IsHandedOver kernel_items kernel_machine t)
      (boot_pvh_from_fw_cfg {A = Unit {0}} kernel_machine)
boot_pvh_from_fw_cfg-IsHandedOver_example =
    boot_pvh_from_fw_cfg-IsHandedOver (Unit {0}) kernel_items kernel_machine
      (device-Serves kernel_items 0xefe00 3 kernel_items-bytes) (omega arith) (omega arith)
      (λ a h k. bytes-IsBytes 0x2000 map_bytes (omega arith) a) (omega arith) (omega arith)
      (omega arith) (ground arith)

-- The same kernel as an ELF file, whose first bytes go to 0x30000.
abbrev elf_bytes : List ℕ
elf_bytes = 0x7f ∷ 0x45 ∷ 0x4c ∷ 0x46 ∷ []

abbrev elf_items : ℕ → ℕ → ℕ
elf_items e i =
    if e == Item.setup_data
    then bytes 0 elf_bytes i
    else if e == Item.setup_addr
    then u8 (0x30000 / 256 ^ i)
    else kernel_items e i

elf_items-bytes : (e i : ℕ) → elf_items e i < 256
elf_items-bytes e i =
    if_ind (λ v. v < 256) (e == Item.setup_data) (λ _. bytes-IsBytes 0 elf_bytes (ground arith) i)
      (λ _.
        if_ind (λ v. v < 256) (e == Item.setup_addr) (λ _. omega arith)
          (λ _. kernel_items-bytes e i))

abbrev elf_machine : Machine
elf_machine = record kernel_machine { env = device elf_items 0xefe00 }

boot_from_fwcfg-IsHandedOver_example :
    Boots
      (λ k t. (k ≡ flat_mode 0x20000 0x2badb002 0xf7000) × IsHandedOver elf_items elf_machine t)
      (boot_from_fwcfg elf_machine)
boot_from_fwcfg-IsHandedOver_example =
    boot_from_fwcfg-IsHandedOver elf_items elf_machine
      (device-Serves elf_items 0xefe00 3 elf_items-bytes)
      (λ offers. device-Continues elf_items 0xefe00 Item.setup_data) (omega arith) (omega arith)
      (omega arith) (omega arith) refl (inl (omega arith)) (inr (omega arith))
      (λ a h k. bytes-IsBytes 0x2000 map_bytes (omega arith) a) (omega arith) (omega arith)
      (omega arith) (ground arith)

-- A multiboot kernel of 4 bytes at 1 MB. Its information at 0x9000 leads to a memory map right behind
-- its 52 bytes.
abbrev multiboot_value : ℕ → ℕ
multiboot_value e =
    if e == Item.kernel_size
    then 4
    else if e == Item.kernel_addr
    then 0x100000
    else if e == Item.initrd_size
    then 76
    else if e == Item.initrd_addr
    then 0x9000
    else if e == Item.kernel_entry
    then 0x100000
    else e

abbrev multiboot_items : ℕ → ℕ → ℕ
multiboot_items e i =
    if e == Item.initrd_data
    then (if i == 48 then 0x34 else if i == 49 then 0x90 else 0)
    else u8 (multiboot_value e / 256 ^ i)

multiboot_items-bytes : (e i : ℕ) → multiboot_items e i < 256
multiboot_items-bytes e i =
    if_ind (λ v. v < 256) (e == Item.initrd_data) (λ _. ground arith) (λ _. omega arith)

abbrev multiboot_machine : Machine
multiboot_machine = record kernel_machine { env = device multiboot_items 0xefe00 }

boot_multiboot_from_fw_cfg-IsLoaded_example :
    Boots
      (λ k t.
        (k ≡ flat_mode 0x100000 0x2badb002 0x9000) × IsLoaded multiboot_items multiboot_machine t)
      (boot_multiboot_from_fw_cfg {A = Unit {0}} multiboot_machine)
boot_multiboot_from_fw_cfg-IsLoaded_example =
    boot_multiboot_from_fw_cfg-IsLoaded (Unit {0}) multiboot_items multiboot_machine
      (device-Serves multiboot_items 0xefe00 3 multiboot_items-bytes) (omega arith) (omega arith)
      (omega arith) (λ a h k. bytes-IsBytes 0x2000 map_bytes (omega arith) a) (omega arith)
      (omega arith) (ground arith) (ground arith) (ground arith) (ground arith)
