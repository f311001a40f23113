-- ===== src/Examples/Devices.antt =====
-- Runs of the allocators, the configuration ports, the PCI code and the firmware configuration.
use qboot.Pci.Scan.{do_setup_pci_bus-Scanned}
use qboot.Pci.Effects.{Ends, Scanned, Same}
use qboot.HwSetup.Shadow.{Opens, IsLinked, Shadowed, setup_hw-Shadowed}
use qboot.Examples.{places}
use qboot.Base.{
  ℕ, ◌+◌, ◌≡◌, ◌↔◌, List, [], ◌∷◌, ◌++◌, arith, refl, pos, true, false, get_or, if◌then◌else◌, ◌==◌,
  replicate, ◌%◌, u8, inl, Bool,
}
use qboot.Base.Bswap.{bswap32}
use qboot.Base.{replicate}
use Prim.Native.Nat.{◌%◌}
use qboot.Base.Text.{codes}
use qboot.Memory.{Memory, sum_at, IsBytes}
use qboot.Machine.{Machine, ok, Returns, Io, out, byte}
use qboot.Malloc.{malloc_fseg_align}
use qboot.Malloc.Blocks.{
  IsBlockAbove, with_base, malloc_all, Stacked, malloc_fseg_align-IsBlockAbove, malloc_all-Stacked,
}
use qboot.PciConfig.Address.{byte_access_injective}
use qboot.Pci.{
  link, irq_of_link, do_setup_pci_irq, write_bios32, pci_foreach, do_setup_pci, do_setup_pci_bus,
}
use qboot.Pci.Irq.{
  pirq, pirq_routes, line, line_read, line_written, irq_of_link-routes, do_setup_pci_irq_lem,
}
use qboot.Pci.Bios32.{write_bios32-sum}
use qboot.PciBios.{Bios32Regs, pcibios_handler}
use qboot.PciBios.Status.{Answers, pcibios_handler-Reports}
use qboot.HwSetup.{setup_hw}
use qboot.FwCfg.{filenamecmp, file_id_loop, fw_cfg_readl_le, fw_cfg_readl_be}
use qboot.FwCfg.Words.{after_reads, fw_cfg_readl_bytes}
use qboot.FwCfg.Names.{SameName, Found, filenamecmp-SameName, file_id_loop-Found}
use qboot.Tables.{literal}
use qboot.Examples.{get_or-bound, bytes, bytes-IsBytes, machine}

-- Devices that answer 3, and no memory.
abbrev three : Machine
three = machine 3 (λ _. 0)

malloc_fseg_align-IsBlockAbove_example :
    (p : ℕ) × (malloc_fseg_align 100 64 three ≡ ok p (with_base three (p + 100)))
    × IsBlockAbove 0xf8000 100 64 p
malloc_fseg_align-IsBlockAbove_example =
    malloc_fseg_align-IsBlockAbove 6 100 three (omega arith) (omega arith)

abbrev requests : List (ℕ × ℕ)
requests = (100, 4) ∷ (31, 12) ∷ []

malloc_all-Stacked_example :
    (ps : List ℕ) × (t : Machine) × (malloc_all requests three ≡ ok ps t)
    × Stacked 0xf0000 requests ps
malloc_all-Stacked_example =
    malloc_all-Stacked requests three (omega arith) (omega arith) (omega arith)

-- The interrupt line of the function 1f.0.
abbrev bdf : ℕ
bdf = 0xf8

abbrev reg : ℕ
reg = 0x3c

byte_access_injective_example : (bdf ≡ bdf) × (reg ≡ reg)
byte_access_injective_example =
    byte_access_injective bdf bdf reg reg (omega arith) (omega arith) (omega arith) (omega arith)
      refl refl

irq_of_link-routes_example : irq_of_link (link true 2 3 7) ≡ get_or pirq_routes (pirq true 2 3 7) 0
irq_of_link-routes_example = irq_of_link-routes true 2 3 7 (omega arith) (omega arith) (omega arith)

-- A device that has no line yet.
abbrev no_line : Machine
no_line = machine 0 (λ _. 0)

do_setup_pci_irq_lem_example :
    do_setup_pci_irq 0x18 1 no_line
    ≡ ok tt (
        if line 0x18 no_line == 0
        then line_written 0x18 (get_or pirq_routes (pirq false 0 1 3) 0) no_line
        else line_read 0x18 no_line)
unfolding qboot.Pci.device_of
do_setup_pci_irq_lem_example =
    do_setup_pci_irq_lem 0x18 1 no_line (omega arith) (omega arith) (omega arith)

write_bios32-sum_example : sum_at (write_bios32 0xf8000 0xf1000 (λ _. 0)) 0xf8000 16 % 256 ≡ 0
write_bios32-sum_example = write_bios32-sum 0xf8000 0xf1000 (λ _. 0) (λ _. omega arith)

-- A search for a device.
abbrev find_device : Bios32Regs
find_device = record {
  eax = 0xb102;
  ebx = 0;
  ecx = 0x7000;
  edx = 0x8086;
  esp = 0;
  ebp = 0;
  esi = 0;
  edi = 0;
  ds = 0;
  es = 0;
  fs = 0;
  eflags = 2;
}

pcibios_handler-Reports_example :
    Returns (Answers find_device three) (pcibios_handler find_device three)
pcibios_handler-Reports_example = pcibios_handler-Reports find_device three (omega arith)

fw_cfg_readl_bytes_example :
    (fw_cfg_readl_le three ≡ ok 0x03030303 (after_reads 4 three))
    × (fw_cfg_readl_be three ≡ ok (bswap32 0x03030303) (after_reads 4 three))
fw_cfg_readl_bytes_example = fw_cfg_readl_bytes three

-- A directory of two files, "a" and "b".
abbrev directory_bytes : List ℕ
directory_bytes =
    0 ∷ 0 ∷ 0 ∷ 9 ∷ 0 ∷ 32 ∷ 0 ∷ 0 ∷ b'a' ∷ replicate 55 0
    ++ 0 ∷ 0 ∷ 0 ∷ 9 ∷ 0 ∷ 33 ∷ 0 ∷ 0 ∷ b'b' ∷ []

abbrev files : Memory
files = bytes 1000 directory_bytes

files-IsBytes : IsBytes files
files-IsBytes = bytes-IsBytes 1000 directory_bytes (ground arith)

filenamecmp-SameName_example :
    (filenamecmp (literal (codes "b")) files 1064 ≡ pos 0)
    ↔ SameName (literal (codes "b")) (λ i. files (1064 + 8 + i)) 56 0
filenamecmp-SameName_example =
    filenamecmp-SameName (literal (codes "b")) files 1064
      (λ j. get_or-bound (codes "b") j (omega arith)) files-IsBytes

file_id_loop-Found_example :
    Found (literal (codes "b")) files 1000 0 2 (file_id_loop (literal (codes "b")) files 1000 2 0)
file_id_loop-Found_example = file_id_loop-Found (literal (codes "b")) files 1000 2 0

-- Every read of configuration space returns the class of a bridge.
do_setup_pci_bus-Scanned_example :
    Ends ⊥
      (λ _ t. Scanned Same (machine 0x06040604 (λ _. 0)) t)
      (pci_foreach do_setup_pci (machine 0x06040604 (λ _. 0)))
    × Ends Unit
        (λ _ t. Scanned Same (machine 0x06040604 (λ _. 0)) t)
        (do_setup_pci_bus 3 (machine 0x06040604 (λ _. 0)))
do_setup_pci_bus-Scanned_example = do_setup_pci_bus-Scanned 3 (machine 0x06040604 (λ _. 0))

-- An i440FX whose image can be written as long as the last register write has opened it, and a ROM
-- whose bytes are those of their addresses.
opened : List Io → Bool
opened (out byte p v ∷ h) = v == 0x30
opened _ = false

abbrev i440fx : Machine
i440fx =
    let s = machine 0x12378086 u8 in record s { env = record s.env { image_writable = opened } }

i440fx-Opens : Opens i440fx.env 0x59
unfolding opened
i440fx-Opens h = refl

places-IsLinked : IsLinked places
places-IsLinked = record {
  image = omega arith;
  image_end = omega arith;
  init = omega arith;
  init_end = omega arith;
  check = omega arith;
}

setup_hw-Shadowed_example :
    (g : Memory) × (h : List Io) × (setup_hw i440fx ≡ ok true (record i440fx { io = h; mem = g }))
    × Shadowed places u8 g
setup_hw-Shadowed_example =
    setup_hw-Shadowed i440fx places-IsLinked (omega arith) (inl (refl, i440fx-Opens))
