-- ===== src/Examples/Kernels.antt =====
-- Runs of the ACPI loader, the memory map, the interrupt table and the kernel header.
use qboot.Base.{ℕ, ◌+◌, ◌<◌, ◌≤◌, ◌≡◌, ◌↔◌, [], ◌∷◌, ◌++◌, some, arith, refl, false, inr, ◌-◌}
use qboot.Base.{replicate}
use Prim.Native.Nat.{◌%◌, ◌^◌}
use qboot.Base.Text.{codes}
use qboot.Memory.{Memory, sum_at, IsBytes, ldq_p}
use qboot.Memory.Frame.{Outside}
use qboot.Base.{length, if◌then◌else◌, ◌==◌}
use qboot.Mptable.{setup_mptable}
use qboot.Mptable.Sums.{IsSummed, setup_mptable-IsSummed}
use qboot.Machine.{Returns, Machine, ok}
use qboot.Segment.{segment_to_flat, flat_to_off16, flat_to_seg16, segment_to_flat-flat_to_seg16}
use qboot.Tables.{load_le, add_pointer, fix_checksum, checksum_out_of_range}
use qboot.Tables.Patch.{add_pointer_lem}
use qboot.Tables.Checksum.{fix_checksum-sum, checksum_out_of_range_iff}
use qboot.Main.{idt, st_lowmem, find_lowmem, entry_addr, e820_ram}
use qboot.Main.Idt.{target, idt-target}
use qboot.Main.Entry.{Holds}
use qboot.Main.E820.{IsLowest, st_lowmem-Holds, find_lowmem-IsLowest}
use qboot.Interrupts.{BiosRegs}
use qboot.Interrupts.Walk.{walk, entries, walk-entries}
use qboot.LinuxBoot.{LinuxbootArgs, parse_bzimage, parsed}
use qboot.LinuxBoot.Header.{IsPlaced, allowed, parse_bzimage-IsPlaced}
use qboot.Examples.{bytes, bytes-IsBytes, machine}

abbrev table : Memory
table = bytes 4000 (1 ∷ 2 ∷ 3 ∷ 4 ∷ 5 ∷ 6 ∷ 7 ∷ 8 ∷ [])

table-IsBytes : IsBytes table
table-IsBytes = bytes-IsBytes 4000 (1 ∷ 2 ∷ 3 ∷ 4 ∷ 5 ∷ 6 ∷ 7 ∷ 8 ∷ []) (omega arith)

add_pointer_lem_example :
    (load_le (add_pointer 4000 4 0xf8000 table) 4000 4 ≡ (load_le table 4000 4 + 0xf8000) % 256 ^ 4)
    × ((a : ℕ) → Outside 4000 4 a → add_pointer 4000 4 0xf8000 table a ≡ table a)
add_pointer_lem_example = add_pointer_lem 4000 4 0xf8000 table (omega arith)

fix_checksum-sum_example : sum_at (fix_checksum 4000 2 0 8 table) 4000 8 % 256 ≡ 0
fix_checksum-sum_example =
    fix_checksum-sum 4000 2 0 8 table table-IsBytes (omega arith) (omega arith)

checksum_out_of_range_iff_example : checksum_out_of_range 8 2 0 8 ≡ false ↔ (2 < 8) × (0 + 8 ≤ 8)
checksum_out_of_range_iff_example = checksum_out_of_range_iff 8 2 0 8 (omega arith)

idt-target_example : target (idt 0xf1100 0xf1200 0xf1300 0xf1400 table) 0x15 ≡ 0xf1400
idt-target_example =
    idt-target 0xf1100 0xf1200 0xf1300 0xf1400 0x15 table (omega arith) (omega arith) (omega arith)
      (omega arith) (omega arith)

find_lowmem-IsLowest_example :
    IsLowest (λ k. ldq_p table (entry_addr 3996 k) ≡ 0) 0 3 (find_lowmem table 3996 3 0)
find_lowmem-IsLowest_example = find_lowmem-IsLowest table 3996 3 0

-- A map whose entry 0 is 16 MB of RAM at 0.
abbrev one_entry : Memory
one_entry = bytes 4000 (1 ∷ replicate 14 0 ++ 1 ∷ 0 ∷ 0 ∷ 0 ∷ 0 ∷ 1 ∷ [])

st_lowmem-Holds_example :
    Holds (st_lowmem 4000 0 one_entry) (entry_addr 4000 0) 0x100000 (0x1000000 - 0x100000) e820_ram
    × ((a : ℕ) → Outside (entry_addr 4000 0) 16 a → st_lowmem 4000 0 one_entry a ≡ one_entry a)
st_lowmem-Holds_example =
    st_lowmem-Holds 4000 0 0x1000000 e820_ram one_entry (omega arith) (omega arith) (omega arith)

segment_to_flat-flat_to_seg16_example :
    segment_to_flat (flat_to_seg16 0xf1234) (flat_to_off16 0xf1234) ≡ 0xf1234
segment_to_flat-flat_to_seg16_example = segment_to_flat-flat_to_seg16 0xf1234 (omega arith)

-- A map of two entries at 0x8000, and a caller with a buffer at 0x9000.
abbrev map_machine : Machine
map_machine =
    let s = machine 0 (bytes 0x8000 (2 ∷ [])) in
    record s { globals = record s.globals { e820_seg = 0x800 } }

abbrev caller : BiosRegs
caller = record {
  eax = 0xe820;
  ebx = 0;
  ecx = 20;
  edx = 0x534d4150;
  esp = 0;
  ebp = 0;
  esi = 0;
  edi = 0x9000;
  ds = 0;
  es = 0;
  fs = 0;
  ip = 0;
  cs = 0;
  eflags = 2;
}

walk-entries_example :
    (t : Machine) × (walk 2 caller map_machine ≡ ok (entries map_machine.mem 0x8000 2 0) t)
walk-entries_example =
    walk-entries 1 2 caller map_machine (omega arith) (omega arith) refl (inr (omega arith))

-- A kernel's header at 0x10000 with the magic number, protocol 2.03 and a limit of 0x37ffffff.
abbrev header : Memory
header =
    bytes 0x10202
      (codes "HdrS" ++ 3 ∷ 2 ∷ replicate 9 0 ++ 1 ∷ replicate 26 0 ++ 255 ∷ 255 ∷ 255 ∷ 55 ∷ [])

abbrev args : LinuxbootArgs
args = record {
  setup_addr = 0x10000;
  cmdline_addr = 0;
  kernel_addr = 0;
  initrd_addr = 0;
  setup_size = 0;
  kernel_size = 0;
  cmdline_size = 64;
  vmlinuz_size = 0x100000;
  initrd_size = 0x5000;
}

parses : parse_bzimage 0x80000000 args header ≡ some (parsed 0x80000000 args header)
unfolding parse_bzimage
parses = refl

parse_bzimage-IsPlaced_example :
    IsPlaced
      (allowed args header)
      0x80000000
      (parsed 0x80000000 args header).0
      (parsed 0x80000000 args header).1
parse_bzimage-IsPlaced_example =
    parse_bzimage-IsPlaced 0x80000000 args (parsed 0x80000000 args header).0 header
      (parsed 0x80000000 args header).1 parses (omega arith) (omega arith) (omega arith)
      (ground arith) (omega arith)

-- A configuration device that reports two processors and no override.
abbrev two_cpus : Machine
two_cpus =
    let s = machine 0 (λ _. 0) in
    record s { env = record s.env { input = λ h. if length h == 2 then 2 else 0 } }

setup_mptable-IsSummed_example : Returns (λ _ t. IsSummed t.mem) (setup_mptable two_cpus)
setup_mptable-IsSummed_example = setup_mptable-IsSummed two_cpus (λ _. omega arith) (omega arith)
