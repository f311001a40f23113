-- ===== src/LinuxBoot/Placement.antt =====
-- Where parse_bzimage puts the initrd and the command line.
use qboot.Base.{ℕ, ◌+◌, ◌%◌, ◌^◌, ◌<◌, ◌≤◌, ◌≡◌, arith, sub32}
use qboot.Base.Bits.{bit_and_clear}
use qboot.LinuxBoot.{initrd_place, old_cmdline}

-- An initrd that is not larger than the limit is placed on a page, ends at the limit or less than a
-- page below it.
pub initrd_place_lem :
    (limit size : ℕ)
    → 0 < size
    → size ≤ limit
    → limit < 2 ^ 32
    → let place = initrd_place limit size in
      (place % 4096 ≡ 0) × (place + size ≤ limit) × (limit < place + size + 4096)
unfolding initrd_place
initrd_place_lem limit size pos fits bound =
    ground (arith, bit_and_clear 12 20 (sub32 limit size) (omega arith))

-- For a command line that fits below 0x9a000, an old kernel's is put on a multiple of 16 and ends
-- at 0x9a000 or less than 16 bytes below it.
pub old_cmdline_lem :
    (size : ℕ)
    → size ≤ 0x9a000
    → let place = old_cmdline size in
      (place % 16 ≡ 0) × (place + size ≤ 0x9a000) × (0x9a000 < place + size + 16)
unfolding old_cmdline
old_cmdline_lem size fits = omega (arith, bit_and_clear 4 28 (sub32 0x9a000 size) (omega arith))
