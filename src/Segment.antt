-- ===== src/Segment.antt =====
-- include/segment.h: real-mode segments and offsets.
use qboot.Base.Bits.{bit_and_mask, bit_and_clear}
use qboot.Base.{ℕ, ◌+◌, ◌≡◌, ◌<◌, u16, u32, arith, bit_and, ◌<<◌, ◌>>>◌, ◌/◌}

unfoldable pub segment_to_flat : ℕ → ℕ → ℕ
segment_to_flat selector offset = u32 ((selector << 4) + offset)

unfoldable pub flat_to_seg16 : ℕ → ℕ
flat_to_seg16 address = u16 (bit_and (address >>> 4) 0xf000)

unfoldable pub flat_to_off16 : ℕ → ℕ
flat_to_off16 address = bit_and address 65535

-- Below 1 MB, the segment and the offset of an address lead back to it.
pub segment_to_flat-flat_to_seg16 :
    (address : ℕ)
    → address < 0x100000
    → segment_to_flat (flat_to_seg16 address) (flat_to_off16 address) ≡ address
unfolding segment_to_flat flat_to_seg16 flat_to_off16
segment_to_flat-flat_to_seg16 address h =
    omega (arith, bit_and_mask 16 address, bit_and_clear 12 4 (address / 16) (omega arith))
