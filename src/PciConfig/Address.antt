-- ===== src/PciConfig/Address.antt =====
-- How the ports address the registers of a function.
use qboot.Base.{ℕ, ◌+◌, ◌*◌, ◌%◌, ◌/◌, ◌≡◌, ◌<◌, arith, bit_and, bit_or, ◌∙◌, ap, ap₂}
use qboot.Base.Bits.{bit_and_mask, bit_and_split, bit_or_fields, bit_and_clear, bit_and-zero}
use qboot.PciConfig.{config_address, byte_port}

bit_and_fc : (a : ℕ) → bit_and a 0xfc ≡ a % 256 / 4 * 4
bit_and_fc a =
    let cut : a ≡ a / 256 * 256 + a % 256 = omega arith in
    ap (λ (t : ℕ). bit_and t 0xfc) cut
    ∙ bit_and_split 8 (a / 256) 0 (a % 256) 0xfc (omega arith) (omega arith)
    ∙ omega (arith, bit_and-zero (a / 256), bit_and_clear 2 6 (a % 256) (omega arith))

-- The address port gets the enable bit, the function in bits 8 to 23 and the register, rounded
-- down to a multiple of 4, in bits 0 to 7.
pub config_address_fields :
    (bdf addr : ℕ)
    → bdf < 65536
    → config_address bdf addr ≡ 0x80000000 + bdf * 256 + addr % 256 / 4 * 4
unfolding config_address
config_address_fields bdf addr h =
    let small : bdf % 65536 ≡ bdf = omega arith in
    let high : bit_or 0x80000000 (bdf % 65536 * 256) ≡ (0x800000 + bdf) * 256 =
      omega (arith, bit_or_fields 31 1 (bdf % 65536 * 256) (omega arith)) in
    ap₂ bit_or high (bit_and_fc addr)
    ∙ omega (arith, bit_or_fields 8 (0x800000 + bdf) (addr % 256 / 4 * 4) (omega arith))

pub byte_port_lane : (addr : ℕ) → byte_port addr ≡ 0xcfc + addr % 4
unfolding byte_port
byte_port_lane addr =
    ap (bit_or 0xcfc) (bit_and_mask 2 addr) ∙ bit_or_fields 2 831 (addr % 4) (omega arith)

-- Two byte accesses, to 16-bit functions and registers below 256, that put the same address on port
-- 0xcf8 and use the same data port are to the same function and the same register of its 256.
pub byte_access_injective :
    (b c x y : ℕ)
    → b < 65536
    → c < 65536
    → x < 256
    → y < 256
    → config_address b x ≡ config_address c y
    → byte_port x ≡ byte_port y
    → (b ≡ c) × (x ≡ y)
byte_access_injective b c x y hb hc hx hy same lane = omega (
  arith,
  config_address_fields b x hb,
  config_address_fields c y hc,
  byte_port_lane x,
  byte_port_lane y,
)
