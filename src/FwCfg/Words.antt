-- ===== src/FwCfg/Words.antt =====
-- The word-sized reads of the configuration device.
use qboot.Base.Bswap.{bswap32}
use qboot.Base.Bits.{bit_or_fields}
use qboot.Base.{sym, zero, suc, ◌∷◌, ℕ, ◌+◌, ◌*◌, ◌<◌, ◌≡◌, arith, u8, u32, ◌∙◌, ap, ◌^◌}
use qboot.Machine.{Machine, ok, inp, byte}
use qboot.FwCfg.{join_be, join_le, fw_cfg_readl_le, fw_cfg_readl_be}

join_be_lem : (val b : ℕ) → b < 256 → val * 256 < 2 ^ 32 → join_be val b ≡ val * 256 + b
unfolding join_be
join_be_lem val b hb hv =
    let small : u32 (val * 256) ≡ val * 256 = omega arith in rw small (bit_or_fields 8 val b hb)

join_le_lem : (k val b : ℕ) → val < 2 ^ k → b * 2 ^ k < 2 ^ 32 → join_le k val b ≡ b * 2 ^ k + val
unfolding join_le
join_le_lem k val b hv hb =
    let small : u32 (b * 2 ^ k) ≡ b * 2 ^ k = omega arith in rw small (bit_or_fields k b val hv)

-- Four bytes, first to last, in the two orders.
pub little :
    (a b c d : ℕ)
    → a < 256
    → b < 256
    → c < 256
    → d < 256
    → join_le 24 (join_le 16 (join_le 8 a b) c) d ≡ a + 256 * b + 65536 * c + 16777216 * d
little a b c d ha hb hc hd =
    rw
      (
        join_le_lem 8 a b ha (omega arith),
        join_le_lem 16 (b * 2 ^ 8 + a) c (omega arith) (omega arith),
        join_le_lem 24 (c * 2 ^ 16 + (b * 2 ^ 8 + a)) d (omega arith) (omega arith),
      )
      (omega arith)

pub big :
    (a b c d : ℕ)
    → a < 256
    → b < 256
    → c < 256
    → d < 256
    → join_be (join_be (join_be a b) c) d ≡ d + 256 * c + 65536 * b + 16777216 * a
big a b c d ha hb hc hd =
    rw
      (
        join_be_lem a b hb (omega arith),
        join_be_lem (a * 256 + b) c hc (omega arith),
        join_be_lem ((a * 256 + b) * 256 + c) d hd (omega arith),
      )
      (omega arith)

bswap32_bytes :
    (a b c d : ℕ)
    → a < 256
    → b < 256
    → c < 256
    → d < 256
    → bswap32 (a + 256 * b + 65536 * c + 16777216 * d) ≡ d + 256 * c + 65536 * b + 16777216 * a
unfolding bswap32
bswap32_bytes a b c d ha hb hc hd = omega arith

-- The state after `k` reads of the data port, and the byte that the last of them returned.
abbrev pub after_reads : ℕ → Machine → Machine
after_reads zero s = s
after_reads (suc k) s = let t = after_reads k s in record t { io = inp byte 0x511 ∷ t.io }

abbrev pub byte_read : ℕ → Machine → ℕ
byte_read k s = u8 (s.env.input (after_reads k s).io)

-- The two word reads return the next four bytes of the selected item, the little-endian one with
-- the first byte as the lowest; the big-endian one returns the byte swap of that. Both leave the
-- same state.
pub fw_cfg_readl_bytes :
    (s : Machine)
    → let v =
        byte_read 1 s + 256 * byte_read 2 s + 65536 * byte_read 3 s + 16777216 * byte_read 4 s in
      (fw_cfg_readl_le s ≡ ok v (after_reads 4 s))
      × (fw_cfg_readl_be s ≡ ok (bswap32 v) (after_reads 4 s))
unfolding fw_cfg_readl_le fw_cfg_readl_be
fw_cfg_readl_bytes s =
    let a = byte_read 1 s in
    let b = byte_read 2 s in
    let c = byte_read 3 s in
    let d = byte_read 4 s in
    (
      ap (λ v. ok v (after_reads 4 s))
          (little a b c d (omega arith) (omega arith) (omega arith) (omega arith)),
      ap (λ v. ok v (after_reads 4 s))
          (big a b c d (omega arith) (omega arith) (omega arith) (omega arith)
            ∙ sym (bswap32_bytes a b c d (omega arith) (omega arith) (omega arith) (omega arith))),
    )
