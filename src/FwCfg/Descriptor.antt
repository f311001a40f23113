-- ===== src/FwCfg/Descriptor.antt =====
-- The descriptor that fw_cfg_dma builds, as the device reads it: three big-endian fields.
use qboot.Base.Bswap.{bswap32, bswap64, bswap32_involutive}
use qboot.Base.{u64, ap₂, ℕ, ◌+◌, ◌*◌, ◌/◌, ◌%◌, ◌<◌, ◌≡◌, ◌^◌, ◌∙◌, ap, arith, inl}
use qboot.Memory.Wide.{stq_p-Outside, ldq_p-stq_p}
use qboot.Memory.{Memory, stl_p, stq_p, ldl_p, ldq_p}
use qboot.Memory.Frame.{Outside, ldl_p-agree, stl_p-Outside, ldl_p-stl_p}

pub bswap32-bound : (x : ℕ) → bswap32 x < 2 ^ 32
unfolding bswap32
bswap32-bound x = omega arith

bswap64-bound : (x : ℕ) → bswap64 x < 2 ^ 64
unfolding bswap64
bswap64-bound x = omega (arith, bswap32-bound (x % 2 ^ 32), bswap32-bound (x / 2 ^ 32))

bswap64_halves :
    (l h : ℕ) → l < 2 ^ 32 → h < 2 ^ 32 → bswap64 (l * 2 ^ 32 + h) ≡ bswap32 h * 2 ^ 32 + bswap32 l
unfolding bswap64
bswap64_halves l h a b =
    let low : (l * 2 ^ 32 + h) % 2 ^ 32 ≡ h = omega arith in
    let high : (l * 2 ^ 32 + h) / 2 ^ 32 ≡ l = omega arith in
    ap₂ (λ x y. bswap32 x * 2 ^ 32 + bswap32 y) low high

bswap64_involutive : (x : ℕ) → x < 2 ^ 64 → bswap64 (bswap64 x) ≡ x
unfolding bswap64
bswap64_involutive x h =
    let low = bswap32_involutive (x % 2 ^ 32) (omega arith) in
    let high = bswap32_involutive (x / 2 ^ 32) (omega arith) in
    bswap64_halves (bswap32 (x % 2 ^ 32)) (bswap32 (x / 2 ^ 32)) (bswap32-bound (x % 2 ^ 32))
      (bswap32-bound (x / 2 ^ 32))
    ∙ omega (arith, low, high)

-- The memory in which fw_cfg_dma has built a descriptor.
abbrev pub described : Memory → (dma control buf len : ℕ) → Memory
described m dma control buf len =
    stq_p (stl_p (stl_p m dma (bswap32 control)) (dma + 4) (bswap32 len)) (dma + 8) (bswap64 buf)

-- The device reads the three arguments, and only the 16 bytes of the descriptor have changed.
pub described_lem :
    (m : Memory) (dma control buf len : ℕ)
    → control < 2 ^ 32
    → len < 2 ^ 32
    → buf < 2 ^ 64
    → let g = described m dma control buf len in
      (bswap32 (ldl_p g dma) ≡ control)
      × (bswap32 (ldl_p g (dma + 4)) ≡ len)
      × (bswap64 (ldq_p g (dma + 8)) ≡ buf)
      × ((a : ℕ) → Outside dma 16 a → g a ≡ m a)
described_lem m dma control buf len hc hl hb =
    let m1 = stl_p m dma (bswap32 control) in
    let m2 = stl_p m1 (dma + 4) (bswap32 len) in
    let g = stq_p m2 (dma + 8) (bswap64 buf) in
    let kept : (a : ℕ) → Outside (dma + 8) 8 a → g a ≡ m2 a =
      λ a o. stq_p-Outside m2 (dma + 8) (bswap64 buf) a o in
    let kept1 : (a : ℕ) → Outside (dma + 4) 4 a → m2 a ≡ m1 a =
      λ a o. stl_p-Outside m1 (dma + 4) (bswap32 len) a o in
    let wide : u64 (bswap64 buf) ≡ bswap64 buf = omega (arith, bswap64-bound buf) in
    let control_at =
      ldl_p-agree m1 g dma (λ a k l. kept a (inl (omega arith)) ∙ kept1 a (inl (omega arith))) in
    let len_at = ldl_p-agree m2 g (dma + 4) (λ a k l. kept a (inl (omega arith))) in
    (
      ap bswap32 (control_at ∙ ldl_p-stl_p m dma (bswap32 control) (bswap32-bound control))
          ∙ bswap32_involutive control hc,
      ap bswap32 (len_at ∙ ldl_p-stl_p m1 (dma + 4) (bswap32 len) (bswap32-bound len))
          ∙ bswap32_involutive len hl,
      ap bswap64 (ldq_p-stq_p m2 (dma + 8) (bswap64 buf) ∙ wide) ∙ bswap64_involutive buf hb,
      λ a o.
          kept a (ground arith)
          ∙ kept1 a (ground arith)
          ∙ stl_p-Outside m dma (bswap32 control) a (ground arith),
    )
