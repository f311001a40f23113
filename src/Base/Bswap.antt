-- ===== src/Base/Bswap.antt =====
-- include/bswap.h: the compiler's byte swaps.
use Prim.Native.Nat.{ℕ, ◌+◌, ◌*◌, ◌/◌, ◌%◌, ◌^◌, ◌<◌}
use mathlib.Core.Path.{◌≡◌}
use native.Mathlib.Omega.{arith}

unfoldable pub bswap16 : ℕ → ℕ
bswap16 x = x % 256 * 256 + x / 256 % 256

unfoldable pub bswap32 : ℕ → ℕ
unfolding bswap16
bswap32 x = bswap16 (x % 65536) * 65536 + bswap16 (x / 65536)

unfoldable pub bswap64 : ℕ → ℕ
unfolding bswap32
bswap64 x = bswap32 (x % 4294967296) * 4294967296 + bswap32 (x / 4294967296)

-- Swapping twice gives a 32-bit value back.
pub bswap32_involutive : (x : ℕ) → x < 2 ^ 32 → bswap32 (bswap32 x) ≡ x
unfolding bswap32
bswap32_involutive x h = omega arith
