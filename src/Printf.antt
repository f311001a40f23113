-- ===== src/Printf.antt =====
-- printf.c: formatted output into a buffer and to the serial port. The functions that print one
-- value stand in Printf/Stream, the interpreter of format strings in Printf/Format.
pub mod Result
pub mod Stream
pub mod Format
pub mod Serial
pub mod Roundtrip
use qboot.Base.{ℕ, zero, suc, List, ◌==◌, if◌then◌else◌, ◌+◌}
use qboot.Machine.{
  Fw, ok, pure, panic, undefined_behaviour, no_fuel, ◌>>=◌, ◌>>◌, load, store, symbol,
}
use qboot.Machine.Ports.{outb}
use qboot.Printf.Result.{returned, panics, undefined, unfinished}
use qboot.Printf.Format.{vsnprintf}

-- `while (c[n]) outb(0x3f8, c[n++]);`
unfoldable pub puts_loop : ℕ → ℕ → ℕ → Fw ℕ
puts_loop zero c n = no_fuel
puts_loop (suc fuel) c n = do
  b ← load (λ m. m (c + n))
  if b == 0 then pure n else do outb 0x3f8 b; puts_loop fuel c (suc n)

unfoldable pub puts : ℕ → Fw ℕ
unfolding puts_loop
puts c = λ s. puts_loop s.fuel c 0 s

unfoldable pub snprintf : (buf size fmt : ℕ) → List ℕ → Fw ℕ
unfolding vsnprintf
snprintf buf size fmt va = λ s. elim (vsnprintf s.fuel buf size fmt va s.mem) [
  | returned (m, r) ↦ ok r (record s { mem = m })
  | panics ↦ panic s
  | undefined ↦ undefined_behaviour s
  | unfinished ↦ no_fuel s
]

-- `buf` is a local array of 2000 bytes.
unfoldable pub printf : (fmt : ℕ) → List ℕ → Fw ℕ
unfolding snprintf puts
printf fmt va = do buf ← symbol (λ y. y.printf_buf); r ← snprintf buf 2000 fmt va; puts buf; pure r
