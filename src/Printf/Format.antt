-- ===== src/Printf/Format.antt =====
-- The second half of printf.c: the interpreter of format strings. The variable arguments are the
-- 32-bit words that the caller has pushed.
pub mod Fmtnum
pub mod Run
pub mod Step
pub mod Buffer
pub mod Prints
use qboot.Base.{
  ℕ, zero, suc, ◌+◌, ◌-◌, ◌^◌, Bool, ◌&&◌, ◌||◌, ◌==◌, leb, if◌then◌else◌, u8, sub32, List, [], ◌∷◌,
  ℤ, pos, negsuc, Option, none, some, get_or,
}
use qboot.Base.Text.{codes}
use qboot.Memory.{Memory, st8}
use qboot.CString.{atol}
use qboot.Printf.Result.{Result, returned, panics, undefined, unfinished, terminated, ◌>>=◌}
use qboot.Printf.Stream.{
  Pstream, Strprops, in_memory, local, addchar, print_str, print_int, print_unsigned,
}

-- The value of a 32-bit pattern as a signed `int`.
abbrev pub signed : ℕ → ℤ
signed n = if leb 0x80000000 n then negsuc (2 ^ 32 - 1 - n) else pos n

abbrev pub is_digit : ℕ → Bool
is_digit c = leb b'0' c && leb c b'9'

-- `while (*f >= '0' && *f <= '9') ++f, ++len;`
unfoldable pub count_digits : ℕ → Memory → ℕ → ℕ → Option ℕ
count_digits zero m f len = none
count_digits (suc fuel) m f len =
    let rest = count_digits fuel m (suc f) (suc len) in if is_digit (m f) then rest else some len

-- The number at `fmt`, and `fmt` behind it.
unfoldable pub fmtnum : ℕ → Memory → ℕ → Result (ℤ × ℕ)
unfolding count_digits
fmtnum fuel m fmt = do
  let minus = m fmt == b'-'
  len ← terminated (count_digits fuel m (if minus then suc fmt else fmt) (if minus then 1 else 0))
  num ← terminated (atol fuel m fmt)
  returned (signed num, fmt + len)

-- Where the interpreter is: between conversions, or at `morefmt`.
pub data Mode : Type 0 where
  plain : Mode
  morefmt : (nlong : ℕ) → Strprops → Mode

pub record Scan : Type 0 where
  pub mode : Mode
  pub fmt : ℕ
  pub va : List ℕ
  pub out : Pstream

-- What a step leads to.
pub data Progress : Type 0 where
  more : Scan → Progress
  finished : Pstream → Progress

abbrev pub next : ℕ → List ℕ → Pstream → Result Progress
next fmt va out = returned (more (record { mode = plain; fmt = fmt; va = va; out = out }))

-- `va_arg(va, T)` for a type of 32 bits; there is none behind the last argument.
abbrev pub va_arg : {A : Type 0} → List ℕ → (ℕ → List ℕ → Result A) → Result A
va_arg [] k = undefined
va_arg (w ∷ va) k = k w va

abbrev pub no_props : Strprops
no_props = record { pad = b' '; npad = pos 0 }

-- "0x"
abbrev pub hex_prefix : Memory
hex_prefix i = get_or (codes "0x") i 0

-- The conversions that print: `f`, with `fmt` behind it.
unfoldable pub convert : ℕ → (f nlong : ℕ) → Strprops → ℕ → List ℕ → Pstream → Result Progress
convert fuel f nlong props fmt va out =
    if f == b'd'
    then (if leb 2 nlong
        then panics
        else va_arg va (λ w va'. do out' ← print_int fuel w 10 props out; next fmt va' out'))
    else if f == b'x'
    then (if leb 2 nlong
        then panics
        else va_arg va (λ w va'. do out' ← print_unsigned fuel w 16 props out; next fmt va' out'))
    else if f == b'p'
    then (do
      out1 ← print_str fuel (local hex_prefix) props out
      va_arg va (λ w va'. do out2 ← print_unsigned fuel w 16 props out1; next fmt va' out2))
    else if f == b's'
    then va_arg va (λ w va'. do out' ← print_str fuel (in_memory w) props out; next fmt va' out')
    else next fmt va (addchar f out)

-- From `morefmt` on: the flag 0, a width, the modifier l, and the conversion. Behind the flag 0 one
-- more character is skipped, and the 0 itself takes the rest of the tests.
unfoldable pub step_morefmt : ℕ → (nlong : ℕ) → Strprops → ℕ → List ℕ → Pstream → Result Progress
unfolding convert fmtnum addchar
step_morefmt fuel nlong props fmt va out =
    let f = out.mem fmt in
    if f == b'%'
    then next (suc fmt) va (addchar b'%' out)
    else if f == b'c'
    then va_arg va (λ w va'. next (suc fmt) va' (addchar (u8 w) out))
    else if f == 0
    then next fmt va out
    else if f == b'0'
    then convert fuel f nlong (record props { pad = b'0' }) (suc (suc fmt)) va out
    else if leb b'1' f && leb f b'9' || f == b'-'
    then (do
      (npad, fmt') ← fmtnum fuel out.mem fmt
      returned (
          more (record {
            mode = morefmt nlong (record props { npad = npad });
            fmt = fmt';
            va = va;
            out = out;
          })))
    else if f == b'l'
    then returned
        (more (record { mode = morefmt (nlong + 1) props; fmt = suc fmt; va = va; out = out }))
    else convert fuel f nlong props (suc fmt) va out

-- One round of `while (*fmt)`, up to `morefmt`.
unfoldable pub step : ℕ → Scan → Result Progress
unfolding step_morefmt addchar
step fuel s = elim s.mode [
  | plain ↦
      let f = s.out.mem s.fmt in
      if f == 0
      then returned (finished s.out)
      else if f == b'%'
      then returned
          (more (record { mode = morefmt 0 no_props; fmt = suc s.fmt; va = s.va; out = s.out }))
      else next (suc s.fmt) s.va (addchar f s.out)
  | morefmt nlong props ↦ step_morefmt fuel nlong props s.fmt s.va s.out
]

-- The rounds; the last argument bounds the loops of the steps too.
unfoldable pub run : ℕ → ℕ → Scan → Result Pstream
unfolding step
run zero fuel s = unfinished
run (suc rounds) fuel s = do
  p ← step fuel s
  elim p [ more s' ↦ run rounds fuel s' | finished out ↦ returned out ]

-- The terminating NUL, stored even if no room is left for it.
unfoldable pub end_buffer : Pstream → Memory × ℕ
end_buffer out = (st8 out.mem out.buffer 0, out.added + 1)

-- The memory and the result.
unfoldable pub vsnprintf : ℕ → (buf size fmt : ℕ) → List ℕ → Memory → Result (Memory × ℕ)
unfolding run end_buffer
vsnprintf fuel buf size fmt va m = do
  let start : Pstream = record { mem = m; buffer = buf; remain = sub32 size 1; added = 0 }
  out ← run fuel fuel (record { mode = plain; fmt = fmt; va = va; out = start })
  returned (end_buffer out)
