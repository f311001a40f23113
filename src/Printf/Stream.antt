-- ===== src/Printf/Stream.antt =====
-- The first half of printf.c: the output stream, and the text of strings and numbers. `long` has 32
-- bits, and a signed number is its bit pattern.
pub mod Text
pub mod Arrays
pub mod Decimal
pub mod Numbers
pub mod Numeral
pub mod Swap
pub mod Digits
pub mod Padding
use qboot.Base.{
  ℕ, zero, suc, ◌+◌, ◌-◌, ◌/◌, ◌%◌, ◌==◌, leb, if◌then◌else◌, sub32, neg32, Option, none, some,
  get_or, ℤ, pos, negsuc, sub_ℕ,
}
use qboot.Base.Text.{codes}
use qboot.Memory.{Memory, st8}
use qboot.CString.{strlen}
use qboot.Printf.Result.{Result, returned, undefined, terminated, ◌>>=◌}

-- `struct pstream`, and the memory that it writes to; `remain` is an `int`.
pub record Pstream : Type 0 where
  pub mem : Memory
  pub buffer : ℕ
  pub remain : ℕ
  pub added : ℕ

-- `struct strprops`
pub record Strprops : Type 0 where
  pub pad : ℕ
  pub npad : ℤ

unfoldable pub addchar : ℕ → Pstream → Pstream
addchar c p = if p.remain == 0 then record p { added = p.added + 1 } else record {
  mem = st8 p.mem p.buffer c;
  buffer = p.buffer + 1;
  remain = sub32 p.remain 1;
  added = p.added + 1;
}

-- Where a string stands: in memory, or in a local array.
pub data Source : Type 0 where
  in_memory : ℕ → Source
  local : Memory → Source

-- The bytes that a pointer leads to, and the pointer.
abbrev pub bytes_of : Source → Memory → Memory
bytes_of (in_memory p) m = m
bytes_of (local b) m = b

abbrev pub start_of : Source → ℕ
start_of (in_memory p) = p
start_of (local b) = 0

-- `npad -= len` and `npad += len`
abbrev pub sub_len : ℤ → ℕ → ℤ
sub_len (pos n) len = sub_ℕ n len
sub_len (negsuc n) len = negsuc (n + len)

abbrev pub add_len : ℤ → ℕ → ℤ
add_len (pos n) len = pos (n + len)
add_len (negsuc n) len = sub_ℕ len (suc n)

-- The number of rounds of `while (npad > 0) --npad` and of `while (npad < 0) ++npad`.
abbrev pub above : ℤ → ℕ
above (pos n) = n
above (negsuc n) = 0

abbrev pub below : ℤ → ℕ
below (pos n) = 0
below (negsuc n) = suc n

unfoldable pub pad_loop : ℕ → ℕ → Pstream → Pstream
unfolding addchar
pad_loop zero c p = p
pad_loop (suc n) c p = pad_loop n c (addchar c p)

-- `while (*s) addchar(p, *s++);` where the bytes are read as the stream is written.
unfoldable pub text_loop : ℕ → Source → ℕ → Pstream → Option Pstream
unfolding addchar
text_loop zero s a p = none
text_loop (suc f) s a p =
    let c = bytes_of s p.mem a in
    let rest = text_loop f s (suc a) (addchar c p) in if c == 0 then some p else rest

-- The padding in front, if `npad` is positive, and what `npad` is then.
unfoldable pub pad_left : ℕ → Source → Strprops → Pstream → Result (Pstream × ℤ)
unfolding pad_loop
pad_left fuel s props p = if above props.npad == 0 then returned (p, props.npad) else do
  len ← terminated (strlen fuel (bytes_of s p.mem) (start_of s))
  let npad = sub_len props.npad len
  returned (pad_loop (above npad) props.pad p, if above npad == 0 then npad else pos 0)

-- The padding behind, if `npad` is negative.
unfoldable pub pad_right : ℕ → Source → ℤ → Pstream → Result Pstream
unfolding pad_loop
pad_right fuel s npad p = if below npad == 0 then returned p else do
  len ← terminated (strlen fuel (bytes_of s p.mem) (start_of s))
  returned (pad_loop (below (add_len npad len)) b' ' p)

unfoldable pub print_str : ℕ → Source → Strprops → Pstream → Result Pstream
unfolding pad_left text_loop pad_right
print_str fuel s props p = do
  (p1, npad) ← pad_left fuel s props p
  p2 ← terminated (text_loop fuel s (start_of s) p1)
  pad_right fuel s npad p2

abbrev pub digits : ℕ → ℕ
digits i = get_or (codes "0123456789abcdef") i 0

-- `while (n) { *p++ = digits[n % base]; n /= base; }`: the array, and `p` behind what is stored.
unfoldable pub digit_loop : ℕ → (base n : ℕ) → Memory → ℕ → Option (Memory × ℕ)
digit_loop zero base n buf p = none
digit_loop (suc f) base n buf p =
    let rest = digit_loop f base (n / base) (st8 buf p (digits (n % base))) (suc p) in
    if n == 0 then some (buf, p) else rest

-- The exchange of `buf[i]` and `p[-1 - i]`, with the rounds left and `i`.
unfoldable pub exchange_loop : ℕ → ℕ → ℕ → Memory → Memory
exchange_loop zero i p buf = buf
exchange_loop (suc n) i p buf =
    exchange_loop n (suc i) p (st8 (st8 buf i (buf (p - 1 - i))) (p - 1 - i) (buf i))

-- The array from the digits on: the sign, a digit for 0, the exchange and the NUL.
unfoldable pub finish_number : ℕ → Memory × ℕ → Memory
unfolding exchange_loop
finish_number s (buf, p) =
    let b1 = if s == 0 then buf else st8 buf p b'-' in
    let p1 = if s == 0 then p else suc p in
    let b2 = if p1 == 0 then st8 b1 p1 b'0' else b1 in
    let p2 = if p1 == 0 then suc p1 else p1 in st8 (exchange_loop (p2 / 2) 0 p2 b2) p2 0

-- The least `long` stays negative, and `digits` is read at a negative index.
unfoldable pub print_int : ℕ → (n base : ℕ) → Strprops → Pstream → Result Pstream
unfolding digit_loop finish_number print_str
print_int fuel n base props p =
    let s = if leb 0x80000000 n then 1 else 0 in
    let abs = if leb 0x80000000 n then neg32 n else n in
    if abs == 0x80000000 then undefined else do
      stored ← terminated (digit_loop fuel base abs (λ _. 0) 0)
      print_str fuel (local (finish_number s stored)) props p

unfoldable pub print_unsigned : ℕ → (n base : ℕ) → Strprops → Pstream → Result Pstream
unfolding digit_loop finish_number print_str
print_unsigned fuel n base props p = do
  stored ← terminated (digit_loop fuel base n (λ _. 0) 0)
  print_str fuel (local (finish_number 0 stored)) props p
