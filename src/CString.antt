-- ===== src/CString.antt =====
-- The functions of string.c over physical memory. A loop that runs to a terminating NUL takes
-- fuel, and `none` says that the fuel ran out; a counted loop recurs on its counter. A pointer
-- that is returned is a number, with 0 for NULL.
pub mod Terminated
pub mod Copy
pub mod Compare
pub mod Move
pub mod Search
pub mod Number
pub mod Checksum
use qboot.Base.{
  ℕ, zero, suc, ◌+◌, ◌*◌, ◌-◌, Bool, true, false, ◌||◌, ◌&&◌, not, Option, none, some, ltb, leb,
  ◌==◌, if◌then◌else◌, u8, u32, neg32, ℤ, pos, negsuc, sub_ℕ, char_sub, ◌^◌,
}
use qboot.Memory.{Memory, st8}

-- The end of the string: the address of its NUL.
pub find_end : ℕ → Memory → ℕ → Option ℕ
find_end zero m p = none
find_end (suc f) m p = let rest = find_end f m (suc p) in if m p == 0 then some p else rest

strlen_loop : ℕ → Memory → ℕ → ℕ → Option ℕ
strlen_loop zero m buf len = none
strlen_loop (suc f) m buf len =
    let rest = strlen_loop f m (suc buf) (suc len) in if m buf == 0 then some len else rest

unfoldable pub strlen : ℕ → Memory → ℕ → Option ℕ
unfolding strlen_loop
strlen fuel m buf = strlen_loop fuel m buf 0

-- `while ((*p++ = *src++) != 0);`
copy_loop : ℕ → Memory → ℕ → ℕ → Option Memory
copy_loop zero m p src = none
copy_loop (suc f) m p src =
    let m' = st8 m p (m src) in
    let rest = copy_loop f m' (suc p) (suc src) in if m src == 0 then some m' else rest

-- Both return `dest`, which is left out.
pub strcat : ℕ → Memory → ℕ → ℕ → Option Memory
unfolding find_end copy_loop
strcat fuel m dest src = elim (find_end fuel m dest) [
  | none ↦ none
  | some p ↦ copy_loop fuel m p src
]

pub strcpy : ℕ → Memory → ℕ → ℕ → Option Memory
unfolding strcat
strcpy fuel m dest src = strcat fuel (st8 m dest 0) dest src

pub strcmp : ℕ → Memory → ℕ → ℕ → Option ℤ
strcmp zero m a b = none
strcmp (suc f) m a b =
    let rest = strcmp f m (suc a) (suc b) in
    if m a == m b
    then (if m a == 0 then some (char_sub (m a) (m b)) else rest)
    else some (char_sub (m a) (m b))

pub strchr : ℕ → Memory → ℕ → ℕ → Option ℕ
strchr zero m s c = none
strchr (suc f) m s c =
    let rest = strchr f m (suc s) c in
    if m s == u8 c then some s else (if m s == 0 then some 0 else rest)

abbrev pub is_zero : ℤ → Bool
is_zero (pos zero) = true
is_zero _ = false

unfoldable pub memcmp : Memory → ℕ → ℕ → ℕ → ℤ
memcmp m a b zero = pos 0
memcmp m a b (suc n) =
    let rest = memcmp m (suc a) (suc b) n in
    let ret = sub_ℕ (m a) (m b) in if is_zero ret then rest else ret

-- `l1` counts down, and the test fails at 0 since `l2` is not 0.
strstr_loop : Memory → ℕ → ℕ → ℕ → ℕ → ℕ
strstr_loop m s1 s2 zero l2 = 0
strstr_loop m s1 s2 (suc l1) l2 =
    let rest = strstr_loop m (suc s1) s2 l1 l2 in
    if leb l2 (suc l1) then (if is_zero (memcmp m s1 s2 l2) then s1 else rest) else 0

pub strstr : ℕ → Memory → ℕ → ℕ → Option ℕ
unfolding strlen strstr_loop
strstr fuel m s1 s2 = elim (strlen fuel m s2) [
  | none ↦ none
  | some l2 ↦
      if l2 == 0
      then some s1
      else elim (strlen fuel m s1) [ none ↦ none | some l1 ↦ some (strstr_loop m s1 s2 l1 l2) ]
]

-- `while (n--) *d++ = *s++;`
move_up : Memory → ℕ → ℕ → ℕ → Memory
move_up m d s zero = m
move_up m d s (suc n) = move_up (st8 m d (m s)) (suc d) (suc s) n

-- `while (n--) *--d = *--s;` with `d` and `s` past the ends.
move_down : Memory → ℕ → ℕ → ℕ → Memory
move_down m d s zero = m
move_down m d s (suc n) = move_down (st8 m (d + n) (m (s + n))) d s n

pub memmove : Memory → ℕ → ℕ → ℕ → Memory
unfolding move_up move_down
memmove m dest src n = if leb dest src then move_up m dest src n else move_down m dest src n

pub memchr : Memory → ℕ → ℕ → ℕ → ℕ
memchr m s c zero = 0
memchr m s c (suc n) = let rest = memchr m (suc s) c n in if m s == u8 c then s else rest

skip_blanks : ℕ → Memory → ℕ → Option ℕ
skip_blanks zero m s = none
skip_blanks (suc f) m s =
    let rest = skip_blanks f m (suc s) in if m s == b' ' || m s == 9 then rest else some s

-- `acc` is a `long` of 32 bits. There is no result either where it overflows, which is undefined.
digits_loop : ℕ → Memory → ℕ → ℕ → Option ℕ
digits_loop zero m s acc = none
digits_loop (suc f) m s acc =
    let next = acc * 10 + (m s - b'0') in
    let rest = digits_loop f m (suc s) next in
    if m s == 0
    then some acc
    else if ltb (m s) b'0' || ltb b'9' (m s)
    then some acc
    else if ltb next (2 ^ 31)
    then rest
    else none

unfoldable pub atol : ℕ → Memory → ℕ → Option ℕ
unfolding skip_blanks digits_loop
atol fuel m ptr = elim (skip_blanks fuel m ptr) [
  | none ↦ none
  | some s ↦
      if m s == b'-'
      then elim (digits_loop fuel m (suc s) 0) [ none ↦ none | some acc ↦ some (neg32 acc) ]
      else digits_loop fuel m (if m s == b'+' then suc s else s) 0
]

csum_loop : Memory → ℕ → ℕ → ℕ → ℕ
csum_loop m buf zero s = s
csum_loop m buf (suc len) s = csum_loop m (suc buf) len (u32 (s + m buf))

unfoldable pub csum8 : Memory → ℕ → ℕ → ℕ
unfolding csum_loop
csum8 m buf len = u8 (csum_loop m buf len 0)
