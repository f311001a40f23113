-- ===== src/Printf/Serial.antt =====
-- snprintf and printf: the text of a format in a buffer and on the serial port.
use qboot.Base.{
  subst, u8, ℕ, zero, suc, ◌+◌, ◌-◌, ◌<◌, ◌≡◌, ◌≢◌, ◌==◌, ◌^◌, refl, ◌∙◌, ap, List, [], ◌∷◌, length,
  min, arith, All, false,
}
use qboot.Memory.{Memory}
use qboot.CString.Copy.{SameOutside}
use qboot.CString.Terminated.{IsCString}
use qboot.Machine.{Machine, ok, Io, out, byte}
use qboot.Printf.{puts, puts_loop, snprintf, printf}
use qboot.Printf.Stream.Numeral.{cells-IsCString}
use qboot.Printf.Format.{plain}
use qboot.Printf.Format.Buffer.{Written, vsnprintf-Prints}
use qboot.Printf.Format.Prints.{Prints}

-- The bytes `xs` sent to the serial port, on top of a history.
abbrev pub serial : List ℕ → List Io → List Io
serial [] h = h
serial (x ∷ xs) h = serial xs (out byte 0x3f8 (u8 x) ∷ h)

puts_loop-serial :
    (f c n : ℕ) (xs : List ℕ) (s : Machine)
    → IsCString s.mem (c + n) xs
    → length xs < f
    → puts_loop f c n s ≡ ok (n + length xs) (record s { io = serial xs s.io })
unfolding puts_loop
puts_loop-serial zero c n xs s h l = absurd (omega arith)
puts_loop-serial (suc f) c n [] s h l =
    let all : n ≡ n + 0 = omega arith in rw h (ap (λ k. ok k s) all)
puts_loop-serial (suc f) c n (x ∷ xs) s h l =
    let sent : Machine = record s { io = out byte 0x3f8 (u8 x) ∷ s.io } in
    let more : x == 0 ≡ false = ground (arith, h.1) in
    let shift : suc (c + n) ≡ c + suc n = omega arith in
    let all : suc n + length xs ≡ n + suc (length xs) = omega arith in
    let rest =
      puts_loop-serial f c (suc n) xs sent (subst (λ a. IsCString s.mem a xs) shift h.2)
        (omega arith) in
    rw (h.0, more) (rest ∙ ap (λ k. ok k (record s { io = serial xs sent.io })) all)

-- `puts` sends the bytes of a string to the serial port, and returns their number.
pub puts-serial :
    (c : ℕ) (xs : List ℕ) (s : Machine)
    → IsCString s.mem c xs
    → length xs < s.fuel
    → puts c s ≡ ok (length xs) (record s { io = serial xs s.io })
unfolding puts
puts-serial c xs s h l =
    let start : c ≡ c + 0 = omega arith in
    let all : 0 + length xs ≡ length xs = omega arith in
    puts_loop-serial s.fuel c 0 xs s (subst (λ a. IsCString s.mem a xs) start h) l
    ∙ ap (λ k. ok k (record s { io = serial xs s.io })) all

pub snprintf-Prints :
    (buf size fmt : ℕ) (va : List ℕ) (s : Machine) (text : List ℕ)
    → 0 < size
    → size < 2 ^ 31
    → 11 < s.fuel
    → Prints s.mem buf (size - 1) s.fuel s.fuel plain fmt va text
    → (g : Memory) × (snprintf buf size fmt va s ≡ ok (length text + 1) (record s { mem = g }))
      × Written s.mem buf size text g
unfolding snprintf
snprintf-Prints buf size fmt va s text z b e rules =
    let (g, runs, written) = vsnprintf-Prints s.fuel buf size fmt va s.mem text z b e rules in
    (g, rw (snprintf, runs) refl, written)

-- A text that fits is a string in the buffer.
pub Written-IsCString :
    (m g : Memory) (buf size : ℕ) (text : List ℕ)
    → length text < size
    → All (λ x. x ≢ 0) text
    → Written m buf size text g
    → IsCString g buf text
Written-IsCString m g buf size text l n w =
    let end : buf + length text ≡ buf + min (length text) (size - 1) = omega arith in
    cells-IsCString g buf text (λ i h. w.text_at i h (omega arith)) n (ap g end ∙ w.nul_at)

-- When a format prints a text for its arguments by the rules of `Prints`, and the text has no
-- NUL and fewer than 2000 characters, then printf returns their number and one more, has sent
-- the text, each character as a byte, to the serial port in order, and has changed no memory
-- but its local buffer. The fuel is at least 12 and more than the characters, and the rules'
-- rounds, strings and widths are within it.
pub printf-serial :
    (fmt : ℕ) (va : List ℕ) (s : Machine) (text : List ℕ)
    → 11 < s.fuel
    → length text < s.fuel
    → length text < 2000
    → All (λ x. x ≢ 0) text
    → Prints s.mem s.symbols.printf_buf 1999 s.fuel s.fuel plain fmt va text
    → (g : Memory) × (printf fmt va s
        ≡ ok (length text + 1) (record s { mem = g; io = serial text s.io }))
      × SameOutside s.symbols.printf_buf 2000 s.mem g
unfolding printf
printf-serial fmt va s text e l k n rules =
    let (g, prints, written) =
      snprintf-Prints s.symbols.printf_buf 2000 fmt va s text (omega arith) (omega arith) e rules in
    let string = Written-IsCString s.mem g s.symbols.printf_buf 2000 text k n written in
    (
      g,
      rw (prints, puts-serial s.symbols.printf_buf text (record s { mem = g }) string l) refl,
      written.outside,
    )
