-- ===== src/Printf/Stream/Numbers.antt =====
-- print_int and print_unsigned: the numeral that they print, and the array that they fill.
use qboot.Base.{
  length-map, subst, if◌then◌else◌, false, ◌==◌, ℕ, zero, suc, ◌+◌, ◌≤◌, ◌<◌, ◌≡◌, ◌^◌, refl, ◌∙◌,
  ap, List, [], ◌∷◌, ◌++◌, map, length, arith, length-append, length-reverse, some, ◌≢◌, leb, neg32,
}
use qboot.Memory.{Memory}
use qboot.Printf.Result.{returned}
use qboot.Printf.Stream.{
  Pstream, Strprops, local, digits, digit_loop, finish_number, print_unsigned, print_str, print_int,
}
use qboot.Printf.Stream.Text.{Shows}
use qboot.Printf.Stream.Padding.{padded, print_str-Shows}
use qboot.Printf.Stream.Digits.{digits_of, digit_loop-Stored}
use qboot.Printf.Stream.Numeral.{numeral, stored_text, finish_number-IsCString}

pub length-stored_text : (s : ℕ) (ds : List ℕ) → length (stored_text s ds) ≤ suc (length ds)
length-stored_text zero [] = omega arith
length-stored_text zero (d ∷ ds) = omega (arith, length-map digits (d ∷ ds))
length-stored_text (suc s) ds =
    omega (arith, length-append (map digits ds) (b'-' ∷ []), length-map digits ds)

module _ {m : Memory} {buf room : ℕ} where
  -- From the loop over the digits to the stream.
  print-Shows :
      (f base k s n : ℕ) (props : Strprops) (ts : List ℕ) (p : Pstream)
      → room < 2 ^ 32
      → 1 < base
      → base ≤ 16
      → n < base ^ k
      → k + 1 < f
      → Shows m buf room ts p
      → (stored : Memory × ℕ) × (p' : Pstream) × (digit_loop f base n (λ _. 0) 0 ≡ some stored)
        × (print_str f (local (finish_number s stored)) props p ≡ returned p')
        × Shows m buf room (ts ++ padded props (numeral s (digits_of k base n))) p'
  print-Shows f base k s n props ts p r b c h e w =
      let (ds, arr, runs, st, eq) = digit_loop-Stored f base n k (λ _. 0) 0 b h (omega arith) in
      let plain : 0 + length ds ≡ length ds = omega arith in
      let string = finish_number-IsCString base arr s ds c st.small st.cells in
      let short : length (numeral s ds) < f =
        omega (arith, st.short, length-stored_text s ds, length-reverse (stored_text s ds)) in
      let (p', prints, shows) =
        print_str-Shows f (local (finish_number s (arr, length ds))) props (numeral s ds) ts p r
          string short w in
      (
        (arr, length ds),
        p',
        runs ∙ ap (λ q. some (arr, q)) plain,
        prints,
        subst (λ ds. Shows m buf room (ts ++ padded props (numeral s ds)) p') eq shows,
      )

-- The sign and the absolute value of a 32-bit pattern.
abbrev pub sign : ℕ → ℕ
sign n = if leb 0x80000000 n then 1 else 0

abbrev pub magnitude : ℕ → ℕ
magnitude n = if leb 0x80000000 n then neg32 n else n

-- The texts of `%d` and `%x`.
abbrev pub decimal_text : ℕ → List ℕ
decimal_text n = numeral (sign n) (digits_of 10 10 (magnitude n))

abbrev pub hex_text : ℕ → List ℕ
hex_text n = numeral 0 (digits_of 8 16 n)

module _ {m : Memory} {buf room : ℕ} where
  pub print_int-Shows :
      (f n : ℕ) (props : Strprops) (ts : List ℕ) (p : Pstream)
      → room < 2 ^ 32
      → n < 2 ^ 32
      → n ≢ 0x80000000
      → 11 < f
      → Shows m buf room ts p
      → (p' : Pstream) × (print_int f n 10 props p ≡ returned p')
        × Shows m buf room (ts ++ padded props (decimal_text n)) p'
  unfolding print_int
  print_int-Shows f n props ts p r h least e w =
      let small : magnitude n < 10 ^ 10 = ground arith in
      let other : magnitude n == 0x80000000 ≡ false = ground arith in
      let (stored, p', runs, prints, shows) =
        print-Shows f 10 10 (sign n) (magnitude n) props ts p r (omega arith) (omega arith) small e
          w in
      (p', rw (other, runs, prints) refl, shows)

  pub print_unsigned-Shows :
      (f n : ℕ) (props : Strprops) (ts : List ℕ) (p : Pstream)
      → room < 2 ^ 32
      → n < 2 ^ 32
      → 11 < f
      → Shows m buf room ts p
      → (p' : Pstream) × (print_unsigned f n 16 props p ≡ returned p')
        × Shows m buf room (ts ++ padded props (hex_text n)) p'
  unfolding print_unsigned
  print_unsigned-Shows f n props ts p r h e w =
      let (stored, p', runs, prints, shows) =
        print-Shows f 16 8 0 n props ts p r (omega arith) (omega arith) h (omega arith) w in
      (p', rw (runs, prints) refl, shows)
