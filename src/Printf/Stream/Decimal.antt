-- ===== src/Printf/Stream/Decimal.antt =====
-- A decimal numeral of print_int, read back by atol of string.c.
use mathlib.Core.List.{reverse_aux, reverse_aux-append}
use qboot.Base.{
  All-reverse_aux, ℕ, suc, ◌+◌, ◌*◌, ◌≤◌, ◌<◌, ◌≡◌, ◌^◌, refl, ◌∙◌, ap, subst, List, [], ◌∷◌, map,
  reverse, length, arith, All, length-reverse, neg32, some, inl,
}
use qboot.Memory.{Memory}
use qboot.CString.{atol}
use qboot.CString.Number.{decimal, HasDigits, atol-decimal, atol-minus}
use qboot.CString.Terminated.{IsCString}
use qboot.Printf.Stream.{digits}
use qboot.Printf.Stream.Digits.{value}
use qboot.Printf.Stream.Numeral.{numeral, digits_lem}

decimal-reverse_aux : (ds r : List ℕ) → decimal 0 (reverse_aux ds r) ≡ decimal (value 10 ds) r
decimal-reverse_aux [] r = refl
decimal-reverse_aux (d ∷ ds) r =
    let step : value 10 ds * 10 + d ≡ d + 10 * value 10 ds = omega arith in
    decimal-reverse_aux ds (d ∷ r) ∙ ap (λ v. decimal v r) step

map-reverse_aux :
    (ds r : List ℕ) → reverse_aux (map digits ds) (map digits r) ≡ map digits (reverse_aux ds r)
map-reverse_aux [] r = refl
map-reverse_aux (d ∷ ds) r = map-reverse_aux ds (d ∷ r)

string-HasDigits :
    (m : Memory) (p : ℕ) (es : List ℕ)
    → All (λ d. d < 10) es
    → IsCString m p (map digits es)
    → HasDigits m p es
string-HasDigits m p [] h s = inl (omega arith)
string-HasDigits m p (e ∷ es) h s =
    (h.0, s.0 ∙ digits_lem e h.0, string-HasDigits m (suc p) es h.1 s.2)

-- The digits of the numeral in the order in which they are read.
read_digits : List ℕ → List ℕ
read_digits [] = 0 ∷ []
read_digits (d ∷ ds) = reverse (d ∷ ds)

numeral_plain : (ds : List ℕ) → numeral 0 ds ≡ map digits (read_digits ds)
unfolding read_digits
numeral_plain [] = refl
numeral_plain (d ∷ ds) = map-reverse_aux (d ∷ ds) []

numeral_minus : (ds : List ℕ) → numeral 1 ds ≡ b'-' ∷ map digits (reverse ds)
numeral_minus ds =
    reverse_aux-append (map digits ds) (b'-' ∷ []) [] ∙ ap (λ xs. b'-' ∷ xs) (map-reverse_aux ds [])

read_digits-small : (ds : List ℕ) → All (λ d. d < 10) ds → All (λ d. d < 10) (read_digits ds)
unfolding read_digits
read_digits-small [] h = (omega arith, tt)
read_digits-small (d ∷ ds) h = All-reverse_aux (λ d. d < 10) (d ∷ ds) [] h tt

decimal-read_digits : (ds : List ℕ) → decimal 0 (read_digits ds) ≡ value 10 ds
unfolding read_digits
decimal-read_digits [] = refl
decimal-read_digits (d ∷ ds) = decimal-reverse_aux (d ∷ ds) []

length-read_digits : (ds : List ℕ) → length (read_digits ds) ≤ suc (length ds)
unfolding read_digits
length-read_digits [] = omega arith
length-read_digits (d ∷ ds) = omega (arith, length-reverse (d ∷ ds))

read_digits-ne : (ds : List ℕ) → 0 < length (read_digits ds)
unfolding read_digits
read_digits-ne [] = omega arith
read_digits-ne (d ∷ ds) = omega (arith, length-reverse (d ∷ ds))

HasDigits-first :
    (m : Memory) (p : ℕ) (es : List ℕ)
    → 0 < length es
    → HasDigits m p es
    → (b'0' ≤ m p) × (m p ≤ b'9')
HasDigits-first m p [] l h = absurd (omega arith)
HasDigits-first m p (e ∷ es) l h = (omega (arith, h.0, h.1), omega (arith, h.0, h.1))

first_digit :
    (m : Memory) (p : ℕ) (ds : List ℕ)
    → HasDigits m p (read_digits ds)
    → (b'0' ≤ m p) × (m p ≤ b'9')
first_digit m p ds h = HasDigits-first m p (read_digits ds) (read_digits-ne ds) h

-- From the string of a numeral, `atol` reads its number.
pub atol-numeral_plain :
    (m : Memory) (f p : ℕ) (ds : List ℕ)
    → All (λ d. d < 10) ds
    → IsCString m p (numeral 0 ds)
    → value 10 ds < 2 ^ 31
    → length ds + 1 < f
    → atol f m p ≡ some (value 10 ds)
atol-numeral_plain m f p ds h s fits l =
    let has =
      string-HasDigits m p (read_digits ds) (read_digits-small ds h)
        (subst (IsCString m p) (numeral_plain ds) s) in
    let first = first_digit m p ds has in
    atol-decimal m f p 0 p (read_digits ds) (refl, omega arith, omega arith) has (omega arith)
      (omega arith) (omega (arith, decimal-read_digits ds)) (omega arith)
      (omega (arith, length-read_digits ds))
    ∙ ap some (decimal-read_digits ds)

pub atol-numeral_minus :
    (m : Memory) (f p : ℕ) (ds : List ℕ)
    → All (λ d. d < 10) ds
    → IsCString m p (numeral 1 ds)
    → value 10 ds < 2 ^ 31
    → length ds + 1 < f
    → atol f m p ≡ some (neg32 (value 10 ds))
atol-numeral_minus m f p ds h s fits l =
    let string = subst (IsCString m p) (numeral_minus ds) s in
    let has =
      string-HasDigits m (suc p) (reverse ds) (All-reverse_aux (λ d. d < 10) ds [] h tt) string.2 in
    atol-minus m f p 0 p (reverse ds) (refl, omega (arith, string.0), omega (arith, string.0))
      string.0 has (omega (arith, decimal-reverse_aux ds [])) (omega arith)
      (omega (arith, length-reverse ds))
    ∙ ap (λ v. some (neg32 v)) (decimal-reverse_aux ds [])
