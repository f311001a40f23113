-- ===== src/Printf/Roundtrip.antt =====
-- A number that snprintf writes with `%d`, read back by atol.
use mathlib.Core.List.{append-nil}
use qboot.Base.{
  if◌then◌else◌, Bool, neg32, length-reverse, ℕ, zero, suc, ◌+◌, ◌-◌, ◌≤◌, ◌<◌, ◌≡◌, ◌≢◌, ◌^◌, refl,
  sym, ◌∙◌, ap, subst, List, [], ◌∷◌, ◌++◌, length, arith, All, some, Bool-cases, inl, inr, leb,
}
use qboot.Memory.{Memory}
use qboot.CString.{atol}
use qboot.CString.Copy.{Apart}
use qboot.CString.Terminated.{IsCString}
use qboot.Machine.{Machine, ok}
use qboot.Printf.{snprintf}
use qboot.Printf.Stream.Digits.{value, digits_of, digit_loop-Stored}
use qboot.Printf.Stream.Decimal.{atol-numeral_plain, atol-numeral_minus}
use qboot.Printf.Stream.Numbers.{decimal_text, sign, magnitude, length-stored_text}
use qboot.Printf.Stream.Numeral.{numeral, stored_text, numeral-ne}
use qboot.Printf.Stream.Padding.{padded}
use qboot.Printf.Format.{plain, no_props}
use qboot.Printf.Format.Prints.{Prints, end_of_format, conversion, decimal_number}
use qboot.Printf.Serial.{snprintf-Prints, Written-IsCString}

-- The digits of a number below `base ^ k`.
module _ (k base n : ℕ) (b : 1 < base) (h : n < base ^ k) where
  digits_of_lem :
      (value base (digits_of k base n) ≡ n)
      × All (λ d. d < base) (digits_of k base n)
      × (length (digits_of k base n) ≤ k)
  digits_of_lem =
      let (ds, arr, runs, st, eq) =
        digit_loop-Stored (suc k) base n k (λ _. 0) 0 b h (omega arith) in
      subst (λ ds. (value base ds ≡ n) × All (λ d. d < base) ds × (length ds ≤ k)) eq
        (st.is, st.small, st.short)

atol-decimal_text :
    (m : Memory) (f p n : ℕ)
    → n < 2 ^ 32
    → n ≢ 0x80000000
    → 11 < f
    → IsCString m p (decimal_text n)
    → atol f m p ≡ some n
atol-decimal_text m f p n h least e s = elim (Bool-cases (leb 0x80000000 n)) [
  | inl minus ↦
      let (is, small, short) = digits_of_lem 10 10 (neg32 n) (omega arith) (ground arith) in
      let back : neg32 (value 10 (digits_of 10 10 (neg32 n))) ≡ n = ground (arith, is) in
      atol-numeral_minus m f p (digits_of 10 10 (neg32 n)) small (subst text_at minus s)
        (ground (arith, is)) (omega arith)
      ∙ ap some back
  | inr nonneg ↦
      let (is, small, short) = digits_of_lem 10 10 n (omega arith) (omega arith) in
      atol-numeral_plain m f p (digits_of 10 10 n) small (subst text_at nonneg s)
        (ground (arith, is)) (omega arith)
      ∙ ap some is
]
  where
    text_at : Bool → Type 0
    text_at b =
        IsCString m p (numeral (if b then 1 else 0) (digits_of 10 10 (if b then neg32 n else n)))

padded_none : (text : List ℕ) → padded no_props text ++ [] ≡ text
padded_none text =
    let none : 0 - length text ≡ 0 = omega arith in
    rw none (append-nil (text ++ []) ∙ append-nil text)

-- The rules for the format "%d".
decimal-Prints :
    (m : Memory) (buf room f fmt n k : ℕ)
    → m fmt ≡ b'%'
    → m (suc fmt) ≡ b'd'
    → m (suc (suc fmt)) ≡ 0
    → Apart buf room fmt 3
    → n < 2 ^ 32
    → n ≢ 0x80000000
    → Prints m buf room f (suc (suc (suc k))) plain fmt (n ∷ []) (decimal_text n)
decimal-Prints m buf room f fmt n k c d z a h least =
    conversion (c, ground arith)
      (decimal_number n (d, ground arith) (omega arith) h least (sym (padded_none (decimal_text n)))
        (end_of_format (z, ground arith)))

fuel-suc : (f : ℕ) → 2 < f → (k : ℕ) × (f ≡ suc (suc (suc k)))
fuel-suc zero h = absurd (omega arith)
fuel-suc (suc zero) h = absurd (omega arith)
fuel-suc (suc (suc zero)) h = absurd (omega arith)
fuel-suc (suc (suc (suc k))) h = (k, refl)

decimal_text-ne : (n : ℕ) → n < 2 ^ 32 → n ≢ 0x80000000 → All (λ x. x ≢ 0) (decimal_text n)
decimal_text-ne n h least =
    let (is, small, short) = digits_of_lem 10 10 (magnitude n) (omega arith) (ground arith) in
    numeral-ne 10 (sign n) (digits_of 10 10 (magnitude n)) (omega arith) small

length-decimal_text : (n : ℕ) → n < 2 ^ 32 → n ≢ 0x80000000 → length (decimal_text n) ≤ 11
length-decimal_text n h least =
    let (is, small, short) = digits_of_lem 10 10 (magnitude n) (omega arith) (ground arith) in
    let ds = digits_of 10 10 (magnitude n) in
    omega (arith, short, length-stored_text (sign n) ds, length-reverse (stored_text (sign n) ds))

-- For the format "%d" and any `long` but the least, snprintf returns, and atol reads the number
-- back from the buffer. The buffer has at least 12 bytes and fewer than 2^31, and does not
-- overlap the format; the fuel is at least 12.
pub atol-snprintf :
    (buf size fmt n : ℕ) (s : Machine)
    → s.mem fmt ≡ b'%'
    → s.mem (suc fmt) ≡ b'd'
    → s.mem (suc (suc fmt)) ≡ 0
    → Apart buf size fmt 3
    → 11 < size
    → size < 2 ^ 31
    → 11 < s.fuel
    → n < 2 ^ 32
    → n ≢ 0x80000000
    → (r : ℕ) × (g : Memory) × (snprintf buf size fmt (n ∷ []) s ≡ ok r (record s { mem = g }))
      × (atol s.fuel g buf ≡ some n)
atol-snprintf buf size fmt n s c d z a lo hi e h least =
    let (k, enough) = fuel-suc s.fuel (omega arith) in
    let rules = decimal-Prints s.mem buf (size - 1) s.fuel fmt n k c d z (ground arith) h least in
    let (g, prints, written) =
      snprintf-Prints buf size fmt (n ∷ []) s (decimal_text n) (omega arith) hi e (
        subst (λ r. Prints s.mem buf (size - 1) s.fuel r plain fmt (n ∷ []) (decimal_text n))
          (sym enough) rules) in
    let string =
      Written-IsCString s.mem g buf size (decimal_text n)
        (omega (arith, length-decimal_text n h least)) (decimal_text-ne n h least) written in
    (length (decimal_text n) + 1, g, prints, atol-decimal_text g s.fuel buf n h least e string)
