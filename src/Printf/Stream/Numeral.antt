-- ===== src/Printf/Stream/Numeral.antt =====
-- The array that print_int and print_unsigned hand to print_str.
use qboot.Base.Text.{codes}
use qboot.Base.{
  length-map, get_or-map, get_or-All, All-append, All-reverse_aux, ◌/◌, ℕ, zero, suc, ◌+◌, ◌-◌, ◌≤◌,
  ◌<◌, ◌≡◌, ◌≢◌, sym, ◌∙◌, ap, List, [], ◌∷◌, ◌++◌, map, reverse, length, get_or, arith, All,
  get_or-append_left, get_or-append_end, length-append, length-reverse, get_or-reverse, Bool-cases,
  ==_iff, inl, inr, ◌==◌, subst, ◌/◌,
}
use qboot.Memory.{Memory, st8}
use qboot.Memory.Frame.{st8_self, st8-ne}
use qboot.CString.Terminated.{IsCString}
use qboot.Printf.Stream.{digits, finish_number, exchange_loop}
use qboot.Printf.Stream.Swap.{exchange_loop-reverse}

-- From address 0 on stand the elements of `xs`.
abbrev pub Cells : Memory → List ℕ → Type 0
Cells arr xs = (i : ℕ) → i < length xs → arr i ≡ get_or xs i 0

-- The characters in the order in which they are stored, the last digit first.
abbrev pub stored_text : ℕ → List ℕ → List ℕ
stored_text zero [] = b'0' ∷ []
stored_text zero (d ∷ ds) = map digits (d ∷ ds)
stored_text (suc s) ds = map digits ds ++ b'-' ∷ []

-- The numeral as it is read: a minus sign if `s` is 1, and the digits.
abbrev pub numeral : ℕ → List ℕ → List ℕ
numeral s ds = reverse (stored_text s ds)

digits-ne : (d : ℕ) → d < 16 → digits d ≢ 0
digits-ne d h = get_or-All (λ x. x ≢ 0) (codes "0123456789abcdef") d 0 search arith h

-- The first ten characters of the table are the decimal digits.
Ascending : ℕ → List ℕ → Type 0
Ascending c [] = Unit
Ascending c (x ∷ xs) = (x ≡ c) × Ascending (suc c) xs

get_or-Ascending :
    (c : ℕ) (xs : List ℕ) (i : ℕ) → Ascending c xs → i < length xs → get_or xs i 0 ≡ c + i
unfolding Ascending
get_or-Ascending c [] i h k = absurd (omega arith)
get_or-Ascending c (x ∷ xs) zero h k = omega (arith, h.0)
get_or-Ascending c (x ∷ xs) (suc i) h k = omega (arith, get_or-Ascending (suc c) xs i h.1)

pub digits_lem : (d : ℕ) → d < 10 → digits d ≡ b'0' + d
unfolding Ascending
digits_lem d h =
    get_or-append_left (codes "0123456789") (codes "abcdef") d 0 h
    ∙ get_or-Ascending b'0' (codes "0123456789") d (search arith) h

Cells-append :
    (arr : Memory) (xs : List ℕ) (c : ℕ)
    → Cells arr xs
    → Cells (st8 arr (length xs) c) (xs ++ c ∷ [])
Cells-append arr xs c h i k = elim (Bool-cases (i == length xs)) [
  | inl e ↦
      let last : i ≡ length xs = (==_iff i (length xs)).0 e in
      ap (st8 arr (length xs) c) last
      ∙ st8_self arr (length xs) c
      ∙ sym (get_or-append_end xs c 0)
      ∙ ap (λ j. get_or (xs ++ c ∷ []) j 0) (sym last)
  | inr ne ↦
      let before : i < length xs = ground (arith, length-append xs (c ∷ [])) in
      st8-ne arr (length xs) c i (ground arith)
      ∙ h i before
      ∙ sym (get_or-append_left xs (c ∷ []) i 0 before)
]

-- A list in its cells, with a NUL behind it, is a string.
pub cells-IsCString :
    (arr : Memory) (a : ℕ) (xs : List ℕ)
    → ((i : ℕ) → i < length xs → arr (a + i) ≡ get_or xs i 0)
    → All (λ x. x ≢ 0) xs
    → arr (a + length xs) ≡ 0
    → IsCString arr a xs
cells-IsCString arr a [] h k z = let here : a ≡ a + 0 = omega arith in ap arr here ∙ z
cells-IsCString arr a (x ∷ xs) h k z =
    let here : a ≡ a + 0 = omega arith in
    let end : suc a + length xs ≡ a + suc (length xs) = omega arith in
    let shift : (i : ℕ) → suc a + i ≡ a + suc i = λ i. omega arith in
    (
      ap arr here ∙ h 0 (omega arith),
      k.0,
      cells-IsCString arr (suc a) xs (λ i l. ap arr (shift i) ∙ h (suc i) (omega arith)) k.1
          (ap arr end ∙ z),
    )

-- The exchange and the NUL make a string of the stored characters.
reversed_cell :
    (arr : Memory) (xs : List ℕ) (i : ℕ)
    → Cells arr xs
    → i < length xs
    → st8 (exchange_loop (length xs / 2) 0 (length xs) arr) (length xs) 0 i
      ≡ get_or (reverse xs) i 0
reversed_cell arr xs i h k =
    let j = length xs - 1 - i in
    let back : i ≡ length xs - 1 - j = omega arith in
    st8-ne (exchange_loop (length xs / 2) 0 (length xs) arr) (length xs) 0 i (omega arith)
    ∙ exchange_loop-reverse (length xs) arr i k
    ∙ h j (omega arith)
    ∙ sym (get_or-reverse xs j 0 (omega arith))
    ∙ ap (λ l. get_or (reverse xs) l 0) (sym back)

reversed-IsCString :
    (arr : Memory) (xs : List ℕ)
    → Cells arr xs
    → All (λ x. x ≢ 0) (reverse xs)
    → IsCString (st8 (exchange_loop (length xs / 2) 0 (length xs) arr) (length xs) 0) 0 (reverse xs)
reversed-IsCString arr xs h k =
    let array = st8 (exchange_loop (length xs / 2) 0 (length xs) arr) (length xs) 0 in
    let plain : (i : ℕ) → 0 + i ≡ i = λ i. omega arith in
    cells-IsCString array 0 (reverse xs)
      (λ i l. ap array (plain i) ∙ reversed_cell arr xs i h (omega (arith, l, length-reverse xs))) k
      (ap array (plain (length (reverse xs)) ∙ length-reverse xs)
        ∙ st8_self (exchange_loop (length xs / 2) 0 (length xs) arr) (length xs) 0)

All-digits-ne :
    (base : ℕ) (ds : List ℕ) → base ≤ 16 → All (λ d. d < base) ds → All (λ x. x ≢ 0) (map digits ds)
All-digits-ne base [] h k = tt
All-digits-ne base (d ∷ ds) h k = (digits-ne d (omega (arith, k.0)), All-digits-ne base ds h k.1)

stored_text-ne :
    (base s : ℕ) (ds : List ℕ)
    → base ≤ 16
    → All (λ d. d < base) ds
    → All (λ x. x ≢ 0) (stored_text s ds)
stored_text-ne base zero [] h k = (omega arith, tt)
stored_text-ne base zero (d ∷ ds) h k = All-digits-ne base (d ∷ ds) h k
stored_text-ne base (suc s) ds h k =
    All-append (λ x. x ≢ 0) (map digits ds) (b'-' ∷ []) (All-digits-ne base ds h k)
      (omega arith, tt)

digits-Cells :
    (arr : Memory) (ds : List ℕ)
    → ((i : ℕ) → i < length ds → arr (0 + i) ≡ digits (get_or ds i 0))
    → Cells arr (map digits ds)
digits-Cells arr ds h i k =
    let plain : i ≡ 0 + i = omega arith in
    let l : i < length ds = omega (arith, k, length-map digits ds) in
    ap arr plain ∙ h i l ∙ sym (get_or-map digits ds i 0 0 l)

pub finish_plain :
    (arr : Memory) (p : ℕ)
    → finish_number 0 (arr, suc p) ≡ st8 (exchange_loop (suc p / 2) 0 (suc p) arr) (suc p) 0
unfolding finish_number
finish_plain arr p = ground arith

pub finish_minus :
    (arr : Memory) (s p : ℕ)
    → finish_number (suc s) (arr, p)
      ≡ st8 (exchange_loop (suc p / 2) 0 (suc p) (st8 arr p b'-')) (suc p) 0
unfolding finish_number
finish_minus arr s p = ground arith

pub numeral-ne :
    (base s : ℕ) (ds : List ℕ)
    → base ≤ 16
    → All (λ d. d < base) ds
    → All (λ x. x ≢ 0) (numeral s ds)
numeral-ne base s ds b h =
    All-reverse_aux (λ x. x ≢ 0) (stored_text s ds) [] (stored_text-ne base s ds b h) tt

module _ (base : ℕ) (arr : Memory) where
  pub finish_number-IsCString :
      (s : ℕ) (ds : List ℕ)
      → base ≤ 16
      → All (λ d. d < base) ds
      → ((i : ℕ) → i < length ds → arr (0 + i) ≡ digits (get_or ds i 0))
      → IsCString (finish_number s (arr, length ds)) 0 (numeral s ds)
  unfolding finish_number
  finish_number-IsCString zero [] b h k =
      reversed-IsCString (st8 arr 0 b'0') (b'0' ∷ [])
        (Cells-append arr [] b'0' (λ i l. absurd (omega arith))) (omega arith, tt)
  finish_number-IsCString zero (d ∷ ds) b h k =
      let n = length-map digits (d ∷ ds) in
      let turned =
        reversed-IsCString arr (map digits (d ∷ ds)) (digits-Cells arr (d ∷ ds) k)
          (numeral-ne base 0 (d ∷ ds) b h) in
      rw (finish_plain arr (length ds)) (
        subst (λ n. IsCString (st8 (exchange_loop (n / 2) 0 n arr) n 0) 0 (numeral 0 (d ∷ ds))) n
          turned)
  finish_number-IsCString (suc s) ds b h k =
      let text = map digits ds in
      let n : length (text ++ b'-' ∷ []) ≡ suc (length ds) =
        omega (arith, length-append text (b'-' ∷ []), length-map digits ds) in
      let cells =
        subst (λ n. Cells (st8 arr n b'-') (text ++ b'-' ∷ [])) (length-map digits ds)
          (Cells-append arr text b'-' (digits-Cells arr ds k)) in
      let turned =
        reversed-IsCString (st8 arr (length ds) b'-') (text ++ b'-' ∷ []) cells
          (numeral-ne base (suc s) ds b h) in
      rw (finish_minus arr s (length ds)) (
        subst
          (λ n.
            IsCString (st8 (exchange_loop (n / 2) 0 n (st8 arr (length ds) b'-')) n 0) 0
              (numeral (suc s) ds))
          n turned)
