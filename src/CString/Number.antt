-- ===== src/CString/Number.antt =====
-- atol reads blanks, a sign and decimal digits.
use qboot.Base.{
  ℕ, zero, suc, ◌+◌, ◌*◌, ◌^◌, ◌<◌, ◌≡◌, ◌≢◌, ◌==◌, ◌||◌, if◌then◌else◌, subst, sym, Option, ◌⊎◌,
  some, List, [], ◌∷◌, arith, length, neg32, ◌≤◌,
}
use qboot.Memory.{Memory}
use qboot.CString.{atol, skip_blanks, digits_loop}

-- The number that decimal digits stand for, behind what has been read.
abbrev pub decimal : ℕ → List ℕ → ℕ
decimal acc [] = acc
decimal acc (d ∷ ds) = decimal (acc * 10 + d) ds

-- From `p` on stand the digits `ds`, and then a byte that is no digit.
abbrev pub HasDigits : Memory → ℕ → List ℕ → Type 0
HasDigits m p [] = (m p < b'0') ⊎ (b'9' < m p)
HasDigits m p (d ∷ ds) = (d < 10) × (m p ≡ b'0' + d) × HasDigits m (suc p) ds

-- From `p` to `q` stand `n` blanks or tabs, and at `q` stands neither.
abbrev pub HasBlanks : Memory → ℕ → ℕ → ℕ → Type 0
HasBlanks m p zero q = (p ≡ q) × (m q ≢ b' ') × (m q ≢ 9)
HasBlanks m p (suc n) q = ((m p ≡ b' ') ⊎ (m p ≡ 9)) × HasBlanks m (suc p) n q

-- What has been read is not more than the whole.
decimal-le : (acc : ℕ) (ds : List ℕ) → acc ≤ decimal acc ds
decimal-le acc [] = omega arith
decimal-le acc (d ∷ ds) = omega (arith, decimal-le (acc * 10 + d) ds)

digits_loop-decimal :
    (m : Memory) (f p acc : ℕ) (ds : List ℕ)
    → HasDigits m p ds
    → decimal acc ds < 2 ^ 31
    → length ds < f
    → digits_loop f m p acc ≡ some (decimal acc ds)
unfolding digits_loop
digits_loop-decimal m zero p acc ds s r h = absurd (omega arith)
digits_loop-decimal m (suc f) p acc [] s r h = ground arith
digits_loop-decimal m (suc f) p acc (d ∷ ds) s r h =
    ground
      (arith, digits_loop-decimal m f (suc p) (acc * 10 + d) ds s.2, decimal-le (acc * 10 + d) ds)

skip_blanks-end :
    (m : Memory) (f p n q : ℕ) → HasBlanks m p n q → n < f → skip_blanks f m p ≡ some q
unfolding skip_blanks
skip_blanks-end m zero p n q b h = absurd (omega arith)
skip_blanks-end m (suc f) p zero q b h = subst (λ x. blank x ≡ some q) (sym b.0) (ground arith)
  where
    blank : ℕ → Option ℕ
    blank x = if m x == b' ' || m x == 9 then skip_blanks f m (suc x) else some x
skip_blanks-end m (suc f) p (suc n) q b h = ground (arith, skip_blanks-end m f (suc p) n q b.1)

-- Behind blanks, `atol` reads decimal digits up to the first other byte, and returns the number that
-- they stand for, if a `long` holds it.
pub atol-decimal :
    (m : Memory) (f p n q : ℕ) (ds : List ℕ)
    → HasBlanks m p n q
    → HasDigits m q ds
    → m q ≢ b'-'
    → m q ≢ b'+'
    → decimal 0 ds < 2 ^ 31
    → n < f
    → length ds < f
    → atol f m p ≡ some (decimal 0 ds)
unfolding atol
atol-decimal m f p n q ds b d minus plus fits h k =
    ground (arith, skip_blanks-end m f p n q b, digits_loop-decimal m f q 0 ds d)

-- Behind blanks and a minus sign, `atol` returns the negated number of the digits, as 32 bits.
pub atol-minus :
    (m : Memory) (f p n q : ℕ) (ds : List ℕ)
    → HasBlanks m p n q
    → m q ≡ b'-'
    → HasDigits m (suc q) ds
    → decimal 0 ds < 2 ^ 31
    → n < f
    → length ds < f
    → atol f m p ≡ some (neg32 (decimal 0 ds))
unfolding atol
atol-minus m f p n q ds b minus d fits h k =
    ground (arith, skip_blanks-end m f p n q b, digits_loop-decimal m f (suc q) 0 ds d)
