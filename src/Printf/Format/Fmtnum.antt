-- ===== src/Printf/Format/Fmtnum.antt =====
-- fmtnum: the width in a format.
use qboot.Base.{
  ap₂, neg32, ◌==◌, false, ℕ, zero, suc, ◌+◌, ◌≤◌, ◌<◌, ◌≡◌, ◌∙◌, refl, List, [], ◌∷◌, length,
  arith, pos, neg, some,
}
use qboot.Memory.{Memory}
use qboot.CString.Number.{decimal, HasDigits, atol-decimal, atol-minus}
use qboot.Printf.Result.{returned}
use qboot.Printf.Format.{count_digits, fmtnum, signed}

pub HasDigits-agree :
    (m g : Memory) (p : ℕ) (ds : List ℕ)
    → HasDigits m p ds
    → ((a : ℕ) → p ≤ a → a < p + suc (length ds) → g a ≡ m a)
    → HasDigits g p ds
HasDigits-agree m g p [] h e = ground (arith, e p (omega arith) (omega arith))
HasDigits-agree m g p (d ∷ ds) h e = (
  h.0,
  e p (omega arith) (omega arith) ∙ h.1,
  HasDigits-agree m g (suc p) ds h.2 (λ a k l. e a (omega arith) (omega arith)),
)

count_digits-HasDigits :
    (m : Memory) (f p len : ℕ) (ds : List ℕ)
    → HasDigits m p ds
    → length ds < f
    → count_digits f m p len ≡ some (len + length ds)
unfolding count_digits
count_digits-HasDigits m zero p len ds h l = absurd (omega arith)
count_digits-HasDigits m (suc f) p len [] h l = ground arith
count_digits-HasDigits m (suc f) p len (d ∷ ds) h l =
    ground (arith, count_digits-HasDigits m f (suc p) (suc len) ds h.2)

signed_plain : (v : ℕ) → v < 0x80000000 → signed v ≡ pos v
signed_plain v h = ground arith

signed_minus : (v : ℕ) → 0 < v → v < 0x80000000 → signed (neg32 v) ≡ neg (pos v)
signed_minus zero z h = absurd (omega arith)
signed_minus (suc v) z h = ground arith

module _ (m : Memory) (f fmt : ℕ) where
  pub fmtnum_plain :
      (d : ℕ) (ds : List ℕ)
      → HasDigits m fmt (d ∷ ds)
      → decimal 0 (d ∷ ds) < 0x80000000
      → suc (length ds) < f
      → fmtnum f m fmt ≡ returned (pos (decimal 0 (d ∷ ds)), fmt + suc (length ds))
  unfolding fmtnum
  fmtnum_plain d ds h b l =
      let num =
        atol-decimal m f fmt 0 fmt (d ∷ ds) (refl, omega (arith, h.0, h.1), omega (arith, h.0, h.1))
          h (omega (arith, h.0, h.1)) (omega (arith, h.0, h.1)) b (omega arith) l in
      let len = count_digits-HasDigits m f fmt 0 (d ∷ ds) h l in
      let end : fmt + (0 + suc (length ds)) ≡ fmt + suc (length ds) = omega arith in
      let digit : m fmt == b'-' ≡ false = ground (arith, h.0, h.1) in
      rw (digit, len, num) (ap₂ (λ x y. returned (x, y)) (signed_plain (decimal 0 (d ∷ ds)) b) end)

  pub fmtnum_minus :
      (ds : List ℕ)
      → m fmt ≡ b'-'
      → HasDigits m (suc fmt) ds
      → 0 < decimal 0 ds
      → decimal 0 ds < 0x80000000
      → length ds < f
      → fmtnum f m fmt ≡ returned (neg (pos (decimal 0 ds)), fmt + suc (length ds))
  unfolding fmtnum
  fmtnum_minus ds e h z b l =
      let num =
        atol-minus m f fmt 0 fmt ds (refl, omega (arith, e), omega (arith, e)) e h b (omega arith)
          l in
      let len = count_digits-HasDigits m f (suc fmt) 1 ds h l in
      let end : fmt + (1 + length ds) ≡ fmt + suc (length ds) = omega arith in
      rw (e, len, num) (ap₂ (λ x y. returned (x, y)) (signed_minus (decimal 0 ds) z b) end)
