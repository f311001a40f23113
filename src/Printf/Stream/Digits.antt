-- ===== src/Printf/Stream/Digits.antt =====
-- The digits of a number, and how print_int and print_unsigned lay them out.
use native.Mathlib.Nat.{mod-add-div, pow-suc, pow-zero, mod-lt, div-lt_iff_lt-mul}
use qboot.Base.{
  if◌then◌else◌, ap, Bool-cases, inl, inr, ℕ, zero, suc, ◌+◌, ◌*◌, ◌/◌, ◌%◌, ◌≤◌, ◌<◌, ◌≡◌, ◌^◌,
  refl, sym, subst, ◌∙◌, List, [], ◌∷◌, length, get_or, arith, some, All, ◌==◌,
}
use qboot.Memory.{Memory, st8}
use qboot.Memory.Frame.{Outside, st8_self, st8-ne}
use qboot.Printf.Stream.{digits, digit_loop}

-- The number with the digits `ds`, the lowest first.
abbrev pub value : ℕ → List ℕ → ℕ
value base [] = 0
value base (d ∷ ds) = d + base * value base ds

-- The digits of `n`, the lowest first, at most `k`.
abbrev pub digits_of : ℕ → ℕ → ℕ → List ℕ
digits_of zero base n = []
digits_of (suc k) base n = if n == 0 then [] else n % base ∷ digits_of k base (n / base)

-- The array has the digits `ds` of `n` from `p` on, and is `buf` elsewhere.
pub record Stored (base n : ℕ) (buf : Memory) (p k : ℕ) (ds : List ℕ) (arr : Memory) : Type 0 where
  pub is : value base ds ≡ n
  pub small : All (λ d. d < base) ds
  pub short : length ds ≤ k
  pub cells : (i : ℕ) → i < length ds → arr (p + i) ≡ digits (get_or ds i 0)
  pub outside : (a : ℕ) → Outside p (length ds) a → arr a ≡ buf a

Stored-nothing : (base n : ℕ) (buf : Memory) (p k : ℕ) → n ≡ 0 → Stored base n buf p k [] buf
Stored-nothing base n buf p k z = record {
  is = sym z;
  small = tt;
  short = omega arith;
  cells = λ i h. absurd (omega arith);
  outside = λ a o. refl;
}

cells-next :
    (base q n p k : ℕ) (buf : Memory) (ds : List ℕ) (arr : Memory)
    → Stored base q (st8 buf p (digits (n % base))) (suc p) k ds arr
    → (i : ℕ) → i < suc (length ds)
    → arr (p + i) ≡ digits (get_or (n % base ∷ ds) i 0)
cells-next base q n p k buf ds arr s zero h =
    let here : p + 0 ≡ p = omega arith in
    ap arr here ∙ s.outside p (inl (omega arith)) ∙ st8_self buf p (digits (n % base))
cells-next base q n p k buf ds arr s (suc i) h =
    let shift : p + suc i ≡ suc p + i = omega arith in ap arr shift ∙ s.cells i (omega arith)

Stored-next :
    (base n : ℕ) (buf : Memory) (p k : ℕ) (ds : List ℕ) (arr : Memory)
    → 1 < base
    → Stored base (n / base) (st8 buf p (digits (n % base))) (suc p) k ds arr
    → Stored base n buf p (suc k) (n % base ∷ ds) arr
Stored-next base n buf p k ds arr b s = record {
  is = ap (λ q. n % base + base * q) s.is ∙ mod-add-div n base;
  small = (mod-lt n (omega arith), s.small);
  short = omega (arith, s.short);
  cells = cells-next base (n / base) n p k buf ds arr s;
  outside = λ a o. s.outside a (ground arith) ∙ st8-ne buf p (digits (n % base)) a (ground arith);
}

quotient-bound : (base n k : ℕ) → 1 < base → n < base ^ suc k → n / base < base ^ k
quotient-bound base n k b h =
    (div-lt_iff_lt-mul (omega arith)).1 (subst (λ q. n < q) (pow-suc base k) h)

pub digit_loop-Stored :
    (f base n k : ℕ) (buf : Memory) (p : ℕ)
    → 1 < base
    → n < base ^ k
    → k < f
    → (ds : List ℕ) × (arr : Memory) × (digit_loop f base n buf p ≡ some (arr, p + length ds))
      × Stored base n buf p k ds arr
      × (ds ≡ digits_of k base n)
unfolding digit_loop
digit_loop-Stored zero base n k buf p b h e = absurd (omega arith)
digit_loop-Stored (suc f) base n zero buf p b h e =
    let one : n < 1 = subst (λ q. n < q) (pow-zero base) h in
    ([], buf, ground arith, Stored-nothing base n buf p 0 (omega arith), refl)
digit_loop-Stored (suc f) base n (suc k) buf p b h e = elim (Bool-cases (n == 0)) [
  | inl z ↦
      ([], buf, ground arith, Stored-nothing base n buf p (suc k) (ground arith), ground arith)
  | inr ne ↦
      let (ds, arr, runs, s, eq) =
        digit_loop-Stored f base (n / base) k (st8 buf p (digits (n % base))) (suc p) b
          (quotient-bound base n k b h) (omega arith) in
      let shift : suc p + length ds ≡ p + suc (length ds) = omega arith in
      (
        n % base ∷ ds,
        arr,
        rw ne (runs ∙ ap (λ q. some (arr, q)) shift),
        Stored-next base n buf p k ds arr b s,
        rw ne (ap (λ xs. n % base ∷ xs) eq),
      )
]
