-- ===== src/CString/Copy.antt =====
-- strcpy and strcat, for a source that the destination does not overlap.
use qboot.Base.{
  All, ℕ, zero, suc, ◌+◌, ◌≤◌, ◌<◌, ◌≡◌, ◌⊎◌, refl, subst, ◌∙◌, some, List, [], ◌∷◌, ◌++◌, arith,
  length, inl,
}
use qboot.Memory.{Memory, st8}
use qboot.Memory.Frame.{Outside, st8_self, st8-ne}
use qboot.CString.{copy_loop, strcat, strcpy}
use qboot.CString.Terminated.{IsCString, IsCString-agree, find_end-length}

-- The regions `[p, p + n)` and `[q, q + k)` do not meet.
abbrev pub Apart : ℕ → ℕ → ℕ → ℕ → Type 0
Apart p n q k = (p + n ≤ q) ⊎ (q + k ≤ p)

-- The regions `(p, n)` of a list do not meet.
abbrev pub AllApart : List (ℕ × ℕ) → Type 0
AllApart [] = Unit {0}
AllApart (r ∷ rs) = All (λ q. Apart r.0 r.1 q.0 q.1) rs × AllApart rs

-- `g` is `m` but for the `n` addresses from `p`.
abbrev pub SameOutside : ℕ → ℕ → Memory → Memory → Type 0
SameOutside p n m g = (a : ℕ) → Outside p n a → g a ≡ m a

copy_loop-IsCString :
    (m : Memory) (f p src : ℕ) (xs : List ℕ)
    → IsCString m src xs
    → Apart p (suc (length xs)) src (suc (length xs))
    → length xs < f
    → (g : Memory) × (copy_loop f m p src ≡ some g)
      × IsCString g p xs
      × SameOutside p (suc (length xs)) m g
unfolding copy_loop
copy_loop-IsCString m zero p src xs s o h = absurd (omega arith)
copy_loop-IsCString m (suc f) p src [] s o h = (
  st8 m p (m src),
  ground arith,
  st8_self m p (m src) ∙ s,
  λ a i. st8-ne m p (m src) a (ground arith),
)
copy_loop-IsCString m (suc f) p src (x ∷ xs) s o h =
    let m' = st8 m p (m src) in
    let kept =
      IsCString-agree m m' (suc src) xs s.2 (λ a k l. st8-ne m p (m src) a (ground arith)) in
    let (g, runs, is, same) =
      copy_loop-IsCString m' f (suc p) (suc src) xs kept (ground arith) (omega arith) in
    (
      g,
      ground arith,
      (same p (inl (omega arith)) ∙ st8_self m p (m src) ∙ s.0, s.1, is),
      λ a i. same a (ground arith) ∙ st8-ne m p (m src) a (ground arith),
    )

-- A string that loses its NUL goes on with the string that follows.
IsCString-append :
    (m g : Memory) (p q : ℕ) (ds xs : List ℕ)
    → IsCString m p ds
    → p + length ds ≡ q
    → ((a : ℕ) → p ≤ a → a < q → g a ≡ m a)
    → IsCString g q xs
    → IsCString g p (ds ++ xs)
IsCString-append m g p q [] xs s e same t =
    let here : q ≡ p = omega arith in subst (λ r. IsCString g r xs) here t
IsCString-append m g p q (d ∷ ds) xs s e same t = (
  same p (omega arith) (omega arith) ∙ s.0,
  s.1,
  IsCString-append m g (suc p) q ds xs s.2 (omega arith) (λ a k l. same a (omega arith) l) t,
)

-- `strcat` leaves the concatenation of the two strings at `dest`, with its NUL, and writes only
-- from the NUL of the first string to the NUL of the result.
pub strcat-append :
    (m : Memory) (f dest src : ℕ) (ds xs : List ℕ)
    → IsCString m dest ds
    → IsCString m src xs
    → Apart (dest + length ds) (suc (length xs)) src (suc (length xs))
    → length ds < f
    → length xs < f
    → (g : Memory) × (strcat f m dest src ≡ some g)
      × IsCString g dest (ds ++ xs)
      × SameOutside (dest + length ds) (suc (length xs)) m g
unfolding strcat
strcat-append m f dest src ds xs s t o h k =
    let (g, runs, is, same) = copy_loop-IsCString m f (dest + length ds) src xs t o k in
    (
      g,
      ground (arith, find_end-length m f dest ds s),
      IsCString-append m g dest (dest + length ds) ds xs s refl (λ a i j. same a (inl j)) is,
      same,
    )

-- Where the regions of source and destination do not meet, `strcpy` leaves the source string at `dest`,
-- and writes only the string and its NUL. Fuel above the length is enough.
pub strcpy-IsCString :
    (m : Memory) (f dest src : ℕ) (xs : List ℕ)
    → IsCString m src xs
    → Apart dest (suc (length xs)) src (suc (length xs))
    → length xs < f
    → (g : Memory) × (strcpy f m dest src ≡ some g)
      × IsCString g dest xs
      × SameOutside dest (suc (length xs)) m g
unfolding strcpy
strcpy-IsCString m f dest src xs s o h =
    let m' = st8 m dest 0 in
    let kept = IsCString-agree m m' src xs s (λ a k l. st8-ne m dest 0 a (ground arith)) in
    let (g, runs, is, same) =
      strcat-append m' f dest src [] xs (st8_self m dest 0) kept (ground arith) (omega arith) h in
    (g, runs, is, λ a i. same a (ground arith) ∙ st8-ne m dest 0 a (ground arith))
