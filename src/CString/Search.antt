-- ===== src/CString/Search.antt =====
-- memchr, strchr and strstr: the place that is searched for.
use qboot.Base.{
  ℕ, zero, suc, ◌+◌, ◌≤◌, ◌<◌, ◌≡◌, ◌⊎◌, inl, inr, some, List, [], ◌∷◌, arith, length, u8, ◌-◌, ◌↔◌,
  refl, subst, true, ℤ, negsuc, if◌then◌else◌, Bool-cases, ◌==◌, pos, leb,
}
use qboot.Memory.{Memory, bytes_at}
use qboot.CString.{memchr, strchr, strstr, strstr_loop, memcmp, is_zero}
use qboot.CString.Terminated.{IsCString, strlen-length}
use qboot.CString.Compare.{memcmp-eq-zero_iff}

-- `r` is the first of the `n` places from `s` at which `P` holds, or NULL if there is none.
pub data IsFirst (P : ℕ → Type 0) (s n r : ℕ) : Type 0 where
  found : s ≤ r → r < s + n → P r → ((a : ℕ) → s ≤ a → a < r → ¬ P a) → IsFirst P s n r
  missing : r ≡ 0 → ((a : ℕ) → s ≤ a → a < s + n → ¬ P a) → IsFirst P s n r

IsFirst-here : {P : ℕ → Type 0} (s n : ℕ) → P s → IsFirst P s (suc n) s
IsFirst-here s n h = found (omega arith) (omega arith) h (λ a k l. absurd (omega arith))

-- A place is the first one of a range, or lies in the rest of it.
pub first_or_later : {a s : ℕ} → s ≤ a → (s ≡ a) ⊎ (suc s ≤ a)
first_or_later h = ground arith

IsFirst-suc :
    {P : ℕ → Type 0} {n r : ℕ} (s : ℕ) → ¬ P s → IsFirst P (suc s) n r → IsFirst P s (suc n) r
IsFirst-suc {P} s h (found k l p before) = found (omega arith) (omega arith) p λ a i j.
    elim (first_or_later i) [ inl e ↦ subst (λ x. ¬ P x) e h | inr later ↦ before a later j ]
IsFirst-suc {P} s h (missing e none_there) = missing e λ a i j. elim (first_or_later i) [
  | inl here ↦ subst (λ x. ¬ P x) here h
  | inr later ↦ none_there a later (omega arith)
]

IsFirst-empty : {P : ℕ → Type 0} (s : ℕ) {n : ℕ} → n ≡ 0 → IsFirst P s n 0
IsFirst-empty s e = missing refl (λ a k l. absurd (omega arith))

-- `memchr` returns the first of the `n` bytes that is `c`, or NULL.
pub memchr-IsFirst : (m : Memory) (s c n : ℕ) → IsFirst (λ a. m a ≡ u8 c) s n (memchr m s c n)
unfolding memchr
memchr-IsFirst m s c zero = IsFirst-empty s refl
memchr-IsFirst m s c (suc n) = elim (Bool-cases (m s == u8 c)) [
  | inl e ↦ rw e (IsFirst-here s n (ground arith))
  | inr e ↦ rw e (IsFirst-suc s (ground arith) (memchr-IsFirst m (suc s) c n))
]

-- On a string `strchr` returns, with the first byte that is `c`, the terminating NUL counted, or
-- NULL.
pub strchr-IsFirst :
    (m : Memory) (f s c : ℕ) (xs : List ℕ)
    → IsCString m s xs
    → length xs < f
    → (r : ℕ) × (strchr f m s c ≡ some r) × IsFirst (λ a. m a ≡ u8 c) s (suc (length xs)) r
unfolding strchr
strchr-IsFirst m zero s c xs t h = absurd (omega arith)
strchr-IsFirst m (suc f) s c xs t h = elim (Bool-cases (m s == u8 c)) [
  | inl e ↦ (s, rw e refl, IsFirst-here s (length xs) (ground arith))
  | inr e ↦ rw e (later xs t h (ground arith) (λ ys. strchr-IsFirst m f (suc s) c ys))
]
  where
    later :
        (xs : List ℕ)
        → IsCString m s xs
        → length xs < suc f
        → ¬ (m s ≡ u8 c)
        → ((ys : List ℕ)
            → IsCString m (suc s) ys
            → length ys < f
            → (r : ℕ) × (strchr f m (suc s) c ≡ some r)
              × IsFirst (λ a. m a ≡ u8 c) (suc s) (suc (length ys)) r)
        → (r : ℕ) × ((if m s == 0 then some 0 else strchr f m (suc s) c) ≡ some r)
          × IsFirst (λ a. m a ≡ u8 c) s (suc (length xs)) r
    later [] t h ne ih = (0, ground arith, IsFirst-suc s ne (IsFirst-empty (suc s) refl))
    later (x ∷ xs) t h ne ih =
        let (r, runs, first) = ih xs t.2 (omega arith) in (r, ground arith, IsFirst-suc s ne first)

-- The places at which the `n` bytes of `s2` stand.
abbrev pub Occurs : Memory → ℕ → ℕ → ℕ → Type 0
Occurs m s2 n a = bytes_at m a n ≡ bytes_at m s2 n

pub is_zero-eq : (r : ℤ) → (is_zero r ≡ true) ↔ (r ≡ pos 0)
is_zero-eq (pos zero) = ((λ _. refl), (λ _. refl))
is_zero-eq (pos (suc n)) = ((λ h. cc), (λ h. cc))
is_zero-eq (negsuc n) = ((λ h. cc), (λ h. cc))

memcmp-Occurs : (m : Memory) (a s2 n : ℕ) → (is_zero (memcmp m a s2 n) ≡ true) ↔ Occurs m s2 n a
memcmp-Occurs m a s2 n =
    let z = is_zero-eq (memcmp m a s2 n) in
    let e = memcmp-eq-zero_iff m a s2 n in ((λ h. e.0 (z.0 h)), (λ h. z.1 (e.1 h)))

strstr_loop-IsFirst :
    (m : Memory) (s1 s2 l1 l2 : ℕ)
    → 0 < l2
    → IsFirst (Occurs m s2 l2) s1 (suc l1 - l2) (strstr_loop m s1 s2 l1 l2)
unfolding strstr_loop
strstr_loop-IsFirst m s1 s2 zero l2 h = IsFirst-empty s1 (omega arith)
strstr_loop-IsFirst m s1 s2 (suc l1) l2 h = elim (Bool-cases (leb l2 (suc l1))) [
  | inr short ↦ rw short (IsFirst-empty s1 (ground arith))
  | inl fits ↦
      let room : suc (suc l1) - l2 ≡ suc (suc l1 - l2) = ground arith in
      rw (fits, room)
        (elim (Bool-cases (is_zero (memcmp m s1 s2 l2))) [
          | inl e ↦ rw e (IsFirst-here s1 (suc l1 - l2) ((memcmp-Occurs m s1 s2 l2).0 e))
          | inr e ↦ rw e (
              IsFirst-suc s1 (λ o. cc ((memcmp-Occurs m s1 s2 l2).1 o))
                (strstr_loop-IsFirst m (suc s1) s2 l1 l2 h))
        ])
]

-- On two strings `strstr` returns: `s1` for an empty second string, or else the first place of the
-- first string at which the bytes of the second stand, or NULL.
pub strstr-IsFirst :
    (m : Memory) (f s1 s2 : ℕ) (xs ys : List ℕ)
    → IsCString m s1 xs
    → IsCString m s2 ys
    → length xs < f
    → length ys < f
    → (r : ℕ) × (strstr f m s1 s2 ≡ some r)
      × IsFirst (Occurs m s2 (length ys)) s1 (suc (length xs) - length ys) r
unfolding strstr
strstr-IsFirst m f s1 s2 xs [] s t h k =
    let room : suc (length xs) - 0 ≡ suc (length xs) = omega arith in
    (s1, ground (arith, strlen-length m f s2 [] t), rw room (IsFirst-here s1 (length xs) refl))
strstr-IsFirst m f s1 s2 xs (y ∷ ys) s t h k = (
  strstr_loop m s1 s2 (length xs) (suc (length ys)),
  ground (arith, strlen-length m f s2 (y ∷ ys) t, strlen-length m f s1 xs s),
  strstr_loop-IsFirst m s1 s2 (length xs) (suc (length ys)) (omega arith),
)
