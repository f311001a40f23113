-- ===== src/CString/Compare.antt =====
-- strcmp and memcmp: when the result is 0.
use qboot.Base.{
  ℕ, zero, suc, ◌<◌, ◌≡◌, ◌↔◌, refl, some, List, [], ◌∷◌, arith, length, ℤ, pos, char_sub,
  Bool-cases, ◌==◌, inl, inr,
}
use qboot.Memory.{Memory, IsBytes, bytes_at}
use qboot.CString.{strcmp, memcmp}
use qboot.CString.Terminated.{IsCString}

pub char_sub-eq-zero : (a b : ℕ) → a < 256 → b < 256 → (char_sub a b ≡ pos 0) ↔ (a ≡ b)
char_sub-eq-zero a b ha hb = ground arith

-- On two strings in a memory of bytes `strcmp` returns, and the result is 0 exactly when the
-- strings are equal.
pub strcmp-eq-zero_iff :
    (m : Memory) (f a b : ℕ) (xs ys : List ℕ)
    → IsBytes m
    → IsCString m a xs
    → IsCString m b ys
    → length xs < f
    → (r : ℤ) × (strcmp f m a b ≡ some r) × ((r ≡ pos 0) ↔ (xs ≡ ys))
unfolding strcmp
strcmp-eq-zero_iff m zero a b xs ys bytes s t h = absurd (omega arith)
strcmp-eq-zero_iff m (suc f) a b [] [] bytes s t h =
    (char_sub (m a) (m b), ground arith, ground arith)
strcmp-eq-zero_iff m (suc f) a b [] (y ∷ ys) bytes s t h =
    (char_sub (m a) (m b), ground arith, ground (arith, bytes b))
strcmp-eq-zero_iff m (suc f) a b (x ∷ xs) [] bytes s t h =
    (char_sub (m a) (m b), ground arith, ground (arith, bytes a))
strcmp-eq-zero_iff m (suc f) a b (x ∷ xs) (y ∷ ys) bytes s t h = elim (Bool-cases (m a == m b)) [
  | inl e ↦
      let (r, runs, is) =
        strcmp-eq-zero_iff m f (suc a) (suc b) xs ys bytes s.2 t.2 (omega arith) in
      (r, ground arith, ((λ z. ground (arith, is.0 z)), (λ z. is.1 (ground arith))))
  | inr ne ↦ (char_sub (m a) (m b), ground arith, ground (arith, bytes a, bytes b))
]

-- `memcmp` returns 0 exactly when the two regions hold the same bytes.
pub memcmp-eq-zero_iff :
    (m : Memory) (a b n : ℕ) → (memcmp m a b n ≡ pos 0) ↔ (bytes_at m a n ≡ bytes_at m b n)
unfolding memcmp
memcmp-eq-zero_iff m a b zero = ((λ _. refl), (λ _. refl))
memcmp-eq-zero_iff m a b (suc n) =
    let rest = memcmp-eq-zero_iff m (suc a) (suc b) n in
    ((λ z. ground (arith, rest.0)), (λ z. ground (arith, rest.1)))
