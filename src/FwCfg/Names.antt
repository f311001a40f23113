-- ===== src/FwCfg/Names.antt =====
-- Looking up a file of the directory by its name.
use qboot.CString.{is_zero}
use qboot.CString.Search.{is_zero-eq, first_or_later}
use qboot.Base.{
  refl, false, subst, Option, none, some, if◌then◌else◌, sym, ◌∙◌, ◌⊎◌, ℕ, zero, suc, ◌+◌, ◌<◌, ◌≤◌,
  ◌≡◌, ◌≢◌, ◌↔◌, arith, char_sub, pos, Bool-cases, inl, inr, ◌==◌, ◌⊎◌,
}
use qboot.Memory.{Memory, IsBytes}
use qboot.FwCfg.{Name, filenamecmp, filenamecmp_loop, file_id_loop, file_at}
use qboot.CString.Compare.{char_sub-eq-zero}

-- The names agree from `i` up to a NUL that is one of the next `n` bytes.
abbrev pub SameName : Name → Name → ℕ → ℕ → Type 0
SameName a b zero i = ⊥
SameName a b (suc n) i = (a i ≡ b i) × ((a i ≡ 0) ⊎ SameName a b n (suc i))

module _ (a b : Name) (n i : ℕ) where
  differs : a i ≢ b i → filenamecmp_loop a b (suc n) i ≡ char_sub (a i) (b i)
  unfolding filenamecmp_loop
  differs h = ground arith

  ends : a i ≡ b i → a i ≡ 0 → filenamecmp_loop a b (suc n) i ≡ pos 0
  unfolding filenamecmp_loop
  ends e z = ground arith

  goes_on :
      a i ≡ b i
      → a i ≢ 0
      → filenamecmp_loop a b (suc n) i
        ≡ (if n == 0 then char_sub (a i) 0 else filenamecmp_loop a b n (suc i))
  unfolding filenamecmp_loop
  goes_on e z = ground arith

moves_on :
    (a b : Name) (n i : ℕ)
    → a i ≡ b i
    → a i ≢ 0
    → filenamecmp_loop a b (suc (suc n)) i ≡ filenamecmp_loop a b (suc n) (suc i)
moves_on a b n i e z =
    let more : (suc n == 0) ≡ false = ground arith in goes_on a b (suc n) i e z ∙ rw more refl

-- Both sides agree at `i`, given that they do where the loop goes on.
round-SameName :
    (a b : Name) (n i : ℕ)
    → ((j : ℕ) → a j < 256)
    → ((j : ℕ) → b j < 256)
    → (a i ≡ b i → a i ≢ 0 → (filenamecmp_loop a b (suc n) i ≡ pos 0) ↔ SameName a b (suc n) i)
    → (filenamecmp_loop a b (suc n) i ≡ pos 0) ↔ SameName a b (suc n) i
round-SameName a b n i ha hb later = elim (Bool-cases (a i == b i)) [
  | inr ne ↦
      let apart : a i ≢ b i = ground arith in
      let zero_iff = char_sub-eq-zero (a i) (b i) (ha i) (hb i) in
      (
        (λ h. absurd (apart (zero_iff.0 (sym (differs a b n i apart) ∙ h)))),
        (λ h. absurd (apart h.0)),
      )
  | inl e ↦
      let same : a i ≡ b i = ground arith in
      elim (Bool-cases (a i == 0)) [
        | inl z ↦ ((λ h. (same, inl (ground arith))), (λ h. ends a b n i same (ground arith)))
        | inr nz ↦ later same (ground arith)
      ]
]

filenamecmp_loop-SameName :
    (a b : Name) (n i : ℕ)
    → ((j : ℕ) → a j < 256)
    → ((j : ℕ) → b j < 256)
    → (filenamecmp_loop a b (suc n) i ≡ pos 0) ↔ SameName a b (suc n) i
filenamecmp_loop-SameName a b zero i ha hb = round-SameName a b zero i ha hb λ same nz. (
  (λ h.
      absurd (
        nz
          ((char_sub-eq-zero (a i) 0 (ha i) (omega arith)).0 (sym (goes_on a b 0 i same nz) ∙ h)))),
  (λ h. elim (h.1) [ inl z ↦ absurd (nz z) | inr never ↦ absurd never ]),
)
filenamecmp_loop-SameName a b (suc n) i ha hb =
    let rest = filenamecmp_loop-SameName a b n (suc i) ha hb in
    round-SameName a b (suc n) i ha hb λ same nz. (
      (λ h. (same, inr (rest.0 (sym (moves_on a b n i same nz) ∙ h)))),
      (λ h.
          moves_on a b n i same nz
          ∙ rest.1 (elim (h.1) [ inl z ↦ absurd (nz z) | inr more ↦ more ])),
    )

-- On bytes, `filenamecmp` returns 0 exactly when the two names agree up to a NUL among their first
-- 56 bytes.
pub filenamecmp-SameName :
    (a : Name) (m : Memory) (f : ℕ)
    → ((j : ℕ) → a j < 256)
    → IsBytes m
    → (filenamecmp a m f ≡ pos 0) ↔ SameName a (λ i. m (f + 8 + i)) 56 0
unfolding filenamecmp
filenamecmp-SameName a m f ha hm =
    filenamecmp_loop-SameName a (λ i. m (f + 8 + i)) 55 0 ha (λ j. hm (f + 8 + j))

-- The entry `i` of the directory has this name.
abbrev pub IsNamed : Name → Memory → ℕ → ℕ → Type 0
IsNamed name m files i = filenamecmp name m (file_at files i) ≡ pos 0

-- What the search returns for `n` entries from `i` on: the first that has the name, or -1.
pub data Found (name : Name) (m : Memory) (files i n : ℕ) : Option ℕ → Type 0 where
  at :
      (k : ℕ)
      → i ≤ k
      → k < i + n
      → IsNamed name m files k
      → ((j : ℕ) → i ≤ j → j < k → ¬ IsNamed name m files j)
      → Found name m files i n (some k)
  nowhere : ((j : ℕ) → i ≤ j → j < i + n → ¬ IsNamed name m files j) → Found name m files i n none

Found-suc :
    {name : Name} {m : Memory} {files n : ℕ} {r : Option ℕ} (i : ℕ)
    → ¬ IsNamed name m files i
    → Found name m files (suc i) n r
    → Found name m files i (suc n) r
Found-suc {name} {m} {files} i h (at k low high named before) =
    at k (omega arith) (omega arith) named λ j x y. elim (first_or_later x) [
      | inl e ↦ subst (λ q. ¬ IsNamed name m files q) e h
      | inr later ↦ before j later y
    ]
Found-suc {name} {m} {files} i h (nowhere others) = nowhere λ j x y. elim (first_or_later x) [
  | inl e ↦ subst (λ q. ¬ IsNamed name m files q) e h
  | inr later ↦ others j later (omega arith)
]

-- The search of the directory returns the first entry with the name, and -1 only if there is none.
pub file_id_loop-Found :
    (name : Name) (m : Memory) (files n i : ℕ)
    → Found name m files i n (file_id_loop name m files n i)
unfolding file_id_loop
file_id_loop-Found name m files zero i = nowhere (λ j x y. absurd (omega arith))
file_id_loop-Found name m files (suc n) i =
    let test = is_zero-eq (filenamecmp name m (file_at files i)) in
    elim (Bool-cases (is_zero (filenamecmp name m (file_at files i)))) [
      | inl e ↦ rw e (at i (omega arith) (omega arith) (test.0 e) (λ j x y. absurd (omega arith)))
      | inr e ↦ rw e (Found-suc i (λ h. cc (test.1 h)) (file_id_loop-Found name m files n (suc i)))
    ]
