-- ===== src/Base/Lists.antt =====
-- Lists measured and indexed by native numbers, under the library's names.
use Prim.Native.Nat.{ℕ, zero, suc, ◌+◌, ◌-◌, ◌<◌}
use mathlib.Core.Path.{◌≡◌, refl, ap, ◌∙◌}
use mathlib.Core.List.{map, List, [], ◌∷◌, ◌++◌, reverse, reverse_aux}
use mathlib.Core.Option.{Option, none, some}
use native.Mathlib.Omega.{arith}

module _ {ℓ} {A : Type ℓ} where
  abbrev pub length : List A → ℕ
  length [] = 0
  length (x ∷ xs) = suc (length xs)

  abbrev pub get_elem? : List A → ℕ → Option A
  get_elem? [] i = none
  get_elem? (x ∷ xs) zero = some x
  get_elem? (x ∷ xs) (suc i) = get_elem? xs i

  -- A write out of bounds changes nothing.
  abbrev pub set : List A → ℕ → A → List A
  set [] i v = []
  set (x ∷ xs) zero v = v ∷ xs
  set (x ∷ xs) (suc i) v = x ∷ set xs i v

  abbrev pub get_or : List A → ℕ → A → A
  get_or [] i d = d
  get_or (x ∷ xs) zero d = x
  get_or (x ∷ xs) (suc i) d = get_or xs i d

  abbrev pub replicate : ℕ → A → List A
  replicate zero a = []
  replicate (suc n) a = a ∷ replicate n a

  pub length-append : (xs ys : List A) → length (xs ++ ys) ≡ length xs + length ys
  length-append [] ys = omega arith
  length-append (x ∷ xs) ys = omega (arith, length-append xs ys)

  pub length-set : (xs : List A) (i : ℕ) (v : A) → length (set xs i v) ≡ length xs
  length-set [] i v = refl
  length-set (x ∷ xs) zero v = refl
  length-set (x ∷ xs) (suc i) v = ap suc (length-set xs i v)

  pub get_or-append_left :
      (xs ys : List A) (i : ℕ) (z : A) → i < length xs → get_or (xs ++ ys) i z ≡ get_or xs i z
  get_or-append_left [] ys i z h = absurd (omega arith)
  get_or-append_left (x ∷ xs) ys zero z h = refl
  get_or-append_left (x ∷ xs) ys (suc i) z h = get_or-append_left xs ys i z (omega arith)

  pub get_or-append_end : (xs : List A) (y z : A) → get_or (xs ++ y ∷ []) (length xs) z ≡ y
  get_or-append_end [] y z = refl
  get_or-append_end (x ∷ xs) y z = get_or-append_end xs y z

  length-reverse_aux : (xs r : List A) → length (reverse_aux xs r) ≡ length xs + length r
  length-reverse_aux [] r = omega arith
  length-reverse_aux (x ∷ xs) r = omega (arith, length-reverse_aux xs (x ∷ r))

  pub length-reverse : (xs : List A) → length (reverse xs) ≡ length xs
  length-reverse xs = omega (arith, length-reverse_aux xs [])

  get_or-reverse_aux_right :
      (xs r : List A) (i : ℕ) (z : A) → get_or (reverse_aux xs r) (length xs + i) z ≡ get_or r i z
  get_or-reverse_aux_right [] r i z =
      let here : 0 + i ≡ i = omega arith in ap (λ j. get_or r j z) here
  get_or-reverse_aux_right (x ∷ xs) r i z =
      let shift : suc (length xs) + i ≡ length xs + suc i = omega arith in
      ap (λ j. get_or (reverse_aux xs (x ∷ r)) j z) shift
      ∙ get_or-reverse_aux_right xs (x ∷ r) (suc i) z

  get_or-reverse_aux :
      (xs r : List A) (i : ℕ) (z : A)
      → i < length xs
      → get_or (reverse_aux xs r) (length xs - 1 - i) z ≡ get_or xs i z
  get_or-reverse_aux [] r i z h = absurd (omega arith)
  get_or-reverse_aux (x ∷ xs) r zero z h =
      let last : suc (length xs) - 1 - 0 ≡ length xs + 0 = omega arith in
      ap (λ j. get_or (reverse_aux xs (x ∷ r)) j z) last ∙ get_or-reverse_aux_right xs (x ∷ r) 0 z
  get_or-reverse_aux (x ∷ xs) r (suc i) z h =
      let before : suc (length xs) - 1 - suc i ≡ length xs - 1 - i = omega arith in
      ap (λ j. get_or (reverse_aux xs (x ∷ r)) j z) before
      ∙ get_or-reverse_aux xs (x ∷ r) i z (omega arith)

  pub get_or-reverse :
      (xs : List A) (i : ℕ) (z : A)
      → i < length xs
      → get_or (reverse xs) (length xs - 1 - i) z ≡ get_or xs i z
  get_or-reverse xs i z h = get_or-reverse_aux xs [] i z h

-- Every element satisfies the predicate.
abbrev pub All {ℓ κ} : {A : Type ℓ} → (A → Type κ) → List A → Type κ
All P [] = Unit
All P (x ∷ xs) = P x × All P xs

module _ {ℓ κ} {A : Type ℓ} (P : A → Type κ) where
  pub All-append : (xs ys : List A) → All P xs → All P ys → All P (xs ++ ys)
  All-append [] ys h k = k
  All-append (x ∷ xs) ys h k = (h.0, All-append xs ys h.1 k)

  pub All-reverse_aux : (xs r : List A) → All P xs → All P r → All P (reverse_aux xs r)
  All-reverse_aux [] r h k = k
  All-reverse_aux (x ∷ xs) r h k = All-reverse_aux xs (x ∷ r) h.1 (h.0, k)

  pub get_or-All : (xs : List A) (i : ℕ) (z : A) → All P xs → i < length xs → P (get_or xs i z)
  get_or-All [] i z h k = absurd (omega arith)
  get_or-All (x ∷ xs) zero z h k = h.0
  get_or-All (x ∷ xs) (suc i) z h k = get_or-All xs i z h.1 (omega arith)

module _ {ℓ κ} {A : Type ℓ} {B : Type κ} (f : A → B) where
  pub length-map : (xs : List A) → length (map f xs) ≡ length xs
  length-map [] = refl
  length-map (x ∷ xs) = ap suc (length-map xs)

  pub get_or-map :
      (xs : List A) (i : ℕ) (y : B) (z : A)
      → i < length xs
      → get_or (map f xs) i y ≡ f (get_or xs i z)
  get_or-map [] i y z h = absurd (omega arith)
  get_or-map (x ∷ xs) zero y z h = refl
  get_or-map (x ∷ xs) (suc i) y z h = get_or-map xs i y z (omega arith)
