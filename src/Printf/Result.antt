-- ===== src/Printf/Result.antt =====
-- How a call of printf.c ends: it returns, or stops in `panic`, in undefined behaviour, or without
-- fuel.
use qboot.Base.{Option, none, some}

pub data Result (A : Type 0) : Type 0 where
  returned : A → Result A
  panics undefined unfinished : Result A

module _ {A B : Type 0} where
  infixl 5 ◌>>=◌
  abbrev pub ◌>>=◌ : Result A → (A → Result B) → Result B
  returned a >>= k = k a
  panics >>= k = panics
  undefined >>= k = undefined
  unfinished >>= k = unfinished

abbrev pub terminated : {A : Type 0} → Option A → Result A
terminated none = unfinished
terminated (some a) = returned a

-- The call returns, and the result satisfies `P`.
abbrev pub Yields : {A : Type 0} → (A → Type 0) → Result A → Type 0
Yields P (returned a) = P a
Yields P _ = ⊥
