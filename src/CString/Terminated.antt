-- ===== src/CString/Terminated.antt =====
-- NUL-terminated strings in memory, and strlen.
use qboot.Base.{ℕ, zero, suc, ◌+◌, ◌≤◌, ◌<◌, ◌≡◌, ◌≢◌, ap, ◌∙◌, some, List, [], ◌∷◌, arith, length}
use qboot.Memory.{Memory}
use qboot.CString.{find_end, strlen, strlen_loop}

-- The string at `a` is `xs`: its bytes in order, none of them NUL, and a NUL behind them.
abbrev pub IsCString : Memory → ℕ → List ℕ → Type 0
IsCString m a [] = m a ≡ 0
IsCString m a (x ∷ xs) = (m a ≡ x) × (x ≢ 0) × IsCString m (suc a) xs

strlen_loop-length :
    (m : Memory) (f buf len : ℕ) (xs : List ℕ)
    → IsCString m buf xs
    → length xs < f
    → strlen_loop f m buf len ≡ some (len + length xs)
unfolding strlen_loop
strlen_loop-length m zero buf len xs s h = absurd (omega arith)
strlen_loop-length m (suc f) buf len [] s h = ground arith
strlen_loop-length m (suc f) buf len (x ∷ xs) s h =
    ground (arith, strlen_loop-length m f (suc buf) (suc len) xs s.2)

-- With fuel for its bytes and the NUL, `strlen` returns the length of the string.
pub strlen-length :
    (m : Memory) (f buf : ℕ) (xs : List ℕ)
    → IsCString m buf xs
    → length xs < f
    → strlen f m buf ≡ some (length xs)
unfolding strlen
strlen-length m f buf xs s h = strlen_loop-length m f buf 0 xs s h ∙ ap some (omega arith)

pub find_end-length :
    (m : Memory) (f p : ℕ) (xs : List ℕ)
    → IsCString m p xs
    → length xs < f
    → find_end f m p ≡ some (p + length xs)
unfolding find_end
find_end-length m zero p xs s h = absurd (omega arith)
find_end-length m (suc f) p [] s h = ground arith
find_end-length m (suc f) p (x ∷ xs) s h = ground (arith, find_end-length m f (suc p) xs s.2)

-- A string only depends on its own cells.
pub IsCString-agree :
    (m g : Memory) (p : ℕ) (xs : List ℕ)
    → IsCString m p xs
    → ((a : ℕ) → p ≤ a → a < p + suc (length xs) → g a ≡ m a)
    → IsCString g p xs
IsCString-agree m g p [] s h = h p (omega arith) (omega arith) ∙ s
IsCString-agree m g p (x ∷ xs) s h = (
  h p (omega arith) (omega arith) ∙ s.0,
  s.1,
  IsCString-agree m g (suc p) xs s.2 (λ a k l. h a (omega arith) (omega arith)),
)
