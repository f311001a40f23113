-- ===== src/Malloc/Blocks.antt =====
-- What the two allocators promise of a block, and of a series of blocks.
use qboot.Base.{ℕ, ◌+◌, ◌%◌, ◌^◌, ◌≤◌, ◌<◌, ◌≡◌, refl, ap, u32, arith, List, [], ◌∷◌, All}
use qboot.Machine.{Machine, Fw, ok, pure, ◌>>=◌}
use qboot.Malloc.{down, up, malloc_align, malloc_fseg_align}
use qboot.Malloc.Align.{down_lem, up_lem}

-- `[p, p + n)` was cut off from memory that ended at `top`: it is aligned, it lies below `top`,
-- and less than the alignment is lost.
pub record IsBlockBelow (top n align p : ℕ) : Type 0 where
  pub aligned : p % align ≡ 0
  pub below : p + n ≤ top
  pub tight : top < p + n + align

pub record IsBlockAbove (base n align p : ℕ) : Type 0 where
  pub aligned : p % align ≡ 0
  pub above : base ≤ p
  pub tight : p < base + align

abbrev pub with_top : Machine → ℕ → Machine
with_top s p = record s { globals = record s.globals { malloc_top = p } }

abbrev pub with_base : Machine → ℕ → Machine
with_base s p = record s { globals = record s.globals { fseg_base = p } }

-- `malloc_align` for a power of two and a size that fits below the top returns an aligned block
-- that ends at most `align - 1` bytes below the old top, which becomes the new top; it changes
-- nothing else.
pub malloc_align-IsBlockBelow :
    (k n : ℕ) (s : Machine)
    → k ≤ 32
    → n ≤ s.globals.malloc_top
    → s.globals.malloc_top < 2 ^ 32
    → (p : ℕ) × (malloc_align n (2 ^ k) s ≡ ok p (with_top s p))
      × IsBlockBelow s.globals.malloc_top n (2 ^ k) p
unfolding malloc_align
malloc_align-IsBlockBelow k n s h fits top = (
  down s.globals.malloc_top n (2 ^ k),
  refl,
  omega (arith, down_lem k s.globals.malloc_top n h fits top),
)

-- `malloc_fseg_align` for a power of two and a size that stays below 4 GB returns an aligned block
-- at most `align - 1` bytes above the old base; the new base is its end, and nothing else changes.
pub malloc_fseg_align-IsBlockAbove :
    (k n : ℕ) (s : Machine)
    → k ≤ 32
    → s.globals.fseg_base + 2 ^ k + n ≤ 2 ^ 32
    → (p : ℕ) × (malloc_fseg_align n (2 ^ k) s ≡ ok p (with_base s (p + n)))
      × IsBlockAbove s.globals.fseg_base n (2 ^ k) p
unfolding malloc_fseg_align
malloc_fseg_align-IsBlockAbove k n s h fits =
    let p = up s.globals.fseg_base (2 ^ k) in
    let block = up_lem k s.globals.fseg_base h (omega arith) in
    let short : u32 (p + n) ≡ p + n = omega arith in
    (p, ap (λ q. ok p (with_base s q)) short, omega (arith, block))

-- A series of requests: the size of each block and the exponent of its alignment.
pub malloc_all : List (ℕ × ℕ) → Fw (List ℕ)
malloc_all [] = pure []
malloc_all ((n, k) ∷ rest) = do p ← malloc_align n (2 ^ k); ps ← malloc_all rest; pure (p ∷ ps)

-- What a series takes at most.
abbrev pub demand : List (ℕ × ℕ) → ℕ
demand [] = 0
demand ((n, k) ∷ rest) = n + 2 ^ k + demand rest

abbrev pub Alignments : List (ℕ × ℕ) → Type 0
Alignments = All (λ r. r.1 ≤ 32)

-- The blocks lie below `top`, one below the other, each aligned as was asked.
abbrev pub Stacked : ℕ → List (ℕ × ℕ) → List ℕ → Type 0
Stacked top [] [] = Unit
Stacked top ((n, k) ∷ rs) (p ∷ ps) = IsBlockBelow top n (2 ^ k) p × Stacked p rs ps
Stacked top _ _ = ⊥

-- A series of requests that fits below the top is served in full: no block meets another one or
-- the memory above the old top, and each has the alignment that was asked for.
pub malloc_all-Stacked :
    (rs : List (ℕ × ℕ)) (s : Machine)
    → Alignments rs
    → demand rs ≤ s.globals.malloc_top
    → s.globals.malloc_top < 2 ^ 32
    → (ps : List ℕ) × (t : Machine) × (malloc_all rs s ≡ ok ps t)
      × Stacked s.globals.malloc_top rs ps
unfolding malloc_all
malloc_all-Stacked [] s al fits top = ([], s, refl, tt)
malloc_all-Stacked ((n, k) ∷ rs) s al fits top =
    let (p, runs, block) = malloc_align-IsBlockBelow k n s al.0 (omega arith) top in
    let (ps, t, runs', stacked) =
      malloc_all-Stacked rs (with_top s p) al.1 (omega (arith, block.tight))
        (omega (arith, block.below)) in
    (p ∷ ps, t, rw (runs, runs') refl, (block, stacked))
