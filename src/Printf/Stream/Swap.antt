-- ===== src/Printf/Stream/Swap.antt =====
-- The loop of print_int and print_unsigned that turns the digits round.
use qboot.Base.{
  ap, ltb, Bool-cases, ==_iff, ◌==◌, subst, ℕ, zero, suc, ◌+◌, ◌-◌, ◌*◌, ◌/◌, ◌≤◌, ◌<◌, ◌≡◌, refl,
  ◌∙◌, ◌≢◌, arith, inl, inr, ◌⊎◌, ◌≢◌,
}
use qboot.Memory.{Memory, st8}
use qboot.Memory.Frame.{st8_self}
use qboot.Printf.Stream.{exchange_loop}

-- The exchange of the cells `i` and `p - 1 - i`.
swapped : ℕ → ℕ → Memory → Memory
swapped i p buf = st8 (st8 buf i (buf (p - 1 - i))) (p - 1 - i) (buf i)

swapped_low : (i p : ℕ) (buf : Memory) → 2 * i + 2 ≤ p → swapped i p buf i ≡ buf (p - 1 - i)
unfolding swapped st8
swapped_low i p buf h = ground arith

swapped_high : (i p : ℕ) (buf : Memory) → swapped i p buf (p - 1 - i) ≡ buf i
unfolding swapped
swapped_high i p buf = st8_self (st8 buf i (buf (p - 1 - i))) (p - 1 - i) (buf i)

swapped-ne : (i p : ℕ) (buf : Memory) (j : ℕ) → i ≢ j → p - 1 - i ≢ j → swapped i p buf j ≡ buf j
unfolding swapped st8
swapped-ne i p buf j h k = ground arith

-- Cells that no round exchanges.
exchange_loop-kept :
    (n i p : ℕ) (buf : Memory) (j : ℕ)
    → 2 * (i + n) ≤ p
    → (j < i) ⊎ (p - i ≤ j) ⊎ ((i + n ≤ j) × (j < p - i - n))
    → exchange_loop n i p buf j ≡ buf j
unfolding exchange_loop swapped
exchange_loop-kept zero i p buf j h o = refl
exchange_loop-kept (suc n) i p buf j h o =
    exchange_loop-kept n (suc i) p (swapped i p buf) j (omega arith) (ground arith)
    ∙ swapped-ne i p buf j (ground arith) (ground arith)

exchange_loop_first :
    (n i p : ℕ) (buf : Memory)
    → 2 * (i + suc n) ≤ p
    → (exchange_loop (suc n) i p buf i ≡ buf (p - 1 - i))
      × (exchange_loop (suc n) i p buf (p - 1 - i) ≡ buf i)
unfolding exchange_loop swapped
exchange_loop_first n i p buf h = (
  exchange_loop-kept n (suc i) p (swapped i p buf) i (omega arith) (ground arith)
      ∙ swapped_low i p buf (omega arith),
  exchange_loop-kept n (suc i) p (swapped i p buf) (p - 1 - i) (omega arith) (ground arith)
      ∙ swapped_high i p buf,
)

exchange_loop_lem :
    (n i p : ℕ) (buf : Memory) (j : ℕ)
    → 2 * (i + n) ≤ p
    → i ≤ j
    → j < i + n
    → (exchange_loop n i p buf j ≡ buf (p - 1 - j)) × (exchange_loop n i p buf (p - 1 - j) ≡ buf j)
unfolding exchange_loop swapped
exchange_loop_lem zero i p buf j h l k = absurd (omega arith)
exchange_loop_lem (suc n) i p buf j h l k = elim (Bool-cases (i == j)) [
  | inl e ↦ subst (λ x. swaps x) ((==_iff i j).0 e) (exchange_loop_first n i p buf h)
  | inr ne ↦
      let rest =
        exchange_loop_lem n (suc i) p (swapped i p buf) j (omega arith) (ground arith)
          (omega arith) in
      (
        rest.0 ∙ swapped-ne i p buf (p - 1 - j) (omega arith) (ground arith),
        rest.1 ∙ swapped-ne i p buf j (ground arith) (omega arith),
      )
]
  where
    swaps : ℕ → Type 0
    swaps x =
        (exchange_loop (suc n) i p buf x ≡ buf (p - 1 - x))
        × (exchange_loop (suc n) i p buf (p - 1 - x) ≡ buf x)

reverse_high :
    (p : ℕ) (buf : Memory) (j : ℕ)
    → j < p
    → p - 1 - j < p / 2
    → exchange_loop (p / 2) 0 p buf j ≡ buf (p - 1 - j)
reverse_high p buf j h k =
    let back : j ≡ p - 1 - (p - 1 - j) = omega arith in
    ap (exchange_loop (p / 2) 0 p buf) back
    ∙ (exchange_loop_lem (p / 2) 0 p buf (p - 1 - j) (omega arith) (omega arith) (omega arith)).1

reverse_middle :
    (p : ℕ) (buf : Memory) (j : ℕ)
    → j < p
    → p / 2 ≤ p - 1 - j
    → p / 2 ≤ j
    → exchange_loop (p / 2) 0 p buf j ≡ buf (p - 1 - j)
reverse_middle p buf j h k l =
    let middle : j ≡ p - 1 - j = omega arith in
    exchange_loop-kept (p / 2) 0 p buf j (omega arith) (inr (inr (omega arith, omega arith)))
    ∙ ap buf middle

-- The whole loop turns the first `p` cells round.
pub exchange_loop-reverse :
    (p : ℕ) (buf : Memory) (j : ℕ) → j < p → exchange_loop (p / 2) 0 p buf j ≡ buf (p - 1 - j)
exchange_loop-reverse p buf j h = elim (Bool-cases (ltb j (p / 2))) [
  | inl l ↦ (exchange_loop_lem (p / 2) 0 p buf j (omega arith) (omega arith) (ground arith)).0
  | inr ge ↦ elim (Bool-cases (ltb (p - 1 - j) (p / 2))) [
    | inl l ↦ reverse_high p buf j h (ground arith)
    | inr ge' ↦ reverse_middle p buf j h (ground arith) (ground arith)
  ]
]

pub exchange_loop-Outside :
    (p : ℕ) (buf : Memory) (j : ℕ) → p ≤ j → exchange_loop (p / 2) 0 p buf j ≡ buf j
exchange_loop-Outside p buf j h = exchange_loop-kept (p / 2) 0 p buf j (omega arith) (ground arith)
