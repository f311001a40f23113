-- ===== src/FwCfg/Swap.antt =====
-- The loop of fw_cfg_setup that turns the directory's numbers around.
use qboot.Base.{ℕ, zero, suc, ◌+◌, ◌<◌, ◌≤◌, ◌≡◌, ◌∙◌, refl, ap, arith, inl, inr, subst}
use qboot.Base.Bswap.{bswap16, bswap32}
use qboot.Memory.{Memory, stl_p, stw_p, ldl_p, lduw_p}
use qboot.Memory.Frame.{
  Outside, stl_p-Outside, stw_p-Outside, ldl_p-agree, lduw_p-agree, ldl_p-stl_p, lduw_p-stw_p,
}
use qboot.CString.Search.{first_or_later}
use qboot.FwCfg.{file_at, swap_loop}
use qboot.FwCfg.Descriptor.{bswap32-bound}

-- The size and the selector at `f` in `g` are those of `m` with their bytes turned around.
pub record IsSwapped (f : ℕ) (m g : Memory) : Type 0 where
  pub size : ldl_p g f ≡ bswap32 (ldl_p m f)
  pub select : lduw_p g (f + 4) ≡ bswap16 (lduw_p m (f + 4))

-- Both memories may change elsewhere.
IsSwapped-agree :
    (f : ℕ) (m g m' g' : Memory)
    → ((a : ℕ) → f ≤ a → a < f + 6 → m' a ≡ m a)
    → ((a : ℕ) → f ≤ a → a < f + 6 → g' a ≡ g a)
    → IsSwapped f m' g
    → IsSwapped f m g'
IsSwapped-agree f m g m' g' h k x = record {
  size =
      ldl_p-agree g g' f (λ a l u. k a l (omega arith))
      ∙ x.size
      ∙ ap bswap32 (ldl_p-agree m m' f (λ a l u. h a l (omega arith)));
  select =
      lduw_p-agree g g' (f + 4) (λ a l u. k a (omega arith) (omega arith))
      ∙ x.select
      ∙ ap bswap16 (lduw_p-agree m m' (f + 4) (λ a l u. h a (omega arith) (omega arith)));
}

-- One round.
abbrev swapped : ℕ → Memory → Memory
swapped f m =
    let m1 = stl_p m f (bswap32 (ldl_p m f)) in stw_p m1 (f + 4) (bswap16 (lduw_p m1 (f + 4)))

swapped-Outside : (f a : ℕ) (m : Memory) → Outside f 6 a → swapped f m a ≡ m a
swapped-Outside f a m o =
    let m1 = stl_p m f (bswap32 (ldl_p m f)) in
    stw_p-Outside m1 (f + 4) (bswap16 (lduw_p m1 (f + 4))) a (ground arith)
    ∙ stl_p-Outside m f (bswap32 (ldl_p m f)) a (ground arith)

bswap16-bound : (x : ℕ) → bswap16 x < 65536
unfolding bswap16
bswap16-bound x = omega arith

swapped-IsSwapped : (f : ℕ) (m : Memory) → IsSwapped f m (swapped f m)
swapped-IsSwapped f m =
    let v = bswap32 (ldl_p m f) in
    let m1 = stl_p m f v in
    let w = bswap16 (lduw_p m1 (f + 4)) in
    record {
      size =
          ldl_p-agree m1 (swapped f m) f (λ a l u. stw_p-Outside m1 (f + 4) w a (inl (omega arith)))
          ∙ ldl_p-stl_p m f v (bswap32-bound (ldl_p m f));
      select =
          lduw_p-stw_p m1 (f + 4) w (bswap16-bound (lduw_p m1 (f + 4)))
          ∙ ap bswap16
              (lduw_p-agree m m1 (f + 4) (λ a l u. stl_p-Outside m f v a (inr (omega arith))));
    }

-- The address `a` is in none of the numbers of the `n` entries from `i` on.
abbrev pub NoNumber : (files n i a : ℕ) → Type 0
NoNumber files n i a = (k : ℕ) → i ≤ k → k < i + n → Outside (file_at files k) 6 a

pub swap_loop-Outside :
    (files n i a : ℕ) (m : Memory) → NoNumber files n i a → swap_loop files n i m a ≡ m a
unfolding swap_loop
swap_loop-Outside files zero i a m o = refl
swap_loop-Outside files (suc n) i a m o =
    swap_loop-Outside files n (i + 1) a (swapped (file_at files i) m)
      (λ k l u. o k (omega arith) (omega arith))
    ∙ swapped-Outside (file_at files i) a m (o i (omega arith) (omega arith))

pub swap_loop-IsSwapped :
    (files n i k : ℕ) (m : Memory)
    → i ≤ k
    → k < i + n
    → IsSwapped (file_at files k) m (swap_loop files n i m)
unfolding swap_loop
swap_loop-IsSwapped files zero i k m l u = absurd (omega arith)
swap_loop-IsSwapped files (suc n) i k m l u =
    let m2 = swapped (file_at files i) m in
    elim (first_or_later l) [
      | inl e ↦
          subst (λ j. IsSwapped (file_at files j) m (swap_loop files n (i + 1) m2)) e
            (IsSwapped-agree (file_at files i) m m2 m (swap_loop files n (i + 1) m2) (λ a x y. refl)
              (λ a x y. swap_loop-Outside files n (i + 1) a m2 (λ j p q. inl (omega arith)))
              (swapped-IsSwapped (file_at files i) m))
      | inr later ↦
          IsSwapped-agree (file_at files k) m (swap_loop files n (i + 1) m2) m2
            (swap_loop files n (i + 1) m2)
            (λ a x y. swapped-Outside (file_at files i) a m (inr (omega arith))) (λ a x y. refl)
            (swap_loop-IsSwapped files n (i + 1) k m2 (omega arith) (omega arith))
    ]
