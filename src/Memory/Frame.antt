-- ===== src/Memory/Frame.antt =====
-- What stores change and what they leave alone.
use qboot.Base.{
  ℕ, zero, suc, ◌+◌, ◌≤◌, ◌<◌, ◌≡◌, ◌≢◌, ◌⊎◌, inl, inr, refl, subst, ◌∙◌, List, [], ◌∷◌, Bool-cases,
  ==_iff, ◌==◌, arith, u8, ◌>>>◌, All, length,
}
use native.Mathlib.Nat.{zero-add, add-zero}
use qboot.Memory.{
  Memory, st8, stw_p, stl_p, lduw_p, ldl_p, memset, st_bytes, bytes_at, sum_at, IsBytes,
}

-- `a` is not one of the `n` addresses from `p`.
abbrev pub Outside : ℕ → ℕ → ℕ → Type 0
Outside p n a = (a < p) ⊎ (p + n ≤ a)

pub st8_self : (m : Memory) (p v : ℕ) → st8 m p v p ≡ v
unfolding st8
st8_self m p v = ground arith

pub st8-ne : (m : Memory) (p v a : ℕ) → p ≢ a → st8 m p v a ≡ m a
unfolding st8
st8-ne m p v a h = ground arith

pub st8-IsBytes : (m : Memory) (p v : ℕ) → v < 256 → IsBytes m → IsBytes (st8 m p v)
unfolding st8
st8-IsBytes m p v h b a = ground (arith, b a)

pub stw_p-IsBytes : (m : Memory) (p v : ℕ) → IsBytes m → IsBytes (stw_p m p v)
unfolding stw_p
stw_p-IsBytes m p v b =
    st8-IsBytes (st8 m p (u8 v)) (suc p) (u8 (v >>> 8)) (omega arith)
      (st8-IsBytes m p (u8 v) (omega arith) b)

pub stl_p-IsBytes : (m : Memory) (p v : ℕ) → IsBytes m → IsBytes (stl_p m p v)
unfolding stl_p
stl_p-IsBytes m p v b = stw_p-IsBytes (stw_p m p v) (suc (suc p)) (v >>> 16) (stw_p-IsBytes m p v b)

pub memset-IsBytes : (m : Memory) (p c n : ℕ) → IsBytes m → IsBytes (memset m p c n)
unfolding memset
memset-IsBytes m p c n b a = ground (arith, b a)

pub st_bytes-IsBytes :
    (m : Memory) (p : ℕ) (xs : List ℕ)
    → All (λ x. x < 256) xs
    → IsBytes m
    → IsBytes (st_bytes m p xs)
unfolding st_bytes
st_bytes-IsBytes m p [] h b = b
st_bytes-IsBytes m p (x ∷ xs) h b =
    st_bytes-IsBytes (st8 m p x) (suc p) xs h.1 (st8-IsBytes m p x h.0 b)

pub stw_p-Outside : (m : Memory) (p v a : ℕ) → Outside p 2 a → stw_p m p v a ≡ m a
unfolding stw_p st8
stw_p-Outside m p v a o = ground arith

pub stl_p-Outside : (m : Memory) (p v a : ℕ) → Outside p 4 a → stl_p m p v a ≡ m a
unfolding stl_p st8
stl_p-Outside m p v a o = ground arith

-- What a little-endian store wrote, the load of the same width reads.
pub lduw_p-stw_p : (m : Memory) (p v : ℕ) → v < 65536 → lduw_p (stw_p m p v) p ≡ v
unfolding stw_p st8
lduw_p-stw_p m p v h = ground arith

pub ldl_p-stl_p : (m : Memory) (p v : ℕ) → v < 4294967296 → ldl_p (stl_p m p v) p ≡ v
unfolding stl_p st8
ldl_p-stl_p m p v h = ground arith

pub memset-Outside : (m : Memory) (p c n a : ℕ) → Outside p n a → memset m p c n a ≡ m a
unfolding memset
memset-Outside m p c n a o = ground arith

pub memset-inside : (m : Memory) (p c n a : ℕ) → p ≤ a → a < p + n → memset m p c n a ≡ u8 c
unfolding memset
memset-inside m p c n a h k = ground arith

pub st_bytes-Outside :
    (m : Memory) (p : ℕ) (xs : List ℕ) (a : ℕ) → Outside p (length xs) a → st_bytes m p xs a ≡ m a
unfolding st_bytes
st_bytes-Outside m p [] a o = refl
st_bytes-Outside m p (x ∷ xs) a o =
    st_bytes-Outside (st8 m p x) (suc p) xs a (ground arith) ∙ st8-ne m p x a (ground arith)

pub lduw_p-agree :
    (m g : Memory) (p : ℕ) → ((a : ℕ) → p ≤ a → a < p + 2 → g a ≡ m a) → lduw_p g p ≡ lduw_p m p
lduw_p-agree m g p h =
    omega (arith, h p (omega arith) (omega arith), h (suc p) (omega arith) (omega arith))

pub ldl_p-agree :
    (m g : Memory) (p : ℕ) → ((a : ℕ) → p ≤ a → a < p + 4 → g a ≡ m a) → ldl_p g p ≡ ldl_p m p
ldl_p-agree m g p h = omega (
  arith,
  lduw_p-agree m g p (λ a k l. h a k (omega arith)),
  lduw_p-agree m g (suc (suc p)) (λ a k l. h a (omega arith) (omega arith)),
)

-- A region reads the same in two memories that agree on it.
pub sum_at-agree :
    (m g : Memory) (p n : ℕ)
    → ((a : ℕ) → p ≤ a → a < p + n → m a ≡ g a)
    → sum_at m p n ≡ sum_at g p n
sum_at-agree m g p zero h = refl
sum_at-agree m g p (suc n) h = omega (
  arith,
  h p (omega arith) (omega arith),
  sum_at-agree m g (suc p) n (λ a k l. h a (omega arith) (omega arith)),
)

pub bytes_at-agree :
    (m g : Memory) (p n : ℕ)
    → ((a : ℕ) → p ≤ a → a < p + n → m a ≡ g a)
    → bytes_at m p n ≡ bytes_at g p n
bytes_at-agree m g p zero h = refl
bytes_at-agree m g p (suc n) h = cc (
  h p (omega arith) (omega arith),
  bytes_at-agree m g (suc p) n (λ a k l. h a (omega arith) (omega arith)),
)

-- A region is the sum of two parts that meet.
pub sum_at-append :
    (m : Memory) (p n k : ℕ) → sum_at m p (n + k) ≡ sum_at m p n + sum_at m (p + n) k
sum_at-append m p zero k = rw (zero-add, add-zero) (omega arith)
sum_at-append m p (suc n) k =
    let shift : p + suc n ≡ suc p + n = omega arith in
    let sucs : suc n + k ≡ suc (n + k) = omega arith in
    rw (shift, sucs) (omega (arith, sum_at-append m (suc p) n k))

sum_at-st8_first :
    (m : Memory) (p n v : ℕ) → sum_at (st8 m p v) p (suc n) + m p ≡ sum_at m p (suc n) + v
sum_at-st8_first m p n v = omega (
  arith,
  st8_self m p v,
  sum_at-agree (st8 m p v) m (suc p) n (λ a k l. st8-ne m p v a (omega arith)),
)

-- A store inside the region changes its sum by the difference of the two bytes.
pub sum_at-st8 :
    (m : Memory) (p n q v : ℕ) → p ≤ q → q < p + n → sum_at (st8 m q v) p n + m q ≡ sum_at m p n + v
sum_at-st8 m p zero q v h k = absurd (omega arith)
sum_at-st8 m p (suc n) q v h k = elim (Bool-cases (p == q)) [
  | inl e ↦
      subst (λ r. sum_at (st8 m r v) p (suc n) + m r ≡ sum_at m p (suc n) + v) ((==_iff p q).0 e)
        (sum_at-st8_first m p n v)
  | inr ne ↦ omega (
    arith,
    st8-ne m q v p (ground arith),
    sum_at-st8 m (suc p) n q v (ground arith) (omega arith),
  )
]

-- A store outside of the region leaves its sum alone.
pub sum_at-st8-Outside :
    (m : Memory) (p n q v : ℕ) → Outside p n q → sum_at (st8 m q v) p n ≡ sum_at m p n
sum_at-st8-Outside m p n q v o =
    sum_at-agree (st8 m q v) m p n (λ a k l. st8-ne m q v a (ground arith))
