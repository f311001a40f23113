-- ===== src/Memory.antt =====
-- Physical memory, the accessors of include/memaccess.h, and the compiler's memset and memcpy as
-- include/string.h calls them. Addresses are plain numbers, since C leaves the wrap of a pointer
-- undefined. Every address can be read and written, as the firmware runs with flat segments.
pub mod Frame
pub mod Changed
pub mod Wide
use qboot.Base.{
  ℕ, zero, suc, ◌+◌, ◌-◌, ◌*◌, ◌<◌, ◌≤◌, Bool, ◌&&◌, List, [], ◌∷◌, ltb, leb, ◌==◌, if◌then◌else◌,
  u8, ◌>>>◌,
}

abbrev pub Memory : Type 0
Memory = ℕ → ℕ

-- The store of one byte; what is stored is cut to a byte by the caller.
unfoldable pub st8 : Memory → ℕ → ℕ → Memory
st8 m p v a = if p == a then v else m a

-- Little-endian stores and loads of 2, 4 and 8 bytes.
unfoldable pub stw_p : Memory → ℕ → ℕ → Memory
stw_p m p v = st8 (st8 m p (u8 v)) (suc p) (u8 (v >>> 8))

unfoldable pub stl_p : Memory → ℕ → ℕ → Memory
unfolding stw_p
stl_p m p v = stw_p (stw_p m p v) (suc (suc p)) (v >>> 16)

unfoldable pub stq_p : Memory → ℕ → ℕ → Memory
unfolding stl_p
stq_p m p v = stl_p (stl_p m p v) (p + 4) (v >>> 32)

abbrev pub lduw_p : Memory → ℕ → ℕ
lduw_p m p = m p + 256 * m (suc p)

abbrev pub ldl_p : Memory → ℕ → ℕ
ldl_p m p = lduw_p m p + 65536 * lduw_p m (suc (suc p))

abbrev pub ldq_p : Memory → ℕ → ℕ
ldq_p m p = ldl_p m p + 4294967296 * ldl_p m (p + 4)

-- Whether an address lies in `[p, p + n)`.
abbrev pub in_range : ℕ → ℕ → ℕ → Bool
in_range p n a = leb p a && ltb a (p + n)

unfoldable pub memset : Memory → ℕ → ℕ → ℕ → Memory
memset m p c n a = if in_range p n a then u8 c else m a

-- Source and destination do not overlap, or the behaviour is undefined.
unfoldable pub memcpy : Memory → ℕ → ℕ → ℕ → Memory
memcpy m dest src n a = if in_range dest n a then m (src + (a - dest)) else m a

-- A copy from bytes that lie outside of the modelled memory, such as a string constant.
unfoldable pub st_bytes : Memory → ℕ → List ℕ → Memory
st_bytes m p [] = m
st_bytes m p (x ∷ xs) = st_bytes (st8 m p x) (suc p) xs

-- The bytes of `[p, p + n)`.
abbrev pub bytes_at : Memory → ℕ → ℕ → List ℕ
bytes_at m p zero = []
bytes_at m p (suc n) = m p ∷ bytes_at m (suc p) n

-- Their sum.
abbrev pub sum_at : Memory → ℕ → ℕ → ℕ
sum_at m p zero = 0
sum_at m p (suc n) = m p + sum_at m (suc p) n

-- Every cell holds a byte.
abbrev pub IsBytes : Memory → Type 0
IsBytes m = (a : ℕ) → m a < 256

-- Every cell of `[p, p + n)` does.
abbrev pub BytesIn : ℕ → ℕ → Memory → Type 0
BytesIn p n m = (a : ℕ) → p ≤ a → a < p + n → m a < 256
