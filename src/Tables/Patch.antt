-- ===== src/Tables/Patch.antt =====
-- do_ptr: the pointer it patches.
use qboot.Base.{
  inl, ap, subst, sym, ◌-◌, ℕ, zero, suc, ◌+◌, ◌*◌, ◌/◌, ◌%◌, ◌^◌, ◌≤◌, ◌≡◌, ◌∙◌, refl, arith, u64,
  inl, ap,
}
use native.Mathlib.Nat.{
  mul_assoc, pow-succ', mod-mod_of_dvd, mod-eq-sub-mul-div, div-div-eq-div-mul, mul-div-le,
  dvd_refl, dvd-mul_left_of_dvd,
}
use Prim.Native.Nat.{◌∣◌}
use qboot.Memory.{Memory, st8}
use qboot.Memory.Frame.{Outside, st8_self, st8-ne}
use qboot.Tables.{load_le, store_le, add_pointer}

store_le-Outside : (m : Memory) (q size v a : ℕ) → Outside q size a → store_le m q size v a ≡ m a
unfolding store_le
store_le-Outside m q zero v a o = refl
store_le-Outside m q (suc size) v a o =
    store_le-Outside (st8 m q (v % 256)) (suc q) size (v / 256) a (ground arith)
    ∙ st8-ne m q (v % 256) a (ground arith)

-- The lowest byte is taken off first.
mod-byte_mul : (v k : ℕ) → v % (256 * k) ≡ v % 256 + 256 * (v / 256 % k)
mod-byte_mul v k =
    let t = v / 256 / k in
    let assoc : 256 * k * t ≡ 256 * (k * t) = mul_assoc 256 k t in
    omega (
      arith,
      mod-eq-sub-mul-div v (256 * k),
      ap (λ (d : ℕ). 256 * k * d) (div-div-eq-div-mul v 256 k),
      mod-eq-sub-mul-div (v / 256) k,
      mul-div-le (v / 256) k,
      assoc,
    )

load_le-store_le :
    (m : Memory) (q size v : ℕ) → load_le (store_le m q size v) q size ≡ v % 256 ^ size
unfolding load_le store_le
load_le-store_le m q zero v = omega arith
load_le-store_le m q (suc size) v = omega (
  arith,
  load_le-store_le (st8 m q (v % 256)) (suc q) size (v / 256),
  store_le-Outside (st8 m q (v % 256)) (suc q) size (v / 256) q (inl (omega arith)),
  st8_self m q (v % 256),
  mod-byte_mul v (256 ^ size),
  ap (λ (n : ℕ). v % n) (pow-succ' 256 size),
)

dvd-byte_pow : (n k : ℕ) → 256 ^ n ∣ 256 ^ (k + n)
dvd-byte_pow n zero =
    let start : n ≡ 0 + n = omega arith in subst (λ e. 256 ^ n ∣ 256 ^ e) start (dvd_refl (256 ^ n))
dvd-byte_pow n (suc k) =
    let next : suc (k + n) ≡ suc k + n = omega arith in
    subst (λ e. 256 ^ n ∣ 256 ^ e) next
      (subst (λ e. 256 ^ n ∣ e) (sym (pow-succ' 256 (k + n)))
        (dvd-mul_left_of_dvd (256 ^ n) (dvd-byte_pow n k) 256))

-- A pointer that is patched in `size` bytes, 8 at most, is the one that was there plus `p`, cut to
-- `size` bytes; every other byte of memory keeps its value.
pub add_pointer_lem :
    (q size p : ℕ) (m : Memory)
    → size ≤ 8
    → (load_le (add_pointer q size p m) q size ≡ (load_le m q size + p) % 256 ^ size)
      × ((a : ℕ) → Outside q size a → add_pointer q size p m a ≡ m a)
unfolding add_pointer
add_pointer_lem q size p m h =
    let v = load_le m q size + p in
    let whole : 8 - size + size ≡ 8 = omega arith in
    let divides = subst (λ e. 256 ^ size ∣ 256 ^ e) whole (dvd-byte_pow size (8 - size)) in
    (
      load_le-store_le m q size (u64 v) ∙ mod-mod_of_dvd (256 ^ size) v divides,
      λ a o. store_le-Outside m q size (u64 v) a o,
    )
