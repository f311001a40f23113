-- ===== src/CString/Move.antt =====
-- memmove, for regions that may overlap.
use qboot.Base.{
  ℕ, zero, suc, ◌+◌, ◌-◌, ◌≤◌, ◌<◌, ◌≡◌, arith, leb, if◌then◌else◌, Bool-cases, inl, inr,
}
use qboot.Memory.{Memory, st8, memcpy, in_range}
use qboot.CString.{memmove, move_up, move_down}

-- The destination as it is after a copy of `n` bytes of the memory `m`.
copied : Memory → ℕ → ℕ → ℕ → ℕ → ℕ
copied m d s n a = if in_range d n a then m (s + (a - d)) else m a

move_up-copied : (m : Memory) (d s n a : ℕ) → d ≤ s → move_up m d s n a ≡ copied m d s n a
unfolding move_up copied st8
move_up-copied m d s zero a h = ground arith
move_up-copied m d s (suc n) a h =
    ground (arith, move_up-copied (st8 m d (m s)) (suc d) (suc s) n a)

move_down-copied : (m : Memory) (d s n a : ℕ) → s < d → move_down m d s n a ≡ copied m d s n a
unfolding move_down copied st8
move_down-copied m d s zero a h = ground arith
move_down-copied m d s (suc n) a h =
    ground (arith, move_down-copied (st8 m (d + n) (m (s + n))) d s n a)

-- After `memmove` every address of the destination holds what the source held before the call,
-- and every other address is unchanged, for overlapping regions too.
pub memmove-copies :
    (m : Memory) (dest src n a : ℕ) → memmove m dest src n a ≡ memcpy m dest src n a
unfolding memmove memcpy
memmove-copies m dest src n a = elim (Bool-cases (leb dest src)) [
  | inl up ↦ rw up (unfold copied in move_up-copied m dest src n a (ground arith))
  | inr down ↦ rw down (unfold copied in move_down-copied m dest src n a (ground arith))
]
