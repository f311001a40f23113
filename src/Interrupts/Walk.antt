-- ===== src/Interrupts/Walk.antt =====
-- What a caller of INT 15h sees who asks for the memory map entry by entry, as kernels do.
use qboot.Base.{
  if◌then◌else◌, ℕ, zero, suc, ◌+◌, ◌*◌, ◌<◌, ◌≡◌, refl, List, [], ◌∷◌, arith, lt→ltb, ◌≤◌, ◌^◌,
  ◌∙◌, ap₂, inl, ◌==◌, ◌≢◌, ap, false, u32,
}
use qboot.Memory.{Memory, ldl_p, bytes_at, st8}
use qboot.Memory.Frame.{Outside, st8_self, st8-ne, bytes_at-agree}
use qboot.Machine.{Machine, Fw, ok, pure, no_fuel, ◌>>=◌, load}
use qboot.CString.Copy.{Apart}
use qboot.Interrupts.{BiosRegs, e820entry_size, e820map_entry, copy_entry, e820_regs, int15_handler}

copy_entry-Outside :
    (p base offset n : ℕ) (m : Memory) (a : ℕ)
    → Outside p n a
    → copy_entry p base offset n m a ≡ m a
unfolding copy_entry
copy_entry-Outside p base offset zero m a o = refl
copy_entry-Outside p base offset (suc n) m a o =
    let v = m (base + offset) in
    copy_entry-Outside (suc p) base (u32 (offset + 1)) n (st8 m p v) a (ground arith)
    ∙ st8-ne m p v a (ground arith)

-- Between regions that do not meet, the loop copies, if the offset stays below 4 GB.
copy_entry-bytes :
    (p base offset n : ℕ) (m : Memory)
    → offset + n < 2 ^ 32
    → Apart p n (base + offset) n
    → bytes_at (copy_entry p base offset n m) p n ≡ bytes_at m (base + offset) n
unfolding copy_entry
copy_entry-bytes p base offset zero m small o = refl
copy_entry-bytes p base offset (suc n) m small o =
    let v = m (base + offset) in
    let m' = st8 m p v in
    let next : u32 (offset + 1) ≡ suc offset = omega arith in
    let at : base + suc offset ≡ suc (base + offset) = omega arith in
    ap₂ ◌∷◌
      (copy_entry-Outside (suc p) base (u32 (offset + 1)) n m' p (inl (omega arith))
        ∙ st8_self m p v)
      (ap (λ o. bytes_at (copy_entry (suc p) base o n m') (suc p) n) next
        ∙ copy_entry-bytes (suc p) base (suc offset) n m' (omega arith) (ground arith)
        ∙ ap (λ q. bytes_at m' q n) at
        ∙ bytes_at-agree m' m (suc (base + offset)) n (λ a k l. st8-ne m p v a (ground arith)))

-- The flat address of the map.
abbrev pub map_base : Machine → ℕ
map_base s = s.globals.e820_seg * 16

abbrev copied : BiosRegs → Machine → Machine
copied regs s = record s {
  mem = copy_entry regs.edi (map_base s) (e820map_entry regs.ebx) e820entry_size s.mem;
}

-- A query inside of the map copies the entry and advances EBX, which is 0 behind the last one.
int15_handler-inside :
    (n : ℕ) (regs : BiosRegs) (s : Machine)
    → regs.eax ≡ 0xe820
    → ldl_p s.mem (map_base s) ≡ n
    → regs.ebx < n
    → int15_handler regs s ≡ ok (e820_regs n regs) (copied regs s)
unfolding int15_handler
int15_handler-inside n regs s e size inside = rw (e, size, lt→ltb regs.ebx n inside) refl

-- The bytes of a map of `n` entries.
abbrev pub map_bytes : ℕ → ℕ
map_bytes n = 4 + n * e820entry_size

-- The 20 bytes of an entry.
pub entry_at : Memory → ℕ → List ℕ
entry_at m p = bytes_at m p e820entry_size

entry_at-agree :
    (m g : Memory) (p : ℕ)
    → ((a : ℕ) → p ≤ a → a < p + 20 → g a ≡ m a)
    → entry_at g p ≡ entry_at m p
unfolding entry_at
entry_at-agree m g p same = bytes_at-agree g m p 20 same

entry_at-copied :
    (regs : BiosRegs) (s : Machine)
    → map_bytes regs.ebx + 20 < 2 ^ 32
    → Apart regs.edi 20 (map_base s + map_bytes regs.ebx) 20
    → entry_at (copied regs s).mem regs.edi ≡ entry_at s.mem (map_base s + map_bytes regs.ebx)
unfolding entry_at
entry_at-copied regs s small o =
    let at : e820map_entry regs.ebx ≡ map_bytes regs.ebx = omega arith in
    copy_entry-bytes regs.edi (map_base s) (e820map_entry regs.ebx) 20 s.mem (omega arith)
      (ground arith)
    ∙ ap (λ o. bytes_at s.mem (map_base s + o) 20) at

copied-Outside :
    (regs : BiosRegs) (s : Machine) (a : ℕ)
    → Outside regs.edi 20 a
    → (copied regs s).mem a ≡ s.mem a
copied-Outside regs s a o =
    copy_entry-Outside regs.edi (map_base s) (e820map_entry regs.ebx) 20 s.mem a o

-- The caller's loop: ask, take the 20 bytes at EDI, and go on until EBX is 0.
pub walk : ℕ → BiosRegs → Fw (List (List ℕ))
walk zero regs = no_fuel
walk (suc fuel) regs = do
  r ← int15_handler (record regs { eax = 0xe820 })
  entry ← load (λ m. entry_at m regs.edi)
  if r.ebx == 0 then pure (entry ∷ []) else do rest ← walk fuel r; pure (entry ∷ rest)

-- The `k` entries of the map from `ndx` on.
pub entries : Memory → ℕ → ℕ → ℕ → List (List ℕ)
entries m base zero ndx = []
entries m base (suc k) ndx = entry_at m (base + map_bytes ndx) ∷ entries m base k (suc ndx)

entries-agree :
    (m g : Memory) (base k ndx n : ℕ)
    → ndx + k ≤ n
    → map_bytes n < 2 ^ 32
    → ((a : ℕ) → base ≤ a → a < base + map_bytes n → g a ≡ m a)
    → entries g base k ndx ≡ entries m base k ndx
unfolding entries
entries-agree m g base zero ndx n h small same = refl
entries-agree m g base (suc k) ndx n h small same =
    ap₂ ◌∷◌
      (entry_at-agree m g (base + map_bytes ndx) (λ a i j. same a (omega arith) (omega arith)))
      (entries-agree m g base k (suc ndx) n (omega arith) small same)

-- One round: the answer and the entry that the caller takes.
walk-suc :
    (fuel n : ℕ) (regs : BiosRegs) (s : Machine)
    → ldl_p s.mem (map_base s) ≡ n
    → regs.ebx < n
    → let asked = record regs { eax = 0xe820 } in
      let entry = entry_at (copied regs s).mem regs.edi in
      let r = e820_regs n asked in
      walk (suc fuel) regs s
      ≡ (if r.ebx == 0 then pure (entry ∷ []) else (do rest ← walk fuel r; pure (entry ∷ rest)))
          (copied regs s)
unfolding walk
walk-suc fuel n regs s size inside =
    rw (int15_handler-inside n (record regs { eax = 0xe820 }) s refl size inside) refl

walk-cons :
    (fuel n : ℕ) (regs : BiosRegs) (s t : Machine) (xs : List (List ℕ))
    → ldl_p s.mem (map_base s) ≡ n
    → regs.ebx < n
    → (e820_regs n (record regs { eax = 0xe820 })).ebx ≢ 0
    → walk fuel (e820_regs n (record regs { eax = 0xe820 })) (copied regs s) ≡ ok xs t
    → walk (suc fuel) regs s ≡ ok (entry_at (copied regs s).mem regs.edi ∷ xs) t
walk-cons fuel n regs s t xs size inside more runs =
    let again : ((e820_regs n (record regs { eax = 0xe820 })).ebx == 0) ≡ false = ground arith in
    walk-suc fuel n regs s size inside ∙ rw (again, runs) refl

-- For a map of less than 2^32 bytes, a caller whose buffer does not meet the map gets every entry from
-- EBX on, in order and once, and then EBX is 0; as many calls as there are entries left are enough.
pub walk-entries :
    (k n : ℕ) (regs : BiosRegs) (s : Machine)
    → regs.ebx + suc k ≡ n
    → map_bytes n < 2 ^ 32
    → ldl_p s.mem (map_base s) ≡ n
    → Apart regs.edi 20 (map_base s) (map_bytes n)
    → (t : Machine) × (walk (suc k) regs s ≡ ok (entries s.mem (map_base s) (suc k) regs.ebx) t)
unfolding entries e820_regs
walk-entries zero n regs s last bound size apart = (
  copied regs s,
  walk-suc zero n regs s size (omega arith)
      ∙ ground (arith, entry_at-copied regs s (omega arith) (ground arith)),
)
walk-entries (suc k) n regs s last bound size apart =
    let r = e820_regs n (record regs { eax = 0xe820 }) in
    let s' = copied regs s in
    let next : r.ebx ≡ suc regs.ebx = ground arith in
    let same = λ (a : ℕ) (i : map_base s ≤ a) (j : a < map_base s + map_bytes n).
      copied-Outside regs s a (ground arith) in
    let size' : ldl_p s'.mem (map_base s') ≡ n = omega (
      arith,
      size,
      same (map_base s) (omega arith) (omega arith),
      same (suc (map_base s)) (omega arith) (omega arith),
      same (suc (suc (map_base s))) (omega arith) (omega arith),
      same (suc (suc (suc (map_base s)))) (omega arith) (omega arith),
    ) in
    let (t, runs) = walk-entries k n r s' (omega (arith, next)) bound size' apart in
    let rest =
      entries-agree s.mem s'.mem (map_base s) (suc k) (suc regs.ebx) n (omega arith) bound same in
    (
      t,
      walk-cons (suc k) n regs s t (entries s'.mem (map_base s) (suc k) r.ebx) size (omega arith)
            (omega (arith, next)) runs
          ∙ ap₂ (λ x xs. ok (x ∷ xs) t) (entry_at-copied regs s (omega arith) (ground arith))
              (ap (entries s'.mem (map_base s) (suc k)) next ∙ rest),
    )
