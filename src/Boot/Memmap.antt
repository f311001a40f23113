-- ===== src/Boot/Memmap.antt =====
-- pvh_e820_setup: the copy of the memory map for a PVH kernel.
use qboot.Base.{
  zero, suc, ◌⊎◌, subst, sym, refl, ap₂, Bool-cases, ltb, ℕ, ◌+◌, ◌*◌, ◌≡◌, ◌∙◌, arith, ◌<◌, suc,
  ◌≤◌, some, inl, inr,
}
use qboot.Memory.{BytesIn, Memory, ldl_p, ldq_p, stq_p}
use qboot.Memory.Frame.{Outside, ldl_p-agree}
use qboot.CString.Copy.{Apart}
use qboot.Main.{st_entry, entry_addr}
use qboot.Memory.Wide.{ldl_p-lt, ldq_p-lt, stq_p-Outside, ldq_p-agree}
use qboot.Main.Entry.{st_entry-Holds, st_entry-Outside, Holds-agree, Holds}
use qboot.Boot.{memmap_round, map_loop, stl_p}

-- The entry `i` of the PVH map at `table`.
abbrev pub slot : ℕ → ℕ → ℕ
slot table i = table + 24 * i

-- One round stores the entry that it reads.
memmap_round-st_entry :
    (e820 table i : ℕ) (c : Memory)
    → Apart (slot table i) 20 (entry_addr e820 i) 20
    → let from = entry_addr e820 i in
      memmap_round e820 table i c
      ≡ st_entry (slot table i) (ldq_p c from) (ldq_p c (from + 8)) (ldl_p c (from + 16)) c
unfolding memmap_round st_entry
memmap_round-st_entry e820 table i c o =
    let from = entry_addr e820 i in
    let p = slot table i in
    let m1 = stq_p c p (ldq_p c from) in
    let size = ldq_p m1 (from + 8) in
    let m2 = stq_p m1 (p + 8) size in
    let first = λ (a : ℕ) (h : from ≤ a) (k : a < from + 20).
      stq_p-Outside c p (ldq_p c from) a (ground arith) in
    let second = λ (a : ℕ) (h : from ≤ a) (k : a < from + 20).
      stq_p-Outside m1 (p + 8) size a (ground arith) ∙ first a h k in
    ap₂ (λ y z. stl_p (stq_p m1 (p + 8) y) (p + 16) z)
      (ldq_p-agree c m1 (from + 8) (λ a h k. first a (omega arith) (omega arith)))
      (ldl_p-agree c m2 (from + 16) (λ a h k. second a (omega arith) (omega arith)))

-- The entry `k` of the map of `m` stands in the slot `k` of `g`.
abbrev pub Copied : (m g : Memory) → (e820 table k : ℕ) → Type 0
Copied m g e820 table k =
    let from = entry_addr e820 k in
    Holds g (slot table k) (ldq_p m from) (ldq_p m (from + 8)) (ldl_p m (from + 16))

-- What is copied is the same in a memory that agrees on the entry.
pub Copied-source :
    (m m' g : Memory) (e820 table k : ℕ)
    → ((a : ℕ) → entry_addr e820 k ≤ a → a < entry_addr e820 k + 20 → m' a ≡ m a)
    → Copied m' g e820 table k
    → Copied m g e820 table k
Copied-source m m' g e820 table k same (x, y, z) =
    let from = entry_addr e820 k in
    (
      x ∙ ldq_p-agree m m' from (λ a h r. same a h (omega arith)),
      y ∙ ldq_p-agree m m' (from + 8) (λ a h r. same a (omega arith) (omega arith)),
      z ∙ ldl_p-agree m m' (from + 16) (λ a h r. same a (omega arith) (omega arith)),
    )

pub last_or_before : {k i : ℕ} → k < suc i → (k ≡ i) ⊎ (k < i)
last_or_before h = ground arith

-- After `i` rounds: the slots before `i` are filled, and the rest of memory is as it was.
pub record IsCopied (m : Memory) (e820 table n i : ℕ) (c : Memory) : Type 0 where
  pub filled : (k : ℕ) → k < i → Copied m c e820 table k
  pub outside : (a : ℕ) → Outside table (24 * n) a → c a ≡ m a

module _ (m : Memory) (e820 table n : ℕ) (bytes : BytesIn e820 (4 + 20 * n) m)
    (apart : Apart table (24 * n) e820 (4 + 20 * n)) (count : ldl_p m e820 ≡ n) where
  round-IsCopied :
      (i : ℕ) (c : Memory)
      → i < n
      → IsCopied m e820 table n i c
      → IsCopied m e820 table n (suc i) (memmap_round e820 table i c)
  round-IsCopied i c h done =
      let from = entry_addr e820 i in
      let p = slot table i in
      let kept = λ (a : ℕ) (l : from ≤ a) (r : a < from + 20). done.outside a (ground arith) in
      let e1 = ldq_p-agree m c from (λ a l r. kept a l (omega arith)) in
      let e2 = ldq_p-agree m c (from + 8) (λ a l r. kept a (omega arith) (omega arith)) in
      let e3 = ldl_p-agree m c (from + 16) (λ a l r. kept a (omega arith) (omega arith)) in
      let stored =
        ap₂ (λ (f : ℕ × ℕ) (t : ℕ). st_entry p f.0 f.1 t c) (ap₂ (λ (x y : ℕ). (x, y)) e1 e2) e3 in
      let g = st_entry p (ldq_p m from) (ldq_p m (from + 8)) (ldl_p m (from + 16)) c in
      let entry =
        st_entry-Holds p (ldq_p m from) (ldq_p m (from + 8)) (ldl_p m (from + 16)) c
          (ldq_p-lt m from (λ a k l. bytes a (omega arith) (omega arith)))
          (ldq_p-lt m (from + 8) (λ a k l. bytes a (omega arith) (omega arith)))
          (ldl_p-lt m (from + 16) (λ a k l. bytes a (omega arith) (omega arith))) in
      subst (IsCopied m e820 table n (suc i))
        (sym (memmap_round-st_entry e820 table i c (ground arith) ∙ stored))
        (record {
          filled = λ k l. elim (last_or_before l) [
            | inl e ↦ subst (Copied m g e820 table) (sym e) entry
            | inr before ↦
                Holds-agree c g (slot table k) _ _ _
                  (λ a u v.
                    st_entry-Outside p (ldq_p m from) (ldq_p m (from + 8)) (ldl_p m (from + 16)) a c
                      (inl (omega arith)))
                  (done.filled k before)
          ];
          outside = λ a o.
              st_entry-Outside p (ldq_p m from) (ldq_p m (from + 8)) (ldl_p m (from + 16)) a c
                (ground arith)
              ∙ done.outside a o;
        })

  map_loop-IsCopied :
      (fuel i : ℕ) (c : Memory)
      → i ≤ n
      → n < i + fuel
      → IsCopied m e820 table n i c
      → (g : Memory) × (map_loop (memmap_round e820 table) fuel e820 i c ≡ some g)
        × IsCopied m e820 table n n g
  unfolding map_loop
  map_loop-IsCopied zero i c h k done = absurd (omega arith)
  map_loop-IsCopied (suc fuel) i c h k done =
      let same : ldl_p c e820 ≡ n =
        ldl_p-agree m c e820 (λ a l r. done.outside a (ground arith)) ∙ count in
      elim (Bool-cases (ltb i n)) [
        | inl e ↦
            let (g, runs, all) =
              map_loop-IsCopied fuel (suc i) (memmap_round e820 table i c) (ground arith)
                (omega arith) (round-IsCopied i c (ground arith) done) in
            (g, rw (same, e) runs, all)
        | inr e ↦
            let end : i ≡ n = ground arith in
            (c, rw (same, e) refl, subst (λ j. IsCopied m e820 table n j c) end done)
      ]

-- For a map of `n` entries made of bytes, and a table that does not meet it, the loop ends within
-- `n + 1` rounds. Each of the `n` entries is then in the table, in order, with its address, size and
-- type, and nothing outside of the table has changed.
pub memmap-IsCopied :
    (m : Memory) (e820 table fuel : ℕ)
    → BytesIn e820 (4 + 20 * ldl_p m e820) m
    → Apart table (24 * ldl_p m e820) e820 (4 + 20 * ldl_p m e820)
    → ldl_p m e820 < fuel
    → (g : Memory) × (map_loop (memmap_round e820 table) fuel e820 0 m ≡ some g)
      × IsCopied m e820 table (ldl_p m e820) (ldl_p m e820) g
memmap-IsCopied m e820 table fuel bytes apart enough =
    map_loop-IsCopied m e820 table (ldl_p m e820) bytes apart refl fuel 0 m (omega arith)
      (omega arith) (record { filled = λ k l. absurd (omega arith); outside = λ a o. refl })
