-- ===== src/Smbios/Finish.antt =====
-- What extract_smbios makes of the entry point and the structures once both are in memory.
use qboot.Base.{
  sym, inl, inr, ℕ, suc, ◌+◌, ◌-◌, ◌%◌, ◌<◌, ◌≤◌, ◌≡◌, ◌^◌, ◌∙◌, ap, arith, Bool, true, false, none,
  some, u32,
}
use qboot.Memory.{Memory, IsBytes, lduw_p, sum_at, stl_p}
use qboot.Memory.Frame.{Outside, stl_p-IsBytes, stw_p-IsBytes}
use qboot.CString.Copy.{Apart}
use qboot.Machine.{Machine, Returns}
use qboot.Smbios.{
  bios_name, bios_version, bios_date, t0_len, smbios_new_type_0, need_t0, count_type_0,
  sum_entry_point, finish_smbios,
}
use qboot.Smbios.Chain.{Answers, need_t0-Answers}
use qboot.Smbios.Room.{smbios_new_type_0-Changed, smbios_new_type_0-header}
use qboot.Smbios.Sums.{sum_entry_point-sum}
use qboot.Smbios.Entry.{
  count_type_0-IsBytes, IsEntry, IsEntry-agree, pointed, pointed-Outside, pointed-IsEntry,
  count_type_0-Outside, count_type_0-IsEntry, sum_entry_point-ne,
}

-- Both checksums of the entry point hold.
abbrev pub IsSummed : Memory → ℕ → Type 0
IsSummed m ep = (sum_at m ep 16 % 256 ≡ 0) × (sum_at m (ep + 16) (m (ep + 5) - 16) % 256 ≡ 0)

-- The structures that the entry point leads to: the `count` ones in the `n` bytes at `q`, behind the
-- type 0 structure if that was needed.
abbrev pub Leads : Bool → (ep q n count : ℕ) → Memory → Type 0
Leads true ep q n count m = IsEntry ep (q - t0_len) (n + t0_len) (count + 1) m
Leads false ep q n count m = IsEntry ep q n count m

-- A new structure has type 0, and 24 bytes in front of its strings.
abbrev pub Fresh : Bool → (start : ℕ) → Memory → Type 0
Fresh true start m = (m start ≡ 0) × (m (start + 1) ≡ 24)
Fresh false start m = Unit

pub record IsFinished (need : Bool) (ep q n : ℕ) (m g : Memory) : Type 0 where
  pub summed : IsSummed g ep
  pub leads : Leads need ep q n (lduw_p m (ep + 28)) g
  pub fresh : Fresh need (q - t0_len) g
  pub structures : (i : ℕ) → i < n → g (q + i) ≡ m (q + i)

Leads-agree :
    (need : Bool) (ep q n count : ℕ) (m g : Memory)
    → ((a : ℕ) → ep + 22 ≤ a → a < ep + 30 → g a ≡ m a)
    → Leads need ep q n count m
    → Leads need ep q n count g
Leads-agree true ep q n count m g h l =
    IsEntry-agree ep (q - t0_len) (n + t0_len) (count + 1) m g h l
Leads-agree false ep q n count m g h l = IsEntry-agree ep q n count m g h l

sums-IsFinished :
    (need : Bool) (ep q n : ℕ) (m g : Memory)
    → IsBytes g
    → 22 ≤ g (ep + 5)
    → Apart ep 31 q n
    → Leads need ep q n (lduw_p m (ep + 28)) g
    → Fresh need (q - t0_len) (sum_entry_point ep g)
    → ((i : ℕ) → i < n → g (q + i) ≡ m (q + i))
    → IsFinished need ep q n m (sum_entry_point ep g)
sums-IsFinished need ep q n m g b long apart leads fresh kept = record {
  summed = sum_entry_point-sum ep g b long;
  leads =
      Leads-agree need ep q n (lduw_p m (ep + 28)) g (sum_entry_point ep g)
        (λ a k l. sum_entry_point-ne ep a g (λ e. omega (arith, e)) (λ e. omega (arith, e))) leads;
  fresh = fresh;
  structures = λ i l.
      sum_entry_point-ne ep (q + i) g (λ e. omega (arith, e)) (λ e. omega (arith, e)) ∙ kept i l;
}

-- The entry point is in a memory of bytes, its length byte takes in both checksums, and there is room for
-- a type 0 structure in front of the `n` bytes at `q`, apart from the entry point.
module _ (ep q n : ℕ) (s : Machine) (b : IsBytes s.mem) (long : 22 ≤ s.mem (ep + 5))
    (room : t0_len ≤ q) (hq : q < 2 ^ 32) (hn : n + t0_len < 2 ^ 16)
    (hc : lduw_p s.mem (ep + 28) + 1 < 2 ^ 16) (apart : Apart ep 31 (q - t0_len) (n + t0_len)) where
  pointed_kept : (a : ℕ) → Outside ep 31 a → pointed ep q n s.mem a ≡ s.mem a
  pointed_kept a o = pointed-Outside ep q n a s.mem (ground arith)

  pointed-IsBytes : IsBytes (pointed ep q n s.mem)
  pointed-IsBytes =
      stw_p-IsBytes (stl_p s.mem (ep + 24) (u32 q)) (ep + 22) n
        (stl_p-IsBytes s.mem (ep + 24) (u32 q) b)

  pointed_long : 22 ≤ pointed ep q n s.mem (ep + 5)
  pointed_long = omega (arith, long, pointed-Outside ep q n (ep + 5) s.mem (inl (omega arith)))

  -- The memory with the type 0 structure, which the entry point counts.
  abbrev counted : Memory
  counted =
      count_type_0 ep
        (smbios_new_type_0 (q - t0_len) bios_name bios_version bios_date (pointed ep q n s.mem))

  counted-IsFinished : IsFinished true ep q n s.mem (sum_entry_point ep counted)
  counted-IsFinished =
      let g = pointed ep q n s.mem in
      let t = smbios_new_type_0 (q - t0_len) bios_name bios_version bios_date g in
      let new = smbios_new_type_0-Changed (q - t0_len) g in
      let e = pointed-IsEntry ep q n s.mem hq (omega arith) in
      let count = lduw_p s.mem (ep + 28) in
      let e' = IsEntry-agree ep q n count g t (λ a k l. new.outside a (ground arith)) e in
      let kept = λ (a : ℕ) (o : Outside ep 31 a) (p : Outside (q - t0_len) t0_len a).
        count_type_0-Outside ep a t (ground arith) (ground arith)
        ∙ new.outside a p
        ∙ pointed_kept a o in
      let length : counted (ep + 5) ≡ g (ep + 5) =
        count_type_0-Outside ep (ep + 5) t (inl (omega arith)) (inl (omega arith))
        ∙ new.outside (ep + 5) (ground arith) in
      let header = smbios_new_type_0-header (q - t0_len) g in
      let fresh_at = λ (a : ℕ) (o : Outside ep 31 a).
        sum_entry_point-ne ep a counted (λ e. ground (arith, e)) (λ e. ground (arith, e))
        ∙ count_type_0-Outside ep a t (ground arith) (ground arith) in
      sums-IsFinished true ep q n s.mem counted
        (count_type_0-IsBytes ep t (new.bytes pointed-IsBytes))
        (omega (arith, length, pointed_long)) (ground arith)
        (count_type_0-IsEntry ep q n count t room hq hn hc e')
        (
          fresh_at (q - t0_len) (ground arith) ∙ header.0,
          fresh_at (q - t0_len + 1) (ground arith) ∙ header.1,
        )
        (λ i l. kept (q + i) (ground arith) (inr (omega arith)))

  finish-Returns :
      (need : Bool)
      → need_t0 (suc n) (pointed ep q n s.mem) ep none ≡ some need
      → Returns (λ _ t. IsFinished need ep q n s.mem t.mem) (finish_smbios ep q n s)
  unfolding finish_smbios
  finish-Returns true runs = rw runs counted-IsFinished
  finish-Returns false runs =
      let g = pointed ep q n s.mem in
      rw runs (
        sums-IsFinished false ep q n s.mem g pointed-IsBytes pointed_long (ground arith)
          (pointed-IsEntry ep q n s.mem hq (omega arith)) tt
          (λ i l. pointed_kept (q + i) (ground arith)))

  -- Let the entry point lie in a memory of bytes, with a length of at least 22, and leave room for a
  -- type 0 structure in front of the `n` bytes at `q`, apart from the entry point and within the fields'
  -- widths. Then finish_smbios returns, and it has found out whether the structures at `q` have one of
  -- type 0. Both checksums hold; the structures at `q` are as they were; and the entry point leads to
  -- them alone where one has type 0, and else to one structure more, from the new one on, which
  -- has type 0 and 24 bytes in front of its strings.
  pub finish_smbios-IsFinished :
      (need : Bool) × Answers (pointed ep q n s.mem) ep none need
      × Returns (λ _ t. IsFinished need ep q n s.mem t.mem) (finish_smbios ep q n s)
  finish_smbios-IsFinished =
      let g = pointed ep q n s.mem in
      let e = pointed-IsEntry ep q n s.mem hq (omega arith) in
      let (need, runs, answers) = need_t0-Answers g ep in
      let rounds = ap (λ k. need_t0 (suc k) g ep none) e.structure_table_length in
      (need, answers, finish-Returns need (sym rounds ∙ runs))
