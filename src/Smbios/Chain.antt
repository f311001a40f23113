-- ===== src/Smbios/Chain.antt =====
-- The walk over the SMBIOS structures, and the search for one of type 0.
use qboot.Base.{
  ◌⊎◌, subst, sym, ℕ, zero, suc, ◌+◌, ◌-◌, ◌<◌, ◌≤◌, ◌≡◌, ◌≢◌, ◌∙◌, ◌==◌, refl, arith, Bool, true,
  false, Option, none, some, Bool-cases, Option-cases, inl, inr, if◌then◌else◌, ltb,
}
use qboot.Memory.{Memory, ldl_p, lduw_p}
use qboot.Smbios.{skip_strings, header_at, smbios_next, need_t0}

-- The tables of an entry point.
abbrev pub first : Memory → ℕ → ℕ
first m ep = ldl_p m (ep + 24)

abbrev pub limit : Memory → ℕ → ℕ
limit m ep = first m ep + lduw_p m (ep + 22)

skip_strings-ge : (m : Memory) (ptr n : ℕ) → ptr ≤ skip_strings m ptr n
unfolding skip_strings
skip_strings-ge m ptr zero = omega arith
skip_strings-ge m ptr (suc n) = ground (arith, skip_strings-ge m (suc ptr) n)

header_at_inside :
    (m : Memory) (end ptr p : ℕ)
    → header_at m end ptr ≡ some p
    → (p ≡ ptr) × (p + 4 < end) × (p + m (p + 1) < end)
unfolding header_at
header_at_inside m end ptr p h = ground arith

unguarded : (c : Bool) {x : Option ℕ} {p : ℕ} → (if c then none else x) ≡ some p → x ≡ some p
unguarded c h = ground arith

-- What `smbios_next` returns for a structure is a later one, behind its formatted area, whose own
-- header and formatted area lie in the tables.
pub smbios_next_inside :
    (m : Memory) (ep hdr p : ℕ)
    → smbios_next m ep (some hdr) ≡ some p
    → (hdr + m (hdr + 1) + 2 ≤ p) × (p + 4 < limit m ep) × (p + m (p + 1) < limit m ep)
unfolding smbios_next
smbios_next_inside m ep hdr p h =
    let end = limit m ep in
    let ptr = hdr + m (hdr + 1) + 2 in
    let inside =
      header_at_inside m end (skip_strings m ptr (end - ptr)) p (unguarded (ltb end (hdr + 4)) h) in
    omega (arith, inside, skip_strings-ge m ptr (end - ptr))

first_inside :
    (m : Memory) (ep p : ℕ)
    → smbios_next m ep none ≡ some p
    → (p ≡ first m ep) × (p + 4 < limit m ep)
unfolding smbios_next
first_inside m ep p h = omega (arith, header_at_inside m (limit m ep) (first m ep) p h)

-- The structures that follow `hdr` in the chain; those that follow NULL are all.
pub data After (m : Memory) (ep : ℕ) : Option ℕ → ℕ → Type 0 where
  here : {hdr : Option ℕ} {p : ℕ} → smbios_next m ep hdr ≡ some p → After m ep hdr p
  later :
      {hdr : Option ℕ} {q p : ℕ}
      → smbios_next m ep hdr ≡ some q
      → After m ep (some q) p
      → After m ep hdr p

-- The meaning of the result: a type 0 table is needed when no structure has type 0.
pub data Answers (m : Memory) (ep : ℕ) (hdr : Option ℕ) : Bool → Type 0 where
  needed : ((p : ℕ) → After m ep hdr p → m p ≢ 0) → Answers m ep hdr true
  present : (p : ℕ) → After m ep hdr p → m p ≡ 0 → Answers m ep hdr false

none-After :
    {m : Memory} {ep p : ℕ} {hdr : Option ℕ} → smbios_next m ep hdr ≡ none → ¬ After m ep hdr p
none-After e (here h) = cc
none-After e (later h rest) = cc

some-injective : {a b : ℕ} → some a ≡ some b → a ≡ b
some-injective e = cc

same-After :
    {m : Memory} {ep p q : ℕ} {hdr : Option ℕ}
    → smbios_next m ep hdr ≡ some q
    → After m ep hdr p
    → (p ≡ q) ⊎ After m ep (some q) p
same-After e (here h) = inl cc
same-After {m} {ep} {p} e (later {q = r} h rest) =
    inr (subst (λ x. After m ep (some x) p) (some-injective (sym h ∙ e)) rest)

-- What one round makes of the answer for the next structure.
Answers-step :
    {m : Memory} {ep q : ℕ} {hdr : Option ℕ} {b : Bool}
    → smbios_next m ep hdr ≡ some q
    → m q ≢ 0
    → Answers m ep (some q) b
    → Answers m ep hdr b
Answers-step {m} {ep} {q} e h (needed all) = needed λ p a. elim (same-After e a) [
  | inl same ↦ subst (λ x. m x ≢ 0) (sym same) h
  | inr behind ↦ all p behind
]
Answers-step e h (present p a z) = present p (later e a) z

-- One round, given an answer for what follows.
need_t0_round :
    (f : ℕ) (m : Memory) (ep : ℕ) (hdr : Option ℕ)
    → ((q : ℕ)
        → smbios_next m ep hdr ≡ some q
        → (b : Bool) × (need_t0 f m ep (some q) ≡ some b) × Answers m ep (some q) b)
    → (b : Bool) × (need_t0 (suc f) m ep hdr ≡ some b) × Answers m ep hdr b
unfolding need_t0
need_t0_round f m ep hdr next = elim (Option-cases (smbios_next m ep hdr)) [
  | inl e ↦ (true, rw (need_t0, e) refl, needed λ p a. absurd (none-After e a))
  | inr (q, e) ↦ elim (Bool-cases (m q == 0)) [
    | inl z ↦ (false, rw (need_t0, e, z) refl, present q (here e) (ground arith))
    | inr nz ↦
        let (b, runs, answers) = next q e in
        (b, rw (need_t0, e, nz) runs, Answers-step e (ground arith) answers)
  ]
]

need_t0_from :
    (f : ℕ) (m : Memory) (ep hdr : ℕ)
    → hdr + 4 < limit m ep
    → limit m ep ≤ hdr + f
    → (b : Bool) × (need_t0 f m ep (some hdr) ≡ some b) × Answers m ep (some hdr) b
need_t0_from zero m ep hdr h k = absurd (omega arith)
need_t0_from (suc f) m ep hdr h k = need_t0_round f m ep (some hdr) λ q e.
    let inside = smbios_next_inside m ep hdr q e in
    need_t0_from f m ep q (omega (arith, inside)) (omega (arith, inside))

-- One round more than the tables have bytes is enough for the search, whatever the tables hold. It
-- says that a type 0 table is needed if no structure of the chain has type 0, and that none is
-- needed if one has.
pub need_t0-Answers :
    (m : Memory) (ep : ℕ)
    → (b : Bool) × (need_t0 (suc (lduw_p m (ep + 22))) m ep none ≡ some b) × Answers m ep none b
need_t0-Answers m ep = need_t0_round (lduw_p m (ep + 22)) m ep none λ q e.
    let inside = first_inside m ep q e in
    need_t0_from (lduw_p m (ep + 22)) m ep q (omega (arith, inside)) (omega (arith, inside))
