-- ===== src/Mptable/Checksum.antt =====
-- The two checksums of the MP table.
use qboot.Base.{
  ℕ, zero, suc, ◌+◌, ◌-◌, ◌%◌, ◌^◌, ◌<◌, ◌≤◌, ◌≡◌, ◌∙◌, arith, Bool, if◌then◌else◌, ltb, ◌==◌, ◌&&◌,
  u8, u32, inl, inr, ap,
}
use qboot.Memory.{Memory, IsBytes, sum_at}
use qboot.Memory.Frame.{sum_at-agree, sum_at-append, sum_at-st8}
use qboot.Mptable.{
  mptable_start, mptable_loop, mptable_checksum, Build, put, cpu_loop, intsrc_loop, subtract,
}
use qboot.Base.{Bool-cases, ◌*◌}
use qboot.Mptable.{char_addend, mpc_cpu, mpc_intsrc}
use qboot.Memory.Changed.{Changed}
use qboot.Mptable.Stores.{mpc_cpu-Changed, mpc_intsrc-Changed}

-- The sum of signed characters is the sum of the bytes, modulo 256.
mptable_loop-sum :
    (m : Memory) (buf n sum : ℕ)
    → IsBytes m
    → mptable_loop m buf n sum % 256 ≡ (sum + sum_at m buf n) % 256
unfolding mptable_loop
mptable_loop-sum m buf zero sum b = omega arith
mptable_loop-sum m buf (suc n) sum b = ground (
  arith,
  mptable_loop-sum m (suc buf) n
      (u32 (sum + (if ltb (m buf) 128 then m buf else m buf + 2 ^ 32 - 256))) b,
  b buf,
)

pub mptable_checksum-sum :
    (m : Memory) (buf n : ℕ) → IsBytes m → mptable_checksum m buf n % 256 ≡ sum_at m buf n % 256
unfolding mptable_checksum
mptable_checksum-sum m buf n b = omega (arith, mptable_loop-sum m buf n 0 b)

mptable_loop-lt : (m : Memory) (buf n sum : ℕ) → sum < 2 ^ 32 → mptable_loop m buf n sum < 2 ^ 32
unfolding mptable_loop
mptable_loop-lt m buf zero sum h = h
mptable_loop-lt m buf (suc n) sum h =
    mptable_loop-lt m (suc buf) n (u32 (sum + char_addend (m buf))) (omega arith)

pub mptable_checksum-lt : (m : Memory) (buf n : ℕ) → mptable_checksum m buf n < 2 ^ 32
unfolding mptable_checksum
mptable_checksum-lt m buf n = mptable_loop-lt m buf n 0 (omega arith)

-- A field that loses the sum of its structure, itself included, makes the sum 0.
pub subtract-sum :
    (m : Memory) (p n q sum : ℕ)
    → IsBytes m
    → p ≤ q
    → q < p + n
    → sum < 2 ^ 32
    → sum % 256 ≡ sum_at m p n % 256
    → sum_at (subtract q sum m) p n % 256 ≡ 0
unfolding subtract
subtract-sum m p n q sum b h k l e =
    omega (arith, sum_at-st8 m p n q (u8 (m q + 2 ^ 32 - sum)) h k, b q)

-- The first entry.
abbrev pub entries_start : ℕ
entries_start = mptable_start + 60

-- `k` bytes of entries have been built behind the headers of `h`, and the running checksum is
-- their sum.
pub record IsBuilt (h : Memory) (k : ℕ) (b : Build) : Type 0 where
  pub offset : b.offset ≡ 60 + k
  pub sum : b.checksum % 256 ≡ sum_at b.mem entries_start k % 256
  pub bytes : IsBytes b.mem
  pub headers : (a : ℕ) → a < entries_start → b.mem a ≡ h a

module _ {h : Memory} {k : ℕ} {b : Build} where
  -- The entries that are there are kept.
  kept-sum :
      {size : ℕ} {g : Memory}
      → Changed (mptable_start + b.offset) size b.mem g
      → IsBuilt h k b
      → sum_at g entries_start k ≡ sum_at b.mem entries_start k
  kept-sum {size} {g} c built =
      sum_at-agree g b.mem entries_start k
        (λ a i l. c.outside a (inl (omega (arith, built.offset))))

  next-place : IsBuilt h k b → mptable_start + b.offset ≡ entries_start + k
  next-place built = omega (arith, built.offset)

  -- An entry that is stored and not counted changes nothing of this.
  pub skip-IsBuilt :
      (g : Memory)
      → Changed (mptable_start + b.offset) 8 b.mem g
      → IsBuilt h k b
      → IsBuilt h k (record b { mem = g })
  skip-IsBuilt g c built = record {
    offset = built.offset;
    sum = built.sum ∙ omega (arith, kept-sum c built);
    bytes = c.bytes built.bytes;
    headers = λ a l. c.outside a (inl (omega (arith, built.offset))) ∙ built.headers a l;
  }

  pub put-IsBuilt :
      (size : ℕ) (entry : ℕ → Memory → Memory)
      → Changed (mptable_start + b.offset) size b.mem (entry (mptable_start + b.offset) b.mem)
      → IsBuilt h k b
      → IsBuilt h (k + size) (put size entry b)
  unfolding put
  put-IsBuilt size entry c built = record {
    offset = omega (arith, built.offset);
    sum = omega (
      arith,
      built.sum,
      kept-sum c built,
      sum_at-append (entry (mptable_start + b.offset) b.mem) entries_start k size,
      ap (λ (q : ℕ). sum_at (entry (mptable_start + b.offset) b.mem) q size) (next-place built),
      mptable_checksum-sum (entry (mptable_start + b.offset) b.mem) (mptable_start + b.offset) size
          (c.bytes built.bytes),
    );
    bytes = c.bytes built.bytes;
    headers = λ a l. c.outside a (inl (omega (arith, built.offset))) ∙ built.headers a l;
  }

pub cpu_loop-IsBuilt :
    (stepping features n i : ℕ) {h : Memory} {k : ℕ} (b : Build)
    → IsBuilt h k b
    → (j : ℕ) × (j ≤ k + 20 * n) × IsBuilt h j (cpu_loop stepping features n i b)
unfolding cpu_loop
cpu_loop-IsBuilt stepping features zero i {h} {k} b built = (k, omega arith, built)
cpu_loop-IsBuilt stepping features (suc n) i b built =
    let entry = mpc_cpu i stepping features in
    let p = mptable_start + b.offset in
    let (j, low, rest) =
      cpu_loop-IsBuilt stepping features n (i + 1) (put 20 entry b)
        (put-IsBuilt 20 entry (mpc_cpu-Changed i stepping features p b.mem) built) in
    (j, omega arith, rest)

pub intsrc_loop-IsBuilt :
    (num_cpus : ℕ) (override : Bool) (n i : ℕ) {h : Memory} {k : ℕ} (b : Build)
    → IsBuilt h k b
    → (j : ℕ) × (j ≤ k + 8 * n) × IsBuilt h j (intsrc_loop num_cpus override n i b)
unfolding intsrc_loop
intsrc_loop-IsBuilt num_cpus override zero i {h} {k} b built = (k, omega arith, built)
intsrc_loop-IsBuilt num_cpus override (suc n) i b built =
    let entry = mpc_intsrc num_cpus override i in
    let p = mptable_start + b.offset in
    let c = mpc_intsrc-Changed num_cpus override i p b.mem in
    elim (Bool-cases (override && i == 2)) [
      | inl e ↦
          let skipped = record b { mem = entry p b.mem } in
          let (j, low, rest) =
            intsrc_loop-IsBuilt num_cpus override n (i + 1) skipped
              (skip-IsBuilt (entry p b.mem) c built) in
          rw e (j, omega arith, rest)
      | inr e ↦
          let (j, low, rest) =
            intsrc_loop-IsBuilt num_cpus override n (i + 1) (put 8 entry b)
              (put-IsBuilt 8 entry c built) in
          rw e (j, omega arith, rest)
    ]
