-- ===== src/Mptable/Sums.antt =====
-- setup_mptable: the sums of the floating pointer and of the table.
use qboot.Base.{
  ℕ, ◌+◌, ◌-◌, ◌*◌, ◌%◌, ◌^◌, ◌<◌, ◌≤◌, ◌≡◌, ◌∙◌, refl, arith, Bool, u8, u16, u32, inl, inr, ap,
  ◌!=◌,
}
use qboot.Memory.{Memory, IsBytes, sum_at, stw_p, lduw_p, memset}
use qboot.Memory.Frame.{
  sum_at-agree, sum_at-append, st8-ne, stw_p-Outside, stw_p-IsBytes, lduw_p-agree, lduw_p-stw_p,
}
use qboot.FwCfg.{join_le, fw_cfg_readl_le, fw_cfg_select}
use qboot.FwCfg.Item.{nb_cpus, irq0_override}
use qboot.FwCfg.Words.{byte_read, after_reads, little}
use qboot.Memory.Frame.{st8-IsBytes}
use qboot.Base.{◌∷◌}
use qboot.Machine.{out, word, Machine, Returns}
use qboot.Mptable.{
  cpu_loop, intsrc_loop, mptable_start, mptable_checksum, Build, put, cpu_rounds, mpc_table,
  mpc_bus, mpc_ioapic, mpc_lintsrc, first_entries, last_entries, finish, store_mpf, subtract,
  mpf_intel, setup_mptable,
}
use qboot.Memory.Changed.{Changed-memset, Changed-refl}
use qboot.Mptable.Stores.{
  mpf_intel-Changed, mpc_table-Changed, mpc_bus-Changed, mpc_ioapic-Changed, mpc_lintsrc-Changed,
}
use qboot.Mptable.Checksum.{
  IsBuilt, put-IsBuilt, cpu_loop-IsBuilt, intsrc_loop-IsBuilt, mptable_checksum-sum,
  mptable_checksum-lt, subtract-sum, entries_start,
}

first_entries-IsBuilt :
    (n stepping features : ℕ) (h : Memory)
    → IsBytes h
    → n < 3000
    → (j : ℕ) × (j < 60020) × IsBuilt h j (first_entries n stepping features h)
unfolding first_entries
first_entries-IsBuilt n stepping features h b small =
    let b0 : Build = record { mem = h; offset = 60; checksum = 0 } in
    let start : IsBuilt h 0 b0 = record {
      offset = refl;
      sum = refl;
      bytes = b;
      headers = λ a l. refl;
    } in
    let (j, low, cpus) = cpu_loop-IsBuilt stepping features (cpu_rounds n) 0 b0 start in
    let b1 = cpu_loop stepping features (cpu_rounds n) 0 b0 in
    let b2 = put 8 mpc_bus b1 in
    let bus = put-IsBuilt 8 mpc_bus (mpc_bus-Changed (mptable_start + b1.offset) b1.mem) cpus in
    let rounds : cpu_rounds n ≤ n = ground arith in
    (
      j + 8 + 8,
      omega arith,
      put-IsBuilt 8 (mpc_ioapic n) (mpc_ioapic-Changed n (mptable_start + b2.offset) b2.mem) bus,
    )

last_entries-IsBuilt :
    (n : ℕ) (override : Bool) (h : Memory) (k : ℕ) (b : Build)
    → IsBuilt h k b
    → (j : ℕ) × (j ≤ k + 144) × IsBuilt h j (last_entries n override b)
unfolding last_entries
last_entries-IsBuilt n override h k b built =
    let (j, low, ints) = intsrc_loop-IsBuilt n override 16 0 b built in
    let b1 = intsrc_loop n override 16 0 b in
    let first = λ (p : ℕ) (m : Memory). mpc_lintsrc 3 0 0 p (memset m p 0 8) in
    let p1 = mptable_start + b1.offset in
    let c1 =
      mpc_lintsrc-Changed 3 0 0 p1 b1.mem (memset b1.mem p1 0 8) (omega arith) (omega arith)
        (omega arith) (Changed-memset p1 0 8 (omega arith) (omega arith) (Changed-refl b1.mem)) in
    let b2 = put 8 first b1 in
    let c2 =
      mpc_lintsrc-Changed 1 0xff 1 (mptable_start + b2.offset) b2.mem b2.mem (omega arith)
        (omega arith) (omega arith) (Changed-refl b2.mem) in
    (j + 8 + 8, omega arith, put-IsBuilt 8 (mpc_lintsrc 1 0xff 1) c2 (put-IsBuilt 8 first c1 ints))

mpf-sum : (m : Memory) → IsBytes m → sum_at (store_mpf m) mptable_start 16 % 256 ≡ 0
unfolding store_mpf
mpf-sum m b =
    let m1 = mpf_intel mptable_start m in
    let b1 = (mpf_intel-Changed mptable_start m).bytes b in
    subtract-sum m1 mptable_start 16 (mptable_start + 10) (mptable_checksum m1 mptable_start 16) b1
      (omega arith) (omega arith) (mptable_checksum-lt m1 mptable_start 16)
      (mptable_checksum-sum m1 mptable_start 16 b1)

-- The length field, and the sum of that many bytes.
finish-sum :
    (h : Memory) (k : ℕ) (b : Build)
    → IsBuilt h k b
    → k < 65000
    → let table = mptable_start + 16 in
      sum_at (finish b) table (lduw_p (finish b) (table + 4)) % 256 ≡ 0
unfolding finish subtract
finish-sum h k b built small =
    let table = mptable_start + 16 in
    let m = stw_p b.mem (table + 4) (u16 (b.offset - 16)) in
    let bytes = stw_p-IsBytes b.mem (table + 4) (u16 (b.offset - 16)) built.bytes in
    let sum = u32 (b.checksum + mptable_checksum m table 44) in
    let g = subtract (table + 7) sum m in
    let len : lduw_p g (table + 4) ≡ 44 + k =
      lduw_p-agree m g (table + 4)
        (λ a i l. st8-ne m (table + 7) (u8 (m (table + 7) + 2 ^ 32 - sum)) a (omega arith))
      ∙ lduw_p-stw_p b.mem (table + 4) (u16 (b.offset - 16)) (omega arith)
      ∙ omega (arith, built.offset) in
    let total : sum % 256 ≡ sum_at m table (44 + k) % 256 = omega (
      arith,
      mptable_checksum-sum m table 44 bytes,
      sum_at-append m table 44 k,
      built.sum,
      sum_at-agree m b.mem entries_start k
          (λ a i _. stw_p-Outside b.mem (table + 4) (u16 (b.offset - 16)) a (inr (omega arith))),
    ) in
    rw len (
      subtract-sum m table (44 + k) (table + 7) sum bytes (omega arith) (omega arith) (omega arith)
        total)

-- The table that the steps of `setup_mptable` leave, for the values they read.
abbrev built_table : (n stepping features : ℕ) → (override : Bool) → Memory → Memory
built_table n stepping features override m = finish (
    last_entries n override
      (first_entries n stepping features (mpc_table (mptable_start + 16) (store_mpf m))))

-- The floating pointer of 16 bytes, and the table of as many bytes as its length field says, add
-- up to 0 modulo 256.
abbrev pub IsSummed : Memory → Type 0
IsSummed m =
    let table = mptable_start + 16 in
    (sum_at m mptable_start 16 % 256 ≡ 0) × (sum_at m table (lduw_p m (table + 4)) % 256 ≡ 0)

pub store_mpf-IsBytes : (m : Memory) → IsBytes m → IsBytes (store_mpf m)
unfolding store_mpf subtract
store_mpf-IsBytes m b =
    let m1 = mpf_intel mptable_start m in
    st8-IsBytes m1 (mptable_start + 10)
      (u8 (m1 (mptable_start + 10) + 2 ^ 32 - mptable_checksum m1 mptable_start 16)) (omega arith)
      ((mpf_intel-Changed mptable_start m).bytes b)

finish-below : (b : Build) (a : ℕ) → a < mptable_start + 16 → finish b a ≡ b.mem a
unfolding finish subtract
finish-below b a h =
    let table = mptable_start + 16 in
    let m = stw_p b.mem (table + 4) (u16 (b.offset - 16)) in
    st8-ne m (table + 7)
      (u8 (m (table + 7) + 2 ^ 32 - u32 (b.checksum + mptable_checksum m table 44))) a (omega arith)
    ∙ stw_p-Outside b.mem (table + 4) (u16 (b.offset - 16)) a (inl (omega arith))

built_table-IsSummed :
    (n stepping features : ℕ) (override : Bool) (m : Memory)
    → IsBytes m
    → n < 3000
    → IsSummed (built_table n stepping features override m)
built_table-IsSummed n stepping features override m b small =
    let table = mptable_start + 16 in
    let m1 = store_mpf m in
    let b1 = store_mpf-IsBytes m b in
    let h = mpc_table table m1 in
    let header = mpc_table-Changed table m1 in
    let (j, low, first) = first_entries-IsBuilt n stepping features h (header.bytes b1) small in
    let (k, low', last) =
      last_entries-IsBuilt n override h j (first_entries n stepping features h) first in
    let built = last_entries n override (first_entries n stepping features h) in
    (
      ap (λ (t : ℕ). t % 256)
            (sum_at-agree (finish built) m1 mptable_start 16 (λ a _ l.
              finish-below built a l ∙ last.headers a (omega arith) ∙ header.outside a (inl l)))
          ∙ mpf-sum m b,
      finish-sum h k built last (omega arith),
    )

-- The number of processors that the configuration device reports.
abbrev word_read : Machine → ℕ
word_read s = byte_read 1 s + 256 * byte_read 2 s + 65536 * byte_read 3 s + 16777216 * byte_read 4 s

abbrev joined : Machine → ℕ
joined s =
    join_le 24 (join_le 16 (join_le 8 (byte_read 1 s) (byte_read 2 s)) (byte_read 3 s))
      (byte_read 4 s)

joined_lem : (s : Machine) → joined s ≡ word_read s
joined_lem s =
    little (byte_read 1 s) (byte_read 2 s) (byte_read 3 s) (byte_read 4 s) (omega arith)
      (omega arith) (omega arith) (omega arith)

abbrev selected : ℕ → Machine → Machine
selected f s = record s { io = out word 0x510 f ∷ s.io }

abbrev pub cpus_reported : Machine → ℕ
cpus_reported s = word_read (selected nb_cpus s)

-- In a memory of bytes, and for fewer than 3000 reported processors, `setup_mptable` returns, and
-- the floating pointer and the table that it leaves both add up to 0 modulo 256, with and without
-- the override of interrupt 0.
pub setup_mptable-IsSummed :
    (s : Machine)
    → IsBytes s.mem
    → cpus_reported s < 3000
    → Returns (λ _ t. IsSummed t.mem) (setup_mptable s)
unfolding setup_mptable fw_cfg_select fw_cfg_readl_le
setup_mptable-IsSummed s b small =
    let s1 = selected nb_cpus s in
    let s2 = selected irq0_override (after_reads 4 s1) in
    built_table-IsSummed (joined s1) s.env.cpuid_eax s.env.cpuid_edx (joined s2 != 0) s.mem b
      (omega (arith, joined_lem s1))
