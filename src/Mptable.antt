-- ===== src/Mptable.antt =====
-- mptable.c: the MP table, with the structures of include/mpspec_def.h.
pub mod Stores
pub mod Checksum
pub mod Sums
use qboot.Base.Text.{codes}
use qboot.Base.{
  ℕ, zero, suc, ◌+◌, ◌-◌, ◌^◌, ◌%◌, Bool, ◌&&◌, ◌||◌, ◌==◌, ◌!=◌, ltb, if◌then◌else◌, u8, u16, u32,
}
use qboot.Memory.{Memory, st8, stw_p, stl_p, memset, st_bytes}
use qboot.Machine.{Fw, ok, pure, ◌>>=◌, ◌>>◌, load, store}
use qboot.FwCfg.{fw_cfg_select, fw_cfg_readl_le}
use qboot.FwCfg.Item.{nb_cpus, irq0_override}

abbrev pub mptable_start : ℕ
mptable_start = 0x9fc00

-- `char` is signed: from 128 on, the addend is the byte minus 256. `int` is kept modulo 2^32.
abbrev pub char_addend : ℕ → ℕ
char_addend b = if ltb b 128 then b else b + 2 ^ 32 - 256

unfoldable pub mptable_loop : Memory → ℕ → ℕ → ℕ → ℕ
mptable_loop m buf zero sum = sum
mptable_loop m buf (suc n) sum = mptable_loop m (suc buf) n (u32 (sum + char_addend (m buf)))

unfoldable pub mptable_checksum : Memory → (buf size : ℕ) → ℕ
unfolding mptable_loop
mptable_checksum m buf size = mptable_loop m buf size 0

-- `struct mpf_intel` at `p`, but for its checksum.
unfoldable pub mpf_intel : ℕ → Memory → Memory
mpf_intel p m =
    let m1 = st_bytes (memset m p 0 16) p (codes "_MP_") in
    stl_p (st8 (st8 m1 (p + 8) 1) (p + 9) 4) (p + 4) (mptable_start + 16)

-- A checksum field that loses `sum`, modulo 256.
unfoldable pub subtract : (p sum : ℕ) → Memory → Memory
subtract p sum m = st8 m p (u8 (m p + 2 ^ 32 - sum))

unfoldable pub store_mpf : Memory → Memory
unfolding mpf_intel subtract mptable_checksum
store_mpf m =
    let m1 = mpf_intel mptable_start m in
    subtract (mptable_start + 10) (mptable_checksum m1 mptable_start 16) m1

-- `struct mpc_table` at `p`, but for its length and its checksum.
unfoldable pub mpc_table : ℕ → Memory → Memory
mpc_table p m =
    let m1 = st_bytes (memset m p 0 44) p (codes "PCMP") in
    let m2 = st_bytes (st8 m1 (p + 6) 4) (p + 8) (codes "QBOOT   ") in
    stl_p (st_bytes m2 (p + 16) (codes "000000000000")) (p + 36) 0xfee00000

-- The entries.
unfoldable pub mpc_cpu : (i stepping features : ℕ) → ℕ → Memory → Memory
mpc_cpu i stepping features p m =
    let m1 = st8 (st8 (memset m p 0 20) p 0) (p + 1) (u8 i) in
    let m2 = st8 (st8 m1 (p + 2) 0x14) (p + 3) (if i == 0 then 3 else 1) in
    stl_p (stl_p m2 (p + 4) stepping) (p + 8) features

unfoldable pub mpc_bus : ℕ → Memory → Memory
mpc_bus p m = st_bytes (st8 (st8 (memset m p 0 8) p 1) (p + 1) 0) (p + 2) (codes "ISA   ")

unfoldable pub mpc_ioapic : (num_cpus : ℕ) → ℕ → Memory → Memory
mpc_ioapic num_cpus p m =
    let m1 = st8 (st8 (memset m p 0 8) p 2) (p + 1) (u8 (num_cpus + 1)) in
    stl_p (st8 (st8 m1 (p + 2) 0x14) (p + 3) 1) (p + 4) 0xfec00000

-- Interrupt 0 goes to line 2 of the I/O APIC if it is overridden.
unfoldable pub mpc_intsrc : (num_cpus : ℕ) → (override : Bool) → (i : ℕ) → ℕ → Memory → Memory
mpc_intsrc num_cpus override i p m =
    let m1 = st8 (st8 (memset m p 0 8) p 3) (p + 1) 0 in
    let m2 = st8 (st8 (stw_p m1 (p + 2) 0) (p + 4) 0) (p + 5) (u8 i) in
    let m3 = st8 (st8 m2 (p + 6) (u8 (num_cpus + 1))) (p + 7) (u8 i) in
    if override && i == 0 then st8 m3 (p + 7) 2 else m3

-- The assignments to the eight bytes of a `struct mpc_lintsrc`.
unfoldable pub mpc_lintsrc : (irqtype destapic destapiclint : ℕ) → ℕ → Memory → Memory
mpc_lintsrc irqtype destapic destapiclint p m =
    let m1 = stw_p (st8 (st8 m p 4) (p + 1) irqtype) (p + 2) 0 in
    st8 (st8 (st8 (st8 m1 (p + 4) 0) (p + 5) 0) (p + 6) destapic) (p + 7) destapiclint

-- The memory and the locals `offset` and `checksum`.
pub record Build : Type 0 where
  pub mem : Memory
  pub offset : ℕ
  pub checksum : ℕ

-- One entry: its stores, its part of the checksum, and the step behind it.
unfoldable pub put : (size : ℕ) → (ℕ → Memory → Memory) → Build → Build
unfolding mptable_checksum
put size entry b =
    let p = mptable_start + b.offset in
    let m = entry p b.mem in
    record {
      mem = m;
      offset = b.offset + size;
      checksum = u32 (b.checksum + mptable_checksum m p size);
    }

unfoldable pub cpu_loop : (stepping features : ℕ) → ℕ → ℕ → Build → Build
unfolding put mpc_cpu
cpu_loop stepping features zero i b = b
cpu_loop stepping features (suc n) i b =
    cpu_loop stepping features n (i + 1) (put 20 (mpc_cpu i stepping features) b)

-- With an override the entry for interrupt 2 is stored, but the next one takes its place.
unfoldable pub intsrc_loop : (num_cpus : ℕ) → (override : Bool) → ℕ → ℕ → Build → Build
unfolding put mpc_intsrc
intsrc_loop num_cpus override zero i b = b
intsrc_loop num_cpus override (suc n) i b =
    let entry = mpc_intsrc num_cpus override i in
    let skipped = record b { mem = entry (mptable_start + b.offset) b.mem } in
    intsrc_loop num_cpus override n (i + 1) (if override && i == 2 then skipped else put 8 entry b)

-- The number of rounds of `for (i = 0; i < num_cpus; i++)`, with `int` operands.
abbrev pub cpu_rounds : ℕ → ℕ
cpu_rounds num_cpus = if ltb num_cpus 0x80000000 then num_cpus else 0

-- The processors, the bus and the I/O APIC, behind the two headers.
unfoldable pub first_entries : (num_cpus stepping features : ℕ) → Memory → Build
unfolding cpu_loop mpc_bus mpc_ioapic put
first_entries num_cpus stepping features m =
    let b0 : Build = record { mem = m; offset = 60; checksum = 0 } in
    let b1 = cpu_loop stepping features (cpu_rounds num_cpus) 0 b0 in
    put 8 (mpc_ioapic num_cpus) (put 8 mpc_bus b1)

-- The interrupts.
unfoldable pub last_entries : (num_cpus : ℕ) → (override : Bool) → Build → Build
unfolding intsrc_loop put mpc_lintsrc
last_entries num_cpus override b =
    let b1 = intsrc_loop num_cpus override 16 0 b in
    let b2 = put 8 (λ p m. mpc_lintsrc 3 0 0 p (memset m p 0 8)) b1 in
    put 8 (mpc_lintsrc 1 0xff 1) b2

-- The length and the checksum of the table.
unfoldable pub finish : Build → Memory
unfolding subtract mptable_checksum
finish b =
    let table = mptable_start + 16 in
    let m = stw_p b.mem (table + 4) (u16 (b.offset - 16)) in
    subtract (table + 7) (u32 (b.checksum + mptable_checksum m table 44)) m

unfoldable pub setup_mptable : Fw (Unit {0})
unfolding store_mpf mpc_table first_entries last_entries finish fw_cfg_select fw_cfg_readl_le
setup_mptable = do
  store store_mpf
  store (mpc_table (mptable_start + 16))
  fw_cfg_select nb_cpus
  num_cpus ← fw_cfg_readl_le
  stepping ← λ s. ok s.env.cpuid_eax s
  features ← λ s. ok s.env.cpuid_edx s
  m ← load (λ m. m)
  let b = first_entries num_cpus stepping features m
  store (λ _. b.mem)
  fw_cfg_select irq0_override
  override ← fw_cfg_readl_le
  let last = last_entries num_cpus (override != 0) b
  store (λ _. finish last)
