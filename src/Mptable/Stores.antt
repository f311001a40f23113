-- ===== src/Mptable/Stores.antt =====
-- Which bytes the stores of an entry touch.
use qboot.Base.{◌&&◌, if◌then◌else◌, ◌==◌, ℕ, ◌<◌, arith, Bool}
use qboot.Memory.{Memory}
use qboot.Memory.Changed.{Changed, Changed-if, changes}
use qboot.Mptable.{mpc_bus, mpc_ioapic, mpc_lintsrc, mpc_cpu, mpf_intel, mpc_table, mpc_intsrc}

-- The stores of each structure stay inside of it.
pub mpf_intel-Changed : (p : ℕ) (m : Memory) → Changed p 16 m (mpf_intel p m)
unfolding mpf_intel
mpf_intel-Changed p m = search changes

pub mpc_table-Changed : (p : ℕ) (m : Memory) → Changed p 44 m (mpc_table p m)
unfolding mpc_table
mpc_table-Changed p m = search changes

pub mpc_cpu-Changed :
    (i stepping features p : ℕ) (m : Memory) → Changed p 20 m (mpc_cpu i stepping features p m)
unfolding mpc_cpu
mpc_cpu-Changed i stepping features p m =
    let flag : (if i == 0 then 3 else 1) < 256 = ground arith in search (flag, changes)

pub mpc_bus-Changed : (p : ℕ) (m : Memory) → Changed p 8 m (mpc_bus p m)
unfolding mpc_bus
mpc_bus-Changed p m = search changes

pub mpc_ioapic-Changed : (n p : ℕ) (m : Memory) → Changed p 8 m (mpc_ioapic n p m)
unfolding mpc_ioapic
mpc_ioapic-Changed n p m = search changes

pub mpc_intsrc-Changed :
    (n : ℕ) (override : Bool) (i p : ℕ) (m : Memory) → Changed p 8 m (mpc_intsrc n override i p m)
unfolding mpc_intsrc
mpc_intsrc-Changed n override i p m =
    Changed-if (override && i == 0) (search changes) (search changes)

pub mpc_lintsrc-Changed :
    (irqtype destapic destapiclint p : ℕ) (m g : Memory)
    → irqtype < 256
    → destapic < 256
    → destapiclint < 256
    → Changed p 8 m g
    → Changed p 8 m (mpc_lintsrc irqtype destapic destapiclint p g)
unfolding mpc_lintsrc
mpc_lintsrc-Changed irqtype destapic destapiclint p m g h k l c = search (c, changes)
