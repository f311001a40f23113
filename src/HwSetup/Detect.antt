-- ===== src/HwSetup/Detect.antt =====
-- The identification of the host bridge.
use qboot.Base.{ℕ, ◌∷◌, u32}
use qboot.Machine.{Machine, out, inp, long}
use qboot.PciConfig.{config_address}

-- What the host bridge's vendor and device register reads in state `s`, and the state after the
-- read.
abbrev pub id_read : Machine → Machine
id_read s = record s { io = inp long 0xcfc ∷ out long 0xcf8 (u32 (config_address 0 0)) ∷ s.io }

abbrev pub host_id : Machine → ℕ
host_id s = u32 (s.env.input (id_read s).io)
