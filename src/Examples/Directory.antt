-- ===== src/Examples/Directory.antt =====
-- A directory that fw_cfg_setup reads.
use qboot.Base.Bswap.{bswap16, bswap32}
use qboot.Base.{inr, ℕ, arith, List, [], ◌∷◌, ◌==◌, if◌then◌else◌, if_ind}
use qboot.Base.Text.{codes}
use qboot.Memory.{Memory, IsBytes}
use qboot.FwCfg.{fw_cfg_setup}
use qboot.FwCfg.Directory.{IsDirectory, fw_cfg_setup-IsDirectory}
use qboot.Machine.{Machine, Returns}
use qboot.Examples.{machine, bytes, bytes-IsBytes}
use qboot.Examples.Device.{device, device-ServesPort, device-directory}

-- The device has version 3, with both interfaces, and a directory of one file of 20 bytes.
abbrev version_bytes : List ℕ
version_bytes = 3 ∷ 0 ∷ 0 ∷ 0 ∷ []

abbrev directory_bytes : List ℕ
directory_bytes = 0 ∷ 0 ∷ 0 ∷ 1 ∷ 0 ∷ 0 ∷ 0 ∷ 20 ∷ 0 ∷ 0x20 ∷ 0 ∷ 0 ∷ codes "etc/e820"

abbrev start_items : ℕ → Memory
start_items e = if e == 0x19 then bytes 0 directory_bytes else bytes 0 version_bytes

start_items-IsBytes : (e : ℕ) → IsBytes (start_items e)
start_items-IsBytes e =
    if_ind IsBytes (e == 0x19) (λ _. bytes-IsBytes 0 directory_bytes (ground arith))
      (λ _. bytes-IsBytes 0 version_bytes (ground arith))

abbrev at_reset : Machine
at_reset = record (machine 0 (λ _. 0)) { env = device start_items 0xefe00 }

fw_cfg_setup-IsDirectory_example :
    Returns (λ _ t. IsDirectory start_items 0xf8000 t) (fw_cfg_setup at_reset)
unfolding qboot.Malloc.up bswap32 bswap16
fw_cfg_setup-IsDirectory_example =
    fw_cfg_setup-IsDirectory start_items at_reset
      (λ e _. device-ServesPort start_items 0xefe00 e (start_items-IsBytes e))
      (λ offers h. device-directory start_items 0xefe00 0x19 h) (omega arith) (omega arith)
      (inr (omega arith))
