-- ===== src/Examples/Launch.antt =====
-- A boot of a bzImage whose setup code is longer than the part that is looked at first.
use qboot.Base.{ℕ, ◌/◌, ◌^◌, ◌<◌, ◌==◌, List, [], ◌∷◌, arith, refl, u8, leb, if◌then◌else◌, if_ind}
use qboot.Memory.{Memory, IsBytes}
use qboot.CString.Copy.{AllApart}
use qboot.Machine.{Machine, Boots}
use qboot.FwCfg.Item
use qboot.Boot.{boot_from_fwcfg}
use qboot.Boot.Entered.{IsEntered}
use qboot.Boot.Launched.{IsLaunched, last_arguments, bzimage_regions}
use qboot.Boot.BzimageBoot.{boot_from_fwcfg-IsLaunched}
use qboot.Examples.{machine, bytes, bytes-IsBytes}
use qboot.Examples.Device.{device, device-Serves, device-Continues}

-- The magic number, protocol 2.15, and the flag of a kernel that is loaded high.
abbrev version_bytes : List ℕ
version_bytes = 0x48 ∷ 0x64 ∷ 0x72 ∷ 0x53 ∷ 15 ∷ 2 ∷ 0 ∷ 0 ∷ 0 ∷ 0 ∷ 0 ∷ 0 ∷ 0 ∷ 0 ∷ 0 ∷ 1 ∷ []

abbrev limit_bytes : List ℕ
limit_bytes = 0xff ∷ 0xff ∷ 0xff ∷ 0x37 ∷ []

-- A header with 20 sectors of setup code.
abbrev header : Memory
header i =
    if i == 0x1f1
    then 20
    else if leb 0x22c i
    then bytes 0x22c limit_bytes i
    else bytes 0x202 version_bytes i

header-IsBytes : IsBytes header
header-IsBytes i =
    if_ind (λ v. v < 256) (i == 0x1f1) (λ _. omega arith)
      (λ _.
        if_ind (λ v. v < 256) (leb 0x22c i) (λ _. bytes-IsBytes 0x22c limit_bytes (ground arith) i)
          (λ _. bytes-IsBytes 0x202 version_bytes (ground arith) i))

abbrev value_of : ℕ → ℕ
value_of e =
    if e == Item.kernel_size
    then 0x1000
    else if e == Item.setup_size
    then 10752
    else if e == Item.setup_addr
    then 0x10000
    else if e == Item.cmdline_size
    then 64
    else if e == Item.initrd_size
    then 0x1000
    else e

abbrev bzimage_items : ℕ → ℕ → ℕ
bzimage_items e i = if e == Item.setup_data then header i else u8 (value_of e / 256 ^ i)

bzimage_items-bytes : (e i : ℕ) → bzimage_items e i < 256
bzimage_items-bytes e i =
    if_ind (λ v. v < 256) (e == Item.setup_data) (λ _. header-IsBytes i) (λ _. omega arith)

-- 128 MB of memory.
abbrev bzimage_machine : Machine
bzimage_machine =
    let m = machine 0 (λ _. 0) in
    record m {
      env = device bzimage_items 0xefe00;
      globals = record m.globals { version = 3; lowmem = 0x8000000 };
    }

bzimage-apart :
    AllApart (bzimage_regions bzimage_items 0xefe00 (last_arguments bzimage_items 0x8000000))
unfolding qboot.LinuxBoot.addresses qboot.LinuxBoot.initrd_limit qboot.LinuxBoot.initrd_place
    qboot.LinuxBoot.setup_sectors
bzimage-apart = ground arith

boot_from_fwcfg-IsLaunched_example :
    Boots
      (λ k t.
        IsEntered (last_arguments bzimage_items 0x8000000) k
        × IsLaunched bzimage_items (last_arguments bzimage_items 0x8000000) t.mem)
      (boot_from_fwcfg bzimage_machine)
unfolding qboot.LinuxBoot.addresses
boot_from_fwcfg-IsLaunched_example =
    boot_from_fwcfg-IsLaunched bzimage_items bzimage_machine
      (device-Serves bzimage_items 0xefe00 3 bzimage_items-bytes)
      (λ offers. device-Continues bzimage_items 0xefe00 Item.setup_data) (omega arith) (omega arith)
      refl bzimage-apart (omega arith) (omega arith) (omega arith) (omega arith)
