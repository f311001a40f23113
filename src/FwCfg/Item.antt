-- ===== src/FwCfg/Item.antt =====
-- The selectors of include/fw_cfg.h that the firmware reads.
use qboot.Base.{ℕ}

abbrev pub nb_cpus : ℕ
nb_cpus = 0x05

abbrev pub kernel_addr : ℕ
kernel_addr = 0x07

abbrev pub kernel_size : ℕ
kernel_size = 0x08

abbrev pub initrd_addr : ℕ
initrd_addr = 0x0a

abbrev pub initrd_size : ℕ
initrd_size = 0x0b

abbrev pub kernel_entry : ℕ
kernel_entry = 0x10

abbrev pub kernel_data : ℕ
kernel_data = 0x11

abbrev pub initrd_data : ℕ
initrd_data = 0x12

abbrev pub cmdline_size : ℕ
cmdline_size = 0x14

abbrev pub cmdline_data : ℕ
cmdline_data = 0x15

abbrev pub setup_addr : ℕ
setup_addr = 0x16

abbrev pub setup_size : ℕ
setup_size = 0x17

abbrev pub setup_data : ℕ
setup_data = 0x18

abbrev pub irq0_override : ℕ
irq0_override = 0x8002
