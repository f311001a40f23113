-- ===== src/PciConfig.antt =====
-- include/pci.h: configuration space through the address port 0xcf8 and the data ports 0xcfc to
-- 0xcff. A caller's `bdf` is cut to 16 bits by the parameter's type.
pub mod Address
use qboot.Base.{ℕ, bit_and, bit_or, u8, u16, u32, ◌<<◌}
use qboot.Machine.{Fw, ◌>>=◌, ◌>>◌}
use qboot.Machine.Ports.{outb, outw, outl, inb, inw, inl}

-- What is written to port 0xcf8.
unfoldable pub config_address : ℕ → ℕ → ℕ
config_address bdf addr = bit_or (bit_or 0x80000000 (u16 bdf << 8)) (bit_and addr 0xfc)

-- The data port of a 16-bit and of an 8-bit access.
unfoldable pub word_port : ℕ → ℕ
word_port addr = bit_or 0xcfc (bit_and addr 2)

unfoldable pub byte_port : ℕ → ℕ
byte_port addr = bit_or 0xcfc (bit_and addr 3)

unfoldable pub pci_config_writel : ℕ → ℕ → ℕ → Fw (Unit {0})
pci_config_writel bdf addr val = do outl 0xcf8 (config_address bdf addr); outl 0xcfc val

unfoldable pub pci_config_writew : ℕ → ℕ → ℕ → Fw (Unit {0})
pci_config_writew bdf addr val = do outl 0xcf8 (config_address bdf addr); outw (word_port addr) val

unfoldable pub pci_config_writeb : ℕ → ℕ → ℕ → Fw (Unit {0})
pci_config_writeb bdf addr val = do outl 0xcf8 (config_address bdf addr); outb (byte_port addr) val

unfoldable pub pci_config_readl : ℕ → ℕ → Fw ℕ
pci_config_readl bdf addr = do outl 0xcf8 (config_address bdf addr); inl 0xcfc

unfoldable pub pci_config_readw : ℕ → ℕ → Fw ℕ
pci_config_readw bdf addr = do outl 0xcf8 (config_address bdf addr); inw (word_port addr)

unfoldable pub pci_config_readb : ℕ → ℕ → Fw ℕ
pci_config_readb bdf addr = do outl 0xcf8 (config_address bdf addr); inb (byte_port addr)

-- The 32-bit vendor and device ids that the code compares with.
abbrev pub i440fx_id : ℕ
i440fx_id = 0x12378086

abbrev pub q35_id : ℕ
q35_id = 0x29c08086

abbrev pub pcie_mmconfig_base : ℕ
pcie_mmconfig_base = 0xb0000000

abbrev pub pcie_mmconfig_size : ℕ
pcie_mmconfig_size = 0x10000000
