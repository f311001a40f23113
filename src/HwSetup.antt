-- ===== src/HwSetup.antt =====
-- hwsetup.c: chipset detection, interrupt routing, shadow memory and the interrupt controllers.
pub mod Detect
pub mod Shadow
use qboot.Base.{
  ℕ, zero, suc, ◌+◌, ◌-◌, Bool, true, false, bit_or, u8, u32, ◌<<◌, ◌>>>◌, ◌==◌, if◌then◌else◌,
  not32,
}
use qboot.Memory.{st8, memcpy}
use qboot.Machine.{Machine, Fw, ok, pure, ◌>>=◌, ◌>>◌, when, symbol, load, store}
use qboot.Machine.Ports.{outb}
use qboot.PciConfig.{
  pci_config_writel, pci_config_writeb, pci_config_readl, i440fx_id, q35_id, pcie_mmconfig_base,
}

-- `bdf` of the PIIX3 function, its power management function and the ICH9 function.
abbrev pub piix_bdf : ℕ
piix_bdf = 8

abbrev pub piix_pm_bdf : ℕ
piix_pm_bdf = 11

abbrev pub ich9_bdf : ℕ
ich9_bdf = 248

unfoldable pub setup_piix : Fw (Unit {0})
setup_piix = do
  pci_config_writeb piix_bdf 0x60 10
  pci_config_writeb piix_bdf 0x61 10
  pci_config_writeb piix_bdf 0x62 11
  pci_config_writeb piix_bdf 0x63 11

unfoldable pub setup_piix_pm : Fw (Unit {0})
setup_piix_pm = do
  pci_config_writel piix_pm_bdf 0x40 0x601
  pci_config_writeb piix_pm_bdf 0x80 0x01
  pci_config_writel piix_pm_bdf 0x90 0x701
  pci_config_writeb piix_pm_bdf 0xd2 0x09

unfoldable pub setup_ich9 : Fw (Unit {0})
setup_ich9 = do
  pci_config_writeb ich9_bdf 0x60 10
  pci_config_writeb ich9_bdf 0x61 10
  pci_config_writeb ich9_bdf 0x62 11
  pci_config_writeb ich9_bdf 0x63 11
  pci_config_writeb ich9_bdf 0x68 10
  pci_config_writeb ich9_bdf 0x69 10
  pci_config_writeb ich9_bdf 0x6a 11
  pci_config_writeb ich9_bdf 0x6b 11

unfoldable pub setup_ich9_pm : Fw (Unit {0})
setup_ich9_pm = do pci_config_writel ich9_bdf 0x40 0x601; pci_config_writeb ich9_bdf 0x44 0x80

unfoldable pub setup_pic : Fw (Unit {0})
setup_pic = do
  outb 0x20 0x11
  outb 0xa0 0x11
  outb 0x21 8
  outb 0xa1 0x70
  outb 0x21 0x04
  outb 0xa1 0x02
  outb 0x21 0x01
  outb 0xa1 0x01
  outb 0x21 (not32 (1 << 2))
  outb 0xa1 (not32 0)
  outb 0x4d0 0
  outb 0x4d1 0x0c

-- The loop of `setup_pam`, with the rounds left and `i`.
pam_loop : ℕ → ℕ → ℕ → ℕ → Fw (Unit {0})
pam_loop bdf pambase zero i = pure tt
pam_loop bdf pambase (suc n) i = do
  pci_config_writeb bdf (pambase + 1 + i) 0x33
  pam_loop bdf pambase n (i + 1)

unfoldable pub setup_pam : ℕ → ℕ → Fw (Unit {0})
unfolding pam_loop
setup_pam bdf pambase = do pam_loop bdf pambase 6 0; pci_config_writeb bdf pambase 0x30

-- A store into the firmware's image, and a copy to it, which stick only if shadow memory is writable.
unfoldable pub image_copy : (to from n : ℕ) → Fw (Unit {0})
image_copy to from n s =
    if s.env.image_writable s.io then ok tt (record s { mem = memcpy s.mem to from n }) else ok tt s

unfoldable pub image_store : ℕ → ℕ → Fw (Unit {0})
image_store p v s =
    if s.env.image_writable s.io then ok tt (record s { mem = st8 s.mem p v }) else ok tt s

-- The writability test and the copy of the image, once the chipset is known.
unfoldable pub shadow_bios : ℕ → Fw (Unit {0})
shadow_bios pambase = do
  rom_check ← symbol (λ y. y.rom_check)
  rom_check_value ← load (λ m. m rom_check)
  image_store rom_check (u8 (rom_check_value + 1))
  now ← load (λ m. m rom_check)
  when (now == rom_check_value) (setup_pam 0 pambase)
  stext ← symbol (λ y. y.stext)
  edata ← symbol (λ y. y.edata)
  sinit ← symbol (λ y. y.sinit)
  einit ← symbol (λ y. y.einit)
  image_copy stext (u32 (stext + 0xfff00000)) (edata - stext)
  image_copy sinit (u32 (sinit + 0xfff00000)) (einit - sinit)

unfoldable pub setup_hw : Fw Bool
unfolding setup_piix setup_piix_pm setup_ich9 setup_ich9_pm setup_pic shadow_bios
setup_hw = do
  id ← pci_config_readl 0 0
  if id == i440fx_id
      then (do setup_piix; setup_piix_pm; shadow_bios 0x59; setup_pic; pure true)
      else if id == q35_id
      then (do setup_ich9; setup_ich9_pm; shadow_bios 0x90; setup_pic; pure true)
      else pure false

unfoldable pub setup_q35_mmconfig : Fw (Unit {0})
setup_q35_mmconfig = do
  pci_config_writel 0 0x60 0
  pci_config_writel 0 0x64 (pcie_mmconfig_base >>> 32)
  pci_config_writel 0 0x60 (bit_or (u32 pcie_mmconfig_base) 1)

unfoldable pub setup_mmconfig : Fw Bool
unfolding setup_q35_mmconfig
setup_mmconfig = do
  id ← pci_config_readl 0 0
  if id == q35_id then (do setup_q35_mmconfig; pure true) else pure false
