-- ===== src/PciBios.antt =====
-- code32seg.c: the PCI BIOS service that the BIOS32 directory leads to.
pub mod Status
use qboot.Base.{ℕ, bit_and, if◌then◌else◌, bit_or, not32, ◌==◌, ◌<<◌, ◌||◌}
use qboot.Machine.{Fw, pure, ◌>>=◌, ◌>>◌, gets}
use qboot.PciConfig.{
  pci_config_writel, pci_config_readb, pci_config_readw, pci_config_readl, pci_config_writeb,
  pci_config_writew,
}

-- `struct bios32regs`
pub record Bios32Regs : Type 0 where
  pub eax : ℕ
  pub ebx : ℕ
  pub ecx : ℕ
  pub edx : ℕ
  pub esp : ℕ
  pub ebp : ℕ
  pub esi : ℕ
  pub edi : ℕ
  pub ds : ℕ
  pub es : ℕ
  pub fs : ℕ
  pub eflags : ℕ

-- `eax &= ~0xff00`
unfoldable pub clear_ah : ℕ → ℕ
clear_ah eax = bit_and eax (not32 0xff00)

-- The label `success`, and the error exits with their status for AH.
unfoldable pub success : Bios32Regs → Bios32Regs
unfolding clear_ah
success r = record r { eax = clear_ah r.eax }

unfoldable pub failure : ℕ → Bios32Regs → Bios32Regs
unfolding clear_ah
failure status r = record r {
  eax = bit_or (clear_ah r.eax) (status << 8);
  eflags = bit_or r.eflags 1;
}

unfoldable pub pcibios_handler : Bios32Regs → Fw Bios32Regs
unfolding success failure
pcibios_handler r =
    if r.eax == 0xb101
    then (do
      max_bus ← gets (λ g. g.max_bus)
      pure (success (record r { eax = 0x01; ebx = 0x210; ecx = max_bus; edx = 0x20494350 })))
    else if r.eax == 0xb108
    then (do v ← pci_config_readb r.ebx r.edi; pure (success (record r { ecx = v })))
    else if r.eax == 0xb109
    then (do v ← pci_config_readw r.ebx r.edi; pure (success (record r { ecx = v })))
    else if r.eax == 0xb10a
    then (do v ← pci_config_readl r.ebx r.edi; pure (success (record r { ecx = v })))
    else if r.eax == 0xb10b
    then (do pci_config_writeb r.ebx r.edi r.ecx; pure (success r))
    else if r.eax == 0xb10c
    then (do pci_config_writew r.ebx r.edi r.ecx; pure (success r))
    else if r.eax == 0xb10d
    then (do pci_config_writel r.ebx r.edi r.ecx; pure (success r))
    else if r.eax == 0xb102 || r.eax == 0xb103
    then pure (failure 0x86 r)
    else pure (failure 0x81 r)
