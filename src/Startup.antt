-- ===== src/Startup.antt =====
-- `main` of main.c: the order of the steps of the boot.
use qboot.Machine.{Fw, panic, ◌>>=◌, ◌>>◌, modify, when}
use qboot.HwSetup.{setup_hw, setup_mmconfig}
use qboot.Pci.{setup_pci}
use qboot.FwCfg.{fw_cfg_setup}
use qboot.Tables.{extract_acpi}
use qboot.Main.{setup_idt, extract_e820}
use qboot.Mptable.{setup_mptable}
use qboot.Smbios.{extract_smbios}
use qboot.Boot.{boot_from_fwcfg}

-- The far jump in between moves the execution from the ROM to the copy in RAM.
unfoldable pub main : {A : Type 0} → Fw A
unfolding setup_hw setup_mmconfig setup_pci setup_idt fw_cfg_setup extract_acpi extract_e820
    setup_mptable extract_smbios boot_from_fwcfg
main = do
  have_pci ← setup_hw
  have_mmconfig ← setup_mmconfig
  modify (λ g. record g { have_mmconfig = have_mmconfig })
  when have_pci (λ s. setup_pci s.fuel s)
  setup_idt
  fw_cfg_setup
  extract_acpi
  extract_e820
  setup_mptable
  extract_smbios
  boot_from_fwcfg
  panic
