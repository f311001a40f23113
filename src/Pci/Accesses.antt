-- ===== src/Pci/Accesses.antt =====
-- The accessors of include/pci.h only access configuration space.
use qboot.Base.{ℕ, ◌+◌, ◌*◌, ◌/◌, ◌%◌, ◌≡◌, ◌∙◌, ap, arith, [], ◌∷◌, bit_and, bit_or}
use qboot.Base.Bits.{bit_and_split, bit_or_fields, bit_and_clear, bit_and-zero}
use qboot.PciConfig.{
  byte_port, word_port, pci_config_writel, pci_config_writew, pci_config_writeb, pci_config_readl,
  pci_config_readw, pci_config_readb,
}
use qboot.PciConfig.Address.{byte_port_lane}
use qboot.Pci.Effects.{Scans, Same, accessed, IsConfigPort}

byte_port-IsConfigPort : (addr : ℕ) → IsConfigPort (byte_port addr)
byte_port-IsConfigPort addr =
    (omega (arith, byte_port_lane addr), omega (arith, byte_port_lane addr))

bit_and_two : (a : ℕ) → bit_and a 2 ≡ a % 4 / 2 * 2
bit_and_two a =
    let cut : a ≡ a / 4 * 4 + a % 4 = omega arith in
    ap (λ (t : ℕ). bit_and t 2) cut
    ∙ bit_and_split 2 (a / 4) 0 (a % 4) 2 (omega arith) (omega arith)
    ∙ omega (arith, bit_and-zero (a / 4), bit_and_clear 1 1 (a % 4) (omega arith))

word_port-IsConfigPort : (addr : ℕ) → IsConfigPort (word_port addr)
unfolding word_port
word_port-IsConfigPort addr =
    let lane =
      ap (bit_or 0xcfc) (bit_and_two addr) ∙ bit_or_fields 2 831 (addr % 4 / 2 * 2) (omega arith) in
    (omega (arith, lane), omega (arith, lane))

module _ {X : Type 0} (bdf addr : ℕ) where
  pub Scans-readl : Scans X Same (pci_config_readl bdf addr)
  unfolding pci_config_readl
  Scans-readl = record {
    runs =
        λ s. accessed s (_ ∷ _ ∷ []) ((omega arith, omega arith), ((omega arith, omega arith), tt));
  }

  pub Scans-readw : Scans X Same (pci_config_readw bdf addr)
  unfolding pci_config_readw
  Scans-readw = record {
    runs = λ s.
        accessed s (_ ∷ _ ∷ []) (word_port-IsConfigPort addr, ((omega arith, omega arith), tt));
  }

  pub Scans-readb : Scans X Same (pci_config_readb bdf addr)
  unfolding pci_config_readb
  Scans-readb = record {
    runs = λ s.
        accessed s (_ ∷ _ ∷ []) (byte_port-IsConfigPort addr, ((omega arith, omega arith), tt));
  }

  module _ (v : ℕ) where
    pub Scans-writel : Scans X Same (pci_config_writel bdf addr v)
    unfolding pci_config_writel
    Scans-writel = record {
      runs = λ s.
          accessed s (_ ∷ _ ∷ []) ((omega arith, omega arith), ((omega arith, omega arith), tt));
    }

    pub Scans-writew : Scans X Same (pci_config_writew bdf addr v)
    unfolding pci_config_writew
    Scans-writew = record {
      runs = λ s.
          accessed s (_ ∷ _ ∷ []) (word_port-IsConfigPort addr, ((omega arith, omega arith), tt));
    }

    pub Scans-writeb : Scans X Same (pci_config_writeb bdf addr v)
    unfolding pci_config_writeb
    Scans-writeb = record {
      runs = λ s.
          accessed s (_ ∷ _ ∷ []) (byte_port-IsConfigPort addr, ((omega arith, omega arith), tt));
    }
