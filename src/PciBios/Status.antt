-- ===== src/PciBios/Status.antt =====
-- How the PCI BIOS service reports success and failure.
use qboot.Base.{
  if◌then◌else◌, if_ind, Bool, true, false, ℕ, zero, suc, ◌≡◌, ◌<◌, ◌+◌, ◌*◌, ◌/◌, ◌%◌, ◌^◌, arith,
  ap, ap₂, ◌∙◌, bit_and, bit_or, refl, ◌==◌, ◌||◌,
}
use qboot.Base.Bits.{bit_and_split, bit_and_mask, bit_or_split, bit_or-zero, bit_or_fields_swap}
use qboot.PciBios.{clear_ah, failure, pcibios_handler, Bios32Regs}
use qboot.PciConfig.{
  pci_config_readb, pci_config_readw, pci_config_readl, pci_config_writeb, pci_config_writew,
  pci_config_writel,
}
use qboot.Machine.{Machine, Returns, Fw}

-- Clearing AH keeps AL and the upper half of EAX.
pub clear_ah_lem : (eax : ℕ) → eax < 2 ^ 32 → clear_ah eax ≡ eax / 65536 * 65536 + eax % 256
unfolding clear_ah
clear_ah_lem eax h =
    let cut : eax ≡ eax / 65536 * 65536 + eax % 65536 = omega arith in
    ap (λ (t : ℕ). bit_and t 4294902015) cut
    ∙ bit_and_split 16 (eax / 65536) 65535 (eax % 65536) 255 (omega arith) (omega arith)
    ∙ omega (arith, bit_and_mask 16 (eax / 65536), bit_and_mask 8 (eax % 65536))

-- The status that a caller reads in AH, and the carry flag.
abbrev pub ah : ℕ → ℕ
ah eax = eax / 256 % 256

abbrev pub carry : ℕ → ℕ
carry eflags = eflags % 2

low_bit : (b : ℕ) → b < 2 → bit_or b 1 ≡ 1
low_bit zero h = refl
low_bit (suc zero) h = refl
low_bit (suc (suc b)) h = absurd (omega arith)

pub carry-set : (e : ℕ) → carry (bit_or e 1) ≡ 1
carry-set e =
    let cut : e ≡ e / 2 * 2 + e % 2 = omega arith in
    ap (λ (t : ℕ). bit_or t 1 % 2) cut
    ∙ omega (
      arith,
      bit_or_split 1 (e / 2) 0 (e % 2) 1 (omega arith) (omega arith),
      low_bit (e % 2) (omega arith),
    )

failure-ah :
    (status : ℕ) (r : Bios32Regs)
    → status < 256
    → r.eax < 2 ^ 32
    → ah (failure status r).eax ≡ status
unfolding failure
failure-ah status r k h =
    let q = r.eax / 65536 in
    let low = r.eax % 256 in
    let field : status * 256 ≡ 0 * 65536 + status * 256 = omega arith in
    ap₂ (λ (t u : ℕ). ah (bit_or t u)) (clear_ah_lem r.eax h) field
    ∙ omega (
      arith,
      bit_or_split 16 q 0 low (status * 256) (omega arith) (omega arith),
      bit_or-zero q,
      bit_or_fields_swap 8 status low (omega arith),
    )

-- The functions that the service implements.
abbrev pub supported : ℕ → Bool
supported f =
    f == 0xb101
    || f == 0xb108
    || f == 0xb109
    || f == 0xb10a
    || f == 0xb10b
    || f == 0xb10c
    || f == 0xb10d

-- EAX and the flags on return report success if the function of `r` is supported, and else failure,
-- with status 0x86 for a search and 0x81 otherwise.
abbrev pub Reports : Bios32Regs → (eax eflags : ℕ) → Type 0
Reports r eax eflags =
    (supported r.eax ≡ true → (ah eax ≡ 0) × (eflags ≡ r.eflags))
    × (supported r.eax ≡ false
        → (ah eax ≡ (if r.eax == 0xb102 || r.eax == 0xb103 then 0x86 else 0x81))
          × (carry eflags ≡ 1))

-- What every answer has in common: memory and the static variables are as before.
abbrev pub Answers : Bios32Regs → Machine → Bios32Regs → Machine → Type 0
Answers r s r' t = (t.mem ≡ s.mem) × (t.globals ≡ s.globals) × Reports r r'.eax r'.eflags

success-Reports :
    (r : Bios32Regs) (eax : ℕ)
    → supported r.eax ≡ true
    → eax < 2 ^ 32
    → Reports r (clear_ah eax) r.eflags
success-Reports r eax it h = ((λ _. (omega (arith, clear_ah_lem eax h), refl)), (λ not_it. cc))

failure-Reports :
    (status : ℕ) (r : Bios32Regs)
    → supported r.eax ≡ false
    → r.eax < 2 ^ 32
    → status < 256
    → status ≡ (if r.eax == 0xb102 || r.eax == 0xb103 then 0x86 else 0x81)
    → Reports r (failure status r).eax (failure status r).eflags
failure-Reports status r not_it h k is =
    ((λ it. cc), λ _. (failure-ah status r k h ∙ is, unfold failure in carry-set r.eflags))

-- For a 32-bit EAX the handler returns on every request, without touching memory or a static
-- variable. A supported function returns with AH zero and the flags as they were; any other returns
-- with the carry flag set, with status 0x86 (device not found) for the two searches and 0x81 (not
-- supported) for the rest.
pub pcibios_handler-Reports :
    (r : Bios32Regs) (s : Machine) → r.eax < 2 ^ 32 → Returns (Answers r s) (pcibios_handler r s)
unfolding pcibios_handler pci_config_readb pci_config_readw pci_config_readl pci_config_writeb
    pci_config_writew pci_config_writel
pcibios_handler-Reports r s h =
    served (r.eax == 0xb101) _ _
      (λ e. (refl, refl, success-Reports r 1 (ground arith) (omega arith)))
      (λ n1.
        served (r.eax == 0xb108) _ _ (λ e. (refl, refl, done (ground arith)))
          (λ n2.
            served (r.eax == 0xb109) _ _ (λ e. (refl, refl, done (ground arith)))
              (λ n3.
                served (r.eax == 0xb10a) _ _ (λ e. (refl, refl, done (ground arith)))
                  (λ n4.
                    served (r.eax == 0xb10b) _ _ (λ e. (refl, refl, done (ground arith)))
                      (λ n5.
                        served (r.eax == 0xb10c) _ _ (λ e. (refl, refl, done (ground arith)))
                          (λ n6.
                            served (r.eax == 0xb10d) _ _ (λ e. (refl, refl, done (ground arith)))
                              (λ n7.
                                served (r.eax == 0xb102 || r.eax == 0xb103) _ _
                                  (λ e. (
                                    refl,
                                    refl,
                                    failure-Reports 0x86 r (ground arith) h (omega arith)
                                        (ground arith),
                                  ))
                                  (λ e. (
                                    refl,
                                    refl,
                                    failure-Reports 0x81 r (ground arith) h (omega arith)
                                        (ground arith),
                                  )))))))))
  where
    served :
        (b : Bool) (x y : Fw Bios32Regs)
        → (b ≡ true → Returns (Answers r s) (x s))
        → (b ≡ false → Returns (Answers r s) (y s))
        → Returns (Answers r s) ((if b then x else y) s)
    served b x y = if_ind (λ act. Returns (Answers r s) (act s)) b {x = x} {y = y}

    done : supported r.eax ≡ true → Reports r (clear_ah r.eax) r.eflags
    done it = success-Reports r r.eax it h
