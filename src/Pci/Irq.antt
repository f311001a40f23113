-- ===== src/Pci/Irq.antt =====
-- Interrupt routing: which line a function gets, and what `do_setup_pci_irq` does with it.
use qboot.Base.{
  u32, ℕ, zero, suc, sub32, ◌+◌, ◌%◌, ◌<◌, ◌≡◌, refl, arith, Bool, true, false, List, [], ◌∷◌,
  get_or, u8, leb, if◌then◌else◌, ◌==◌,
}
use qboot.Base.Bits.{bit_and_mask}
use qboot.Machine.{Machine, ok, out, inp, byte, long}
use qboot.PciConfig.{config_address, byte_port, pci_config_readb, pci_config_writeb}
use qboot.Pci.{link, irq_of_link, device_of, do_setup_pci_irq}

-- The four entries that `setup_piix` and `setup_ich9` write to the routing registers of LNKA to
-- LNKD.
abbrev pub pirq_routes : List ℕ
pirq_routes = 10 ∷ 10 ∷ 11 ∷ 11 ∷ []

-- The link of a pin: on i440FX the device's position counts from 1, on Q35 the position of devices 25 to
-- 31 does not count, so that the pin alone moves their link.
abbrev pub pirq : (i440fx : Bool) → (addend pin dev : ℕ) → ℕ
pirq true addend pin dev = (addend + pin + dev + 3) % 4
pirq false addend pin dev = if leb dev 24 then (addend + pin + dev) % 4 else (addend + pin) % 4

pub link-pirq :
    (i440fx : Bool) (addend pin dev : ℕ)
    → addend < 65536
    → pin < 256
    → dev < 32
    → link i440fx addend pin dev ≡ pirq i440fx addend pin dev
unfolding link
link-pirq true addend pin dev ha hp hd =
    omega (arith, bit_and_mask 2 (sub32 (addend + pin + dev) 1))
link-pirq false addend pin dev ha hp hd =
    ground (arith, bit_and_mask 2 (addend + pin + dev), bit_and_mask 2 (addend + pin))

route_table : (l : ℕ) → l < 4 → irq_of_link l ≡ get_or pirq_routes l 0
unfolding irq_of_link
route_table zero h = refl
route_table (suc zero) h = refl
route_table (suc (suc zero)) h = refl
route_table (suc (suc (suc zero))) h = refl
route_table (suc (suc (suc (suc l)))) h = absurd (omega arith)

-- The line that a function gets is the one that the chipset's routing registers send its link to,
-- on both chipsets.
pub irq_of_link-routes :
    (i440fx : Bool) (addend pin dev : ℕ)
    → addend < 65536
    → pin < 256
    → dev < 32
    → irq_of_link (link i440fx addend pin dev) ≡ get_or pirq_routes (pirq i440fx addend pin dev) 0
irq_of_link-routes i440fx addend pin dev ha hp hd =
    rw (link-pirq i440fx addend pin dev ha hp hd)
      (route_table (pirq i440fx addend pin dev) (pirq-lt i440fx))
  where
    pirq-lt : (b : Bool) → pirq b addend pin dev < 4
    pirq-lt true = omega arith
    pirq-lt false = ground arith

irq_of_link-lt : (l : ℕ) → irq_of_link l < 256
unfolding irq_of_link
irq_of_link-lt l = ground arith

-- The state after a read of the interrupt line register.
abbrev pub line_read : ℕ → Machine → Machine
line_read bdf s = record s {
  io = inp byte (byte_port 0x3c) ∷ out long 0xcf8 (u32 (config_address bdf 0x3c)) ∷ s.io;
}

abbrev pub line : ℕ → Machine → ℕ
line bdf s = u8 (s.env.input (line_read bdf s).io)

-- The state after a line has been written behind that read.
abbrev pub line_written : ℕ → ℕ → Machine → Machine
line_written bdf irq s = record s {
  io =
      out byte (byte_port 0x3c) irq
      ∷ out long 0xcf8 (u32 (config_address bdf 0x3c))
      ∷ (line_read bdf s).io;
}

-- For a pin and a device in range, `do_setup_pci_irq` writes 10 or 11, as the chipset's routing
-- registers say, to the line register of a function that has no interrupt line, and leaves any
-- other alone. It touches nothing but the configuration ports. The link of devices 25 to 31 of a Q35
-- depends on their pin: it is not LNKA for each of them, as a comment in the source says.
pub do_setup_pci_irq_lem :
    (bdf pin : ℕ) (s : Machine)
    → s.globals.addend < 65536
    → pin < 256
    → device_of bdf < 32
    → let route = pirq s.globals.use_i440fx_routing s.globals.addend pin (device_of bdf) in
      do_setup_pci_irq bdf pin s
      ≡ ok tt (
          if line bdf s == 0
          then line_written bdf (get_or pirq_routes route 0) s
          else line_read bdf s)
unfolding do_setup_pci_irq pci_config_readb pci_config_writeb
do_setup_pci_irq_lem bdf pin s ha hp hd = ground (
  arith,
  irq_of_link-routes s.globals.use_i440fx_routing s.globals.addend pin (device_of bdf) ha hp hd,
  irq_of_link-lt (link s.globals.use_i440fx_routing s.globals.addend pin (device_of bdf)),
)
