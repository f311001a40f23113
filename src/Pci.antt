-- ===== src/Pci.antt =====
-- pci.c: the scan of the buses, interrupt routing, bridges, and the BIOS32 service directory.
pub mod Irq
pub mod Bios32
pub mod Effects
pub mod Accesses
pub mod Scan
use qboot.Base.{
  ℕ, zero, suc, ◌+◌, ◌*◌, ◌-◌, ◌%◌, ◌/◌, Bool, true, false, ◌&&◌, ◌||◌, List, [], ◌∷◌, bit_and,
  bit_or, u8, u16, u32, sub8, sub16, sub32, leb, ltb, ◌==◌, ◌!=◌, if◌then◌else◌, ◌>>>◌,
}
use qboot.Memory.{st8, stl_p, memset, st_bytes, Memory}
use qboot.Machine.{Fw, pure, panic, no_fuel, ◌>>=◌, ◌>>◌, when, gets, modify, symbol, store}
use qboot.PciConfig.{
  pci_config_writel, pci_config_writew, pci_config_writeb, pci_config_readl, pci_config_readw,
  pci_config_readb, i440fx_id, q35_id,
}
use qboot.Malloc.{malloc_fseg_align}

abbrev pub Callback : Type 0
Callback = ℕ → ℕ → ℕ → Fw (Unit {0})

-- `(uint16_t)(vendor + 1) <= 1`
unfoldable pub absent : ℕ → Bool
absent id = leb (u16 (u16 id + 1)) 1

-- The inner loop of `pci_foreach`, with the rounds left and `f`.
function_loop : Callback → ℕ → ℕ → ℕ → Fw (Unit {0})
function_loop fn d zero f = pure tt
function_loop fn d (suc n) f =
    let next = function_loop fn d n (f + 1) in
    do
      bus ← gets (λ g. g.bus)
      let bdf = bus * 256 + d * 8 + f
      id ← pci_config_readl bdf 0x00
      if absent id then (if f == 0 then pure tt else next) else do
        type ← pci_config_readb bdf 0x0e
        fn bdf id type
        if f == 0 && bit_and type 0x80 == 0 then pure tt else next

-- The outer loop, with the rounds left and `d`.
device_loop : Callback → ℕ → ℕ → Fw (Unit {0})
unfolding function_loop
device_loop fn zero d = pure tt
device_loop fn (suc n) d = do function_loop fn d 8 0; device_loop fn n (d + 1)

unfoldable pub pci_foreach : Callback → Fw (Unit {0})
unfolding device_loop
pci_foreach fn = device_loop fn 32 0

-- `lnk` before and after the mask, and the line that is written.
unfoldable pub link : (i440fx : Bool) → (addend pin dev : ℕ) → ℕ
link true addend pin dev = bit_and (sub32 (addend + pin + dev) 1) 3
link false addend pin dev = bit_and (if leb dev 24 then addend + pin + dev else addend + pin) 3

unfoldable pub irq_of_link : ℕ → ℕ
irq_of_link lnk = if bit_and lnk 2 != 0 then 11 else 10

unfoldable pub device_of : ℕ → ℕ
device_of bdf = bit_and (bdf >>> 3) 0x1f

unfoldable pub do_setup_pci_irq : ℕ → ℕ → Fw (Unit {0})
unfolding link irq_of_link device_of
do_setup_pci_irq bdf pin = do
  irq ← pci_config_readb bdf 0x3c
  if irq != 0 then pure tt else do
    i440fx ← gets (λ g. g.use_i440fx_routing)
    addend ← gets (λ g. g.addend)
    pci_config_writeb bdf 0x3c (irq_of_link (link i440fx addend pin (device_of bdf)))

-- `case PCI_CLASS_STORAGE_IDE`
setup_ide : ℕ → ℕ → Fw (Unit {0})
setup_ide bdf id = do
  pci_config_writel bdf 0x10 0x1f0
  pci_config_writel bdf 0x14 0x3f4
  pci_config_writel bdf 0x18 0x170
  pci_config_writel bdf 0x1c 0x374
  when (id == 0x70108086 || id == 0x71118086)
      (do pci_config_writew bdf 0x40 0x8000; pci_config_writew bdf 0x42 0x8000)

-- `case PCI_CLASS_BRIDGE_PCI`: push on the list of bridges whose links are in the secondary bus
-- registers.
unfoldable pub push_bridge : ℕ → Fw (Unit {0})
push_bridge bdf = do
  bus ← gets (λ g. g.bus)
  pci_config_writeb bdf 0x18 bus
  pci_config_writeb bdf 0x1a 0
  head ← gets (λ g. g.bridge_head)
  pci_config_writeb bdf 0x19 head
  modify (λ g. record g { bridge_head = u8 bdf; bridge_count = g.bridge_count + 1 })

unfoldable pub do_setup_pci : Callback
unfolding do_setup_pci_irq setup_ide push_bridge
do_setup_pci bdf id type = do
  pin ← pci_config_readb bdf 0x3d
  when (pin != 0) (do_setup_pci_irq bdf pin)
  when (bit_and type 1 != 0)
      (do ctl ← pci_config_readw bdf 0x3e; pci_config_writew bdf 0x3e (bit_or ctl 0x02))
  class ← pci_config_readw bdf 0x0a
  if class == 0x0101 then setup_ide bdf id else if class == 0x0604 then push_bridge bdf else pure tt

-- One round for each bridge on `save_bus`; `scan` is the recursive call.
bridge_loop : Fw (Unit {0}) → ℕ → ℕ → ℕ → Fw (Unit {0})
bridge_loop scan save_bus zero next_head = pure tt
bridge_loop scan save_bus (suc i) next_head = do
  let bdf = save_bus * 256 + next_head
  next ← pci_config_readb bdf 0x19
  modify (λ g. record g { max_bus = u8 (g.max_bus + 1); bus = u8 (g.max_bus + 1) })
  bus ← gets (λ g. g.bus)
  pci_config_writeb bdf 0x19 bus
  pci_config_writeb bdf 0x1a 255
  modify (λ g. record g { addend = u16 (g.addend + device_of bdf) })
  scan
  modify (λ g. record g { addend = sub16 g.addend (device_of bdf) })
  max_bus ← gets (λ g. g.max_bus)
  pci_config_writeb bdf 0x1a max_bus
  bridge_loop scan save_bus i next

-- The fuel bounds how deep bridges are nested.
unfoldable pub do_setup_pci_bus : ℕ → Fw (Unit {0})
unfolding pci_foreach do_setup_pci bridge_loop device_of
do_setup_pci_bus zero = no_fuel
do_setup_pci_bus (suc fuel) = do
  modify (λ g. record g { bridge_head = 0xff; bridge_count = 0 })
  pci_foreach do_setup_pci
  next_head ← gets (λ g. g.bridge_head)
  save_bus ← gets (λ g. g.bus)
  count ← gets (λ g. g.bridge_count)
  bridge_loop (do_setup_pci_bus fuel) save_bus count next_head

-- `for (i = 0; i <= 9; i++) bios32[10] -= bios32[i];` with the rounds left and `i`.
unfoldable pub subtract_loop : ℕ → ℕ → ℕ → Memory → Memory
subtract_loop p zero i m = m
subtract_loop p (suc n) i m =
    subtract_loop p n (suc i) (st8 m (p + 10) (sub8 (m (p + 10)) (m (p + i))))

-- The 16 bytes at `bios32` before the checksum, and with it.
unfoldable pub directory : ℕ → ℕ → Memory → Memory
directory p entry m =
    let m1 = st_bytes m p (b'_' ∷ b'3' ∷ b'2' ∷ b'_' ∷ []) in
    let m2 = stl_p m1 (p + 4) entry in
    let m3 = st8 (st8 m2 (p + 8) 0) (p + 9) 1 in memset m3 (p + 10) 0 6

unfoldable pub write_bios32 : ℕ → ℕ → Memory → Memory
unfolding subtract_loop directory
write_bios32 p entry m = subtract_loop p 10 0 (directory p entry m)

unfoldable pub setup_bios32 : Fw (Unit {0})
unfolding write_bios32
setup_bios32 = do
  p ← malloc_fseg_align 16 16
  entry ← symbol (λ y. y.bios32_entry)
  store (write_bios32 p entry)

unfoldable pub setup_pci : ℕ → Fw (Unit {0})
unfolding do_setup_pci_bus setup_bios32
setup_pci fuel = do
  id ← pci_config_readl 0 0
  if id == i440fx_id
      then modify (λ g. record g { use_i440fx_routing = true })
      else if id == q35_id
      then modify (λ g. record g { use_i440fx_routing = false })
      else panic
  do_setup_pci_bus fuel
  setup_bios32
