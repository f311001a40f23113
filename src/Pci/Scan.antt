-- ===== src/Pci/Scan.antt =====
-- The scan of the buses, step by step.
use qboot.Base.Bits.{bit_and_mask}
use qboot.Base.{
  ◌||◌, ℕ, zero, suc, ◌+◌, ◌*◌, ◌<◌, ◌≡◌, ◌^◌, refl, arith, ◌&&◌, bit_and, bit_or, u8, u16, sub16,
  ◌==◌, Bool, true, false, if◌then◌else◌, ◌!=◌, ◌>>>◌,
}
use qboot.Machine.{Machine, Fw, when}
use qboot.Pci.{
  Callback, absent, function_loop, device_loop, pci_foreach, do_setup_pci_irq, setup_ide,
  push_bridge, do_setup_pci, bridge_loop, do_setup_pci_bus, device_of, link, irq_of_link,
}
use qboot.Pci.Effects.{
  Scanned, Scans, Same, Then, Ends, Scans-weaken, Scans-bind, Scans-then, Scans-pure, Scans-gets,
  Scans-modify,
}
use qboot.Pci.Accesses.{
  Scans-readl, Scans-readw, Scans-readb, Scans-writel, Scans-writew, Scans-writeb,
}

device_of-bound : (bdf : ℕ) → device_of bdf < 32
unfolding device_of
device_of-bound bdf = omega (arith, bit_and_mask 5 (bdf >>> 3))

-- What is added to `addend` for the bus behind a bridge is taken off again, modulo 2^16.
restored :
    (d : ℕ)
    → d < 2 ^ 16
    → (a e : ℕ) → Then (λ a b. b ≡ u16 (a + d)) (Then Same (Then (λ b c. c ≡ sub16 b d) Same)) a e
    → Same a e
restored d h a e (b, p, (b', q, (c, r, t))) l =
    let q' = q (omega (arith, p)) in let t' = t (omega (arith, r)) in omega (arith, p, q', r, t')

module _ {X : Type 0} where
  scan_if :
      {A : Type 0} (b : Bool) {m k : Fw A}
      → Scans X Same m
      → Scans X Same k
      → Scans X Same (if b then m else k)
  scan_if true p q = p
  scan_if false p q = q

  Scans-when : (b : Bool) {m : Fw (Unit {0})} → Scans X Same m → Scans X Same (when b m)
  Scans-when true p = p
  Scans-when false p = Scans-pure tt

  Scans-do_setup_pci_irq : (bdf pin : ℕ) → Scans X Same (do_setup_pci_irq bdf pin)
  unfolding do_setup_pci_irq
  Scans-do_setup_pci_irq bdf pin = Scans-then (Scans-readb bdf 0x3c) (λ irq.
      scan_if (irq != 0) (Scans-pure tt) (
        Scans-then (Scans-gets (λ g. g.use_i440fx_routing)) (λ i440fx.
          Scans-then (Scans-gets (λ g. g.addend)) (λ addend.
            Scans-writeb bdf 0x3c (irq_of_link (link i440fx addend pin (device_of bdf)))))))

  Scans-setup_ide : (bdf id : ℕ) → Scans X Same (setup_ide bdf id)
  unfolding setup_ide
  Scans-setup_ide bdf id = Scans-then (Scans-writel bdf 0x10 0x1f0) (λ _.
      Scans-then (Scans-writel bdf 0x14 0x3f4) (λ _. Scans-then (Scans-writel bdf 0x18 0x170) (λ _.
        Scans-then (Scans-writel bdf 0x1c 0x374) (λ _.
          Scans-when (id == 0x70108086 || id == 0x71118086)
            (Scans-then (Scans-writew bdf 0x40 0x8000) (λ _. Scans-writew bdf 0x42 0x8000))))))

  Scans-push_bridge : (bdf : ℕ) → Scans X Same (push_bridge bdf)
  unfolding push_bridge
  Scans-push_bridge bdf = Scans-then (Scans-gets (λ g. g.bus)) (λ bus.
      Scans-then (Scans-writeb bdf 0x18 bus) (λ _. Scans-then (Scans-writeb bdf 0x1a 0) (λ _.
        Scans-then (Scans-gets (λ g. g.bridge_head)) (λ head.
          Scans-then (Scans-writeb bdf 0x19 head) (λ _.
            Scans-modify Same (λ g. g.addend) (λ g. g.bus) (λ g. u8 bdf) (λ g. g.bridge_count + 1)
              (λ g. g.max_bus) (λ g l. refl))))))

  Scans-do_setup_pci : (bdf id type : ℕ) → Scans X Same (do_setup_pci bdf id type)
  unfolding do_setup_pci
  Scans-do_setup_pci bdf id type = Scans-then (Scans-readb bdf 0x3d) (λ pin.
      Scans-then (Scans-when (pin != 0) (Scans-do_setup_pci_irq bdf pin)) (λ _.
        Scans-then
          (Scans-when (bit_and type 1 != 0)
            (Scans-then (Scans-readw bdf 0x3e) (λ ctl. Scans-writew bdf 0x3e (bit_or ctl 0x02))))
          (λ _. Scans-then (Scans-readw bdf 0x0a) (λ class.
            scan_if (class == 0x0101) (Scans-setup_ide bdf id)
              (scan_if (class == 0x0604) (Scans-push_bridge bdf) (Scans-pure tt))))))

  Scans-function_loop :
      (fn : Callback)
      → ((bdf id type : ℕ) → Scans X Same (fn bdf id type))
      → (d n f : ℕ) → Scans X Same (function_loop fn d n f)
  unfolding function_loop
  Scans-function_loop fn h d zero f = Scans-pure tt
  Scans-function_loop fn h d (suc n) f =
      let rest = Scans-function_loop fn h d n (f + 1) in
      Scans-then (Scans-gets (λ g. g.bus)) (λ bus.
        Scans-then (Scans-readl (bus * 256 + d * 8 + f) 0x00) (λ id.
          scan_if (absent id) (scan_if (f == 0) (Scans-pure tt) rest) (
            Scans-then (Scans-readb (bus * 256 + d * 8 + f) 0x0e) (λ type.
              Scans-then (h (bus * 256 + d * 8 + f) id type)
                (λ _. scan_if (f == 0 && bit_and type 0x80 == 0) (Scans-pure tt) rest)))))

  Scans-device_loop :
      (fn : Callback)
      → ((bdf id type : ℕ) → Scans X Same (fn bdf id type))
      → (n d : ℕ) → Scans X Same (device_loop fn n d)
  unfolding device_loop
  Scans-device_loop fn h zero d = Scans-pure tt
  Scans-device_loop fn h (suc n) d =
      Scans-then (Scans-function_loop fn h d 8 0) (λ _. Scans-device_loop fn h n (d + 1))

  Scans-pci_foreach : Scans X Same (pci_foreach do_setup_pci)
  unfolding pci_foreach
  Scans-pci_foreach = Scans-device_loop do_setup_pci Scans-do_setup_pci 32 0

  Scans-bridge_loop :
      (scan : Fw (Unit {0}))
      → Scans X Same scan
      → (save_bus n head : ℕ) → Scans X Same (bridge_loop scan save_bus n head)
  unfolding bridge_loop
  Scans-bridge_loop scan h save_bus zero head = Scans-pure tt
  Scans-bridge_loop scan h save_bus (suc i) head =
      let bdf = save_bus * 256 + head in
      Scans-then (Scans-readb bdf 0x19) (λ next.
        Scans-then
          (Scans-modify Same (λ g. g.addend) (λ g. u8 (g.max_bus + 1)) (λ g. g.bridge_head)
            (λ g. g.bridge_count) (λ g. u8 (g.max_bus + 1)) (λ g l. refl))
          (λ _. Scans-then (Scans-gets (λ g. g.bus)) (λ bus.
            Scans-then (Scans-writeb bdf 0x19 bus) (λ _.
              Scans-then (Scans-writeb bdf 0x1a 255) (λ _.
                Scans-weaken (restored (device_of bdf) (omega (arith, device_of-bound bdf))) (
                  Scans-bind
                    (Scans-modify (λ a b. b ≡ u16 (a + device_of bdf))
                      (λ g. u16 (g.addend + device_of bdf)) (λ g. g.bus) (λ g. g.bridge_head)
                      (λ g. g.bridge_count) (λ g. g.max_bus) (λ g. refl))
                    (λ _. Scans-bind h (λ _.
                      Scans-bind
                        (Scans-modify (λ a b. b ≡ sub16 a (device_of bdf))
                          (λ g. sub16 g.addend (device_of bdf)) (λ g. g.bus) (λ g. g.bridge_head)
                          (λ g. g.bridge_count) (λ g. g.max_bus) (λ g. refl))
                        (λ _. Scans-then (Scans-gets (λ g. g.max_bus)) (λ max_bus.
                          Scans-then (Scans-writeb bdf 0x1a max_bus)
                            (λ _. Scans-bridge_loop scan h save_bus i next)))))))))))

Scans-do_setup_pci_bus : (fuel : ℕ) → Scans Unit Same (do_setup_pci_bus fuel)
unfolding do_setup_pci_bus
Scans-do_setup_pci_bus zero = record { runs = λ s. tt }
Scans-do_setup_pci_bus (suc fuel) =
    Scans-then
      (Scans-modify Same (λ g. g.addend) (λ g. g.bus) (λ g. 0xff) (λ g. 0) (λ g. g.max_bus)
        (λ g l. refl))
      (λ _. Scans-then Scans-pci_foreach (λ _.
        Scans-then (Scans-gets (λ g. g.bridge_head)) (λ next_head.
          Scans-then (Scans-gets (λ g. g.bus)) (λ save_bus.
            Scans-then (Scans-gets (λ g. g.bridge_count)) (λ count.
              Scans-bridge_loop (do_setup_pci_bus fuel) (Scans-do_setup_pci_bus fuel) save_bus count
                next_head)))))

-- Whatever the devices answer, the scan of one bus returns, and the scan of a bus and of the buses
-- behind its bridges returns or runs out of fuel: neither panics, enters a kernel or does what is
-- undefined. When they return, memory is the same, all port accesses were to 0xcf8 to 0xcff,
-- `addend` has its old 16-bit value again, and of the static variables only the bus number, the
-- list of bridges with its length and the highest bus number may have changed.
pub do_setup_pci_bus-Scanned :
    (fuel : ℕ) (s : Machine)
    → Ends ⊥ (λ _ t. Scanned Same s t) (pci_foreach do_setup_pci s)
      × Ends Unit (λ _ t. Scanned Same s t) (do_setup_pci_bus fuel s)
do_setup_pci_bus-Scanned fuel s = (Scans-pci_foreach.runs s, (Scans-do_setup_pci_bus fuel).runs s)
