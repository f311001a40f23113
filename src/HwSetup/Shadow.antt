-- ===== src/HwSetup/Shadow.antt =====
-- The copy of the firmware's image from ROM to RAM.
use qboot.Base.{
  zero, suc, ◌∷◌, List, ℕ, ◌+◌, ◌-◌, ◌≤◌, ◌<◌, ◌≡◌, ◌≢◌, ◌⊎◌, inl, inr, refl, ◌∙◌, ap, arith, true,
  false, u8, u32, ◌==◌, Bool-cases,
}
use qboot.Memory.{in_range, Memory, st8, memcpy}
use qboot.Memory.Frame.{Outside, st8-ne, st8_self}
use qboot.Machine.{Env, long, out, byte, Fw, Machine, Symbols, Io, ok}
use qboot.PciConfig.{
  byte_port, config_address, pci_config_writel, pci_config_writeb, pci_config_readl, i440fx_id,
  q35_id,
}
use qboot.HwSetup.{
  setup_hw, shadow_bios, setup_pam, setup_piix, setup_piix_pm, setup_ich9, setup_ich9_pm,
  image_store, image_copy,
}
use qboot.HwSetup.Detect.{host_id, id_read}

-- The linker's symbols lie in the first MB, the image from `stext` to `edata` and its start code
-- from `sinit` to `einit`.
pub record IsLinked (y : Symbols) : Type 0 where
  pub image : y.stext ≤ y.edata
  pub image_end : y.edata ≤ 0x100000
  pub init : y.sinit ≤ y.einit
  pub init_end : y.einit ≤ 0x100000
  pub check : y.rom_check < 0x100000

-- From `m` to `g`, the two parts of the image have become what stands 0xfff00000 bytes higher, in
-- ROM, and but for the byte `rom_check` nothing else has changed.
pub record Shadowed (y : Symbols) (m g : Memory) : Type 0 where
  pub image : (a : ℕ) → y.stext ≤ a → a < y.edata → g a ≡ m (a + 0xfff00000)
  pub init : (a : ℕ) → y.sinit ≤ a → a < y.einit → g a ≡ m (a + 0xfff00000)
  pub outside :
      (a : ℕ)
      → Outside y.stext (y.edata - y.stext) a
      → Outside y.sinit (y.einit - y.sinit) a
      → y.rom_check ≢ a
      → g a ≡ m a

-- A copy of a region below 1 MB from ROM.
rom_copy : Memory → ℕ → ℕ → Memory
rom_copy m from to = memcpy m from (u32 (from + 0xfff00000)) (to - from)

rom_copy-inside :
    (m : Memory) (from to a : ℕ)
    → to ≤ 0x100000
    → from ≤ a
    → a < to
    → rom_copy m from to a ≡ m (a + 0xfff00000)
unfolding rom_copy memcpy
rom_copy-inside m from to a h l k =
    let at : u32 (from + 0xfff00000) + (a - from) ≡ a + 0xfff00000 = omega arith in
    ground (arith, ap m at)

rom_copy-Outside :
    (m : Memory) (from to a : ℕ) → Outside from (to - from) a → rom_copy m from to a ≡ m a
unfolding rom_copy memcpy
rom_copy-Outside m from to a o = ground arith

module _ (y : Symbols) (m k : Memory) (l : IsLinked y)
    (same : (a : ℕ) → y.rom_check ≢ a → k a ≡ m a) where
  first : Memory
  first = rom_copy k y.stext y.edata

  -- ROM is not changed by the first copy.
  first_rom : (a : ℕ) → first (a + 0xfff00000) ≡ m (a + 0xfff00000)
  unfolding first
  first_rom a =
      rom_copy-Outside k y.stext y.edata (a + 0xfff00000) (omega (arith, l.image, l.image_end))
      ∙ same (a + 0xfff00000) (omega (arith, l.check))

  second_init :
      (a : ℕ) → y.sinit ≤ a → a < y.einit → rom_copy first y.sinit y.einit a ≡ m (a + 0xfff00000)
  second_init a h j = rom_copy-inside first y.sinit y.einit a l.init_end h j ∙ first_rom a

  second_image :
      (a : ℕ) → y.stext ≤ a → a < y.edata → rom_copy first y.sinit y.einit a ≡ m (a + 0xfff00000)
  unfolding first
  second_image a h j = elim (Bool-cases (in_range y.sinit (y.einit - y.sinit) a)) [
    | inl e ↦ second_init a (ground arith) (ground (arith, l.init))
    | inr ne ↦
        rom_copy-Outside first y.sinit y.einit a (ground arith)
        ∙ rom_copy-inside k y.stext y.edata a l.image_end h j
        ∙ same (a + 0xfff00000) (omega (arith, l.check))
  ]

  copies-Shadowed : Shadowed y m (rom_copy first y.sinit y.einit)
  unfolding first
  copies-Shadowed = record {
    image = second_image;
    init = second_init;
    outside = λ a o p q.
        rom_copy-Outside first y.sinit y.einit a p
        ∙ rom_copy-Outside k y.stext y.edata a o
        ∙ same a q;
  }

-- The program only accesses ports.
abbrev SetPorts : Fw (Unit {0}) → Type 0
SetPorts m = (s : Machine) → (h : List Io) × (m s ≡ ok tt (record s { io = h }))

-- The history behind the write of a register of the host bridge, and behind setup_pam.
abbrev pub register_written : (reg v : ℕ) → List Io → List Io
register_written reg v h =
    out byte (byte_port reg) v ∷ out long 0xcf8 (u32 (config_address 0 reg)) ∷ h

abbrev pub ranges_set : ℕ → (p : ℕ) → List Io → List Io
ranges_set zero p h = h
ranges_set (suc n) p h = register_written (p + 1 + n) 0x33 (ranges_set n p h)

abbrev pub pam_set : ℕ → List Io → List Io
pam_set p h = register_written p 0x30 (ranges_set 6 p h)

-- With the registers from `p` on set to read and write RAM, the chipset lets the image be written.
abbrev pub Opens : Env → ℕ → Type 0
Opens env p = (h : List Io) → env.image_writable (pam_set p h) ≡ true

setup_pam-set : (p : ℕ) (s : Machine) → setup_pam 0 p s ≡ ok tt (record s { io = pam_set p s.io })
unfolding setup_pam pci_config_writeb
setup_pam-set p s = refl

image_copy-writable :
    (to from n : ℕ) (s : Machine)
    → s.env.image_writable s.io ≡ true
    → image_copy to from n s ≡ ok tt (record s { mem = memcpy s.mem to from n })
unfolding image_copy
image_copy-writable to from n s e = rw e refl

-- The image as shadow_bios leaves it: where it cannot be written at first, the test of `rom_check`
-- notices that, and the registers are set.
shadow_bios-Shadowed :
    (p : ℕ) (s : Machine)
    → IsLinked s.symbols
    → s.mem s.symbols.rom_check < 256
    → Opens s.env p
    → (g : Memory) × (h : List Io) × (shadow_bios p s ≡ ok tt (record s { io = h; mem = g }))
      × Shadowed s.symbols s.mem g
unfolding shadow_bios image_store first rom_copy
shadow_bios-Shadowed p s l byte_there opens =
    let y = s.symbols in
    let v = s.mem y.rom_check in
    elim (Bool-cases (s.env.image_writable s.io)) [
      | inl e ↦
          let k = st8 s.mem y.rom_check (u8 (v + 1)) in
          let other : k y.rom_check == v ≡ false =
            ground (arith, st8_self s.mem y.rom_check (u8 (v + 1))) in
          let t : Machine = record s { mem = k } in
          let one =
            image_copy-writable y.stext (u32 (y.stext + 0xfff00000)) (y.edata - y.stext) t e in
          let t' : Machine = record t { mem = rom_copy k y.stext y.edata } in
          let two =
            image_copy-writable y.sinit (u32 (y.sinit + 0xfff00000)) (y.einit - y.sinit) t' e in
          (
            _,
            s.io,
            rw (e, other, one, two) refl,
            copies-Shadowed y s.mem k l (λ a h. st8-ne s.mem y.rom_check (u8 (v + 1)) a h),
          )
      | inr e ↦
          let same : v == v ≡ true = ground arith in
          let pam = setup_pam-set p s in
          let h = pam_set p s.io in
          let t : Machine = record s { io = h } in
          let one =
            image_copy-writable y.stext (u32 (y.stext + 0xfff00000)) (y.edata - y.stext) t
              (opens s.io) in
          let t' : Machine = record t { mem = rom_copy s.mem y.stext y.edata } in
          let two =
            image_copy-writable y.sinit (u32 (y.sinit + 0xfff00000)) (y.einit - y.sinit) t'
              (opens s.io) in
          (_, h, rw (e, same, pam, one, two) refl, copies-Shadowed y s.mem s.mem l (λ a h. refl))
    ]

setup_piix-SetPorts : SetPorts setup_piix
unfolding setup_piix pci_config_writeb
setup_piix-SetPorts s = (_, refl)

setup_piix_pm-SetPorts : SetPorts setup_piix_pm
unfolding setup_piix_pm pci_config_writeb pci_config_writel
setup_piix_pm-SetPorts s = (_, refl)

setup_ich9-SetPorts : SetPorts setup_ich9
unfolding setup_ich9 pci_config_writeb
setup_ich9-SetPorts s = (_, refl)

setup_ich9_pm-SetPorts : SetPorts setup_ich9_pm
unfolding setup_ich9_pm pci_config_writeb pci_config_writel
setup_ich9_pm-SetPorts s = (_, refl)

-- The writes of setup_pic, the last one first.
abbrev pic_writes : List Io → List Io
pic_writes h =
    out byte 0x4d1 0x0c
    ∷ out byte 0x4d0 0
    ∷ out byte 0xa1 0xff
    ∷ out byte 0x21 0xfb
    ∷ out byte 0xa1 1
    ∷ out byte 0x21 1
    ∷ out byte 0xa1 2
    ∷ out byte 0x21 4
    ∷ out byte 0xa1 0x70
    ∷ out byte 0x21 8
    ∷ out byte 0xa0 0x11
    ∷ out byte 0x20 0x11
    ∷ h

-- On an i440FX or a Q35 that lets the image be written at least behind the writes of setup_pam, with the
-- image and the byte `rom_check` below 1 MB, setup_hw returns true. Both parts of the image in RAM are
-- then what stood in ROM, 0xfff00000 bytes higher, and no other byte but `rom_check` has changed.
pub setup_hw-Shadowed :
    (s : Machine)
    → IsLinked s.symbols
    → s.mem s.symbols.rom_check < 256
    → ((host_id s ≡ i440fx_id) × Opens s.env 0x59) ⊎ ((host_id s ≡ q35_id) × Opens s.env 0x90)
    → (g : Memory) × (h : List Io) × (setup_hw s ≡ ok true (record s { io = h; mem = g }))
      × Shadowed s.symbols s.mem g
unfolding setup_hw pci_config_readl
setup_hw-Shadowed s l b (inl (e, opens)) =
    let (h1, first) = setup_piix-SetPorts (id_read s) in
    let (h2, second) = setup_piix_pm-SetPorts (record s { io = h1 }) in
    let (g, h3, third, shadowed) = shadow_bios-Shadowed 0x59 (record s { io = h2 }) l b opens in
    (g, pic_writes h3, rw (e, first, second, third) refl, shadowed)
setup_hw-Shadowed s l b (inr (e, opens)) =
    let (h1, first) = setup_ich9-SetPorts (id_read s) in
    let (h2, second) = setup_ich9_pm-SetPorts (record s { io = h1 }) in
    let (g, h3, third, shadowed) = shadow_bios-Shadowed 0x90 (record s { io = h2 }) l b opens in
    (g, pic_writes h3, rw (e, first, second, third) refl, shadowed)
