-- ===== src/Boot/Ramdisk.antt =====
-- The initrd of a PVH kernel (boot_pvh_from_fw_cfg): its bytes, and the module list that start_info
-- leads to.
use qboot.Base.{
  ℕ, ◌+◌, ◌<◌, ◌≡◌, ◌≢◌, ◌==◌, ◌^◌, ◌∙◌, ◌∷◌, refl, arith, inl, inr, List, Bool-cases, ◌≤◌,
}
use qboot.Memory.{Memory, ldq_p, stq_p}
use qboot.Memory.Frame.{Outside}
use qboot.Memory.Wide.{stq_p-Outside, ldq_p-stq_p, ldq_p-agree}
use qboot.CString.Copy.{Apart}
use qboot.Machine.{Machine, Io, HvmStartInfo, ok, out, word}
use qboot.FwCfg.Item
use qboot.FwCfg.Served.{reads}
use qboot.FwCfg.Contract.{Serves, number, number-lt, fw_cfg_read_entry-Serves}
use qboot.Boot.{pvh_initrd}
use qboot.Boot.Items.{read_item-Serves}

-- One module at `entry`, with the address and the size of the initrd.
abbrev pub HasModule : (ℕ → ℕ → ℕ) → (entry : ℕ) → HvmStartInfo → Memory → Type 0
HasModule items entry info g =
    (info.nr_modules ≡ 1)
    × (info.modlist_paddr ≡ entry)
    × (ldq_p g entry ≡ number items Item.initrd_addr)
    × (ldq_p g (entry + 8) ≡ number items Item.initrd_size)

-- With an initrd, start_info leads to one module at `entry`, which gives its address and size, and its
-- bytes are there; without one, there is no module.
pub record HasRamdisk (items : ℕ → ℕ → ℕ) (entry : ℕ) (info : HvmStartInfo) (g : Memory)
    : Type 0 where
  pub no_module : number items Item.initrd_size ≡ 0 → info.nr_modules ≡ 0
  pub one_module : number items Item.initrd_size ≢ 0 → HasModule items entry info g
  pub bytes :
      (i : ℕ)
      → i < number items Item.initrd_size
      → g (number items Item.initrd_addr + i) ≡ items Item.initrd_data i

-- Only the two fields of start_info, the entry of the module and the bytes of the initrd matter.
pub HasRamdisk-agree :
    {items : ℕ → ℕ → ℕ} {entry : ℕ} {info : HvmStartInfo} {m : Memory} (info' : HvmStartInfo)
    (g : Memory)
    → info'.nr_modules ≡ info.nr_modules
    → info'.modlist_paddr ≡ info.modlist_paddr
    → ((a : ℕ) → entry ≤ a → a < entry + 16 → g a ≡ m a)
    → ((i : ℕ)
        → i < number items Item.initrd_size
        → g (number items Item.initrd_addr + i) ≡ m (number items Item.initrd_addr + i))
    → HasRamdisk items entry info m
    → HasRamdisk items entry info' g
HasRamdisk-agree {items} {entry} {info} {m} info' g e f h k r = record {
  no_module = λ zero_size. e ∙ r.no_module zero_size;
  one_module = λ some_size.
      let (one, leads, paddr, size) = r.one_module some_size in
      (
        e ∙ one,
        f ∙ leads,
        ldq_p-agree m g entry (λ a l u. h a l (omega arith)) ∙ paddr,
        ldq_p-agree m g (entry + 8) (λ a l u. h a (omega arith) (omega arith)) ∙ size,
      );
  bytes = λ i l. k i l ∙ r.bytes i l;
}

-- The start_info with a list of modules.
abbrev pub with_modules : HvmStartInfo → (modlist_paddr nr_modules : ℕ) → HvmStartInfo
with_modules info p n = record info { modlist_paddr = p; nr_modules = n }

-- The two fields of the entry of a module.
pub store_module-Outside :
    (m : Memory) (p addr size a : ℕ) → Outside p 16 a → stq_p (stq_p m p addr) (p + 8) size a ≡ m a
store_module-Outside m p addr size a o =
    stq_p-Outside (stq_p m p addr) (p + 8) size a (ground arith)
    ∙ stq_p-Outside m p addr a (ground arith)

store_module-fields :
    (m : Memory) (p addr size : ℕ)
    → addr < 2 ^ 32
    → size < 2 ^ 32
    → let g = stq_p (stq_p m p addr) (p + 8) size in (ldq_p g p ≡ addr) × (ldq_p g (p + 8) ≡ size)
store_module-fields m p addr size ha hs =
    let m1 = stq_p m p addr in
    (
      ldq_p-agree m1 (stq_p m1 (p + 8) size) p
            (λ a k l. stq_p-Outside m1 (p + 8) size a (inl (omega arith)))
          ∙ ldq_p-stq_p m p addr
          ∙ omega arith,
      ldq_p-stq_p m1 (p + 8) size ∙ omega arith,
    )

module _ (items : ℕ → ℕ → ℕ) (s : Machine)
    (serves : Serves s.env s.symbols.dma s.fuel s.globals.version items) where
  pub pvh_initrd-runs :
      s.globals.start_info.nr_modules ≡ 0
      → s.symbols.dma < 2 ^ 32
      → let addr = number items Item.initrd_addr in
        let size = number items Item.initrd_size in
        Apart addr size s.symbols.dma 16
        → Apart addr size s.symbols.ramdisk_mod 16
        → (g : Memory) × (h : List Io) × (p : ℕ) × (n : ℕ) × (pvh_initrd s
            ≡ ok tt (record s {
              io = h;
              mem = g;
              globals = record s.globals { start_info = with_modules s.globals.start_info p n };
            }))
          × HasRamdisk items s.symbols.ramdisk_mod (with_modules s.globals.start_info p n) g
          × ((a : ℕ)
              → Outside addr size a
              → Outside s.symbols.dma 16 a
              → Outside s.symbols.ramdisk_mod 16 a
              → g a ≡ s.mem a)
  unfolding pvh_initrd
  pvh_initrd-runs none_yet hd apart apart_mod =
      let addr = number items Item.initrd_addr in
      let size = number items Item.initrd_size in
      let p = s.symbols.ramdisk_mod in
      let size_read = read_item-Serves items Item.initrd_size s (omega arith) serves in
      elim (Bool-cases (size == 0)) [
        | inl empty ↦
            let zero_size : size ≡ 0 = ground arith in
            (
              s.mem,
              reads 4 (out word 0x510 Item.initrd_size ∷ s.io),
              s.globals.start_info.modlist_paddr,
              s.globals.start_info.nr_modules,
              rw (size_read, empty) refl,
              record {
                no_module = λ _. none_yet;
                one_module = λ h. absurd (h zero_size);
                bytes = λ i l. absurd (omega (arith, zero_size));
              },
              λ a x y z. refl,
            )
        | inr some_size ↦
            let t : Machine = record s { io = reads 4 (out word 0x510 Item.initrd_size ∷ s.io) } in
            let addr_read = read_item-Serves items Item.initrd_addr t (omega arith) serves in
            let u : Machine = record t { io = reads 4 (out word 0x510 Item.initrd_addr ∷ t.io) } in
            let ha = number-lt items Item.initrd_addr s (omega arith) serves in
            let hs = number-lt items Item.initrd_size s (omega arith) serves in
            let (g, h, read, (filled, same)) =
              fw_cfg_read_entry-Serves items Item.initrd_data u (omega arith) serves addr size
                (omega arith) hs hd apart in
            let (paddr, size_at) = store_module-fields g p addr size ha hs in
            let kept = λ (a : ℕ) (o : Outside p 16 a). store_module-Outside g p addr size a o in
            (
              stq_p (stq_p g p addr) (p + 8) size,
              h,
              p,
              1,
              rw (size_read, some_size, addr_read, read) refl,
              record {
                no_module = λ e. absurd (ground arith);
                one_module = λ _. (refl, refl, paddr, size_at);
                bytes = λ i l. kept (addr + i) (ground arith) ∙ filled i l;
              },
              λ a x y z. kept a z ∙ same a x y,
            )
      ]
