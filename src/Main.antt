-- ===== src/Main.antt =====
-- main.c: the interrupt table, the memory map, and the order of the steps of the boot.
pub mod Idt
pub mod Entry
pub mod E820
pub mod Extract
use qboot.Base.Text.{codes}
use qboot.Base.{
  ℕ, zero, suc, ◌+◌, ◌*◌, ◌-◌, ◌/◌, u16, u32, Option, none, some, ◌==◌, if◌then◌else◌, Bool, true,
  false, ◌>>>◌, u64, ◌^◌,
}
use qboot.Memory.{Memory, stw_p, stl_p, stq_p, ldl_p, ldq_p}
use qboot.Segment.{flat_to_off16, flat_to_seg16}
use qboot.Machine.{Fw, pure, panic, ◌>>=◌, ◌>>◌, gets, modify, load, store, symbol, when}
use qboot.Malloc.{malloc}
use qboot.PciConfig.{pcie_mmconfig_base, pcie_mmconfig_size}
use qboot.FwCfg.{fw_cfg_file_id, fw_cfg_file_size, fw_cfg_read_file}
use qboot.Tables.{literal}

unfoldable pub set_realmode_int : ℕ → ℕ → Memory → Memory
unfolding flat_to_off16 flat_to_seg16
set_realmode_int vec p m =
    stw_p (stw_p m (vec * 4) (flat_to_off16 p)) (vec * 4 + 2) (flat_to_seg16 p)

-- `for (i = from; i < from + n; i++) set_realmode_int(i, p);`
unfoldable pub set_range : ℕ → ℕ → ℕ → Memory → Memory
set_range zero i p m = m
set_range (suc n) i p m = set_range n (suc i) p (set_realmode_int i p m)

-- The table for the handlers' addresses.
unfoldable pub idt : (fake irq int10 int15 : ℕ) → Memory → Memory
unfolding set_range
idt fake irq int10 int15 m =
    let m1 = set_range 256 0 fake m in
    let m2 = set_range 8 8 irq m1 in
    let m3 = set_range 8 0x70 irq m2 in set_realmode_int 0x15 int15 (set_realmode_int 0x10 int10 m3)

unfoldable pub setup_idt : Fw (Unit {0})
unfolding idt
setup_idt = do
  fake ← symbol (λ y. y.bios_intfake)
  irq ← symbol (λ y. y.bios_irq)
  int10 ← symbol (λ y. y.bios_int10)
  int15 ← symbol (λ y. y.bios_int15)
  store (idt fake irq int10 int15)

-- E820_RAM, E820_RESERVED and E820_NVS.
abbrev pub e820_ram : ℕ
e820_ram = 1

abbrev pub e820_reserved : ℕ
e820_reserved = 2

abbrev pub e820_nvs : ℕ
e820_nvs = 4

-- `&e820->map[i]`, and the assignment of a `struct e820entry`.
abbrev pub entry_addr : ℕ → ℕ → ℕ
entry_addr e820 i = e820 + 4 + 20 * i

unfoldable pub st_entry : ℕ → (addr size type : ℕ) → Memory → Memory
st_entry p addr size type m = stl_p (stq_p (stq_p m p addr) (p + 8) size) (p + 16) type

-- `size / sizeof(e820->map[0]) + 5`
unfoldable pub map_entries : ℕ → ℕ
map_entries size = size / 20 + 5

-- The fixed entries, and the first entry of the machine's own.
unfoldable pub st_fixed : ℕ → ℕ → Memory → Memory
unfolding st_entry
st_fixed e820 nr_map m =
    let m0 = stl_p m e820 nr_map in
    let m1 = st_entry (entry_addr e820 0) 0 (639 * 1024) e820_ram m0 in
    let m2 = st_entry (entry_addr e820 1) (639 * 1024) 1024 e820_reserved m1 in
    let m3 = st_entry (entry_addr e820 2) 0xd0000 (128 * 1024) e820_nvs m2 in
    st_entry (entry_addr e820 3) 0xf0000 (64 * 1024) e820_reserved m3

unfoldable pub st_mmconfig : Bool → ℕ → Memory → Memory
unfolding st_entry
st_mmconfig have e820 m =
    if have
    then st_entry (entry_addr e820 4) pcie_mmconfig_base pcie_mmconfig_size e820_reserved m
    else m

abbrev pub first_free : Bool → ℕ
first_free have = if have then 5 else 4

-- The search for the entry at address 0, with the entries left and `i`: the size of that entry, if
-- there is one, and its index.
unfoldable pub find_lowmem : Memory → ℕ → ℕ → ℕ → Option ℕ
find_lowmem m e820 zero i = none
find_lowmem m e820 (suc n) i =
    let rest = find_lowmem m e820 n (suc i) in
    if ldq_p m (entry_addr e820 i) == 0 then some i else rest

-- The entry at 0 is moved to 1 MB, and shortened by as much.
unfoldable pub st_lowmem : ℕ → ℕ → Memory → Memory
st_lowmem e820 i m =
    let p = entry_addr e820 i in
    let m1 = stq_p m p (1024 * 1024) in
    stq_p m1 (p + 8) (u64 (ldq_p m1 (p + 8) + 2 ^ 64 - 1024 * 1024))

unfoldable pub extract_e820 : Fw (Unit {0})
unfolding map_entries st_fixed st_mmconfig find_lowmem st_lowmem
extract_e820 = do
  id ← fw_cfg_file_id (literal (codes "etc/e820"))
  elim id [
    | none ↦ panic
    | some file ↦ do
      size ← fw_cfg_file_size (some file)
      let nr_map = map_entries size
      e820 ← malloc (u32 (4 + 20 * nr_map))
      modify (λ g. record g { e820 = e820 })
      have ← gets (λ g. g.have_mmconfig)
      store (λ m. st_mmconfig have e820 (st_fixed e820 nr_map m))
      fw_cfg_read_file (some file) (entry_addr e820 (first_free have)) size
      found ← load (λ m. find_lowmem m e820 (ldl_p m e820 - first_free have) (first_free have))
      elim found [
        | none ↦ pure tt
        | some i ↦ do
          top ← load (λ m. ldq_p m (entry_addr e820 i + 8))
          modify (λ g. record g { lowmem = u32 top })
          store (st_lowmem e820 i)
      ]
      modify (λ g. record g { e820_seg = u16 (e820 >>> 4) })
  ]
