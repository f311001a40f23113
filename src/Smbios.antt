-- ===== src/Smbios.antt =====
-- smbios.c: the SMBIOS entry point and tables from the firmware configuration, with a type 0 table
-- of the firmware's own if there is none.
pub mod Chain
pub mod Sums
pub mod Room
pub mod Entry
pub mod Finish
use qboot.Base.Text.{codes}
use qboot.Base.{
  ℕ, zero, suc, ◌+◌, ◌-◌, Bool, true, false, ◌&&◌, ◌||◌, ◌==◌, ◌!=◌, ltb, leb, if◌then◌else◌, u8,
  u16, u32, sub8, sub32, Option, none, some, List, [], ◌∷◌, ◌++◌, length,
}
use qboot.Memory.{Memory, st8, stw_p, stl_p, lduw_p, ldl_p, memset, st_bytes}
use qboot.CString.{csum8}
use qboot.Machine.{Fw, pure, ◌>>=◌, ◌>>◌, load, store, no_fuel}
use qboot.Malloc.{malloc_fseg}
use qboot.FwCfg.{fw_cfg_file_id, fw_cfg_file_size, fw_cfg_read_file}
use qboot.Tables.{literal}

-- BIOS_NAME, VERSION and BIOS_DATE.
abbrev pub bios_name : List ℕ
bios_name = codes "qboot"

abbrev pub bios_version : List ℕ
bios_version = codes "0.1"

abbrev pub bios_date : List ℕ
bios_date = codes "11/11/2019"

-- The memory and the locals `end` and `str_index`.
pub record Strings : Type 0 where
  pub mem : Memory
  pub end : ℕ
  pub str_index : ℕ

-- `set_str_field_or_skip`, with the address of the field.
unfoldable pub set_str_field : (field : ℕ) → List ℕ → Strings → Strings
set_str_field field value b =
    let size = length value + 1 in
    if ltb 1 size
    then record {
      mem = st8 (st_bytes b.mem b.end (value ++ 0 ∷ [])) field (u8 (b.str_index + 1));
      end = b.end + size;
      str_index = b.str_index + 1;
    }
    else record b { mem = st8 b.mem field 0 }

-- The fields behind the strings' numbers.
unfoldable pub type_0_fields : ℕ → Memory → Memory
type_0_fields p m =
    let m1 = memset (st8 m (p + 9) 0) (p + 10) 0 8 in
    let m2 = st8 (st8 (st8 m1 (p + 10) 8) (p + 18) 0) (p + 19) 4 in
    st8 (st8 (st8 (st8 m2 (p + 20) 0) (p + 21) 0) (p + 22) 255) (p + 23) 255

-- The NUL behind the last string, and a second one if there is none.
unfoldable pub end_strings : Strings → Memory
end_strings b = let m = st8 b.mem b.end 0 in if b.str_index == 0 then st8 m (b.end + 1) 0 else m

unfoldable pub smbios_new_type_0 : (start : ℕ) → (vendor version date : List ℕ) → Memory → Memory
unfolding set_str_field type_0_fields end_strings
smbios_new_type_0 start vendor version date m =
    let m0 = stw_p (st8 (st8 m start 0) (start + 1) 24) (start + 2) 0 in
    let b0 : Strings = record { mem = m0; end = start + 24; str_index = 0 } in
    let b1 = set_str_field (start + 4) vendor b0 in
    let b2 = set_str_field (start + 5) version b1 in
    let b3 = record b2 { mem = stw_p b2.mem (start + 6) 0xe800 } in
    let b4 = set_str_field (start + 8) date b3 in
    end_strings (record b4 { mem = type_0_fields start b4.mem })

-- The loop to the second of two NULs in a row, with `end - ptr` rounds left.
unfoldable pub skip_strings : Memory → ℕ → ℕ → ℕ
skip_strings m ptr zero = ptr
skip_strings m ptr (suc n) =
    let rest = skip_strings m (suc ptr) n in
    if m (ptr - 1) != 0 || m (ptr - 2) != 0 then rest else ptr

-- The last test: NULL for a header that does not lie in the tables.
unfoldable pub header_at : Memory → (end ptr : ℕ) → Option ℕ
header_at m end ptr =
    if leb end ptr || leb end (ptr + 4) || leb end (ptr + m (ptr + 1)) then none else some ptr

-- The structure behind `hdr`, or the first one for NULL.
unfoldable pub smbios_next : Memory → (ep : ℕ) → Option ℕ → Option ℕ
unfolding skip_strings header_at
smbios_next m ep none =
    let start = ldl_p m (ep + 24) in header_at m (start + lduw_p m (ep + 22)) start
smbios_next m ep (some hdr) =
    let end = ldl_p m (ep + 24) + lduw_p m (ep + 22) in
    let ptr = hdr + m (hdr + 1) + 2 in
    if ltb end (hdr + 4) then none else header_at m end (skip_strings m ptr (end - ptr))

-- `need_t0` after the search for a type 0 structure behind `hdr`, on fuel.
unfoldable pub need_t0 : ℕ → Memory → (ep : ℕ) → Option ℕ → Option Bool
unfolding smbios_next
need_t0 zero m ep hdr = none
need_t0 (suc fuel) m ep hdr = elim (smbios_next m ep hdr) [
  | none ↦ some true
  | some p ↦ elim (m p == 0) [ true ↦ some false | false ↦ need_t0 fuel m ep (some p) ]
]

-- `sizeof(struct smbios_type_0)`, the three strings and 4.
abbrev pub t0_len : ℕ
t0_len = u16 (24 + length bios_name + length bios_version + length bios_date + 4)

-- The changes to the entry point for one more structure of `t0_len` bytes.
unfoldable pub count_type_0 : (ep : ℕ) → Memory → Memory
count_type_0 ep m =
    let m1 = stw_p m (ep + 28) (u16 (lduw_p m (ep + 28) + 1)) in
    let m2 = stl_p m1 (ep + 24) (sub32 (ldl_p m1 (ep + 24)) t0_len) in
    let m3 = stw_p m2 (ep + 22) (u16 (lduw_p m2 (ep + 22) + t0_len)) in
    if ltb (lduw_p m3 (ep + 8)) t0_len then stw_p m3 (ep + 8) t0_len else m3

-- Both checksums of the entry point.
unfoldable pub sum_entry_point : (ep : ℕ) → Memory → Memory
unfolding csum8
sum_entry_point ep m =
    let m1 = st8 m (ep + 4) (sub8 (m (ep + 4)) (csum8 m ep 16)) in
    st8 m1 (ep + 21) (sub8 (m1 (ep + 21)) (csum8 m1 (ep + 16) (sub32 (m1 (ep + 5)) 16)))

-- What follows once both files are in memory.
unfoldable pub finish_smbios : (ep qtables qtables_length : ℕ) → Fw (Unit {0})
finish_smbios ep qtables qtables_length = do
  store (λ m. stl_p m (ep + 24) (u32 qtables))
  store (λ m. stw_p m (ep + 22) qtables_length)
  need ← load (λ m. need_t0 (suc qtables_length) m ep none)
  elim need [
    | none ↦ no_fuel
    | some true ↦ do
      store (smbios_new_type_0 (qtables - t0_len) bios_name bios_version bios_date)
      store (count_type_0 ep)
      store (sum_entry_point ep)
    | some false ↦ store (sum_entry_point ep)
  ]

-- An id of -1, a size that does not match and a block at 0 end the work early.
unfoldable pub extract_tables : (ep : ℕ) → Fw (Unit {0})
unfolding finish_smbios
extract_tables ep = do
  qtables_length ← load (λ m. lduw_p m (ep + 22))
  id ← fw_cfg_file_id (literal (codes "etc/smbios/smbios-tables"))
  size ← fw_cfg_file_size id
  elim id [
    | none ↦ pure tt
    | some file ↦ if qtables_length != size then pure tt else (do
      block ← malloc_fseg (qtables_length + t0_len)
      if block == 0 then pure tt else (do
        fw_cfg_read_file (some file) (block + t0_len) qtables_length
        finish_smbios ep (block + t0_len) qtables_length))
  ]

unfoldable pub extract_smbios : Fw (Unit {0})
unfolding extract_tables
extract_smbios = do
  id ← fw_cfg_file_id (literal (codes "etc/smbios/smbios-anchor"))
  size ← fw_cfg_file_size id
  elim id [
    | none ↦ pure tt
    | some file ↦ if size != 31 then pure tt else (do
      ep ← malloc_fseg 31
      if ep == 0 then pure tt else (do fw_cfg_read_file (some file) ep 31; extract_tables ep))
  ]
