-- ===== src/Smbios/Room.antt =====
-- The type 0 table, and the room that is left for it in front of the other structures.
use qboot.Base.{ℕ, inl, arith, ◌+◌, ◌-◌, ◌≡◌, ◌∙◌}
use qboot.Memory.{Memory, st8}
use qboot.Memory.Frame.{st8-ne, st8_self}
use qboot.Memory.Changed.{Changed, changes}
use qboot.Smbios.{
  smbios_new_type_0, bios_name, bios_version, bios_date, t0_len, set_str_field, type_0_fields,
  end_strings,
}

-- With its three strings the type 0 structure stays inside of the `t0_len` bytes from its start:
-- it never overwrites the structures behind it.
pub smbios_new_type_0-Changed :
    (start : ℕ) (m : Memory)
    → Changed start t0_len m (smbios_new_type_0 start bios_name bios_version bios_date m)
unfolding smbios_new_type_0 set_str_field type_0_fields end_strings
smbios_new_type_0-Changed start m = search changes

-- The stores behind the first two do not meet them.
smbios_new_type_0-rest :
    (start : ℕ) (m : Memory)
    → Changed
        (start + 2)
        (t0_len - 2)
        (st8 (st8 m start 0) (start + 1) 24)
        (smbios_new_type_0 start bios_name bios_version bios_date m)
unfolding smbios_new_type_0 set_str_field type_0_fields end_strings
smbios_new_type_0-rest start m = search changes

-- The structure has type 0, and its formatted part 24 bytes.
pub smbios_new_type_0-header :
    (start : ℕ) (m : Memory)
    → let g = smbios_new_type_0 start bios_name bios_version bios_date m in
      (g start ≡ 0) × (g (start + 1) ≡ 24)
smbios_new_type_0-header start m =
    let rest = smbios_new_type_0-rest start m in
    let m1 = st8 m start 0 in
    (
      rest.outside start (inl (omega arith))
          ∙ st8-ne m1 (start + 1) 24 start (λ e. omega (arith, e))
          ∙ st8_self m start 0,
      rest.outside (start + 1) (inl (omega arith)) ∙ st8_self m1 (start + 1) 24,
    )
