-- ===== src/Tables.antt =====
-- tables.c: the script that QEMU's firmware configuration gives for loading the ACPI tables.
pub mod Patch
pub mod Checksum
use qboot.Base.Text.{codes}
use qboot.Base.{
  ℕ, zero, suc, ◌+◌, ◌*◌, ◌-◌, ◌/◌, ◌%◌, ◌^◌, ◌<◌, Option, none, some, List, [], ◌∷◌, Bool, ◌||◌,
  ltb, leb, ◌==◌, if◌then◌else◌, u8, u32, u64, sub8, sub32, get_elem?, get_or, set, true, ◌&&◌,
}
use qboot.Memory.{Memory, st8, ldl_p}
use qboot.Machine.{
  Fw, pure, panic, undefined_behaviour, ◌>>=◌, ◌>>◌, gets, modify, load, store, symbol,
}
use qboot.Malloc.{malloc_align, malloc_fseg_align}
use qboot.CString.{csum8}
use qboot.FwCfg.{Name, fw_cfg_file_id, fw_cfg_file_size, fw_cfg_read_file}

-- `file_address[fw_cfg_id]`; an index of -1, or of 20 and above, is outside of the array.
unfoldable pub id_to_addr : Option ℕ → Fw ℕ
id_to_addr none = undefined_behaviour
id_to_addr (some id) = do
  table ← gets (λ g. g.file_address)
  elim (get_elem? table id) [ none ↦ undefined_behaviour | some p ↦ pure p ]

unfoldable pub set_file_addr : ℕ → ℕ → Fw (Unit {0})
set_file_addr id p =
    if ltb id 20
    then modify (λ g. record g { file_address = set g.file_address id p })
    else undefined_behaviour

-- `memcmp` of the string's characters with the memory at `p`.
unfoldable pub same_bytes : Memory → List ℕ → ℕ → Bool
same_bytes m [] p = true
same_bytes m (x ∷ xs) p = m p == x && same_bytes m xs (suc p)

-- "RSD PTR " at `p`.
unfoldable pub is_rsdp : Memory → ℕ → Bool
unfolding same_bytes
is_rsdp m p = same_bytes m (codes "RSD PTR ") p

-- `zone` 2 is ALLOC_FSEG.
unfoldable pub do_alloc : (file : Name) → (align zone : ℕ) → Fw (Unit {0})
unfolding set_file_addr id_to_addr is_rsdp
do_alloc file align zone = do
  id ← fw_cfg_file_id file
  n ← fw_cfg_file_size id
  elim id [
    | none ↦ panic
    | some i ↦ do
      let a = if ltb align 16 then 16 else align
      p ← (if zone == 2 then malloc_fseg_align n a else malloc_align n a)
      set_file_addr i p
      fw_cfg_read_file (some i) p n
      rsdp ← load (λ m. is_rsdp m p)
      if zone == 2 && rsdp
          then (do
            addr ← id_to_addr (some i)
            modify (λ g. record g { start_info = record g.start_info { rsdp_paddr = addr } }))
          else pure tt
  ]

-- The `size` bytes at `q` as a number, lowest first, and the lowest `size` bytes of a number there.
unfoldable pub load_le : Memory → ℕ → ℕ → ℕ
load_le m q zero = 0
load_le m q (suc size) = m q + 256 * load_le m (suc q) size

unfoldable pub store_le : Memory → ℕ → ℕ → ℕ → Memory
store_le m q zero v = m
store_le m q (suc size) v = store_le (st8 m q (v % 256)) (suc q) size (v / 256)

-- The copy into the union, the sum there, and the copy back. More than 8 bytes overrun the union.
unfoldable pub add_pointer : (q size p : ℕ) → Memory → Memory
unfolding load_le store_le
add_pointer q size p m = store_le m q size (u64 (load_le m q size + p))

unfoldable pub do_ptr : (dest src : Name) → (offset size : ℕ) → Fw (Unit {0})
unfolding id_to_addr add_pointer
do_ptr dest src offset size = do
  src_id ← fw_cfg_file_id src
  p ← id_to_addr src_id
  if p == 0 then panic else do
    dest_id ← fw_cfg_file_id dest
    q ← id_to_addr dest_id
    if q == 0
        then panic
        else if ltb 8 size
        then undefined_behaviour
        else store (add_pointer (q + offset) size p)

-- `offset >= n || n < start || len > n - start`, all unsigned.
unfoldable pub checksum_out_of_range : (n offset start len : ℕ) → Bool
checksum_out_of_range n offset start len = leb n offset || ltb n start || ltb (sub32 n start) len

-- `p[offset] -= csum8(&p[start], len);`
unfoldable pub fix_checksum : (p offset start len : ℕ) → Memory → Memory
unfolding csum8
fix_checksum p offset start len m =
    st8 m (p + offset) (sub8 (m (p + offset)) (csum8 m (p + start) len))

unfoldable pub do_checksum : (file : Name) → (offset start len : ℕ) → Fw (Unit {0})
unfolding id_to_addr checksum_out_of_range fix_checksum
do_checksum file offset start len = do
  id ← fw_cfg_file_id file
  p ← id_to_addr id
  if p == 0 then panic else do
    n ← fw_cfg_file_size id
    if checksum_out_of_range n offset start len
        then panic
        else store (fix_checksum p offset start len)

-- `struct loader_cmd` is 128 bytes: the command, then the fields of its kind.
abbrev pub name_at : Memory → ℕ → Name
name_at m p i = m (p + i)

-- The loop over the script, with the commands left and the address of the next.
unfoldable pub run_script : ℕ → ℕ → Fw (Unit {0})
unfolding do_alloc do_ptr do_checksum
run_script zero s = pure tt
run_script (suc n) s = do
  cmd ← load (λ m. ldl_p m s)
  m ← load (λ m. m)
  let next = run_script n (s + 128)
  if cmd == 1
      then (do do_alloc (name_at m (s + 4)) (ldl_p m (s + 60)) (m (s + 64)); next)
      else if cmd == 2
      then (do
        do_ptr (name_at m (s + 4)) (name_at m (s + 60)) (ldl_p m (s + 116)) (m (s + 120))
        next)
      else if cmd == 3
      then (do
        do_checksum (name_at m (s + 4)) (ldl_p m (s + 60)) (ldl_p m (s + 64)) (ldl_p m (s + 68))
        next)
      else if cmd == 0
      then pure tt
      else panic

-- The characters of a string literal, and zeros behind them.
abbrev pub literal : List ℕ → Name
literal cs i = get_or cs i 0

unfoldable pub extract_acpi : Fw (Unit {0})
unfolding run_script
extract_acpi = do
  id ← fw_cfg_file_id (literal (codes "etc/table-loader"))
  n ← fw_cfg_file_size id
  if n == 0 then pure tt else do
    script ← symbol (λ y. y.script)
    fw_cfg_read_file id script n
    run_script (n / 128) script
