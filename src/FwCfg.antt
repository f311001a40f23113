-- ===== src/FwCfg.antt =====
-- include/fw_cfg.h and the first half of fw_cfg.c: the ports of QEMU's configuration device, its
-- file directory, and reads through port I/O or DMA. An id of -1 is `none`.
pub mod Item
pub mod Words
pub mod Names
pub mod Served
pub mod Transfer
pub mod Descriptor
pub mod Contract
pub mod Sequence
pub mod Swap
pub mod Directory
use qboot.Base.Bswap.{bswap16, bswap32, bswap64}
use qboot.Base.{
  ℕ, zero, suc, ◌+◌, ◌*◌, Option, none, some, ℤ, pos, Bool, bit_and, bit_or, ◌<<◌, ◌==◌, ◌!=◌,
  if◌then◌else◌, u32, not32, char_sub, ltb,
}
use qboot.Memory.{Memory, stl_p, stw_p, stq_p, ldl_p, lduw_p}
use qboot.Machine.{
  Fw, ok, pure, ◌>>=◌, ◌>>◌, gets, modify, load, store, symbol, no_fuel, undefined_behaviour,
}
use qboot.Machine.Ports.{outw, outl, inb, insb}
use qboot.Malloc.{malloc_fseg}
use qboot.CString.{is_zero}

-- Port 0x510 selects an item, port 0x511 is read, and port 0x518 takes the address of a DMA
-- descriptor.
unfoldable pub fw_cfg_select : ℕ → Fw (Unit {0})
fw_cfg_select f = outw 0x510 f

unfoldable pub fw_cfg_readb : Fw ℕ
fw_cfg_readb = inb 0x511

-- `(val << 8) | inb`, and `(inb << k) | val`.
unfoldable pub join_be : ℕ → ℕ → ℕ
join_be val b = bit_or (u32 (val << 8)) b

unfoldable pub join_le : ℕ → ℕ → ℕ → ℕ
join_le k val b = bit_or (u32 (b << k)) val

unfoldable pub fw_cfg_readw_be : Fw ℕ
unfolding join_be
fw_cfg_readw_be = do a ← inb 0x511; b ← inb 0x511; pure (join_be a b)

unfoldable pub fw_cfg_readw_le : Fw ℕ
unfolding join_le
fw_cfg_readw_le = do a ← inb 0x511; b ← inb 0x511; pure (join_le 8 a b)

unfoldable pub fw_cfg_readl_be : Fw ℕ
unfolding join_be
fw_cfg_readl_be = do
  a ← inb 0x511
  b ← inb 0x511
  c ← inb 0x511
  d ← inb 0x511
  pure (join_be (join_be (join_be a b) c) d)

unfoldable pub fw_cfg_readl_le : Fw ℕ
unfolding join_le
fw_cfg_readl_le = do
  a ← inb 0x511
  b ← inb 0x511
  c ← inb 0x511
  d ← inb 0x511
  pure (join_le 24 (join_le 16 (join_le 8 a b) c) d)

unfoldable pub fw_cfg_skip : ℕ → Fw (Unit {0})
fw_cfg_skip zero = pure tt
fw_cfg_skip (suc len) = do inb 0x511; fw_cfg_skip len

-- The wait for the device: `k` polls have been made. What the device has written to memory is seen
-- by the poll after which the loop ends.
pub dma_wait : ℕ → ℕ → Fw (Unit {0})
dma_wait zero k = no_fuel
dma_wait (suc fuel) k = λ s.
    let seen = s.env.dma s.io k s.mem in
    let rest = dma_wait fuel (suc k) s in
    if bit_and (bswap32 (ldl_p seen s.symbols.dma)) (not32 1) == 0
    then ok tt (record s { mem = seen })
    else rest

unfoldable pub fw_cfg_dma : (control buf len : ℕ) → Fw (Unit {0})
unfolding dma_wait
fw_cfg_dma control buf len = do
  dma ← symbol (λ y. y.dma)
  store (λ m. stl_p m dma (bswap32 control))
  store (λ m. stl_p m (dma + 4) (bswap32 len))
  store (λ m. stq_p m (dma + 8) (bswap64 buf))
  outl 0x518 (bswap32 dma)
  λ s. dma_wait s.fuel 0 s

-- Bit 1 of the version says that the device offers DMA.
unfoldable pub fw_cfg_read : (buf len : ℕ) → Fw (Unit {0})
unfolding fw_cfg_dma
fw_cfg_read buf len = do
  version ← gets (λ g. g.version)
  if bit_and version 0x02 != 0 then fw_cfg_dma 0x02 buf len else insb buf 0x511 len

unfoldable pub fw_cfg_read_entry : (e buf len : ℕ) → Fw (Unit {0})
unfolding fw_cfg_dma fw_cfg_select
fw_cfg_read_entry e buf len = do
  version ← gets (λ g. g.version)
  if bit_and version 0x02 != 0
      then fw_cfg_dma (bit_or (bit_or (u32 (e << 16)) 0x08) 0x02) buf len
      else (do fw_cfg_select e; insb buf 0x511 len)

-- `struct fw_cfg_file`: size at 0, selector at 4, name at 8, 64 bytes in all.
abbrev pub file_at : ℕ → ℕ → ℕ
file_at files i = files + 64 * i

-- The rounds of a loop up to an `int` that has the bits of `n`: none for a negative one.
abbrev pub int_rounds : ℕ → ℕ
int_rounds n = if ltb n 0x80000000 then n else 0

-- The byte swaps of the directory entries, with the rounds left and `i`.
unfoldable pub swap_loop : ℕ → ℕ → ℕ → Memory → Memory
swap_loop files zero i m = m
swap_loop files (suc n) i m =
    let f = file_at files i in
    let m1 = stl_p m f (bswap32 (ldl_p m f)) in
    let m2 = stw_p m1 (f + 4) (bswap16 (lduw_p m1 (f + 4))) in swap_loop files n (i + 1) m2

unfoldable pub fw_cfg_setup : Fw (Unit {0})
fw_cfg_setup = do
  fw_cfg_select 0x01
  version ← fw_cfg_readl_le
  modify (λ g. record g { version = version })
  fw_cfg_select 0x19
  n ← fw_cfg_readl_be
  modify (λ g. record g { filecnt = n })
  files ← malloc_fseg (u32 (64 * n))
  modify (λ g. record g { files = files })
  fw_cfg_read files (u32 (64 * n))
  store (swap_loop files (int_rounds n) 0)

-- The bytes of a name that is searched for, by index: a literal, or an array in memory.
abbrev pub Name : Type 0
Name = ℕ → ℕ

-- `n` counts down, `i` is how far both pointers have moved.
unfoldable pub filenamecmp_loop : Name → Name → ℕ → ℕ → ℤ
filenamecmp_loop a b zero i = char_sub (a i) (b i)
filenamecmp_loop a b (suc n) i =
    let rest = filenamecmp_loop a b n (suc i) in
    if a i == b i
    then (if a i == 0 then char_sub (a i) (b i) else if n == 0 then char_sub (a i) 0 else rest)
    else char_sub (a i) (b i)

-- `name` of the entry `f` is compared with `a`.
unfoldable pub filenamecmp : Name → Memory → ℕ → ℤ
unfolding filenamecmp_loop
filenamecmp a m f = filenamecmp_loop a (λ i. m (f + 8 + i)) 56 0

-- The search, with the rounds left and `i`.
unfoldable pub file_id_loop : Name → Memory → ℕ → ℕ → ℕ → Option ℕ
file_id_loop name m files zero i = none
file_id_loop name m files (suc n) i =
    let rest = file_id_loop name m files n (suc i) in
    if is_zero (filenamecmp name m (file_at files i)) then some i else rest

unfoldable pub fw_cfg_file_id : Name → Fw (Option ℕ)
unfolding file_id_loop
fw_cfg_file_id name = do
  files ← gets (λ g. g.files)
  n ← gets (λ g. g.filecnt)
  load (λ m. file_id_loop name m files (int_rounds n) 0)

unfoldable pub fw_cfg_file_size : Option ℕ → Fw ℕ
fw_cfg_file_size none = pure 0
fw_cfg_file_size (some id) = do files ← gets (λ g. g.files); load (λ m. ldl_p m (file_at files id))

unfoldable pub fw_cfg_file_select : Option ℕ → Fw (Unit {0})
unfolding fw_cfg_select
fw_cfg_file_select none = undefined_behaviour
fw_cfg_file_select (some id) = do
  files ← gets (λ g. g.files)
  select ← load (λ m. lduw_p m (file_at files id + 4))
  fw_cfg_select select

unfoldable pub fw_cfg_read_file : Option ℕ → (buf len : ℕ) → Fw (Unit {0})
unfolding fw_cfg_read_entry
fw_cfg_read_file none buf len = undefined_behaviour
fw_cfg_read_file (some id) buf len = do
  files ← gets (λ g. g.files)
  select ← load (λ m. lduw_p m (file_at files id + 4))
  fw_cfg_read_entry select buf len
