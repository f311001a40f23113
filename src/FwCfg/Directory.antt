-- ===== src/FwCfg/Directory.antt =====
-- fw_cfg_setup: the directory of the configuration device in memory.
use qboot.Base.{ℕ, ◌+◌, ◌*◌, ◌<◌, ◌≡◌, ◌≢◌, ◌^◌, ◌∙◌, ◌∷◌, refl, ap, arith, List, u32, bit_and, suc}
use qboot.Base.Bswap.{bswap16, bswap32}
use qboot.Memory.{Memory, ldl_p, lduw_p}
use qboot.Memory.Wide.{ldl_p-copied}
use qboot.CString.Copy.{Apart}
use qboot.Machine.{Machine, Io, Returns, out, word}
use qboot.Malloc.{up, malloc_fseg, malloc_fseg_align}
use qboot.Malloc.Align.{up-lt}
use qboot.FwCfg.{swap_loop, int_rounds, fw_cfg_setup, file_at, fw_cfg_select}
use qboot.FwCfg.Served.{reads, ServesPort, Transfers}
use qboot.FwCfg.Contract.{number, fw_cfg_readl-ServesPort}
use qboot.FwCfg.Sequence.{ServesPort-from, Ready, from, fw_cfg_read-Ready}
use qboot.FwCfg.Swap.{swap_loop-IsSwapped, swap_loop-Outside}

-- The number of files and their 64 bytes each, as the device gives them, big-endian.
abbrev pub file_count : (ℕ → ℕ → ℕ) → ℕ
file_count items = bswap32 (number items 0x19)

abbrev pub file_entries : (ℕ → ℕ → ℕ) → ℕ → ℕ
file_entries items = from 4 (items 0x19)

-- What the searches for files rely on: the variables, and in memory each entry with its size and its
-- selector in the processor's order, and with its name.
pub record IsDirectory (items : ℕ → ℕ → ℕ) (p : ℕ) (t : Machine) : Type 0 where
  pub version : t.globals.version ≡ number items 0x01
  pub filecnt : t.globals.filecnt ≡ file_count items
  pub files : t.globals.files ≡ p
  pub size :
      (k : ℕ)
      → k < file_count items
      → ldl_p t.mem (file_at p k) ≡ bswap32 (ldl_p (file_entries items) (64 * k))
  pub select :
      (k : ℕ)
      → k < file_count items
      → lduw_p t.mem (file_at p k + 4) ≡ bswap16 (lduw_p (file_entries items) (64 * k + 4))
  pub name :
      (k j : ℕ)
      → k < file_count items
      → j < 56
      → t.mem (file_at p k + 8 + j) ≡ file_entries items (64 * k + 8 + j)

-- The loop on a directory that has been read to `p`.
module _ (item : ℕ → ℕ) (p n : ℕ) (g : Memory) (at : (i : ℕ) → i < 64 * n → g (p + i) ≡ item i)
    (k : ℕ) where
  cell : (o : ℕ) → o < 64 → k < n → g (file_at p k + o) ≡ item (64 * k + o)
  cell o h l =
      let shift : file_at p k + o ≡ p + (64 * k + o) = omega arith in
      ap g shift ∙ at (64 * k + o) (omega arith)

  entry_size : k < n → ldl_p (swap_loop p n 0 g) (file_at p k) ≡ bswap32 (ldl_p item (64 * k))
  entry_size l =
      (swap_loop-IsSwapped p n 0 k g (omega arith) (omega arith)).size
      ∙ ap bswap32 (ldl_p-copied item g (file_at p k) (64 * k) (λ i h. cell i (omega arith) l))

  entry_select :
      k < n → lduw_p (swap_loop p n 0 g) (file_at p k + 4) ≡ bswap16 (lduw_p item (64 * k + 4))
  entry_select l =
      let next : suc (file_at p k + 4) ≡ file_at p k + 5 = omega arith in
      let next' : 64 * k + 5 ≡ suc (64 * k + 4) = omega arith in
      let word : lduw_p g (file_at p k + 4) ≡ lduw_p item (64 * k + 4) =
        omega (arith, cell 4 (omega arith) l, ap g next ∙ cell 5 (omega arith) l ∙ ap item next') in
      (swap_loop-IsSwapped p n 0 k g (omega arith) (omega arith)).select ∙ ap bswap16 word

  entry_name :
      (j : ℕ) → k < n → j < 56 → swap_loop p n 0 g (file_at p k + 8 + j) ≡ item (64 * k + 8 + j)
  entry_name j l h =
      let shift : file_at p k + 8 + j ≡ file_at p k + (8 + j) = omega arith in
      let shift' : 64 * k + (8 + j) ≡ 64 * k + 8 + j = omega arith in
      swap_loop-Outside p n 0 (file_at p k + 8 + j) g (λ i x y. ground arith)
      ∙ ap g shift
      ∙ cell (8 + j) (omega arith) l
      ∙ ap item shift'

-- Let the device serve its items through the port and, where the version offers DMA, let a transfer go
-- on behind the count of the files that the port has read. The directory has less than 4 GB and does
-- not meet the DMA descriptor. Then fw_cfg_setup returns with the version and the number of files in
-- their variables and with the directory in a block of the F-segment: each size and each selector has
-- its bytes turned around, and the names are as the device has them.
pub fw_cfg_setup-IsDirectory :
    (items : ℕ → ℕ → ℕ) (s : Machine)
    → ((e : ℕ) → e < 2 ^ 16 → ServesPort s.env e (items e))
    → (bit_and (number items 0x01) 2 ≢ 0
        → (h : List Io)
        → Transfers s.env s.symbols.dma s.fuel
            (reads 4 (out word 0x510 0x19 ∷ h))
            2
            (file_entries items))
    → 64 * file_count items < 2 ^ 32
    → s.symbols.dma < 2 ^ 32
    → Apart (up s.globals.fseg_base 16) (64 * file_count items) s.symbols.dma 16
    → Returns (λ _ t. IsDirectory items (up s.globals.fseg_base 16) t) (fw_cfg_setup s)
unfolding fw_cfg_setup fw_cfg_select malloc_fseg malloc_fseg_align
fw_cfg_setup-IsDirectory items s port dma small hd apart =
    let n = file_count items in
    let p = up s.globals.fseg_base 16 in
    let rounds : int_rounds n ≡ n = ground arith in
    let bytes : u32 (64 * n) ≡ 64 * n = omega arith in
    let h1 = reads 4 (out word 0x510 0x01 ∷ s.io) in
    let g1 = record s.globals { version = number items 0x01 } in
    let s1 : Machine = record s { io = h1; globals = g1 } in
    let h2 = reads 4 (out word 0x510 0x19 ∷ h1) in
    let g2 = record g1 { filecnt = n; fseg_base = u32 (p + 64 * n); files = p } in
    let s2 : Machine = record s { globals = g2 } in
    let ready : Ready s.env s.symbols.dma s.fuel (number items 0x01) h2 (file_entries items) = (
      λ v i. ServesPort-from s.env 0x19 (items 0x19) 4 h1 i (port 0x19 (omega arith)),
      λ v. dma v h1,
    ) in
    let (g, runs, filled) =
      fw_cfg_read-Ready (file_entries items) p (64 * n) s2 h2 ready
        (omega (arith, up-lt s.globals.fseg_base 16)) small hd apart in
    rw
      (
        (fw_cfg_readl-ServesPort (items 0x01) 0x01 s (port 0x01 (omega arith))).0,
        (fw_cfg_readl-ServesPort (items 0x19) 0x19 s1 (port 0x19 (omega arith))).1,
        bytes,
        runs,
        rounds,
      )
      (record {
        version = refl;
        filecnt = refl;
        files = refl;
        size = λ k l. entry_size (file_entries items) p n g filled.0 k l;
        select = λ k l. entry_select (file_entries items) p n g filled.0 k l;
        name = λ k j l. entry_name (file_entries items) p n g filled.0 k j l;
      })
