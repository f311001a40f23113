-- ===== src/FwCfg/Contract.antt =====
-- The configuration device as a table of items, whichever interface reads them.
use qboot.Base.{
  ℕ, ◌+◌, ◌*◌, ◌<◌, ◌≡◌, ◌≢◌, ◌==◌, ◌^◌, ◌∙◌, ap, arith, List, ◌∷◌, bit_and, Bool-cases, inl, inr,
}
use qboot.Base.Bswap.{bswap32}
use qboot.Memory.{Memory, ldl_p}
use qboot.Memory.Wide.{ldl_p-lt}
use qboot.CString.Copy.{Apart}
use qboot.Machine.{Machine, Env, Io, out, word, ok}
use qboot.FwCfg.{fw_cfg_read_entry, fw_cfg_readl_le, fw_cfg_readl_be}
use qboot.FwCfg.Served.{reads, ServesPort, ServesDma, Filled}
use qboot.FwCfg.Words.{fw_cfg_readl_bytes, byte_read}
use qboot.FwCfg.Transfer.{fw_cfg_read_entry-ServesDma, fw_cfg_read_entry-ServesPort}

-- The device serves `items e` as entry `e`: through the data port, and by DMA where it offers that.
abbrev pub Serves : Env → (dma limit version : ℕ) → (ℕ → ℕ → ℕ) → Type 0
Serves env dma limit version items =
    ((e : ℕ) → e < 2 ^ 16 → ServesPort env e (items e))
    × (bit_and version 2 ≢ 0 → (e : ℕ) → e < 2 ^ 16 → ServesDma env dma limit e (items e))

-- The number that an item of four bytes holds.
abbrev pub number : (ℕ → ℕ → ℕ) → ℕ → ℕ
number items e = ldl_p (items e) 0

-- After the selection of an item, four reads of the data port return its first four bytes, in either
-- order.
pub fw_cfg_readl-ServesPort :
    (item : ℕ → ℕ) (e : ℕ) (s : Machine)
    → ServesPort s.env e item
    → let t : Machine = record s { io = out word 0x510 e ∷ s.io } in
      let u : Machine = record s { io = reads 4 (out word 0x510 e ∷ s.io) } in
      (fw_cfg_readl_le t ≡ ok (ldl_p item 0) u)
      × (fw_cfg_readl_be t ≡ ok (bswap32 (ldl_p item 0)) u)
fw_cfg_readl-ServesPort item e s port =
    let t : Machine = record s { io = out word 0x510 e ∷ s.io } in
    let u : Machine = record s { io = reads 4 (out word 0x510 e ∷ s.io) } in
    let at = port s.io in
    let value : byte_read 1 t
          + 256 * byte_read 2 t
          + 65536 * byte_read 3 t
          + 16777216 * byte_read 4 t
        ≡ ldl_p item 0 =
      omega (arith, at 0, at 1, at 2, at 3) in
    (
      (fw_cfg_readl_bytes t).0 ∙ ap (λ v. ok v u) value,
      (fw_cfg_readl_bytes t).1 ∙ ap (λ v. ok (bswap32 v) u) value,
    )

module _ (items : ℕ → ℕ → ℕ) (e : ℕ) (s : Machine) (he : e < 2 ^ 16)
    (serves : Serves s.env s.symbols.dma s.fuel s.globals.version items) where
  -- The interface that the version selects leaves the item in the buffer, and but for the buffer and
  -- the descriptor memory is as it was.
  pub fw_cfg_read_entry-Serves :
      (buf len : ℕ)
      → buf < 2 ^ 64
      → len < 2 ^ 32
      → s.symbols.dma < 2 ^ 32
      → Apart buf len s.symbols.dma 16
      → (g : Memory) × (h : List Io) × (fw_cfg_read_entry e buf len s
          ≡ ok tt (record s { io = h; mem = g }))
        × Filled s.symbols.dma buf len (items e) s.mem g
  fw_cfg_read_entry-Serves buf len hb hl hd apart =
      elim (Bool-cases (bit_and s.globals.version 2 == 0)) [
        | inl none ↦
            let (g, h, runs, filled, same) =
              fw_cfg_read_entry-ServesPort (items e) e buf len s he hb hl hd apart s.globals.version
                (ground arith) (serves.0 e he) in
            (g, h, runs, (filled, λ a o i. same a o))
        | inr offers ↦
            fw_cfg_read_entry-ServesDma (items e) e buf len s he hb hl hd apart (ground arith)
              (serves.1 (ground arith) e he)
      ]

  pub number-lt : number items e < 2 ^ 32
  number-lt = ldl_p-lt (items e) 0 (λ a h k. omega (arith, serves.0 e he s.io a))

  -- After the selection of an item, four reads of the data port return its number.
  pub fw_cfg_readl_le-Serves :
      let t : Machine = record s { io = out word 0x510 e ∷ s.io } in
      fw_cfg_readl_le t ≡ ok (number items e) (record s { io = reads 4 (out word 0x510 e ∷ s.io) })
  fw_cfg_readl_le-Serves = (fw_cfg_readl-ServesPort (items e) e s (serves.0 e he)).0
