-- ===== src/FwCfg/Transfer.antt =====
-- fw_cfg_read_entry: an item of the configuration device, through port I/O and through DMA.
use qboot.Base.Bswap.{bswap32, bswap32_involutive}
use qboot.Base.Bits.{bit_or_fields}
use qboot.Base.{
  Bool-cases, ℕ, suc, ◌+◌, ◌*◌, ◌<◌, ◌≡◌, ◌≢◌, ◌!=◌, ◌^◌, ◌∙◌, sym, ap, arith, true, false, List,
  ◌∷◌, u8, u16, u32, bit_and, bit_or, inl, ◌-◌, inr,
}
use qboot.Memory.{in_range, Memory}
use qboot.Memory.Frame.{Outside}
use qboot.CString.Copy.{Apart, SameOutside}
use qboot.Machine.{Machine, Io, out, word, long, ok}
use qboot.FwCfg.{fw_cfg_dma, fw_cfg_read_entry, fw_cfg_select}
use qboot.FwCfg.Descriptor.{bswap32-bound, described, described_lem}
use qboot.FwCfg.Served.{reads, ServesPort, ServesDma, Filled, insb-reads, dma_wait-start, Transfers}

control_lem : (e : ℕ) → e < 2 ^ 16 → bit_or (bit_or (u32 (e * 2 ^ 16)) 0x08) 0x02 ≡ e * 65536 + 10
control_lem e h =
    let small : u32 (e * 2 ^ 16) ≡ e * 2 ^ 16 = omega arith in
    let split : e * 2 ^ 16 + 8 ≡ (e * 16384 + 2) * 2 ^ 2 = omega arith in
    ap (λ x. bit_or (bit_or x 8) 2) small
    ∙ ap (λ x. bit_or x 2) (bit_or_fields 16 e 8 (omega arith) ∙ split)
    ∙ bit_or_fields 2 (e * 16384 + 2) 2 (omega arith)
    ∙ omega arith

pub address_lem : (dma : ℕ) → dma < 2 ^ 32 → bswap32 (u32 (bswap32 dma)) ≡ dma
address_lem dma h =
    let small : u32 (bswap32 dma) ≡ bswap32 dma = omega (arith, bswap32-bound dma) in
    ap bswap32 small ∙ bswap32_involutive dma h

-- A transfer runs, and leaves the bytes in the buffer.
pub fw_cfg_dma-Transfers :
    (item : ℕ → ℕ) (control buf len : ℕ) (s : Machine)
    → control < 2 ^ 32
    → buf < 2 ^ 64
    → len < 2 ^ 32
    → s.symbols.dma < 2 ^ 32
    → Apart buf len s.symbols.dma 16
    → Transfers s.env s.symbols.dma s.fuel s.io control item
    → (g : Memory) × (fw_cfg_dma control buf len s
        ≡ ok tt (record s { io = out long 0x518 (u32 (bswap32 s.symbols.dma)) ∷ s.io; mem = g }))
      × Filled s.symbols.dma buf len item s.mem g
unfolding fw_cfg_dma
fw_cfg_dma-Transfers item control buf len s hc hb hl hd apart transfers =
    let dma = s.symbols.dma in
    let m = described s.mem dma control buf len in
    let (control_at, len_at, buf_at, same) = described_lem s.mem dma control buf len hc hl hb in
    let (k, enough, busy, done, (filled, kept)) =
      transfers (u32 (bswap32 dma)) m buf len (address_lem dma hd) control_at len_at buf_at apart in
    let h = out long 0x518 (u32 (bswap32 dma)) ∷ s.io in
    (
      s.env.dma h k m,
      dma_wait-start s.fuel k (record s { io = h; mem = m }) busy done enough,
      (filled, λ a o i. kept a o i ∙ same a i),
    )

-- Both interfaces, for one call.
module _ (item : ℕ → ℕ) (e buf len : ℕ) (s : Machine) (he : e < 2 ^ 16) (hb : buf < 2 ^ 64)
    (hl : len < 2 ^ 32) (hd : s.symbols.dma < 2 ^ 32) (apart : Apart buf len s.symbols.dma 16) where
  pub fw_cfg_read_entry-ServesDma :
      bit_and s.globals.version 2 ≢ 0
      → ServesDma s.env s.symbols.dma s.fuel e item
      → (g : Memory) × (h : List Io) × (fw_cfg_read_entry e buf len s
          ≡ ok tt (record s { io = h; mem = g }))
        × Filled s.symbols.dma buf len item s.mem g
  unfolding fw_cfg_read_entry
  fw_cfg_read_entry-ServesDma v serves =
      let control = control_lem e he in
      let offered : bit_and s.globals.version 2 != 0 ≡ true = ground arith in
      let (g, runs, filled) =
        fw_cfg_dma-Transfers item (e * 65536 + 10) buf len s (omega arith) hb hl hd apart
          (serves s.io) in
      (
        g,
        out long 0x518 (u32 (bswap32 s.symbols.dma)) ∷ s.io,
        rw offered (ap (λ c. fw_cfg_dma c buf len s) control ∙ runs),
        filled,
      )

  pub fw_cfg_read_entry-ServesPort :
      (version : ℕ)
      → bit_and version 2 ≡ 0
      → ServesPort s.env e item
      → let t : Machine = record s { globals = record s.globals { version = version } } in
        (g : Memory) × (h : List Io) × (fw_cfg_read_entry e buf len t
          ≡ ok tt (record t { io = h; mem = g }))
        × ((i : ℕ) → i < len → g (buf + i) ≡ item i)
        × SameOutside buf len s.mem g
  unfolding fw_cfg_read_entry fw_cfg_select
  fw_cfg_read_entry-ServesPort version v serves =
      let none : bit_and version 2 != 0 ≡ false = ground arith in
      let entry : u16 e ≡ e = omega arith in
      let h = out word 0x510 e ∷ s.io in
      let (g, runs, filled, same) =
        insb-reads len 0 buf h (record s { globals = record s.globals { version = version } }) in
      let first : (i : ℕ) → 0 + i ≡ i = λ i. omega arith in
      (
        g,
        reads (0 + len) h,
        rw (none, entry) runs,
        (λ i l.
            filled i l ∙ ap (λ k. u8 (s.env.input (reads (suc k) h))) (first i) ∙ serves s.io i),
        same,
      )

  -- Two memories that have the item in the buffer, and agree elsewhere.
  Filled-same :
      (dma : ℕ) (g k : Memory)
      → Filled dma buf len item s.mem g
      → ((i : ℕ) → i < len → k (buf + i) ≡ item i)
      → SameOutside buf len s.mem k
      → (a : ℕ) → Outside dma 16 a
      → g a ≡ k a
  Filled-same dma g k f item_at same a o = elim (Bool-cases (in_range buf len a)) [
    | inl e ↦
        let at : a ≡ buf + (a - buf) = ground arith in
        let l : a - buf < len = ground arith in
        ap g at ∙ f.0 (a - buf) l ∙ sym (item_at (a - buf) l) ∙ ap k (sym at)
    | inr ne ↦ f.1 a (ground arith) o ∙ sym (same a (ground arith))
  ]

  -- When the device serves an item through both interfaces, fw_cfg_read_entry returns with a
  -- version that offers DMA and with one that does not, and the two memories agree but for
  -- the 16 bytes of the DMA descriptor. The buffer does not overlap the descriptor. The entry
  -- has 16 bits, the length and the descriptor's address 32 and the buffer's address 64, and
  -- the device is done with the transfer within fewer polls than the fuel.
  pub fw_cfg_read_entry-same :
      (version : ℕ)
      → bit_and s.globals.version 2 ≢ 0
      → bit_and version 2 ≡ 0
      → ServesDma s.env s.symbols.dma s.fuel e item
      → ServesPort s.env e item
      → let t : Machine = record s { globals = record s.globals { version = version } } in
        (g : Memory) × (h : List Io) × (g' : Memory) × (h' : List Io) × (fw_cfg_read_entry e buf len
            s
          ≡ ok tt (record s { io = h; mem = g }))
        × (fw_cfg_read_entry e buf len t ≡ ok tt (record t { io = h'; mem = g' }))
        × ((a : ℕ) → Outside s.symbols.dma 16 a → g a ≡ g' a)
  fw_cfg_read_entry-same version v none dma port =
      let t : Machine = record s { globals = record s.globals { version = version } } in
      let (g, h, runs, filled) = fw_cfg_read_entry-ServesDma v dma in
      let (g', h', runs', filled', same) = fw_cfg_read_entry-ServesPort version none port in
      (g, h, g', h', runs, runs', Filled-same s.symbols.dma g g' filled filled' same)
