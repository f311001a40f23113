-- ===== src/FwCfg/Sequence.antt =====
-- Reads that go on where the one before has ended (fw_cfg_read), after a selection through the port.
use qboot.Base.{
  ℕ, zero, ◌+◌, ◌<◌, ◌≡◌, ◌≢◌, ◌==◌, ◌!=◌, ◌^◌, ◌∙◌, ap, arith, true, false, List, ◌∷◌, u8, u32,
  bit_and, Bool-cases, inl, inr, if◌then◌else◌, suc,
}
use qboot.Base.Bswap.{bswap32}
use qboot.Memory.{Memory}
use qboot.CString.Copy.{Apart}
use qboot.Machine.{Machine, Env, Io, out, inp, byte, word, long, ok, inp, byte}
use qboot.FwCfg.{fw_cfg_read}
use qboot.FwCfg.Served.{reads, ServesPort, Transfers, Filled, insb-reads}
use qboot.FwCfg.Transfer.{address_lem, fw_cfg_dma-Transfers}

-- The next read behind the history `h` gets the bytes of `item`, whichever interface makes it.
abbrev pub Ready : Env → (dma limit version : ℕ) → List Io → (ℕ → ℕ) → Type 0
Ready env dma limit version h item =
    (bit_and version 2 ≡ 0 → (i : ℕ) → u8 (env.input (reads (suc i) h)) ≡ item i)
    × (bit_and version 2 ≢ 0 → Transfers env dma limit h 2 item)

-- The history behind a read of `len` bytes.
abbrev pub after_read : (dma version len : ℕ) → List Io → List Io
after_read dma version len h =
    if bit_and version 2 == 0 then reads len h else out long 0x518 (u32 (bswap32 dma)) ∷ h

-- The bytes of an item from `k` on.
abbrev pub from : ℕ → (ℕ → ℕ) → ℕ → ℕ
from k item i = item (k + i)

-- DMA without a selection of its own, behind one through the port: the first transfer reads the entry
-- from its start, and when that was one of `first` bytes, a second one goes on behind them.
abbrev pub Continues : Env → (dma limit first : ℕ) → (e : ℕ) → (ℕ → ℕ) → Type 0
Continues env dma limit first e item =
    (h : List Io)
    → Transfers env dma limit (out word 0x510 e ∷ h) 2 item
      × ((d : ℕ)
          → bswap32 d ≡ dma
          → Transfers env dma limit (out long 0x518 d ∷ out word 0x510 e ∷ h) 2 (from first item))

reads-append : (n k : ℕ) (h : List Io) → reads n (reads k h) ≡ reads (k + n) h
reads-append zero k h = let none : k ≡ k + 0 = omega arith in ap (λ j. reads j h) none
reads-append (suc n) k h =
    let next : suc (k + n) ≡ k + suc n = omega arith in
    ap (λ l. inp byte 0x511 ∷ l) (reads-append n k h) ∙ ap (λ j. reads j h) next

-- Reads of the data port go on behind `k` others.
pub ServesPort-from :
    (env : Env) (e : ℕ) (item : ℕ → ℕ) (k : ℕ) (h : List Io) (i : ℕ)
    → ServesPort env e item
    → u8 (env.input (reads (suc i) (reads k (out word 0x510 e ∷ h)))) ≡ from k item i
ServesPort-from env e item k h i port =
    let next : k + suc i ≡ suc (k + i) = omega arith in
    ap (λ l. u8 (env.input l)) (reads-append (suc i) k (out word 0x510 e ∷ h))
    ∙ ap (λ j. u8 (env.input (reads j (out word 0x510 e ∷ h)))) next
    ∙ port h (k + i)

-- A selection, and the two reads behind it.
module _ (env : Env) (dma limit version e first : ℕ) (item : ℕ → ℕ) (port : ServesPort env e item)
    (more : bit_and version 2 ≢ 0 → Continues env dma limit first e item) where
  pub select-Ready : (h : List Io) → Ready env dma limit version (out word 0x510 e ∷ h) item
  select-Ready h = (λ v. port h, λ v. (more v h).0)

  pub after_read-Ready :
      (h : List Io)
      → dma < 2 ^ 32
      → Ready env dma limit version
          (after_read dma version first (out word 0x510 e ∷ h))
          (from first item)
  after_read-Ready h hd = elim (Bool-cases (bit_and version 2 == 0)) [
    | inl none ↦
        (λ v i. rw none (ServesPort-from env e item first h i port), λ v. absurd (ground arith))
    | inr offers ↦ (
      λ v. absurd (ground arith),
      λ v. rw offers ((more v h).1 (u32 (bswap32 dma)) (address_lem dma hd)),
    )
  ]

-- The read leaves the bytes in the buffer, and but for the buffer and the descriptor memory is as it
-- was.
pub fw_cfg_read-Ready :
    (item : ℕ → ℕ) (buf len : ℕ) (s : Machine) (h : List Io)
    → Ready s.env s.symbols.dma s.fuel s.globals.version h item
    → buf < 2 ^ 64
    → len < 2 ^ 32
    → s.symbols.dma < 2 ^ 32
    → Apart buf len s.symbols.dma 16
    → (g : Memory) × (fw_cfg_read buf len (record s { io = h })
        ≡ ok tt (record s { io = after_read s.symbols.dma s.globals.version len h; mem = g }))
      × Filled s.symbols.dma buf len item s.mem g
unfolding fw_cfg_read
fw_cfg_read-Ready item buf len s h ready hb hl hd apart =
    elim (Bool-cases (bit_and s.globals.version 2 == 0)) [
      | inl none ↦
          let off : bit_and s.globals.version 2 != 0 ≡ false = ground arith in
          let (g, runs, filled, same) = insb-reads len 0 buf h s in
          let start : 0 + len ≡ len = omega arith in
          let here : (i : ℕ) → suc (0 + i) ≡ suc i = λ i. omega arith in
          let end = ap (λ k. ok tt (record s { io = reads k h; mem = g })) start in
          let item_at = ready.0 (ground arith) in
          (
            g,
            rw (off, none) (runs ∙ end),
            (
              λ i l. filled i l ∙ ap (λ k. u8 (s.env.input (reads k h))) (here i) ∙ item_at i,
              λ a o q. same a o,
            ),
          )
      | inr offers ↦
          let on : bit_and s.globals.version 2 != 0 ≡ true = ground arith in
          let (g, runs, filled) =
            fw_cfg_dma-Transfers item 2 buf len (record s { io = h }) (omega arith) hb hl hd apart
              (ready.1 (ground arith)) in
          (g, rw (on, offers) runs, filled)
    ]
