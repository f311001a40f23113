-- ===== src/FwCfg/Served.antt =====
-- The two interfaces of the configuration device, and the loops that use them.
use qboot.Base.Bswap.{bswap32, bswap64}
use qboot.Base.Bits.{bit_and_clear, zero-bit_and}
use qboot.Base.{
  ℕ, zero, suc, ◌+◌, ◌*◌, ◌<◌, ◌≡◌, ◌==◌, ◌∙◌, refl, sym, subst, ap, arith, true, false, List, ◌∷◌,
  u8, bit_and, not32, inl,
}
use qboot.Memory.{Memory, st8, ldl_p, ldq_p}
use qboot.Memory.Frame.{Outside, st8_self, st8-ne}
use qboot.CString.Copy.{Apart, SameOutside}
use qboot.Machine.{Machine, Env, Io, out, inp, byte, word, long, ok}
use qboot.Machine.Ports.{insb}
use qboot.FwCfg.{dma_wait}
use qboot.FwCfg.Descriptor.{bswap32-bound}

-- `n` reads of the data port on top of a history.
abbrev pub reads : ℕ → List Io → List Io
reads zero h = h
reads (suc n) h = inp byte 0x511 ∷ reads n h

-- The port interface of the device: when entry `e` has been selected, reads of the data port return
-- the bytes of `item`, one after the other.
abbrev pub ServesPort : Env → ℕ → (ℕ → ℕ) → Type 0
ServesPort env e item =
    (h : List Io) (i : ℕ) → u8 (env.input (reads (suc i) (out word 0x510 e ∷ h))) ≡ item i

-- From `m` to `g`, the `len` bytes at `buf` have become `item`, and but for the descriptor's control
-- field nothing else has changed.
abbrev pub Filled : (dma buf len : ℕ) → (ℕ → ℕ) → Memory → Memory → Type 0
Filled dma buf len item m g =
    ((i : ℕ) → i < len → g (buf + i) ≡ item i)
    × ((a : ℕ) → Outside buf len a → Outside dma 16 a → g a ≡ m a)

-- Behind the history `h`, the DMA interface of the device answers a descriptor at `dma` with the given
-- control word: when its address has been written to port 0x518, then the control field has a bit
-- above the error bit for some polls, fewer than `limit`; then it is 0, and the buffer has the bytes of
-- `item`.
abbrev pub Transfers : Env → (dma limit : ℕ) → List Io → (control : ℕ) → (ℕ → ℕ) → Type 0
Transfers env dma limit h control item =
    (d : ℕ) (m : Memory) (buf len : ℕ)
    → bswap32 d ≡ dma
    → bswap32 (ldl_p m dma) ≡ control
    → bswap32 (ldl_p m (dma + 4)) ≡ len
    → bswap64 (ldq_p m (dma + 8)) ≡ buf
    → Apart buf len dma 16
    → let after : ℕ → Memory = λ k. env.dma (out long 0x518 d ∷ h) k m in
      (k : ℕ) × (k < limit)
      × ((j : ℕ) → j < k → 1 < bswap32 (ldl_p (after j) dma))
      × (bswap32 (ldl_p (after k) dma) ≡ 0)
      × Filled dma buf len item m (after k)

-- The DMA interface serves `item` to a descriptor that selects entry `e` and reads it.
abbrev pub ServesDma : Env → (dma limit e : ℕ) → (ℕ → ℕ) → Type 0
ServesDma env dma limit e item = (h : List Io) → Transfers env dma limit h (e * 65536 + 10) item

-- A byte and the bytes behind it.
first_and_rest :
    (g w : Memory) (buf n : ℕ)
    → g buf ≡ w 0
    → ((i : ℕ) → i < n → g (suc buf + i) ≡ w (suc i))
    → (i : ℕ) → i < suc n
    → g (buf + i) ≡ w i
first_and_rest g w buf n first rest zero h =
    let here : buf + 0 ≡ buf = omega arith in ap g here ∙ first
first_and_rest g w buf n first rest (suc i) h =
    let next : buf + suc i ≡ suc buf + i = omega arith in ap g next ∙ rest i (omega arith)

pub insb-reads :
    (n j buf : ℕ) (h : List Io) (s : Machine)
    → (g : Memory) × (insb buf 0x511 n (record s { io = reads j h })
        ≡ ok tt (record s { mem = g; io = reads (j + n) h }))
      × ((i : ℕ) → i < n → g (buf + i) ≡ u8 (s.env.input (reads (suc (j + i)) h)))
      × SameOutside buf n s.mem g
unfolding insb
insb-reads zero j buf h s =
    let none : j ≡ j + 0 = omega arith in
    (
      s.mem,
      ap (λ k. ok tt (record s { io = reads k h })) none,
      λ i l. absurd (omega arith),
      λ a o. refl,
    )
insb-reads (suc n) j buf h s =
    let v = u8 (s.env.input (reads (suc j) h)) in
    let (g, runs, filled, same) =
      insb-reads n (suc j) (suc buf) h (record s { mem = st8 s.mem buf v }) in
    let byte_at : ℕ → ℕ = λ k. u8 (s.env.input (reads (suc k) h)) in
    let all : suc j + n ≡ j + suc n = omega arith in
    let here : j ≡ j + 0 = omega arith in
    let next : (i : ℕ) → suc j + i ≡ j + suc i = λ i. omega arith in
    (
      g,
      runs ∙ ap (λ k. ok tt (record s { mem = g; io = reads k h })) all,
      first_and_rest g (λ i. byte_at (j + i)) buf n
          (same buf (inl (omega arith)) ∙ st8_self s.mem buf v ∙ ap byte_at here)
          (λ i l. filled i l ∙ ap byte_at (next i)),
      λ a o. same a (ground arith) ∙ st8-ne s.mem buf v a (ground arith),
    )

poll_busy : (x : ℕ) → 1 < bswap32 x → (bit_and (bswap32 x) (not32 1) == 0) ≡ false
poll_busy x h =
    let high = bit_and_clear 1 31 (bswap32 x) (omega (arith, bswap32-bound x)) in
    rw high (ground arith)

poll_done : (x : ℕ) → bswap32 x ≡ 0 → (bit_and (bswap32 x) (not32 1) == 0) ≡ true
poll_done x h = ap (λ y. bit_and y (not32 1) == 0) h ∙ ap (λ y. y == 0) (zero-bit_and (not32 1))

-- The wait ends when the device is done.
dma_wait-done :
    (f i k : ℕ) (s : Machine)
    → ((j : ℕ) → j < i + k → 1 < bswap32 (ldl_p (s.env.dma s.io j s.mem) s.symbols.dma))
    → bswap32 (ldl_p (s.env.dma s.io (i + k) s.mem) s.symbols.dma) ≡ 0
    → k < f
    → dma_wait f i s ≡ ok tt (record s { mem = s.env.dma s.io (i + k) s.mem })
unfolding dma_wait
dma_wait-done zero i k s busy done h = absurd (omega arith)
dma_wait-done (suc f) i zero s busy done h =
    let here : i + 0 ≡ i = omega arith in
    let after : ℕ → Memory = λ k. s.env.dma s.io k s.mem in
    let now = subst (λ k. bswap32 (ldl_p (after k) s.symbols.dma) ≡ 0) here done in
    rw (poll_done (ldl_p (after i) s.symbols.dma) now)
      (ap (λ k. ok tt (record s { mem = after k })) (sym here))
dma_wait-done (suc f) i (suc k) s busy done h =
    let next : suc i + k ≡ i + suc k = omega arith in
    let after : ℕ → Memory = λ k. s.env.dma s.io k s.mem in
    let end = subst (λ k. bswap32 (ldl_p (after k) s.symbols.dma) ≡ 0) (sym next) done in
    let rest = dma_wait-done f (suc i) k s (λ j l. busy j (omega arith)) end (omega arith) in
    rw (poll_busy (ldl_p (after i) s.symbols.dma) (busy i (omega arith)))
      (rest ∙ ap (λ k. ok tt (record s { mem = after k })) next)

pub dma_wait-start :
    (f k : ℕ) (s : Machine)
    → ((j : ℕ) → j < k → 1 < bswap32 (ldl_p (s.env.dma s.io j s.mem) s.symbols.dma))
    → bswap32 (ldl_p (s.env.dma s.io k s.mem) s.symbols.dma) ≡ 0
    → k < f
    → dma_wait f 0 s ≡ ok tt (record s { mem = s.env.dma s.io k s.mem })
dma_wait-start f k s busy done h =
    let start : k ≡ 0 + k = omega arith in
    let after : ℕ → Memory = λ k. s.env.dma s.io k s.mem in
    dma_wait-done f 0 k s (λ j l. busy j (omega (arith, l)))
      (subst (λ k. bswap32 (ldl_p (after k) s.symbols.dma) ≡ 0) start done) h
    ∙ ap (λ k. ok tt (record s { mem = after k })) (sym start)
