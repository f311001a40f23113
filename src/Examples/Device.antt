-- ===== src/Examples/Device.antt =====
-- A configuration device that serves a table of items through both interfaces.
use qboot.Base.Bswap.{bswap32, bswap64}
use qboot.Base.{
  ℕ, zero, suc, ◌+◌, ◌-◌, ◌/◌, ◌<◌, ◌≡◌, ◌==◌, ◌∙◌, refl, ap, ap₂, arith, true, Bool, false, ◌*◌,
  List, [], ◌∷◌, u8, if◌then◌else◌,
}
use qboot.Memory.{Memory, in_range, ldl_p, ldq_p}
use qboot.CString.Copy.{Apart}
use qboot.Machine.{Env, Io, out, inp, byte, word, long}
use qboot.FwCfg.Sequence.{Continues, from}
use qboot.FwCfg.Served.{Transfers, reads, ServesPort, ServesDma, Filled}
use qboot.FwCfg.Contract.{Serves}
use qboot.Examples.{quiet}

-- The reads since the last write, and what was written then.
pub count : List Io → ℕ
count [] = 0
count (out w p v ∷ h) = 0
count (inp w p ∷ h) = suc (count h)

pub written : List Io → ℕ
written [] = 0
written (out w p v ∷ h) = v
written (inp w p ∷ h) = written h

count-reads : (n e : ℕ) (h : List Io) → count (reads n (out word 0x510 e ∷ h)) ≡ n
unfolding count
count-reads zero e h = refl
count-reads (suc n) e h = ap suc (count-reads n e h)

written-reads : (n e : ℕ) (h : List Io) → written (reads n (out word 0x510 e ∷ h)) ≡ e
unfolding written
written-reads zero e h = refl
written-reads (suc n) e h = written-reads n e h

-- What the device makes of the memory with the descriptor at `dma`.
pub transferred : (ℕ → ℕ) → (dma buf len : ℕ) → Memory → Memory
transferred item dma buf len m a =
    if in_range dma 4 a then 0 else if in_range buf len a then item (a - buf) else m a

-- What a transfer without a selection of its own reads, by the history that ends in its address: what
-- is left of the item that the port has selected, behind the bytes that the port has read, or behind
-- the 8192 bytes of another transfer.
pub selects : List Io → Bool
selects [] = false
selects (out byte p v ∷ h) = false
selects (out word p v ∷ h) = true
selects (out long p v ∷ h) = false
selects (inp w p ∷ h) = selects h

pub behind : ℕ → (ℕ → ℕ) → ℕ → ℕ
behind k item = if k == 0 then item else from k item

pub resumed : (ℕ → ℕ → ℕ) → List Io → ℕ → ℕ
resumed items (a ∷ b ∷ h) =
    if selects (b ∷ h)
    then behind (count (b ∷ h)) (items (written (b ∷ h)))
    else from 8192 (items (written h))
resumed items h = items 0

-- The item for a control word, which selects it or not.
pub chosen : (ℕ → ℕ → ℕ) → List Io → (control : ℕ) → ℕ → ℕ
chosen items h control = if control == 2 then resumed items h else items (control / 65536)

pub device : (ℕ → ℕ → ℕ) → (dma : ℕ) → Env
device items dma = record (quiet 0) {
  input = λ h. items (written h) (count h - 1);
  dma = λ h k m.
      if k == 0
      then m
      else transferred (chosen items h (bswap32 (ldl_p m dma))) dma (bswap64 (ldq_p m (dma + 8)))
          (bswap32 (ldl_p m (dma + 4))) m;
}

transferred-done :
    (item : ℕ → ℕ) (dma buf len : ℕ) (m : Memory)
    → bswap32 (ldl_p (transferred item dma buf len m) dma) ≡ 0
unfolding transferred bswap32
transferred-done item dma buf len m = ground arith

filled_cell :
    (item : ℕ → ℕ) (dma buf len i : ℕ) (m : Memory)
    → Apart buf len dma 16
    → i < len
    → transferred item dma buf len m (buf + i) ≡ item i
unfolding transferred
filled_cell item dma buf len i m o l =
    let back : buf + i - buf ≡ i = omega arith in ground (arith, ap item back)

transferred-Filled :
    (item : ℕ → ℕ) (dma buf len : ℕ) (m : Memory)
    → Apart buf len dma 16
    → Filled dma buf len item m (transferred item dma buf len m)
unfolding transferred
transferred-Filled item dma buf len m o =
    (λ i l. filled_cell item dma buf len i m o l, λ a p q. ground arith)

module _ (items : ℕ → ℕ → ℕ) (dma : ℕ) where
  pub device-ServesPort :
      (e : ℕ) → ((i : ℕ) → items e i < 256) → ServesPort (device items dma) e (items e)
  unfolding device
  device-ServesPort e bytes h i =
      let last : suc i - 1 ≡ i = omega arith in
      ap₂ (λ (e n : ℕ). u8 (items e (n - 1))) (written-reads (suc i) e h) (count-reads (suc i) e h)
      ∙ ap (λ n. u8 (items e n)) last
      ∙ omega (arith, bytes i)

  device-Transfers :
      (h : List Io) (control : ℕ) (item : ℕ → ℕ)
      → ((d : ℕ) → chosen items (out long 0x518 d ∷ h) control ≡ item)
      → 1 < control
      → Transfers (device items dma) dma 8 h control item
  unfolding device
  device-Transfers h control item is busy d m buf len x c l b o =
      let entry : chosen items (out long 0x518 d ∷ h) (bswap32 (ldl_p m dma)) ≡ item =
        ap (chosen items (out long 0x518 d ∷ h)) c ∙ is d in
      (
        1,
        omega arith,
        λ j k. let first : j == 0 ≡ true = ground arith in rw first (omega (arith, c)),
        rw (l, b, entry) (transferred-done item dma buf len m),
        rw (l, b, entry) (transferred-Filled item dma buf len m o),
      )

  pub device-ServesDma : (e : ℕ) → ServesDma (device items dma) dma 8 e (items e)
  unfolding chosen
  device-ServesDma e h =
      let other : e * 65536 + 10 == 2 ≡ false = ground arith in
      let entry : (e * 65536 + 10) / 65536 ≡ e = omega arith in
      device-Transfers h (e * 65536 + 10) (items e) (λ d. rw (other, entry) refl) (omega arith)

  pub device-Continues : (e : ℕ) → Continues (device items dma) dma 8 8192 e (items e)
  unfolding chosen resumed selects written count behind
  device-Continues e h = (
    device-Transfers (out word 0x510 e ∷ h) 2 (items e) (λ d. refl) (omega arith),
    λ c hc.
        device-Transfers (out long 0x518 c ∷ out word 0x510 e ∷ h) 2 (from 8192 (items e))
          (λ d. refl) (omega arith),
  )

  pub device-directory :
      (e : ℕ) (h : List Io)
      → Transfers (device items dma) dma 8 (reads 4 (out word 0x510 e ∷ h)) 2 (from 4 (items e))
  unfolding chosen resumed selects written count behind
  device-directory e h =
      device-Transfers (reads 4 (out word 0x510 e ∷ h)) 2 (from 4 (items e)) (λ d. refl)
        (omega arith)

  -- A device whose items are bytes keeps the contract.
  pub device-Serves :
      (version : ℕ) → ((e i : ℕ) → items e i < 256) → Serves (device items dma) dma 8 version items
  device-Serves version bytes =
      (λ e he. device-ServesPort e (bytes e), λ offers e he. device-ServesDma e)
