-- ===== src/Machine/Ports.antt =====
-- include/ioport.h: the port instructions, as entries of the history of port accesses.
use qboot.Base.{ℕ, zero, suc, ◌∷◌, u8, u16, u32}
use qboot.Memory.{st8}
use qboot.Machine.{Io, out, inp, byte, word, long, Machine, Fw, ok, pure, ◌>>=◌, ◌>>◌, store}

abbrev log_io : Io → Machine → Machine
log_io e s = record s { io = e ∷ s.io }

abbrev answer : Machine → ℕ
answer s = s.env.input s.io

abbrev pub outb : ℕ → ℕ → Fw (Unit {0})
outb port val s = ok tt (log_io (out byte port (u8 val)) s)

abbrev pub outw : ℕ → ℕ → Fw (Unit {0})
outw port val s = ok tt (log_io (out word port (u16 val)) s)

abbrev pub outl : ℕ → ℕ → Fw (Unit {0})
outl port val s = ok tt (log_io (out long port (u32 val)) s)

abbrev pub inb : ℕ → Fw ℕ
inb port s = let s' = log_io (inp byte port) s in ok (u8 (answer s')) s'

abbrev pub inw : ℕ → Fw ℕ
inw port s = let s' = log_io (inp word port) s in ok (u16 (answer s')) s'

abbrev pub inl : ℕ → Fw ℕ
inl port s = let s' = log_io (inp long port) s in ok (u32 (answer s')) s'

-- `rep insb`
unfoldable pub insb : ℕ → ℕ → ℕ → Fw (Unit {0})
insb buf port zero = pure tt
insb buf port (suc len) = do v ← inb port; store (λ m. st8 m buf v); insb (suc buf) port len
