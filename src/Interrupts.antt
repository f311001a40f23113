-- ===== src/Interrupts.antt =====
-- code16.c: the 16-bit handlers of INT 10h and INT 15h. `e820_seg` and the FS segment register
-- give the flat address of the memory map; ES:DI is taken as the flat address EDI, as the code
-- does.
pub mod Walk
use qboot.Base.{
  zero, suc, ℕ, ◌+◌, suc, if◌then◌else◌, u32, bit_and, ◌*◌, leb, ltb, ◌==◌, ◌>>>◌, bit_or,
}
use qboot.Memory.{Memory, ldl_p, memcpy, st8}
use qboot.Machine.{Fw, pure, ◌>>=◌, ◌>>◌, gets, load, store}
use qboot.Machine.Ports.{outb}

-- `struct biosregs`
pub record BiosRegs : Type 0 where
  pub eax : ℕ
  pub ebx : ℕ
  pub ecx : ℕ
  pub edx : ℕ
  pub esp : ℕ
  pub ebp : ℕ
  pub esi : ℕ
  pub edi : ℕ
  pub ds : ℕ
  pub es : ℕ
  pub fs : ℕ
  pub ip : ℕ
  pub cs : ℕ
  pub eflags : ℕ

abbrev pub smap : ℕ
smap = 0x534d4150

-- `sizeof(struct e820entry)`, and the offset of `map[ndx]` in `struct e820map`, in 32 bits.
abbrev pub e820entry_size : ℕ
e820entry_size = 20

abbrev pub e820map_entry : ℕ → ℕ
e820map_entry ndx = u32 (4 + ndx * e820entry_size)

-- The byte loop `*p++ = rdfs8(start + i)`, with the rounds left. `base` is the flat address of FS, and
-- `offset` the 32 bits of `start + i`.
unfoldable pub copy_entry : (p base offset : ℕ) → ℕ → Memory → Memory
copy_entry p base offset zero m = m
copy_entry p base offset (suc n) m =
    copy_entry (suc p) base (u32 (offset + 1)) n (st8 m p (m (base + offset)))

-- The registers on return, for a map of `map_size` entries.
unfoldable pub e820_regs : ℕ → BiosRegs → BiosRegs
e820_regs map_size regs =
    let ndx = u32 (regs.ebx + 1) in
    record regs { eax = smap; ecx = e820entry_size; ebx = if leb map_size ndx then 0 else ndx }

unfoldable pub e820_query_map : BiosRegs → Fw BiosRegs
unfolding copy_entry e820_regs
e820_query_map regs = do
  seg ← gets (λ g. g.e820_seg)
  let base = seg * 16
  map_size ← load (λ m. ldl_p m base)
  store (λ m.
      if ltb regs.ebx map_size
      then copy_entry regs.edi base (e820map_entry regs.ebx) e820entry_size m
      else m)
  pure (e820_regs map_size regs)

unfoldable pub int15_handler : BiosRegs → Fw BiosRegs
unfolding e820_query_map
int15_handler regs =
    if regs.eax == 0xe820
    then e820_query_map regs
    else pure (record regs { eflags = bit_or regs.eflags 1 })

unfoldable pub int10_handler : BiosRegs → Fw BiosRegs
int10_handler args =
    let ah = bit_and args.eax 0xff00 >>> 8 in
    if ah == 0x0e
    then (do outb 0x3f8 (bit_and args.eax 0xff); pure args)
    else if ah == 0x4f
    then pure (record args { eax = 0x014f })
    else pure args
