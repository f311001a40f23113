-- ===== src/Printf/Format/Buffer.antt =====
-- vsnprintf from the call to the result.
use qboot.Base.{
  ℕ, ◌+◌, ◌-◌, ◌<◌, ◌≡◌, ◌^◌, refl, sym, ◌∙◌, ap, List, [], length, get_or, min, arith, sub32,
}
use qboot.Memory.{Memory, st8}
use qboot.Memory.Frame.{st8_self, st8-ne}
use qboot.CString.Copy.{SameOutside}
use qboot.Printf.Result.{returned}
use qboot.Printf.Stream.{Pstream}
use qboot.Printf.Stream.Text.{Shows}
use qboot.Printf.Format.{plain, vsnprintf, end_buffer}
use qboot.Printf.Format.Run.{run-Prints}
use qboot.Printf.Format.Prints.{Prints}

-- The buffer of `size` bytes has the text, or what fits of it, and a NUL behind it.
pub record Written (m : Memory) (buf size : ℕ) (text : List ℕ) (g : Memory) : Type 0 where
  pub text_at : (i : ℕ) → i < length text → i < size - 1 → g (buf + i) ≡ get_or text i 0
  pub nul_at : g (buf + min (length text) (size - 1)) ≡ 0
  pub outside : SameOutside buf size m g

Shows-empty :
    (m : Memory) (buf size : ℕ)
    → 0 < size
    → size < 2 ^ 32
    → Shows m buf (size - 1) [] (record { mem = m; buffer = buf; remain = sub32 size 1; added = 0 })
Shows-empty m buf size z b = record {
  added = refl;
  remain = ground arith;
  buffer = ground arith;
  holds = λ i h k. absurd (omega arith);
  outside = λ a o. refl;
}

end_buffer-Written :
    (m : Memory) (buf size : ℕ) (text : List ℕ) (p : Pstream)
    → 0 < size
    → Shows m buf (size - 1) text p
    → Written m buf size text (end_buffer p).0
unfolding end_buffer
end_buffer-Written m buf size text p z s = record {
  text_at = λ i h k. st8-ne p.mem p.buffer 0 (buf + i) (omega (arith, s.buffer)) ∙ s.holds i h k;
  nul_at = ap (st8 p.mem p.buffer 0) (sym s.buffer) ∙ st8_self p.mem p.buffer 0;
  outside =
      λ a o. st8-ne p.mem p.buffer 0 a (ground (arith, s.buffer)) ∙ s.outside a (ground arith);
}

-- When a format prints a text for its arguments by the rules of `Prints`, vsnprintf returns the
-- number of the text's characters and the NUL. The buffer then has the text, cut to one byte
-- less than the size, and a NUL behind it, and no byte outside of the buffer has changed. The
-- rules know plain characters, widths, the modifier l, and the conversions %, c, d, x, p and s;
-- they require the format and the strings to lie outside of the buffer, numbers of 32 bits
-- other than the least `long`, and at most as many rounds, and shorter strings and widths, than
-- the fuel. The size is at least 1 and below 2^31, and the fuel at least 12.
pub vsnprintf-Prints :
    (f buf size fmt : ℕ) (va : List ℕ) (m : Memory) (text : List ℕ)
    → 0 < size
    → size < 2 ^ 31
    → 11 < f
    → Prints m buf (size - 1) f f plain fmt va text
    → (g : Memory) × (vsnprintf f buf size fmt va m ≡ returned (g, length text + 1))
      × Written m buf size text g
unfolding vsnprintf end_buffer
vsnprintf-Prints f buf size fmt va m text z b e rules =
    let start : Pstream = record { mem = m; buffer = buf; remain = sub32 size 1; added = 0 } in
    let (p, runs, shows) =
      run-Prints m buf (size - 1) f rules (omega arith) e [] start
        (Shows-empty m buf size z (omega arith)) in
    let counted : p.added + 1 ≡ length text + 1 = omega (arith, shows.added) in
    (
      (end_buffer p).0,
      rw runs (ap (λ n. returned ((end_buffer p).0, n)) counted),
      end_buffer-Written m buf size text p z shows,
    )
