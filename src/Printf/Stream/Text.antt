-- ===== src/Printf/Stream/Text.antt =====
-- The output stream of printf.c as the text that it stands for: what addchar, the padding loops and
-- print_str add to it.
use qboot.Base.{
  get_or-append_left, get_or-append_end, ◌==◌, Bool-cases, ==_iff, inl, inr, ap, ℕ, suc, ◌+◌, ◌-◌,
  ◌<◌, ◌≡◌, ◌^◌, ◌∙◌, List, [], ◌∷◌, ◌++◌, length, get_or, length-append, arith, min, sym, if_ind,
  ◌≢◌, sub32,
}
use qboot.Memory.{Memory, st8}
use qboot.Memory.Frame.{Outside, st8_self, st8-ne}
use qboot.Printf.Stream.{Pstream, addchar}

-- The stream has taken the characters `xs`, of which a buffer of `room` bytes at `buf` holds as
-- many as fit, and memory is `m` elsewhere.
pub record Shows (m : Memory) (buf room : ℕ) (xs : List ℕ) (p : Pstream) : Type 0 where
  pub added : p.added ≡ length xs
  pub remain : p.remain ≡ room - length xs
  pub buffer : p.buffer ≡ buf + min (length xs) room
  pub holds : (i : ℕ) → i < length xs → i < room → p.mem (buf + i) ≡ get_or xs i 0
  pub outside : (a : ℕ) → Outside buf room a → p.mem a ≡ m a

module _ {m : Memory} {buf room : ℕ} where
  -- A stream with no room left only counts.
  Shows-full :
      (c : ℕ) (xs : List ℕ) (p : Pstream)
      → p.remain ≡ 0
      → Shows m buf room xs p
      → Shows m buf room (xs ++ c ∷ []) (record p { added = p.added + 1 })
  Shows-full c xs p z s = record {
    added = omega (arith, s.added, length-append xs (c ∷ []));
    remain = omega (arith, s.remain, length-append xs (c ∷ []));
    buffer = omega (arith, s.buffer, s.remain, length-append xs (c ∷ []));
    holds = λ i h k.
        s.holds i (omega (arith, s.remain)) k
        ∙ sym (get_or-append_left xs (c ∷ []) i 0 (omega (arith, s.remain)));
    outside = s.outside;
  }

  Shows-stored :
      (c : ℕ) (xs : List ℕ) (p : Pstream)
      → p.remain ≢ 0
      → Shows m buf room xs p
      → (i : ℕ) → i < suc (length xs)
      → i < room
      → st8 p.mem p.buffer c (buf + i) ≡ get_or (xs ++ c ∷ []) i 0
  Shows-stored c xs p z s i h k = elim (Bool-cases (i == length xs)) [
    | inl e ↦
        let last : i ≡ length xs = (==_iff i (length xs)).0 e in
        let here : buf + i ≡ p.buffer = omega (arith, s.buffer) in
        ap (st8 p.mem p.buffer c) here
        ∙ st8_self p.mem p.buffer c
        ∙ sym (get_or-append_end xs c 0)
        ∙ ap (λ j. get_or (xs ++ c ∷ []) j 0) (sym last)
    | inr ne ↦
        let before : i < length xs = ground arith in
        st8-ne p.mem p.buffer c (buf + i) (omega (arith, s.buffer))
        ∙ s.holds i before k
        ∙ sym (get_or-append_left xs (c ∷ []) i 0 before)
  ]

  Shows-room :
      (c : ℕ) (xs : List ℕ) (p : Pstream)
      → p.remain ≢ 0
      → room < 2 ^ 32
      → Shows m buf room xs p
      → Shows m buf room (xs ++ c ∷ []) (record {
        mem = st8 p.mem p.buffer c;
        buffer = p.buffer + 1;
        remain = sub32 p.remain 1;
        added = p.added + 1;
      })
  Shows-room c xs p z b s = record {
    added = omega (arith, s.added, length-append xs (c ∷ []));
    remain = omega (arith, s.remain, length-append xs (c ∷ []));
    buffer = omega (arith, s.buffer, s.remain, length-append xs (c ∷ []));
    holds = λ i h k. Shows-stored c xs p z s i (omega (arith, h, length-append xs (c ∷ []))) k;
    outside = λ a o. st8-ne p.mem p.buffer c a (ground (arith, s.buffer, s.remain)) ∙ s.outside a o;
  }

  pub addchar-Shows :
      (c : ℕ) (xs : List ℕ) (p : Pstream)
      → room < 2 ^ 32
      → Shows m buf room xs p
      → Shows m buf room (xs ++ c ∷ []) (addchar c p)
  unfolding addchar
  addchar-Shows c xs p b s =
      if_ind (Shows m buf room (xs ++ c ∷ [])) (p.remain == 0)
        (λ e. Shows-full c xs p (ground arith) s) (λ e. Shows-room c xs p (ground arith) b s)
