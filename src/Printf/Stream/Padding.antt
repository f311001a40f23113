-- ===== src/Printf/Stream/Padding.antt =====
-- print_str: a string in a field of a given width.
use mathlib.Core.List.{append-nil, append_assoc}
use qboot.Base.{
  if◌then◌else◌, leb, sub_ℕ, ℤ, ℕ, zero, suc, ◌-◌, ◌<◌, ◌≡◌, ◌^◌, refl, sym, subst, ◌∙◌, List, [],
  ◌∷◌, ◌++◌, length, replicate, arith, pos, negsuc, some, ap, ℤ,
}
use qboot.Memory.{Memory}
use qboot.CString.{strlen}
use qboot.CString.Copy.{Apart}
use qboot.CString.Terminated.{IsCString, IsCString-agree, strlen-length}
use qboot.Printf.Result.{returned}
use qboot.Printf.Stream.{
  Pstream, Strprops, Source, in_memory, local, addchar, pad_loop, text_loop, print_str, pad_left,
  pad_right, above, below, bytes_of, start_of,
}
use qboot.Printf.Stream.Text.{Shows, addchar-Shows}

-- At `a` of the source stands the string `xs`, which the buffer does not overlap.
abbrev pub Readable : Memory → ℕ → ℕ → Source → ℕ → List ℕ → Type 0
Readable m buf room (in_memory q) a xs = IsCString m a xs × Apart buf room a (suc (length xs))
Readable m buf room (local b) a xs = IsCString b a xs

-- The string in its field: blanks or zeros in front for a positive width, blanks behind for a
-- negative one.
abbrev pub padded : Strprops → List ℕ → List ℕ
padded props xs =
    replicate (above props.npad - length xs) props.pad
    ++ xs
    ++ replicate (below props.npad - length xs) b' '

Readable-tail :
    (m : Memory) (buf room : ℕ) (s : Source) (a x : ℕ) (xs : List ℕ)
    → Readable m buf room s a (x ∷ xs)
    → Readable m buf room s (suc a) xs
Readable-tail m buf room (in_memory q) a x xs r = ((r.0).2, ground arith)
Readable-tail m buf room (local b) a x xs r = r.2

-- The width that pad_left leaves for pad_right behind a string of `len` characters.
abbrev left_over : ℤ → ℕ → ℤ
left_over (pos zero) len = pos 0
left_over (pos (suc n)) len = if leb (suc n) len then sub_ℕ (suc n) len else pos 0
left_over (negsuc n) len = negsuc n

no-pads : (pad : ℕ) (p : Pstream) (len : ℕ) → pad_loop (0 - len) pad p ≡ p
unfolding pad_loop
no-pads pad p len = ap (λ k. pad_loop k pad p) {x = 0 - len} {y = 0} (omega arith)

pad_left-left_over :
    (f : ℕ) (s : Source) (pad : ℕ) (npad : ℤ) (p : Pstream) (len : ℕ)
    → strlen f (bytes_of s p.mem) (start_of s) ≡ some len
    → pad_left f s (record { pad = pad; npad = npad }) p
      ≡ returned (pad_loop (above npad - len) pad p, left_over npad len)
unfolding pad_left pad_loop
pad_left-left_over f s pad (pos zero) p len e =
    ap (λ x. returned (x, pos 0)) (sym (no-pads pad p len))
pad_left-left_over f s pad (pos (suc n)) p len e = ground arith
pad_left-left_over f s pad (negsuc n) p len e =
    ap (λ x. returned (x, negsuc n)) (sym (no-pads pad p len))

pad_right-left_over :
    (f : ℕ) (s : Source) (npad : ℤ) (p : Pstream) (len : ℕ)
    → strlen f (bytes_of s p.mem) (start_of s) ≡ some len
    → pad_right f s (left_over npad len) p ≡ returned (pad_loop (below npad - len) b' ' p)
unfolding pad_right
pad_right-left_over f s (pos zero) p len e = ground arith
pad_right-left_over f s (pos (suc n)) p len e = ground arith
pad_right-left_over f s (negsuc n) p len e = ground arith

module _ {m : Memory} {buf room : ℕ} where
  Readable-IsCString :
      (s : Source) (a : ℕ) (xs ts : List ℕ) (p : Pstream)
      → Readable m buf room s a xs
      → Shows m buf room ts p
      → IsCString (bytes_of s p.mem) a xs
  Readable-IsCString (in_memory q) a xs ts p r s =
      IsCString-agree m p.mem a xs r.0 (λ i h k. s.outside i (ground arith))
  Readable-IsCString (local b) a xs ts p r s = r

  pub pad_loop-Shows :
      (n c : ℕ) (ts : List ℕ) (p : Pstream)
      → room < 2 ^ 32
      → Shows m buf room ts p
      → Shows m buf room (ts ++ replicate n c) (pad_loop n c p)
  unfolding pad_loop
  pad_loop-Shows zero c ts p b s = subst (λ xs. Shows m buf room xs p) (sym (append-nil ts)) s
  pad_loop-Shows (suc n) c ts p b s =
      subst (λ xs. Shows m buf room xs (pad_loop n c (addchar c p)))
        (append_assoc ts (c ∷ []) (replicate n c))
        (pad_loop-Shows n c (ts ++ c ∷ []) (addchar c p) b (addchar-Shows c ts p b s))

  text_loop-Shows :
      (f : ℕ) (s : Source) (a : ℕ) (xs ts : List ℕ) (p : Pstream)
      → room < 2 ^ 32
      → Readable m buf room s a xs
      → length xs < f
      → Shows m buf room ts p
      → (p' : Pstream) × (text_loop f s a p ≡ some p') × Shows m buf room (ts ++ xs) p'
  unfolding text_loop
  text_loop-Shows zero s a xs ts p b r h w = absurd (omega arith)
  text_loop-Shows (suc f) s a [] ts p b r h w =
      let nul = Readable-IsCString s a [] ts p r w in
      (p, ground (arith, nul), subst (λ xs. Shows m buf room xs p) (sym (append-nil ts)) w)
  text_loop-Shows (suc f) s a (x ∷ xs) ts p b r h w =
      let here = Readable-IsCString s a (x ∷ xs) ts p r w in
      let c = bytes_of s p.mem a in
      let (p', runs, shows) =
        text_loop-Shows f s (suc a) xs (ts ++ c ∷ []) (addchar c p) b
          (Readable-tail m buf room s a x xs r) (omega arith) (addchar-Shows c ts p b w) in
      (
        p',
        ground (arith, here, runs),
        subst (λ ys. Shows m buf room ys p')
            (append_assoc ts (c ∷ []) xs ∙ ap (λ y. ts ++ (y ∷ xs)) here.0) shows,
      )

  -- The length that print_str computes, wherever the stream stands.
  Readable-strlen :
      (f : ℕ) (s : Source) (xs ts : List ℕ) (p : Pstream)
      → Readable m buf room s (start_of s) xs
      → Shows m buf room ts p
      → length xs < f
      → strlen f (bytes_of s p.mem) (start_of s) ≡ some (length xs)
  Readable-strlen f s xs ts p r w h =
      strlen-length (bytes_of s p.mem) f (start_of s) xs
        (Readable-IsCString s (start_of s) xs ts p r w) h

  -- print_str returns, and adds the string in its field to the text.
  pub print_str-Shows :
      (f : ℕ) (s : Source) (props : Strprops) (xs ts : List ℕ) (p : Pstream)
      → room < 2 ^ 32
      → Readable m buf room s (start_of s) xs
      → length xs < f
      → Shows m buf room ts p
      → (p' : Pstream) × (print_str f s props p ≡ returned p')
        × Shows m buf room (ts ++ padded props xs) p'
  unfolding print_str
  print_str-Shows f s props xs ts p b r h w =
      let before = replicate (above props.npad - length xs) props.pad in
      let p1 = pad_loop (above props.npad - length xs) props.pad p in
      let w1 = pad_loop-Shows (above props.npad - length xs) props.pad ts p b w in
      let (p2, runs, w2) = text_loop-Shows f s (start_of s) xs (ts ++ before) p1 b r h w1 in
      let p3 = pad_loop (below props.npad - length xs) b' ' p2 in
      let w3 = pad_loop-Shows (below props.npad - length xs) b' ' (ts ++ before ++ xs) p2 b w2 in
      let e1 =
        pad_left-left_over f s props.pad props.npad p (length xs)
          (Readable-strlen f s xs ts p r w h) in
      let e3 =
        pad_right-left_over f s props.npad p2 (length xs)
          (Readable-strlen f s xs (ts ++ before ++ xs) p2 r w2 h) in
      (p3, rw (e1, runs, e3) refl, subst (λ ys. Shows m buf room ys p3) (simp append_assoc) w3)
