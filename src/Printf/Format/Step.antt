-- ===== src/Printf/Format/Step.antt =====
-- One round of vsnprintf under each rule of Printf/Format/Prints.
use mathlib.Core.List.{append_assoc}
use qboot.Base.{
  ℕ, suc, ◌+◌, ◌<◌, ◌≡◌, ◌≢◌, ◌==◌, ◌^◌, refl, ◌∙◌, subst, List, [], ◌∷◌, ◌++◌, length, u8, arith,
  pos, neg, true, false, leb,
}
use qboot.Base.Text.{codes}
use qboot.Memory.{Memory}
use qboot.CString.Copy.{Apart}
use qboot.CString.Number.{decimal, HasDigits}
use qboot.Printf.Result.{returned}
use qboot.Printf.Stream.{Pstream, Strprops, in_memory, local, addchar}
use qboot.Printf.Stream.Text.{Shows, addchar-Shows}
use qboot.Printf.Stream.Padding.{Readable, padded, print_str-Shows}
use qboot.Printf.Stream.Numbers.{print_int-Shows, print_unsigned-Shows, decimal_text, hex_text}
use qboot.Printf.Format.{
  Mode, plain, morefmt, Scan, more, step, step_morefmt, convert, hex_prefix, no_props,
}
use qboot.Printf.Format.Fmtnum.{fmtnum_plain, fmtnum_minus, HasDigits-agree}
use qboot.Printf.Format.Prints.{Reads}

abbrev pub scan : Mode → ℕ → List ℕ → Pstream → Scan
scan mode fmt va p = record { mode = mode; fmt = fmt; va = va; out = p }

module _ (m : Memory) (buf room f : ℕ) (ts : List ℕ) (p : Pstream) (w : Shows m buf room ts p) where
  pub Reads-Shows : (a c : ℕ) → Reads m buf room a c → p.mem a ≡ c
  Reads-Shows a c r = w.outside a r.1 ∙ r.0

  -- A round adds `ys`, and goes on between conversions.
  abbrev pub Adds : Scan → ℕ → List ℕ → List ℕ → Type 0
  Adds s fmt va ys =
      (p' : Pstream) × (step f s ≡ returned (more (scan plain fmt va p')))
      × Shows m buf room (ts ++ ys) p'

  module _ (b : room < 2 ^ 32) where
    pub step_literal :
        (c fmt : ℕ) (va : List ℕ)
        → Reads m buf room fmt c
        → c ≢ 0
        → c ≢ b'%'
        → Adds (scan plain fmt va p) (suc fmt) va (c ∷ [])
    unfolding step
    step_literal c fmt va r z q =
        let here = Reads-Shows fmt c r in
        let nul : c == 0 ≡ false = ground arith in
        let other : c == b'%' ≡ false = ground arith in
        (addchar c p, rw (here, nul, other) refl, addchar-Shows c ts p b w)

    module _ (nlong fmt : ℕ) (props : Strprops) (va : List ℕ) where
      pub step_percent :
          Reads m buf room fmt b'%'
          → Adds (scan (morefmt nlong props) fmt va p) (suc fmt) va (b'%' ∷ [])
      unfolding step step_morefmt
      step_percent r =
          (addchar b'%' p, rw (Reads-Shows fmt b'%' r) refl, addchar-Shows b'%' ts p b w)

      pub step_character :
          (c : ℕ)
          → Reads m buf room fmt b'c'
          → Adds (scan (morefmt nlong props) fmt (c ∷ va) p) (suc fmt) va (u8 c ∷ [])
      unfolding step step_morefmt
      step_character c r =
          (addchar (u8 c) p, rw (Reads-Shows fmt b'c' r) refl, addchar-Shows (u8 c) ts p b w)

      pub step_decimal :
          (c : ℕ)
          → Reads m buf room fmt b'd'
          → nlong < 2
          → c < 2 ^ 32
          → c ≢ 0x80000000
          → 11 < f
          → Adds
              (scan (morefmt nlong props) fmt (c ∷ va) p)
              (suc fmt)
              va
              (padded props (decimal_text c))
      unfolding step step_morefmt convert
      step_decimal c r k l least e =
          let (p', prints, w') = print_int-Shows f c props ts p b l least e w in
          let short : leb 2 nlong ≡ false = ground arith in
          (p', rw (Reads-Shows fmt b'd' r, short, prints) refl, w')

      pub step_hex :
          (c : ℕ)
          → Reads m buf room fmt b'x'
          → nlong < 2
          → c < 2 ^ 32
          → 11 < f
          → Adds
              (scan (morefmt nlong props) fmt (c ∷ va) p)
              (suc fmt)
              va
              (padded props (hex_text c))
      unfolding step step_morefmt convert
      step_hex c r k l e =
          let (p', prints, w') = print_unsigned-Shows f c props ts p b l e w in
          let short : leb 2 nlong ≡ false = ground arith in
          (p', rw (Reads-Shows fmt b'x' r, short, prints) refl, w')

      pub step_pointer :
          (c : ℕ)
          → Reads m buf room fmt b'p'
          → c < 2 ^ 32
          → 11 < f
          → Adds
              (scan (morefmt nlong props) fmt (c ∷ va) p)
              (suc fmt)
              va
              (padded props (codes "0x") ++ padded props (hex_text c))
      unfolding step step_morefmt convert
      step_pointer c r l e =
          let (p1, first, w1) =
            print_str-Shows f (local hex_prefix) props (codes "0x") ts p b
              (refl, omega arith, (refl, omega arith, refl)) (omega arith) w in
          let (p', prints, w') =
            print_unsigned-Shows f c props (ts ++ padded props (codes "0x")) p1 b l e w1 in
          (
            p',
            rw (Reads-Shows fmt b'p' r, first, prints) refl,
            subst (λ x. Shows m buf room x p')
                (append_assoc ts (padded props (codes "0x")) (padded props (hex_text c))) w',
          )

      pub step_string :
          (c : ℕ) (ys : List ℕ)
          → Reads m buf room fmt b's'
          → Readable m buf room (in_memory c) c ys
          → length ys < f
          → Adds (scan (morefmt nlong props) fmt (c ∷ va) p) (suc fmt) va (padded props ys)
      unfolding step step_morefmt convert
      step_string c ys r y l =
          let (p', prints, w') = print_str-Shows f (in_memory c) props ys ts p b y l w in
          (p', rw (Reads-Shows fmt b's' r, prints) refl, w')

  -- A round that adds nothing.
  abbrev pub Silent : Scan → Mode → ℕ → List ℕ → Type 0
  Silent s mode fmt va = step f s ≡ returned (more (scan mode fmt va p))

  pub step_conversion :
      (fmt : ℕ) (va : List ℕ)
      → Reads m buf room fmt b'%'
      → Silent (scan plain fmt va p) (morefmt 0 no_props) (suc fmt) va
  unfolding step
  step_conversion fmt va r = rw (Reads-Shows fmt b'%' r) refl

  module _ (nlong fmt : ℕ) (props : Strprops) (va : List ℕ) where
    pub step_long :
        Reads m buf room fmt b'l'
        → Silent (scan (morefmt nlong props) fmt va p) (morefmt (nlong + 1) props) (suc fmt) va
    unfolding step step_morefmt
    step_long r = rw (Reads-Shows fmt b'l' r) refl

    digits_kept :
        (a : ℕ) (ds : List ℕ)
        → Apart buf room a (suc (length ds))
        → HasDigits m a ds
        → HasDigits p.mem a ds
    digits_kept a ds o h = HasDigits-agree m p.mem a ds h (λ i k l. w.outside i (ground arith))

    digit_tests :
        (c d : ℕ)
        → d ≢ 0
        → d < 10
        → c ≡ b'0' + d
        → ((c == b'%') ≡ false)
          × ((c == b'c') ≡ false)
          × ((c == 0) ≡ false)
          × ((c == b'0') ≡ false)
          × (leb b'1' c ≡ true)
          × (leb c b'9' ≡ true)
    digit_tests c d z h e = ground arith

    pub step_width :
        (d : ℕ) (ds : List ℕ)
        → d ≢ 0
        → HasDigits m fmt (d ∷ ds)
        → Apart buf room fmt (suc (suc (length ds)))
        → decimal 0 (d ∷ ds) < 0x80000000
        → suc (length ds) < f
        → Silent
            (scan (morefmt nlong props) fmt va p)
            (morefmt nlong (record props { npad = pos (decimal 0 (d ∷ ds)) }))
            (fmt + suc (length ds))
            va
    unfolding step step_morefmt
    step_width d ds z h o l k =
        let has = digits_kept fmt (d ∷ ds) o h in
        let num = fmtnum_plain p.mem f fmt d ds has l k in
        let (percent, char, nul, zero_flag, low, high) = digit_tests (p.mem fmt) d z has.0 has.1 in
        rw (num, percent, char, nul, zero_flag, low, high) refl

    pub step_left_width :
        (ds : List ℕ)
        → m fmt ≡ b'-'
        → HasDigits m (suc fmt) ds
        → Apart buf room fmt (suc (suc (length ds)))
        → 0 < decimal 0 ds
        → decimal 0 ds < 0x80000000
        → length ds < f
        → Silent
            (scan (morefmt nlong props) fmt va p)
            (morefmt nlong (record props { npad = neg (pos (decimal 0 ds)) }))
            (fmt + suc (length ds))
            va
    unfolding step step_morefmt
    step_left_width ds c h o z l k =
        let has = digits_kept (suc fmt) ds (ground arith) h in
        let here : p.mem fmt ≡ b'-' = w.outside fmt (ground arith) ∙ c in
        let num = fmtnum_minus p.mem f fmt ds here has z l k in rw (num, here) refl
