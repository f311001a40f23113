-- ===== src/Printf/Format/Run.antt =====
-- The rounds of vsnprintf under the rules of Printf/Format/Prints.
use mathlib.Core.List.{append-nil, append_assoc}
use qboot.Base.{
  pos, neg, length, ℕ, suc, ◌+◌, ◌<◌, ◌≡◌, ◌^◌, refl, sym, ◌∙◌, ap, subst, List, [], ◌∷◌, ◌++◌, u8,
}
use qboot.Base.Text.{codes}
use qboot.CString.Number.{decimal}
use qboot.Memory.{Memory}
use qboot.Printf.Result.{returned}
use qboot.Printf.Stream.{Pstream}
use qboot.Printf.Stream.Text.{Shows}
use qboot.Printf.Stream.Padding.{padded}
use qboot.Printf.Stream.Numbers.{decimal_text, hex_text}
use qboot.Printf.Format.{Mode, plain, morefmt, Scan, step, run, no_props}
use qboot.Printf.Format.Step.{
  scan, Reads-Shows, Adds, Silent, step_literal, step_percent, step_character, step_decimal,
  step_hex, step_pointer, step_string, step_conversion, step_long, step_width, step_left_width,
}
use qboot.Printf.Format.Prints.{
  Prints, end_of_format, literal, conversion, percent, character, width, left_width, long,
  decimal_number, hex_number, pointer, string,
}

module _ (m : Memory) (buf room f : ℕ) where
  -- The rounds from a scan on print `xs` behind `ts`.
  abbrev pub Runs : ℕ → Scan → List ℕ → List ℕ → Type 0
  Runs n s ts xs = (p' : Pstream) × (run n f s ≡ returned p') × Shows m buf room (ts ++ xs) p'

  -- A round that adds `ys`, and the rounds behind it.
  run-Adds :
      (n fmt : ℕ) (va ts ys xs text : List ℕ) (p : Pstream) (w : Shows m buf room ts p) (s : Scan)
      → text ≡ ys ++ xs
      → Adds m buf room f ts p w s fmt va ys
      → ((p' : Pstream)
          → Shows m buf room (ts ++ ys) p'
          → Runs n (scan plain fmt va p') (ts ++ ys) xs)
      → Runs (suc n) s ts text
  unfolding run
  run-Adds n fmt va ts ys xs text p w s e (p1, goes, w1) rest =
      let (p', runs, shows) = rest p1 w1 in
      (
        p',
        rw (goes, runs) refl,
        subst (λ x. Shows m buf room x p') (append_assoc ts ys xs ∙ ap (λ x. ts ++ x) (sym e))
            shows,
      )

  run-Silent :
      (n fmt : ℕ) (va ts xs : List ℕ) (p : Pstream) (w : Shows m buf room ts p) (s : Scan)
      (mode : Mode)
      → Silent m buf room f ts p w s mode fmt va
      → Runs n (scan mode fmt va p) ts xs
      → Runs (suc n) s ts xs
  unfolding run
  run-Silent n fmt va ts xs p w s mode goes (p', runs, shows) = (p', rw (goes, runs) refl, shows)

  -- A run of as many rounds as the rules need returns, and adds their text to the stream.
  pub run-Prints :
      {n : ℕ} {mode : Mode} {fmt : ℕ} {va xs : List ℕ}
      → Prints m buf room f n mode fmt va xs
      → room < 2 ^ 32
      → 11 < f
      → (ts : List ℕ) (p : Pstream) → Shows m buf room ts p
      → Runs n (scan mode fmt va p) ts xs
  unfolding run step
  run-Prints (end_of_format {n} {fmt} r) b e ts p w = (
    p,
    rw (Reads-Shows m buf room f ts p w fmt 0 r) refl,
    subst (λ x. Shows m buf room x p) (sym (append-nil ts)) w,
  )
  run-Prints (literal {n} {fmt} {va} {xs} c r z q rest) b e ts p w =
      run-Adds n (suc fmt) va ts (c ∷ []) xs (c ∷ xs) p w (scan plain fmt va p) refl
        (step_literal m buf room f ts p w b c fmt va r z q) (run-Prints rest b e (ts ++ c ∷ []))
  run-Prints (conversion {n} {fmt} {va} {xs} r rest) b e ts p w =
      run-Silent n (suc fmt) va ts xs p w (scan plain fmt va p) (morefmt 0 no_props)
        (step_conversion m buf room f ts p w fmt va r) (run-Prints rest b e ts p w)
  run-Prints (percent {n} {fmt} {nlong} {props} {va} {xs} r rest) b e ts p w =
      run-Adds n (suc fmt) va ts (b'%' ∷ []) xs (b'%' ∷ xs) p w
        (scan (morefmt nlong props) fmt (va) p) refl
        (step_percent m buf room f ts p w b nlong fmt props va r)
        (run-Prints rest b e (ts ++ (b'%' ∷ [])))
  run-Prints (character {n} {fmt} {nlong} {props} {va} {xs} c r rest) b e ts p w =
      run-Adds n (suc fmt) va ts (u8 c ∷ []) xs (u8 c ∷ xs) p w
        (scan (morefmt nlong props) fmt (c ∷ va) p) refl
        (step_character m buf room f ts p w b nlong fmt props va c r)
        (run-Prints rest b e (ts ++ (u8 c ∷ [])))
  run-Prints (decimal_number {n} {fmt} {nlong} {props} {va} {xs} {text} c r k l least eq rest) b e
        ts p w =
      run-Adds n (suc fmt) va ts (padded props (decimal_text c)) xs (text) p w
        (scan (morefmt nlong props) fmt (c ∷ va) p) eq
        (step_decimal m buf room f ts p w b nlong fmt props va c r k l least e)
        (run-Prints rest b e (ts ++ (padded props (decimal_text c))))
  run-Prints (hex_number {n} {fmt} {nlong} {props} {va} {xs} {text} c r k l eq rest) b e ts p w =
      run-Adds n (suc fmt) va ts (padded props (hex_text c)) xs (text) p w
        (scan (morefmt nlong props) fmt (c ∷ va) p) eq
        (step_hex m buf room f ts p w b nlong fmt props va c r k l e)
        (run-Prints rest b e (ts ++ (padded props (hex_text c))))
  run-Prints (pointer {n} {fmt} {nlong} {props} {va} {xs} {text} c r l eq rest) b e ts p w =
      run-Adds n (suc fmt) va ts (padded props (codes "0x") ++ padded props (hex_text c)) xs (text)
        p w (scan (morefmt nlong props) fmt (c ∷ va) p) eq
        (step_pointer m buf room f ts p w b nlong fmt props va c r l e)
        (run-Prints rest b e (ts ++ (padded props (codes "0x") ++ padded props (hex_text c))))
  run-Prints (string {n} {fmt} {nlong} {props} {va} {xs} {text} c ys r y l eq rest) b e ts p w =
      run-Adds n (suc fmt) va ts (padded props ys) xs (text) p w
        (scan (morefmt nlong props) fmt (c ∷ va) p) eq
        (step_string m buf room f ts p w b nlong fmt props va c ys r y l)
        (run-Prints rest b e (ts ++ (padded props ys)))
  run-Prints (long {n} {fmt} {nlong} {props} {va} {xs} r rest) b e ts p w =
      run-Silent n (suc fmt) va ts xs p w (scan (morefmt nlong props) fmt va p)
        (morefmt (nlong + 1) props) (step_long m buf room f ts p w nlong fmt props va r)
        (run-Prints rest b e ts p w)
  run-Prints (width {n} {fmt} {nlong} {props} {va} {xs} d ds z h o l k rest) b e ts p w =
      run-Silent n (fmt + suc (length ds)) va ts xs p w (scan (morefmt nlong props) fmt va p)
        (morefmt nlong (record props { npad = pos (decimal 0 (d ∷ ds)) }))
        (step_width m buf room f ts p w nlong fmt props va d ds z h o l k)
        (run-Prints rest b e ts p w)
  run-Prints (left_width {n} {fmt} {nlong} {props} {va} {xs} ds c h o z l k rest) b e ts p w =
      run-Silent n (fmt + suc (length ds)) va ts xs p w (scan (morefmt nlong props) fmt va p)
        (morefmt nlong (record props { npad = neg (pos (decimal 0 ds)) }))
        (step_left_width m buf room f ts p w nlong fmt props va ds c h o z l k)
        (run-Prints rest b e ts p w)
