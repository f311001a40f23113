-- ===== src/Printf/Format/Prints.antt =====
-- What a format string means, as rules: the text that it prints for its arguments.
use qboot.Base.{neg, ℕ, suc, ◌+◌, ◌<◌, ◌≡◌, ◌≢◌, ◌^◌, List, [], ◌∷◌, ◌++◌, length, u8, pos}
use qboot.Base.Text.{codes}
use qboot.Memory.{Memory}
use qboot.Memory.Frame.{Outside}
use qboot.CString.Copy.{Apart}
use qboot.CString.Number.{decimal, HasDigits}
use qboot.Printf.Stream.{Strprops, in_memory}
use qboot.Printf.Stream.Padding.{Readable, padded}
use qboot.Printf.Stream.Numbers.{decimal_text, hex_text}
use qboot.Printf.Format.{Mode, plain, morefmt, no_props}

-- The format has the character `c` at `a`, which is not in the buffer.
abbrev pub Reads : Memory → ℕ → ℕ → ℕ → ℕ → Type 0
Reads m buf room a c = (m a ≡ c) × Outside buf room a

-- In at most `n` rounds, the format from `fmt` on prints `text` for the arguments `va`. The loops
-- over a string or a number take fuel `f`.
pub data Prints (m : Memory) (buf room f : ℕ) : ℕ → Mode → ℕ → List ℕ → List ℕ → Type 0 where
  end_of_format :
      {n fmt : ℕ} {va : List ℕ}
      → Reads m buf room fmt 0
      → Prints m buf room f (suc n) plain fmt va []
  literal :
      {n fmt : ℕ} {va xs : List ℕ} (c : ℕ)
      → Reads m buf room fmt c
      → c ≢ 0
      → c ≢ b'%'
      → Prints m buf room f n plain (suc fmt) va xs
      → Prints m buf room f (suc n) plain fmt va (c ∷ xs)
  conversion :
      {n fmt : ℕ} {va xs : List ℕ}
      → Reads m buf room fmt b'%'
      → Prints m buf room f n (morefmt 0 no_props) (suc fmt) va xs
      → Prints m buf room f (suc n) plain fmt va xs
  percent :
      {n fmt nlong : ℕ} {props : Strprops} {va xs : List ℕ}
      → Reads m buf room fmt b'%'
      → Prints m buf room f n plain (suc fmt) va xs
      → Prints m buf room f (suc n) (morefmt nlong props) fmt va (b'%' ∷ xs)
  character :
      {n fmt nlong : ℕ} {props : Strprops} {va xs : List ℕ} (w : ℕ)
      → Reads m buf room fmt b'c'
      → Prints m buf room f n plain (suc fmt) va xs
      → Prints m buf room f (suc n) (morefmt nlong props) fmt (w ∷ va) (u8 w ∷ xs)
  width :
      {n fmt nlong : ℕ} {props : Strprops} {va xs : List ℕ} (d : ℕ) (ds : List ℕ)
      → d ≢ 0
      → HasDigits m fmt (d ∷ ds)
      → Apart buf room fmt (suc (suc (length ds)))
      → decimal 0 (d ∷ ds) < 0x80000000
      → suc (length ds) < f
      → Prints m buf room f n
          (morefmt nlong (record props { npad = pos (decimal 0 (d ∷ ds)) }))
          (fmt + suc (length ds))
          va
          xs
      → Prints m buf room f (suc n) (morefmt nlong props) fmt va xs
  left_width :
      {n fmt nlong : ℕ} {props : Strprops} {va xs : List ℕ} (ds : List ℕ)
      → m fmt ≡ b'-'
      → HasDigits m (suc fmt) ds
      → Apart buf room fmt (suc (suc (length ds)))
      → 0 < decimal 0 ds
      → decimal 0 ds < 0x80000000
      → length ds < f
      → Prints m buf room f n
          (morefmt nlong (record props { npad = neg (pos (decimal 0 ds)) }))
          (fmt + suc (length ds))
          va
          xs
      → Prints m buf room f (suc n) (morefmt nlong props) fmt va xs
  long :
      {n fmt nlong : ℕ} {props : Strprops} {va xs : List ℕ}
      → Reads m buf room fmt b'l'
      → Prints m buf room f n (morefmt (nlong + 1) props) (suc fmt) va xs
      → Prints m buf room f (suc n) (morefmt nlong props) fmt va xs
  decimal_number :
      {n fmt nlong : ℕ} {props : Strprops} {va xs text : List ℕ} (w : ℕ)
      → Reads m buf room fmt b'd'
      → nlong < 2
      → w < 2 ^ 32
      → w ≢ 0x80000000
      → text ≡ padded props (decimal_text w) ++ xs
      → Prints m buf room f n plain (suc fmt) va xs
      → Prints m buf room f (suc n) (morefmt nlong props) fmt (w ∷ va) text
  hex_number :
      {n fmt nlong : ℕ} {props : Strprops} {va xs text : List ℕ} (w : ℕ)
      → Reads m buf room fmt b'x'
      → nlong < 2
      → w < 2 ^ 32
      → text ≡ padded props (hex_text w) ++ xs
      → Prints m buf room f n plain (suc fmt) va xs
      → Prints m buf room f (suc n) (morefmt nlong props) fmt (w ∷ va) text
  pointer :
      {n fmt nlong : ℕ} {props : Strprops} {va xs text : List ℕ} (w : ℕ)
      → Reads m buf room fmt b'p'
      → w < 2 ^ 32
      → text ≡ padded props (codes "0x") ++ padded props (hex_text w) ++ xs
      → Prints m buf room f n plain (suc fmt) va xs
      → Prints m buf room f (suc n) (morefmt nlong props) fmt (w ∷ va) text
  string :
      {n fmt nlong : ℕ} {props : Strprops} {va xs text : List ℕ} (w : ℕ) (ys : List ℕ)
      → Reads m buf room fmt b's'
      → Readable m buf room (in_memory w) w ys
      → length ys < f
      → text ≡ padded props ys ++ xs
      → Prints m buf room f n plain (suc fmt) va xs
      → Prints m buf room f (suc n) (morefmt nlong props) fmt (w ∷ va) text
