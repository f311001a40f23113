-- ===== src/Examples/Strings.antt =====
-- Runs of string.c on strings in memory.
use qboot.Base.{ℕ, ◌≡◌, ◌↔◌, List, [], ◌∷◌, ◌++◌, some, arith, ℤ, pos, inr}
use qboot.Base.Text.{codes}
use qboot.Memory.{Memory, memcpy}
use qboot.CString.{strcat, strcmp, strstr, memmove, atol}
use qboot.CString.Terminated.{IsCString}
use qboot.CString.Copy.{SameOutside, strcat-append}
use qboot.CString.Compare.{strcmp-eq-zero_iff}
use qboot.CString.Move.{memmove-copies}
use qboot.CString.Search.{IsFirst, Occurs, strstr-IsFirst}
use qboot.CString.Number.{atol-decimal}
use qboot.Examples.{bytes, bytes-IsBytes}

-- "qboot" at 100, "boot" at 101, both with the NUL at 105; "bo" at 110; " -42" at 120.
abbrev text_bytes : List ℕ
text_bytes =
    codes "qboot" ++ 0 ∷ 0 ∷ 0 ∷ 0 ∷ 0 ∷ codes "bo" ++ 0 ∷ 0 ∷ 0 ∷ 0 ∷ 0 ∷ 0 ∷ 0 ∷ 0 ∷ codes " -42;"

abbrev text : Memory
text = bytes 100 text_bytes

qboot-at : IsCString text 100 (codes "qboot")
qboot-at = ground arith

bo-at : IsCString text 110 (codes "bo")
bo-at = ground arith

strcat-append_example :
    (g : Memory) × (strcat 9 text 110 100 ≡ some g)
    × IsCString g 110 (codes "bo" ++ codes "qboot")
    × SameOutside 112 6 text g
strcat-append_example =
    strcat-append text 9 110 100 (codes "bo") (codes "qboot") bo-at qboot-at (inr (omega arith))
      (omega arith) (omega arith)

strcmp-eq-zero_iff_example :
    (r : ℤ) × (strcmp 9 text 100 110 ≡ some r) × ((r ≡ pos 0) ↔ (codes "qboot" ≡ codes "bo"))
strcmp-eq-zero_iff_example =
    strcmp-eq-zero_iff text 9 100 110 (codes "qboot") (codes "bo")
      (bytes-IsBytes 100 text_bytes (ground arith)) qboot-at bo-at (omega arith)

-- An overlap by four bytes, moved up.
memmove-copies_example : memmove text 101 100 5 104 ≡ memcpy text 101 100 5 104
memmove-copies_example = memmove-copies text 101 100 5 104

strstr-IsFirst_example :
    (r : ℕ) × (strstr 9 text 100 110 ≡ some r) × IsFirst (Occurs text 110 2) 100 4 r
strstr-IsFirst_example =
    strstr-IsFirst text 9 100 110 (codes "qboot") (codes "bo") qboot-at bo-at (omega arith)
      (omega arith)

atol-decimal_example : atol 9 text 122 ≡ some 42
atol-decimal_example =
    atol-decimal text 9 122 0 122 (4 ∷ 2 ∷ []) (ground arith) (ground arith) (omega arith)
      (omega arith) (omega arith) (omega arith) (omega arith)
