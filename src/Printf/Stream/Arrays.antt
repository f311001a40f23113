-- ===== src/Printf/Stream/Arrays.antt =====
-- The local arrays of print_int and print_unsigned: 14 and 13 bytes.
use qboot.Base.{ℕ, zero, suc, ◌+◌, ◌≤◌, ◌<◌, ◌≡◌, ◌≢◌, ◌^◌, ◌∙◌, ap, arith, some, inr, length, ◌/◌}
use qboot.Memory.{Memory, st8}
use qboot.Memory.Frame.{st8-ne}
use qboot.Printf.Stream.{digit_loop, finish_number, exchange_loop}
use qboot.Printf.Stream.Digits.{digit_loop-Stored}
use qboot.Printf.Stream.Numbers.{sign, magnitude}
use qboot.Printf.Stream.Numeral.{finish_plain, finish_minus}
use qboot.Printf.Stream.Swap.{exchange_loop-Outside}

turned-Outside :
    (p : ℕ) (arr : Memory) (a : ℕ) → p < a → st8 (exchange_loop (p / 2) 0 p arr) p 0 a ≡ arr a
turned-Outside p arr a h =
    st8-ne (exchange_loop (p / 2) 0 p arr) p 0 a (omega arith)
    ∙ exchange_loop-Outside p arr a (omega arith)

finish_number-Outside :
    (s : ℕ) (arr : Memory) (p a : ℕ) → suc p < a → finish_number s (arr, p) a ≡ arr a
unfolding finish_number
finish_number-Outside zero arr zero a h =
    turned-Outside 1 (st8 arr 0 b'0') a h ∙ st8-ne arr 0 b'0' a (omega arith)
finish_number-Outside zero arr (suc p) a h =
    ap (λ g. g a) (finish_plain arr p) ∙ turned-Outside (suc p) arr a (omega arith)
finish_number-Outside (suc s) arr p a h =
    ap (λ g. g a) (finish_minus arr s p)
    ∙ turned-Outside (suc p) (st8 arr p b'-') a h
    ∙ st8-ne arr p b'-' a (omega arith)

array-bound :
    (f base k s n a : ℕ) (buf : Memory)
    → 1 < base
    → n < base ^ k
    → k < f
    → (stored : Memory × ℕ) × (digit_loop f base n buf 0 ≡ some stored)
      × (suc (suc k) ≤ a → finish_number s stored a ≡ buf a)
array-bound f base k s n a buf b h e =
    let (ds, arr, runs, st, eq) = digit_loop-Stored f base n k buf 0 b h e in
    (
      (arr, 0 + length ds),
      runs,
      λ l.
          finish_number-Outside s arr (0 + length ds) a (omega (arith, st.short))
          ∙ st.outside a (inr (omega (arith, st.short))),
    )

-- For any `long` but the least, the digit loop of print_int ends with fuel 11, and with the
-- sign and the NUL the digits only change the first 12 of the 14 bytes of its array. For the
-- same 32-bit pattern as an `unsigned long`, the digit loop of print_unsigned to base 16 ends
-- with fuel 9, and with the NUL the digits only change the first 10 of the 13 bytes of its
-- array.
pub array-Bounds :
    (n a : ℕ) (buf : Memory)
    → n < 2 ^ 32
    → n ≢ 0x80000000
    → ((stored : Memory × ℕ) × (digit_loop 11 10 (magnitude n) buf 0 ≡ some stored)
        × (12 ≤ a → finish_number (sign n) stored a ≡ buf a))
      × ((stored : Memory × ℕ) × (digit_loop 9 16 n buf 0 ≡ some stored)
          × (10 ≤ a → finish_number 0 stored a ≡ buf a))
array-Bounds n a buf h least = (
  array-bound 11 10 10 (sign n) (magnitude n) a buf (omega arith) (ground arith) (omega arith),
  array-bound 9 16 8 0 n a buf (omega arith) (omega arith) (omega arith),
)
