-- ===== src/Runtime.antt =====
-- lib/obnc/OBNC.c: the run-time functions that compiled Oberon programs call.
-- `max` is OBNC_INT_MAX, as in Range: signed arithmetic that leaves the range of the type C computes in
-- is undefined, and aborts here. `%` is C's remainder, which has the sign of the dividend.
pub mod Traps
pub mod TypeTests
pub mod Division
pub mod Decimal
pub mod Hexadecimal
use obnc.Prelude.{
  ℕ, zero, suc, ◌+◌, ◌-◌, ◌*◌, ◌/◌, ◌%◌, ◌≤◌, Bool, true, false, not, ◌&&◌, ◌||◌, List, [], ◌∷◌,
  ◌++◌, Bytes, ltb, leb, ◌==◌, if◌then◌else◌, Result, ok, abort, diverge, ◌>>=◌, ◌>>◌, assert,
  length,
}
use obnc.Prelude.Int.{ℤ, pos, negsuc, pos_part, neg_part, sub_ℕ, ltb_ℤ, ◌+ℤ◌, ◌-ℤ◌, quot}
use obnc.Range.{promoted, fit, c_quot}

-- The remainder that goes with `quot`.
unfoldable pub rem : ℤ → ℤ → ℤ
rem (pos a) b = pos (a % (pos_part b + neg_part b))
rem (negsuc a) b = sub_ℕ 0 (suc a % (pos_part b + neg_part b))

module _ (max : ℕ) where
  -- `a % b`, undefined where `a / b` is.
  abbrev pub c_rem : ℤ → ℤ → Result ℤ
  c_rem a b = c_quot (promoted max) a b >>= λ _. ok (rem a b)

  unfoldable pub obnc_mod : ℤ → ℤ → Result ℤ
  unfolding rem ◌+ℤ◌ quot
  obnc_mod x y =
      if ltb_ℤ x (pos 0)
      then (do r ← c_rem x y; t ← fit (promoted max) (r +ℤ y); c_rem t y)
      else c_rem x y

  -- A quotient that is not in the range of OBNC_INTEGER has no value that C defines: abort too.
  unfoldable pub obnc_div : ℤ → ℤ → Result ℤ
  unfolding ◌-ℤ◌ quot
  obnc_div x y =
      if ltb_ℤ x (pos 0)
      then (do
        r ← obnc_mod x y
        t ← fit (promoted max) (x -ℤ r)
        q ← c_quot (promoted max) t y
        fit max q)
      else (do q ← c_quot (promoted max) x y; fit max q)

-- `OBNC_It1`: whether the trap handler is called, and the index that is returned after it.
unfoldable pub it1 : ℤ → ℤ → Bool × ℤ
it1 i n = (ltb_ℤ i (pos 0) || not (ltb_ℤ i n), i)

-- `Abs`
unfoldable pub abs : ℤ → ℤ
unfolding ◌-ℤ◌
abs x = if ltb_ℤ x (pos 0) then pos 0 -ℤ x else x

is_zero : ℤ → Bool
is_zero x = leb (pos_part x + neg_part x) 0

-- The first loop of `OBNC_WriteInt`. `buf` holds what is written, the last byte first, so that the
-- last loop prints it from its head; `room` is the space left in the C array, whose end the
-- assertion guards.
unfoldable pub digit_loop : ℕ → ℤ → Bytes → Result Bytes
unfolding rem quot abs is_zero
digit_loop zero x buf = abort
digit_loop (suc room) x buf =
    let buf' = (b'0' + pos_part (abs (rem x (pos 10)))) ∷ buf in
    let x' = quot x (pos 10) in
    let rest = digit_loop room x' buf' in if is_zero x' then ok buf' else rest

-- The loop of `OBNC_WriteInt` that writes a space and decrements the width, while that exceeds the
-- number of characters.
unfoldable pub padding_loop : ℕ → ℕ → Bytes
padding_loop zero used = []
padding_loop (suc n) used =
    let rest = padding_loop n used in if ltb used (suc n) then b' ' ∷ rest else []

-- A width that is not positive runs no round.
unfoldable pub padding : ℤ → ℕ → Bytes
padding (pos n) used = padding_loop n used
padding (negsuc n) used = []

-- `OBNC_WriteInt` with a buffer of `size` bytes; the result is what goes to the file.
unfoldable pub write_int : ℕ → ℤ → ℤ → Result Bytes
write_int size x n = do
  digits ← digit_loop size x []
  let neg = ltb_ℤ x (pos 0)
  let sign = if neg then b'-' ∷ [] else []
  ok (padding n (length digits + (if neg then 1 else 0)) ++ (sign ++ digits))

-- `OBNC_Terminated` for an array `s` of `s_len` bytes: the loop looks for a null.
unfoldable pub terminated : Bytes → Bool
terminated [] = false
terminated (c ∷ s) = (c == 0) || terminated s

unfoldable pub hex_digit : ℕ → ℕ
hex_digit d = if leb 10 d then b'A' + d - 10 else b'0' + d

-- The first loop of `OBNC_WriteHex`, for `k` digits: the last digit is computed first.
unfoldable pub hex_loop : ℕ → ℕ → Bytes → Bytes
hex_loop zero n digits = digits
hex_loop (suc k) n digits = hex_loop k (n / 16) (hex_digit (n % 16) ∷ digits)

-- `OBNC_WriteHex` for an integer of `k / 2` bytes.
unfoldable pub write_hex : ℕ → ℕ → Bytes
write_hex k n = b' ' ∷ hex_loop k n []
