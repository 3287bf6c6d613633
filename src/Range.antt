-- ===== src/Range.antt =====
-- src/Range.c: the checks of integer constants, made where the compiler folds an expression.
-- `max` is OBNC_INT_MAX, for any width: OBNC_INT_MIN is `negsuc max`, that is -(max + 1).
-- A check reports nothing, prints a warning, or prints an error and ends the compiler.
pub mod Sums
pub mod Products
pub mod Bounds
use obnc.Prelude.{
  ℕ, ◌+◌, ◌-◌, ◌≤◌, Bool, true, false, ◌&&◌, leb, ltb, if◌then◌else◌, Result, ok, abort, ◌>>=◌,
}
use obnc.Prelude.Int.{ℤ, pos, negsuc, ltb_ℤ, ◌≤ℤ◌, ◌+ℤ◌, ◌-ℤ◌, quot, pos_part, neg_part}

-- The limit that a value breaks.
pub data Side : Type 0 where
  below above : Side

pub data Report : Type 0 where
  silent : Report
  warns : Side → Report
  exits : Side → Report

module _ (max : ℕ) where
  abbrev pub int_max : ℤ
  int_max = pos max

  abbrev pub int_min : ℤ
  int_min = negsuc max

  -- A value that an OBNC_INTEGER can hold.
  abbrev pub InRange : ℤ → Type 0
  InRange a = (int_min ≤ℤ a) × (a ≤ℤ int_max)

  abbrev pub in_range : ℤ → Bool
  in_range (pos n) = leb n max
  in_range (negsuc n) = leb n max

  -- A C expression over a signed type with this maximum: undefined where the result does not fit.
  abbrev pub fit : ℤ → Result ℤ
  fit a = if in_range a then ok a else abort

  -- `a / b`, undefined for `b = 0` too.
  abbrev pub c_quot : ℤ → ℤ → Result ℤ
  c_quot a b = if leb (pos_part b + neg_part b) 0 then abort else fit (quot a b)

-- The maximum of the type in which C computes: that of `int`, which has 32 bits, where OBNC_INTEGER
-- is shorter (OBNC_CONFIG_SHORT).
abbrev pub promoted : ℕ → ℕ
promoted max = max + (2147483647 - max)

module _ (max : ℕ) where
  pub check_int_sum : ℤ → ℤ → Result Report
  unfolding ◌-ℤ◌
  check_int_sum a b =
      if ltb_ℤ (pos 0) b
      then (do
        limit ← fit (promoted max) (int_max max -ℤ b)
        ok (if ltb_ℤ limit a then warns above else silent))
      else if ltb_ℤ b (pos 0)
      then (do
        limit ← fit (promoted max) (int_min max -ℤ b)
        ok (if ltb_ℤ a limit then warns below else silent))
      else ok silent

  pub check_int_diff : ℤ → ℤ → Result Report
  unfolding ◌+ℤ◌
  check_int_diff a b =
      if ltb_ℤ b (pos 0)
      then (do
        limit ← fit (promoted max) (int_max max +ℤ b)
        ok (if ltb_ℤ limit a then warns above else silent))
      else if ltb_ℤ (pos 0) b
      then (do
        limit ← fit (promoted max) (int_min max +ℤ b)
        ok (if ltb_ℤ a limit then warns below else silent))
      else ok silent

  pub check_int_prod : ℤ → ℤ → Result Report
  unfolding quot
  check_int_prod a b =
      if ltb_ℤ (pos 0) b
      then (if ltb_ℤ (pos 0) a
          then (do
            limit ← c_quot (promoted max) (int_max max) b
            ok (if ltb_ℤ limit a then warns above else silent))
          else if ltb_ℤ a (pos 0)
          then (do
            limit ← c_quot (promoted max) (int_min max) b
            ok (if ltb_ℤ a limit then warns below else silent))
          else ok silent)
      else if ltb_ℤ b (pos 0)
      then (if ltb_ℤ (pos 0) a
          then (do
            limit ← c_quot (promoted max) (int_min max) b
            ok (if ltb_ℤ a limit then warns below else silent))
          else if ltb_ℤ a (pos 0)
          then (do
            limit ← c_quot (promoted max) (int_max max) b
            ok (if ltb_ℤ a limit then warns above else silent))
          else ok silent)
      else ok silent

-- `bits` is CHAR_BIT * sizeof (OBNC_INTEGER). The shape of a check against 0 and a maximum.
abbrev check_within : (low high : ℕ) → (Side → Report) → ℤ → Report
check_within low high act n =
    if ltb_ℤ n (pos low) then act below else if ltb_ℤ (pos high) n then act above else silent

abbrev pub uchar_max : ℕ
uchar_max = 255

pub check_lsl : ℕ → ℤ → Report
check_lsl bits n = check_within 0 (bits - 1) warns n

pub check_asr : ℕ → ℤ → Report
check_asr bits n = check_within 0 (bits - 1) warns n

pub check_ror : ℕ → ℤ → Report
check_ror bits n = check_within 1 (bits - 1) warns n

pub check_bit : ℕ → ℤ → Report
check_bit bits n = check_within 0 (bits - 1) warns n

pub check_chr : ℤ → Report
check_chr n = check_within 0 uchar_max warns n

pub check_byte : ℤ → Report
check_byte n = check_within 0 uchar_max exits n

pub check_set_element : ℕ → ℤ → Report
check_set_element bits x =
    if ltb_ℤ x (pos 0)
    then exits below
    else if ltb_ℤ (pos (bits - 1)) x
    then warns above
    else silent
