-- ===== src/Range/Sums.antt =====
-- The checks of sums and differences are exact, and compute within the range themselves.
use obnc.Prelude.{ℕ, ◌≡◌, arith, if◌then◌else◌, ok}
use obnc.Prelude.Int.{ℤ, pos, negsuc, ltb_ℤ, ◌+ℤ◌, ◌-ℤ◌}
use obnc.Range.{
  Report, silent, warns, above, below, int_max, int_min, InRange, check_int_sum, check_int_diff,
}

module _ (max : ℕ) where
  -- What a check has to report of the exact value.
  abbrev pub verdict : ℤ → Report
  verdict v =
      if ltb_ℤ (int_max max) v
      then warns above
      else if ltb_ℤ v (int_min max)
      then warns below
      else silent

  -- For two integers in the range: the check of a sum warns above or below exactly if the exact sum
  -- is above or below the range, and overflows in no step of its own.
  check_int_sum-exact :
      (a b : ℤ) → InRange max a → InRange max b → check_int_sum max a b ≡ ok (verdict (a +ℤ b))
  unfolding check_int_sum ◌+ℤ◌
  check_int_sum-exact (pos a) (pos b) ha hb = ground arith
  check_int_sum-exact (pos a) (negsuc b) ha hb = ground arith
  check_int_sum-exact (negsuc a) (pos b) ha hb = ground arith
  check_int_sum-exact (negsuc a) (negsuc b) ha hb = ground arith

  -- For two integers in the range: the check of a difference warns above or below exactly if the
  -- exact difference is above or below the range, and overflows in no step of its own.
  check_int_diff-exact :
      (a b : ℤ) → InRange max a → InRange max b → check_int_diff max a b ≡ ok (verdict (a -ℤ b))
  unfolding check_int_diff ◌-ℤ◌
  check_int_diff-exact (pos a) (pos b) ha hb = ground arith
  check_int_diff-exact (pos a) (negsuc b) ha hb = ground arith
  check_int_diff-exact (negsuc a) (pos b) ha hb = ground arith
  check_int_diff-exact (negsuc a) (negsuc b) ha hb = ground arith

  -- For two integers in the range: the checks of their sum and of their difference warn above or
  -- below exactly if the exact result is above or below the range, and overflow in no step of their
  -- own.
  pub sum_checks-exact :
      (a b : ℤ)
      → InRange max a
      → InRange max b
      → (check_int_sum max a b ≡ ok (verdict (a +ℤ b)))
        × (check_int_diff max a b ≡ ok (verdict (a -ℤ b)))
  sum_checks-exact a b ha hb = (check_int_sum-exact a b ha hb, check_int_diff-exact a b ha hb)
