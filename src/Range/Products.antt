-- ===== src/Range/Products.antt =====
-- The check of products: exact, but for a positive by a negative factor.
use native.Mathlib.Nat.{div-le_self, div-lt_iff_lt-mul, le-div_iff_mul-le, div-one}
use obnc.Prelude.{ℕ, suc, ◌+◌, ◌*◌, ◌≤◌, ◌<◌, ◌≡◌, ◌⊎◌, arith, leb, if◌then◌else◌, ok, abort}
use obnc.Prelude.Int.{ℤ, pos, negsuc, ◌≤ℤ◌, ◌*ℤ◌}
use obnc.Range.{silent, warns, below, InRange, check_int_prod}
use obnc.Range.Sums.{verdict}

module _ (max : ℕ) where
  -- For two integers in the range, unless the first is positive and the second negative: the check
  -- of a product warns above or below exactly if the exact product is above or below the range, and
  -- overflows in no step of its own.
  pub check_int_prod-exact :
      (a b : ℤ)
      → InRange max a
      → InRange max b
      → (pos 0 ≤ℤ b) ⊎ (a ≤ℤ pos 0)
      → check_int_prod max a b ≡ ok (verdict max (a *ℤ b))
  unfolding check_int_prod ◌*ℤ◌
  check_int_prod-exact (pos a) (pos b) ha hb h =
      ground (arith, div-lt_iff_lt-mul {k = b} {x = max} {y = a}, div-le_self max b)
  check_int_prod-exact (pos a) (negsuc b) ha hb h = ground arith
  check_int_prod-exact (negsuc a) (pos b) ha hb h =
      ground (arith, div-lt_iff_lt-mul {k = b} {x = suc max} {y = suc a}, div-le_self (suc max) b)
  check_int_prod-exact (negsuc a) (negsuc b) ha hb h =
      ground (arith, div-lt_iff_lt-mul {k = suc b} {x = max} {y = suc a}, div-le_self max (suc b))

  -- For a positive integer `a` and a negative integer -(b + 2): the check warns below exactly if
  -- (a + 1) * (b + 2) is at most `max` + 1, so only where the product is in the range.
  check_int_prod_mixed :
      (a b : ℕ)
      → 0 < a
      → check_int_prod max (pos a) (negsuc (suc b))
        ≡ ok (if leb ((a + 1) * (b + 2)) (max + 1) then warns below else silent)
  unfolding check_int_prod
  check_int_prod_mixed a b h = ground (
    arith,
    le-div_iff_mul-le {k = suc (suc b)} {x = a + 1} {y = suc max},
    div-le_self (suc max) (suc (suc b)),
  )

  -- For a positive integer and -1: the check divides the least integer by -1, which overflows if
  -- OBNC_INTEGER is no shorter than `int`; if it is, the check warns.
  check_int_prod_minus_one :
      (a : ℕ)
      → 0 < a
      → a ≤ max
      → check_int_prod max (pos a) (negsuc 0)
        ≡ (if leb 2147483647 max then abort else ok (warns below))
  unfolding check_int_prod
  check_int_prod_minus_one a h le = ground (arith, div-one (suc max))

  -- For a positive integer `a` in the range and a negative one, where `int` has 32 bits: with -1, the
  -- check divides the least integer by -1, which overflows if OBNC_INTEGER has 32 bits or more, and
  -- warns below if it is shorter; with -(b + 2), it warns below exactly if (a + 1) * (b + 2) is at most
  -- `max` + 1, so only where the product is in the range.
  pub mixed_products :
      (a b : ℕ)
      → 0 < a
      → a ≤ max
      → (check_int_prod max (pos a) (negsuc 0)
          ≡ (if leb 2147483647 max then abort else ok (warns below)))
        × (check_int_prod max (pos a) (negsuc (suc b))
            ≡ ok (if leb ((a + 1) * (b + 2)) (max + 1) then warns below else silent))
  mixed_products a b h le = (check_int_prod_minus_one a h le, check_int_prod_mixed a b h)
