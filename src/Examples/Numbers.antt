-- ===== src/Examples/Numbers.antt =====
-- Range checks, maps and the arithmetic of the runtime library at concrete numbers, for integers of
-- 8 and of 32 bits.
use obnc.Prelude.{ℕ, ◌≡◌, inl, [], ◌∷◌, ◌++◌, arith, Bytes, codes, ok, abort}
use obnc.Prelude.Int.{pos, negsuc, ◌+ℤ◌, ◌-ℤ◌, ◌*ℤ◌}
use obnc.Range.{silent, warns, above, below, check_int_sum, check_int_diff, check_int_prod}
use obnc.Range.Sums.{sum_checks-exact}
use obnc.Range.Products.{check_int_prod-exact, mixed_products}
use obnc.Maps.{MapOf, at}
use obnc.Maps.Newest.{Distinct, visited, visited-newest}
use obnc.Runtime.{obnc_div, write_int}
use obnc.Runtime.Division.{obnc_div-floor}
use obnc.Runtime.Decimal.{spaces, IsDecimal, Fills, write_int-IsDecimal}

abbrev max8 : ℕ
max8 = 127

abbrev max32 : ℕ
max32 = 2147483647

sum_checks-exact_example :
    (check_int_sum max8 (pos 100) (pos 28) ≡ ok (warns above))
    × (check_int_diff max8 (pos 100) (pos 28) ≡ ok silent)
unfolding ◌+ℤ◌ ◌-ℤ◌
sum_checks-exact_example = sum_checks-exact max8 (pos 100) (pos 28) (omega arith) (omega arith)

-- 2 * -3 is in the range, but the check warns.
mixed_products_example :
    (check_int_prod max32 (pos 2) (negsuc 0) ≡ abort)
    × (check_int_prod max32 (pos 2) (negsuc 2) ≡ ok (warns below))
mixed_products_example = mixed_products max32 2 1 (omega arith) (omega arith)

check_int_prod-exact_example : check_int_prod max8 (negsuc 15) (pos 9) ≡ ok (warns below)
unfolding ◌*ℤ◌
check_int_prod-exact_example =
    check_int_prod-exact max8 (negsuc 15) (pos 9) (omega arith) (omega arith) (inl (omega arith))

-- The key "a" is there twice.
abbrev two_values : MapOf ℕ
two_values = (codes "a", 2) ∷ (codes "b", 3) ∷ (codes "a", 1) ∷ []

visited-newest_example :
    Distinct (visited two_values) × ((j : Bytes) → at j (visited two_values) ≡ at j two_values)
visited-newest_example = visited-newest two_values

-- The dividend less its remainder is -(2 ^ 31 + 1).
obnc_div-floor_example : obnc_div max32 (negsuc 2147483647) (pos 3) ≡ abort
unfolding ◌*ℤ◌
obnc_div-floor_example =
    obnc_div-floor max32 (negsuc 2147483647) 3 (omega arith) (omega arith) (omega arith)

write_int-IsDecimal_example :
    (ds : Bytes) × (k : ℕ) × (write_int 20 (negsuc 41) (pos 5)
      ≡ ok (spaces k ++ ((b'-' ∷ []) ++ ds)))
    × IsDecimal 42 ds
    × Fills (pos 5) k ((b'-' ∷ []) ++ ds)
write_int-IsDecimal_example = write_int-IsDecimal 19 (negsuc 41) (pos 5) (omega arith)
