-- ===== src/Runtime/Division.antt =====
-- `OBNC_Mod` and `OBNC_Div` are the division of Oberon, which rounds down.
use native.Mathlib.Nat.{
  mod-lt, suc-mod, div-add-mod, mod_self, div-le_self, mod-eq_of_lt, mul-div_right, div-mul-le_self,
}
use obnc.Prelude.{
  ℕ, suc, ◌+◌, ◌-◌, ◌*◌, ◌/◌, ◌%◌, ◌≤◌, ◌<◌, ◌≡◌, arith, ok, abort, Bool-cases, inl, inr, ◌==◌, ◌⊎◌,
  if◌then◌else◌,
}
use obnc.Prelude.Int.{ℤ, pos, negsuc, ◌+ℤ◌, ◌*ℤ◌}
use obnc.Range.{InRange, in_range, promoted}
use obnc.Runtime.{obnc_mod, obnc_div}

-- Quotient and remainder of a division by a positive number, rounded down.
abbrev pub floor_div : ℤ → ℕ → ℤ
floor_div (pos a) b = pos (a / b)
floor_div (negsuc a) b = negsuc (a / b)

abbrev pub floor_mod : ℤ → ℕ → ℕ
floor_mod (pos a) b = a % b
floor_mod (negsuc a) b = b - 1 - a % b

-- They are what they are called: a check of the two definitions.
floor_division :
    (x : ℤ) (b : ℕ)
    → 0 < b
    → (x ≡ floor_div x b *ℤ pos b +ℤ pos (floor_mod x b)) × (floor_mod x b < b)
unfolding ◌+ℤ◌ ◌*ℤ◌
floor_division (pos a) b h = ground (arith, mod-lt a h, div-add-mod a b)
floor_division (negsuc a) b h = ground (arith, mod-lt a h, div-add-mod a b)

suc_mod_cases :
    (a b : ℕ)
    → 0 < b
    → ((suc a % b ≡ 0) × (a % b + 1 ≡ b)) ⊎ ((suc a % b ≡ a % b + 1) × (a % b + 1 < b))
suc_mod_cases a b h = elim (Bool-cases (a % b + 1 == b)) [
  | inl e ↦ inl (ground (arith, suc-mod a b, mod_self b))
  | inr e ↦
      let lt : suc (a % b) < b = ground (arith, mod-lt a h) in
      inr (ground (arith, suc-mod a b, mod-eq_of_lt lt))
]

module _ (max : ℕ) where
  -- For an integer and a positive divisor in the range: `OBNC_Mod` is the remainder of the division
  -- that rounds down, which lies between 0 and the divisor, and no step of it overflows.
  pub obnc_mod-floor :
      (x : ℤ) (b : ℕ)
      → InRange max x
      → 0 < b
      → b ≤ max
      → obnc_mod max x (pos b) ≡ ok (pos (floor_mod x b))
  unfolding obnc_mod
  obnc_mod-floor (pos a) b r h le = ground (arith, div-le_self a b)
  obnc_mod-floor (negsuc a) b r h le = elim (suc_mod_cases a b h) [
    | inl e ↦ ground (arith, e, mod_self b, div-le_self (suc a) b, div-le_self b b)
    | inr e ↦
        let t = b - (suc a % b) in
        let lt : t < b = omega arith in
        ground (arith, e, mod-eq_of_lt lt, div-le_self (suc a) b, div-le_self t b)
  ]

  -- The dividend less its remainder is a multiple of the divisor.
  rest_lem : (a b : ℕ) → 0 < b → suc a + (b - 1 - a % b) ≡ (a / b + 1) * b
  rest_lem a b h = ground (arith, mod-lt a h, div-add-mod a b)

  -- For an integer and a positive divisor in the range: `OBNC_Div` is the quotient rounded down
  -- whenever that quotient times the divisor is in the range of the type C computes in, which is
  -- `int` with 32 bits where OBNC_INTEGER is shorter, and undefined otherwise: then, near the least
  -- integer, the dividend less the remainder overflows.
  pub obnc_div-floor :
      (x : ℤ) (b : ℕ)
      → InRange max x
      → 0 < b
      → b ≤ max
      → obnc_div max x (pos b)
        ≡ (if in_range (promoted max) (floor_div x b *ℤ pos b) then ok (floor_div x b) else abort)
  unfolding obnc_div ◌*ℤ◌
  obnc_div-floor (pos a) b r h le = ground (arith, div-le_self a b, div-mul-le_self a b)
  obnc_div-floor (negsuc a) b r h le =
      rw (obnc_mod-floor (negsuc a) b r h le)
        (ground (arith, rest_lem a b h, mul-div_right (a / b + 1) h, div-le_self (suc a) b))
