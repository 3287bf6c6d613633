-- ===== src/Library/Numbers/Groups.antt =====
-- The groups of a number, and how each is read back.
use native.Mathlib.Nat.{div-add-mod}
use obnc.Prelude.{
  ℕ, suc, ◌+◌, ◌-◌, ◌*◌, ◌%◌, ◌^◌, ◌≤◌, ◌<◌, ◌≡◌, ap, true, false, ◌||◌, [], ◌∷◌, Bytes, leb, ok,
  arith,
}
use obnc.Prelude.Int.{ℤ, pos, negsuc, ltb_ℤ, pos_part, neg_part, sub_ℕ, ◌+ℤ◌, ◌*ℤ◌}
use obnc.Range.{fit}
use obnc.Runtime.{obnc_mod, obnc_div}
use obnc.Runtime.Division.{floor_div, floor_mod, obnc_mod-floor, obnc_div-floor}
use obnc.Library.Numbers.{groups, shifted, num_loop, int_32}

-- The number for which one group is enough.
abbrev pub IsSmall : ℤ → Type 0
IsSmall x = (pos_part x ≤ 63) × (neg_part x ≤ 64)

pub floor_mod_bound : (x : ℤ) → floor_mod x 128 < 128
floor_mod_bound (pos a) = omega arith
floor_mod_bound (negsuc a) = omega arith

module _ (max : ℕ) (wide : int_32 ≤ max) where
  abbrev pub IsInt32 : ℤ → Type 0
  IsInt32 x = (pos_part x ≤ int_32) × (neg_part x ≤ int_32 + 1)

  mod_of : (x : ℤ) → IsInt32 x → obnc_mod max x (pos 128) ≡ ok (pos (floor_mod x 128))
  mod_of x h = obnc_mod-floor max x 128 (omega arith) (omega arith) (omega arith)

  div_of : (x : ℤ) → IsInt32 x → obnc_div max x (pos 128) ≡ ok (floor_div x 128)
  unfolding ◌*ℤ◌
  div_of (pos a) h =
      rw (obnc_div-floor max (pos a) 128 (omega arith) (omega arith) (omega arith)) (ground arith)
  div_of (negsuc a) h =
      rw (obnc_div-floor max (negsuc a) 128 (omega arith) (omega arith) (omega arith))
        (ground arith)

  pub groups_last :
      (room : ℕ) (x : ℤ) → IsSmall x → groups max (suc room) x ≡ ok (floor_mod x 128 ∷ [])
  unfolding groups
  groups_last room x h =
      let small : (ltb_ℤ x (negsuc 63) || ltb_ℤ (pos 63) x) ≡ false = ground arith in
      rw (small, mod_of x (omega arith))

  pub groups_more :
      (room : ℕ) (x : ℤ) (bs : Bytes)
      → (ltb_ℤ x (negsuc 63) || ltb_ℤ (pos 63) x) ≡ true
      → IsInt32 x
      → groups max room (floor_div x 128) ≡ ok bs
      → groups max (suc room) x ≡ ok ((floor_mod x 128 + 128) ∷ bs)
  unfolding groups ◌+ℤ◌
  groups_more room x bs large h run =
      let lt = floor_mod_bound x in
      let fits : fit max (pos (floor_mod x 128) +ℤ pos 128) ≡ ok (pos (floor_mod x 128 + 128)) =
        ground arith in
      rw (large, mod_of x h, fits, div_of x h, run)

  pub read_more :
      (m n s p : ℕ) (rest : Bytes) (taken : ℕ)
      → 2 ^ s ≡ p
      → s < 32
      → m * p ≤ int_32
      → n + m * p ≤ max
      → num_loop max ((m + 128) ∷ rest) (pos n) s taken
        ≡ num_loop max rest (pos (n + m * p)) (s + 7) (taken + 1)
  unfolding num_loop ◌+ℤ◌ shifted
  read_more m n s p rest taken e lt small fits =
      let group : leb 128 (m + 128) ≡ true = ground arith in
      let shift : shifted (m + 128 - 128) s ≡ ok (m * p) = rw e (ground arith) in
      let sum : fit max (pos n +ℤ pos (m * p)) ≡ ok (pos (n + m * p)) = ground arith in
      rw (group, shift, sum)

-- The number of `n` and of `x` groups of the size `p`.
abbrev pub joined : ℕ → ℤ → ℕ → ℤ
joined n x p = sub_ℕ (n + pos_part x * p) (neg_part x * p)

pub joined-more :
    (n p : ℕ) (x : ℤ) → joined (n + floor_mod x 128 * p) (floor_div x 128) (128 * p) ≡ joined n x p
joined-more n p (pos a) = let whole = ap (λ t. t * p) (div-add-mod a 128) in ground (arith, whole)
joined-more n p (negsuc a) =
    let whole = ap (λ t. t * p) (div-add-mod a 128) in
    let lt : a % 128 < 128 = omega arith in
    let rest : (128 - 1 - a % 128) + a % 128 ≡ 127 = omega arith in
    ground (arith, whole, ap (λ t. t * p) rest)
