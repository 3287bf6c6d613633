-- ===== src/Library/Numbers/RoundTrip.antt =====
-- `ReadNum` reads what `WriteNum` wrote, where its arithmetic with `int` allows it.
use native.Mathlib.Nat.{mul-le-mul}
use obnc.Prelude.{
  ℕ, zero, suc, ◌+◌, ◌-◌, ◌*◌, ◌%◌, ◌^◌, ◌≤◌, ◌<◌, ◌≡◌, ◌∙◌, inl, inr, refl, true, false, ◌||◌, [],
  ◌∷◌, ◌++◌, Bytes, length, leb, ltb, if◌then◌else◌, Result, ok, abort, arith, Bool-cases,
}
use obnc.Prelude.Int.{ℤ, pos, negsuc, ltb_ℤ, pos_part, neg_part, sub_ℕ, ◌+ℤ◌}
use obnc.Range.{fit}
use obnc.Runtime.Division.{floor_div, floor_mod}
use obnc.Library.Numbers.{Scanned, groups, shifted, signed_group, num_loop, number, int_32}
use obnc.Library.Numbers.Groups.{
  IsSmall, IsInt32, groups_last, groups_more, read_more, joined, joined-more, floor_mod_bound,
}

module _ (max : ℕ) (wide : int_32 ≤ max) where
  -- From the groups of `x`, where each counts `p = 2 ^ s`, the loop reads `x` behind `n`, unless `x` is
  -- below -`low`: then a step of it is undefined.
  abbrev Outcome : ℕ → ℕ → ℕ → ℤ → ℕ → Bytes → Result Scanned
  Outcome p low n x taken bs =
      if leb (neg_part x) low then ok (number (joined n x p) (taken + length bs)) else abort

  abbrev Reads : ℕ → ℕ → ℕ → ℕ → ℕ → Type 0
  Reads s p low bound room =
      (x : ℤ) (n : ℕ)
      → pos_part x < bound
      → neg_part x ≤ bound
      → n < p
      → (bs : Bytes) × (groups max room x ≡ ok bs)
        × (length bs ≤ room)
        × ((rest : Bytes) (taken : ℕ)
            → num_loop max (bs ++ rest) (pos n) s taken ≡ Outcome p low n x taken bs)

  -- The last group, where a group counts at most 2 ^ 21.
  last_reads :
      (s p low n : ℕ) (x : ℤ) (rest : Bytes) (taken : ℕ)
      → 2 ^ s ≡ p
      → s < 32
      → p ≤ 2097152
      → 64 ≤ low
      → n < p
      → IsSmall x
      → num_loop max (floor_mod x 128 ∷ rest) (pos n) s taken
        ≡ Outcome p low n x taken (floor_mod x 128 ∷ [])
  unfolding num_loop signed_group shifted ◌+ℤ◌
  last_reads s p low n (pos a) rest taken e lt le wide_low fits small =
      let same : a % 128 ≡ a = omega arith in
      let last : leb 128 a ≡ false = ground arith in
      let sign : ltb a 64 ≡ true = ground arith in
      let product : a * p ≤ 63 * 2097152 = (let few : a ≤ 63 = omega arith in mul-le-mul few le) in
      let shift : shifted a s ≡ ok (a * p) = rw e (ground arith) in
      let sum : fit max (pos n +ℤ pos (a * p)) ≡ ok (pos (n + a * p)) = ground arith in
      rw (same, last, sign, shift, sum) (ground arith)
  last_reads s p low n (negsuc a) rest taken e lt le wide_low fits small =
      let same : 127 - a % 128 ≡ 127 - a = omega arith in
      let last : leb 128 (127 - a) ≡ false = ground arith in
      let sign : ltb (127 - a) 64 ≡ false = ground arith in
      let count : 128 - (127 - a) ≡ suc a = omega arith in
      let product : suc a * p ≤ 64 * 2097152 =
        (let few : suc a ≤ 64 = omega arith in mul-le-mul few le) in
      let shift : shifted (suc a) s ≡ ok (suc a * p) = rw e (ground arith) in
      let sum : fit max (pos n +ℤ sub_ℕ 0 (suc a * p)) ≡ ok (joined n (negsuc a) p) =
        ground arith in
      rw (same, last, sign, count, shift, sum) (ground arith)

  low_div : (x : ℤ) (low : ℕ) → leb (neg_part (floor_div x 128)) low ≡ leb (neg_part x) (128 * low)
  low_div (pos a) low = ground arith
  low_div (negsuc a) low = ground arith

  div_bounds :
      (x : ℤ) (bound : ℕ)
      → pos_part x < 128 * bound
      → neg_part x ≤ 128 * bound
      → (pos_part (floor_div x 128) < bound) × (neg_part (floor_div x 128) ≤ bound)
  div_bounds (pos a) bound hp hn = omega arith
  div_bounds (negsuc a) bound hp hn = omega arith

  step :
      (s p low bound room : ℕ)
      → 2 ^ s ≡ p
      → s < 32
      → p ≤ 2097152
      → 1 ≤ low
      → 128 * bound ≤ int_32 + 1
      → Reads (s + 7) (128 * p) low bound room
      → Reads s p (128 * low) (128 * bound) (suc room)
  step s p low bound room e lt le low1 fits reads x n hp hn hl =
      elim (Bool-cases (ltb_ℤ x (negsuc 63) || ltb_ℤ (pos 63) x)) [
        | inr small ↦
            let is_small : IsSmall x = ground (arith, small) in
            (
              floor_mod x 128 ∷ [],
              groups_last max wide room x is_small,
              omega arith,
              λ rest taken.
                  last_reads s p (128 * low) n x rest taken e lt le (omega arith) hl is_small,
            )
        | inl large ↦
            let m = floor_mod x 128 in
            let m_lt = floor_mod_bound x in
            let product : m * p ≤ 127 * p =
              (let few : m ≤ 127 = omega arith in
                let same : p ≤ p = omega arith in mul-le-mul few same) in
            let (q_pos, q_neg) = div_bounds x bound hp hn in
            let (bs, run, short, read) =
              reads (floor_div x 128) (n + m * p) q_pos q_neg (omega arith) in
            (
              (m + 128) ∷ bs,
              groups_more max wide room x bs large (omega arith, omega arith) run,
              omega arith,
              λ rest taken.
                  read_more max wide m n s p (bs ++ rest) taken e lt (omega arith) (omega arith)
                  ∙ (read rest (taken + 1) ∙ rw (low_div x low, joined-more n p x) (ground arith)),
            )
      ]

  -- The fifth group counts 2 ^ 28, and a number of 32 bits has no more.
  fifth-Reads : (room : ℕ) → Reads 28 268435456 7 8 (suc room)
  unfolding num_loop signed_group shifted ◌+ℤ◌
  fifth-Reads room (pos a) n hp hn hl =
      let same : a % 128 ≡ a = omega arith in
      let is_last : leb 128 a ≡ false = ground arith in
      let sign : ltb a 64 ≡ true = ground arith in
      let shift : shifted a 28 ≡ ok (a * 268435456) = ground arith in
      let sum : fit max (pos n +ℤ pos (a * 268435456)) ≡ ok (pos (n + a * 268435456)) =
        ground arith in
      (
        a % 128 ∷ [],
        groups_last max wide room (pos a) (omega arith),
        omega arith,
        λ rest taken. rw (same, is_last, sign, shift, sum) (ground arith),
      )
  fifth-Reads room (negsuc a) n hp hn hl =
      let same : 127 - a % 128 ≡ 127 - a = omega arith in
      let is_last : leb 128 (127 - a) ≡ false = ground arith in
      let sign : ltb (127 - a) 64 ≡ false = ground arith in
      let count : 128 - (127 - a) ≡ suc a = omega arith in
      (
        (127 - a % 128) ∷ [],
        groups_last max wide room (negsuc a) (omega arith),
        omega arith,
        λ rest taken. elim (Bool-cases (leb (suc a) 7)) [
          | inl fits ↦
              let shift : shifted (suc a) 28 ≡ ok (suc a * 268435456) = ground arith in
              let sum : fit max (pos n +ℤ sub_ℕ 0 (suc a * 268435456))
                  ≡ ok (joined n (negsuc a) 268435456) =
                ground arith in
              rw (same, is_last, sign, count, shift, sum, fits) refl
          | inr low ↦
              let shift : shifted (suc a) 28 ≡ abort = ground arith in
              rw (same, is_last, sign, count, shift, low) refl
        ],
      )

  joined_all : (x : ℤ) → joined 0 x 1 ≡ x
  joined_all (pos a) = ground arith
  joined_all (negsuc a) = ground arith

  all-Reads : (room : ℕ) → Reads 0 1 1879048192 2147483648 (suc (suc (suc (suc (suc room)))))
  all-Reads room =
      step 0 1 14680064 16777216 (suc (suc (suc (suc room)))) refl (omega arith) (omega arith)
        (omega arith) (omega arith)
        (step 7 128 114688 131072 (suc (suc (suc room))) refl (omega arith) (omega arith)
          (omega arith) (omega arith)
          (step 14 16384 896 1024 (suc (suc room)) refl (omega arith) (omega arith) (omega arith)
            (omega arith)
            (step 21 2097152 7 8 (suc room) refl (omega arith) (omega arith) (omega arith)
              (omega arith) (fifth-Reads room))))

  outcome_all :
      (x : ℤ) (bs : Bytes)
      → Outcome 1 1879048192 0 x 0 bs
        ≡ (if leb (neg_part x) 1879048192 then ok (number x (length bs)) else abort)
  outcome_all x bs = rw (joined_all x) (ground arith)

  -- A number of 32 bits fits the buffer of `WriteNum`, and the loop of `ReadNum` reads it from these
  -- bytes, whatever follows, unless it is below -7 * 2 ^ 28.
  pub num_loop-groups :
      (bits : ℕ) (x : ℤ)
      → 5 ≤ bits
      → IsInt32 max wide x
      → (bs : Bytes) × (groups max bits x ≡ ok bs)
        × (length bs ≤ bits)
        × ((rest : Bytes)
            → num_loop max (bs ++ rest) (pos 0) 0 0
              ≡ (if leb (neg_part x) 1879048192 then ok (number x (length bs)) else abort))
  num_loop-groups (suc (suc (suc (suc (suc room))))) x buffer h =
      let (bs, run, short, read) = all-Reads room x 0 (omega arith) (omega arith) (omega arith) in
      (bs, run, short, λ rest. read rest 0 ∙ outcome_all x bs)
  num_loop-groups zero x buffer h = absurd (omega arith)
  num_loop-groups (suc zero) x buffer h = absurd (omega arith)
  num_loop-groups (suc (suc zero)) x buffer h = absurd (omega arith)
  num_loop-groups (suc (suc (suc zero))) x buffer h = absurd (omega arith)
  num_loop-groups (suc (suc (suc (suc zero)))) x buffer h = absurd (omega arith)
