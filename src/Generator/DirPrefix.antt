-- ===== src/Generator/DirPrefix.antt =====
-- src/Generate.c: DirPrefix, for the name of the current directory. `is_alpha` and `is_alnum` are
-- `isalpha` and `isalnum`, which are undefined for a `char` that is negative, a byte from 128 on.
use obnc.Prelude.{
  ℕ, ◌+◌, ◌≤◌, ◌<◌, ◌≡◌, inl, inr, refl, Bool, true, false, ◌&&◌, ◌||◌, [], ◌∷◌, ◌++◌, Bytes, All,
  length, length-append, leb, ltb, ◌==◌, if◌then◌else◌, Result, ok, abort, ◌>>=◌, arith, Bool-cases,
}

module _ (is_alpha is_alnum : ℕ → Bool) where
  abbrev taken : ℕ → ℕ → Bool
  taken j c = ((j == 0) && is_alpha c) || (ltb 0 j && is_alnum c)

  -- The loop, with the number of bytes in the result so far; the result is what it appends.
  unfoldable pub dir_loop : ℕ → Bytes → Result Bytes
  dir_loop j [] = ok []
  dir_loop j (c ∷ dir) =
      let append = (do r ← dir_loop (j + 1) dir; ok (c ∷ r)) in
      let skip = dir_loop j dir in
      if ltb j 14 then (if leb 128 c then abort else if taken j c then append else skip) else ok []

  unfoldable pub dir_prefix : Bytes → Result Bytes
  unfolding dir_loop
  dir_prefix dir = do r ← dir_loop 0 dir; ok (r ++ b'_' ∷ [])

  -- The result of the loop fits and has bytes of an identifier only.
  abbrev IsPart : ℕ → Bytes → Type 0
  IsPart j r = (length r + j ≤ 14) × All (λ c. is_alnum c ≡ true) r

  abbrev pub IsPrefix : Bytes → Type 0
  IsPrefix [] = Unit
  IsPrefix (c ∷ r) = (is_alpha c ≡ true) × All (λ c. is_alnum c ≡ true) r

  module _ (letters : (c : ℕ) → is_alpha c ≡ true → is_alnum c ≡ true) where
    taken-alnum : (j c : ℕ) → taken j c ≡ true → is_alnum c ≡ true
    taken-alnum j c fits = elim (Bool-cases (is_alnum c)) [
      | inl alnum ↦ alnum
      | inr sign ↦ elim (Bool-cases (is_alpha c)) [
        | inl letter ↦ letters c letter
        | inr other ↦ absurd (ground (arith, fits, sign, other))
      ]
    ]

    taken-alpha : (j c : ℕ) → j ≡ 0 → taken j c ≡ true → is_alpha c ≡ true
    taken-alpha j c first fits = ground (arith, first, fits)

    dir_loop-IsPart :
        (j : ℕ) (dir : Bytes)
        → j ≤ 14
        → All (λ c. c < 128) dir
        → (r : Bytes) × (dir_loop j dir ≡ ok r) × IsPart j r × ((j ≡ 0) → IsPrefix r)
    unfolding dir_loop
    dir_loop-IsPart j [] le ascii = ([], refl, (omega arith, tt), λ _. tt)
    dir_loop-IsPart j (c ∷ dir) le ascii = elim (Bool-cases (ltb j 14)) [
      | inr full ↦ ([], rw full refl, (omega arith, tt), λ _. tt)
      | inl room ↦
          let signed : leb 128 c ≡ false = ground (arith, ascii.0) in
          elim (Bool-cases (taken j c)) [
            | inr other ↦
                let (r, run, part, start) = dir_loop-IsPart j dir le ascii.1 in
                (r, rw (room, signed, other) run, part, start)
            | inl fits ↦
                let (r, run, part, start) =
                  dir_loop-IsPart (j + 1) dir (ground (arith, room)) ascii.1 in
                (
                  c ∷ r,
                  rw (room, signed, fits, run) refl,
                  (omega (arith, part), (taken-alnum j c fits, part.1)),
                  λ first. (taken-alpha j c first fits, part.1),
                )
          ]
    ]

    -- For an array of 16 bytes and a name in ASCII, if every letter is a letter or a digit: DirPrefix
    -- returns, and its result fits with its null. It is an underscore behind a part that starts with a
    -- letter and has letters and digits only, or that is empty.
    pub dir_prefix-IsPrefix :
        (dir : Bytes)
        → All (λ c. c < 128) dir
        → (r : Bytes) × (dir_prefix dir ≡ ok (r ++ b'_' ∷ []))
          × (length (r ++ b'_' ∷ []) + 1 ≤ 16)
          × IsPrefix r
    unfolding dir_prefix
    dir_prefix-IsPrefix dir ascii =
        let (r, run, part, start) = dir_loop-IsPart 0 dir (omega arith) ascii in
        (r, rw run refl, omega (arith, part, length-append r (b'_' ∷ [])), start refl)
