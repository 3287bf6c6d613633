-- ===== src/Text/Replace.antt =====
-- `Util_Replace` stays within its buffer, and replaces each byte where it looks for one byte.
use obnc.Prelude.{
  ℕ, ◌+◌, ◌*◌, ◌≤◌, ◌≡◌, refl, true, false, [], ◌∷◌, ◌++◌, arith, Bytes, length, length-append,
  ◌==◌, if◌then◌else◌, Bool-cases, inl, inr,
}
use obnc.Text.{starts_with, occurrences, replace_loop, replace, replace_buffer}

replace_loop-length :
    (old new s : Bytes)
    → length (replace_loop old new s) ≤ length s + occurrences old s * length new
unfolding replace_loop occurrences
replace_loop-length old new [] = grind arith
replace_loop-length old new (c ∷ s) = elim (Bool-cases (starts_with old (c ∷ s))) [
  | inl e ↦
      rw e
        (grind (arith, replace_loop-length old new s, length-append new (replace_loop old new s)))
  | inr e ↦ rw e (grind (arith, replace_loop-length old new s))
]

-- For all texts, with a pattern that is not empty: the result of `Util_Replace` and its terminating
-- null fit in the buffer that the function allocates.
replace-fits :
    (c : ℕ) (old new s : Bytes)
    → length (replace (c ∷ old) new s) + 1 ≤ replace_buffer (c ∷ old) new s
unfolding replace replace_buffer
replace-fits c old new s = ground (arith, replace_loop-length (c ∷ old) new s)

-- One byte by a text, everywhere.
abbrev pub substitute : ℕ → Bytes → Bytes → Bytes
substitute c new [] = []
substitute c new (x ∷ s) = (if c == x then new else x ∷ []) ++ substitute c new s

starts_one : (c x : ℕ) (s : Bytes) → starts_with (c ∷ []) (x ∷ s) ≡ (c == x)
unfolding starts_with
starts_one c x s = ground arith

replace_loop-substitute : (c : ℕ) (new s : Bytes) → replace_loop (c ∷ []) new s ≡ substitute c new s
unfolding replace_loop
replace_loop-substitute c new [] = refl
replace_loop-substitute c new (x ∷ s) = rw (starts_one c x s, replace_loop-substitute c new s)

occurrences-substitute :
    (c : ℕ) (new s : Bytes) → occurrences (c ∷ []) s ≡ 0 → substitute c new s ≡ s
unfolding occurrences
occurrences-substitute c new [] h = refl
occurrences-substitute c new (x ∷ s) h =
    ground (arith, starts_one c x s, occurrences-substitute c new s)

-- For a pattern of one byte, which is what the compiler uses: `Util_Replace` replaces that byte
-- everywhere and keeps the others.
pub replace-substitute : (c : ℕ) (new s : Bytes) → replace (c ∷ []) new s ≡ substitute c new s
unfolding replace
replace-substitute c new s = elim (Bool-cases (occurrences (c ∷ []) s == 0)) [
  | inl e ↦ rw (e, occurrences-substitute c new s (ground arith))
  | inr e ↦ rw (e, replace_loop-substitute c new s)
]

replace_loop_hit :
    (old new : Bytes) (c : ℕ) (s : Bytes)
    → starts_with old (c ∷ s) ≡ true
    → replace_loop old new (c ∷ s) ≡ new ++ replace_loop old new s
unfolding replace_loop
replace_loop_hit old new c s h = rw h

occurrences_hit :
    (old : Bytes) (c : ℕ) (s : Bytes)
    → starts_with old (c ∷ s) ≡ true
    → occurrences old (c ∷ s) ≡ 1 + occurrences old s
unfolding occurrences
occurrences_hit old c s h = rw h

-- For every pattern that matches at the front of a text: the pattern's replacement is written, and
-- the search goes on one byte later, so inside the match if the pattern has two bytes or more.
pub replace_hit :
    (old new : Bytes) (c : ℕ) (s : Bytes)
    → starts_with old (c ∷ s) ≡ true
    → replace old new (c ∷ s) ≡ new ++ replace_loop old new s
unfolding replace
replace_hit old new c s h =
    let found : (occurrences old (c ∷ s) == 0) ≡ false =
      ground (arith, occurrences_hit old c s h) in
    rw found (replace_loop_hit old new c s h)
