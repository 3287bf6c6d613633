-- ===== src/Text/Split.antt =====
-- `Split` of src/ModulePaths.c, which cuts the import path at its separators.
use obnc.Prelude.{
  ℕ, zero, suc, ◌+◌, ◌≡◌, refl, ap, List, [], ◌∷◌, ◌++◌, arith, Bytes, length, ◌==◌, if◌then◌else◌,
  Bool-cases, inl, inr, All,
}

abbrev pub path_separator : ℕ
path_separator = b':'

unfoldable pub char_count : ℕ → Bytes → ℕ
char_count ch [] = 0
char_count ch (c ∷ s) = (if c == ch then 1 else 0) + char_count ch s

-- The `while` loop: what it copies, and what is left behind the separator. At the end of the text
-- `pos` would move past the terminating null; nothing is left then.
unfoldable pub part : Bytes → Bytes
part [] = []
part (c ∷ s) = if c == path_separator then [] else c ∷ part s

unfoldable pub behind : Bytes → Bytes
behind [] = []
behind (c ∷ s) = if c == path_separator then s else behind s

-- The `for` loop, with the rounds left.
unfoldable pub split_loop : ℕ → Bytes → List Bytes
split_loop zero s = []
split_loop (suc n) s = part s ∷ split_loop n (behind s)

unfoldable pub split : Bytes → ℕ → List Bytes
split s sep = split_loop (char_count sep s + 1) s

-- The parts with the separator between them.
abbrev pub join : List Bytes → Bytes
join [] = []
join (p ∷ []) = p
join (p ∷ q ∷ ps) = p ++ path_separator ∷ join (q ∷ ps)

join-cons : (c : ℕ) (p : Bytes) (ps : List Bytes) → join ((c ∷ p) ∷ ps) ≡ c ∷ join (p ∷ ps)
join-cons c p [] = refl
join-cons c p (q ∷ ps) = refl

abbrev rounds : Bytes → ℕ
rounds s = char_count path_separator s

split_loop-join : (s : Bytes) → join (split_loop (suc (rounds s)) s) ≡ s
unfolding split_loop part behind char_count
split_loop-join [] = refl
split_loop-join (c ∷ s) = elim (Bool-cases (c == path_separator)) [
  | inl e ↦
      let one : 1 + char_count path_separator s ≡ suc (rounds s) = omega arith in
      let is : path_separator ≡ c = ground arith in rw (e, one) (ground (arith, split_loop-join s))
  | inr e ↦
      let same : 0 + char_count path_separator s ≡ rounds s = omega arith in
      rw (e, same, join-cons) (ap (λ t. c ∷ t) (split_loop-join s))
]

split_loop-length : (n : ℕ) (s : Bytes) → length (split_loop n s) ≡ n
unfolding split_loop
split_loop-length zero s = refl
split_loop-length (suc n) s = ap suc (split_loop-length n (behind s))

part-lacks : (s : Bytes) → char_count path_separator (part s) ≡ 0
unfolding part char_count
part-lacks [] = refl
part-lacks (c ∷ s) = ground (arith, part-lacks s)

split_loop-lacks : (n : ℕ) (s : Bytes) → All (λ p. char_count path_separator p ≡ 0) (split_loop n s)
unfolding split_loop
split_loop-lacks zero s = tt
split_loop-lacks (suc n) s = (part-lacks s, split_loop-lacks n (behind s))

-- For every text, cut at the path separator: the parts joined by the separator are the text, there
-- is one part more than there are separators, and no part holds a separator.
pub split-join :
    (s : Bytes)
    → (join (split s path_separator) ≡ s)
      × (length (split s path_separator) ≡ char_count path_separator s + 1)
      × All (λ p. char_count path_separator p ≡ 0) (split s path_separator)
unfolding split
split-join s =
    let next : char_count path_separator s + 1 ≡ suc (rounds s) = omega arith in
    (rw next (split_loop-join s), split_loop-length _ s, split_loop-lacks _ s)
