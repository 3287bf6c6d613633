-- ===== src/Generator/CaseLabels.antt =====
-- src/Generate.c: the labels of a CASE statement over numbers or characters, the label loop of
-- GenerateIntegralCaseStatement. `max` is OBNC_INT_MAX. The fuel of a range bounds its labels.
use obnc.Prelude.{
  ℕ, zero, suc, ◌+◌, ◌-◌, ◌<◌, ◌≡◌, refl, Bool, true, false, List, [], ◌∷◌, ◌++◌, Bytes, leb, ◌==◌,
  if◌then◌else◌, Result, ok, abort, diverge, ◌>>=◌, arith,
}
use obnc.Prelude.Int.{ℤ, pos, negsuc, ltb_ℤ, pos_part, neg_part, ◌+ℤ◌, +ℤ_parts}
use obnc.Trees.Symbols.{tok_integer}
use obnc.Trees.Nodes.{Ref, null, Store, symbol, left, right}
use obnc.Trees.Constants.{integer, char}
use obnc.Generator.Literals.{generate_char}
use obnc.Range.{fit, InRange}

-- `for (label = low; label <= high; label++)`
unfoldable pub range_labels : ℕ → ℕ → ℤ → ℤ → Result (List ℤ)
range_labels max zero label high = diverge
range_labels max (suc fuel) label high =
    let more = (do
      next ← fit max (label +ℤ pos 1)
      labels ← range_labels max fuel next high
      ok (label ∷ labels)) in
    if ltb_ℤ high label then ok [] else more

-- A printed label: an expression, a number, or the text of a character constant.
pub data Label : Type 0 where
  node_label : Ref → Label
  integer_label : ℤ → Label
  char_label : Bytes → Label

-- A `char` is signed.
unfoldable pub signed_char : ℕ → ℤ
signed_char c = if leb 128 c then negsuc (255 - c) else pos c

-- `(char) label`, as a byte.
unfoldable pub byte_of : ℤ → ℕ
byte_of (pos n) = n
byte_of (negsuc n) = 255 - n

abbrev integer_labels : List ℤ → List Label
integer_labels [] = []
integer_labels (n ∷ ns) = integer_label n ∷ integer_labels ns

module _ (max : ℕ) (is_print : ℕ → Bool) (s : Store) where
  unfoldable pub char_labels : List ℤ → Result (List Label)
  unfolding byte_of
  char_labels [] = ok []
  char_labels (n ∷ ns) = do
    text ← generate_char is_print (byte_of n)
    labels ← char_labels ns
    ok (char_label text ∷ labels)

  -- The labels of one label or range.
  unfoldable pub label_range : ℕ → Ref → Result (List Label)
  unfolding range_labels signed_char char_labels
  label_range fuel range = do
    r ← right range s
    if r == null then ok (node_label range ∷ []) else do
      l ← left range s
      x ← symbol l s
      if x == tok_integer
          then (do
            low ← integer l s
            high ← integer r s
            ns ← range_labels max fuel low high
            ok (integer_labels ns))
          else (do
            low ← char l s
            high ← char r s
            ns ← range_labels max fuel (signed_char low) (signed_char high)
            char_labels ns)

  -- The loop over the list of labels; its own fuel comes first.
  unfoldable pub label_list : ℕ → ℕ → Ref → Result (List Label)
  unfolding label_range
  label_list zero fuel list = diverge
  label_list (suc rounds) fuel list = do
    range ← left list s
    labels ← label_range fuel range
    next ← right list s
    if next == null then ok labels else (do rest ← label_list rounds fuel next; ok (labels ++ rest))

-- The `n` numbers from `low` on.
abbrev pub numbers : ℤ → ℕ → List ℤ
numbers low zero = []
numbers low (suc n) = low ∷ numbers (low +ℤ pos 1) n

-- How many numbers there are from `low` to `high`.
abbrev pub label_count : ℤ → ℤ → ℕ
label_count low high = pos_part high + neg_part low + 1 - (pos_part low + neg_part high)

fit-InRange : (max : ℕ) (a : ℤ) → InRange max a → fit max a ≡ ok a
fit-InRange max (pos a) range = ground (arith, range)
fit-InRange max (negsuc a) range = ground (arith, range)

count_labels :
    (max fuel n : ℕ) (low high : ℤ)
    → InRange max low
    → InRange max high
    → ltb_ℤ high (pos max) ≡ true
    → n ≡ label_count low high
    → n < fuel
    → range_labels max fuel low high ≡ ok (numbers low n)
unfolding range_labels
count_labels max zero n low high hl hh small count lt = absurd (omega arith)
count_labels max (suc fuel) zero low high hl hh small count lt =
    let past : ltb_ℤ high low ≡ true = ground (arith, count) in rw past refl
count_labels max (suc fuel) (suc n) low high hl hh small count lt =
    let more : ltb_ℤ high low ≡ false = ground (arith, count) in
    let parts = +ℤ_parts low (pos 1) in
    let below : InRange max (low +ℤ pos 1) = ground (arith, small, more, parts, hl) in
    let next : fit max (low +ℤ pos 1) ≡ ok (low +ℤ pos 1) = fit-InRange max (low +ℤ pos 1) below in
    let left : n ≡ label_count (low +ℤ pos 1) high = omega (arith, count, parts) in
    rw (more, next, count_labels max fuel n (low +ℤ pos 1) high below hh small left (omega arith))
      refl

-- For numbers in the range of INTEGER, of which the last is not the largest: with more fuel than
-- labels, the loop ends and prints the numbers from the first to the last, each once and in order.
pub range_labels-numbers :
    (max fuel : ℕ) (low high : ℤ)
    → InRange max low
    → InRange max high
    → ltb_ℤ high (pos max) ≡ true
    → label_count low high < fuel
    → range_labels max fuel low high ≡ ok (numbers low (label_count low high))
range_labels-numbers max fuel low high hl hh small lt =
    count_labels max fuel (label_count low high) low high hl hh small refl lt

-- Where the last label is the largest INTEGER, the loop goes beyond it, which is undefined.
range_labels_largest : (max : ℕ) → range_labels max 2 (pos max) (pos max) ≡ abort
unfolding range_labels ◌+ℤ◌
range_labels_largest max =
    let more : ltb_ℤ (pos max) (pos max) ≡ false = ground arith in
    let next : fit max (pos max +ℤ pos 1) ≡ abort = ground arith in rw (more, next) refl
