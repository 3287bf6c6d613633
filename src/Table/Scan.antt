-- ===== src/Table/Scan.antt =====
-- What src/Table.c reads of a symbol file by `fscanf`, `fgetc` and `fgets`: white space, numbers,
-- names and strings. A file is the list of the bytes that are left.
-- Where a conversion fails, the caller prints an error and exits, which is `halts` here; a number that
-- does not fit its type makes `fscanf` undefined, which is `abort`.
use obnc.Prelude.{
  ℕ, ◌+◌, ◌-◌, ◌*◌, ◌%◌, ◌^◌, Bool, true, false, ◌&&◌, ◌||◌, Option, none, some, [], ◌∷◌, ◌++◌,
  Bytes, leb, bytes_eq, ◌==◌, if◌then◌else◌, Result, ok, abort, halts, ◌>>=◌,
}
use obnc.Prelude.Int.{ℤ, pos, sub_ℕ}
use obnc.Range.{fit}

-- The white space that `fscanf` passes over, in the C locale.
unfoldable pub is_space : ℕ → Bool
is_space c = (c == 32) || (leb 9 c && leb c 13)

-- `fscanf(file, " ")`
unfoldable pub skip_space : Bytes → Bytes
skip_space [] = []
skip_space (c ∷ s) = let rest = skip_space s in if is_space c then rest else c ∷ s

-- `fgetc`, where any byte but `c` leads to an error.
unfoldable pub expect : ℕ → Bytes → Result Bytes
expect c [] = halts
expect c (d ∷ s) = if d == c then ok s else halts

unfoldable pub looking_at : ℕ → Bytes → Bool
looking_at c [] = false
looking_at c (d ∷ s) = c == d

unfoldable pub at_end_of_list : Bytes → Bool
at_end_of_list s = looking_at b')' s

unfoldable pub is_digit : ℕ → Bool
is_digit c = leb b'0' c && leb c b'9'

-- The digits at the front, behind the number `n`.
unfoldable pub digits : ℕ → Bytes → ℕ × Bytes
digits n [] = (n, [])
digits n (c ∷ s) =
    let more = digits (n * 10 + (c - b'0')) s in if is_digit c then more else (n, c ∷ s)

unfoldable pub starts_digit : Bytes → Bool
starts_digit [] = false
starts_digit (c ∷ s) = is_digit c

-- An optional sign.
unfoldable pub sign : Bytes → Bool × Bytes
sign [] = (false, [])
sign (c ∷ s) = if c == b'-' then (true, s) else if c == b'+' then (false, s) else (false, c ∷ s)

abbrev pub signed : Bool → ℕ → ℤ
signed neg n = if neg then sub_ℕ 0 n else pos n

-- `%d` for an integer type whose largest number is `max`.
unfoldable pub scan_int : ℕ → Bytes → Result (ℤ × Bytes)
scan_int max s =
    let (neg, t) = sign (skip_space s) in
    if starts_digit t
    then (do v ← fit max (signed neg (digits 0 t).0); ok (v, (digits 0 t).1))
    else halts

-- `%u` for the unsigned type of the same width; a minus sign negates in that type.
unfoldable pub scan_unsigned : ℕ → Bytes → Result (ℕ × Bytes)
scan_unsigned max s =
    let (neg, t) = sign (skip_space s) in
    let (n, rest) = digits 0 t in
    if starts_digit t
    then (if leb n (2 * max + 1)
        then ok (if neg then (2 * max + 2 - n) % (2 * max + 2) else n, rest)
        else abort)
    else halts

unfoldable pub is_hex : ℕ → Bool
is_hex c = is_digit c || (leb b'A' c && leb c b'F') || (leb b'a' c && leb c b'f')

unfoldable pub hex_value_of : ℕ → ℕ
hex_value_of c =
    if is_digit c then c - b'0' else if leb c b'F' then c - b'A' + 10 else c - b'a' + 10

unfoldable pub hex_digits : ℕ → Bytes → ℕ × Bytes
hex_digits n [] = (n, [])
hex_digits n (c ∷ s) =
    let more = hex_digits (n * 16 + hex_value_of c) s in if is_hex c then more else (n, c ∷ s)

unfoldable pub starts_hex : Bytes → Bool
starts_hex [] = false
starts_hex (c ∷ s) = is_hex c

-- The prefix that `%x` allows.
unfoldable pub hex_prefix : Bytes → Bytes
hex_prefix (c ∷ d ∷ s) = if (c == b'0') && ((d == b'x') || (d == b'X')) then s else c ∷ d ∷ s
hex_prefix s = s

-- `%xX` for a 32-bit `unsigned int`; the `X` is skipped if it is there.
unfoldable pub scan_hex : Bytes → Result (ℕ × Bytes)
scan_hex s =
    let (neg, t) = sign (skip_space s) in
    let u = hex_prefix t in
    let (n, rest) = hex_digits 0 u in
    if starts_hex u
    then (if leb n (2 ^ 32 - 1)
        then ok (
          if neg then (2 ^ 32 - n) % 2 ^ 32 else n,
          elim rest [ [] ↦ [] | c ∷ r ↦ if c == b'X' then r else c ∷ r ],
        )
        else abort)
    else halts

unfoldable pub is_leading_ident_char : ℕ → Bool
is_leading_ident_char c = (leb b'A' c && leb c b'Z') || (leb b'a' c && leb c b'z')

unfoldable pub is_ident_char : ℕ → Bool
is_ident_char c = is_leading_ident_char c || is_digit c || (c == b'_')

-- The loop over the characters of an identifier: what it passes, and what is left.
unfoldable pub ident_chars : Bytes → Bytes × Bytes
ident_chars [] = ([], [])
ident_chars (c ∷ s) =
    let (word, rest) = ident_chars s in if is_ident_char c then (c ∷ word, rest) else ([], c ∷ s)

-- One identifier, or nothing.
unfoldable pub plain_name : Bytes → Bytes × Bytes
plain_name [] = ([], [])
plain_name (c ∷ s) =
    let (word, rest) = ident_chars s in
    if is_leading_ident_char c then (c ∷ word, rest) else ([], c ∷ s)

-- A dot and another identifier, if a dot follows.
unfoldable pub qualified_name : Bytes → Bytes → Bytes × Bytes
qualified_name word [] = (word, [])
qualified_name word (d ∷ r) =
    let (field, rest) = plain_name r in
    if d == b'.' then (word ++ d ∷ field, rest) else (word, d ∷ r)

-- The name that `IdentLength` measures and `fgets` reads.
unfoldable pub read_name : Bytes → Bytes × Bytes
read_name s =
    let (word, rest) = plain_name s in
    if bytes_eq word [] then ([], s) else qualified_name word rest

-- `StringLength` and the reading of a string, behind its opening quote: `none` if a line or the file
-- ends before the closing one.
unfoldable pub quoted : Bytes → Option (Bytes × Bytes)
quoted [] = none
quoted (c ∷ s) =
    let rest = quoted s in
    if c == 34
    then some ([], s)
    else if c == 10
    then none
    else elim rest [ none ↦ none | some (text, r) ↦ some (c ∷ text, r) ]
