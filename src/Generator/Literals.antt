-- ===== src/Generator/Literals.antt =====
-- src/Generate.c: GenerateString and GenerateChar. The bytes that a function prints are its result;
-- `is_print` is `isprint`, for the bytes below 128.
use obnc.Prelude.{
  ℕ, ◌+◌, ◌/◌, ◌%◌, Bool, ◌||◌, [], ◌∷◌, ◌++◌, Bytes, leb, ltb, ◌==◌, if◌then◌else◌, Result, ok,
  abort,
}

abbrev pub double_quote : ℕ
double_quote = 34

abbrev pub single_quote : ℕ
single_quote = 39

abbrev pub backslash : ℕ
backslash = 92

-- A digit of the conversion %x.
unfoldable pub lower_digit : ℕ → ℕ
lower_digit d = if ltb d 10 then 48 + d else 87 + d

-- `\x%02x`, for a byte.
unfoldable pub hex_escape : ℕ → Bytes
unfolding lower_digit
hex_escape c = backslash ∷ b'x' ∷ lower_digit (c / 16) ∷ lower_digit (c % 16) ∷ []

module _ (is_print : ℕ → Bool) where
  unfoldable pub string_char : ℕ → Bytes
  unfolding hex_escape
  string_char c =
      if leb c 127
      then (if is_print c
          then (if (c == double_quote) || (c == backslash) then backslash ∷ c ∷ [] else c ∷ [])
          else double_quote
            ∷ b' '
            ∷ double_quote
            ∷ (hex_escape c ++ double_quote ∷ b' ' ∷ double_quote ∷ []))
      else c ∷ []

  -- The loop of `GenerateString`.
  unfoldable pub string_chars : Bytes → Bytes
  unfolding string_char
  string_chars [] = []
  string_chars (c ∷ s) = string_char c ++ string_chars s

  unfoldable pub string_inside : Bytes → Bytes
  unfolding string_chars
  string_inside [] = []
  string_inside (c ∷ []) = if leb 128 c then hex_escape c else string_chars (c ∷ [])
  string_inside (c ∷ d ∷ s) = string_chars (c ∷ d ∷ s)

  unfoldable pub generate_string : Bytes → Bytes
  unfolding string_inside
  generate_string s = double_quote ∷ (string_inside s ++ double_quote ∷ [])

  -- A `char` is signed, so that `isprint` is undefined for a byte from 128 on.
  unfoldable pub generate_char : ℕ → Result Bytes
  unfolding hex_escape
  generate_char c =
      if (c == single_quote) || (c == backslash)
      then ok (single_quote ∷ backslash ∷ c ∷ single_quote ∷ [])
      else if leb 128 c
      then abort
      else if is_print c
      then ok (single_quote ∷ c ∷ single_quote ∷ [])
      else ok (single_quote ∷ (hex_escape c ++ single_quote ∷ []))
