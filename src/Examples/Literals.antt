-- ===== src/Examples/Literals.antt =====
-- The theorems about literals at concrete inputs.
use obnc.Prelude.{true, ◌+◌, ◌≤◌, ℕ, ◌≡◌, refl, Bool, ◌&&◌, some, [], ◌∷◌, Bytes, leb, ok, arith}
use obnc.Prelude.{◌||◌, ◌++◌, length}
use obnc.Prelude.Int.{pos, ◌+ℤ◌}
use obnc.Types.Extension.{any}
use obnc.Generator.CaseLabels.{range_labels, range_labels-numbers}
use obnc.Generator.Operators.{contains_procedure_call}
use obnc.Generator.Operators.Calls.{empty, node, is_call, contains_procedure_call-any}
use obnc.Examples.Program.{program, integer_type}
use obnc.Generator.DirPrefix.{dir_prefix, IsPrefix, dir_prefix-IsPrefix}
use obnc.Generator.Literals.{generate_string, generate_char}
use obnc.Generator.CText.{c_text, between}
use obnc.Generator.RoundTrip.{c_text-generate_string, c_text-generate_char}

-- `isprint` in the C locale.
abbrev ascii_print : ℕ → Bool
ascii_print c = leb 32 c && leb c 126

-- A quote, a newline, a digit, a byte of UTF-8.
c_text-generate_string_example :
    c_text 34 between (generate_string ascii_print (34 ∷ 10 ∷ 49 ∷ 195 ∷ []))
    ≡ some (34 ∷ 10 ∷ 49 ∷ 195 ∷ [])
c_text-generate_string_example =
    c_text-generate_string ascii_print refl (34 ∷ 10 ∷ 49 ∷ 195 ∷ [])
      (omega arith, (omega arith, (omega arith, (omega arith, tt))))

c_text-generate_char_example :
    (b : Bytes) × (generate_char ascii_print 39 ≡ ok b) × (c_text 39 between b ≡ some (39 ∷ []))
c_text-generate_char_example = c_text-generate_char ascii_print refl 39 (omega arith)

abbrev ascii_letter : ℕ → Bool
ascii_letter c = (leb 65 c && leb c 90) || (leb 97 c && leb c 122)

abbrev ascii_alnum : ℕ → Bool
ascii_alnum c = ascii_letter c || (leb 48 c && leb c 57)

ascii_letters : (c : ℕ) → ascii_letter c ≡ true → ascii_alnum c ≡ true
ascii_letters c letter = rw letter refl

-- The directory "7-up".
dir_prefix-IsPrefix_example :
    (r : Bytes) × (dir_prefix ascii_letter ascii_alnum (55 ∷ 45 ∷ 117 ∷ 112 ∷ [])
      ≡ ok (r ++ 95 ∷ []))
    × (length (r ++ 95 ∷ []) + 1 ≤ 16)
    × IsPrefix ascii_letter ascii_alnum r
dir_prefix-IsPrefix_example =
    dir_prefix-IsPrefix ascii_letter ascii_alnum ascii_letters (55 ∷ 45 ∷ 117 ∷ 112 ∷ [])
      (omega arith, (omega arith, (omega arith, (omega arith, tt))))

-- The labels 2..4.
range_labels-numbers_example :
    range_labels 2147483647 10 (pos 2) (pos 4) ≡ ok (pos 2 ∷ pos 3 ∷ pos 4 ∷ [])
unfolding ◌+ℤ◌
range_labels-numbers_example =
    range_labels-numbers 2147483647 10 (pos 2) (pos 4) (omega arith, omega arith)
      (omega arith, omega arith) refl (omega arith)

-- The tree of the type Base, a record with a list of fields.
contains_procedure_call-any_example :
    contains_procedure_call program 3 integer_type ≡ ok (any (is_call program) (integer_type ∷ []))
contains_procedure_call-any_example =
    contains_procedure_call-any program 3 integer_type (integer_type ∷ [])
      (node (omega arith) empty empty) (omega arith)
