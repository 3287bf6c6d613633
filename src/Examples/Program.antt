-- ===== src/Examples/Program.antt =====
-- The types of a small program, as the compiler keeps them:
--   TYPE Count = INTEGER; Base = RECORD x: INTEGER END; Sub = RECORD (Base) END;
--     Top = RECORD (Sub) END;
-- with CHAR, an ARRAY 5 OF CHAR, and the types of a string of 3 and of a string of 1 character.
use obnc.Prelude.{ℕ, true, false, ◌||◌, Bytes, codes, ◌==◌, if◌then◌else◌, arith}
use obnc.Prelude.Int.{pos}
use obnc.Trees.Symbols.{
  tok_ident, tok_string, tok_integer, tok_array, tok_record, sym_integer_type, sym_char_type,
  sym_string_type, sym_field_list_sequence, sym_ident_list, sym_designator, type_kind,
}
use obnc.Trees.Nodes.{Ref, null, Ident, Value, no_value, integer_value, ident_value, Store}
use obnc.Trees.Idents.{fresh_ident}
use obnc.Types.Resolution.{WellFormed}

abbrev pub integer_type : Ref
integer_type = 1

abbrev pub count_type : Ref
count_type = 2

abbrev pub char_type : Ref
char_type = 3

abbrev pub chars_type : Ref
chars_type = 5

abbrev pub text_type : Ref
text_type = 6

abbrev pub base_type : Ref
base_type = 10

abbrev pub sub_type : Ref
sub_type = 13

abbrev pub top_type : Ref
top_type = 15

abbrev pub letter_type : Ref
letter_type = 18

-- A variable of type Top.
abbrev pub top_exp : Ref
top_exp = 20

-- The string expression.
abbrev pub text_exp : Ref
text_exp = 8

abbrev symbol_at : Ref → ℕ
symbol_at p =
    if (p == 2) || (p == 10) || (p == 13) || (p == 15) || (p == 17)
    then tok_ident
    else if p == 1
    then sym_integer_type
    else if p == 3
    then sym_char_type
    else if (p == 4) || (p == 7) || (p == 19)
    then tok_integer
    else if p == 5
    then tok_array
    else if (p == 6) || (p == 18)
    then sym_string_type
    else if p == 8
    then tok_string
    else if p == 11
    then sym_field_list_sequence
    else if p == 16
    then sym_ident_list
    else if p == 20
    then sym_designator
    else tok_record

abbrev name_at : Ref → Bytes
name_at p =
    if p == 2
    then codes "Count"
    else if p == 10
    then codes "Base"
    else if p == 13
    then codes "Sub"
    else if p == 15
    then codes "Top"
    else codes "x"

abbrev ident_at : Ref → Ident
ident_at p = record (fresh_ident (name_at p)) { kind = type_kind }

abbrev value_at : Ref → Value
value_at p =
    if symbol_at p == tok_ident
    then ident_value (ident_at p)
    else if symbol_at p == tok_integer
    then integer_value (pos (if p == 4 then 5 else if p == 7 then 3 else 1))
    else no_value

abbrev type_at : Ref → Ref
type_at p =
    if p == 8
    then 6
    else if p == 10
    then 9
    else if p == 13
    then 12
    else if p == 15
    then 14
    else if p == 20
    then 15
    else if symbol_at p == tok_ident
    then 1
    else null

abbrev left_at : Ref → Ref
left_at p =
    if p == 5
    then 4
    else if p == 6
    then 7
    else if p == 11
    then 16
    else if p == 12
    then 10
    else if p == 14
    then 13
    else if p == 16
    then 17
    else if p == 18
    then 19
    else null

abbrev right_at : Ref → Ref
right_at p = if p == 5 then 3 else if p == 9 then 11 else null

abbrev pub program : Store
program = record {
  initialized = true;
  yylineno = 1;
  count = 20;
  node = λ p. record {
    value = value_at p;
    symbol = symbol_at p;
    line_number = 1;
    marked = false;
    type = type_at p;
    left = left_at p;
    right = right_at p;
  };
}

pub program-WellFormed : WellFormed program
program-WellFormed = record {
  named = λ p ne is. (ident_at p, rw is);
  rank = λ p. if symbol_at p == tok_ident then 1 else 0;
  below = λ p. ground arith;
  falls = λ p ne is. ground arith;
}
