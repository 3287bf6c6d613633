-- ===== src/Examples/Comparisons.antt =====
-- Comparisons of operands in the small program.
use obnc.Prelude.{◌≡◌, refl, true, false, arith, inl}
use obnc.Trees.Nodes.{read, symbol, type}
use obnc.Trees.Idents.{ident, ident_of, kind}
use obnc.Types.Basics.{
  is_type, is_type_symbol, is_basic_symbol, assert_type, structure_loop, structure,
  structure_symbol, structure_is, is_array, basic, is_predeclared_symbol,
}
use obnc.Types.Structured.{is_character_array}
use obnc.Types.Compatibility.{same}
use obnc.Types.Operators.{expression_compatible}
use obnc.Types.Symmetry.{Operand}
use obnc.Types.Equality.{equality_compatible_comm}
use obnc.Examples.Program.{program, integer_type, count_type}
use obnc.Examples.Resolved.{integer_Typed, count_Typed}

count_Operand : Operand program count_type integer_type false false
unfolding is_character_array is_array structure_is structure_symbol is_type is_type_symbol symbol
    kind ident read ident_of structure structure_loop assert_type type
count_Operand = record {
  typed = count_Typed;
  itself = integer_Typed;
  plain_string = refl;
  plain_nil = refl;
  has_chars = refl;
  chars_array = λ e. ground arith;
  has_short = λ e. absurd (omega (arith, e));
}

integer_Operand : Operand program integer_type integer_type false false
unfolding is_character_array is_array structure_is structure_symbol is_type is_type_symbol symbol
    read structure structure_loop assert_type
integer_Operand = record {
  typed = integer_Typed;
  itself = integer_Typed;
  plain_string = refl;
  plain_nil = refl;
  has_chars = refl;
  chars_array = λ e. ground arith;
  has_short = λ e. absurd (omega (arith, e));
}

-- n = count and count = n
equality_compatible_comm_example :
    expression_compatible program b'=' integer_type count_type
    ≡ expression_compatible program b'=' count_type integer_type
unfolding same basic is_basic_symbol structure is_type is_type_symbol symbol kind ident read
    ident_of structure_loop assert_type type is_predeclared_symbol
equality_compatible_comm_example =
    equality_compatible_comm program b'=' {x = true} {y = false} {y' = false} (inl refl)
      integer_Operand count_Operand refl refl (λ e. refl) (λ e. absurd (omega (arith, e)))
      (λ e. absurd (omega (arith, e))) refl refl
