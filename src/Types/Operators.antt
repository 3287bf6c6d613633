-- ===== src/Types/Operators.antt =====
-- Types_ExpressionCompatible: the operand types that each operator takes.
use obnc.Prelude.{
  ℕ, Bool, false, not, ◌||◌, ◌==◌, if◌then◌else◌, Result, ok, ◌>>=◌, ◌and_also◌, ◌or_else◌,
}
use obnc.Prelude.Int.{pos, ltb_ℤ}
use obnc.Trees.Symbols.{
  tok_array, tok_pointer, tok_procedure, tok_div, tok_mod, tok_or, tok_le, tok_ge, tok_in, tok_is,
  sym_boolean_type, sym_char_type, sym_real_type, sym_set_type, sym_string_type, sym_nil_type,
}
use obnc.Trees.Nodes.{Ref, null, Store, symbol}
use obnc.Types.Basics.{
  structure_symbol, is_string, string_length, is_integer, is_char, is_set, is_record,
}
use obnc.Types.Structured.{is_pointer, is_character_array, is_procedure}
use obnc.Types.Compatibility.{same, extends, is_integer_symbol}

module _ (s : Store) where
  abbrev short_string : Ref → Result Bool
  short_string t = do n ← string_length s t; ok (not (ltb_ℤ (pos 1) n))

  -- The inner `switch`es, by the symbol `sym` of the first operand's structure.
  unfoldable pub add_compatible : ℕ → Ref → Ref → Result Bool
  add_compatible sym first second =
      if is_integer_symbol sym
      then ok (second == null) or_else is_integer s second
      else if (sym == sym_real_type) || (sym == sym_set_type)
      then ok (second == null) or_else same s first second
      else ok false

  unfoldable pub mul_compatible : ℕ → Ref → Ref → Result Bool
  mul_compatible sym first second =
      if is_integer_symbol sym
      then is_integer s second
      else if (sym == sym_real_type) || (sym == sym_set_type)
      then same s first second
      else ok false

  unfoldable pub divide_compatible : ℕ → Ref → Ref → Result Bool
  divide_compatible sym first second =
      if (sym == sym_real_type) || (sym == sym_set_type) then same s first second else ok false

  -- What the operators `=`, `#` and the orders share: characters, strings and character arrays.
  unfoldable pub char_compatible : Ref → Result Bool
  char_compatible second =
      is_char s second or_else (is_string s second and_also short_string second)

  unfoldable pub array_operands : Ref → Ref → Result Bool
  array_operands first second =
      is_character_array s first and_also (is_character_array s second or_else is_string s second)

  unfoldable pub string_compatible : Ref → Ref → Result Bool
  string_compatible first second =
      is_character_array s second
      or_else is_string s second
      or_else (is_char s second and_also short_string first)

  abbrev is_nil : Ref → Result Bool
  is_nil t = do x ← symbol t s; ok (x == sym_nil_type)

  unfoldable pub equality_compatible : ℕ → Ref → Ref → Result Bool
  equality_compatible sym first second =
      if (sym == sym_boolean_type) || (sym == sym_real_type) || (sym == sym_set_type)
      then same s first second
      else if is_integer_symbol sym
      then is_integer s second
      else if sym == sym_char_type
      then char_compatible second
      else if sym == tok_array
      then array_operands first second
      else if sym == sym_string_type
      then string_compatible first second
      else if sym == tok_pointer
      then is_nil second
        or_else (is_pointer s second
            and_also (extends s first second or_else extends s second first))
      else if sym == tok_procedure
      then is_nil second or_else same s first second
      else if sym == sym_nil_type
      then is_pointer s second or_else is_procedure s second
      else ok false

  unfoldable pub order_compatible : ℕ → Ref → Ref → Result Bool
  order_compatible sym first second =
      if is_integer_symbol sym
      then is_integer s second
      else if sym == sym_char_type
      then char_compatible second
      else if sym == sym_real_type
      then same s first second
      else if sym == tok_array
      then array_operands first second
      else if sym == sym_string_type
      then string_compatible first second
      else ok false

  unfoldable pub expression_compatible : ℕ → Ref → Ref → Result Bool
  expression_compatible operator first second = do
    sym ← structure_symbol s first
    if (operator == b'+') || (operator == b'-')
        then add_compatible sym first second
        else if operator == b'*'
        then mul_compatible sym first second
        else if operator == b'/'
        then divide_compatible sym first second
        else if (operator == tok_div) || (operator == tok_mod)
        then is_integer s first and_also is_integer s second
        else if (operator == tok_or) || (operator == b'&')
        then ok (sym == sym_boolean_type) and_also same s first second
        else if operator == b'~'
        then ok (sym == sym_boolean_type)
        else if (operator == b'=') || (operator == b'#')
        then equality_compatible sym first second
        else if (operator == b'<')
            || (operator == tok_le)
            || (operator == b'>')
            || (operator == tok_ge)
        then order_compatible sym first second
        else if operator == tok_in
        then is_integer s first and_also is_set s second
        else if operator == tok_is
        then (is_record s first or_else is_pointer s first)
          and_also (is_record s second or_else is_pointer s second)
          and_also extends s first second
        else ok false
