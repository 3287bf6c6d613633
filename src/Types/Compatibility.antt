-- ===== src/Types/Compatibility.antt =====
-- Types_Extends and Types_Same to FormalParametersMatch: which types go together.
-- `types_equal`, `formal_parameters_match` and `array_compatible` follow the structure of two types
-- and take fuel as an argument, since C recurs without a bound.
use obnc.Prelude.{
  ℕ, zero, suc, ◌+◌, Bool, true, false, not, ◌&&◌, ◌||◌, bytes_eq, ◌==◌, if◌then◌else◌, Result, ok,
  diverge, ◌>>=◌, ◌>>◌, assert, ◌and_also◌, ◌or_else◌,
}
use obnc.Prelude.Int.{pos, ltb_ℤ}
use obnc.Trees.Symbols.{
  tok_ident, tok_array, tok_record, tok_pointer, tok_procedure, tok_nil, sym_char_type,
  sym_integer_type, sym_byte_type, sym_designator, procedure_kind,
}
use obnc.Trees.Nodes.{Ref, null, Store, symbol, type, left, right}
use obnc.Trees.Idents.{unaliased_name, kind}
use obnc.Trees.Constants.{integer}
use obnc.Types.Basics.{
  assert_type, structure, structure_symbol, basic, unaliased_ident, is_string, string_length,
  is_integer, is_array, is_record,
}
use obnc.Types.Structured.{
  is_pointer, is_open_array, is_character_array, array_length, element_type, is_procedure,
  is_predeclared_procedure, parameters, result_type, record_base_type, descriptor, named_descriptor,
}

-- INTEGER and BYTE share their cases in each `switch`.
abbrev pub is_integer_symbol : ℕ → Bool
is_integer_symbol x = (x == sym_integer_type) || (x == sym_byte_type)

module _ (s : Store) where
  unfoldable pub same : Ref → Ref → Result Bool
  same type_a type_b = do
    assert_type s type_a
    assert_type s type_b
    (do a ← structure s type_a; b ← structure s type_b; ok (a == b))
        or_else (basic s type_a
            and_also basic s type_b
            and_also (do a ← symbol type_a s; b ← symbol type_b s; ok (a == b)))
        or_else ((do a ← symbol type_a s; ok (a == tok_ident))
            and_also (do b ← symbol type_b s; ok (b == tok_ident))
            and_also (do
              a ← unaliased_ident s type_a
              name_a ← unaliased_name a s
              b ← unaliased_ident s type_b
              name_b ← unaliased_name b s
              ok (bytes_eq name_a name_b)))

  -- The `while` loop of `Types_Extends`; its result is the last `intermediateType`.
  unfoldable pub extends_loop : ℕ → Ref → Ref → Result Ref
  extends_loop zero base_name intermediate = diverge
  extends_loop (suc fuel) base_name intermediate = if intermediate == null then ok null else do
    name ← named_descriptor s intermediate
    hit ← same name base_name
    if hit
        then ok intermediate
        else (do next ← record_base_type s intermediate; extends_loop fuel base_name next)

  unfoldable pub extends : Ref → Ref → Result Bool
  extends base_type extended_type = do
    a ← descriptor s base_type
    b ← descriptor s extended_type
    equal ← same a b
    if equal then ok true else (do
      base_name ← named_descriptor s base_type
      first ← record_base_type s extended_type
      last ← extends_loop (s.count + 1) base_name first
      ok (not (last == null)))

  unfoldable mutual
    pub types_equal : ℕ → Ref → Ref → Result Bool
    types_equal zero type_a type_b = diverge
    types_equal (suc fuel) type_a type_b =
        let elements = (do
          a ← element_type s type_a
          b ← element_type s type_b
          types_equal fuel a b) in
        let match = formal_parameters_match fuel type_a type_b in
        same type_a type_b
        or_else (is_open_array s type_a and_also is_open_array s type_b and_also elements)
        or_else (is_procedure s type_a and_also is_procedure s type_b and_also match)

    pub formal_parameters_match : ℕ → Ref → Ref → Result Bool
    formal_parameters_match zero proc_type_a proc_type_b = diverge
    formal_parameters_match (suc fuel) proc_type_a proc_type_b = do
      a ← is_procedure s proc_type_a
      assert a
      b ← is_procedure s proc_type_b
      assert b
      result_a ← result_type s proc_type_a
      result_b ← result_type s proc_type_b
      results ←
          ok ((result_a == null) && (result_b == null))
          or_else (ok (not (result_a == null) && not (result_b == null))
              and_also same result_a result_b)
      if results
          then (do
            list_a ← parameters s proc_type_a
            list_b ← parameters s proc_type_b
            params_match fuel list_a list_b)
          else ok false

    -- The `while` loop of `FormalParametersMatch` and the test behind it.
    pub params_match : ℕ → Ref → Ref → Result Bool
    params_match zero list_a list_b = diverge
    params_match (suc fuel) list_a list_b =
        if (list_a == null) || (list_b == null)
        then ok ((list_a == null) && (list_b == null))
        else do
          param_a ← left list_a s
          param_b ← left list_b s
          type_a ← type param_a s
          type_b ← type param_b s
          match ←
              types_equal fuel type_a type_b
              and_also (do a ← kind param_a s; b ← kind param_b s; ok (a == b))
          next_a ← right list_a s
          next_b ← right list_b s
          if match then params_match fuel next_a next_b else ok false

  -- The cases of the `switch` in `Types_AssignmentCompatible`, by the symbol of the target.
  unfoldable pub assignable : ℕ → ℕ → Ref → Ref → Ref → Result Bool
  assignable fuel sym source_exp source_type target_type =
      if sym == sym_char_type
      then is_string s source_type
        and_also (do n ← string_length s source_type; ok (not (ltb_ℤ (pos 1) n)))
      else if is_integer_symbol sym
      then is_integer s source_type
      else if sym == tok_array
      then (do
        string ← is_string s source_type
        if string
            then is_character_array s target_type
              and_also (is_open_array s target_type or_else (do
                n ← string_length s source_type
                l ← array_length s target_type
                m ← integer l s
                ok (ltb_ℤ n m)))
            else is_open_array s source_type
              and_also (do b ← is_open_array s target_type; ok (not b))
              and_also (do
                a ← element_type s source_type
                b ← element_type s target_type
                types_equal fuel a b))
      else if sym == tok_record
      then is_record s source_type and_also extends target_type source_type
      else if sym == tok_pointer
      then (do x ← symbol source_exp s; ok (x == tok_nil))
        or_else (is_pointer s source_type and_also extends target_type source_type)
      else if sym == tok_procedure
      then (do x ← symbol source_exp s; ok (x == tok_nil))
        or_else ((do x ← symbol source_exp s; ok (x == sym_designator))
            and_also (do i ← left source_exp s; k ← kind i s; ok (k == procedure_kind))
            and_also (do p ← is_predeclared_procedure s source_type; ok (not p))
            and_also formal_parameters_match fuel source_type target_type)
      else ok false

  unfoldable pub assignment_compatible : ℕ → Ref → Ref → Result Bool
  assignment_compatible fuel source_exp target_type = do
    assert (not (source_exp == null))
    assert_type s target_type
    source_type ← type source_exp s
    equal ← ok (not (source_type == null)) and_also same source_type target_type
    if equal then (do string ← is_string s target_type; ok (not string)) else (do
      sym ← structure_symbol s target_type
      assignable fuel sym source_exp source_type target_type)

  unfoldable pub array_compatible : ℕ → Ref → Ref → Result Bool
  array_compatible zero actual_type formal_type = diverge
  array_compatible (suc fuel) actual_type formal_type =
      let elements = (do
        a ← element_type s actual_type
        f ← element_type s formal_type
        array_compatible fuel a f) in
      same formal_type actual_type
      or_else (is_open_array s formal_type and_also is_array s actual_type and_also elements)
      or_else (is_character_array s formal_type and_also is_string s actual_type)
