-- ===== src/Types/Structured.antt =====
-- Types_IsArray to Types_SetResultType: arrays, records, pointers and procedures.
use obnc.Prelude.{
  ℕ, zero, suc, ◌+◌, Bool, not, ◌&&◌, ◌||◌, Bytes, bytes_eq, ◌==◌, if◌then◌else◌, Result, ok, abort,
  diverge, ◌>>=◌, ◌>>◌, assert, ◌and_also◌, ◌or_else◌,
}
use obnc.Trees.Symbols.{
  tok_ident, tok_array, tok_record, tok_pointer, tok_procedure, sym_field_list_sequence,
  sym_ident_list,
}
use obnc.Trees.Nodes.{Ref, null, Store, symbol, type, left, right, set_left, set_right, new_node}
use obnc.Trees.Idents.{name, imported, exported}
use obnc.Types.Basics.{
  is_type, assert_type, structure, structure_symbol, is_array, is_char, is_integer, is_record,
  is_predeclared_symbol,
}

-- A test of a pointer that holds for NULL.
abbrev null_or : Ref → Result Bool → Result Bool
null_or p r = ok (p == null) or_else r

-- `*fieldIdent` and `*fieldBaseType`
abbrev pub Found : Type 0
Found = Ref × Ref

module _ (s : Store) where
  unfoldable pub is_pointer : Ref → Result Bool
  is_pointer t = do x ← structure_symbol s t; ok (x == tok_pointer)

  unfoldable pub new_array : Ref → Ref → Result (Ref × Store)
  new_array length elem_type = do
    b ← null_or length (do t ← type length s; is_integer s t)
    assert b
    assert_type s elem_type
    new_node tok_array length elem_type s

  unfoldable pub array_length : Ref → Result Ref
  array_length t = do b ← is_array s t; assert b; u ← structure s t; left u s

  unfoldable pub is_open_array : Ref → Result Bool
  is_open_array t = do
    assert_type s t
    x ← symbol t s
    ok (x == tok_array) and_also (do l ← array_length t; ok (l == null))

  unfoldable pub element_type : Ref → Result Ref
  element_type t = do b ← is_array s t; assert b; u ← structure s t; right u s

  unfoldable pub is_character_array : Ref → Result Bool
  is_character_array t = do
    assert_type s t
    is_array s t and_also (do e ← element_type t; is_char s e)

  unfoldable pub set_element_type : Ref → Ref → Result Store
  set_element_type elem_type t = do
    assert_type s elem_type
    b ← is_array s t
    assert b
    u ← structure s t
    set_right elem_type u s

  unfoldable pub new_record : Ref → Ref → Result (Ref × Store)
  new_record rec_base_type fields = do
    b ← null_or rec_base_type (
        (do t ← type rec_base_type s; ok (t == null))
        or_else is_record s rec_base_type
        or_else is_pointer rec_base_type)
    assert b
    c ← null_or fields (do x ← symbol fields s; ok (x == sym_field_list_sequence))
    assert c
    new_node tok_record rec_base_type fields s

  unfoldable pub pointer_base_type : Ref → Result Ref
  pointer_base_type t = do b ← is_pointer t; assert b; u ← structure s t; left u s

  unfoldable pub record_base_type : Ref → Result Ref
  record_base_type t = do
    u ← structure s t
    x ← symbol u s
    if x == tok_record
        then left u s
        else if x == tok_pointer
        then (do r ← pointer_base_type u; v ← structure s r; left v s)
        else abort

  unfoldable pub extensible : Ref → Result Bool
  extensible t = do x ← structure_symbol s t; ok ((x == tok_record) || (x == tok_pointer))

  unfoldable pub set_record_base_type : Ref → Ref → Result Store
  set_record_base_type rec_base_type record_type = do
    a ← extensible rec_base_type
    assert a
    b ← is_record s record_type
    assert b
    u ← structure s record_type
    set_left rec_base_type u s

  unfoldable pub fields : Ref → Result Ref
  fields t = do u ← structure s t; x ← symbol u s; assert (x == tok_record); right u s

  unfoldable pub descriptor : Ref → Result Ref
  descriptor t = do
    assert (not (t == null))
    u ← structure s t
    x ← symbol u s
    result ←
        if x == tok_record then ok t else if x == tok_pointer then pointer_base_type u else abort
    assert (not (result == null))
    ok result

  unfoldable pub named_descriptor : Ref → Result Ref
  named_descriptor t = do
    desc ← descriptor t
    x ← symbol desc s
    ok (if x == tok_ident then desc else t)

  -- The `do` loop of `Types_ExtensionLevel`, with `n` before its increment.
  unfoldable pub extension_level_loop : ℕ → ℕ → Ref → Result ℕ
  extension_level_loop zero n t = diverge
  extension_level_loop (suc fuel) n t = do
    base ← record_base_type t
    if base == null then ok n else extension_level_loop fuel (suc n) base

  unfoldable pub extension_level : Ref → Result ℕ
  extension_level t = extension_level_loop (s.count + 1) 0 t

  -- The innermost loop of `Types_GetFieldIdent`: one list of identifiers. It does not stop at a
  -- hit, so the last one counts.
  unfoldable pub ident_list_loop : ℕ → Bytes → Bool → Ref → Ref → Found → Result Found
  ident_list_loop zero field_name imp base_type ident_list found = diverge
  ident_list_loop (suc fuel) field_name imp base_type ident_list found = do
    ident ← left ident_list s
    hit ←
        (ok (not imp) or_else exported ident s)
        and_also (do n ← name ident s; ok (bytes_eq n field_name))
    next ← right ident_list s
    let found' = if hit then (ident, base_type) else found
    if next == null then ok found' else ident_list_loop fuel field_name imp base_type next found'

  -- The loop over the field lists of one record.
  unfoldable pub field_list_loop : ℕ → Bytes → Bool → Ref → Ref → Found → Result Found
  field_list_loop zero field_name imp base_type field_list_seq found = diverge
  field_list_loop (suc fuel) field_name imp base_type field_list_seq found =
      if (field_list_seq == null) || not (found.0 == null) then ok found else do
        ident_list ← left field_list_seq s
        found' ← ident_list_loop (s.count + 1) field_name imp base_type ident_list found
        next ← right field_list_seq s
        field_list_loop fuel field_name imp base_type next found'

  -- The test by which the outer loop notices that it enters an imported record.
  unfoldable pub imported_here : Bool → Ref → Result Bool
  imported_here imp base_type =
      ok (not imp)
      and_also (do x ← symbol base_type s; ok (x == tok_ident))
      and_also imported base_type s

  -- The outer loop, over the base types.
  unfoldable pub field_ident_loop : ℕ → Bytes → Bool → Ref → Result Found
  field_ident_loop zero field_name imp base_type = diverge
  field_ident_loop (suc fuel) field_name imp base_type = do
    here ← imported_here imp base_type
    let imp' = imp || here
    desc ← descriptor base_type
    field_list_seq ← fields desc
    found ← field_list_loop (s.count + 1) field_name imp' base_type field_list_seq (null, null)
    next ← record_base_type desc
    if not (next == null) && (found.0 == null)
        then field_ident_loop fuel field_name imp' next
        else ok found

  unfoldable pub get_field_ident : Bytes → Ref → Bool → Result Found
  get_field_ident field_name t var_imported = do
    b ← is_record s t or_else is_pointer t
    assert b
    found ← field_ident_loop (s.count + 1) field_name var_imported t
    assert ((found.0 == null) || not (found.1 == null))
    ok found

  unfoldable pub new_pointer : Ref → Result (Ref × Store)
  new_pointer ptr_base_type = do
    b ←
        null_or ptr_base_type
          ((do t ← type ptr_base_type s; ok (t == null)) or_else is_record s ptr_base_type)
    assert b
    new_node tok_pointer ptr_base_type null s

  unfoldable pub set_pointer_base_type : Ref → Ref → Result Store
  set_pointer_base_type ptr_base_type ptr_type = do
    a ← is_record s ptr_base_type
    assert a
    b ← is_pointer ptr_type
    assert b
    u ← structure s ptr_type
    set_left ptr_base_type u s

  unfoldable pub new_procedure : Ref → Ref → Result (Ref × Store)
  new_procedure fields result_type = do
    b ← null_or fields (do x ← symbol fields s; ok (x == sym_ident_list))
    assert b
    c ← null_or result_type (is_type s result_type)
    assert c
    new_node tok_procedure fields result_type s

  unfoldable pub is_predeclared_procedure : Ref → Result Bool
  is_predeclared_procedure t = do
    assert_type s t
    x ← structure_symbol s t
    ok (is_predeclared_symbol x)

  unfoldable pub is_procedure : Ref → Result Bool
  is_procedure t = do
    assert_type s t
    u ← structure s t
    x ← symbol u s
    ok (x == tok_procedure) or_else is_predeclared_procedure u

  unfoldable pub parameters : Ref → Result Ref
  parameters t = do b ← is_procedure t; assert b; u ← structure s t; left u s

  unfoldable pub result_type : Ref → Result Ref
  result_type t = do b ← is_procedure t; assert b; u ← structure s t; right u s

  unfoldable pub set_result_type : Ref → Ref → Result Store
  set_result_type result_type t = do
    b ← null_or result_type (is_type s result_type)
    assert b
    c ← is_procedure t
    assert c
    u ← structure s t
    set_right result_type u s
