-- ===== src/Types/Basics.antt =====
-- Types_IsType to Types_UnaliasedIdent: the predicates on types and the walk through aliases.
-- The walks run on `s.count + 1` units of fuel: a chain without a cycle has at most `s.count` nodes.
use obnc.Prelude.{
  ℕ, zero, suc, ◌+◌, Bool, true, false, not, ◌||◌, List, [], ◌∷◌, ◌==◌, if◌then◌else◌, Result, ok,
  diverge, ◌>>=◌, ◌>>◌, assert, ◌and_also◌,
}
use obnc.Prelude.Int.{ℤ, pos, ltb_ℤ}
use obnc.Trees.Symbols.{
  tok_ident, tok_array, tok_record, tok_pointer, tok_procedure, type_kind, sym_boolean_type,
  sym_char_type, sym_integer_type, sym_real_type, sym_byte_type, sym_set_type, sym_string_type,
  sym_nil_type, sym_abs_proc, sym_asr_proc, sym_assert_proc, sym_chr_proc, sym_dec_proc,
  sym_excl_proc, sym_floor_proc, sym_flt_proc, sym_inc_proc, sym_incl_proc, sym_len_proc,
  sym_lsl_proc, sym_new_proc, sym_odd_proc, sym_ord_proc, sym_pack_proc, sym_ror_proc,
  sym_unpk_proc, sym_adr_proc, sym_size_proc, sym_bit_proc, sym_get_proc, sym_put_proc,
  sym_copy_proc, sym_val_proc,
}
use obnc.Trees.Nodes.{Ref, null, Store, symbol, type, left}
use obnc.Trees.Idents.{kind}
use obnc.Trees.Constants.{integer}

abbrev pub one_of : ℕ → List ℕ → Bool
one_of sym [] = false
one_of sym (c ∷ cs) = (sym == c) || one_of sym cs

abbrev predeclared_procs : List ℕ
predeclared_procs =
    sym_abs_proc ∷ sym_asr_proc ∷ sym_assert_proc ∷ sym_chr_proc ∷ sym_dec_proc ∷ sym_excl_proc
    ∷ sym_floor_proc ∷ sym_flt_proc ∷ sym_inc_proc ∷ sym_incl_proc ∷ sym_len_proc ∷ sym_lsl_proc
    ∷ sym_new_proc ∷ sym_odd_proc ∷ sym_ord_proc ∷ sym_pack_proc ∷ sym_ror_proc ∷ sym_unpk_proc
    ∷ sym_adr_proc ∷ sym_size_proc ∷ sym_bit_proc ∷ sym_get_proc ∷ sym_put_proc ∷ sym_copy_proc
    ∷ sym_val_proc ∷ []

-- The cases of the `switch` in `Types_IsPredeclaredProcedure`.
unfoldable pub is_predeclared_symbol : ℕ → Bool
is_predeclared_symbol sym = one_of sym predeclared_procs

-- The cases of the `switch` in `Types_IsType` but IDENT.
unfoldable pub is_type_symbol : ℕ → Bool
is_type_symbol sym =
    one_of sym (
      sym_boolean_type ∷ sym_char_type ∷ sym_integer_type ∷ sym_real_type ∷ sym_byte_type
      ∷ sym_set_type ∷ sym_string_type ∷ sym_nil_type ∷ tok_array ∷ tok_record ∷ tok_pointer
      ∷ tok_procedure ∷ [])
    || one_of sym predeclared_procs

unfoldable pub is_basic_symbol : ℕ → Bool
is_basic_symbol sym = one_of sym (
    sym_boolean_type ∷ sym_char_type ∷ sym_integer_type ∷ sym_real_type ∷ sym_byte_type
    ∷ sym_set_type ∷ [])

module _ (s : Store) where
  unfoldable pub is_type : Ref → Result Bool
  is_type node = do
    sym ← symbol node s
    if is_type_symbol sym
        then ok true
        else if sym == tok_ident
        then (do k ← kind node s; ok (k == type_kind))
        else ok false

  unfoldable pub assert_type : Ref → Result (Unit {0})
  assert_type t = do b ← is_type t; assert b

  unfoldable pub structure_loop : ℕ → Ref → Result Ref
  structure_loop zero result = diverge
  structure_loop (suc fuel) result = if result == null then ok result else do
    sym ← symbol result s
    if sym == tok_ident then (do next ← type result s; structure_loop fuel next) else ok result

  unfoldable pub structure : Ref → Result Ref
  structure t = do assert (not (t == null)); assert_type t; structure_loop (s.count + 1) t

  -- `Trees_Symbol(Types_Structure(type))`
  unfoldable pub structure_symbol : Ref → Result ℕ
  structure_symbol t = do u ← structure t; symbol u s

  -- The test that `Types_IsBoolean` and the like make of that symbol.
  unfoldable pub structure_is : ℕ → Ref → Result Bool
  structure_is sym t = do assert_type t; x ← structure_symbol t; ok (x == sym)

  unfoldable pub is_boolean : Ref → Result Bool
  is_boolean t = structure_is sym_boolean_type t

  unfoldable pub is_char : Ref → Result Bool
  is_char t = structure_is sym_char_type t

  unfoldable pub is_integer : Ref → Result Bool
  is_integer t = do
    assert_type t
    x ← structure_symbol t
    ok ((x == sym_integer_type) || (x == sym_byte_type))

  unfoldable pub is_real : Ref → Result Bool
  is_real t = structure_is sym_real_type t

  unfoldable pub is_byte : Ref → Result Bool
  is_byte t = structure_is sym_byte_type t

  unfoldable pub is_set : Ref → Result Bool
  is_set t = structure_is sym_set_type t

  unfoldable pub is_string : Ref → Result Bool
  is_string t = do assert_type t; x ← symbol t s; ok (x == sym_string_type)

  unfoldable pub string_length : Ref → Result ℤ
  string_length t = do b ← is_string t; assert b; l ← left t s; integer l s

  unfoldable pub is_single_char_string : Ref → Result Bool
  is_single_char_string t =
      is_string t and_also (do n ← string_length t; ok (not (ltb_ℤ (pos 1) n)))

  unfoldable pub basic : Ref → Result Bool
  basic t = do assert_type t; x ← symbol t s; ok (is_basic_symbol x)

  unfoldable pub is_array : Ref → Result Bool
  is_array t = structure_is tok_array t

  unfoldable pub is_record : Ref → Result Bool
  is_record t = do x ← structure_symbol t; ok (x == tok_record)

  unfoldable pub scalar : Ref → Result Bool
  scalar t = do
    assert_type t
    (do a ← is_array t; ok (not a)) and_also (do r ← is_record t; ok (not r))

  unfoldable pub unaliased_ident_loop : ℕ → Ref → Ref → Result Ref
  unaliased_ident_loop zero result ref_type = diverge
  unaliased_ident_loop (suc fuel) result ref_type = if ref_type == null then ok result else do
    sym ← symbol ref_type s
    if sym == tok_ident
        then (do next ← type ref_type s; unaliased_ident_loop fuel ref_type next)
        else ok result

  unfoldable pub unaliased_ident : Ref → Result Ref
  unaliased_ident t = do
    assert (not (t == null))
    sym ← symbol t s
    assert (sym == tok_ident)
    ref_type ← type t s
    unaliased_ident_loop (s.count + 1) t ref_type
