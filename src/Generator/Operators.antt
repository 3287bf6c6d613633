-- ===== src/Generator/Operators.antt =====
-- src/Generate.c: the operators of expressions, IsProcedureCall to GenerateWithPrecedence,
-- ContainsProcedureCall and IsConstExpression. The fuel of `contains_procedure_call` bounds its depth.
pub mod Calls
use obnc.Prelude.{
  ℕ, zero, suc, Bool, true, false, not, ◌&&◌, ◌||◌, Option, none, some, List, [], ◌∷◌, Bytes, codes,
  ◌==◌, if◌then◌else◌, Result, ok, abort, diverge, ◌>>=◌,
}
use obnc.Trees.Symbols.{
  tok_or, tok_ge, tok_le, tok_true, tok_false, tok_string, tok_integer, tok_real, sym_set_type,
  sym_set_constant, sym_designator, sym_procedure_call, sym_abs_proc, sym_odd_proc, sym_len_proc,
  sym_lsl_proc, sym_asr_proc, sym_ror_proc, sym_floor_proc, sym_flt_proc, sym_ord_proc,
  sym_chr_proc, sym_inc_proc, sym_dec_proc, sym_incl_proc, sym_excl_proc, sym_assert_proc,
  sym_pack_proc, sym_unpk_proc, sym_adr_proc, sym_size_proc, sym_bit_proc, sym_get_proc,
  sym_put_proc, sym_copy_proc, sym_val_proc,
}
use obnc.Trees.Nodes.{Ref, null, Store, symbol, type, left, right, is_leaf}
use obnc.Types.Basics.{structure}

abbrev one_of : ℕ → List ℕ → Bool
one_of x [] = false
one_of x (y ∷ l) = (x == y) || one_of x l

unfoldable pub is_procedure_call : ℕ → Bool
is_procedure_call x = one_of x (
    sym_abs_proc ∷ sym_odd_proc ∷ sym_len_proc ∷ sym_lsl_proc ∷ sym_asr_proc ∷ sym_ror_proc
    ∷ sym_floor_proc ∷ sym_flt_proc ∷ sym_ord_proc ∷ sym_chr_proc ∷ sym_inc_proc ∷ sym_dec_proc
    ∷ sym_incl_proc ∷ sym_excl_proc ∷ sym_assert_proc ∷ sym_pack_proc ∷ sym_unpk_proc ∷ sym_adr_proc
    ∷ sym_size_proc ∷ sym_bit_proc ∷ sym_get_proc ∷ sym_put_proc ∷ sym_copy_proc ∷ sym_val_proc
    ∷ sym_procedure_call ∷ [])

-- The text of an operator, from whether the left operand is a set and whether there is a right one.
unfoldable pub operator_text : Bool → Bool → ℕ → Result Bytes
operator_text is_set binary x =
    if x == b'#'
    then ok (codes "!=")
    else if x == b'&'
    then ok (codes "&&")
    else if x == b'*'
    then ok (if is_set then codes "&" else codes "*")
    else if x == b'+'
    then ok (if is_set && binary then codes "|" else codes "+")
    else if x == b'-'
    then ok (if is_set then (if binary then codes "& ~" else codes "~") else codes "-")
    else if x == b'/'
    then ok (if is_set then codes "^" else codes "/")
    else if x == b'<'
    then ok (codes "<")
    else if x == b'='
    then ok (codes "==")
    else if x == b'>'
    then ok (codes ">")
    else if x == b'~'
    then ok (codes "! ")
    else if x == tok_or
    then ok (codes "||")
    else if x == tok_ge
    then ok (codes ">=")
    else if x == tok_le
    then ok (codes "<=")
    else abort

module _ (s : Store) where
  -- `Trees_Symbol(Types_Structure(Trees_Type(p)))`
  unfoldable pub operand_type : Ref → Result ℕ
  operand_type p = do t ← type p s; u ← structure s t; symbol u s

  unfoldable pub print_c_operator : Ref → Result Bytes
  unfolding operand_type operator_text
  print_c_operator op = do
    l ← left op s
    left_type ← operand_type l
    r ← right op s
    binary ← (if r == null then ok false else (do right_type ← operand_type r; ok true))
    x ← symbol op s
    operator_text (left_type == sym_set_type) binary x

  unfoldable pub contains_procedure_call : ℕ → Ref → Result Bool
  contains_procedure_call zero e = diverge
  contains_procedure_call (suc fuel) e = if e == null then ok false else do
    x ← symbol e s
    if x == sym_procedure_call then ok true else (do
      l ← left e s
      found ← contains_procedure_call fuel l
      if found then ok true else (do r ← right e s; contains_procedure_call fuel r))

  -- Whether `GenerateWithPrecedence` prints parentheses.
  unfoldable pub has_parentheses : Ref → Result Bool
  unfolding is_procedure_call
  has_parentheses e = do
    leaf ← is_leaf e s
    if leaf
        then ok false
        else (do x ← symbol e s; ok (not ((x == sym_designator) || is_procedure_call x)))

  unfoldable pub is_const_expression : Ref → Result Bool
  is_const_expression e = do
    x ← symbol e s
    ok (
        one_of x
          (tok_true ∷ tok_false ∷ tok_string ∷ tok_integer ∷ tok_real ∷ sym_set_constant ∷ []))
