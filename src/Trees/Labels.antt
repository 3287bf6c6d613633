-- ===== src/Trees/Labels.antt =====
-- `PrintLabel`: the text by which the dump of a tree shows a symbol.
use obnc.Prelude.{
  ℕ, ◌≡◌, ◌≢◌, refl, Bool, true, false, ◌&&◌, List, [], ◌∷◌, Bytes, codes, bytes_eq, bytes_eq_iff,
  ltb, ◌==◌, if◌then◌else◌, Result, ok, abort, arith,
}
use obnc.Trees.Symbols.{
  sym_abs_proc, sym_adr_proc, sym_asr_proc, sym_assert_proc, sym_bit_proc, sym_boolean_type,
  sym_byte_type, sym_case, sym_case_label_list, sym_case_rep, sym_char_type, sym_chr_proc,
  sym_copy_proc, sym_dec_proc, sym_designator, sym_excl_proc, sym_exp_list, sym_field_list_sequence,
  sym_file_position, sym_floor_proc, sym_flt_proc, sym_get_proc, sym_ident_list, sym_inc_proc,
  sym_incl_proc, sym_integer_type, sym_len_proc, sym_lsl_proc, sym_new_proc, sym_nil_type,
  sym_nosym, sym_odd_proc, sym_ord_proc, sym_pack_proc, sym_procedure_call, sym_put_proc,
  sym_range_set, sym_real_type, sym_ror_proc, sym_set_type, sym_single_element_set, sym_size_proc,
  sym_statement_sequence, sym_string_type, sym_unpk_proc, sym_val_proc, tok_array, tok_becomes,
  tok_by, tok_case, tok_div, tok_do, tok_dotdot, tok_else, tok_elsif, tok_false, tok_for, tok_ge,
  tok_if, tok_in, tok_is, tok_le, tok_mod, tok_module, tok_nil, tok_or, tok_pointer, tok_procedure,
  tok_record, tok_repeat, tok_then, tok_to, tok_true, tok_while,
}

-- The cases of the `switch`, in order.
abbrev pub labels : List (ℕ × Bytes)
labels =
    (tok_array, codes "array")
    ∷ (tok_becomes, codes ":=")
    ∷ (tok_by, codes "BY")
    ∷ (tok_case, codes "CASE")
    ∷ (tok_do, codes "DO")
    ∷ (tok_dotdot, codes "..")
    ∷ (tok_div, codes "DIV")
    ∷ (tok_false, codes "FALSE")
    ∷ (tok_for, codes "FOR")
    ∷ (tok_ge, codes ">=")
    ∷ (tok_else, codes "ELSE")
    ∷ (tok_elsif, codes "ELSIF")
    ∷ (tok_in, codes "IN")
    ∷ (tok_if, codes "IF")
    ∷ (tok_is, codes "IS")
    ∷ (tok_le, codes "<=")
    ∷ (tok_mod, codes "MOD")
    ∷ (tok_module, codes "MODULE")
    ∷ (tok_nil, codes "NIL")
    ∷ (tok_or, codes "OR")
    ∷ (tok_pointer, codes "POINTER")
    ∷ (tok_record, codes "RECORD")
    ∷ (tok_repeat, codes "REPEAT")
    ∷ (tok_then, codes "THEN")
    ∷ (tok_to, codes "TO")
    ∷ (sym_nosym, codes "(none)")
    ∷ (sym_abs_proc, codes "ABS")
    ∷ (sym_adr_proc, codes "SYSTEM.ADR")
    ∷ (sym_asr_proc, codes "ASR")
    ∷ (sym_assert_proc, codes "ASSERT")
    ∷ (sym_bit_proc, codes "SYSTEM.BIT")
    ∷ (sym_boolean_type, codes "BooleanType")
    ∷ (sym_byte_type, codes "ByteType")
    ∷ (sym_case, codes "case")
    ∷ (sym_case_label_list, codes "CaseLabelList")
    ∷ (sym_case_rep, codes "CaseRep")
    ∷ (sym_char_type, codes "CharType")
    ∷ (sym_chr_proc, codes "CHR")
    ∷ (sym_copy_proc, codes "SYSTEM.COPY")
    ∷ (sym_dec_proc, codes "DEC")
    ∷ (sym_designator, codes "designator")
    ∷ (sym_excl_proc, codes "EXCL")
    ∷ (sym_exp_list, codes "ExpList")
    ∷ (sym_field_list_sequence, codes "FieldListSequence")
    ∷ (sym_file_position, codes "FilePosition")
    ∷ (sym_floor_proc, codes "FLOOR")
    ∷ (sym_flt_proc, codes "FLT")
    ∷ (sym_get_proc, codes "SYSTEM.GET")
    ∷ (sym_ident_list, codes "IdentList")
    ∷ (sym_inc_proc, codes "INC")
    ∷ (sym_incl_proc, codes "INCL")
    ∷ (sym_integer_type, codes "IntegerType")
    ∷ (sym_len_proc, codes "LEN")
    ∷ (sym_lsl_proc, codes "LSL")
    ∷ (sym_new_proc, codes "NEW")
    ∷ (sym_nil_type, codes "NilType")
    ∷ (sym_odd_proc, codes "ODD")
    ∷ (sym_ord_proc, codes "ORD")
    ∷ (sym_pack_proc, codes "PACK")
    ∷ (sym_procedure_call, codes "ProcedureCall")
    ∷ (sym_put_proc, codes "SYSTEM.PUT")
    ∷ (tok_procedure, codes "Procedure")
    ∷ (sym_range_set, codes "RangeSet")
    ∷ (sym_real_type, codes "RealType")
    ∷ (sym_ror_proc, codes "ROR")
    ∷ (sym_set_type, codes "SetType")
    ∷ (sym_single_element_set, codes "SingleElementSet")
    ∷ (sym_size_proc, codes "SYSTEM.SIZE")
    ∷ (sym_statement_sequence, codes "StatementSequence")
    ∷ (sym_string_type, codes "StringType")
    ∷ (sym_unpk_proc, codes "UNPK")
    ∷ (sym_val_proc, codes "SYSTEM.VAL")
    ∷ (tok_true, codes "TRUE")
    ∷ (tok_while, codes "WHILE")
    ∷ []

-- The first case of the symbol; `default` fails the assertion.
unfoldable pub find_label : ℕ → List (ℕ × Bytes) → Result Bytes
find_label sym [] = abort
find_label sym ((s, text) ∷ rest) = if s == sym then ok text else find_label sym rest

unfoldable pub print_label : ℕ → Result Bytes
print_label sym = if ltb sym 128 then ok (sym ∷ []) else find_label sym labels

-- No two cases print one text, and each prints at least two characters.
lacks : Bytes → List (ℕ × Bytes) → Bool
lacks t [] = true
lacks t ((s, u) ∷ rest) = (if bytes_eq t u then false else true) && lacks t rest

is_long : Bytes → Bool
is_long (_ ∷ _ ∷ _) = true
is_long _ = false

apart : List (ℕ × Bytes) → Bool
apart [] = true
apart ((s, t) ∷ rest) = is_long t && (lacks t rest && apart rest)

labels-apart : apart labels ≡ true
unfolding apart lacks is_long bytes_eq
labels-apart = refl

find_label-is_long :
    (l : List (ℕ × Bytes)) (x : ℕ) (t : Bytes)
    → apart l ≡ true
    → find_label x l ≡ ok t
    → is_long t ≡ true
unfolding find_label apart
find_label-is_long [] x t a h = absurd (cc)
find_label-is_long ((s, u) ∷ l) x t a h = ground (arith, find_label-is_long l x t)

find_label-ne :
    (l : List (ℕ × Bytes)) (x : ℕ) (t : Bytes) → lacks t l ≡ true → find_label x l ≢ ok t
unfolding find_label lacks
find_label-ne [] x t a h = cc
find_label-ne ((s, u) ∷ l) x t a h = ground (arith, find_label-ne l x t, bytes_eq_iff t u)

find_label-injective :
    (l : List (ℕ × Bytes)) (x y : ℕ) (t : Bytes)
    → apart l ≡ true
    → find_label x l ≡ ok t
    → find_label y l ≡ ok t
    → x ≡ y
unfolding find_label apart
find_label-injective [] x y t a h k = absurd (cc)
find_label-injective ((s, u) ∷ l) x y t a h k =
    ground (arith, find_label-injective l x y t, find_label-ne l x u, find_label-ne l y u)

-- For all symbols: two symbols that print the same label are the same, so a dump of a tree can be
-- read back to its symbols.
print_label-injective : (x y : ℕ) (t : Bytes) → print_label x ≡ ok t → print_label y ≡ ok t → x ≡ y
unfolding print_label is_long
print_label-injective x y t h k = ground (
  arith,
  find_label-injective labels x y t labels-apart,
  find_label-is_long labels x t labels-apart,
  find_label-is_long labels y t labels-apart,
)
