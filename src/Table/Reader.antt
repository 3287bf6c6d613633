-- ===== src/Table/Reader.antt =====
-- ReadIdent to ReadSExp: how a symbol file is read back into nodes.
-- `max` is OBNC_INT_MAX, and `scan_real` is `fscanf` with the format of OBNC_REAL, over the codes that
-- stand for real numbers. Each call takes a unit of fuel, since C recurs as deep as the file nests.
-- The messages and the file position in them are left out.
use obnc.Prelude.{
  ℕ, zero, suc, ◌+◌, ◌-◌, ◌%◌, Bool, true, false, not, ◌&&◌, ◌||◌, Option, none, some, [], ◌∷◌,
  Bytes, leb, ◌==◌, if◌then◌else◌, Result, ok, abort, diverge, halts, ◌>>=◌, ◌>>◌,
}
use obnc.Prelude.Int.{ℤ, pos, negsuc, ltb_ℤ}
use obnc.Trees.Symbols.{
  tok_integer, constant_kind, type_kind, variable_kind, procedure_kind, field_kind,
  value_param_kind, var_param_kind, sym_ident_list, sym_field_list_sequence, sym_boolean_type,
  sym_char_type, sym_integer_type, sym_real_type, sym_byte_type, sym_set_type,
}
use obnc.Trees.Nodes.{Ref, null, Store, symbol, new_node, set_type, reverse_list}
use obnc.Trees.Idents.{new_ident, set_kind, set_imported, set_exported}
use obnc.Trees.Constants.{
  new_boolean, new_char, new_integer, integer, new_real, new_string, new_set, set_value_of,
}
use obnc.Types.Structured.{new_array, new_record, new_pointer, new_procedure}
use obnc.Table.Symbols.{
  sf_ident, sf_boolean, sf_char, sf_integer, sf_real, sf_string, sf_set, sf_boolean_type,
  sf_char_type, sf_integer_type, sf_real_type, sf_byte_type, sf_set_type, sf_array, sf_record,
  sf_pointer, sf_procedure, sf_const_kind, sf_type_kind, sf_var_kind, sf_procedure_kind,
  sf_field_kind, sf_value_param_kind, sf_var_param_kind,
}
use obnc.Table.Scan.{
  skip_space, expect, looking_at, at_end_of_list, scan_int, scan_unsigned, scan_hex, read_name,
  quoted,
}

abbrev pub int_32 : ℕ
int_32 = 2147483647

abbrev pub nonzero : ℤ → Bool
nonzero (pos n) = not (n == 0)
nonzero (negsuc n) = true

-- `(char) i`
abbrev pub char_of_int : ℤ → ℕ
char_of_int (pos n) = n % 256
char_of_int (negsuc n) = 255 - n % 256

-- The kind of an identifier for its number in the file.
unfoldable pub kind_of : ℤ → Result ℕ
kind_of (negsuc n) = halts
kind_of (pos k) =
    if k == sf_const_kind
    then ok constant_kind
    else if k == sf_type_kind
    then ok type_kind
    else if k == sf_var_kind
    then ok variable_kind
    else if k == sf_procedure_kind
    then ok procedure_kind
    else if k == sf_field_kind
    then ok field_kind
    else if k == sf_value_param_kind
    then ok value_param_kind
    else if k == sf_var_param_kind
    then ok var_param_kind
    else halts

-- The exported flag of an identifier, and what it sets.
unfoldable pub read_flag : ℕ → Bool → Ref → Bytes → Store → Result (Bytes × Store)
read_flag k is_root p inp t =
    if (k == type_kind) && is_root
    then (do
      (e, r) ← scan_int int_32 inp
      if nonzero e then (do t' ← set_imported p t; ok (r, t')) else ok (r, t))
    else if k == field_kind
    then (do t' ← set_exported p t; ok (inp, t'))
    else if (k == value_param_kind) || (k == var_param_kind)
    then ok (inp, t)
    else (do t' ← set_imported p t; ok (inp, t'))

-- The node of a text between quotes.
unfoldable pub string_node : Option (Bytes × Bytes) → Store → Result (Ref × Bytes × Store)
string_node none t = halts
string_node (some (text, rest)) t = (do (p, t') ← new_string text t; ok (p, rest, t'))

-- The case of a string in `ReadSymbol`.
unfoldable pub read_string : Bytes → Store → Result (Ref × Bytes × Store)
read_string inp t =
    let s = skip_space inp in
    if looking_at 34 s then (do r ← expect 34 s; string_node (quoted r) t) else (do
      (x, rest) ← scan_hex s
      if leb x 255
          then (do (p, t') ← new_string (if x == 0 then [] else x ∷ []) t; ok (p, rest, t'))
          else halts)

-- The test of an array length.
unfoldable pub length_checked : Ref → Store → Result (Unit {0})
length_checked length t = if length == null then ok tt else do
  x ← symbol length t
  if x == tok_integer
      then (do n ← integer length t; if ltb_ℤ n (pos 0) then halts else ok tt)
      else halts

-- `*resultPtr = Trees_New…(…)`, behind which `inp` is left.
abbrev pub made : Bytes → Result (Ref × Store) → Result (Ref × Bytes × Store)
made inp run = do (p, t) ← run; ok (p, inp, t)

module _ (max : ℕ) (scan_real : Bytes → Option (ℕ × Bytes)) where
  unfoldable mutual
    pub read_sexp : ℕ → Bool → Bytes → Store → Result (Ref × Bytes × Store)
    read_sexp zero is_root inp t = diverge
    read_sexp (suc fuel) is_root inp t = do
      r ← expect b'(' (skip_space inp)
      if at_end_of_list r
          then (do r' ← expect b')' r; ok (null, r', t))
          else read_body fuel is_root r t

    -- What stands between the parentheses, and the closing one.
    pub read_body : ℕ → Bool → Bytes → Store → Result (Ref × Bytes × Store)
    read_body zero is_root inp t = diverge
    read_body (suc fuel) is_root inp t = do
      (sym, r₁) ← scan_int int_32 inp
      (p, r₂, t') ← read_symbol fuel sym is_root r₁ t
      r₃ ← expect b')' r₂
      ok (p, r₃, t')

    pub read_symbol : ℕ → ℤ → Bool → Bytes → Store → Result (Ref × Bytes × Store)
    read_symbol zero sym is_root inp t = diverge
    read_symbol (suc fuel) (negsuc n) is_root inp t = abort
    read_symbol (suc fuel) (pos sym) is_root inp t =
        let read_ident_case = read_ident fuel is_root inp t in
        let read_array_case = (do
          (length, r₁, t₁) ← read_sexp fuel false inp t
          length_checked length t₁
          (elem_type, r₂, t₂) ← read_sexp fuel false r₁ t₁
          made r₂ (new_array t₂ length elem_type)) in
        let read_record_case = read_record fuel inp t in
        let read_pointer_case = (do
          (base, r₁, t₁) ← read_sexp fuel false inp t
          made r₁ (new_pointer t₁ base)) in
        let read_procedure_case = (do
          (result, r₁, t₁) ← read_sexp fuel false inp t
          r₂ ← expect b'(' (skip_space r₁)
          (params, r₃, t₃) ← param_loop fuel r₂ null t₁
          (params', t₄) ← reverse_list (t₃.count + 1) params t₃
          r₄ ← expect b')' (skip_space r₃)
          made r₄ (new_procedure t₄ params' result)) in
        if sym == sf_ident
        then read_ident_case
        else if sym == sf_boolean
        then (do (b, r) ← scan_int int_32 inp; made r (new_boolean (nonzero b) t))
        else if sym == sf_char
        then (do (i, r) ← scan_int int_32 inp; made r (new_char (char_of_int i) t))
        else if sym == sf_integer
        then (do (i, r) ← scan_int max inp; made r (new_integer i t))
        else if sym == sf_real
        then elim (scan_real inp) [ none ↦ halts | some (x, r) ↦ made r (new_real x t) ]
        else if sym == sf_string
        then read_string inp t
        else if sym == sf_set
        then (do (u, r) ← scan_unsigned max inp; made r (new_set u t))
        else if sym == sf_boolean_type
        then made inp (new_node sym_boolean_type null null t)
        else if sym == sf_char_type
        then made inp (new_node sym_char_type null null t)
        else if sym == sf_integer_type
        then made inp (new_node sym_integer_type null null t)
        else if sym == sf_real_type
        then made inp (new_node sym_real_type null null t)
        else if sym == sf_byte_type
        then made inp (new_node sym_byte_type null null t)
        else if sym == sf_set_type
        then made inp (new_node sym_set_type null null t)
        else if sym == sf_array
        then read_array_case
        else if sym == sf_record
        then read_record_case
        else if sym == sf_pointer
        then read_pointer_case
        else if sym == sf_procedure
        then read_procedure_case
        else abort

    pub read_ident : ℕ → Bool → Bytes → Store → Result (Ref × Bytes × Store)
    read_ident zero is_root inp t = diverge
    read_ident (suc fuel) is_root inp t =
        let (name, r₁) = read_name (skip_space inp) in
        do
          (p, t₁) ← new_ident name t
          (number, r₂) ← scan_int int_32 r₁
          k ← kind_of number
          t₂ ← set_kind k p t₁
          (r₃, t₃) ← read_flag k is_root p r₂ t₂
          if (k == type_kind) && not is_root then ok (p, r₃, t₃) else (do
            (q, r₄, t₄) ← read_sexp fuel false r₃ t₃
            t₅ ← if k == constant_kind then set_value_of q p t₄ else set_type q p t₄
            ok (p, r₄, t₅))

    -- The loop over the parameters of a procedure type.
    pub param_loop : ℕ → Bytes → Ref → Store → Result (Ref × Bytes × Store)
    param_loop zero inp params t = diverge
    param_loop (suc fuel) inp params t =
        let more = (do
          (par, r, t₁) ← read_sexp fuel false inp t
          (params', t₂) ← new_node sym_ident_list par params t₁
          param_loop fuel r params' t₂) in
        if at_end_of_list inp then ok (params, inp, t) else more

    -- The loop of `ReadFieldList`.
    pub field_loop : ℕ → Bytes → Ref → Store → Result (Ref × Bytes × Store)
    field_loop zero inp idents t = diverge
    field_loop (suc fuel) inp idents t =
        let more = (do
          (field, r, t₁) ← read_sexp fuel false inp t
          (idents', t₂) ← new_node sym_ident_list field idents t₁
          field_loop fuel (skip_space r) idents' t₂) in
        if at_end_of_list inp then ok (idents, inp, t) else more

    pub read_field_list : ℕ → Bytes → Store → Result (Ref × Bytes × Store)
    read_field_list zero inp t = diverge
    read_field_list (suc fuel) inp t = do
      r₁ ← expect b'(' (skip_space inp)
      (idents, r₂, t₁) ← field_loop fuel r₁ null t
      (idents', t₂) ← reverse_list (t₁.count + 1) idents t₁
      r₃ ← expect b')' (skip_space r₂)
      ok (idents', skip_space r₃, t₂)

    -- The loop of `ReadRecord`.
    pub field_lists_loop : ℕ → Bytes → Ref → Store → Result (Ref × Bytes × Store)
    field_lists_loop zero inp seq t = diverge
    field_lists_loop (suc fuel) inp seq t =
        let more = (do
          (list, r, t₁) ← read_field_list fuel inp t
          (seq', t₂) ← new_node sym_field_list_sequence list seq t₁
          field_lists_loop fuel r seq' t₂) in
        if at_end_of_list inp then ok (seq, inp, t) else more

    pub read_record : ℕ → Bytes → Store → Result (Ref × Bytes × Store)
    read_record zero inp t = diverge
    read_record (suc fuel) inp t = do
      (base, r₁, t₁) ← read_sexp fuel false inp t
      r₂ ← expect b'(' (skip_space r₁)
      (seq, r₃, t₂) ← field_lists_loop fuel r₂ null t₁
      (seq', t₃) ← reverse_list (t₂.count + 1) seq t₂
      r₄ ← expect b')' (skip_space r₃)
      made r₄ (new_record t₃ base seq')
