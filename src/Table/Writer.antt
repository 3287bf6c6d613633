-- ===== src/Table/Writer.antt =====
-- SFKind and Write: how the exported identifiers of a module are written to a symbol file.
-- `print_real` is `fprintf` with the format of OBNC_REAL. A call returns what it prints, the trees
-- (`Trees_Value` copies string constants), and the map of the indirectly exported types.
use obnc.Prelude.{
  ℕ, zero, suc, ◌+◌, ◌-◌, ◌/◌, ◌%◌, Bool, true, false, not, ◌&&◌, [], ◌∷◌, ◌++◌, Bytes, codes,
  length, leb, ltb, ◌==◌, if◌then◌else◌, Result, ok, abort, diverge, ◌>>=◌, ◌>>◌, assert,
}
use obnc.Prelude.Int.{ℤ, pos, negsuc}
use obnc.Maps
use obnc.Maps.{MapOf}
use obnc.Trees.Symbols.{
  tok_ident, tok_array, tok_record, tok_pointer, tok_procedure, tok_integer, tok_real, tok_string,
  tok_true, tok_false, constant_kind, type_kind, variable_kind, procedure_kind, field_kind,
  value_param_kind, var_param_kind, sym_ident_list, sym_field_list_sequence, sym_boolean_type,
  sym_char_type, sym_integer_type, sym_real_type, sym_byte_type, sym_set_type, sym_char_constant,
  sym_set_constant,
}
use obnc.Trees.Nodes.{Ref, null, Store, symbol, type, left, right}
use obnc.Trees.Idents.{kind, name, unaliased_name, exported}
use obnc.Trees.Constants.{char, integer, real, string, set, value}
use obnc.Types.Structured.{
  array_length, element_type, record_base_type, fields, pointer_base_type, result_type, parameters,
}
use obnc.Table.Symbols.{
  sf_ident, sf_boolean, sf_char, sf_integer, sf_real, sf_string, sf_set, sf_boolean_type,
  sf_char_type, sf_integer_type, sf_real_type, sf_byte_type, sf_set_type, sf_array, sf_record,
  sf_pointer, sf_procedure, sf_const_kind, sf_type_kind, sf_var_kind, sf_procedure_kind,
  sf_field_kind, sf_value_param_kind, sf_var_param_kind,
}

-- The digits of a number in a base, in front of `tail`: the last one is found first. A number has
-- fewer digits than the fuel.
unfoldable pub print_digits : ℕ → (base : ℕ) → (ℕ → ℕ) → ℕ → Bytes → Bytes
print_digits zero base digit n tail = tail
print_digits (suc fuel) base digit n tail =
    let more = print_digits fuel base digit (n / base) (digit (n % base) ∷ tail) in
    if n / base == 0 then digit (n % base) ∷ tail else more

abbrev pub decimal_digit : ℕ → ℕ
decimal_digit d = b'0' + d

abbrev pub upper_hex_digit : ℕ → ℕ
upper_hex_digit d = if leb 10 d then b'A' + d - 10 else b'0' + d

-- `%d`, `%u` and `%X`
unfoldable pub print_nat : ℕ → Bytes
print_nat n = print_digits (suc n) 10 decimal_digit n []

unfoldable pub print_int : ℤ → Bytes
print_int (pos n) = print_nat n
print_int (negsuc n) = b'-' ∷ print_nat (suc n)

unfoldable pub print_hex : ℕ → Bytes
print_hex n = print_digits (suc n) 16 upper_hex_digit n []

-- The value of a `char`, which is a signed byte.
abbrev pub int_of_char : ℕ → ℤ
int_of_char c = if ltb c 128 then pos c else negsuc (255 - c)

unfoldable pub sf_kind : ℕ → Result ℕ
sf_kind k =
    if k == constant_kind
    then ok sf_const_kind
    else if k == type_kind
    then ok sf_type_kind
    else if k == variable_kind
    then ok sf_var_kind
    else if k == procedure_kind
    then ok sf_procedure_kind
    else if k == field_kind
    then ok sf_field_kind
    else if k == value_param_kind
    then ok sf_value_param_kind
    else if k == var_param_kind
    then ok sf_var_param_kind
    else abort

-- `(number …)`
abbrev pub enclosed : ℕ → Bytes → Bytes
enclosed sym body = b'(' ∷ (print_nat sym ++ (body ++ b')' ∷ []))

abbrev pub Written : Type 0
Written = Bytes × Store × MapOf Ref

abbrev pub wrap : (Bytes → Bytes) → Result Written → Result Written
wrap f run = do (out, t, m) ← run; ok (f out, t, m)

abbrev pub space : ℕ
space = b' '

unfoldable pub string_body : Bytes → Bytes
string_body [] = codes "0" ++ (print_hex 0 ++ codes "X")
string_body (c ∷ []) = codes "0" ++ (print_hex c ++ codes "X")
string_body s = 34 ∷ (s ++ 34 ∷ [])

module _ (print_real : ℕ → Bytes) where
  unfoldable mutual
    pub write : ℕ → Ref → Bool → Store → MapOf Ref → Result Written
    write zero node is_root t m = diverge
    write (suc fuel) node is_root t m =
        let ident_case = write_ident fuel node is_root t m in
        let array_case = (do
          l ← array_length t node
          (length_out, t₁, m₁) ← write fuel l false t m
          e ← element_type t₁ node
          (elem_out, t₂, m₂) ← write fuel e false t₁ m₁
          ok (enclosed sf_array (space ∷ (length_out ++ space ∷ elem_out)), t₂, m₂)) in
        let record_case = (do
          b ← record_base_type t node
          (base_out, t₁, m₁) ← write fuel b false t m
          seq ← fields t₁ node
          (out, t₂, m₂) ← write_field_lists fuel seq true t₁ m₁
          ok (
            enclosed sf_record (space ∷ (base_out ++ space ∷ b'(' ∷ (out ++ b')' ∷ []))),
            t₂,
            m₂,
          )) in
        let pointer_case = (do
          b ← pointer_base_type t node
          wrap (λ out. enclosed sf_pointer (space ∷ out)) (write fuel b false t m)) in
        let procedure_case = (do
          params ← parameters t node
          r ← result_type t node
          (result_out, t₁, m₁) ← write fuel r false t m
          (out, t₂, m₂) ← write_params fuel params t₁ m₁
          ok (
            enclosed sf_procedure (space ∷ (result_out ++ space ∷ b'(' ∷ (out ++ b')' ∷ []))),
            t₂,
            m₂,
          )) in
        let leaf : ℕ → Bytes → Result Written = λ sym body. ok (enclosed sym body, t, m) in
        if node == null then ok (codes "()", t, m) else do
          x ← symbol node t
          if x == tok_ident
              then ident_case
              else if x == tok_false
              then leaf sf_boolean (codes " 0")
              else if x == tok_true
              then leaf sf_boolean (codes " 1")
              else if x == sym_char_constant
              then (do c ← char node t; leaf sf_char (space ∷ print_int (int_of_char c)))
              else if x == tok_integer
              then (do i ← integer node t; leaf sf_integer (space ∷ print_int i))
              else if x == tok_real
              then (do r ← real node t; leaf sf_real (space ∷ print_real r))
              else if x == tok_string
              then (do s ← string node t; leaf sf_string (space ∷ string_body s))
              else if x == sym_set_constant
              then (do u ← set node t; leaf sf_set (space ∷ print_nat u))
              else if x == sym_boolean_type
              then leaf sf_boolean_type []
              else if x == sym_char_type
              then leaf sf_char_type []
              else if x == sym_integer_type
              then leaf sf_integer_type []
              else if x == sym_real_type
              then leaf sf_real_type []
              else if x == sym_byte_type
              then leaf sf_byte_type []
              else if x == sym_set_type
              then leaf sf_set_type []
              else if x == tok_array
              then array_case
              else if x == tok_record
              then record_case
              else if x == tok_pointer
              then pointer_case
              else if x == tok_procedure
              then procedure_case
              else abort

    pub write_ident : ℕ → Ref → Bool → Store → MapOf Ref → Result Written
    write_ident zero node is_root t m = diverge
    write_ident (suc fuel) node is_root t m =
        let const_case = (do (v, t') ← value node t; write fuel v false t' m) in
        let typed_case = (do ty ← type node t; write fuel ty false t m) in
        do
          n ← unaliased_name node t
          k ← kind node t
          number ← sf_kind k
          e ← exported node t
          let head = space ∷ (n ++ space ∷ print_nat number)
          if number == sf_type_kind
              then (if is_root
                  then wrap
                      (λ out.
                        enclosed sf_ident
                          (head ++ space ∷ print_nat (if e then 1 else 0) ++ space ∷ out))
                      typed_case
                  else (do
                    own ← name node t
                    ok (enclosed sf_ident head, t, if e then m else Maps.put own node m)))
              else wrap (λ out. enclosed sf_ident (head ++ space ∷ out))
                  (if number == sf_const_kind then const_case else typed_case)

    -- The outer loop over the field lists; `empty` tells that nothing was written yet.
    pub write_field_lists : ℕ → Ref → Bool → Store → MapOf Ref → Result Written
    write_field_lists zero seq empty t m = diverge
    write_field_lists (suc fuel) seq empty t m =
        let more = (do
          x ← symbol seq t
          assert (x == sym_field_list_sequence)
          list ← left seq t
          (out, t₁, m₁) ← write_fields fuel list empty true t m
          next ← right seq t₁
          let nothing = leb (length out) 0
          wrap (λ rest. (if nothing then [] else out ++ b')' ∷ []) ++ rest)
              (write_field_lists fuel next (empty && nothing) t₁ m₁)) in
        if seq == null then ok ([], t, m) else more

    -- The inner loop over one list of fields, with the flags for both lists.
    pub write_fields : ℕ → Ref → Bool → Bool → Store → MapOf Ref → Result Written
    write_fields zero list seq_empty empty t m = diverge
    write_fields (suc fuel) list seq_empty empty t m =
        let more = (do
          x ← symbol list t
          assert (x == sym_ident_list)
          field ← left list t
          e ← exported field t
          let opening =
              if empty then (if seq_empty then [] else space ∷ []) ++ b'(' ∷ [] else space ∷ []
          (out, t₁, m₁) ←
              if e then wrap (λ o. opening ++ o) (write fuel field false t m) else ok ([], t, m)
          next ← right list t₁
          wrap (λ rest. out ++ rest)
              (write_fields fuel next (seq_empty && not e) (empty && not e) t₁ m₁)) in
        if list == null then ok ([], t, m) else more

    pub write_params : ℕ → Ref → Store → MapOf Ref → Result Written
    write_params zero params t m = diverge
    write_params (suc fuel) params t m =
        let more = (do
          p ← left params t
          (out, t₁, m₁) ← write fuel p false t m
          next ← right params t₁
          wrap (λ rest. out ++ ((if next == null then [] else space ∷ []) ++ rest))
              (write_params fuel next t₁ m₁)) in
        if params == null then ok ([], t, m) else more
