-- ===== src/Types/Predicates.antt =====
-- The predicates on types at a resolved type.
use obnc.Prelude.{ℕ, ◌≡◌, true, ◌||◌, arith, ◌==◌, ok}
use obnc.Trees.Symbols.{
  tok_array, tok_record, tok_pointer, tok_procedure, sym_char_type, sym_integer_type, sym_byte_type,
  sym_set_type, sym_string_type,
}
use obnc.Trees.Nodes.{Ref, Store}
use obnc.Types.Basics.{
  is_type, structure, structure_symbol, structure_is, is_char, is_integer, is_set, is_array,
  is_record, is_string, is_predeclared_symbol,
}
use obnc.Types.Structured.{is_pointer, is_procedure, is_predeclared_procedure}
use obnc.Types.Resolution.{is_type-ne_null, symbol_ok}
use obnc.Types.Sameness.{Typed, assert_type_ok}

module _ (s : Store) {t u : Ref} (h : Typed s t u) where
  abbrev sym : ℕ
  sym = (s.node u).symbol

  pub structure_symbol_ok : structure_symbol s t ≡ ok sym
  unfolding structure_symbol
  structure_symbol_ok = rw (h.resolves, symbol_ok s u h.solid)

  pub structure_is_ok : (x : ℕ) → structure_is s x t ≡ ok (sym == x)
  unfolding structure_is
  structure_is_ok x = rw (assert_type_ok s h, structure_symbol_ok)

  pub is_char_ok : is_char s t ≡ ok (sym == sym_char_type)
  unfolding is_char
  is_char_ok = structure_is_ok sym_char_type

  pub is_set_ok : is_set s t ≡ ok (sym == sym_set_type)
  unfolding is_set
  is_set_ok = structure_is_ok sym_set_type

  pub is_array_ok : is_array s t ≡ ok (sym == tok_array)
  unfolding is_array
  is_array_ok = structure_is_ok tok_array

  pub is_integer_ok : is_integer s t ≡ ok ((sym == sym_integer_type) || (sym == sym_byte_type))
  unfolding is_integer
  is_integer_ok = rw (assert_type_ok s h, structure_symbol_ok)

  pub is_record_ok : is_record s t ≡ ok (sym == tok_record)
  unfolding is_record
  is_record_ok = rw structure_symbol_ok

  pub is_pointer_ok : is_pointer s t ≡ ok (sym == tok_pointer)
  unfolding is_pointer
  is_pointer_ok = rw structure_symbol_ok

  pub is_string_ok : is_string s t ≡ ok ((s.node t).symbol == sym_string_type)
  unfolding is_string
  is_string_ok = rw (assert_type_ok s h, symbol_ok s t (is_type-ne_null s t h.is))

  pub is_predeclared_procedure_ok : is_predeclared_procedure s t ≡ ok (is_predeclared_symbol sym)
  unfolding is_predeclared_procedure
  is_predeclared_procedure_ok = rw (assert_type_ok s h, structure_symbol_ok)

-- A type whose own node is its structure: every type that is no identifier.
pub Typed-itself :
    (s : Store) {t u : Ref}
    → Typed s t u
    → is_type s u ≡ ok true
    → structure s u ≡ ok u
    → Typed s u u
Typed-itself s h is e = record { is = is; resolves = e; solid = h.solid }

module _ (s : Store) {t u : Ref} (h : Typed s t u) (self : Typed s u u) where
  pub is_procedure_ok :
      is_procedure s t
      ≡ ok (((s.node u).symbol == tok_procedure) || is_predeclared_symbol (s.node u).symbol)
  unfolding is_procedure
  is_procedure_ok =
      rw (assert_type_ok s h, h.resolves, symbol_ok s u h.solid, is_predeclared_procedure_ok s self)
        (ground arith)
