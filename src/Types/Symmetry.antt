-- ===== src/Types/Symmetry.antt =====
-- `Types_ExpressionCompatible` for comparisons does not depend on the order of the operands.
use obnc.Prelude.{
  ℕ, ◌≡◌, ◌⊎◌, Bool, true, false, not, ◌&&◌, ◌||◌, arith, ◌==◌, if◌then◌else◌, Result, ok, ◌>>=◌,
  ◌and_also◌, Bool-cases, inl, inr,
}
use obnc.Prelude.Int.{pos, ltb_ℤ}
use obnc.Trees.Symbols.{
  tok_array, sym_char_type, sym_real_type, sym_string_type, sym_nil_type, tok_le, tok_ge,
}
use obnc.Trees.Nodes.{Ref, Store, symbol}
use obnc.Types.Basics.{structure_symbol, is_string, string_length}
use obnc.Types.Structured.{is_character_array}
use obnc.Types.Compatibility.{same, is_integer_symbol}
use obnc.Types.Operators.{
  char_compatible, array_operands, string_compatible, order_compatible, expression_compatible,
}
use obnc.Types.Resolution.{is_type-ne_null, symbol_ok}
use obnc.Types.Sameness.{Typed}
use obnc.Types.Predicates.{structure_symbol_ok, is_char_ok, is_integer_ok, is_string_ok}

-- The type `t` of an operand, with what the checks ask of it: whether it is a character array, and
-- for a string whether it has at most one character. Strings and NIL are never named.
pub record Operand (s : Store) (t u : Ref) (chars short : Bool) : Type 0 where
  pub typed : Typed s t u
  pub itself : Typed s u u
  pub plain_string : ((s.node t).symbol == sym_string_type) ≡ ((s.node u).symbol == sym_string_type)
  pub plain_nil : ((s.node t).symbol == sym_nil_type) ≡ ((s.node u).symbol == sym_nil_type)
  pub has_chars : is_character_array s t ≡ ok chars
  pub chars_array : chars ≡ true → (s.node u).symbol ≡ tok_array
  pub has_short :
      (s.node u).symbol ≡ sym_string_type
      → (do n ← string_length s t; ok (not (ltb_ℤ (pos 1) n))) ≡ ok short

module _ (s : Store) {b v : Ref} {chars short : Bool} (op : Operand s b v chars short) where
  abbrev sym : ℕ
  sym = (s.node v).symbol

  string_ok : is_string s b ≡ ok (sym == sym_string_type)
  string_ok = rw (is_string_ok s op.typed, op.plain_string)

  abbrev short_string : Result Bool
  short_string = do n ← string_length s b; ok (not (ltb_ℤ (pos 1) n))

  short_ok :
      (ok (sym == sym_string_type) and_also short_string) ≡ ok ((sym == sym_string_type) && short)
  short_ok = elim (Bool-cases (sym == sym_string_type)) [
    | inl e ↦ rw (e, op.has_short (ground arith))
    | inr e ↦ rw e
  ]

  pub char_compatible_ok :
      char_compatible s b ≡ ok ((sym == sym_char_type) || ((sym == sym_string_type) && short))
  unfolding char_compatible
  char_compatible_ok = rw (is_char_ok s op.typed, string_ok, short_ok) (ground arith)

  pub array_operands_ok :
      (a : Ref) {c : Bool}
      → is_character_array s a ≡ ok c
      → array_operands s a b ≡ ok (c && (chars || (sym == sym_string_type)))
  unfolding array_operands
  array_operands_ok a ha = rw (ha, op.has_chars, string_ok) (ground arith)

  pub nil_ok : (do x ← symbol b s; ok (x == sym_nil_type)) ≡ ok (sym == sym_nil_type)
  nil_ok = rw (symbol_ok s b (is_type-ne_null s b op.typed.is), op.plain_nil)

module _ (s : Store) {a u b v : Ref} {chars short chars' short' : Bool}
    (first : Operand s a u chars short) (second : Operand s b v chars' short') where
  pub string_compatible_ok :
      (s.node u).symbol ≡ sym_string_type
      → string_compatible s a b
        ≡ ok (
            chars'
            || (((s.node v).symbol == sym_string_type)
                || (((s.node v).symbol == sym_char_type) && short)))
  unfolding string_compatible
  string_compatible_ok e =
      rw (second.has_chars, string_ok s second, is_char_ok s second.typed, first.has_short e)
        (ground arith)

-- The same tests on the symbols `p` and `q` of the two structures; `x` tells whether the types are
-- the same, `y` whether one of two pointer types extends the other.
abbrev order_test : (p q : ℕ) (chars chars' short short' x : Bool) → Bool
order_test p q chars chars' short short' x =
    if is_integer_symbol p
    then is_integer_symbol q
    else if p == sym_char_type
    then (q == sym_char_type) || ((q == sym_string_type) && short')
    else if p == sym_real_type
    then x
    else if p == tok_array
    then chars && (chars' || (q == sym_string_type))
    else if p == sym_string_type
    then chars' || ((q == sym_string_type) || ((q == sym_char_type) && short))
    else false

order_test_comm :
    (p q : ℕ) (chars chars' short short' x : Bool)
    → (chars ≡ true → p ≡ tok_array)
    → (chars' ≡ true → q ≡ tok_array)
    → (x ≡ true → p ≡ q)
    → order_test p q chars chars' short short' x ≡ order_test q p chars' chars short' short x
order_test_comm p q chars chars' short short' x h h' hx = ground arith

module _ (s : Store) {a u b v : Ref} {chars short chars' short' x : Bool}
    (first : Operand s a u chars short) (second : Operand s b v chars' short')
    (same_ok : same s a b ≡ ok x) where
  order_ok :
      order_compatible s (s.node u).symbol a b
      ≡ ok (order_test (s.node u).symbol (s.node v).symbol chars chars' short short' x)
  unfolding order_compatible
  order_ok = ground (
    arith,
    is_integer_ok s second.typed,
    char_compatible_ok s second,
    same_ok,
    array_operands_ok s second a first.has_chars,
    string_compatible_ok s first second,
  )

order_run :
    (s : Store) (operator : ℕ) (a b : Ref)
    → (operator ≡ b'<') ⊎ (operator ≡ b'>') ⊎ (operator ≡ tok_le) ⊎ (operator ≡ tok_ge)
    → expression_compatible s operator a b
      ≡ (structure_symbol s a >>= λ x. order_compatible s x a b)
unfolding expression_compatible
order_run s operator a b (inl e) = rw e
order_run s operator a b (inr (inl e)) = rw e
order_run s operator a b (inr (inr (inl e))) = rw e
order_run s operator a b (inr (inr (inr e))) = rw e

-- For two resolved operand types, where types that are the same have one structure symbol: each
-- of the four order operators takes them exactly if it takes them in the other order.
order_compatible_comm :
    (s : Store) (operator : ℕ) {a u b v : Ref} {chars short chars' short' x : Bool}
    → (operator ≡ b'<') ⊎ (operator ≡ b'>') ⊎ (operator ≡ tok_le) ⊎ (operator ≡ tok_ge)
    → Operand s a u chars short
    → Operand s b v chars' short'
    → same s a b ≡ ok x
    → same s b a ≡ ok x
    → (x ≡ true → (s.node u).symbol ≡ (s.node v).symbol)
    → expression_compatible s operator a b ≡ expression_compatible s operator b a
order_compatible_comm s operator {a} {u} {b} {v} {chars} {short} {chars'} {short'} {x} h first
      second e e' coherent =
    rw (
      order_run s operator a b h,
      order_run s operator b a h,
      structure_symbol_ok s first.typed,
      structure_symbol_ok s second.typed,
      order_ok s first second e,
      order_ok s second first e',
      order_test_comm (s.node u).symbol (s.node v).symbol chars chars' short short' x
          first.chars_array second.chars_array coherent,
    )
