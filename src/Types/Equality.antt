-- ===== src/Types/Equality.antt =====
-- `=` and `#` take their operands in either order, but for NIL and a predeclared procedure.
use obnc.Prelude.{
  ℕ, ◌≡◌, ◌⊎◌, Bool, true, false, ◌&&◌, ◌||◌, arith, ◌==◌, if◌then◌else◌, ok, ◌>>=◌, ◌and_also◌,
  ◌or_else◌, Bool-cases, inl, inr,
}
use obnc.Trees.Symbols.{
  tok_array, tok_pointer, tok_procedure, sym_boolean_type, sym_char_type, sym_real_type,
  sym_set_type, sym_string_type, sym_nil_type,
}
use obnc.Trees.Nodes.{Ref, Store}
use obnc.Types.Basics.{structure_symbol, is_predeclared_symbol}
use obnc.Types.Structured.{is_pointer}
use obnc.Types.Compatibility.{same, extends, is_integer_symbol}
use obnc.Types.Operators.{equality_compatible, expression_compatible}
use obnc.Types.Predicates.{structure_symbol_ok, is_integer_ok, is_pointer_ok, is_procedure_ok}
use obnc.Types.Symmetry.{
  Operand, char_compatible_ok, array_operands_ok, string_compatible_ok, nil_ok,
}

-- The test of `=` and `#` on the symbols `p` and `q` of the two structures; `x` tells whether the
-- types are the same, `y` whether one of two pointer types extends the other, and `pre` whether
-- the second type is a predeclared procedure.
abbrev equality_test : (p q : ℕ) (chars chars' short short' x y pre : Bool) → Bool
equality_test p q chars chars' short short' x y pre =
    if (p == sym_boolean_type) || (p == sym_real_type) || (p == sym_set_type)
    then x
    else if is_integer_symbol p
    then is_integer_symbol q
    else if p == sym_char_type
    then (q == sym_char_type) || ((q == sym_string_type) && short')
    else if p == tok_array
    then chars && (chars' || (q == sym_string_type))
    else if p == sym_string_type
    then chars' || ((q == sym_string_type) || ((q == sym_char_type) && short))
    else if p == tok_pointer
    then (q == sym_nil_type) || ((q == tok_pointer) && y)
    else if p == tok_procedure
    then (q == sym_nil_type) || x
    else if p == sym_nil_type
    then (q == tok_pointer) || ((q == tok_procedure) || pre)
    else false

equality_test_comm :
    (p q : ℕ) (chars chars' short short' x y : Bool)
    → (chars ≡ true → p ≡ tok_array)
    → (chars' ≡ true → q ≡ tok_array)
    → (x ≡ true → p ≡ q)
    → equality_test p q chars chars' short short' x y false
      ≡ equality_test q p chars' chars short' short x y false
equality_test_comm p q chars chars' short short' x y h h' hx = ground arith

module _ (s : Store) {a u b v : Ref} {chars short chars' short' x y y' : Bool}
    (first : Operand s a u chars short) (second : Operand s b v chars' short')
    (same_ok : same s a b ≡ ok x)
    (forth : (s.node u).symbol ≡ tok_pointer
      → (s.node v).symbol ≡ tok_pointer
      → extends s a b ≡ ok y)
    (back : (s.node u).symbol ≡ tok_pointer
      → (s.node v).symbol ≡ tok_pointer
      → extends s b a ≡ ok y') where
  pointers_ok :
      (s.node u).symbol ≡ tok_pointer
      → (is_pointer s b and_also (extends s a b or_else extends s b a))
        ≡ ok (((s.node v).symbol == tok_pointer) && (y || y'))
  pointers_ok e = elim (Bool-cases ((s.node v).symbol == tok_pointer)) [
    | inl p ↦
        let e' : (s.node v).symbol ≡ tok_pointer = ground arith in
        rw (is_pointer_ok s second.typed, p, forth e e', back e e') (ground arith)
    | inr other ↦ rw (is_pointer_ok s second.typed, other)
  ]

  equality_ok :
      equality_compatible s (s.node u).symbol a b
      ≡ ok (
          equality_test
            (s.node u).symbol
            (s.node v).symbol
            chars
            chars'
            short
            short'
            x
            (y || y')
            (is_predeclared_symbol (s.node v).symbol))
  unfolding equality_compatible
  equality_ok = ground (
    arith,
    is_integer_ok s second.typed,
    char_compatible_ok s second,
    same_ok,
    array_operands_ok s second a first.has_chars,
    string_compatible_ok s first second,
    nil_ok s second,
    pointers_ok,
    is_pointer_ok s second.typed,
    is_procedure_ok s second.typed second.itself,
  )

equality_run :
    (s : Store) (operator : ℕ) (a b : Ref)
    → (operator ≡ b'=') ⊎ (operator ≡ b'#')
    → expression_compatible s operator a b
      ≡ (structure_symbol s a >>= λ x. equality_compatible s x a b)
unfolding expression_compatible
equality_run s operator a b (inl e) = rw e
equality_run s operator a b (inr e) = rw e

-- For two resolved operand types that are no predeclared procedures, where types that are the same
-- have one structure symbol and pointer types can be tested for extension: `=` and `#` take them
-- exactly if they take them in the other order.
pub equality_compatible_comm :
    (s : Store) (operator : ℕ) {a u b v : Ref} {chars short chars' short' x y y' : Bool}
    → (operator ≡ b'=') ⊎ (operator ≡ b'#')
    → Operand s a u chars short
    → Operand s b v chars' short'
    → same s a b ≡ ok x
    → same s b a ≡ ok x
    → (x ≡ true → (s.node u).symbol ≡ (s.node v).symbol)
    → ((s.node u).symbol ≡ tok_pointer → (s.node v).symbol ≡ tok_pointer → extends s a b ≡ ok y)
    → ((s.node u).symbol ≡ tok_pointer → (s.node v).symbol ≡ tok_pointer → extends s b a ≡ ok y')
    → is_predeclared_symbol (s.node u).symbol ≡ false
    → is_predeclared_symbol (s.node v).symbol ≡ false
    → expression_compatible s operator a b ≡ expression_compatible s operator b a
equality_compatible_comm s operator {a} {u} {b} {v} {chars} {short} {chars'} {short'} {x} {y} {y'} h
      first second e e' coherent forth back pre pre' =
    let p = (s.node u).symbol in
    let q = (s.node v).symbol in
    let swapped =
      equality_test_comm p q chars chars' short short' x (y || y') first.chars_array
        second.chars_array coherent in
    let there = equality_ok s first second e forth back in
    let home = equality_ok s second first e' (λ i j. back j i) (λ i j. forth j i) in
    rw
      (
        equality_run s operator a b h,
        equality_run s operator b a h,
        structure_symbol_ok s first.typed,
        structure_symbol_ok s second.typed,
        there,
        home,
        pre,
        pre',
      )
      (ground (arith, swapped))
