-- ===== src/Trees/Constants.antt =====
-- Constant nodes, and the values of constant identifiers: Trees_Value to Trees_Set.
use obnc.Prelude.{
  ℕ, ◌-◌, ◌%◌, ◌^◌, Bool, true, false, ◌||◌, Bytes, length, ltb, ◌==◌, if◌then◌else◌, Result, ok,
  abort, ◌>>=◌, ◌>>◌, assert,
}
use obnc.Prelude.Int.{ℤ, pos, negsuc}
use obnc.Trees.Symbols.{
  tok_string, tok_true, tok_false, tok_integer, tok_real, sym_char_constant, sym_set_constant,
  sym_boolean_type, sym_integer_type, sym_real_type, sym_string_type, sym_char_type, sym_set_type,
  constant_kind,
}
use obnc.Trees.Nodes.{
  Ref, null, Value, no_value, integer_value, real_value, string_value, char_value, set_value, Store,
  read, write, new_node, new_leaf, symbol, set_type,
}
use obnc.Trees.Idents.{ident, set_ident}

-- `result->valueType = …; result->value.… = …`
unfoldable pub set_payload : Ref → Value → Store → Result Store
unfolding read write
set_payload p v s = do n ← read p s; ok (write p (record n { value = v }) s)

-- A leaf with a value, whose type is a new leaf: the shape that the constructors below share.
unfoldable pub new_typed_leaf : ℕ → Value → ℕ → Store → Result (Ref × Store)
unfolding new_leaf set_payload set_type
new_typed_leaf symbol v type_symbol s = do
  (p, s₁) ← new_leaf symbol s
  s₂ ← set_payload p v s₁
  (t, s₃) ← new_leaf type_symbol s₂
  s₄ ← set_type t p s₃
  ok (p, s₄)

unfoldable pub new_boolean : Bool → Store → Result (Ref × Store)
unfolding new_typed_leaf
new_boolean b s = new_typed_leaf (if b then tok_true else tok_false) no_value sym_boolean_type s

unfoldable pub is_no_value : Value → Bool
is_no_value no_value = true
is_no_value _ = false

unfoldable pub boolean : Ref → Store → Result Bool
unfolding read is_no_value
boolean p s = do
  n ← read p s
  assert (is_no_value n.value)
  assert ((n.symbol == tok_true) || (n.symbol == tok_false))
  ok (n.symbol == tok_true)

unfoldable pub new_integer : ℤ → Store → Result (Ref × Store)
unfolding new_typed_leaf
new_integer value s = new_typed_leaf tok_integer (integer_value value) sym_integer_type s

unfoldable pub integer_of : Value → Result ℤ
integer_of (integer_value v) = ok v
integer_of _ = abort

unfoldable pub integer : Ref → Store → Result ℤ
unfolding read integer_of
integer p s = do n ← read p s; integer_of n.value

unfoldable pub new_real : ℕ → Store → Result (Ref × Store)
unfolding new_typed_leaf
new_real value s = new_typed_leaf tok_real (real_value value) sym_real_type s

unfoldable pub real_of : Value → Result ℕ
real_of (real_value v) = ok v
real_of _ = abort

unfoldable pub real : Ref → Store → Result ℕ
unfolding read real_of
real p s = do n ← read p s; real_of n.value

-- `(int) strlen(string)`, for a 32-bit `int`
unfoldable pub int_of_size : ℕ → ℤ
int_of_size n = let w = n % 2 ^ 32 in if ltb w (2 ^ 31) then pos w else negsuc (2 ^ 32 - w - 1)

unfoldable pub new_string : Bytes → Store → Result (Ref × Store)
unfolding new_leaf set_payload new_integer int_of_size new_node set_type
new_string string s = do
  (p, s₁) ← new_leaf tok_string s
  s₂ ← set_payload p (string_value string) s₁
  (n, s₃) ← new_integer (int_of_size (length string)) s₂
  (t, s₄) ← new_node sym_string_type n null s₃
  s₅ ← set_type t p s₄
  ok (p, s₅)

unfoldable pub string_of : Value → Result Bytes
string_of (string_value v) = ok v
string_of _ = abort

unfoldable pub string : Ref → Store → Result Bytes
unfolding read string_of
string p s = do n ← read p s; string_of n.value

unfoldable pub new_char : ℕ → Store → Result (Ref × Store)
unfolding new_typed_leaf
new_char value s = new_typed_leaf sym_char_constant (char_value value) sym_char_type s

unfoldable pub char_of : Value → Result ℕ
char_of (char_value v) = ok v
char_of _ = abort

unfoldable pub char : Ref → Store → Result ℕ
unfolding read char_of
char p s = do n ← read p s; char_of n.value

unfoldable pub new_set : ℕ → Store → Result (Ref × Store)
unfolding new_typed_leaf
new_set value s = new_typed_leaf sym_set_constant (set_value value) sym_set_type s

unfoldable pub set_of : Value → Result ℕ
set_of (set_value v) = ok v
set_of _ = abort

unfoldable pub set : Ref → Store → Result ℕ
unfolding read set_of
set p s = do n ← read p s; set_of n.value

-- `Trees_Value`: a string constant is copied to a new node at each use.
unfoldable pub value : Ref → Store → Result (Ref × Store)
value p s = do
  i ← ident p s
  assert (i.kind == constant_kind)
  sym ← symbol i.value s
  if sym == tok_string then (do text ← string i.value s; new_string text s) else ok (i.value, s)

unfoldable pub set_value_of : Ref → Ref → Store → Result Store
unfolding ident set_ident
set_value_of value_node const_node s = do
  assert (if value_node == null then false else true)
  i ← ident const_node s
  assert (i.kind == constant_kind)
  set_ident const_node (record i { value = value_node }) s
