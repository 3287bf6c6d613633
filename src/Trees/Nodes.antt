-- ===== src/Trees/Nodes.antt =====
-- The node type and the operations on all nodes: Trees_NewNode to Trees_ReverseList.
use obnc.Prelude.{
  ℕ, zero, suc, ◌+◌, Bool, true, false, ◌&&◌, Bytes, ◌==◌, if◌then◌else◌, Result, ok, abort,
  diverge, ◌>>=◌, ◌>>◌, assert,
}
use obnc.Prelude.Int.{ℤ}

-- `Trees_Node`
abbrev pub Ref : Type 0
Ref = ℕ

abbrev pub null : Ref
null = 0

pub record Ident : Type 0 where
  pub name : Bytes
  pub unaliased_name : Bytes
  pub kind : ℕ
  pub local : Bool
  pub imported : Bool
  pub exported : Bool
  pub internal : Bool
  pub used : Bool
  pub value : Ref

-- The union with its tag `valueType`.
pub data Value : Type 0 where
  no_value : Value
  ident_value : Ident → Value
  integer_value : ℤ → Value
  real_value : ℕ → Value
  string_value : Bytes → Value
  char_value : ℕ → Value
  set_value : ℕ → Value

-- `struct Trees_NodeDesc`
pub record NodeDesc : Type 0 where
  pub value : Value
  pub symbol : ℕ
  pub line_number : ℕ
  pub marked : Bool
  pub type : Ref
  pub left : Ref
  pub right : Ref

-- The nodes made so far have the addresses 1 to `count`.
pub record Store : Type 0 where
  pub initialized : Bool
  pub yylineno : ℕ
  pub count : ℕ
  pub node : Ref → NodeDesc

unfoldable pub write : Ref → NodeDesc → Store → Store
write p n s = record s { node = λ q. if q == p then n else s.node q }

-- `*p`
unfoldable pub read : Ref → Store → Result NodeDesc
read p s = if p == null then abort else ok (s.node p)

unfoldable pub init : Store → Store
init s = record s { initialized = true }

unfoldable pub new_node : ℕ → Ref → Ref → Store → Result (Ref × Store)
unfolding write
new_node symbol left right s = do
  assert s.initialized
  let p = s.count + 1
  ok (
    p,
    write p
        (record {
          value = no_value;
          symbol = symbol;
          line_number = s.yylineno;
          marked = false;
          type = null;
          left = left;
          right = right;
        })
        (record s { count = p }),
  )

unfoldable pub new_leaf : ℕ → Store → Result (Ref × Store)
unfolding new_node
new_leaf symbol s = new_node symbol null null s

unfoldable pub is_leaf : Ref → Store → Result Bool
unfolding read
is_leaf p s = do n ← read p s; ok ((n.left == null) && (n.right == null))

unfoldable pub set_type : Ref → Ref → Store → Result Store
unfolding read write
set_type type p s = do n ← read p s; ok (write p (record n { type = type }) s)

unfoldable pub type : Ref → Store → Result Ref
unfolding read
type p s = do n ← read p s; ok n.type

unfoldable pub symbol : Ref → Store → Result ℕ
unfolding read
symbol p s = do n ← read p s; ok n.symbol

unfoldable pub line_number : Ref → Store → Result ℕ
unfolding read
line_number p s = do n ← read p s; ok n.line_number

unfoldable pub set_left : Ref → Ref → Store → Result Store
unfolding read write
set_left new_left p s = do n ← read p s; ok (write p (record n { left = new_left }) s)

unfoldable pub set_right : Ref → Ref → Store → Result Store
unfolding read write
set_right new_right p s = do n ← read p s; ok (write p (record n { right = new_right }) s)

unfoldable pub left : Ref → Store → Result Ref
unfolding read
left p s = do n ← read p s; ok n.left

unfoldable pub right : Ref → Store → Result Ref
unfolding read
right p s = do n ← read p s; ok n.right

-- The loop of `Trees_ReverseList`, with its variables `current` and `previous`.
unfoldable pub reverse_list_loop : ℕ → Ref → Ref → Store → Result (Ref × Store)
unfolding right set_right
reverse_list_loop zero current previous s = diverge
reverse_list_loop (suc fuel) current previous s = if current == null then ok (previous, s) else do
  next ← right current s
  s' ← set_right previous current s
  reverse_list_loop fuel next current s'

-- The new head of the list, which C stores through the pointer.
unfoldable pub reverse_list : ℕ → Ref → Store → Result (Ref × Store)
unfolding reverse_list_loop
reverse_list fuel list s = reverse_list_loop fuel list null s
