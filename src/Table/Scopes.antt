-- ===== src/Table/Scopes.antt =====
-- Table_Init to Table_UnusedIdentifiers: the scopes, and the lookup of names.
-- The static variables are the state. The scopes from `currentScope` down to, and without,
-- `globalScope` are `inner`, so that `currentScope == globalScope` exactly if `inner` is empty.
use obnc.Prelude.{
  ℕ, zero, suc, ◌+◌, Bool, true, false, not, ◌&&◌, ◌||◌, Option, none, some, List, [], ◌∷◌, Bytes,
  codes, bytes_eq, ◌==◌, ltb, if◌then◌else◌, Result, ok, abort, diverge, ◌>>=◌, ◌>>◌, assert,
  ◌or_else◌,
}
use obnc.Maps
use obnc.Maps.{MapOf}
use obnc.Trees.Symbols.{
  tok_ident, procedure_kind, type_kind, qualifier_kind, sym_nosym, sym_abs_proc, sym_asr_proc,
  sym_assert_proc, sym_boolean_type, sym_byte_type, sym_char_type, sym_chr_proc, sym_dec_proc,
  sym_excl_proc, sym_floor_proc, sym_flt_proc, sym_inc_proc, sym_incl_proc, sym_integer_type,
  sym_len_proc, sym_lsl_proc, sym_new_proc, sym_odd_proc, sym_ord_proc, sym_pack_proc,
  sym_real_type, sym_ror_proc, sym_set_type, sym_unpk_proc,
}
use obnc.Trees.Nodes
use obnc.Trees.Nodes.{
  Ref, null, Store, symbol, left, right, new_node, new_leaf, set_type, reverse_list,
}
use obnc.Trees.Idents.{new_ident, name, kind, set_kind, local, used, set_used}

pub record State : Type 0 where
  pub initialized : Bool
  pub trees : Store
  pub predeclared_nodes : List Ref
  pub global : MapOf Ref
  pub inner : List (MapOf Ref)

-- `predecIdents`: name, kind and symbol of the type.
abbrev pub predec_idents : List (Bytes × ℕ × ℕ)
predec_idents =
    (codes "ABS", procedure_kind, sym_abs_proc)
    ∷ (codes "ASR", procedure_kind, sym_asr_proc)
    ∷ (codes "ASSERT", procedure_kind, sym_assert_proc)
    ∷ (codes "BOOLEAN", type_kind, sym_boolean_type)
    ∷ (codes "BYTE", type_kind, sym_byte_type)
    ∷ (codes "CHAR", type_kind, sym_char_type)
    ∷ (codes "CHR", procedure_kind, sym_chr_proc)
    ∷ (codes "DEC", procedure_kind, sym_dec_proc)
    ∷ (codes "EXCL", procedure_kind, sym_excl_proc)
    ∷ (codes "FLOOR", procedure_kind, sym_floor_proc)
    ∷ (codes "FLT", procedure_kind, sym_flt_proc)
    ∷ (codes "INC", procedure_kind, sym_inc_proc)
    ∷ (codes "INCL", procedure_kind, sym_incl_proc)
    ∷ (codes "INTEGER", type_kind, sym_integer_type)
    ∷ (codes "LEN", procedure_kind, sym_len_proc)
    ∷ (codes "LSL", procedure_kind, sym_lsl_proc)
    ∷ (codes "NEW", procedure_kind, sym_new_proc)
    ∷ (codes "ODD", procedure_kind, sym_odd_proc)
    ∷ (codes "ORD", procedure_kind, sym_ord_proc)
    ∷ (codes "PACK", procedure_kind, sym_pack_proc)
    ∷ (codes "REAL", type_kind, sym_real_type)
    ∷ (codes "ROR", procedure_kind, sym_ror_proc)
    ∷ (codes "SET", type_kind, sym_set_type)
    ∷ (codes "UNPK", procedure_kind, sym_unpk_proc)
    ∷ []

-- The loop of `Table_Init`, with the nodes that it puts in `predeclaredNodes`.
unfoldable pub init_loop : List (Bytes × ℕ × ℕ) → Store → Result (List Ref × Store)
unfolding new_leaf
init_loop [] t = ok ([], t)
init_loop ((n, k, ty) ∷ rest) t = do
  (node, t₁) ← new_ident n t
  t₂ ← set_kind k node t₁
  (leaf, t₃) ← new_leaf ty t₂
  t₄ ← set_type leaf node t₃
  (nodes, t₅) ← init_loop rest t₄
  ok (node ∷ nodes, t₅)

unfoldable pub init : State → Result State
init s = if s.initialized then ok s else do
  (nodes, t) ← init_loop predec_idents (Nodes.init s.trees)
  ok (record {
    initialized = true;
    trees = t;
    predeclared_nodes = nodes;
    global = Maps.new;
    inner = [];
  })

unfoldable pub current : State → MapOf Ref
current s = elim s.inner [ [] ↦ s.global | scope ∷ _ ↦ scope ]

unfoldable pub is_local : State → Bool
is_local s = elim s.inner [ [] ↦ false | scope ∷ _ ↦ true ]

-- `currentScope->symbols = m`
unfoldable pub set_current : MapOf Ref → State → State
set_current m s = elim s.inner [
  | [] ↦ record s { global = m }
  | scope ∷ scopes ↦ record s { inner = m ∷ scopes }
]

unfoldable pub locally_declared : Bytes → State → Result Bool
unfolding current
locally_declared n s = do assert s.initialized; ok (Maps.has_key n (current s))

unfoldable pub scope_local : State → Result Bool
unfolding is_local
scope_local s = do assert s.initialized; ok (is_local s)

unfoldable pub put : Ref → State → Result State
unfolding current is_local set_current
put p s = do
  assert s.initialized
  assert (not (p == null))
  sym ← symbol p s.trees
  assert (sym == tok_ident)
  l ← local p s.trees
  g ← scope_local s
  assert ((l && g) || (not l && not g))
  n ← name p s.trees
  declared ← locally_declared n s
  assert (not declared)
  ok (set_current (Maps.put n p (current s)) s)

abbrev pub before : ℕ → Option Bytes → Option Bytes
before c none = none
before c (some s) = some (c ∷ s)

-- What stands before the first dot, if there is one.
unfoldable pub qualifier : Bytes → Option Bytes
qualifier [] = none
qualifier (c ∷ s) = if c == b'.' then some [] else before c (qualifier s)

-- The loop of `ImportedIdent` and what follows it.
unfoldable pub imported_ident_loop : ℕ → Bytes → Ref → Store → Result Ref
imported_ident_loop zero n entries t = diverge
imported_ident_loop (suc fuel) n entries t = if entries == null then ok null else do
  i ← left entries t
  m ← name i t
  if bytes_eq m n then ok i else (do next ← right entries t; imported_ident_loop fuel n next t)

unfoldable pub imported_ident : Bytes → Ref → Store → Result Ref
imported_ident n q t = do entries ← left q t; imported_ident_loop (t.count + 1) n entries t

-- `strcmp (a, b) < 0`
abbrev precedes : Bytes → Bytes → Bool
precedes a [] = false
precedes [] (d ∷ b) = true
precedes (c ∷ a) (d ∷ b) = ltb c d || ((c == d) && precedes a b)

-- Each name is less than the next one.
abbrev pub is_sorted : List (Bytes × ℕ × ℕ) → Bool
is_sorted [] = true
is_sorted ((m, _, _) ∷ names) =
    elim names [ [] ↦ true | (next, _, _) ∷ _ ↦ precedes m next ] && is_sorted names

-- The node at the place of a name.
unfoldable pub node_of_name : Bytes → List (Bytes × ℕ × ℕ) → List Ref → Ref
node_of_name n ((m, _, _) ∷ names) (p ∷ nodes) =
    let rest = node_of_name n names nodes in if bytes_eq n m then p else rest
node_of_name n _ _ = null

-- `bsearch` in `predeclaredNames`: in a table that is sorted by `strcmp` it finds the name if it is
-- there. In another one it promises nothing, and here finds nothing.
unfoldable pub search_names : Bytes → List (Bytes × ℕ × ℕ) → List Ref → Ref
search_names n names nodes = if is_sorted names then node_of_name n names nodes else null

unfoldable pub predeclared_ident : Bytes → State → Ref
predeclared_ident n s = search_names n predec_idents s.predeclared_nodes

-- A missing key is NULL in C.
abbrev pub or_null : Option Ref → Ref
or_null (some p) = p
or_null none = null

unfoldable pub qualified_at : Bytes → Bytes → State → Result (Ref × State)
qualified_at n qualifier_name s =
    let q = or_null (Maps.at qualifier_name s.global) in
    if q == null
    then ok (null, s)
    else do t ← set_used q s.trees; r ← imported_ident n q t; ok (r, record s { trees = t })

-- What the scopes say of a name without a dot.
unfoldable pub declared : Bytes → State → Ref
unfolding current is_local
declared n s =
    let r = or_null (Maps.at n (current s)) in
    if (r == null) && is_local s then or_null (Maps.at n s.global) else r

unfoldable pub simple_at : Bytes → State → Result (Ref × State)
simple_at n s =
    let r = declared n s in
    if r == null then ok (predeclared_ident n s, s) else do
      k ← kind r s.trees
      if k == qualifier_kind
          then ok (r, s)
          else (do t ← set_used r s.trees; ok (r, record s { trees = t }))

unfoldable pub at : Bytes → State → Result (Ref × State)
at n s = do
  assert s.initialized
  (r, s') ← elim (qualifier n) [ some q ↦ qualified_at n q s | none ↦ simple_at n s ]
  is_ident ← ok (r == null) or_else (do x ← symbol r s'.trees; ok (x == tok_ident))
  assert is_ident
  ok (r, s')

unfoldable pub open_scope : State → Result State
open_scope s = do assert s.initialized; ok (record s { inner = Maps.new ∷ s.inner })

unfoldable pub close_scope : State → Result State
close_scope s = do
  assert s.initialized
  elim s.inner [ [] ↦ abort | scope ∷ scopes ↦ ok (record s { inner = scopes }) ]

-- `AddUnusedIdent`, with the list that it extends.
unfoldable pub add_unused_ident : Bytes → Ref → Result (Ref × Store) → Result (Ref × Store)
add_unused_ident n ident run = do
  (unused, t) ← run
  u ← used ident t
  if u then ok (unused, t) else new_node sym_nosym ident unused t

unfoldable pub unused_identifiers : State → Result (Ref × State)
unfolding current
unused_identifiers s = do
  assert s.initialized
  (unused, t) ← Maps.apply add_unused_ident (current s) (ok (null, s.trees))
  (r, t') ← reverse_list (t.count + 1) unused t
  ok (r, record s { trees = t' })
