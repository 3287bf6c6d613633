-- ===== src/Examples/Scopes.antt =====
-- The symbol table: a module that imports `M.y`, with a variable `x` and a procedure that has a `z`
-- and an `x` of its own.
use obnc.Prelude.{
  ◌≤◌, ◌≡◌, refl, Bool, true, false, none, [], ◌∷◌, Bytes, codes, bytes_eq, ◌==◌, ◌||◌,
  if◌then◌else◌, arith, ok, abort, diverge, halts,
}
use obnc.Maps
use obnc.Maps.{MapOf}
use obnc.Trees.Symbols.{tok_ident, sym_nosym, variable_kind, qualifier_kind}
use obnc.Trees.Nodes
use obnc.Trees.Nodes.{set_type, Ref, null, Ident, ident_value, no_value, Store}
use obnc.Trees.Idents.{fresh_ident, name, ident, new_ident, set_kind, set_ident}
use obnc.Table.Scopes.{
  State, init, init_loop, put, at, qualifier, declared, open_scope, is_local, current,
}
use obnc.Table.Invariant.{IsEntry, Inv}
use obnc.Table.Declare.{put-declares}
use obnc.Table.Lookup.{Means, Leaves, meaning, at-meaning}
use obnc.Table.Imported.{at_qualified, end, entry}
use obnc.Table.Reachable.{here, next, opens, reachable-at}

abbrev name_of : Ref → Bytes
name_of p =
    if p == 3
    then codes "M"
    else if p == 5
    then codes "M.y"
    else if p == 6
    then codes "z"
    else codes "x"

abbrev ident_of : Ref → Ident
ident_of p = record (fresh_ident (name_of p)) {
  kind = if p == 3 then qualifier_kind else variable_kind;
  local = (p == 2) || (p == 6);
}

-- The nodes: 1 the variable, 2 and 6 the local ones, 3 the qualifier with its list 4 of the import 5.
abbrev nodes : Store
nodes = record {
  initialized = true;
  yylineno = 1;
  count = 6;
  node = λ p. record {
    value = if p == 4 then no_value else ident_value (ident_of p);
    symbol = if p == 4 then sym_nosym else tok_ident;
    line_number = 1;
    marked = false;
    type = null;
    left = if p == 3 then 4 else if p == 4 then 5 else null;
    right = null;
  };
}

abbrev scopes : State
scopes = record {
  initialized = true;
  trees = nodes;
  predeclared_nodes = [];
  global = (codes "x", 1) ∷ (codes "M", 3) ∷ [];
  inner = ((codes "x", 2) ∷ []) ∷ [];
}

is_entry :
    (l : Bool) (p : Ref)
    → (ident_of p).local ≡ l
    → (p == 4) ≡ false
    → (p == 0) ≡ false
    → p ≤ 6
    → IsEntry nodes l (name_of p) p
is_entry l p placed is set le = record {
  ne_null = ground arith;
  allocated = le;
  is_ident = rw is;
  holds = ident_of p;
  value = rw is;
  named = refl;
  placed = placed;
}

scopes-Inv : Inv scopes
unfolding Maps.has_key bytes_eq
scopes-Inv = record {
  ready = refl;
  trees_ready = refl;
  global = (
    (refl, (refl, tt)),
    (
      is_entry false 1 refl refl refl (omega arith),
      (is_entry false 3 refl refl refl (omega arith), tt),
    ),
  );
  inner = (((refl, tt), (is_entry true 2 refl refl refl (omega arith), tt)), tt);
  predeclared = tt;
}

put-declares_example :
    (s' : State) × (put 6 scopes ≡ ok s')
    × Inv s'
    × ((j : Bytes) → declared j s' ≡ (if bytes_eq (codes "z") j then 6 else declared j scopes))
unfolding is_local current Maps.has_key bytes_eq
put-declares_example =
    put-declares scopes (codes "z") 6 scopes-Inv (is_entry true 6 refl refl refl (omega arith)) refl

x_plain : qualifier (codes "x") ≡ none
unfolding qualifier
x_plain = refl

at-meaning_example : (r : Ref) × (s' : State) × Means scopes scopes-Inv (codes "x") x_plain r s'
at-meaning_example = at-meaning scopes scopes-Inv (codes "x") x_plain

at_qualified_example : (s' : State) × (at (codes "M.y") scopes ≡ ok (5, s')) × Leaves scopes s'
unfolding qualifier Maps.at bytes_eq name
at_qualified_example =
    at_qualified scopes (codes "M.y") (codes "M") 3 4 ((codes "M.y", 5) ∷ []) scopes-Inv refl refl
      (is_entry false 3 refl refl refl (omega arith)) refl
      (entry (omega arith) refl (omega arith) refl refl refl end) (omega arith)

abbrev start : State
start = record scopes { initialized = false }

-- The table behind `Table_Init`, and behind the opening of a scope.
abbrev first : State
unfolding init init_loop Nodes.init new_ident set_kind ident set_type set_ident
first = elim (init start) [ ok s ↦ s | abort ↦ start | diverge ↦ start | halts ↦ start ]

abbrev second : State
second = record first { inner = [] ∷ [] }

abs_plain : qualifier (codes "ABS") ≡ none
unfolding qualifier
abs_plain = refl

init-start : init start ≡ ok first
unfolding init init_loop Nodes.init new_ident set_kind ident set_type set_ident
init-start = refl

open_first : open_scope first ≡ ok second
unfolding open_scope Maps.new init init_loop Nodes.init new_ident set_kind ident set_type set_ident
open_first = refl

reachable-at_example :
    Inv second
    × ((r : Ref) × (s' : State) × (at (codes "ABS") second ≡ ok (r, s'))
        × (r ≡ meaning (codes "ABS") second)
        × Leaves second s')
reachable-at_example =
    reachable-at start first second (codes "ABS") refl init-start (next here (opens open_first))
      abs_plain
