-- ===== src/Examples/Nodes.antt =====
-- Maps of nodes, constants and identifiers at concrete stores.
use mathlib.Core.List.{reverse}
use obnc.Prelude.{◌≡◌, refl, true, [], ◌∷◌, arith, Bytes, codes, ◌==◌, if◌then◌else◌, ok}
use obnc.Prelude.Int.{pos}
use obnc.Trees.Symbols.{tok_ident, tok_string, tok_integer, tok_or, constant_kind}
use obnc.Trees.Nodes.{
  Ref, Ident, integer_value, string_value, ident_value, NodeDesc, Store, reverse_list,
}
use obnc.Trees.Idents.{fresh_ident}
use obnc.Trees.Constants.{value}
use obnc.Trees.ListReversal.{Chain, end, link, SameBut, reverse_list-Chain}
use obnc.Trees.RoundTrips.{blank}

abbrev constant : Bytes → Ref → Ident
constant name value = record (fresh_ident name) { kind = constant_kind; value = value }

-- 1: a list of the nodes 1, 2; 3: a constant with the string 4; 5: a constant with the integer 6.
abbrev node_at : Ref → NodeDesc
node_at p =
    if p == 1
    then record (blank tok_or 1) { right = 2 }
    else if p == 3
    then record (blank tok_ident 1) { value = ident_value (constant (codes "s") 4) }
    else if p == 4
    then record (blank tok_string 1) { value = string_value (codes "text") }
    else if p == 5
    then record (blank tok_ident 1) { value = ident_value (constant (codes "n") 6) }
    else if p == 6
    then record (blank tok_integer 1) { value = integer_value (pos 7) }
    else blank tok_or 1

abbrev six_nodes : Store
six_nodes = record { initialized = true; yylineno = 1; count = 6; node = node_at }

two_links : Chain six_nodes 1 (1 ∷ 2 ∷ [])
two_links = link (omega arith) refl refl (link (omega arith) refl refl end)

reverse_list-Chain_example :
    (r : Ref × Store) × (reverse_list 3 1 six_nodes ≡ ok r)
    × Chain r.1 r.0 (reverse (1 ∷ 2 ∷ []))
    × SameBut (1 ∷ 2 ∷ []) six_nodes r.1
reverse_list-Chain_example = reverse_list-Chain 3 two_links (omega arith)
