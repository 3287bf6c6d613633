-- ===== src/Examples/TypeTests.antt =====
-- The theorems about type tests at concrete inputs.
use obnc.Prelude.{ℕ, ◌==◌, ◌≡◌, ◌↔◌, refl, true, Option, none, some, [], ◌∷◌, ok, if◌then◌else◌}
use obnc.Prelude.{length, arith}
use obnc.Trees.Nodes.{Ref, symbol, type, read}
use obnc.Trees.Idents.{kind, ident, ident_of, unaliased_name}
use obnc.Types.Basics.{
  structure, structure_loop, is_type, is_type_symbol, assert_type, unaliased_ident,
  unaliased_ident_loop,
}
use obnc.Generator.TypeDescriptors.{
  Descriptor, initial_ident, type_desc_ident, generate_type_desc, is_operands,
}
use obnc.Generator.TypeDescriptors.Levels.{Named, type_test-descriptor}
use obnc.Examples.Program.{program, top_type, sub_type, base_type}
use obnc.Examples.Resolved.{top_Ancestors}
use obnc.Runtime.Traps.{passes, traps, record_assignment, obnc_is, obnc_rat}
use obnc.Runtime.TypeTests.{Ids, root, extended, Extends, td_of, obnc_is_iff, obnc_rat-obnc_is}

-- Type 2 extends type 1, and type 3 has no base type.
abbrev base_of_type : ℕ → Option ℕ
base_of_type t = if t == 2 then some 1 else none

type_1-Ids : Ids base_of_type 1 (1 ∷ [])
type_1-Ids = root 1 refl

type_2-Ids : Ids base_of_type 2 (1 ∷ 2 ∷ [])
type_2-Ids = extended 2 1 (1 ∷ []) refl type_1-Ids

obnc_is_iff_example : (obnc_is 7 (td_of (1 ∷ 2 ∷ [])) 1 0 ≡ true) ↔ Extends base_of_type 1 2
obnc_is_iff_example =
    obnc_is_iff base_of_type 7 2 1 (1 ∷ 2 ∷ []) (1 ∷ []) refl type_2-Ids type_1-Ids

obnc_rat-obnc_is_example :
    obnc_rat (td_of (1 ∷ [])) (td_of (1 ∷ 2 ∷ []))
    ≡ ok (if obnc_is 7 (td_of (1 ∷ [])) 2 1 then passes true else traps record_assignment)
obnc_rat-obnc_is_example =
    obnc_rat-obnc_is base_of_type 7 1 2 (1 ∷ []) (1 ∷ 2 ∷ []) refl type_1-Ids type_2-Ids

abbrev itself : Ref → Ref
itself t = t

top_Named : Named program itself top_type
unfolding type_desc_ident initial_ident unaliased_ident unaliased_ident_loop unaliased_name
    structure is_type is_type_symbol symbol kind ident read ident_of structure_loop assert_type type
top_Named = refl

sub_Named : Named program itself sub_type
unfolding type_desc_ident initial_ident unaliased_ident unaliased_ident_loop unaliased_name
    structure is_type is_type_symbol symbol kind ident read ident_of structure_loop assert_type type
sub_Named = refl

base_Named : Named program itself base_type
unfolding type_desc_ident initial_ident unaliased_ident unaliased_ident_loop unaliased_name
    structure is_type is_type_symbol symbol kind ident read ident_of structure_loop assert_type type
base_Named = refl

type_test-descriptor_example :
    (d : Descriptor) × (k : ℕ) × (generate_type_desc program top_type ≡ ok d)
    × (length d.ids ≡ d.declared)
    × (length d.ids ≡ d.nids)
    × (is_operands program base_type ≡ ok (base_type, k))
    × ((i : Ref) → (obnc_is 7 (td_of d.ids) i k ≡ true) ↔ (i ≡ base_type))
type_test-descriptor_example =
    type_test-descriptor program itself 7 top_type base_type (sub_type ∷ []) [] refl top_Ancestors
      (omega arith) (top_Named, (sub_Named, (base_Named, tt))) base_Named
