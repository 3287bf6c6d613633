-- ===== src/Examples/Resolved.antt =====
-- Aliases, sameness, extension and assignment in the small program.
use obnc.Prelude.{inl, ◌≡◌, refl, Bool, true, false, [], ◌∷◌, arith, bytes_eq, ◌==◌, ok}
use obnc.Trees.Nodes.{Ref, read, symbol, type, left}
use obnc.Trees.Idents.{ident, ident_of, kind, unaliased_name}
use obnc.Types.Basics.{
  is_type, is_type_symbol, is_basic_symbol, assert_type, structure_loop, structure, basic,
  unaliased_ident, unaliased_ident_loop,
}
use obnc.Types.Structured.{record_base_type, descriptor, named_descriptor}
use obnc.Types.Compatibility.{same, extends, assignment_compatible}
use obnc.Types.Resolution.{Resolves, structure-Resolves}
use obnc.Types.Sameness.{Typed, same_comm}
use obnc.Types.Extension.{Ancestors, top, base, Compares, extends-any}
use obnc.Types.RecordAssignment.{IsExp, extension-to-base}
use obnc.Examples.Program.{
  program, program-WellFormed, integer_type, count_type, char_type, chars_type, text_type,
  base_type, sub_type, top_type, top_exp,
}

structure-Resolves_example :
    (u : Ref) × (structure program count_type ≡ ok u) × Resolves program count_type u
unfolding is_type is_type_symbol symbol kind ident read ident_of
structure-Resolves_example = structure-Resolves program program-WellFormed count_type refl

pub count_Typed : Typed program count_type integer_type
unfolding is_type is_type_symbol symbol kind ident read ident_of structure structure_loop
    assert_type type
count_Typed = record { is = refl; resolves = refl; solid = omega arith }

pub integer_Typed : Typed program integer_type integer_type
unfolding is_type is_type_symbol symbol kind ident read ident_of structure structure_loop
    assert_type type
integer_Typed = record { is = refl; resolves = refl; solid = omega arith }

pub char_Typed : Typed program char_type char_type
unfolding is_type is_type_symbol symbol kind ident read ident_of structure structure_loop
    assert_type type
char_Typed = record { is = refl; resolves = refl; solid = omega arith }

chars_Typed : Typed program chars_type chars_type
unfolding is_type is_type_symbol symbol kind ident read ident_of structure structure_loop
    assert_type type
chars_Typed = record { is = refl; resolves = refl; solid = omega arith }

text_Typed : Typed program text_type text_type
unfolding is_type is_type_symbol symbol kind ident read ident_of structure structure_loop
    assert_type type
text_Typed = record { is = refl; resolves = refl; solid = omega arith }

same_comm_example :
    (same program count_type count_type ≡ ok true)
    × (same program count_type integer_type ≡ same program integer_type count_type)
    × ((x : Bool) × (same program count_type integer_type ≡ ok x))
same_comm_example = same_comm program program-WellFormed count_Typed integer_Typed

-- Top extends Sub, which extends Base.
pub top_Ancestors : Ancestors program top_type (sub_type ∷ base_type ∷ [])
unfolding record_base_type structure is_type is_type_symbol symbol kind ident read ident_of
    structure_loop assert_type type left
top_Ancestors = base refl (omega arith) (base refl (omega arith) (top refl))

abbrev is_base : Ref → Bool
is_base p = p == base_type

sub_Compares : Compares program base_type is_base sub_type
unfolding named_descriptor descriptor same basic is_basic_symbol unaliased_ident
    unaliased_ident_loop unaliased_name structure is_type is_type_symbol symbol kind ident read
    ident_of structure_loop assert_type type bytes_eq
sub_Compares = record { called = sub_type; named = refl; compared = refl }

base_Compares : Compares program base_type is_base base_type
unfolding named_descriptor descriptor same basic is_basic_symbol unaliased_ident
    unaliased_ident_loop unaliased_name structure is_type is_type_symbol symbol kind ident read
    ident_of structure_loop assert_type type bytes_eq
base_Compares = record { called = base_type; named = refl; compared = refl }

extends-any_example : extends program base_type top_type ≡ ok true
unfolding named_descriptor descriptor same basic is_basic_symbol unaliased_ident
    unaliased_ident_loop unaliased_name structure is_type is_type_symbol symbol kind ident read
    ident_of structure_loop assert_type type bytes_eq
extends-any_example =
    extends-any program base_type top_type {x = false} is_base top_Ancestors (omega arith) refl refl
      refl refl (sub_Compares, (base_Compares, tt))

top_Typed : Typed program top_type 14
unfolding is_type is_type_symbol symbol kind ident read ident_of structure structure_loop
    assert_type type
top_Typed = record { is = refl; resolves = refl; solid = omega arith }

base_Typed : Typed program base_type 9
unfolding is_type is_type_symbol symbol kind ident read ident_of structure structure_loop
    assert_type type
base_Typed = record { is = refl; resolves = refl; solid = omega arith }

top_IsExp : IsExp program top_exp top_type 14
unfolding type read
top_IsExp = record {
  ne_null = omega arith;
  has_type = refl;
  typed = top_Typed;
  ne_nil = omega arith;
}

-- b := t, for a variable b of type Base and t of type Top
extension-to-base_example : assignment_compatible program 9 top_exp base_type ≡ ok true
unfolding named_descriptor descriptor same basic is_basic_symbol unaliased_ident
    unaliased_ident_loop unaliased_name structure is_type is_type_symbol symbol kind ident read
    ident_of structure_loop assert_type type bytes_eq
extension-to-base_example =
    extension-to-base program 9 top_IsExp base_Typed refl {x = false} is_base (inl refl) refl
      top_Ancestors (omega arith) refl refl refl refl (sub_Compares, (base_Compares, tt))
