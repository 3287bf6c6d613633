-- ===== src/Examples/Lookup.antt =====
-- The field x of Base, looked up from Sub.
use obnc.Prelude.{◌≡◌, refl, false, [], ◌∷◌, arith, codes, bytes_eq, ◌==◌, ok}
use obnc.Trees.Nodes.{Ref, null, read, symbol, type, left, right}
use obnc.Trees.Idents.{ident, ident_of, kind, name, imported}
use obnc.Types.Basics.{
  is_type, is_type_symbol, assert_type, structure_loop, structure, structure_symbol, is_record,
}
use obnc.Types.Structured.{get_field_ident, descriptor, fields, record_base_type, imported_here}
use obnc.Types.Fields.{Visible}
use obnc.Types.FieldLookup.{
  last, end, lists, Level, IsLevel, Levels, top, below, get_field_ident-find,
}
use obnc.Examples.Program.{program, base_type, sub_type}

abbrev field_x : Ref
field_x = 17

abbrev sub_level : Level
sub_level = record { base_type = sub_type; hits = λ i. i == field_x; idents = [] }

abbrev base_level : Level
base_level = record {
  base_type = base_type;
  hits = λ i. i == field_x;
  idents = (field_x ∷ []) ∷ [];
}

sub_IsLevel : IsLevel program (codes "x") false false sub_level sub_type
unfolding imported_here imported descriptor fields structure is_type is_type_symbol symbol kind
    ident read ident_of structure_loop assert_type type right
sub_IsLevel = record {
  here = false;
  is_here = refl;
  now = refl;
  based = omega arith;
  has_descriptor = refl;
  seq = null;
  has_fields = refl;
  linked = end;
  few = omega arith;
  tested = tt;
}

base_IsLevel : IsLevel program (codes "x") false false base_level base_type
unfolding imported_here imported descriptor fields structure is_type is_type_symbol symbol kind
    ident read ident_of structure_loop assert_type type left right name bytes_eq
base_IsLevel = record {
  here = false;
  is_here = refl;
  now = refl;
  based = omega arith;
  has_descriptor = refl;
  seq = 11;
  has_fields = refl;
  linked = lists (omega arith) refl (last refl refl) (omega arith) refl end;
  few = omega arith;
  tested = ((refl, tt), tt);
}

sub_Levels : Levels program (codes "x") false sub_level (base_level ∷ [])
unfolding record_base_type structure is_type is_type_symbol symbol kind ident read ident_of
    structure_loop assert_type type left
sub_Levels = below sub_IsLevel refl (top base_IsLevel refl)

get_field_ident-find_example :
    (get_field_ident program (codes "x") sub_type false ≡ ok (field_x, base_type))
    × Visible program (codes "x") false (field_x, base_type)
unfolding is_record structure_symbol structure is_type is_type_symbol symbol kind ident read
    ident_of structure_loop assert_type type
get_field_ident-find_example =
    get_field_ident-find program (codes "x") refl sub_Levels (omega arith)
