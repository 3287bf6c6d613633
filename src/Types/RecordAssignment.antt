-- ===== src/Types/RecordAssignment.antt =====
-- `Types_AssignmentCompatible` for records and pointers: a variable takes extensions of its type.
use obnc.Prelude.{
  ℕ, ◌≡◌, ◌≢◌, ◌⊎◌, inl, inr, Bool, false, ◌||◌, List, arith, length, ◌≤◌, All, ok, ◌==◌,
}
use obnc.Trees.Symbols.{tok_record, tok_pointer, tok_nil}
use obnc.Trees.Nodes.{Ref, null, Store, type}
use obnc.Types.Structured.{descriptor, named_descriptor}
use obnc.Types.Compatibility.{same, extends, assignable, assignment_compatible}
use obnc.Types.Resolution.{not_null, symbol_ok, is_type-ne_null}
use obnc.Types.Sameness.{Typed, assert_type_ok}
use obnc.Types.Predicates.{is_record_ok, is_pointer_ok, structure_symbol_ok}
use obnc.Types.Extension.{Ancestors, Compares, any, extends-any}

-- An expression other than NIL of the type `st`, whose structure is `v`.
pub record IsExp (s : Store) (e st v : Ref) : Type 0 where
  pub ne_null : e ≢ null
  pub has_type : type e s ≡ ok st
  pub typed : Typed s st v
  pub ne_nil : (s.node e).symbol ≢ tok_nil

module _ (s : Store) (fuel : ℕ) {e st v t u : Ref} (exp : IsExp s e st v) (target : Typed s t u)
    (differ : same s st t ≡ ok false) where
  to_assignable : assignment_compatible s fuel e t ≡ assignable s fuel (s.node u).symbol e st t
  unfolding assignment_compatible
  to_assignable = rw (
    not_null s e exp.ne_null,
    assert_type_ok s target,
    exp.has_type,
    not_null s st (is_type-ne_null s st exp.typed.is),
    differ,
    structure_symbol_ok s target,
  )

  to_extends :
      ((s.node u).symbol ≡ tok_record) ⊎ ((s.node u).symbol ≡ tok_pointer)
      → (s.node v).symbol ≡ (s.node u).symbol
      → assignment_compatible s fuel e t ≡ extends s t st
  unfolding assignable
  to_extends (inl r) alike = rw (to_assignable, is_record_ok s exp.typed, alike, r)
  to_extends (inr p) alike =
      let other : ((s.node e).symbol == tok_nil) ≡ false = ground (arith, exp.ne_nil) in
      rw (to_assignable, is_pointer_ok s exp.typed, alike, p, symbol_ok s e exp.ne_null, other)

  -- For an expression other than NIL, whose type has the ancestors `l` (at most as many as there are
  -- nodes), and a resolved type that is not its own, both records or both pointers: the expression
  -- may be assigned to a variable of the type exactly if the two descriptors are the same or some
  -- ancestor is the same as the variable's type.
  pub extension-to-base :
      {d d' m : Ref} {l : List Ref} {x : Bool} (hits : Ref → Bool)
      → ((s.node u).symbol ≡ tok_record) ⊎ ((s.node u).symbol ≡ tok_pointer)
      → (s.node v).symbol ≡ (s.node u).symbol
      → Ancestors s st l
      → length l ≤ s.count
      → descriptor s t ≡ ok d
      → descriptor s st ≡ ok d'
      → named_descriptor s t ≡ ok m
      → same s d d' ≡ ok x
      → All (Compares s m hits) l
      → assignment_compatible s fuel e t ≡ ok (x || any hits l)
  extension-to-base hits kinds alike a le hd hd' hm hx c =
      rw (to_extends kinds alike) (extends-any s t st hits a le hd hd' hm hx c)
