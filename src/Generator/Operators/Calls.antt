-- ===== src/Generator/Operators/Calls.antt =====
-- The search for a procedure call in an expression.
use obnc.Prelude.{
  ℕ, zero, suc, ◌<◌, ◌≡◌, ◌≢◌, refl, inl, inr, Bool, false, ◌||◌, List, [], ◌∷◌, ◌++◌, length,
  length-append, ◌==◌, ok, arith, Bool-cases,
}
use obnc.Trees.Symbols.{sym_procedure_call}
use obnc.Trees.Nodes.{Ref, null, Store, symbol, left, right, read}
use obnc.Types.Extension.{any}
use obnc.Generator.Operators.{contains_procedure_call}

-- `ps` are the nodes of the tree at `e`, which has no cycle.
pub data Nodes (s : Store) : Ref → List Ref → Type 0 where
  empty : Nodes s null []
  node :
      {p : Ref} {xs ys : List Ref}
      → p ≢ null
      → Nodes s (s.node p).left xs
      → Nodes s (s.node p).right ys
      → Nodes s p (p ∷ xs ++ ys)

module _ (s : Store) where
  abbrev pub is_call : Ref → Bool
  is_call p = (s.node p).symbol == sym_procedure_call

  any-append : (f : Ref → Bool) (xs ys : List Ref) → any f (xs ++ ys) ≡ (any f xs || any f ys)
  any-append f [] ys = refl
  any-append f (x ∷ xs) ys = ground (arith, any-append f xs ys)

  -- For a tree without cycles: ContainsProcedureCall ends, with as much recursion as the tree has
  -- nodes, and tells whether some node of the tree is a procedure call.
  pub contains_procedure_call-any :
      (fuel : ℕ) (e : Ref) (ps : List Ref)
      → Nodes s e ps
      → length ps < fuel
      → contains_procedure_call s fuel e ≡ ok (any is_call ps)
  unfolding contains_procedure_call symbol left right read
  contains_procedure_call-any zero e ps tree lt = absurd (omega arith)
  contains_procedure_call-any (suc fuel) _ _ empty lt = refl
  contains_procedure_call-any (suc fuel) _ _ (node {p} {xs} {ys} ne l r) lt =
      let not_null : (p == null) ≡ false = ground arith in
      let size = length-append xs ys in
      let first = contains_procedure_call-any fuel (s.node p).left xs l (omega arith) in
      let second = contains_procedure_call-any fuel (s.node p).right ys r (omega arith) in
      elim (Bool-cases (is_call p)) [
        | inl call ↦ rw (not_null, call) refl
        | inr other ↦ elim (Bool-cases (any is_call xs)) [
          | inl found ↦ rw (not_null, other, first, any-append is_call xs ys, found) refl
          | inr none ↦ rw (not_null, other, first, any-append is_call xs ys, none, second) refl
        ]
      ]
