-- ===== src/Types/Resolution.antt =====
-- `Types_Structure` and `Types_UnaliasedIdent` end on every well-formed store, and find what the
-- aliases of a type lead to.
use obnc.Prelude.{
  ℕ, zero, suc, ◌+◌, ◌≤◌, ◌<◌, ◌≡◌, refl, ◌≢◌, ◌∙◌, true, false, arith, ◌==◌, Result, ok, ◌>>=◌,
  Bool-cases, inl, inr, Bytes,
}
use obnc.Trees.Symbols.{tok_ident}
use obnc.Trees.Nodes.{Ref, null, Ident, ident_value, Store, symbol, type}
use obnc.Trees.Idents.{ident, unaliased_name}
use obnc.Types.Basics.{
  is_type, assert_type, structure_loop, structure, unaliased_ident_loop, unaliased_ident,
}

-- Every identifier node holds an identifier, and no chain of aliases runs in a circle: along it a
-- rank falls, which is at most the number of nodes.
pub record WellFormed (s : Store) : Type 0 where
  pub named :
      (p : Ref)
      → p ≢ null
      → (s.node p).symbol ≡ tok_ident
      → (i : Ident) × ((s.node p).value ≡ ident_value i)
  pub rank : Ref → ℕ
  pub below : (p : Ref) → rank p ≤ s.count
  pub falls : (p : Ref) → p ≢ null → (s.node p).symbol ≡ tok_ident → rank (s.node p).type < rank p

-- `u` is what the aliases of `p` lead to: a node that is no identifier, or NULL for an alias that
-- is not resolved yet.
pub data Resolves (s : Store) : Ref → Ref → Type 0 where
  unresolved : Resolves s null null
  itself : {p : Ref} → p ≢ null → (s.node p).symbol ≢ tok_ident → Resolves s p p
  alias :
      {p q u : Ref}
      → p ≢ null
      → (s.node p).symbol ≡ tok_ident
      → (s.node p).type ≡ q
      → Resolves s q u
      → Resolves s p u

module _ (s : Store) where
  pub symbol_ok : (p : Ref) → p ≢ null → symbol p s ≡ ok (s.node p).symbol
  unfolding symbol
  symbol_ok p ne = ground arith

  pub not_null : (p : Ref) → p ≢ null → (p == null) ≡ false
  not_null p ne = ground arith

  pub type_ok : (p : Ref) → p ≢ null → type p s ≡ ok (s.node p).type
  unfolding type
  type_ok p ne = ground arith

  structure_loop-Resolves :
      (wf : WellFormed s) (fuel : ℕ) (p : Ref)
      → wf.rank p < fuel
      → (u : Ref) × (structure_loop s fuel p ≡ ok u) × Resolves s p u
  unfolding structure_loop
  structure_loop-Resolves wf zero p lt = absurd (omega arith)
  structure_loop-Resolves wf (suc fuel) p lt = elim (Bool-cases (p == null)) [
    | inl e ↦ let z : null ≡ p = ground arith in (p, rw e, rw (← z) unresolved)
    | inr e ↦
        let ne : p ≢ null = ground arith in
        elim (Bool-cases ((s.node p).symbol == tok_ident)) [
          | inl id ↦
              let is : (s.node p).symbol ≡ tok_ident = ground arith in
              let (u, run, r) =
                structure_loop-Resolves wf fuel (s.node p).type (ground (arith, wf.falls p)) in
              (u, rw (e, symbol_ok p ne, id, type_ok p ne) run, alias ne is refl r)
          | inr other ↦ (p, rw (e, symbol_ok p ne, other), itself ne (ground arith))
        ]
  ]

  pub is_type-ne_null : (t : Ref) → is_type s t ≡ ok true → t ≢ null
  unfolding is_type symbol
  is_type-ne_null t h = ground arith

  structure-loop :
      (t : Ref)
      → is_type s t ≡ ok true
      → (t ≢ null) × (structure s t ≡ structure_loop s (s.count + 1) t)
  unfolding structure assert_type
  structure-loop t h = let ne : t ≢ null = is_type-ne_null t h in (ne, rw (not_null t ne, h))

  -- In a well-formed store, for every type: `Types_Structure` ends and returns what the aliases of
  -- the type lead to.
  pub structure-Resolves :
      WellFormed s
      → (t : Ref) → is_type s t ≡ ok true
      → (u : Ref) × (structure s t ≡ ok u) × Resolves s t u
  structure-Resolves wf t h =
      let (ne, run) = structure-loop t h in
      let (u, ends, r) = structure_loop-Resolves wf (s.count + 1) t (omega (arith, wf.below t)) in
      (u, run ∙ ends, r)

  unaliased_ident_loop-ends :
      (wf : WellFormed s) (fuel : ℕ) (p q : Ref)
      → p ≢ null
      → (s.node p).symbol ≡ tok_ident
      → wf.rank q < fuel
      → (r : Ref) × (unaliased_ident_loop s fuel p q ≡ ok r)
        × (r ≢ null)
        × ((s.node r).symbol ≡ tok_ident)
  unfolding unaliased_ident_loop
  unaliased_ident_loop-ends wf zero p q ne is lt = absurd (omega arith)
  unaliased_ident_loop-ends wf (suc fuel) p q ne is lt = elim (Bool-cases (q == null)) [
    | inl e ↦ (p, rw e, ne, is)
    | inr e ↦
        let ne' : q ≢ null = ground arith in
        elim (Bool-cases ((s.node q).symbol == tok_ident)) [
          | inl id ↦
              let is' : (s.node q).symbol ≡ tok_ident = ground arith in
              rw (e, symbol_ok q ne', id, type_ok q ne')
                (unaliased_ident_loop-ends wf fuel q (s.node q).type ne' is'
                  (ground (arith, wf.falls q)))
          | inr other ↦ (p, rw (e, symbol_ok q ne', other), ne, is)
        ]
  ]

  -- The name by which two named types are compared.
  unfoldable pub final_name : Ref → Result Bytes
  final_name t = do q ← unaliased_ident s t; unaliased_name q s

  -- In a well-formed store every identifier has such a name.
  pub final_name-total :
      WellFormed s
      → (t : Ref) → t ≢ null
      → (s.node t).symbol ≡ tok_ident
      → (n : Bytes) × (final_name t ≡ ok n)
  unfolding final_name unaliased_ident unaliased_name ident
  final_name-total wf t ne is =
      let set : (t == null) ≡ false = ground arith in
      let (r, run, ne', is') =
        unaliased_ident_loop-ends wf (s.count + 1) t (s.node t).type ne is
          (ground (arith, wf.below (s.node t).type)) in
      let (i, holds) = wf.named r ne' is' in
      let set' : (r == null) ≡ false = ground arith in
      (i.unaliased_name, rw (set, symbol_ok t ne, is, type_ok t ne, run, set', holds))
