-- ===== src/Generator/TypeDescriptors/Levels.antt =====
-- The descriptor of a type has the ID of each base type at the level where a type test looks for it.
use obnc.Prelude.{
  ℕ, zero, suc, ◌+◌, ◌≤◌, ◌<◌, ◌≡◌, ◌∙◌, ◌↔◌, refl, sym, ap, true, false, some, List, [], ◌∷◌, ◌++◌,
  All, length, length-append, ltb, ◌==◌, ok, arith,
}
use obnc.Trees.Nodes.{Ref, null, Store}
use obnc.Types.Extension.{Ancestors, top, base, extension_level-length}
use obnc.Runtime.Traps.{id_at, has_id, obnc_is}
use obnc.Runtime.TypeTests.{td_of, id_at-before, id_at-last}
use obnc.Generator.TypeDescriptors.{
  Descriptor, type_desc_ident, generate_type_ids, generate_type_desc, is_operands,
}

module _ (s : Store) (id_of : Ref → Ref) where
  -- The identifier whose name is the ID of a type.
  abbrev pub Named : Ref → Type 0
  Named t = type_desc_ident s t ≡ ok (id_of t)

  ids_of : Ref → List Ref → List Ref
  ids_of e [] = id_of e ∷ []
  ids_of e (b ∷ l) = ids_of b l ++ id_of e ∷ []

  length-ids_of : (e : Ref) (l : List Ref) → length (ids_of e l) ≡ length l + 1
  unfolding ids_of
  length-ids_of e [] = refl
  length-ids_of e (b ∷ l) =
      omega (arith, length-append (ids_of b l) (id_of e ∷ []), length-ids_of b l)

  generate_type_ids-ids_of :
      (fuel : ℕ) {e : Ref} {l : List Ref}
      → Ancestors s e l
      → All Named (e ∷ l)
      → length l < fuel
      → generate_type_ids s fuel e ≡ ok (ids_of e l)
  unfolding generate_type_ids ids_of
  generate_type_ids-ids_of zero a named lt = absurd (omega arith)
  generate_type_ids-ids_of (suc fuel) (top h) named lt = rw (h, named.0) refl
  generate_type_ids-ids_of (suc fuel) (base {b} {l} h ne a) named lt =
      let other : (b == null) ≡ false = ground (arith, ne) in
      rw (h, other, generate_type_ids-ids_of fuel a named.1 (omega arith), named.0) refl

  id_at-own : (e : Ref) (l : List Ref) → id_at (length l) (ids_of e l) ≡ some (id_of e)
  unfolding ids_of id_at
  id_at-own e [] = refl
  id_at-own e (b ∷ l) =
      let last : length (ids_of b l) ≡ length (b ∷ l) = omega (arith, length-ids_of b l) in
      ap (λ n. id_at n (ids_of b l ++ id_of e ∷ [])) (sym last) ∙ id_at-last (ids_of b l) (id_of e)

  id_at-ids_of :
      (e b : Ref) (xs ys : List Ref) → id_at (length ys) (ids_of e (xs ++ b ∷ ys)) ≡ some (id_of b)
  unfolding ids_of
  id_at-ids_of e b [] ys =
      id_at-before (length ys) (ids_of b ys) (id_of e ∷ []) (omega (arith, length-ids_of b ys))
      ∙ id_at-own b ys
  id_at-ids_of e b (x ∷ xs) ys =
      let long = length-ids_of x (xs ++ b ∷ ys) in
      let parts = length-append xs (b ∷ ys) in
      id_at-before (length ys) (ids_of x (xs ++ b ∷ ys)) (id_of e ∷ []) (omega (arith, long, parts))
      ∙ id_at-ids_of x b xs ys

  -- For a record type `e` with the base type `b` anywhere above it, and no more base types than nodes,
  -- where each has its identifier: Generate.c declares a descriptor for `e` whose array has the declared
  -- length, which is `nids`. OBNC_IS on a variable that is not NULL, with this descriptor and the level
  -- that is printed for a test for `b`, holds for the ID that is printed for `b` and for no other.
  pub type_test-descriptor :
      (var e b : Ref) (xs ys : List Ref)
      → (var == 0) ≡ false
      → Ancestors s e (xs ++ b ∷ ys)
      → length (xs ++ b ∷ ys) ≤ s.count
      → All Named (e ∷ xs ++ b ∷ ys)
      → Named b
      → (d : Descriptor) × (k : ℕ) × (generate_type_desc s e ≡ ok d)
        × (length d.ids ≡ d.declared)
        × (length d.ids ≡ d.nids)
        × (is_operands s b ≡ ok (id_of b, k))
        × ((i : Ref) → (obnc_is var (td_of d.ids) i k ≡ true) ↔ (i ≡ id_of b))
  unfolding generate_type_desc is_operands obnc_is has_id
  type_test-descriptor var e b xs ys address a count named named_b =
      let (level_e, level_b) = extension_level-length s e b xs ys a count in
      let is = ids_of e (xs ++ b ∷ ys) in
      let ids = generate_type_ids-ids_of (s.count + 1) a named (omega arith) in
      let long = length-ids_of e (xs ++ b ∷ ys) in
      let parts = length-append xs (b ∷ ys) in
      let found = id_at-ids_of e b xs ys in
      let inside : ltb (length ys) (length is) ≡ true = ground (arith, long, parts) in
      let n = length xs + 1 + length ys in
      let size : length is ≡ n + 1 = omega (arith, long, parts) in
      (
        record { declared = n + 1; ids = is; nids = n + 1 },
        length ys,
        rw (level_e, ids) refl,
        size,
        size,
        rw (named_b, level_b) refl,
        λ i. rw (address, inside, has_id, found) (ground arith),
      )
