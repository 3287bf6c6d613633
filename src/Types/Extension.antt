-- ===== src/Types/Extension.antt =====
-- `Types_Extends` and `Types_ExtensionLevel` along the chain of base types.
use obnc.Prelude.{
  ℕ, zero, suc, ◌+◌, ◌≤◌, ◌<◌, ◌≡◌, refl, ◌≢◌, Bool, true, false, not, ◌||◌, List, [], ◌∷◌, ◌++◌,
  arith, length, length-append, All, ◌==◌, ok, Bool-cases, inl, inr,
}
use obnc.Trees.Nodes.{Ref, null, Store}
use obnc.Types.Structured.{
  record_base_type, descriptor, named_descriptor, extension_level_loop, extension_level,
}
use obnc.Types.Compatibility.{same, extends_loop, extends}

-- `l` are the types that `e` extends, from its base type up.
pub data Ancestors (s : Store) : Ref → List Ref → Type 0 where
  top : {e : Ref} → record_base_type s e ≡ ok null → Ancestors s e []
  base :
      {e b : Ref} {l : List Ref}
      → record_base_type s e ≡ ok b
      → b ≢ null
      → Ancestors s b l
      → Ancestors s e (b ∷ l)

abbrev pub any : (Ref → Bool) → List Ref → Bool
any p [] = false
any p (b ∷ l) = p b || any p l

module _ (s : Store) where
  -- `hits b` is how the type `b` compares with the type named `m`.
  pub record Compares (m : Ref) (hits : Ref → Bool) (b : Ref) : Type 0 where
    pub called : Ref
    pub named : named_descriptor s b ≡ ok called
    pub compared : same s called m ≡ ok (hits b)

  -- What the loop leaves: the first ancestor that is hit, or NULL.
  first_hit : (Ref → Bool) → List Ref → Ref
  first_hit hits [] = null
  first_hit hits (b ∷ l) = elim (hits b) [ true ↦ b | false ↦ first_hit hits l ]

  not_null : {p : Ref} → p ≢ null → (p == null) ≡ false
  not_null ne = ground arith

  abbrev start : List Ref → Ref
  start [] = null
  start (b ∷ _) = b

  base_of : {e : Ref} {l : List Ref} → Ancestors s e l → record_base_type s e ≡ ok (start l)
  base_of (top h) = h
  base_of (base h _ _) = h

  loop-first_hit :
      (m : Ref) (hits : Ref → Bool) (fuel : ℕ) {e : Ref} {l : List Ref}
      → Ancestors s e l
      → All (Compares m hits) l
      → length l < fuel
      → extends_loop s fuel m (start l) ≡ ok (first_hit hits l)
  unfolding extends_loop first_hit
  loop-first_hit m hits zero a c lt = absurd (omega arith)
  loop-first_hit m hits (suc fuel) (top h) c lt = refl
  loop-first_hit m hits (suc fuel) (base {b} {l} h ne a) (c, cs) lt =
      let rest = loop-first_hit m hits fuel a cs (omega arith) in
      rw (not_null ne, c.named, c.compared)
        (elim (Bool-cases (hits b)) [
          | inl e ↦ rw (e, first_hit)
          | inr e ↦ rw (e, first_hit, base_of a) rest
        ])

  first_hit-any :
      (hits : Ref → Bool) {e : Ref} {l : List Ref}
      → Ancestors s e l
      → not (first_hit hits l == null) ≡ any hits l
  unfolding first_hit
  first_hit-any hits (top h) = refl
  first_hit-any hits (base {b} {l} h ne a) = ground (arith, first_hit-any hits a, not_null ne)

  -- For an extensible type `e` with the ancestors `l` (at most as many as there are nodes) and a
  -- type `b` that compares with each of them: `Types_Extends` ends, and holds exactly if the
  -- descriptors of the two are the same or some ancestor of `e` is the same as `b`.
  pub extends-any :
      (b e : Ref) {d d' m : Ref} {l : List Ref} {x : Bool} (hits : Ref → Bool)
      → Ancestors s e l
      → length l ≤ s.count
      → descriptor s b ≡ ok d
      → descriptor s e ≡ ok d'
      → named_descriptor s b ≡ ok m
      → same s d d' ≡ ok x
      → All (Compares m hits) l
      → extends s b e ≡ ok (x || any hits l)
  unfolding extends
  extends-any b e {m} {l} {x = true} hits a lt hd hd' hm hx c = rw (hd, hd', hx)
  extends-any b e {m} {l} {x = false} hits a lt hd hd' hm hx c = rw (
    hd,
    hd',
    hx,
    hm,
    base_of a,
    loop-first_hit m hits (s.count + 1) a c (omega arith),
    first_hit-any hits a,
  )

  level_loop-length :
      (fuel n : ℕ) {e : Ref} {l : List Ref}
      → Ancestors s e l
      → length l < fuel
      → extension_level_loop s fuel n e ≡ ok (n + length l)
  unfolding extension_level_loop
  level_loop-length zero n a lt = absurd (omega arith)
  level_loop-length (suc fuel) n (top h) lt = rw h (ground arith)
  level_loop-length (suc fuel) n (base h ne a) lt =
      rw (h, not_null ne) (ground (arith, level_loop-length fuel (suc n) a (omega arith)))

  above :
      {e b : Ref} (xs : List Ref) {ys : List Ref} → Ancestors s e (xs ++ b ∷ ys) → Ancestors s b ys
  above [] (base h ne a) = a
  above (x ∷ xs) (base h ne a) = above xs a

  -- For a type `e` with at most as many ancestors as there are nodes: its level is the number of
  -- its ancestors, and the level of each ancestor is the number of those above it, so smaller.
  pub extension_level-length :
      (e b : Ref) (xs ys : List Ref)
      → Ancestors s e (xs ++ b ∷ ys)
      → length (xs ++ b ∷ ys) ≤ s.count
      → (extension_level s e ≡ ok (length xs + 1 + length ys))
        × (extension_level s b ≡ ok (length ys))
  unfolding extension_level
  extension_level-length e b xs ys a lt =
      let count = length-append xs (b ∷ ys) in
      (
        ground (arith, level_loop-length (s.count + 1) 0 a),
        ground (arith, level_loop-length (s.count + 1) 0 (above xs a)),
      )
