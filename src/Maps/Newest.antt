-- ===== src/Maps/Newest.antt =====
-- `DeletedDuplicates` and `Maps_Apply`: one entry for each key, with the value that `Maps_At` sees.
use mathlib.Core.List.{append-nil, append_assoc}
use obnc.Prelude.{
  ◌≡◌, refl, ◌∙◌, sym, Bool, true, false, Option, none, some, [], ◌∷◌, ◌++◌, arith, Bytes,
  bytes_eq_iff, Bool-cases, inl, inr,
}
use obnc.Maps.{
  MapOf, new, put, has_key, at, deleted_duplicates_loop, deleted_duplicates, apply_loop, apply,
}

module _ {ℓ} {V : Type ℓ} where
  -- No key occurs twice.
  abbrev pub Distinct : MapOf V → Type 0
  Distinct [] = Unit
  Distinct ((k, v) ∷ m) = (has_key k m ≡ false) × Distinct m

  abbrev pub is_some : Option V → Bool
  is_some (some v) = true
  is_some none = false

  abbrev first : Option V → Option V → Option V
  first (some v) o = some v
  first none o = o

  -- For every key and map: `Maps_HasKey` tells whether `Maps_At` finds a value.
  pub has_key-at : (k : Bytes) (m : MapOf V) → has_key k m ≡ is_some (at k m)
  unfolding has_key at
  has_key-at k [] = refl
  has_key-at k ((j, v) ∷ m) = ground (arith, has_key-at k m)

  -- The loop keeps what `result` has, and adds what only `map` has.
  loop-at :
      (j : Bytes) (m r : MapOf V) → at j (deleted_duplicates_loop m r) ≡ first (at j r) (at j m)
  unfolding deleted_duplicates_loop at put
  loop-at j [] r = ground arith
  loop-at j ((k, v) ∷ m) r =
      ground (arith, loop-at j m r, loop-at j m ((k, v) ∷ r), has_key-at k r, bytes_eq_iff k j)

  loop-Distinct : (m r : MapOf V) → Distinct r → Distinct (deleted_duplicates_loop m r)
  unfolding deleted_duplicates_loop put
  loop-Distinct [] r d = d
  loop-Distinct ((k, v) ∷ m) r d = elim (Bool-cases (has_key k r)) [
    | inl e ↦ rw e (loop-Distinct m r d)
    | inr e ↦ rw e (loop-Distinct m ((k, v) ∷ r) (e, d))
  ]

  apply_loop-append : (m r : MapOf V) → apply_loop (λ k v s. s ++ (k, v) ∷ []) m r ≡ r ++ m
  unfolding apply_loop
  apply_loop-append [] r = sym (append-nil r)
  apply_loop-append ((k, v) ∷ m) r =
      apply_loop-append m (r ++ (k, v) ∷ []) ∙ append_assoc r ((k, v) ∷ []) m

  -- The calls that `Maps_Apply` makes, in order.
  pub visited : MapOf V → MapOf V
  unfolding apply
  visited m = apply (λ k v s. s ++ (k, v) ∷ []) m []

  visited-deleted_duplicates : (m : MapOf V) → visited m ≡ deleted_duplicates m
  unfolding visited
  visited-deleted_duplicates m = apply_loop-append (deleted_duplicates m) []

  -- For every map: `Maps_Apply` visits no key twice, and the entries that it visits have for each
  -- key just what `Maps_At` finds in the map, a missing key included.
  pub visited-newest :
      (m : MapOf V) → Distinct (visited m) × ((j : Bytes) → at j (visited m) ≡ at j m)
  unfolding deleted_duplicates new
  visited-newest m =
      rw (visited-deleted_duplicates m)
        (loop-Distinct m [] tt, λ j. loop-at j m [] ∙ unfold at in refl)
