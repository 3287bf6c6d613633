-- ===== src/Trees/Setters.antt =====
-- What the setters of identifiers write.
use obnc.Prelude.{ℕ, ◌<◌, ◌≡◌, ◌≢◌, refl, true, false, arith, ◌==◌, Bytes, ok, Result, ltb}
use obnc.Trees.Symbols.{kind_count, constant_kind}
use obnc.Trees.Nodes.{Ref, null, Ident, ident_value, Store, write}
use obnc.Trees.Idents.{
  ident, set_ident, set_name, set_unaliased_name, set_kind, set_local, set_imported, set_exported,
  set_internal, set_used,
}
use obnc.Trees.Constants.{set_value_of}

-- `run` succeeds; the identifier at `p` becomes `j`, and nothing else changes.
pub record Updated (s : Store) (p : Ref) (j : Ident) (t : Store) : Type 0 where
  pub becomes : ident p t ≡ ok j
  pub ready : t.initialized ≡ s.initialized
  pub count : t.count ≡ s.count
  pub others : (q : Ref) → q ≢ p → t.node q ≡ s.node q
  pub symbol : (t.node p).symbol ≡ (s.node p).symbol
  pub type : (t.node p).type ≡ (s.node p).type
  pub left : (t.node p).left ≡ (s.node p).left
  pub right : (t.node p).right ≡ (s.node p).right

abbrev pub Updates : Store → Ref → Ident → Result Store → Type 0
Updates s p j run = (t : Store) × (run ≡ ok t) × Updated s p j t

module _ (s : Store) (p : Ref) (i : Ident) (is : ident p s ≡ ok i) where
  not_null : p ≢ null
  unfolding ident
  not_null = ground arith

  set_ident-Updates : (j : Ident) → Updates s p j (set_ident p j s)
  unfolding set_ident ident
  set_ident-Updates j =
      let ne = not_null in
      (
        write p (record (s.node p) { value = ident_value j }) s,
        ground arith,
        record {
          becomes = ground arith;
          ready = refl;
          count = refl;
          others = λ q h. ground arith;
          symbol = ground arith;
          type = ground arith;
          left = ground arith;
          right = ground arith;
        },
      )

  pub set_used-Updates : Updates s p (record i { used = true }) (set_used p s)
  unfolding set_used
  set_used-Updates = rw is (set_ident-Updates (record i { used = true }))

  -- For every identifier node, name and valid kind: each of the eight setters succeeds, changes its
  -- own field of that identifier, and changes nothing else.
  pub setters-Updates :
      (n : Bytes) (k : ℕ)
      → k < kind_count
      → Updates s p (record i { name = n }) (set_name n p s)
        × Updates s p (record i { unaliased_name = n }) (set_unaliased_name n p s)
        × Updates s p (record i { kind = k }) (set_kind k p s)
        × Updates s p (record i { local = true }) (set_local p s)
        × Updates s p (record i { imported = true }) (set_imported p s)
        × Updates s p (record i { exported = true }) (set_exported p s)
        × Updates s p (record i { internal = true }) (set_internal p s)
        × Updates s p (record i { used = true }) (set_used p s)
  unfolding set_name set_unaliased_name set_kind set_local set_imported set_exported set_internal
      set_used
  setters-Updates n k h =
      let in_range : ltb k kind_count ≡ true = ground arith in
      rw (is, in_range)
        (
          set_ident-Updates (record i { name = n }),
          set_ident-Updates (record i { unaliased_name = n }),
          set_ident-Updates (record i { kind = k }),
          set_ident-Updates (record i { local = true }),
          set_ident-Updates (record i { imported = true }),
          set_ident-Updates (record i { exported = true }),
          set_ident-Updates (record i { internal = true }),
          set_ident-Updates (record i { used = true }),
        )

  -- For every constant identifier and node: `Trees_SetValue` changes the value of that identifier
  -- and nothing else.
  set_value_of-Updates :
      (v : Ref)
      → v ≢ null
      → i.kind ≡ constant_kind
      → Updates s p (record i { value = v }) (set_value_of v p s)
  unfolding set_value_of
  set_value_of-Updates v ne e =
      let set : (v == null) ≡ false = ground arith in
      let const : (i.kind == constant_kind) ≡ true = ground arith in
      rw (set, is, const) (set_ident-Updates (record i { value = v }))
