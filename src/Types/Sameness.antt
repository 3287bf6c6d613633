-- ===== src/Types/Sameness.antt =====
-- `Types_Same` as a test on resolved types.
use obnc.Prelude.{
  ℕ, ◌≡◌, refl, ◌≢◌, Bool, true, false, ◌&&◌, ◌||◌, arith, Bytes, bytes_eq, bytes_eq_comm, ◌==◌, [],
  Result, ok, abort, diverge, halts, ◌>>=◌, ◌and_also◌, Bool-cases, inl, inr,
}
use obnc.Trees.Symbols.{tok_ident}
use obnc.Trees.Nodes.{Ref, null, Store}
use obnc.Trees.Idents.{unaliased_name}
use obnc.Types.Basics.{unaliased_ident, is_type, assert_type, structure, basic, is_basic_symbol}
use obnc.Types.Resolution.{WellFormed, is_type-ne_null, symbol_ok, final_name, final_name-total}
use obnc.Types.Compatibility.{same}

-- `t` is a type whose aliases lead to the node `u`.
pub record Typed (s : Store) (t u : Ref) : Type 0 where
  pub is : is_type s t ≡ ok true
  pub resolves : structure s t ≡ ok u
  pub solid : u ≢ null

abbrev or_empty : Result Bytes → Bytes
or_empty (ok n) = n
or_empty abort = []
or_empty diverge = []
or_empty halts = []

module _ (s : Store) where
  abbrev symbol_of : Ref → ℕ
  symbol_of t = (s.node t).symbol

  abbrev pub name_of : Ref → Bytes
  name_of t = or_empty (final_name s t)

  -- Two types `a` and `b`, resolved to `u` and `v`, are the same: they resolve to one node, or are
  -- basic types with one symbol, or are identifiers whose aliases end in one name.
  abbrev pub is_same : Ref → Ref → Ref → Ref → Bool
  is_same a u b v =
      (u == v)
      || (is_basic_symbol (symbol_of a)
          && (is_basic_symbol (symbol_of b) && (symbol_of a == symbol_of b)))
      || ((symbol_of a == tok_ident)
          && ((symbol_of b == tok_ident) && bytes_eq (name_of a) (name_of b)))

  pub assert_type_ok : {t u : Ref} → Typed s t u → assert_type s t ≡ ok tt
  unfolding assert_type
  assert_type_ok h = rw (h.is)

  basic_ok : {t u : Ref} → Typed s t u → basic s t ≡ ok (is_basic_symbol (symbol_of t))
  unfolding basic
  basic_ok {t} h = rw (assert_type_ok h, symbol_ok s t (is_type-ne_null s t h.is))

  -- The comparison of the two names, as `Types_Same` makes it.
  abbrev compared : Ref → Ref → Result Bool
  compared a b = do
    a' ← unaliased_ident s a
    n ← unaliased_name a' s
    b' ← unaliased_ident s b
    m ← unaliased_name b' s
    ok (bytes_eq n m)

  compared_ok :
      (a b : Ref) {n m : Bytes}
      → final_name s a ≡ ok n
      → final_name s b ≡ ok m
      → compared a b ≡ ok (bytes_eq (name_of a) (name_of b))
  unfolding final_name
  compared_ok a b ha hb = ground arith

  names_test :
      WellFormed s
      → (a b : Ref) → a ≢ null
      → b ≢ null
      → (ok (symbol_of a == tok_ident)
          and_also (ok (symbol_of b == tok_ident) and_also compared a b))
        ≡ ok (
            (symbol_of a == tok_ident)
            && ((symbol_of b == tok_ident) && bytes_eq (name_of a) (name_of b)))
  names_test wf a b na nb = elim (Bool-cases (symbol_of a == tok_ident)) [
    | inr e ↦ rw e
    | inl e ↦ elim (Bool-cases (symbol_of b == tok_ident)) [
      | inr e' ↦ rw (e, e')
      | inl e' ↦
          let (n, hn) = final_name-total s wf a na (ground arith) in
          let (m, hm) = final_name-total s wf b nb (ground arith) in
          rw (e, e') (compared_ok a b hn hm)
    ]
  ]

  -- In a well-formed store `Types_Same` returns that test, for all resolved types.
  pub same_lem :
      WellFormed s → {a u b v : Ref} → Typed s a u → Typed s b v → same s a b ≡ ok (is_same a u b v)
  unfolding same
  same_lem wf {a} {u} {b} {v} ha hb =
      let na = is_type-ne_null s a ha.is in
      let nb = is_type-ne_null s b hb.is in
      rw
        (
          assert_type_ok ha,
          assert_type_ok hb,
          ha.resolves,
          hb.resolves,
          basic_ok ha,
          basic_ok hb,
          symbol_ok s a na,
          symbol_ok s b nb,
        )
        (ground (arith, names_test wf a b na nb))

  -- In a well-formed store, for two resolved types: `Types_Same` ends, holds for a type and
  -- itself, and does not depend on the order of its arguments.
  pub same_comm :
      WellFormed s
      → {a u b v : Ref} → Typed s a u
      → Typed s b v
      → (same s a a ≡ ok true) × (same s a b ≡ same s b a) × ((x : Bool) × (same s a b ≡ ok x))
  same_comm wf {a} {u} {b} {v} ha hb =
      rw (same_lem wf ha ha, same_lem wf ha hb, same_lem wf hb ha)
        (
          ground arith,
          ground (arith, bytes_eq_comm (name_of a) (name_of b)),
          (is_same a u b v, refl),
        )

  -- In a well-formed store: two types whose aliases lead to one node are the same, and a type that
  -- is neither named nor basic is the same only as a type whose aliases lead to its own node.
  same-anonymous :
      WellFormed s
      → {a u b c v : Ref} → Typed s a u
      → Typed s b u
      → Typed s c v
      → is_basic_symbol (s.node a).symbol ≡ false
      → (s.node a).symbol ≢ tok_ident
      → (same s a b ≡ ok true) × (same s a c ≡ ok (u == v))
  same-anonymous wf ha hb hc plain unnamed =
      rw (same_lem wf ha hb, same_lem wf ha hc) (ground arith, ground arith)
