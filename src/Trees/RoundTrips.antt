-- ===== src/Trees/RoundTrips.antt =====
-- What the constructors of constants build, and that the accessors read it back.
use obnc.Prelude.{
  ℕ, ◌+◌, ◌≤◌, ◌<◌, ◌≡◌, refl, Bool, true, false, arith, ◌==◌, Result, ok, ◌>>=◌, if◌then◌else◌,
}
use obnc.Prelude.Int.{ℤ}
use obnc.Trees.Symbols.{
  tok_true, tok_false, tok_integer, tok_real, sym_char_constant, sym_set_constant, sym_boolean_type,
  sym_integer_type, sym_real_type, sym_char_type, sym_set_type,
}
use obnc.Trees.Nodes.{
  Ref, null, Value, no_value, integer_value, real_value, char_value, set_value, NodeDesc, Store,
  read, write, symbol, type,
}
use obnc.Trees.Constants.{
  new_typed_leaf, integer_of, real_of, char_of, set_of, new_boolean, boolean, new_integer, integer,
  new_real, real, new_char, char, new_set, set,
}

-- `t` has the nodes of `s`, unchanged, and more.
pub record Grows (s t : Store) : Type 0 where
  pub more : s.count < t.count
  pub old : (q : Ref) → q ≤ s.count → t.node q ≡ s.node q
  pub ready : t.initialized ≡ true

-- At `p` stands a new node with the symbol `sym`, whose type is a node with the symbol `ty`.
pub record IsNew (s t : Store) (p : Ref) (sym ty : ℕ) : Type 0 where
  pub fresh : s.count < p
  pub allocated : p ≤ t.count
  pub has_symbol : symbol p t ≡ ok sym
  pub type_symbol : (q : Ref) × (type p t ≡ ok q) × (symbol q t ≡ ok ty)

abbrev pub blank : ℕ → ℕ → NodeDesc
blank sym line = record {
  value = no_value;
  symbol = sym;
  line_number = line;
  marked = false;
  type = null;
  left = null;
  right = null;
}

-- The store behind `new_typed_leaf`, write by write.
unfoldable pub leaf_store : ℕ → Value → ℕ → Store → Store
unfolding write
leaf_store sym v ty s =
    let p = s.count + 1 in
    let s₁ = write p (blank sym s.yylineno) (record s { count = p }) in
    let s₂ = write p (record (s₁.node p) { value = v }) s₁ in
    let t = p + 1 in
    let s₃ = write t (blank ty s.yylineno) (record s₂ { count = t }) in
    write p (record (s₃.node p) { type = t }) s₃

module _ (s : Store) (ready : s.initialized ≡ true) where
  new_typed_leaf_lem :
      (sym : ℕ) (v : Value) (ty : ℕ)
      → new_typed_leaf sym v ty s ≡ ok (s.count + 1, leaf_store sym v ty s)
  unfolding new_typed_leaf leaf_store
  new_typed_leaf_lem sym v ty = let nz : (s.count + 1 == 0) ≡ false = ground arith in rw (ready, nz)

  leaf_store-Grows : (sym : ℕ) (v : Value) (ty : ℕ) → Grows s (leaf_store sym v ty s)
  unfolding leaf_store
  leaf_store-Grows sym v ty = record {
    more = omega arith;
    old = λ q le. ground arith;
    ready = ready;
  }

  leaf_store-node :
      (sym : ℕ) (v : Value) (ty : ℕ) → ((leaf_store sym v ty s).node (s.count + 1)).value ≡ v
  unfolding leaf_store
  leaf_store-node sym v ty = ground arith

  leaf_store-IsNew :
      (sym : ℕ) (v : Value) (ty : ℕ) → IsNew s (leaf_store sym v ty s) (s.count + 1) sym ty
  unfolding leaf_store symbol type
  leaf_store-IsNew sym v ty = record {
    fresh = omega arith;
    allocated = omega arith;
    has_symbol = ground arith;
    type_symbol = (s.count + 1 + 1, ground arith, ground arith);
  }

-- A run that makes the node `p` in the store `t`, which `get` reads as `v`.
abbrev pub Makes {ℓ} :
    {A : Type ℓ}
    → Store
    → Result (Ref × Store)
    → (Ref → Store → Result A)
    → A
    → (sym ty : ℕ) → Type ℓ
Makes s run get v sym ty =
    (p : Ref) × (t : Store) × (run ≡ ok (p, t)) × (get p t ≡ ok v) × IsNew s t p sym ty × Grows s t

module _ (s : Store) (ready : s.initialized ≡ true) where
  leaf-Makes {ℓ} :
      {A : Type ℓ} (sym : ℕ) (v : Value) (ty : ℕ) (of : Value → Result A) (a : A)
      → of v ≡ ok a
      → Makes s (new_typed_leaf sym v ty s) (λ p t. read p t >>= λ n. of n.value) a sym ty
  unfolding read
  leaf-Makes sym v ty of a e =
      let nz : (s.count + 1 == 0) ≡ false = ground arith in
      (
        s.count + 1,
        leaf_store sym v ty s,
        new_typed_leaf_lem s ready sym v ty,
        rw (nz, leaf_store-node s ready sym v ty) e,
        leaf_store-IsNew s ready sym v ty,
        leaf_store-Grows s ready sym v ty,
      )

  -- In an initialized store, for every value: the constructor of an integer, real, character or set
  -- constant makes a new node with the constant's symbol and type, from which the accessor reads
  -- the value back, and changes no node made before.
  pub constants-roundtrip :
      (i : ℤ) (r c e : ℕ)
      → Makes s (new_integer i s) integer i tok_integer sym_integer_type
        × Makes s (new_real r s) real r tok_real sym_real_type
        × Makes s (new_char c s) char c sym_char_constant sym_char_type
        × Makes s (new_set e s) set e sym_set_constant sym_set_type
  unfolding new_integer integer new_real real new_char char new_set set
  constants-roundtrip i r c e = (
    leaf-Makes tok_integer (integer_value i) sym_integer_type integer_of i refl,
    leaf-Makes tok_real (real_value r) sym_real_type real_of r refl,
    leaf-Makes sym_char_constant (char_value c) sym_char_type char_of c refl,
    leaf-Makes sym_set_constant (set_value e) sym_set_type set_of e refl,
  )

  -- In an initialized store: a Boolean constant is made and read back likewise; its value is held
  -- by its symbol.
  pub boolean-roundtrip :
      (b : Bool)
      → Makes s (new_boolean b s) boolean b (if b then tok_true else tok_false) sym_boolean_type
  unfolding new_boolean boolean leaf_store
  boolean-roundtrip true = (
    s.count + 1,
    leaf_store tok_true no_value sym_boolean_type s,
    new_typed_leaf_lem s ready tok_true no_value sym_boolean_type,
    ground arith,
    leaf_store-IsNew s ready tok_true no_value sym_boolean_type,
    leaf_store-Grows s ready tok_true no_value sym_boolean_type,
  )
  boolean-roundtrip false = (
    s.count + 1,
    leaf_store tok_false no_value sym_boolean_type s,
    new_typed_leaf_lem s ready tok_false no_value sym_boolean_type,
    ground arith,
    leaf_store-IsNew s ready tok_false no_value sym_boolean_type,
    leaf_store-Grows s ready tok_false no_value sym_boolean_type,
  )
