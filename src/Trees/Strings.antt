-- ===== src/Trees/Strings.antt =====
-- String constants, and the copy that `Trees_Value` makes of them.
use obnc.Prelude.{ℕ, ◌+◌, ◌^◌, ◌<◌, ◌≡◌, ◌≢◌, true, false, arith, Bytes, length, ◌==◌, ok}
use obnc.Prelude.Int.{ℤ, pos}
use obnc.Trees.Symbols.{tok_string, tok_integer, sym_integer_type, sym_string_type, constant_kind}
use obnc.Trees.Nodes.{Ref, integer_value, string_value, Ident, Store, write, symbol, type, left}
use obnc.Trees.Idents.{ident}
use obnc.Trees.Constants.{new_string, string, integer, int_of_size, value}
use obnc.Trees.RoundTrips.{blank, leaf_store, Grows, IsNew, Makes}

-- The store behind `new_string`, write by write.
string_store : Bytes → Store → Store
unfolding write leaf_store
string_store b s =
    let p = s.count + 1 in
    let s₁ = write p (blank tok_string s.yylineno) (record s { count = p }) in
    let s₂ = write p (record (s₁.node p) { value = string_value b }) s₁ in
    let s₃ = leaf_store tok_integer (integer_value (int_of_size (length b))) sym_integer_type s₂ in
    let t = s₃.count + 1 in
    let s₄ =
      write t (record (blank sym_string_type s.yylineno) { left = p + 1 })
        (record s₃ { count = t }) in
    write p (record (s₄.node p) { type = t }) s₄

-- Where a string constant keeps its length: the left child of its type.
pub record LengthAt (p : Ref) (t : Store) (n : ℤ) : Type 0 where
  pub type_node : Ref
  pub length_node : Ref
  pub has_type : type p t ≡ ok type_node
  pub has_length : left type_node t ≡ ok length_node
  pub holds : integer length_node t ≡ ok n

module _ (s : Store) (ready : s.initialized ≡ true) (b : Bytes) where
  new_string_lem : new_string b s ≡ ok (s.count + 1, string_store b s)
  unfolding new_string string_store
  new_string_lem =
      let nz : (s.count + 1 == 0) ≡ false = ground arith in
      let nz' : (s.count + 1 + 1 == 0) ≡ false = ground arith in rw (ready, nz, nz')

  string_store-Grows : Grows s (string_store b s)
  unfolding string_store
  string_store-Grows = record { more = omega arith; old = λ q le. ground arith; ready = ready }

  string_store-LengthAt :
      length b < 2 ^ 31 → LengthAt (s.count + 1) (string_store b s) (pos (length b))
  unfolding string_store type left integer int_of_size
  string_store-LengthAt small = record {
    type_node = s.count + 1 + 1 + 1 + 1;
    length_node = s.count + 1 + 1;
    has_type = ground arith;
    has_length = ground arith;
    holds = ground arith;
  }

  string_store-IsNew : IsNew s (string_store b s) (s.count + 1) tok_string sym_string_type
  unfolding string_store symbol type
  string_store-IsNew = record {
    fresh = omega arith;
    allocated = omega arith;
    has_symbol = ground arith;
    type_symbol = (s.count + 1 + 1 + 1 + 1, ground arith, ground arith);
  }

  pub string_store-Makes : Makes s (new_string b s) string b tok_string sym_string_type
  unfolding string_store string
  string_store-Makes = (
    s.count + 1,
    string_store b s,
    new_string_lem,
    ground arith,
    string_store-IsNew,
    string_store-Grows,
  )

  -- In an initialized store, for a text of less than 2^31 bytes: `Trees_NewString` makes a new node
  -- from which `Trees_String` reads the text, whose type holds its length.
  new_string-roundtrip :
      length b < 2 ^ 31
      → (p : Ref) × (t : Store) × (new_string b s ≡ ok (p, t))
        × (string p t ≡ ok b)
        × LengthAt p t (pos (length b))
        × IsNew s t p tok_string sym_string_type
        × Grows s t
  unfolding string_store-Makes
  new_string-roundtrip small =
      let (p, t, run, text, new, grows) = string_store-Makes in
      (p, t, run, text, string_store-LengthAt small, new, grows)

-- For a constant identifier with a string value, in an initialized store: its value is copied to a
-- new node with the same text, so that a later change of that node does not reach the constant.
value-copies :
    (s : Store) (p : Ref) (i : Ident) (b : Bytes)
    → s.initialized ≡ true
    → ident p s ≡ ok i
    → i.kind ≡ constant_kind
    → symbol i.value s ≡ ok tok_string
    → string i.value s ≡ ok b
    → Makes s (value p s) string b tok_string sym_string_type
unfolding value
value-copies s p i b ready he hk hs ht = rw (he, hk, hs, ht) (string_store-Makes s ready b)

-- For a constant identifier with any other value: the value's own node is returned, and the store
-- does not change.
pub value-shares :
    (s : Store) (p : Ref) (i : Ident) (sym : ℕ)
    → ident p s ≡ ok i
    → i.kind ≡ constant_kind
    → symbol i.value s ≡ ok sym
    → sym ≢ tok_string
    → value p s ≡ ok (i.value, s)
unfolding value
value-shares s p i sym he hk hs ne =
    let other : (sym == tok_string) ≡ false = ground arith in rw (he, hk, hs, other)
