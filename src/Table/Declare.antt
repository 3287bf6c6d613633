-- ===== src/Table/Declare.antt =====
-- `Table_Put`, and the opening and closing of scopes.
use obnc.Prelude.{
  ◌≡◌, refl, ◌≢◌, Bool, true, false, List, [], ◌∷◌, arith, Bytes, bytes_eq, ◌==◌, if◌then◌else◌, ok,
}
use obnc.Maps
use obnc.Maps.{MapOf}
use obnc.Trees.Nodes.{Ref, null, Store, symbol}
use obnc.Trees.Idents.{ident, local, name}
use obnc.Table.Scopes.{
  State, current, is_local, set_current, put, declared, or_null, locally_declared, scope_local,
  open_scope, close_scope,
}
use obnc.Table.Invariant.{IsEntry, Inv}

module _ {t : Store} {l : Bool} {n : Bytes} {p : Ref} (e : IsEntry t l n p) where
  pub entry_set : (p == null) ≡ false
  entry_set = ground (arith, e.ne_null)

  pub symbol_entry : symbol p t ≡ ok (t.node p).symbol
  unfolding symbol
  symbol_entry = rw entry_set

  pub ident_entry : ident p t ≡ ok e.holds
  unfolding ident
  ident_entry = rw (entry_set, e.value)

  pub name_entry : name p t ≡ ok n
  unfolding name
  name_entry = rw (ident_entry, e.named)

  pub local_entry : local p t ≡ ok l
  unfolding local
  local_entry = rw (ident_entry, e.placed)

module _ (s : State) (h : Inv s) where
  put_run :
      (n : Bytes) (p : Ref)
      → IsEntry s.trees (is_local s) n p
      → Maps.has_key n (current s) ≡ false
      → put p s ≡ ok (set_current (Maps.put n p (current s)) s)
  unfolding put scope_local locally_declared
  put_run n p e new =
      rw (h.ready, entry_set e, symbol_entry e, e.is_ident, local_entry e, name_entry e, new)
        (ground arith)

put_state-Inv :
    (s : State) (ms : List (MapOf Ref)) (n : Bytes) (p : Ref)
    → let s' = record s { inner = ms } in
      Inv s'
      → IsEntry s.trees (is_local s') n p
      → Maps.has_key n (current s') ≡ false
      → Inv (set_current (Maps.put n p (current s')) s')
unfolding set_current current is_local Maps.put
put_state-Inv s [] n p h e new = record {
  ready = h.ready;
  trees_ready = h.trees_ready;
  global = ((new, h.global.0), (e, h.global.1));
  inner = tt;
  predeclared = h.predeclared;
}
put_state-Inv s (m ∷ ms) n p h e new = record {
  ready = h.ready;
  trees_ready = h.trees_ready;
  global = h.global;
  inner = (((new, h.inner.0.0), (e, h.inner.0.1)), h.inner.1);
  predeclared = h.predeclared;
}

put_state-declared :
    (s : State) (ms : List (MapOf Ref)) (n j : Bytes) (p : Ref)
    → p ≢ null
    → let s' = record s { inner = ms } in
      declared j (set_current (Maps.put n p (current s')) s')
      ≡ (if bytes_eq n j then p else declared j s')
unfolding set_current current is_local declared Maps.put Maps.at
put_state-declared s [] n j p ne = ground arith
put_state-declared s (m ∷ ms) n j p ne = ground arith

-- In a table that satisfies the invariant, for an identifier node that is local exactly in an inner
-- scope, with a name that the current scope does not have: `Table_Put` succeeds and keeps the
-- invariant; the scopes then give the node for that name, and for each other name what they gave.
pub put-declares :
    (s : State) (n : Bytes) (p : Ref)
    → Inv s
    → IsEntry s.trees (is_local s) n p
    → Maps.has_key n (current s) ≡ false
    → (s' : State) × (put p s ≡ ok s')
      × Inv s'
      × ((j : Bytes) → declared j s' ≡ (if bytes_eq n j then p else declared j s))
put-declares s n p h e new = (
  set_current (Maps.put n p (current s)) s,
  put_run s h n p e new,
  put_state-Inv s s.inner n p h e new,
  λ j. put_state-declared s s.inner n j p e.ne_null,
)

-- In a table that satisfies the invariant: opening a scope succeeds and keeps the invariant. The new
-- scope is inner and empty, and a name means there what it means in the global scope, also where
-- the scope around the new one declares it. Closing the new scope gives the table back.
pub open-close :
    (s : State)
    → Inv s
    → (s' : State) × (open_scope s ≡ ok s')
      × Inv s'
      × (scope_local s' ≡ ok true)
      × ((j : Bytes)
          → (locally_declared j s' ≡ ok false) × (declared j s' ≡ or_null (Maps.at j s.global)))
      × (close_scope s' ≡ ok s)
unfolding open_scope close_scope scope_local is_local locally_declared current declared Maps.has_key
    Maps.at Maps.new
open-close s h = (
  record s { inner = Maps.new ∷ s.inner },
  rw h.ready,
  record {
    ready = h.ready;
    trees_ready = h.trees_ready;
    global = h.global;
    inner = ((tt, tt), h.inner);
    predeclared = h.predeclared;
  },
  rw h.ready,
  λ j. (rw h.ready, refl),
  rw h.ready,
)
