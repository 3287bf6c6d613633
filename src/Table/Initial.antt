-- ===== src/Table/Initial.antt =====
-- `Table_Init` makes the predeclared identifiers and an empty global scope.
use obnc.Prelude.{
  ℕ, ◌+◌, ◌≤◌, ◌<◌, ◌≡◌, ◌∙◌, refl, ◌≢◌, true, false, List, [], ◌∷◌, arith, Bytes, All, ◌==◌, ok,
}
use obnc.Maps
use obnc.Trees.Symbols.{tok_ident, kind_count}
use obnc.Trees.Nodes
use obnc.Trees.Nodes.{
  Ref, null, Ident, ident_value, Store, write, read, symbol, new_leaf, new_node, set_type,
}
use obnc.Trees.Idents.{ident, fresh_ident, new_ident, set_kind}
use obnc.Trees.RoundTrips.{blank}
use obnc.Trees.Setters.{Updated, setters-Updates}
use obnc.Table.Scopes.{State, predec_idents, init_loop, init}
use obnc.Table.Invariant.{IsPredeclared, Inv}

ident_store : Bytes → Store → Store
unfolding write
ident_store n t =
    let p = t.count + 1 in
    let u = write p (blank tok_ident t.yylineno) (record t { count = p }) in
    write p (record (u.node p) { value = ident_value (fresh_ident n) }) u

module _ (t : Store) (ready : t.initialized ≡ true) where
  nz : (t.count + 1 == 0) ≡ false
  nz = ground arith

  new_ident_run : (n : Bytes) → new_ident n t ≡ ok (t.count + 1, ident_store n t)
  unfolding new_ident ident_store
  new_ident_run n = rw (ready, nz)

  new_leaf_run :
      (ty : ℕ)
      → new_leaf ty t
        ≡ ok (
          t.count + 1,
          write (t.count + 1) (blank ty t.yylineno) (record t { count = t.count + 1 }),
        )
  unfolding new_leaf
  new_leaf_run ty = rw ready

set_type_run :
    (t : Store) (q p : Ref)
    → p ≢ null
    → set_type q p t ≡ ok (write p (record (t.node p) { type = q }) t)
unfolding set_type
set_type_run t q p ne = let set : (p == null) ≡ false = ground arith in rw set

ident-ident_store :
    (n : Bytes) (t : Store) → ident (t.count + 1) (ident_store n t) ≡ ok (fresh_ident n)
unfolding ident ident_store
ident-ident_store n t = ground arith

-- `u` has the nodes of `t`, unchanged.
record Extends (t u : Store) : Type 0 where
  ready : u.initialized ≡ true
  more : t.count ≤ u.count
  old : (q : Ref) → q ≤ t.count → u.node q ≡ t.node q

IsPredeclared-Extends :
    {t u : Store} {p : Ref} → Extends t u → IsPredeclared t p → IsPredeclared u p
IsPredeclared-Extends {p} x h = record {
  ne_null = h.ne_null;
  allocated = omega (arith, x.more, h.allocated);
  is_ident = ground (arith, x.old p, h.is_ident, h.allocated);
}

abbrev HasKind : Bytes × ℕ × ℕ → Type 0
HasKind (n, k, ty) = k < kind_count

-- One round: the store behind it.
round_store : (t u : Store) (ty : ℕ) → Store
unfolding write
round_store t u ty =
    let p = t.count + 1 in
    let v = write (u.count + 1) (blank ty u.yylineno) (record u { count = u.count + 1 }) in
    write p (record (v.node p) { type = u.count + 1 }) v

round_store-Extends :
    (t u : Store) (n : Bytes) (j : Ident) (ty : ℕ)
    → t.initialized ≡ true
    → Updated (ident_store n t) (t.count + 1) j u
    → Extends t (round_store t u ty) × IsPredeclared (round_store t u ty) (t.count + 1)
unfolding round_store ident_store
round_store-Extends t u n j ty ready w = (
  record {
    ready = w.ready ∙ ready;
    more = omega (arith, w.count);
    old = λ q le. ground (arith, w.others q, w.count);
  },
  record {
    ne_null = omega arith;
    allocated = omega (arith, w.count);
    is_ident = ground (arith, w.symbol, w.count);
  },
)

loop_run :
    (names : List (Bytes × ℕ × ℕ)) (n : Bytes) (k ty : ℕ) (t u end : Store) (nodes : List Ref)
    → t.initialized ≡ true
    → u.initialized ≡ true
    → set_kind k (t.count + 1) (ident_store n t) ≡ ok u
    → init_loop names (round_store t u ty) ≡ ok (nodes, end)
    → init_loop ((n, k, ty) ∷ names) t ≡ ok ((t.count + 1) ∷ nodes, end)
unfolding init_loop round_store
loop_run names n k ty t u end nodes ready ready' kinded run =
    let v = write (u.count + 1) (blank ty u.yylineno) (record u { count = u.count + 1 }) in
    let ne : t.count + 1 ≢ null = omega arith in
    rw (
      new_ident_run t ready n,
      kinded,
      new_leaf_run u ready' ty,
      set_type_run v (u.count + 1) (t.count + 1) ne,
      run,
    )

init_loop-Extends :
    (names : List (Bytes × ℕ × ℕ)) (t : Store)
    → t.initialized ≡ true
    → All HasKind names
    → (nodes : List Ref) × (u : Store) × (init_loop names t ≡ ok (nodes, u))
      × Extends t u
      × All (IsPredeclared u) nodes
unfolding init_loop ident_store
init_loop-Extends [] t ready h =
    ([], t, refl, record { ready = ready; more = omega arith; old = λ q le. refl }, tt)
init_loop-Extends ((n, k, ty) ∷ names) t ready (h, hs) =
    let p = t.count + 1 in
    let setters =
      setters-Updates (ident_store n t) p (fresh_ident n) (ident-ident_store n t) n k h in
    let (u, kinded, w) = setters.2 in
    let v = round_store t u ty in
    let (x, pre) = round_store-Extends t u n (record (fresh_ident n) { kind = k }) ty ready w in
    let (nodes, end, run, y, pres) = init_loop-Extends names v x.ready hs in
    (
      p ∷ nodes,
      end,
      loop_run names n k ty t u end nodes ready (w.ready ∙ ready) kinded run,
      record {
        ready = y.ready;
        more = omega (arith, x.more, y.more);
        old = λ q le. y.old q (omega (arith, x.more)) ∙ x.old q le;
      },
      (IsPredeclared-Extends y pre, pres),
    )

predec_idents-HasKind : All HasKind predec_idents
predec_idents-HasKind = omega arith

-- For a table that is not initialized: `Table_Init` succeeds, makes one node for each predeclared
-- identifier, and leaves a table that satisfies the invariant, with the empty global scope as the
-- current one.
pub init-Inv :
    (s : State)
    → s.initialized ≡ false
    → (s' : State) × (init s ≡ ok s') × Inv s' × (s'.inner ≡ []) × (s'.global ≡ Maps.new)
unfolding init Nodes.init Maps.new
init-Inv s fresh =
    let (nodes, u, run, x, pres) =
      init_loop-Extends predec_idents (Nodes.init s.trees) refl predec_idents-HasKind in
    (
      record {
        initialized = true;
        trees = u;
        predeclared_nodes = nodes;
        global = Maps.new;
        inner = [];
      },
      rw (fresh, run),
      record {
        ready = refl;
        trees_ready = x.ready;
        global = (tt, tt);
        inner = tt;
        predeclared = pres;
      },
      refl,
      refl,
    )
