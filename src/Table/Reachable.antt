-- ===== src/Table/Reachable.antt =====
-- The invariant holds in every state of the table that calls and changes of the trees reach.
use obnc.Prelude.{
  ◌≤◌, ◌≡◌, refl, inl, inr, Bool, true, false, not, ◌&&◌, ◌||◌, none, some, List, [], ◌∷◌, arith,
  Bytes, ◌==◌, ok, ◌>>=◌, assert, ◌or_else◌, Option-cases,
}
use obnc.Prelude.Ensures.{Ensures, holds, bind, branch, returned, >>=-eq-ok, assert-eq-ok}
use obnc.Maps
use obnc.Maps.{MapOf}
use obnc.Trees.Symbols.{tok_ident, qualifier_kind}
use obnc.Trees.Nodes.{Ref, null, Ident, Store, symbol}
use obnc.Trees.Idents.{ident, kind, name, local, set_used}
use obnc.Trees.Setters.{set_used-Updates}
use obnc.Table.Scopes.{
  State, current, is_local, put, at, declared, qualifier, simple_at, qualified_at, imported_ident,
  or_null, open_scope, close_scope, scope_local, locally_declared, init,
}
use obnc.Table.Invariant.{IsEntry, Inv, Keeps, Inv-Keeps}
use obnc.Table.Declare.{put-declares, open-close}
use obnc.Table.Lookup.{value_of_ident, Updated-Keeps, at-meaning, meaning, Leaves}
use obnc.Table.Initial.{init-Inv}

set_used-Keeps : (p : Ref) (t u : Store) → set_used p t ≡ ok u → Keeps t u
unfolding set_used
set_used-Keeps p t u run =
    let (i, _, is) = >>=-eq-ok (ident p t) _ run in
    let (v, run', w) = set_used-Updates t p i is in
    let same : v ≡ u = cc (run, run') in
    rw (← same) (Updated-Keeps t v p i (record i { used = true }) is refl refl w)

IsEntry-of :
    (t : Store) (p x : Ref) (l : Bool) (n : Bytes) (i : Ident)
    → not (p == null) ≡ true
    → p ≤ t.count
    → symbol p t ≡ ok x
    → (x == tok_ident) ≡ true
    → ident p t ≡ ok i
    → local p t ≡ ok l
    → name p t ≡ ok n
    → IsEntry t l n p
unfolding symbol local name
IsEntry-of t p x l n i set le sym is_ident is has_local has_name = record {
  ne_null = ground arith;
  allocated = le;
  is_ident = ground arith;
  holds = i;
  value = value_of_ident t p i is;
  named = cc (rw is at has_name);
  placed = cc (rw is at has_local);
}

place_of :
    (s : State) (l g : Bool)
    → s.initialized ≡ true
    → scope_local s ≡ ok g
    → ((l && g) || (not l && not g)) ≡ true
    → l ≡ is_local s
unfolding scope_local
place_of s l g ready run same = ground arith

new_of :
    (s : State) (n : Bytes) (d : Bool)
    → s.initialized ≡ true
    → locally_declared n s ≡ ok d
    → not d ≡ true
    → Maps.has_key n (current s) ≡ false
unfolding locally_declared
new_of s n d ready run new = ground arith

module _ (s : State) (h : Inv s) where
  abbrev After : Ref × State → Type 0
  After (r, s') = Inv s'

  simple_at-Inv : (n : Bytes) → Ensures After (simple_at n s)
  unfolding simple_at
  simple_at-Inv n =
      branch (declared n s == null) _ _ (λ _. holds h)
        λ _. bind (kind (declared n s) s.trees) _ λ k _.
          branch (k == qualifier_kind) _ _ (λ _. holds h)
            λ _.
              bind (set_used (declared n s) s.trees) _
                λ t e. holds (Inv-Keeps s t h (set_used-Keeps (declared n s) s.trees t e))

  qualified_at-Inv : (n q : Bytes) → Ensures After (qualified_at n q s)
  unfolding qualified_at
  qualified_at-Inv n q =
      let p = or_null (Maps.at q s.global) in
      branch (p == null) _ _ (λ _. holds h)
        λ _. bind (set_used p s.trees) _ λ t e.
          bind (imported_ident n p t) _
            λ r _. holds (Inv-Keeps s t h (set_used-Keeps p s.trees t e))

  pub at-Inv : (n : Bytes) → Ensures After (at n s)
  unfolding at
  at-Inv n = bind (assert s.initialized) _ λ _ _.
      bind (elim (qualifier n) [ some q ↦ qualified_at n q s | none ↦ simple_at n s ]) _
        λ (r, s') run.
          bind (ok (r == null) or_else (do x ← symbol r s'.trees; ok (x == tok_ident))) _
            λ is_ident _. bind (assert is_ident) _ λ _ _. holds (elim (Option-cases (qualifier n)) [
              | inl plain ↦ returned (r, s') (simple_at-Inv n) (rw plain at run)
              | inr (q, dotted) ↦ returned (r, s') (qualified_at-Inv n q) (rw dotted at run)
            ])

  -- What `Table_Put` checks of a node that it takes.
  pub put_checked :
      (p : Ref) {s' : State}
      → p ≤ s.trees.count
      → put p s ≡ ok s'
      → (n : Bytes) × IsEntry s.trees (is_local s) n p × (Maps.has_key n (current s) ≡ false)
  unfolding put local
  put_checked p le run =
      let (_, r1, a1) = >>=-eq-ok (assert s.initialized) _ run in
      let (_, r2, a2) = >>=-eq-ok (assert (not (p == null))) _ r1 in
      let (x, r3, a3) = >>=-eq-ok (symbol p s.trees) _ r2 in
      let (_, r4, a4) = >>=-eq-ok (assert (x == tok_ident)) _ r3 in
      let (l, r5, a5) = >>=-eq-ok (local p s.trees) _ r4 in
      let (g, r6, a6) = >>=-eq-ok (scope_local s) _ r5 in
      let (_, r7, a7) = >>=-eq-ok (assert ((l && g) || (not l && not g))) _ r6 in
      let (n, r8, a8) = >>=-eq-ok (name p s.trees) _ r7 in
      let (d, r9, a9) = >>=-eq-ok (locally_declared n s) _ r8 in
      let (_, r10, a10) = >>=-eq-ok (assert (not d)) _ r9 in
      let (i, has_local, is) = >>=-eq-ok (ident p s.trees) _ a5 in
      let e = IsEntry-of s.trees p x l n i (assert-eq-ok _ a2) le a3 (assert-eq-ok _ a4) is a5 a8 in
      let place = place_of s l g h.ready a6 (assert-eq-ok _ a7) in
      (n, rw place at e, new_of s n d h.ready a9 (assert-eq-ok _ a10))

  pub put-Inv : (p : Ref) {s' : State} → p ≤ s.trees.count → put p s ≡ ok s' → Inv s'
  put-Inv p {s'} le run =
      let (n, e, new) = put_checked p le run in
      let (t, run', inv, _) = put-declares s n p h e new in
      let same : t ≡ s' = cc (run, run') in rw same at inv

-- A call of the table, or a change of the trees by the rest of the compiler, which keeps names,
-- places and symbols of the identifiers.
pub data Step (s : State) : State → Type 0 where
  puts : {s' : State} (p : Ref) → p ≤ s.trees.count → put p s ≡ ok s' → Step s s'
  looks : {s' : State} (n : Bytes) (r : Ref) → at n s ≡ ok (r, s') → Step s s'
  opens : {s' : State} → open_scope s ≡ ok s' → Step s s'
  closes : {s' : State} → close_scope s ≡ ok s' → Step s s'
  changes : (t : Store) → Keeps s.trees t → Step s (record s { trees = t })

pub data Reach (s : State) : State → Type 0 where
  here : Reach s s
  next : {t u : State} → Reach s t → Step t u → Reach s u

close-Inv :
    (s : State) (ms : List (MapOf Ref)) {s' : State}
    → Inv (record s { inner = ms })
    → close_scope (record s { inner = ms }) ≡ ok s'
    → Inv s'
unfolding close_scope
close-Inv s [] h run = absurd (ground (arith, h.ready))
close-Inv s (m ∷ ms) {s'} h run =
    let after : Inv (record s { inner = ms }) = record {
      ready = h.ready;
      trees_ready = h.trees_ready;
      global = h.global;
      inner = h.inner.1;
      predeclared = h.predeclared;
    } in
    let same : record s { inner = ms } ≡ s' = cc (rw h.ready at run) in rw same at after

Step-Inv : {s s' : State} → Step s s' → Inv s → Inv s'
Step-Inv {s} (puts p le run) h = put-Inv s h p le run
Step-Inv {s} {s'} (looks n r run) h = returned (r, s') (at-Inv s h n) run
Step-Inv {s} {s'} (opens run) h =
    let (t, run', inv, _, _, _) = open-close s h in
    let same : t ≡ s' = cc (run, run') in rw same at inv
Step-Inv {s} (closes run) h = close-Inv s s.inner h run
Step-Inv {s} (changes t k) h = Inv-Keeps s t h k

Reach-Inv : {s s' : State} → Inv s → Reach s s' → Inv s'
Reach-Inv h here = h
Reach-Inv h (next r st) = Step-Inv st (Reach-Inv h r)

-- From a table that is initialized for the first time, by any calls that succeed and any changes of
-- the trees that keep what the table relies on: every state satisfies the invariant, and in it
-- `Table_At` succeeds for every name without a dot, with the meaning of the name as its result.
pub reachable-at :
    (s₀ s₁ s : State) (n : Bytes)
    → s₀.initialized ≡ false
    → init s₀ ≡ ok s₁
    → Reach s₁ s
    → qualifier n ≡ none
    → Inv s × ((r : Ref) × (s' : State) × (at n s ≡ ok (r, s')) × (r ≡ meaning n s) × Leaves s s')
reachable-at s₀ s₁ s n fresh run reach plain =
    let (t, run', start, _, _) = init-Inv s₀ fresh in
    let same : t ≡ s₁ = cc (run, run') in
    let h = Reach-Inv (rw same at start) reach in
    let (r, s', m) = at-meaning s h n plain in (h, (r, s', m.run, m.is_meaning, m.leaves))
