-- ===== src/Table/Imported.antt =====
-- `Table_At` for a qualified name: the identifiers that a module imports.
use obnc.Prelude.{
  ℕ, zero, suc, ◌+◌, ◌≤◌, ◌<◌, ◌≡◌, ◌∙◌, refl, ◌≢◌, inl, inr, true, false, some, [], ◌∷◌, arith,
  Bytes, bytes_eq, length, ◌==◌, ok, ◌>>=◌, ◌or_else◌, Bool-cases,
}
use obnc.Maps
use obnc.Maps.{MapOf}
use obnc.Trees.Symbols.{tok_ident}
use obnc.Trees.Nodes.{Ref, null, Ident, Store, symbol, left, right}
use obnc.Trees.Idents.{ident, name}
use obnc.Trees.Setters.{Updated}
use obnc.Table.Scopes.{
  State, or_null, qualifier, qualified_at, imported_ident, imported_ident_loop, at,
}
use obnc.Table.Invariant.{IsEntry, Inv}
use obnc.Table.Declare.{entry_set, ident_entry}
use obnc.Table.Lookup.{Leaves, mark}

-- From `p` a list of identifier nodes with their names.
pub data Imports (t : Store) : Ref → MapOf Ref → Type 0 where
  end : Imports t null []
  entry :
      {p i q : Ref} {n : Bytes} {m : MapOf Ref}
      → p ≢ null
      → (t.node p).left ≡ i
      → i ≢ null
      → (t.node i).symbol ≡ tok_ident
      → name i t ≡ ok n
      → (t.node p).right ≡ q
      → Imports t q m
      → Imports t p ((n, i) ∷ m)

name_Updated :
    (t u : Store) (q i : Ref) (x : Ident) (n : Bytes)
    → ident q t ≡ ok x
    → Updated t q (record x { used = true }) u
    → name i t ≡ ok n
    → name i u ≡ ok n
unfolding name ident
name_Updated t u q i x n is w h = elim (Bool-cases (i == q)) [
  | inl e ↦ ground (arith, w.becomes)
  | inr e ↦ ground (arith, w.others i)
]

left_Updated :
    (t u : Store) (q p : Ref) (x : Ident) → Updated t q x u → (u.node p).left ≡ (t.node p).left
left_Updated t u q p x w = ground (arith, w.others p, w.left)

right_Updated :
    (t u : Store) (q p : Ref) (x : Ident) → Updated t q x u → (u.node p).right ≡ (t.node p).right
right_Updated t u q p x w = ground (arith, w.others p, w.right)

symbol_Updated :
    (t u : Store) (q p : Ref) (x : Ident) → Updated t q x u → (u.node p).symbol ≡ (t.node p).symbol
symbol_Updated t u q p x w = ground (arith, w.others p, w.symbol)

Imports-Updated :
    (t u : Store) (q : Ref) (x : Ident) {p : Ref} {m : MapOf Ref}
    → ident q t ≡ ok x
    → Updated t q (record x { used = true }) u
    → Imports t p m
    → Imports u p m
Imports-Updated t u q x is w end = end
Imports-Updated t u q x is w (entry {p} {i} ne l ni id n r c) =
    let y = record x { used = true } in
    entry ne (left_Updated t u q p y w ∙ l) ni (symbol_Updated t u q i y w ∙ id)
      (name_Updated t u q i x _ is w n) (right_Updated t u q p y w ∙ r)
      (Imports-Updated t u q x is w c)

imported_ident_loop-at :
    (fuel : ℕ) (n : Bytes) {t : Store} {p : Ref} {m : MapOf Ref}
    → Imports t p m
    → length m < fuel
    → imported_ident_loop fuel n p t ≡ ok (or_null (Maps.at n m))
unfolding imported_ident_loop Maps.at left right
imported_ident_loop-at zero n c lt = absurd (omega arith)
imported_ident_loop-at (suc fuel) n end lt = refl
imported_ident_loop-at (suc fuel) n (entry {p} {i} {q} {n = k} {m} ne l ni id nm r c) lt =
    let set : (p == null) ≡ false = ground arith in
    elim (Bool-cases (bytes_eq k n)) [
      | inl e ↦ rw (set, l, nm, e)
      | inr e ↦ rw (set, l, nm, e, r) (imported_ident_loop-at fuel n c (omega arith))
    ]

Imports-symbol :
    (t : Store) (n : Bytes) {p : Ref} {m : MapOf Ref}
    → Imports t p m
    → (ok (or_null (Maps.at n m) == null)
        or_else (do x ← symbol (or_null (Maps.at n m)) t; ok (x == tok_ident)))
      ≡ ok true
unfolding Maps.at symbol
Imports-symbol t n end = refl
Imports-symbol t n (entry {p} {i} {q} {n = k} {m} ne l ni id nm r c) =
    elim (Bool-cases (bytes_eq k n)) [
      | inl e ↦ let set : (i == null) ≡ false = ground arith in rw (e, set, id)
      | inr e ↦ rw e (Imports-symbol t n c)
    ]

finish :
    (s s' : State) (n q : Bytes) (r : Ref)
    → s.initialized ≡ true
    → qualifier n ≡ some q
    → qualified_at n q s ≡ ok (r, s')
    → (ok (r == null) or_else (do x ← symbol r s'.trees; ok (x == tok_ident))) ≡ ok true
    → at n s ≡ ok (r, s')
unfolding at
finish s s' n q r ready dotted run is_symbol = rw (ready, dotted, run, is_symbol)

-- In a table that satisfies the invariant, for a name that starts with `q` and a dot, where the global
-- scope has an identifier for `q` whose left child is the list of the imported identifiers `m`, at
-- most as many as there are nodes: `Table_At` succeeds, gives the newest of them that has the whole
-- name, or NULL, and keeps the scopes and the invariant.
pub at_qualified :
    (s : State) (n q : Bytes) (p entries : Ref) (m : MapOf Ref)
    → Inv s
    → qualifier n ≡ some q
    → Maps.at q s.global ≡ some p
    → IsEntry s.trees false q p
    → (s.trees.node p).left ≡ entries
    → Imports s.trees entries m
    → length m ≤ s.trees.count
    → (s' : State) × (at n s ≡ ok (or_null (Maps.at n m), s')) × Leaves s s'
unfolding qualified_at imported_ident left
at_qualified s n q p entries m h dotted found e linked c le =
    let (t, run, w, leaves) = mark s h false q p e in
    let is = ident_entry e in
    let c' = Imports-Updated s.trees t p e.holds is w c in
    let fits : length m < t.count + 1 = omega (arith, w.count) in
    let search = imported_ident_loop-at (t.count + 1) n c' fits in
    let left_p : (t.node p).left ≡ entries = w.left ∙ linked in
    let is_symbol = Imports-symbol t n c' in
    (
      record s { trees = t },
      finish s (record s { trees = t }) n q (or_null (Maps.at n m)) h.ready dotted
          (rw (found, entry_set e, run, left_p, search)) is_symbol,
      leaves,
    )
