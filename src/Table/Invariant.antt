-- ===== src/Table/Invariant.antt =====
-- What holds of the table between two calls: each scope has each name once, and stores under a name
-- an identifier node of that name, which is local exactly in an inner scope.
use obnc.Prelude.{
  ◌≤◌, ◌≡◌, ◌∙◌, ◌≢◌, inl, inr, Bool, true, false, some, List, [], ◌∷◌, arith, Bytes, bytes_eq,
  bytes_eq_iff, All, Bool-cases,
}
use obnc.Maps
use obnc.Maps.{MapOf}
use obnc.Maps.Newest.{Distinct}
use obnc.Trees.Symbols.{tok_ident}
use obnc.Trees.Nodes.{Ref, null, Ident, ident_value, Store}
use obnc.Table.Scopes.{State, current, is_local}

-- `p` is an identifier node of the name `n`, which is local or not.
pub record IsEntry (t : Store) (is_local : Bool) (n : Bytes) (p : Ref) : Type 0 where
  pub ne_null : p ≢ null
  pub allocated : p ≤ t.count
  pub is_ident : (t.node p).symbol ≡ tok_ident
  pub holds : Ident
  pub value : (t.node p).value ≡ ident_value holds
  pub named : holds.name ≡ n
  pub placed : holds.local ≡ is_local

abbrev pub Entries : Store → Bool → MapOf Ref → Type 0
Entries t l m = All (λ e. IsEntry t l e.0 e.1) m

abbrev pub IsScope : Store → Bool → MapOf Ref → Type 0
IsScope t l m = Distinct m × Entries t l m

pub record IsPredeclared (t : Store) (p : Ref) : Type 0 where
  pub ne_null : p ≢ null
  pub allocated : p ≤ t.count
  pub is_ident : (t.node p).symbol ≡ tok_ident

pub record Inv (s : State) : Type 0 where
  pub ready : s.initialized ≡ true
  pub trees_ready : s.trees.initialized ≡ true
  pub global : IsScope s.trees false s.global
  pub inner : All (IsScope s.trees true) s.inner
  pub predeclared : All (IsPredeclared s.trees) s.predeclared_nodes

-- What a change of the trees keeps of the identifiers that the table may hold.
pub record Keeps (t u : Store) : Type 0 where
  pub ready : u.initialized ≡ t.initialized
  pub more : t.count ≤ u.count
  pub symbols : (p : Ref) → p ≤ t.count → (u.node p).symbol ≡ (t.node p).symbol
  pub idents :
      (p : Ref) (i : Ident)
      → p ≤ t.count
      → (t.node p).value ≡ ident_value i
      → (j : Ident) × ((u.node p).value ≡ ident_value j) × (j.name ≡ i.name) × (j.local ≡ i.local)

module _ {t u : Store} (k : Keeps t u) where
  pub IsEntry-Keeps : {l : Bool} {n : Bytes} {p : Ref} → IsEntry t l n p → IsEntry u l n p
  IsEntry-Keeps {p} e =
      let (j, value, same_name, same_place) = k.idents p e.holds e.allocated e.value in
      record {
        ne_null = e.ne_null;
        allocated = omega (arith, k.more, e.allocated);
        is_ident = k.symbols p e.allocated ∙ e.is_ident;
        holds = j;
        value = value;
        named = same_name ∙ e.named;
        placed = same_place ∙ e.placed;
      }

  pub Entries-Keeps : (l : Bool) (m : MapOf Ref) → Entries t l m → Entries u l m
  Entries-Keeps l [] h = tt
  Entries-Keeps l (e ∷ m) (h, hs) = (IsEntry-Keeps h, Entries-Keeps l m hs)

  scopes-Keeps : (ms : List (MapOf Ref)) → All (IsScope t true) ms → All (IsScope u true) ms
  scopes-Keeps [] h = tt
  scopes-Keeps (m ∷ ms) ((d, h), hs) = ((d, Entries-Keeps true m h), scopes-Keeps ms hs)

  IsPredeclared-Keeps : (ps : List Ref) → All (IsPredeclared t) ps → All (IsPredeclared u) ps
  IsPredeclared-Keeps [] h = tt
  IsPredeclared-Keeps (p ∷ ps) (h, hs) = (
    record {
      ne_null = h.ne_null;
      allocated = omega (arith, k.more, h.allocated);
      is_ident = k.symbols p h.allocated ∙ h.is_ident;
    },
    IsPredeclared-Keeps ps hs,
  )

pub Inv-Keeps : (s : State) (u : Store) → Inv s → Keeps s.trees u → Inv (record s { trees = u })
Inv-Keeps s u h k = record {
  ready = h.ready;
  trees_ready = k.ready ∙ h.trees_ready;
  global = (h.global.0, Entries-Keeps k false s.global h.global.1);
  inner = scopes-Keeps k s.inner h.inner;
  predeclared = IsPredeclared-Keeps k s.predeclared_nodes h.predeclared;
}

-- What a lookup finds in a scope is an entry of it.
pub at-IsEntry :
    (t : Store) (l : Bool) (m : MapOf Ref) (n : Bytes) (p : Ref)
    → Entries t l m
    → Maps.at n m ≡ some p
    → IsEntry t l n p
unfolding Maps.at
at-IsEntry t l [] n p h e = absurd (cc)
at-IsEntry t l ((k, q) ∷ m) n p (h, hs) e = elim (Bool-cases (bytes_eq k n)) [
  | inl yes_it ↦
      let k_is : k ≡ n = (bytes_eq_iff k n).0 yes_it in
      let q_is : q ≡ p = cc (rw yes_it at e) in rw (← k_is, ← q_is) h
  | inr no_it ↦ at-IsEntry t l m n p hs (rw no_it at e)
]

pub current-IsScope : (s : State) → Inv s → IsScope s.trees (is_local s) (current s)
unfolding current is_local
current-IsScope s h = by_inner s.inner h.inner
  where
    by_inner :
        (ms : List (MapOf Ref))
        → All (IsScope s.trees true) ms
        → IsScope s.trees
            (elim ms [ [] ↦ false | scope ∷ _ ↦ true ])
            (elim ms [ [] ↦ s.global | scope ∷ _ ↦ scope ])
    by_inner [] hs = h.global
    by_inner (m ∷ ms) (hm, hs) = hm
