-- ===== src/Table/Lookup.antt =====
-- `Table_At`: what a name means.
use obnc.Prelude.{
  ℕ, ◌≡◌, ◌∙◌, sym, ◌&&◌, refl, ◌≢◌, ◌⊎◌, inl, inr, Bool, true, false, Option, none, some, List, [],
  ◌∷◌, arith, Bytes, bytes_eq, All, ◌==◌, if◌then◌else◌, ok, Bool-cases,
}
use obnc.Maps
use obnc.Maps.{MapOf}
use obnc.Trees.Symbols.{tok_ident, qualifier_kind}
use obnc.Trees.Nodes.{Ref, null, Ident, ident_value, Store, symbol, read}
use obnc.Trees.Idents.{ident, ident_of, kind, used, set_used}
use obnc.Trees.Setters.{Updated, set_used-Updates}
use obnc.Table.Scopes.{
  State, current, is_local, declared, or_null, search_names, node_of_name, predec_idents,
  predeclared_ident, simple_at, qualifier, at,
}
use obnc.Table.Invariant.{
  IsEntry, IsPredeclared, Inv, Keeps, Inv-Keeps, at-IsEntry, current-IsScope,
}
use obnc.Table.Declare.{entry_set, ident_entry}

pub value_of_ident :
    (t : Store) (p : Ref) (i : Ident) → ident p t ≡ ok i → (t.node p).value ≡ ident_value i
unfolding ident ident_of read
value_of_ident t p i h = ground arith

pub Updated-Keeps :
    (t u : Store) (p : Ref) (i j : Ident)
    → ident p t ≡ ok i
    → j.name ≡ i.name
    → j.local ≡ i.local
    → Updated t p j u
    → Keeps t u
Updated-Keeps t u p i j is same_name same_place w = record {
  ready = w.ready;
  more = omega (arith, w.count);
  symbols = λ q le. elim (Bool-cases (q == p)) [
    | inl e ↦ let q_is : p ≡ q = ground arith in rw (← q_is) w.symbol
    | inr e ↦ let ne : q ≢ p = ground arith in rw (w.others q ne)
  ];
  idents = λ q x le hx. elim (Bool-cases (q == p)) [
    | inl e ↦
        let q_is : p ≡ q = ground arith in
        let x_is : i ≡ x = cc (value_of_ident t p i is, rw (← q_is) at hx) in
        (
          j,
          rw (← q_is) (value_of_ident u p j w.becomes),
          rw (← x_is) same_name,
          rw (← x_is) same_place,
        )
    | inr e ↦ let ne : q ≢ p = ground arith in (x, rw (w.others q ne) hx, refl, refl)
  ];
}

or_null_cases : (o : Option Ref) → (or_null o ≡ null) ⊎ ((p : Ref) × (o ≡ some p) × (or_null o ≡ p))
or_null_cases none = inl refl
or_null_cases (some p) = inr (p, refl, refl)

scope_lookup :
    (t : Store) (l : Bool) (m : MapOf Ref) (n : Bytes)
    → All (λ e. IsEntry t l e.0 e.1) m
    → (or_null (Maps.at n m) ≡ null) ⊎ IsEntry t l n (or_null (Maps.at n m))
scope_lookup t l m n h = elim (or_null_cases (Maps.at n m)) [
  | inl e ↦ inl e
  | inr (p, e, is) ↦ inr (rw is (at-IsEntry t l m n p h e))
]

-- What the scopes give for a name is NULL or an entry.
pub declared-IsEntry :
    (s : State) (n : Bytes)
    → Inv s
    → (declared n s ≡ null) ⊎ ((l : Bool) × IsEntry s.trees l n (declared n s))
unfolding declared
declared-IsEntry s n h =
    elim (scope_lookup s.trees (is_local s) (current s) n (current-IsScope s h).1) [
      | inr e ↦ let set = entry_set e in inr (is_local s, rw set e)
      | inl e ↦ elim (Bool-cases (is_local s)) [
        | inr top ↦ inl (rw (e, top))
        | inl deep ↦ elim (scope_lookup s.trees false s.global n h.global.1) [
          | inl g ↦ inl (rw (e, deep) g)
          | inr g ↦ inr (false, rw (e, deep) g)
        ]
      ]
    ]

node-IsPredeclared :
    (t : Store) (n : Bytes) (names : List (Bytes × ℕ × ℕ)) (nodes : List Ref)
    → All (IsPredeclared t) nodes
    → (node_of_name n names nodes ≡ null) ⊎ IsPredeclared t (node_of_name n names nodes)
unfolding node_of_name
node-IsPredeclared t n [] nodes h = inl refl
node-IsPredeclared t n ((m, k, ty) ∷ names) [] h = inl refl
node-IsPredeclared t n ((m, k, ty) ∷ names) (p ∷ nodes) (h, hs) = elim (Bool-cases (bytes_eq n m)) [
  | inl e ↦ inr (rw e h)
  | inr e ↦ rw e (node-IsPredeclared t n names nodes hs)
]

-- The table that `bsearch` gets is sorted.
search_names-node :
    (n : Bytes) (nodes : List Ref)
    → search_names n predec_idents nodes ≡ node_of_name n predec_idents nodes
unfolding search_names node_of_name
search_names-node n nodes = refl

search-IsPredeclared :
    (t : Store) (n : Bytes) (nodes : List Ref)
    → All (IsPredeclared t) nodes
    → (search_names n predec_idents nodes ≡ null)
      ⊎ IsPredeclared t (search_names n predec_idents nodes)
search-IsPredeclared t n nodes h =
    rw (search_names-node n nodes) (node-IsPredeclared t n predec_idents nodes h)

-- What a call of `Table_At` leaves: the scopes as they were, and the invariant.
pub record Leaves (s s' : State) : Type 0 where
  pub inv : Inv s'
  pub global : s'.global ≡ s.global
  pub inner : s'.inner ≡ s.inner
  pub predeclared : s'.predeclared_nodes ≡ s.predeclared_nodes

same_trees : (s : State) → Inv s → Leaves s s
same_trees s h = record { inv = h; global = refl; inner = refl; predeclared = refl }

pub mark :
    (s : State)
    → Inv s
    → (l : Bool) (n : Bytes) (p : Ref) → (e : IsEntry s.trees l n p)
    → (t : Store) × (set_used p s.trees ≡ ok t)
      × Updated s.trees p (record e.holds { used = true }) t
      × Leaves s (record s { trees = t })
mark s h l n p e =
    let is = ident_entry e in
    let (t, run, w) = set_used-Updates s.trees p e.holds is in
    (
      t,
      run,
      w,
      record {
        inv =
            Inv-Keeps s t h
              (Updated-Keeps s.trees t p e.holds (record e.holds { used = true }) is refl refl w);
        global = refl;
        inner = refl;
        predeclared = refl;
      },
    )

abbrev first_set : List Ref → Ref
first_set [] = null
first_set (p ∷ ps) = if p == null then first_set ps else p

-- The identifier that a name means: that of the current scope, or else of the global one, or else a
-- predeclared one, or else NULL.
abbrev pub meaning : Bytes → State → Ref
meaning n s = first_set (
    or_null (Maps.at n (current s))
    ∷ or_null (Maps.at n s.global)
    ∷ node_of_name n predec_idents s.predeclared_nodes
    ∷ [])

meaning_lem :
    (n : Bytes) (s : State)
    → meaning n s ≡ (if declared n s == null then predeclared_ident n s else declared n s)
unfolding declared is_local current predeclared_ident
meaning_lem n s =
    rw (search_names-node n s.predeclared_nodes)
      (by_inner s.inner (node_of_name n predec_idents s.predeclared_nodes))
  where
    by_inner :
        (ms : List (MapOf Ref)) (p : Ref)
        → first_set (
            or_null (Maps.at n (elim ms [ [] ↦ s.global | scope ∷ _ ↦ scope ]))
            ∷ or_null (Maps.at n s.global)
            ∷ p
            ∷ [])
          ≡ (let r = or_null (Maps.at n (elim ms [ [] ↦ s.global | scope ∷ _ ↦ scope ])) in
              let d =
                if (r == null) && (elim ms [ [] ↦ false | scope ∷ _ ↦ true ])
                then or_null (Maps.at n s.global)
                else r in
              if d == null then p else d)
    by_inner [] p = ground arith
    by_inner (m ∷ ms) p = ground arith

module _ (s : State) (h : Inv s) (n : Bytes) (plain : qualifier n ≡ none) where
  -- The end of `Table_At`, behind the search.
  finish :
      (r : Ref) (s' : State)
      → simple_at n s ≡ ok (r, s')
      → (r ≡ null) ⊎ ((r ≢ null) × ((s'.trees.node r).symbol ≡ tok_ident))
      → at n s ≡ ok (r, s')
  unfolding at symbol
  finish r s' run (inl e) = rw (h.ready, plain, run, e)
  finish r s' run (inr (ne, is)) =
      let set : (r == null) ≡ false = ground arith in rw (h.ready, plain, run, set, is)

  pub record Means (r : Ref) (s' : State) : Type 0 where
    pub run : at n s ≡ ok (r, s')
    pub is_meaning : r ≡ meaning n s
    pub leaves : Leaves s s'
    pub marked :
        (declared n s ≡ null) ⊎ ((kind r s.trees ≡ ok qualifier_kind) ⊎ (used r s'.trees ≡ ok true))

  predeclared_at : declared n s ≡ null → (r : Ref) × (s' : State) × Means r s'
  unfolding simple_at predeclared_ident
  predeclared_at nothing =
      let run : simple_at n s ≡ ok (predeclared_ident n s, s) = rw nothing in
      (
        predeclared_ident n s,
        s,
        record {
          run =
              finish (predeclared_ident n s) s run
                (elim (search-IsPredeclared s.trees n s.predeclared_nodes h.predeclared) [
                  | inl e ↦ inl e
                  | inr e ↦ inr (e.ne_null, e.is_ident)
                ]);
          is_meaning = sym (meaning_lem n s ∙ rw nothing);
          leaves = same_trees s h;
          marked = inl nothing;
        },
      )

  module _ (l : Bool) (e : IsEntry s.trees l n (declared n s)) where
    kind_entry : kind (declared n s) s.trees ≡ ok e.holds.kind
    unfolding kind
    kind_entry = rw (ident_entry e)

    qualifier_at : (e.holds.kind == qualifier_kind) ≡ true → (r : Ref) × (s' : State) × Means r s'
    unfolding simple_at
    qualifier_at is =
        let run : simple_at n s ≡ ok (declared n s, s) = rw (entry_set e, kind_entry, is) in
        (
          declared n s,
          s,
          record {
            run = finish (declared n s) s run (inr (e.ne_null, e.is_ident));
            is_meaning = sym (meaning_lem n s ∙ rw (entry_set e));
            leaves = same_trees s h;
            marked = inr (inl (ground (arith, kind_entry)));
          },
        )

    other_at : (e.holds.kind == qualifier_kind) ≡ false → (r : Ref) × (s' : State) × Means r s'
    unfolding simple_at used
    other_at is_not =
        let (t, marked, w, leaves) = mark s h l n (declared n s) e in
        let run : simple_at n s ≡ ok (declared n s, record s { trees = t }) =
          rw (entry_set e, kind_entry, is_not, marked) in
        (
          declared n s,
          record s { trees = t },
          record {
            run =
                finish (declared n s) (record s { trees = t }) run
                  (inr (e.ne_null, w.symbol ∙ e.is_ident));
            is_meaning = sym (meaning_lem n s ∙ rw (entry_set e));
            leaves = leaves;
            marked = inr (inr (rw w.becomes));
          },
        )

  -- In a table that satisfies the invariant, for every name without a dot: `Table_At` succeeds and
  -- gives what the name means: the identifier of the current scope, or else of the global scope, or
  -- else a predeclared one, or else NULL. It keeps the scopes and the invariant, and marks the
  -- identifier of a scope as used, unless it is a qualifier.
  pub at-meaning : (r : Ref) × (s' : State) × Means r s'
  at-meaning = elim (declared-IsEntry s n h) [
    | inl nothing ↦ predeclared_at nothing
    | inr (l, e) ↦ elim (Bool-cases (e.holds.kind == qualifier_kind)) [
      | inl is ↦ qualifier_at l e is
      | inr is_not ↦ other_at l e is_not
    ]
  ]
