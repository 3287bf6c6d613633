-- ===== src/Trees/ListReversal.antt =====
-- `Trees_ReverseList` reverses a list that is linked by `right`, in place.
use mathlib.Core.List.{reverse, reverse_aux}
use obnc.Prelude.{
  ℕ, zero, suc, ◌<◌, ◌≡◌, refl, ◌≢◌, Bool, true, false, ◌||◌, List, [], ◌∷◌, arith, length, ◌==◌,
  ok,
}
use obnc.Trees.Nodes.{Ref, null, Store, write, reverse_list_loop, reverse_list}

abbrev pub has : Ref → List Ref → Bool
has p [] = false
has p (q ∷ l) = (p == q) || has p l

abbrev pub Disjoint : List Ref → List Ref → Type 0
Disjoint xs ys = (p : Ref) → has p xs ≡ true → has p ys ≡ false

-- From `p` the `right` fields lead through the distinct nodes `l` to NULL.
pub data Chain (s : Store) : Ref → List Ref → Type 0 where
  end : Chain s null []
  link :
      {p q : Ref} {l : List Ref}
      → p ≢ null
      → (s.node p).right ≡ q
      → has p l ≡ false
      → Chain s q l
      → Chain s p (p ∷ l)

-- What two stores agree on when only the `right` fields of the nodes of `l` were written.
pub record SameBut (l : List Ref) (s t : Store) : Type 0 where
  pub count : t.count ≡ s.count
  pub initialized : t.initialized ≡ s.initialized
  pub yylineno : t.yylineno ≡ s.yylineno
  pub others : (p : Ref) → has p l ≡ false → t.node p ≡ s.node p
  pub value : (p : Ref) → (t.node p).value ≡ (s.node p).value
  pub symbol : (p : Ref) → (t.node p).symbol ≡ (s.node p).symbol
  pub line_number : (p : Ref) → (t.node p).line_number ≡ (s.node p).line_number
  pub marked : (p : Ref) → (t.node p).marked ≡ (s.node p).marked
  pub type : (p : Ref) → (t.node p).type ≡ (s.node p).type
  pub left : (p : Ref) → (t.node p).left ≡ (s.node p).left

abbrev with_right : Ref → Ref → Store → Store
with_right r p s = write p (record (s.node p) { right = r }) s

frame :
    {s : Store} {p : Ref} {l : List Ref} (r q : Ref)
    → Chain s p l
    → has q l ≡ false
    → Chain (with_right r q s) p l
unfolding write
frame r q end out = end
frame r q (link {p} ne e new c) out = link ne (ground arith) new (frame r q c (ground arith))

not_null : {p : Ref} → p ≢ null → (p == null) ≡ false
not_null ne = ground arith

SameBut-step :
    (s t : Store) (p r : Ref) (l : List Ref) → SameBut l (with_right r p s) t → SameBut (p ∷ l) s t
unfolding write
SameBut-step s t p r l h = record {
  count = h.count;
  initialized = h.initialized;
  yylineno = h.yylineno;
  others = λ q out. ground (arith, h.others q);
  value = λ q. ground (arith, h.value q);
  symbol = λ q. ground (arith, h.symbol q);
  line_number = λ q. ground (arith, h.line_number q);
  marked = λ q. ground (arith, h.marked q);
  type = λ q. ground (arith, h.type q);
  left = λ q. ground (arith, h.left q);
}

abbrev Reversed : List Ref → List Ref → Store → Ref × Store → Type 0
Reversed xs ys s (p, t) = Chain t p (reverse_aux xs ys) × SameBut xs s t

loop-Reversed :
    (fuel : ℕ) {s : Store} {current previous : Ref} {xs ys : List Ref}
    → Chain s current xs
    → Chain s previous ys
    → Disjoint xs ys
    → length xs < fuel
    → (r : Ref × Store) × (reverse_list_loop fuel current previous s ≡ ok r) × Reversed xs ys s r
unfolding reverse_list_loop
loop-Reversed zero c d apart lt = absurd (omega arith)
loop-Reversed (suc fuel) {s} {previous} end d apart lt = (
  (previous, s),
  refl,
  (
    d,
    record {
      count = refl;
      initialized = refl;
      yylineno = refl;
      others = λ p h. refl;
      value = λ p. refl;
      symbol = λ p. refl;
      line_number = λ p. refl;
      marked = λ p. refl;
      type = λ p. refl;
      left = λ p. refl;
    },
  ),
)
loop-Reversed (suc fuel) {s} {previous} {ys} (link {p} {q} {l} ne e new c) d apart lt =
    let out : has p ys ≡ false = apart p (ground arith) in
    let (r, run, (chain, same)) =
      loop-Reversed fuel {s = with_right previous p s} {xs = l} {ys = p ∷ ys}
        (frame previous p c new)
        (link ne (unfold write in ground arith) out (frame previous p d out))
        (λ a i. ground (arith, apart a)) (omega arith) in
    (r, rw (not_null ne, e) run, (chain, SameBut-step s r.1 p previous l same))

-- For every list of distinct nodes and enough fuel: `Trees_ReverseList` returns the same nodes in
-- reverse order, and changes nothing but their `right` fields.
pub reverse_list-Chain :
    {s : Store} {list : Ref} {xs : List Ref} (fuel : ℕ)
    → Chain s list xs
    → length xs < fuel
    → (r : Ref × Store) × (reverse_list fuel list s ≡ ok r)
      × Chain r.1 r.0 (reverse xs)
      × SameBut xs s r.1
unfolding reverse_list
reverse_list-Chain {s} fuel c lt =
    let start : Chain s null [] = end in
    let (r, run, (chain, same)) = loop-Reversed fuel c start (λ p i. refl) lt in
    (r, run, chain, same)
