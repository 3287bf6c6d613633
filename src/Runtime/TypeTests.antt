-- ===== src/Runtime/TypeTests.antt =====
-- The type tests of compiled programs find the extensions of a type.
use mathlib.Core.Path.{subst}
use obnc.Prelude.{
  ℕ, zero, suc, ◌-◌, ◌<◌, ◌≡◌, ◌∙◌, ◌↔◌, inl, inr, refl, sym, ap, true, false, Option, none, some,
  List, [], ◌∷◌, ◌++◌, length, length-append, leb, ltb, ◌==◌, if◌then◌else◌, ok, arith, Bool-cases,
}
use obnc.Runtime.Traps.{Td, passes, traps, record_assignment, id_at, has_id, obnc_is, obnc_rat}

abbrev pub td_of : List ℕ → Td
td_of is = record { ids = is }

pub id_at-before : (n : ℕ) (is js : List ℕ) → n < length is → id_at n (is ++ js) ≡ id_at n is
unfolding id_at
id_at-before n [] js lt = absurd (omega arith)
id_at-before zero (i ∷ is) js lt = refl
id_at-before (suc n) (i ∷ is) js lt = id_at-before n is js (omega arith)

pub id_at-last : (is : List ℕ) (t : ℕ) → id_at (length is) (is ++ t ∷ []) ≡ some t
unfolding id_at
id_at-last [] t = refl
id_at-last (i ∷ is) t = id_at-last is t

pub id_at_bound : (n i : ℕ) (is : List ℕ) → id_at n is ≡ some i → n < length is
unfolding id_at
id_at_bound n i [] e = absurd (ground (arith, e))
id_at_bound zero i (j ∷ is) e = omega arith
id_at_bound (suc n) i (j ∷ is) e = (let lt = id_at_bound n i is e in omega arith)

pub some_injective : (i j : ℕ) → some i ≡ some j → i ≡ j
some_injective i j e = ground (arith, e)

pub id_at-some : (n : ℕ) (is : List ℕ) → n < length is → (i : ℕ) × (id_at n is ≡ some i)
unfolding id_at
id_at-some n [] lt = absurd (omega arith)
id_at-some zero (i ∷ is) lt = (i, refl)
id_at-some (suc n) (i ∷ is) lt = id_at-some n is (omega arith)

module _ (base : ℕ → Option ℕ) where
  -- The IDs in the descriptor of a type: those of its base type, if it has one, and its own.
  pub data Ids : ℕ → List ℕ → Type 0 where
    root : (t : ℕ) → base t ≡ none → Ids t (t ∷ [])
    extended : (t b : ℕ) (is : List ℕ) → base t ≡ some b → Ids b is → Ids t (is ++ t ∷ [])

  -- `u` is `t`, or a base type of it.
  pub data Extends (u : ℕ) : ℕ → Type 0 where
    same : Extends u u
    above : (t b : ℕ) → base t ≡ some b → Extends u b → Extends u t

  no_base : (t t' b : ℕ) → t ≡ t' → base t ≡ none → ¬ (base t' ≡ some b)
  no_base t t' b e top up =
      (let clash : none ≡ some b = sym top ∙ ap base e ∙ up in ground (arith, clash))

  same_base : (t t' b b' : ℕ) → t ≡ t' → base t ≡ some b → base t' ≡ some b' → b ≡ b'
  same_base t t' b b' e up up' = some_injective b b' (sym up ∙ ap base e ∙ up')

  found-Extends : (u t n : ℕ) (is : List ℕ) → Ids t is → id_at n is ≡ some u → Extends u t
  unfolding id_at
  found-Extends u _ n _ (root t top) e =
      let bound = id_at_bound n u (t ∷ []) e in
      let end : n ≡ 0 = omega arith in
      let own : t ≡ u = some_injective t u (sym (ap (λ k. id_at k (t ∷ [])) end) ∙ e) in
      subst (λ v. Extends v t) own same
  found-Extends u _ n _ (extended t b is up ids) e = elim (Bool-cases (ltb n (length is))) [
    | inl lt ↦
        let before = id_at-before n is (t ∷ []) (ground (arith, lt)) in
        above t b up (found-Extends u b n is ids (sym before ∙ e))
    | inr ge ↦
        let bound = id_at_bound n u (is ++ t ∷ []) e in
        let end : n ≡ length is = ground (arith, ge, bound, length-append is (t ∷ [])) in
        let own : t ≡ u =
          some_injective t u
            (sym (id_at-last is t) ∙ ap (λ k. id_at k (is ++ t ∷ [])) (sym end) ∙ e) in
        subst (λ v. Extends v t) own same
  ]

  Ids-unique : (t t' : ℕ) (is js : List ℕ) → t ≡ t' → Ids t is → Ids t' js → is ≡ js
  Ids-unique _ _ _ _ e (root t top) (root t' top') = ap (λ n. n ∷ []) e
  Ids-unique _ _ _ _ e (root t top) (extended t' b is up ids) = absurd (no_base t t' b e top up)
  Ids-unique _ _ _ _ e (extended t' b is up ids) (root t top) =
      absurd (no_base t t' b (sym e) top up)
  Ids-unique _ _ _ _ e (extended t b is up ids) (extended t' b' js up' ids') =
      let below = Ids-unique b b' is js (same_base t t' b b' e up up') ids ids' in
      ap (λ ks. ks ++ t ∷ []) below ∙ ap (λ n. js ++ n ∷ []) e

  Ids-last : (t : ℕ) (is : List ℕ) → Ids t is → id_at (length is - 1) is ≡ some t
  unfolding id_at
  Ids-last _ _ (root t top) = refl
  Ids-last _ _ (extended t b is up ids) =
      let end : length (is ++ t ∷ []) - 1 ≡ length is = omega (arith, length-append is (t ∷ [])) in
      ap (λ k. id_at k (is ++ t ∷ [])) end ∙ id_at-last is t

  Extends-found :
      (u t t' : ℕ) (is us : List ℕ)
      → t ≡ t'
      → Ids t is
      → Ids u us
      → Extends u t'
      → id_at (length us - 1) is ≡ some u
  Extends-found u t _ is us e ids up same =
      ap (λ js. id_at (length us - 1) js) (Ids-unique t u is us e ids up) ∙ Ids-last u us up
  Extends-found u _ _ _ us e (root t top) up (above t' b up' ext) =
      absurd (no_base t t' b e top up')
  Extends-found u _ _ _ us e (extended t b' is up' ids) up (above t' b base' ext) =
      let found = Extends-found u b' b is us (same_base t t' b' b e up' base') ids up ext in
      let bound = id_at_bound (length us - 1) u is found in
      id_at-before (length us - 1) is (t ∷ []) bound ∙ found

  -- For a variable that is not NULL, and the descriptors of two types: OBNC_IS with the ID and the
  -- level of the second type holds exactly if the first type is the second or an extension of it.
  pub obnc_is_iff :
      (var t u : ℕ) (is us : List ℕ)
      → (var == 0) ≡ false
      → Ids t is
      → Ids u us
      → (obnc_is var (td_of is) u (length us - 1) ≡ true) ↔ Extends u t
  unfolding obnc_is has_id
  obnc_is_iff var t u is us address ids up = (
    λ yes. elim (Bool-cases (ltb (length us - 1) (length is))) [
      | inr short ↦
          (let no : false ≡ true = rw (obnc_is, address, short) at yes in
            absurd (ground (arith, no)))
      | inl long ↦
          let (i, found) = id_at-some (length us - 1) is (ground (arith, long)) in
          let equal : (i == u) ≡ true = rw (obnc_is, has_id, address, long, found) at yes in
          let e : i ≡ u = ground (arith, equal) in
          found-Extends u t (length us - 1) is ids (found ∙ ap some e)
    ],
    λ ext.
        (let found = Extends-found u t t is us refl ids up ext in
          let long : ltb (length us - 1) (length is) ≡ true =
            (let bound = id_at_bound (length us - 1) u is found in ground (arith, bound)) in
          let own : (u == u) ≡ true = ground arith in rw (address, long, found, own) refl),
  )

  -- For a variable that is not NULL and the descriptors of two types: OBNC_RAT with these descriptors
  -- passes exactly where OBNC_IS holds for the variable with the first descriptor, the ID and the level
  -- of the second type, and traps elsewhere.
  pub obnc_rat-obnc_is :
      (var t u : ℕ) (is us : List ℕ)
      → (var == 0) ≡ false
      → Ids t is
      → Ids u us
      → obnc_rat (td_of is) (td_of us)
        ≡ ok (
            if obnc_is var (td_of is) u (length us - 1)
            then passes true
            else traps record_assignment)
  unfolding obnc_rat obnc_is has_id
  obnc_rat-obnc_is var t u is us address ids up =
      let own = Ids-last u us up in
      let some_id = id_at_bound (length us - 1) u us own in
      let not_empty : (length us == 0) ≡ false = ground (arith, some_id) in
      elim (Bool-cases (leb (length us) (length is))) [
        | inr short ↦
            let no : ltb (length us - 1) (length is) ≡ false = ground (arith, short, some_id) in
            rw (short, address, no) refl
        | inl long ↦
            let le : ltb (length us - 1) (length is) ≡ true = ground (arith, long, some_id) in
            let (i, found) = id_at-some (length us - 1) is (ground (arith, le)) in
            rw (long, not_empty, address, le, found, own) refl
      ]
