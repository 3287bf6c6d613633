-- ===== src/Types/FieldLookup.antt =====
-- What `Types_GetFieldIdent` finds in the records of a chain of base types, and that it ends.
use obnc.Prelude.{
  ℕ, zero, suc, ◌+◌, ◌<◌, ◌≤◌, ◌≡◌, refl, ◌≢◌, inl, inr, Bool, true, false, not, ◌||◌, List, [],
  ◌∷◌, arith, Bytes, bytes_eq, length, All, ◌==◌, if◌then◌else◌, Result, ok, ◌>>=◌, ◌and_also◌,
  ◌or_else◌, Bool-cases,
}
use obnc.Prelude.Ensures.{returned}
use obnc.Types.Fields.{Visible, get_field_ident-Visible}
use obnc.Trees.Nodes.{Ref, null, Store, left, right}
use obnc.Trees.Idents.{name, exported}
use obnc.Types.Basics.{is_record}
use obnc.Types.Structured.{
  Found, ident_list_loop, field_list_loop, field_ident_loop, get_field_ident, fields, descriptor,
  record_base_type, imported_here, is_pointer,
}

-- A list of identifiers, which is not empty.
pub data IdentList (s : Store) : Ref → List Ref → Type 0 where
  last : {l i : Ref} → left l s ≡ ok i → right l s ≡ ok null → IdentList s l (i ∷ [])
  more :
      {l i q : Ref} {is : List Ref}
      → left l s ≡ ok i
      → right l s ≡ ok q
      → q ≢ null
      → IdentList s q is
      → IdentList s l (i ∷ is)

-- The field lists of a record, each short enough for a store of that size.
pub data FieldLists (s : Store) : Ref → List (List Ref) → Type 0 where
  end : FieldLists s null []
  lists :
      {l il q : Ref} {is : List Ref} {iss : List (List Ref)}
      → l ≢ null
      → left l s ≡ ok il
      → IdentList s il is
      → length is ≤ s.count
      → right l s ≡ ok q
      → FieldLists s q iss
      → FieldLists s l (is ∷ iss)

-- One record on the chain: its type, which of its fields are hit, and its field lists.
pub record Level : Type 0 where
  pub base_type : Ref
  pub hits : Ref → Bool
  pub idents : List (List Ref)

-- The last hit of one list.
abbrev pub last_hit : (Ref → Bool) → Ref → List Ref → Found → Found
last_hit hits b [] found = found
last_hit hits b (i ∷ is) found = last_hit hits b is (if hits i then (i, b) else found)

-- The first list with a hit.
abbrev pub search : (Ref → Bool) → Ref → List (List Ref) → Found → Found
search hits b [] found = found
search hits b (is ∷ iss) found =
    if found.0 == null then search hits b iss (last_hit hits b is found) else found

-- The first level with a hit.
abbrev pub find : Level → List Level → Found
find v [] = search v.hits v.base_type v.idents (null, null)
find v (w ∷ ws) =
    let found = search v.hits v.base_type v.idents (null, null) in
    if found.0 == null then find w ws else found

module _ (s : Store) (field_name : Bytes) where
  -- A field is hit if it has the name and may be seen: it is exported, or the record is not imported.
  abbrev pub seen : Bool → Ref → Result Bool
  seen imp ident =
      (ok (not imp) or_else exported ident s)
      and_also (do n ← name ident s; ok (bytes_eq n field_name))

  pub record IsLevel (imp imp' : Bool) (v : Level) (desc : Ref) : Type 0 where
    pub here : Bool
    pub is_here : imported_here s imp v.base_type ≡ ok here
    pub now : imp' ≡ (imp || here)
    pub based : v.base_type ≢ null
    pub has_descriptor : descriptor s v.base_type ≡ ok desc
    pub seq : Ref
    pub has_fields : fields s desc ≡ ok seq
    pub linked : FieldLists s seq v.idents
    pub few : length v.idents ≤ s.count
    pub tested : All (All (λ i. seen imp' i ≡ ok (v.hits i))) v.idents

  -- The chain of records from a type upwards.
  pub data Levels : Bool → Level → List Level → Type 0 where
    top :
        {imp imp' : Bool} {v : Level} {desc : Ref}
        → IsLevel imp imp' v desc
        → record_base_type s desc ≡ ok null
        → Levels imp v []
    below :
        {imp imp' : Bool} {v w : Level} {desc : Ref} {ws : List Level}
        → IsLevel imp imp' v desc
        → record_base_type s desc ≡ ok w.base_type
        → Levels imp' w ws
        → Levels imp v (w ∷ ws)

  ident_list_loop-last_hit :
      (fuel : ℕ) (imp : Bool) (hits : Ref → Bool) (b : Ref) {l : Ref} {is : List Ref}
      (found : Found)
      → IdentList s l is
      → All (λ i. seen imp i ≡ ok (hits i)) is
      → length is ≤ fuel
      → ident_list_loop s fuel field_name imp b l found ≡ ok (last_hit hits b is found)
  unfolding ident_list_loop
  ident_list_loop-last_hit zero imp hits b found (last h r) t le = absurd (omega (arith, le))
  ident_list_loop-last_hit zero imp hits b found (more h r ne c) t le = absurd (omega (arith, le))
  ident_list_loop-last_hit (suc fuel) imp hits b found (last h r) (t, ts) le = rw (h, t, r)
  ident_list_loop-last_hit (suc fuel) imp hits b found (more {i} {q} {is} h r ne c) (t, ts) le =
      let next : (q == null) ≡ false = ground arith in
      rw (h, t, r, next)
        (ident_list_loop-last_hit fuel imp hits b (if hits i then (i, b) else found) c ts
          (omega arith))

  field_list_loop-search :
      (fuel : ℕ) (imp : Bool) (hits : Ref → Bool) (b : Ref) {l : Ref} {iss : List (List Ref)}
      (found : Found)
      → FieldLists s l iss
      → All (All (λ i. seen imp i ≡ ok (hits i))) iss
      → length iss < fuel
      → field_list_loop s fuel field_name imp b l found ≡ ok (search hits b iss found)
  unfolding field_list_loop
  field_list_loop-search zero imp hits b found c t lt = absurd (omega arith)
  field_list_loop-search (suc fuel) imp hits b found end t lt = refl
  field_list_loop-search (suc fuel) imp hits b found
        (lists {l} {il} {q} {is} {iss} ne h ids few r c) (t, ts) lt =
      let set : (l == null) ≡ false = ground arith in
      elim (Bool-cases (found.0 == null)) [
        | inr hit ↦ rw (set, hit)
        | inl none ↦
            rw
              (
                set,
                none,
                h,
                ident_list_loop-last_hit (s.count + 1) imp hits b found ids t (omega arith),
                r,
              )
              (field_list_loop-search fuel imp hits b (last_hit hits b is found) c ts (omega arith))
      ]

  -- What the assertion at the end asks of a result.
  abbrev sound : Found → Bool
  sound found = (found.0 == null) || not (found.1 == null)

  last_hit-sound :
      (hits : Ref → Bool) (b : Ref) (is : List Ref) (found : Found)
      → b ≢ null
      → sound found ≡ true
      → sound (last_hit hits b is found) ≡ true
  last_hit-sound hits b [] found ne h = h
  last_hit-sound hits b (i ∷ is) found ne h =
      last_hit-sound hits b is (if hits i then (i, b) else found) ne (ground arith)

  search-sound :
      (hits : Ref → Bool) (b : Ref) (iss : List (List Ref)) (found : Found)
      → b ≢ null
      → sound found ≡ true
      → sound (search hits b iss found) ≡ true
  search-sound hits b [] found ne h = h
  search-sound hits b (is ∷ iss) found ne h =
      ground
        (arith, search-sound hits b iss (last_hit hits b is found), last_hit-sound hits b is found)

  abbrev level_found : Level → Found
  level_found v = search v.hits v.base_type v.idents (null, null)

  -- One round of the outer loop, up to its condition.
  round :
      {imp imp' : Bool} {v : Level} {desc : Ref}
      → (lv : IsLevel imp imp' v desc)
      → (field_list_loop s (s.count + 1) field_name (imp || lv.here) v.base_type lv.seq (null, null)
          ≡ ok (level_found v))
  round {v} lv = rw (← lv.now) (
      field_list_loop-search (s.count + 1) _ v.hits v.base_type (null, null) lv.linked lv.tested
        (omega (arith, lv.few)))

  Levels-based :
      {imp : Bool} {v : Level} {ws : List Level} → Levels imp v ws → (v.base_type == null) ≡ false
  Levels-based (top lv up) = ground (arith, lv.based)
  Levels-based (below lv up c) = ground (arith, lv.based)

  field_ident_loop-find :
      (fuel : ℕ) {imp : Bool} {v : Level} {ws : List Level}
      → Levels imp v ws
      → length ws < fuel
      → (field_ident_loop s fuel field_name imp v.base_type ≡ ok (find v ws))
        × (sound (find v ws) ≡ true)
  unfolding field_ident_loop
  field_ident_loop-find zero c lt = absurd (omega arith)
  field_ident_loop-find (suc fuel) {imp} {v} (top lv up) lt = (
    rw (lv.is_here, lv.has_descriptor, lv.has_fields, round lv, up),
    search-sound v.hits v.base_type v.idents (null, null) lv.based refl,
  )
  field_ident_loop-find (suc fuel) {imp} {v} (below {w} {ws} lv up c) lt =
      let (run, ok_above) = field_ident_loop-find fuel c (omega arith) in
      let ok_here = search-sound v.hits v.base_type v.idents (null, null) lv.based refl in
      elim (Bool-cases ((level_found v).0 == null)) [
        | inl none ↦
            rw
              (
                lv.is_here,
                lv.has_descriptor,
                lv.has_fields,
                round lv,
                up,
                Levels-based c,
                none,
                ← lv.now,
              )
              (run, ok_above)
        | inr hit ↦
            rw (lv.is_here, lv.has_descriptor, lv.has_fields, round lv, up, Levels-based c, hit)
              (refl, ok_here)
      ]

  get_field_ident_lem :
      {imp : Bool} {v : Level} {ws : List Level}
      → (is_record s v.base_type or_else is_pointer s v.base_type) ≡ ok true
      → Levels imp v ws
      → length ws ≤ s.count
      → get_field_ident s field_name v.base_type imp ≡ ok (find v ws)
  unfolding get_field_ident
  get_field_ident_lem fits c le =
      let (run, is_sound) = field_ident_loop-find (s.count + 1) c (omega arith) in
      rw (fits, run, is_sound)

  -- For a record or pointer type whose chain of records is given by the levels `v` and `ws`, at most
  -- as many as there are nodes: `Types_GetFieldIdent` ends, and returns what `find` does: from the
  -- first record upwards that has a hit, from its first list with a hit, the last hit, with the type
  -- of that record. What it returns is NULL or has the name that is looked for, and then it is
  -- exported if the variable is imported.
  pub get_field_ident-find :
      {imp : Bool} {v : Level} {ws : List Level}
      → (is_record s v.base_type or_else is_pointer s v.base_type) ≡ ok true
      → Levels imp v ws
      → length ws ≤ s.count
      → (get_field_ident s field_name v.base_type imp ≡ ok (find v ws))
        × Visible s field_name imp (find v ws)
  get_field_ident-find {imp} {v} {ws} fits c le =
      let run = get_field_ident_lem fits c le in
      (run, returned (find v ws) (get_field_ident-Visible s field_name v.base_type imp) run)
