-- ===== src/Types/Fields.antt =====
-- `Types_GetFieldIdent`: what it returns is a field of the right name that may be seen.
use obnc.Prelude.{
  ℕ, zero, suc, ◌+◌, ◌≡◌, refl, ◌⊎◌, inl, Bool, true, false, not, ◌&&◌, ◌||◌, arith, Bytes,
  bytes_eq, bytes_eq_iff, ◌==◌, if◌then◌else◌, Result, ok, ◌>>=◌, assert, ◌and_also◌, ◌or_else◌,
}
use obnc.Prelude.Ensures.{Ensures, holds, diverges, bind, branch, returned, mono}
use obnc.Trees.Nodes.{Ref, null, Store, left, right}
use obnc.Trees.Idents.{name, exported}
use obnc.Types.Basics.{is_record}
use obnc.Types.Structured.{
  Found, ident_list_loop, field_list_loop, field_ident_loop, get_field_ident, fields, descriptor,
  record_base_type, imported_here, is_pointer,
}

module _ (s : Store) (field_name : Bytes) where
  -- Nothing was found, or a field of that name, exported where the record is imported.
  abbrev pub Visible : Bool → Found → Type 0
  Visible imp found =
      (found.0 ≡ null)
      ⊎ ((name found.0 s ≡ ok field_name) × ((imp ≡ false) ⊎ (exported found.0 s ≡ ok true)))

  abbrev test : Bool → Ref → Result Bool
  test imp ident =
      (ok (not imp) or_else exported ident s)
      and_also (do n ← name ident s; ok (bytes_eq n field_name))

  test-Visible :
      (imp : Bool) (ident base_type : Ref) (found : Found) (hit : Bool)
      → test imp ident ≡ ok hit
      → Visible imp found
      → Visible imp (if hit then (ident, base_type) else found)
  test-Visible imp ident base_type found true h v = grind (arith, bytes_eq_iff)
  test-Visible imp ident base_type found false h v = v

  ident_list_loop-Visible :
      (fuel : ℕ) (imp : Bool) (base_type l : Ref) (found : Found)
      → Visible imp found
      → Ensures (Visible imp) (ident_list_loop s fuel field_name imp base_type l found)
  unfolding ident_list_loop
  ident_list_loop-Visible zero imp base_type l found v = diverges
  ident_list_loop-Visible (suc fuel) imp base_type l found v = bind (left l s) _ λ ident _.
      bind (test imp ident) _ λ hit ht. bind (right l s) _ λ next _.
        let seen = test-Visible imp ident base_type found hit ht v in
        branch (next == null) _ _ (λ _. holds seen)
          (λ _. ident_list_loop-Visible fuel imp base_type next _ seen)

  field_list_loop-Visible :
      (fuel : ℕ) (imp : Bool) (base_type l : Ref) (found : Found)
      → Visible imp found
      → Ensures (Visible imp) (field_list_loop s fuel field_name imp base_type l found)
  unfolding field_list_loop
  field_list_loop-Visible zero imp base_type l found v = diverges
  field_list_loop-Visible (suc fuel) imp base_type l found v =
      branch ((l == null) || not (found.0 == null)) _ _ (λ _. holds v)
        λ _. bind (left l s) _ λ idents _.
          bind (ident_list_loop s (s.count + 1) field_name imp base_type idents found) _ λ found' h.
            let seen = returned found' (ident_list_loop-Visible _ imp base_type idents found v) h in
            bind (right l s) _ λ next _. field_list_loop-Visible fuel imp base_type next found' seen

  Visible-weaken :
      (imp here : Bool) (found : Found) → Visible (imp || here) found → Visible imp found
  Visible-weaken imp here found v = ground arith

  field_ident_loop-Visible :
      (fuel : ℕ) (imp : Bool) (base_type : Ref)
      → Ensures (Visible imp) (field_ident_loop s fuel field_name imp base_type)
  unfolding field_ident_loop
  field_ident_loop-Visible zero imp base_type = diverges
  field_ident_loop-Visible (suc fuel) imp base_type =
      bind (imported_here s imp base_type) _ λ here _. bind (descriptor s base_type) _ λ desc _.
        bind (fields s desc) _ λ seq _.
          bind (field_list_loop s (s.count + 1) field_name (imp || here) base_type seq (null, null))
            _
            λ found h.
              let seen =
                returned found
                  (field_list_loop-Visible _ (imp || here) base_type seq (null, null) (inl refl))
                  h in
              bind (record_base_type s desc) _ λ next _.
                branch (not (next == null) && (found.0 == null)) _ _
                  (λ _.
                    mono (field_ident_loop-Visible fuel (imp || here) next)
                      (Visible-weaken imp here))
                  (λ _. holds {a = found} (Visible-weaken imp here found seen))

  -- For every name, type and import mark: if `Types_GetFieldIdent` returns, then it found nothing,
  -- or an identifier of that very name, which is exported if the variable is imported.
  pub get_field_ident-Visible :
      (t : Ref) (imp : Bool) → Ensures (Visible imp) (get_field_ident s field_name t imp)
  unfolding get_field_ident
  get_field_ident-Visible t imp = bind (is_record s t or_else is_pointer s t) _ λ b _.
      bind (assert b) _ λ _ _. bind (field_ident_loop s (s.count + 1) field_name imp t) _ λ found h.
        bind (assert ((found.0 == null) || not (found.1 == null))) _
          λ _ _. holds {a = found} (returned found (field_ident_loop-Visible _ imp t) h)
