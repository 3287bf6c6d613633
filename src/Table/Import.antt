-- ===== src/Table/Import.antt =====
-- ResolveTypesRec to Table_ImportSystem: the identifiers of an imported module.
-- The file is given by its contents. Fuel is an argument, since C recurs without a bound.
use obnc.Prelude.{
  ℕ, zero, suc, Bool, true, false, not, ◌||◌, Option, List, [], ◌∷◌, ◌++◌, Bytes, codes, leb,
  length, ◌==◌, if◌then◌else◌, Result, ok, abort, diverge, halts, ◌>>=◌, ◌>>◌, assert, ◌and_also◌,
}
use obnc.Maps
use obnc.Maps.{MapOf}
use obnc.Trees.Symbols.{
  tok_ident, tok_array, tok_record, tok_pointer, tok_procedure, type_kind, variable_kind,
  field_kind, value_param_kind, var_param_kind, procedure_kind, sym_nosym, sym_adr_proc,
  sym_size_proc, sym_bit_proc, sym_get_proc, sym_put_proc, sym_copy_proc, sym_val_proc,
}
use obnc.Trees.Nodes.{
  Ref, null, Store, symbol, type, set_type, left, right, set_left, new_node, new_leaf,
}
use obnc.Trees.Idents.{new_ident, name, set_name, set_unaliased_name, kind, set_kind, imported}
use obnc.Types.Basics.{one_of}
use obnc.Types.Structured.{
  element_type, set_element_type, record_base_type, set_record_base_type, fields, pointer_base_type,
  set_pointer_base_type, result_type, set_result_type, parameters,
}
use obnc.Table.Scopes.{State, or_null, at}
use obnc.Table.Scan.{skip_space}
use obnc.Table.Reader.{read_sexp}

-- The type of a node that may be a name to resolve.
unfoldable pub candidate_type : ℕ → Ref → Store → Result Ref
candidate_type x node t =
    if x == tok_ident
    then (do
      k ← kind node t
      if one_of k (type_kind ∷ variable_kind ∷ field_kind ∷ value_param_kind ∷ var_param_kind ∷ [])
          then type node t
          else ok null)
    else if x == tok_array
    then element_type t node
    else if x == tok_record
    then record_base_type t node
    else if x == tok_pointer
    then pointer_base_type t node
    else if x == tok_procedure
    then result_type t node
    else ok null

module _ (entries : MapOf Ref) where
  unfoldable pub resolve_types_rec : ℕ → Ref → Store → Result Store
  resolve_types_rec zero node t = diverge
  resolve_types_rec (suc fuel) node t =
      let resolve_fields = λ (t' : Store). (do f ← fields t' node; resolve_types_rec fuel f t') in
      let resolve_params =
        λ (t' : Store). (do p ← parameters t' node; resolve_types_rec fuel p t') in
      let resolve_type = (do u ← type node t; resolve_types_rec fuel u t) in
      let resolve_children = (do
        l ← left node t
        t₁ ← resolve_types_rec fuel l t
        r ← right node t₁
        resolve_types_rec fuel r t₁) in
      if node == null then ok t else do
        x ← symbol node t
        ty ← candidate_type x node t
        is_name ← ok (not (ty == null)) and_also (do y ← symbol ty t; ok (y == tok_ident))
        if is_name
            then (do
              n ← name ty t
              let type_def = or_null (Maps.at n entries)
              if type_def == null
                  then halts
                  else if x == tok_ident
                  then set_type type_def node t
                  else if x == tok_array
                  then set_element_type t type_def node
                  else if x == tok_record
                  then (do t' ← set_record_base_type t type_def node; resolve_fields t')
                  else if x == tok_pointer
                  then set_pointer_base_type t type_def node
                  else if x == tok_procedure
                  then (do t' ← set_result_type t type_def node; resolve_params t')
                  else abort)
            else if x == tok_ident
            then resolve_type
            else resolve_children

  -- The applicator `ResolveTypes`.
  unfoldable pub resolve_types : ℕ → Bytes → Ref → Result Store → Result Store
  resolve_types fuel ident_name ident run = do t ← run; resolve_types_rec fuel ident t

unfoldable pub qualified_name : Bytes → Bytes → Bytes
qualified_name qualifier n = qualifier ++ codes "." ++ n

unfoldable pub has_dot : Bytes → Bool
has_dot [] = false
has_dot (c ∷ s) = (c == b'.') || has_dot s

-- The applicator `SetQualifiers`, for `importModule` and `importQualifier`.
unfoldable pub set_qualifiers : Bytes → Bytes → Bytes → Ref → Result Store → Result Store
set_qualifiers import_module import_qualifier ident_name ident run = do
  t ← run
  n ← name ident t
  if has_dot n then ok t else (do
    t₁ ← set_name (qualified_name import_qualifier n) ident t
    set_unaliased_name (qualified_name import_module n) ident t₁)

-- The version line, which is skipped.
unfoldable pub skip_line : Bytes → Bytes
skip_line [] = []
skip_line (c ∷ s) = let rest = skip_line s in if c == 10 then s else rest

module _ (max : ℕ) (scan_real : Bytes → Option (ℕ × Bytes)) where
  -- The loop of `Table_Import` over the entries, with its variables `symbolFileEntries` and
  -- `importEntries`.
  unfoldable pub entries_loop :
      ℕ → Bytes → MapOf Ref → Ref → Store → Result (MapOf Ref × Ref × Store)
  entries_loop zero inp entries list t = diverge
  entries_loop (suc fuel) inp entries list t =
      let more = (do
        (p, r, t₁) ← read_sexp max scan_real fuel true inp t
        if p == null then halts else (do
          n ← name p t₁
          i ← imported p t₁
          (list', t₂) ← if i then new_node sym_nosym p list t₁ else ok (list, t₁)
          entries_loop fuel (skip_space r) (Maps.put n p entries) list' t₂)) in
      if leb (length inp) 0 then ok (entries, list, t) else more

  unfoldable pub import : ℕ → Bytes → Bytes → Bytes → State → Result State
  import fuel file module_name qualifier s = do
    assert s.initialized
    (entries, list, t₁) ← entries_loop fuel (skip_space (skip_line file)) Maps.new null s.trees
    t₂ ← Maps.apply (resolve_types entries fuel) entries (ok t₁)
    t₃ ← Maps.apply (set_qualifiers module_name qualifier) entries (ok t₂)
    (q, s') ← at qualifier (record s { trees = t₃ })
    assert (not (q == null))
    t₄ ← set_left list q s'.trees
    ok (record s' { trees = t₄ })

abbrev pub system_procs : List (Bytes × ℕ)
system_procs =
    (codes "ADR", sym_adr_proc)
    ∷ (codes "SIZE", sym_size_proc)
    ∷ (codes "BIT", sym_bit_proc)
    ∷ (codes "GET", sym_get_proc)
    ∷ (codes "PUT", sym_put_proc)
    ∷ (codes "COPY", sym_copy_proc)
    ∷ (codes "VAL", sym_val_proc)
    ∷ []

-- The loop of `Table_ImportSystem`.
unfoldable pub system_loop : Bytes → List (Bytes × ℕ) → Ref → Store → Result (Ref × Store)
system_loop qualifier [] list t = ok (list, t)
system_loop qualifier ((n, ty) ∷ procs) list t = do
  (p, t₁) ← new_ident (qualified_name qualifier n) t
  t₂ ← set_kind procedure_kind p t₁
  (leaf, t₃) ← new_leaf ty t₂
  t₄ ← set_type leaf p t₃
  (list', t₅) ← new_node sym_nosym p list t₄
  system_loop qualifier procs list' t₅

unfoldable pub import_system : Bytes → State → Result State
import_system qualifier s = do
  assert s.initialized
  (list, t) ← system_loop qualifier system_procs null s.trees
  (q, s') ← at qualifier (record s { trees = t })
  assert (not (q == null))
  t' ← set_left list q s'.trees
  ok (record s' { trees = t' })
