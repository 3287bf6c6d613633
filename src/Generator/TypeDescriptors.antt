-- ===== src/Generator/TypeDescriptors.antt =====
-- src/Generate.c: the type descriptors of records, TypeDescIdent, GenerateTypeIDs and
-- GenerateTypeDescDecl, and the ID and the level of GenerateISExpression. An ID is printed as the name
-- of an identifier, and is that identifier here. The fuel bounds the number of base types.
pub mod Levels
use obnc.Prelude.{
  ℕ, not, zero, suc, ◌+◌, List, [], ◌∷◌, ◌++◌, ◌==◌, if◌then◌else◌, Result, ok, abort, diverge,
  ◌>>=◌, ◌>>◌, assert,
}
use obnc.Trees.Symbols.{tok_ident, tok_record, tok_pointer}
use obnc.Trees.Nodes.{Ref, null, Store, symbol, left}
use obnc.Types.Basics.{structure, unaliased_ident}
use obnc.Types.Structured.{pointer_base_type, record_base_type, extension_level}

-- The declared length of the array of IDs, the IDs, and `nids`.
pub record Descriptor : Type 0 where
  pub declared : ℕ
  pub ids : List Ref
  pub nids : ℕ

module _ (s : Store) where
  unfoldable pub initial_ident : Ref → Result Ref
  initial_ident t = do
    x ← symbol t s
    if x == tok_pointer
        then (do i ← left t s; y ← symbol i s; assert (y == tok_ident); ok i)
        else ok t

  unfoldable pub type_desc_ident : Ref → Result Ref
  unfolding initial_ident
  type_desc_ident t = do
    i ← initial_ident t
    u ← unaliased_ident s i
    v ← structure s u
    x ← symbol v s
    result ←
        (if x == tok_record
          then ok u
          else if x == tok_pointer
          then (do
            b ← pointer_base_type s v
            y ← symbol b s
            if y == tok_record then ok u else if y == tok_ident then unaliased_ident s b else abort)
          else abort)
    assert (not (result == null))
    ok result

  unfoldable pub generate_type_ids : ℕ → Ref → Result (List Ref)
  unfolding type_desc_ident
  generate_type_ids zero t = diverge
  generate_type_ids (suc fuel) t = do
    b ← record_base_type s t
    before ← (if b == null then ok [] else generate_type_ids fuel b)
    i ← type_desc_ident t
    ok (before ++ i ∷ [])

  unfoldable pub generate_type_desc : Ref → Result Descriptor
  unfolding generate_type_ids
  generate_type_desc t = do
    n ← extension_level s t
    is ← generate_type_ids (s.count + 1) t
    ok (record { declared = n + 1; ids = is; nids = n + 1 })

  -- The ID and the level that `OBNC_IS` gets.
  unfoldable pub is_operands : Ref → Result (Ref × ℕ)
  unfolding type_desc_ident
  is_operands t = do i ← type_desc_ident t; n ← extension_level s t; ok (i, n)
