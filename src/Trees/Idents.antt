-- ===== src/Trees/Idents.antt =====
-- Identifier nodes: Trees_NewIdent to Trees_SetUsed.
use obnc.Prelude.{ℕ, Bool, true, false, Bytes, ltb, Result, ok, abort, ◌>>=◌, ◌>>◌, assert}
use obnc.Trees.Symbols.{tok_ident, unspecified_kind, kind_count}
use obnc.Trees.Nodes.{Ref, null, Ident, Value, ident_value, Store, read, write, new_leaf}

-- `assert(node->valueType == IDENT_VALUE)` and the union's member.
unfoldable pub ident_of : Value → Result Ident
ident_of (ident_value i) = ok i
ident_of _ = abort

unfoldable pub ident : Ref → Store → Result Ident
unfolding read ident_of
ident p s = do n ← read p s; ident_of n.value

unfoldable pub set_ident : Ref → Ident → Store → Result Store
unfolding read write
set_ident p i s = do n ← read p s; ok (write p (record n { value = ident_value i }) s)

abbrev pub fresh_ident : Bytes → Ident
fresh_ident name = record {
  name = name;
  unaliased_name = name;
  kind = unspecified_kind;
  local = false;
  imported = false;
  exported = false;
  internal = false;
  used = false;
  value = null;
}

unfoldable pub new_ident : Bytes → Store → Result (Ref × Store)
unfolding new_leaf set_ident
new_ident name s = do
  (p, s') ← new_leaf tok_ident s
  s'' ← set_ident p (fresh_ident name) s'
  ok (p, s'')

unfoldable pub name : Ref → Store → Result Bytes
unfolding ident
name p s = do i ← ident p s; ok i.name

unfoldable pub set_name : Bytes → Ref → Store → Result Store
set_name name p s = do i ← ident p s; set_ident p (record i { name = name }) s

unfoldable pub unaliased_name : Ref → Store → Result Bytes
unfolding ident
unaliased_name p s = do i ← ident p s; ok i.unaliased_name

unfoldable pub set_unaliased_name : Bytes → Ref → Store → Result Store
set_unaliased_name name p s = do i ← ident p s; set_ident p (record i { unaliased_name = name }) s

unfoldable pub kind : Ref → Store → Result ℕ
unfolding ident
kind p s = do i ← ident p s; ok i.kind

unfoldable pub set_kind : ℕ → Ref → Store → Result Store
set_kind kind p s = do
  i ← ident p s
  assert (ltb kind kind_count)
  set_ident p (record i { kind = kind }) s

unfoldable pub local : Ref → Store → Result Bool
unfolding ident
local p s = do i ← ident p s; ok i.local

unfoldable pub set_local : Ref → Store → Result Store
set_local p s = do i ← ident p s; set_ident p (record i { local = true }) s

unfoldable pub imported : Ref → Store → Result Bool
unfolding ident
imported p s = do i ← ident p s; ok i.imported

unfoldable pub set_imported : Ref → Store → Result Store
set_imported p s = do i ← ident p s; set_ident p (record i { imported = true }) s

unfoldable pub exported : Ref → Store → Result Bool
unfolding ident
exported p s = do i ← ident p s; ok i.exported

unfoldable pub set_exported : Ref → Store → Result Store
set_exported p s = do i ← ident p s; set_ident p (record i { exported = true }) s

unfoldable pub internal : Ref → Store → Result Bool
unfolding ident
internal p s = do i ← ident p s; ok i.internal

unfoldable pub set_internal : Ref → Store → Result Store
set_internal p s = do i ← ident p s; set_ident p (record i { internal = true }) s

unfoldable pub used : Ref → Store → Result Bool
unfolding ident
used p s = do i ← ident p s; ok i.used

unfoldable pub set_used : Ref → Store → Result Store
set_used p s = do i ← ident p s; set_ident p (record i { used = true }) s
