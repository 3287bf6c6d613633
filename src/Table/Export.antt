-- ===== src/Table/Export.antt =====
-- WriteExportedSymbol to Table_Export: the symbol file of a module. The result is the contents of the
-- file; `version` is CONFIG_VERSION.
use obnc.Prelude.{
  ℕ, zero, suc, true, [], ◌∷◌, ◌++◌, Bytes, ◌==◌, if◌then◌else◌, Result, ok, halts, ◌>>=◌, ◌>>◌,
  assert,
}
use obnc.Maps
use obnc.Maps.{MapOf}
use obnc.Trees.Symbols.{tok_ident}
use obnc.Trees.Nodes.{Ref, null, Store, symbol}
use obnc.Trees.Idents.{name, exported}
use obnc.Table.Scopes.{State}
use obnc.Table.Writer.{write}

-- What has been written, the trees, `writtenSymbols`, and the indirectly exported types.
pub record Progress : Type 0 where
  pub out : Bytes
  pub trees : Store
  pub written : MapOf Ref
  pub indirect : MapOf Ref

module _ (print_real : ℕ → Bytes) (fuel : ℕ) where
  -- What both applicators do with an identifier that is to be written.
  unfoldable pub write_line : Ref → Progress → Result Progress
  write_line ident g = do
    (out, t, m) ← write print_real fuel ident true g.trees g.indirect
    n ← name ident t
    ok (record {
      out = g.out ++ (out ++ 10 ∷ []);
      trees = t;
      written = Maps.put n null g.written;
      indirect = m;
    })

  unfoldable pub write_exported_symbol : Bytes → Ref → Result Progress → Result Progress
  write_exported_symbol ident_name ident run = do
    g ← run
    x ← symbol ident g.trees
    assert (x == tok_ident)
    e ← exported ident g.trees
    if e then write_line ident g else ok g

  unfoldable pub write_symbol : Bytes → Ref → Result Progress → Result Progress
  write_symbol ident_name ident run = do
    g ← run
    x ← symbol ident g.trees
    assert (x == tok_ident)
    n ← name ident g.trees
    if Maps.has_key n g.written then ok g else write_line ident g

  -- The `while` loop over the levels of indirect exports, with the rounds that `i < 10` leaves. When
  -- none is left the export fails, also if nothing is left to write.
  unfoldable pub levels_loop : ℕ → Progress → Result Progress
  levels_loop zero g = halts
  levels_loop (suc rounds) g =
      let next = (do
        g' ← Maps.apply write_symbol g.indirect (ok (record g { indirect = Maps.new }))
        levels_loop rounds g') in
      if Maps.is_empty g.indirect then ok g else next

  unfoldable pub export : Bytes → State → Result (Bytes × State)
  export version s = do
    assert s.initialized
    let start : Progress = record {
      out = version ++ 10 ∷ [];
      trees = s.trees;
      written = Maps.new;
      indirect = Maps.new;
    }
    g ← Maps.apply write_exported_symbol s.global (ok start)
    g' ← levels_loop 10 g
    ok (g'.out, record s { trees = g'.trees })
