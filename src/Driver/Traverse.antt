-- ===== src/Driver/Traverse.antt =====
-- NewModuleNode, MatchingModuleNode, GetImportedFiles, DetectImportCycle and Traverse1: the modules
-- of a program, found by following imports, each compiled behind those that it imports.
-- The recursion runs on fuel, since C recurs as deep as modules import each other.
use obnc.Prelude.{
  ℕ, zero, suc, Bool, true, false, not, ◌&&◌, ◌||◌, Option, none, some, List, [], ◌∷◌, ◌++◌, Bytes,
  codes, bytes_eq, if◌then◌else◌, Result, ok, abort, diverge, halts, ◌>>=◌, ◌>>◌, ◌and_also◌,
  ◌or_else◌,
}
use obnc.Text.{shell_arg, sans_suffix}
use obnc.Text.Modules.{source_file, directory}
use obnc.Driver.System.{System, older}
use obnc.Driver.Update.{output_file, update_object_file, sym_file_is_subset}

pub record ModuleNode : Type 0 where
  pub name : Bytes
  pub dir : Bytes
  pub stale : Bool

abbrev pub new_module_node : Bytes → Bytes → ModuleNode
new_module_node m dir = record { name = m; dir = dir; stale = false }

-- `strcmp(ls->module, module) == 0 && strcmp(ls->dir, dir) == 0`
abbrev pub is_node : Bytes → Bytes → ModuleNode → Bool
is_node m dir node = bytes_eq node.name m && bytes_eq node.dir dir

unfoldable pub matching_module_node : Bytes → Bytes → List ModuleNode → Option ModuleNode
matching_module_node m dir [] = none
matching_module_node m dir (node ∷ nodes) =
    let rest = matching_module_node m dir nodes in if is_node m dir node then some node else rest

-- An assignment to the `stale` field of the matching node.
unfoldable pub set_stale : Bytes → Bytes → Bool → List ModuleNode → Result (List ModuleNode)
set_stale m dir b [] = abort
set_stale m dir b (node ∷ nodes) =
    let rest = set_stale m dir b nodes in
    if is_node m dir node
    then ok (record node { stale = b } ∷ nodes)
    else (do nodes' ← rest; ok (node ∷ nodes'))

-- The import path that is passed to a module that is imported ends the driver if it has that module.
unfoldable pub detect_import_cycle : Bytes → Bytes → List ModuleNode → Result (Unit {0})
detect_import_cycle m dir path = elim (matching_module_node m dir path) [
  | none ↦ ok tt
  | some node ↦ halts
]

module _ {F : Type 0} (sys : System F) where
  -- `GetImportedModulesFromSourceFile`
  unfoldable pub imported_modules_of_source : Bytes → F → Result (List Bytes)
  imported_modules_of_source oberon_file fs = do
    dir_arg ← shell_arg sys.is_space (sys.dirname oberon_file)
    compiler ← shell_arg sys.is_space (sys.prefix ++ codes "/bin/obnc-compile")
    file_arg ← shell_arg sys.is_space (sys.basename oberon_file)
    elim (sys.output
        (codes "cd " ++ dir_arg ++ codes " && " ++ compiler ++ codes " -l " ++ file_arg) fs) [
          | none ↦ halts
          | some lines ↦ ok lines
        ]

  -- The loop of `GetImportedFiles`.
  unfoldable pub files_loop : Bytes → List Bytes → F → Result (List Bytes)
  files_loop dir [] fs = ok []
  files_loop dir (m ∷ ms) fs = do
    let exists = λ (f : Bytes). sys.exists f fs
    found ← directory sys.is_upper exists dir sys.import_paths sys.lib_path m
    elim found [
      | none ↦ halts
      | some imp_dir ↦ (do files ← files_loop dir ms fs; ok (source_file exists m imp_dir ∷ files))
    ]

  -- The list of imports that an earlier run has written is not older than the source.
  unfoldable pub is_current : Bytes → Bytes → F → Result Bool
  is_current imp_file oberon_file fs =
      ok (sys.exists imp_file fs)
      and_also (ok (not (sys.exists oberon_file fs))
          or_else (do is_older ← older sys imp_file oberon_file fs; ok (not is_older)))

  unfoldable pub imported_modules : Bytes → Bytes → F → Result (List Bytes)
  imported_modules imp_file oberon_file fs = do
    current ← is_current imp_file oberon_file fs
    if current
        then ok (sys.lines imp_file fs)
        else if sys.exists oberon_file fs
        then imported_modules_of_source oberon_file fs
        else ok []

  unfoldable pub get_imported_files : Bytes → Bytes → F → Result (List Bytes)
  get_imported_files m dir fs = do
    let oberon_file = source_file (λ f. sys.exists f fs) m dir
    let own_imp_file = output_file dir m (codes ".imp")
    let imp_file =
        if sys.exists own_imp_file fs then own_imp_file else dir ++ codes "/" ++ m ++ codes ".imp"
    modules ← imported_modules imp_file oberon_file fs
    files_loop dir modules fs

  -- What `Traverse1` does behind its loop: the module is compiled if needed, and it is told whether
  -- its symbol file has lost nothing.
  unfoldable pub update : Bytes → Bytes → Bool → Bool → F → Result (Bool × F)
  update m dir stale is_root fs =
      let oberon_file = source_file (λ f. sys.exists f fs) m dir in
      let sym_file = output_file dir m (codes ".sym") in
      let bak_file = sym_file ++ codes ".bak" in
      if sys.exists oberon_file fs
      then (do
        fs₁ ← update_object_file sys m dir stale is_root fs
        if sys.exists sym_file fs₁ && sys.exists bak_file fs₁
            then (do
              (compatible, fs₂) ← sym_file_is_subset sys bak_file sym_file fs₁
              ok (compatible, sys.remove bak_file fs₂))
            else ok (true, fs₁))
      else ok (true, fs)

  abbrev pub Traversal : Type 0
  Traversal =
      Bytes → Bytes → List ModuleNode → Bool → List ModuleNode → F → Result (List ModuleNode × F)

  -- The loop of `Traverse1`, where `go` is its recursive call: `stale`, the discovered modules and
  -- the files.
  unfoldable pub imports_loop :
      Traversal
      → List Bytes
      → List ModuleNode
      → Bool
      → List ModuleNode
      → F
      → Result (Bool × List ModuleNode × F)
  imports_loop go [] path stale found fs = ok (stale, found, fs)
  imports_loop go (file ∷ files) path stale found fs = do
    let m = sans_suffix sys.basename (sys.basename file)
    let dir = sys.dirname file
    detect_import_cycle m dir path
    (found₁, fs₁) ← elim (matching_module_node m dir found) [
      | none ↦ go m dir (new_module_node m dir ∷ path) false found fs
      | some node ↦ ok (found, fs)
    ]
    elim (matching_module_node m dir found₁) [
      | none ↦ abort
      | some p ↦ imports_loop go files path (stale || p.stale) found₁ fs₁
    ]

  unfoldable pub traverse1 : ℕ → Traversal
  traverse1 zero m dir path is_root found fs = diverge
  traverse1 (suc fuel) m dir path is_root found fs = do
    files ← get_imported_files m dir fs
    (stale, found₁, fs₁) ←
        imports_loop (traverse1 fuel) files path false (new_module_node m dir ∷ found) fs
    (compatible, fs₂) ← update m dir stale is_root fs₁
    found₂ ← set_stale m dir (not compatible) found₁
    ok (found₂, fs₂)

  unfoldable pub traverse : ℕ → Bytes → List ModuleNode → F → Result (List ModuleNode × F)
  traverse fuel oberon_file found fs =
      let m = sans_suffix sys.basename (sys.basename oberon_file) in
      let dir = sys.dirname oberon_file in
      traverse1 fuel m dir (new_module_node m dir ∷ []) true found fs
