-- ===== src/Text/Modules.antt =====
-- src/ModulePaths.c: where the source of a module is looked for. `exists` is `Files_Exists`, a
-- query of the file system. The printing of the directories that were tried is not modelled.
use obnc.Prelude.{
  ℕ, ◌≡◌, Bool, true, ◌||◌, Option, none, some, List, [], ◌∷◌, ◌++◌, Bytes, codes, bytes_eq,
  if◌then◌else◌, false, Result, ok, ◌>>=◌,
}

unfoldable pub as_prefix : Bytes → Bytes
as_prefix dir = if bytes_eq dir (codes ".") then [] else dir ++ codes "/"

abbrev pub suffixes : List Bytes
suffixes = codes ".obn" ∷ codes ".Mod" ∷ codes ".mod" ∷ []

-- The first result if there is one, or else the second.
abbrev pub some_or : {A : Type 0} → Option A → Result (Option A) → Result (Option A)
some_or none k = k
some_or (some a) k = ok (some a)

-- The loop of `ModulePrefix`: what stands before the first capital, if there is a capital. `is_upper`
-- is `isupper` of a char, which aborts where C does not define it: for a negative char.
unfoldable pub prefix_loop : (ℕ → Result Bool) → Bytes → Bytes → Result (Option Bytes)
prefix_loop is_upper [] passed = ok none
prefix_loop is_upper (c ∷ s) passed = do
  found ← is_upper c
  let rest = prefix_loop is_upper s (passed ++ c ∷ [])
  if found then ok (if bytes_eq passed [] then none else some passed) else rest

unfoldable pub module_prefix : (ℕ → Result Bool) → Bytes → Result (Option Bytes)
module_prefix is_upper m = prefix_loop is_upper m []

module _ (exists : Bytes → Bool) where
  -- The loop of `ModulePaths_SourceFile`, with the suffixes that are left to try. Behind the last
  -- one the index wraps around to the first suffix.
  unfoldable pub source_file_loop : Bytes → List Bytes → Bytes
  source_file_loop stem [] = stem ++ codes ".obn"
  source_file_loop stem (x ∷ xs) =
      if exists (stem ++ x) then stem ++ x else source_file_loop stem xs

  unfoldable pub source_file : Bytes → Bytes → Bytes
  source_file m dir = source_file_loop (as_prefix dir ++ m) suffixes

  unfoldable pub search_dir : Bytes → Bytes → Option Bytes
  search_dir dir m =
      if exists (source_file m dir)
        || exists (dir ++ codes "/.obnc/" ++ m ++ codes ".sym")
        || exists (dir ++ codes "/" ++ m ++ codes ".sym")
      then some dir
      else none

module _ (is_upper : ℕ → Result Bool) (exists : Bytes → Bool) where
  unfoldable pub search_path : Bytes → Bytes → Result (Option Bytes)
  search_path dir m = some_or (search_dir exists dir m) (do
    o ← module_prefix is_upper m
    ok (elim o [ none ↦ none | some prefix ↦ search_dir exists (dir ++ codes "/" ++ prefix) m ]))

  -- The loop over the import paths; an empty one is passed over.
  unfoldable pub search_paths : List Bytes → Bytes → Result (Option Bytes)
  search_paths [] m = ok none
  search_paths (p ∷ ps) m = do
    o ← if bytes_eq p [] then ok none else search_path p m
    some_or o (search_paths ps m)

  -- `ModulePaths_Directory`: the given directory, the import paths, the library's directory.
  unfoldable pub directory : Bytes → List Bytes → Bytes → Bytes → Result (Option Bytes)
  directory relative_dir paths obnc_lib_path m = do
    here ← search_path relative_dir m
    some_or here (do there ← search_paths paths m; some_or there (search_path obnc_lib_path m))

abbrev stem : Bytes → Bytes → Bytes
stem dir m = if bytes_eq dir (codes ".") then m else dir ++ codes "/" ++ m

-- The files by which a directory has a module: the source under one of three names, or the symbol
-- file that a translation has left there or that is installed there.
abbrev pub files_of : Bytes → Bytes → List Bytes
files_of dir m =
    (stem dir m ++ codes ".obn")
    ∷ (stem dir m ++ codes ".Mod")
    ∷ (stem dir m ++ codes ".mod")
    ∷ (dir ++ codes "/.obnc/" ++ m ++ codes ".sym")
    ∷ (dir ++ codes "/" ++ m ++ codes ".sym")
    ∷ []

abbrev pub some_exists : (Bytes → Bool) → List Bytes → Bool
some_exists exists [] = false
some_exists exists (f ∷ fs) = exists f || some_exists exists fs

module _ (is_upper : ℕ → Result Bool) (exists : Bytes → Bool) where
  abbrev Has : Bytes → Bytes → Type 0
  Has d m = some_exists exists (files_of d m) ≡ true
