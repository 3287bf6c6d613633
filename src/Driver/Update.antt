-- ===== src/Driver/Update.antt =====
-- CompileOberon, Compile, UpdateObjectFile and SymFileIsSubset: when a module is compiled, and to what
-- files. What is printed for the user and the measurement of times are left out.
use obnc.Prelude.{
  Bool, false, not, List, [], ◌∷◌, ◌++◌, Bytes, codes, bytes_eq, if◌then◌else◌, Result, ok, halts,
  ◌>>=◌, ◌and_also◌, ◌or_else◌,
}
use obnc.Text.{shell_arg}
use obnc.Text.Modules.{source_file}
use obnc.Driver.Compile.{compile_c}
use obnc.Driver.System.{System, older}

-- `dir/.obnc/module` with a suffix.
abbrev pub output_file : Bytes → Bytes → Bytes → Bytes
output_file dir m suffix = dir ++ codes "/.obnc/" ++ m ++ suffix

-- The first line of a file is the given text.
unfoldable pub first_line_is : List Bytes → Bytes → Bool
first_line_is [] text = false
first_line_is (line ∷ lines) text = bytes_eq line text

module _ {F : Type 0} (sys : System F) where
  unfoldable pub compile_oberon : Bytes → Bytes → Bool → F → Result F
  compile_oberon m dir is_entry_point fs =
      let output_dir = dir ++ codes "/.obnc" in
      let sym_file = output_dir ++ codes "/" ++ m ++ codes ".sym" in
      let fs₁ =
        if sys.exists sym_file fs
        then sys.move sym_file (sym_file ++ codes ".bak") fs
        else if not (sys.exists output_dir fs)
        then sys.create_dir output_dir fs
        else fs in
      let option = if is_entry_point then codes "-e" else [] in
      let input_file = sys.basename (source_file (λ f. sys.exists f fs₁) m dir) in
      do
        compiler ← shell_arg sys.is_space (sys.prefix ++ codes "/bin/obnc-compile")
        input_arg ← shell_arg sys.is_space input_file
        let call = compiler ++ codes " " ++ option ++ codes " " ++ input_arg
        command ← if bytes_eq dir (codes ".") then ok call else (do
          dir_arg ← shell_arg sys.is_space dir
          ok (codes "cd " ++ dir_arg ++ codes " && " ++ call))
        let (failed, fs₂) = sys.run command fs₁
        if failed then halts else ok fs₂

  unfoldable pub compile : Bytes → Bytes → Bool → Bool → F → Result F
  compile m dir oberon_needed is_entry_point fs = do
    fs₁ ← if oberon_needed then compile_oberon m dir is_entry_point fs else ok fs
    if sys.build_unified then ok fs₁ else compile_c sys m dir fs₁

  unfoldable pub dir_file_up_to_date : Bytes → Bytes → F → Bool
  dir_file_up_to_date m dir fs =
      let file = output_file dir m (codes ".dir") in
      if sys.exists file fs then first_line_is (sys.lines file fs) (sys.basename dir) else false

  -- `oberonCompilationNeeded`
  unfoldable pub oberon_compilation_needed : Bytes → Bytes → Bool → Bool → F → Result Bool
  oberon_compilation_needed m dir stale is_entry_point fs =
      let oberon_file = source_file (λ f. sys.exists f fs) m dir in
      let gen_c_file = output_file dir m (codes ".c") in
      let sym_file = output_file dir m (codes ".sym") in
      let h_file = output_file dir m (codes ".h") in
      ok stale
      or_else ok (not (sys.exists gen_c_file fs))
      or_else older sys gen_c_file oberon_file fs
      or_else (ok is_entry_point and_also ok (sys.exists sym_file fs))
      or_else (ok (not is_entry_point)
          and_also (ok (not (sys.exists sym_file fs))
              or_else older sys sym_file oberon_file fs
              or_else ok (not (sys.exists h_file fs))
              or_else older sys h_file oberon_file fs
              or_else ok (not (dir_file_up_to_date m dir fs))))

  -- `cCompilationNeeded`
  unfoldable pub c_compilation_needed : Bytes → Bytes → Bool → F → Result Bool
  c_compilation_needed m dir oberon_needed fs =
      let gen_c_file = output_file dir m (codes ".c") in
      let object_file = output_file dir m (codes ".o") in
      let non_gen_c_file = dir ++ codes "/" ++ m ++ codes ".c" in
      let env_file = dir ++ codes "/" ++ m ++ codes ".env" in
      if sys.build_unified
      then ok false
      else ok oberon_needed
        or_else ok (not (sys.exists object_file fs))
        or_else (ok (not (sys.exists non_gen_c_file fs))
            and_also older sys object_file gen_c_file fs)
        or_else (ok (sys.exists non_gen_c_file fs) and_also older sys object_file non_gen_c_file fs)
        or_else (ok (sys.exists env_file fs) and_also older sys object_file env_file fs)

  unfoldable pub update_object_file : Bytes → Bytes → Bool → Bool → F → Result F
  update_object_file m dir stale is_entry_point fs = do
    let dir_file = output_file dir m (codes ".dir")
    let up_to_date = dir_file_up_to_date m dir fs
    oberon_needed ← oberon_compilation_needed m dir stale is_entry_point fs
    c_needed ← c_compilation_needed m dir oberon_needed fs
    needed ← ok oberon_needed or_else ok c_needed
    fs₁ ← if needed then compile m dir oberon_needed is_entry_point fs else ok fs
    ok (
        if is_entry_point
        then (if sys.exists dir_file fs₁ then sys.remove dir_file fs₁ else fs₁)
        else if not up_to_date
        then sys.write_file dir_file (sys.basename dir ++ 10 ∷ []) fs₁
        else fs₁)

  -- `SymFileIsSubset`: the program for awk compares all lines but the first.
  unfoldable pub sym_file_is_subset : Bytes → Bytes → F → Result (Bool × F)
  sym_file_is_subset file1 file2 fs = do
    program ← shell_arg sys.is_space (
        codes
          "FNR == 1 { next } FILENAME == ARGV[1] { lines[$0] = 1; next } FILENAME == ARGV[2] && ! lines[$0] { exit 1 }")
    arg2 ← shell_arg sys.is_space file2
    arg1 ← shell_arg sys.is_space file1
    let (failed, fs') =
        sys.run (codes "awk " ++ program ++ codes " " ++ arg2 ++ codes " " ++ arg1) fs
    ok (not failed, fs')
