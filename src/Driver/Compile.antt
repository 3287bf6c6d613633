-- ===== src/Driver/Compile.antt =====
-- UnquotedString to CompileC: the command that compiles the C file of a module, with the settings of
-- its environment file.
use obnc.Prelude.{
  ℕ, Bool, not, ◌&&◌, ◌||◌, Option, none, some, List, [], ◌∷◌, ◌++◌, Bytes, codes, bytes_eq, ◌==◌,
  if◌then◌else◌, Result, ok, abort, halts, ◌>>=◌,
}
use obnc.Text.{shell_arg, starts_with}
use obnc.Text.Modules.{as_prefix}
use obnc.Driver.System.{System}

-- The last byte of a text, and the text without it.
unfoldable pub last : ℕ → Bytes → ℕ
last c [] = c
last c (d ∷ s) = last d s

unfoldable pub without_last : ℕ → Bytes → Bytes
without_last c [] = []
without_last c (d ∷ s) = c ∷ without_last d s

-- A text that is a single quote is taken for quoted, and a byte before the new text is written.
unfoldable pub unquoted_string : Bytes → Result Bytes
unquoted_string [] = ok []
unquoted_string (c ∷ s) =
    if ((c == 39) && (last c s == 39)) || ((c == 34) && (last c s == 34))
    then elim s [ [] ↦ abort | d ∷ r ↦ ok (without_last d r) ]
    else ok (c ∷ s)

-- What stands before and behind the first `=` of a line.
unfoldable pub setting : Bytes → Option (Bytes × Bytes)
setting [] = none
setting (c ∷ s) =
    let rest = setting s in
    if c == b'='
    then some ([], s)
    else elim rest [ none ↦ none | some (key, value) ↦ some (c ∷ key, value) ]

-- The key and the value of a line.
unfoldable pub env_line : Bytes → Result (Bytes × Bytes)
env_line line = elim (setting line) [
  | none ↦ ok ([], [])
  | some (key, raw) ↦ (do value ← unquoted_string raw; ok (key, value))
]

unfoldable pub read_env_file : List Bytes → Result (List (Bytes × Bytes))
read_env_file [] = ok []
read_env_file (line ∷ lines) = do e ← env_line line; es ← read_env_file lines; ok (e ∷ es)

-- The loop of `CompileC` over the settings: the compiler, and the flags for the module.
unfoldable pub settings_loop : List (Bytes × Bytes) → Bytes → Bytes → Bytes × Bytes
settings_loop [] cc flags = (cc, flags)
settings_loop ((key, value) ∷ es) cc flags =
    if bytes_eq key (codes "CC")
    then settings_loop es value flags
    else if bytes_eq key (codes "CFLAGS")
    then settings_loop es cc value
    else settings_loop es cc flags

-- `strstr(s, old) != NULL`
unfoldable pub has_text : Bytes → Bytes → Bool
has_text old [] = starts_with old []
has_text old (c ∷ s) = starts_with old (c ∷ s) || has_text old s

module _ {F : Type 0} (sys : System F) where
  unfoldable pub c_compiler : Bytes
  c_compiler = elim (sys.getenv (codes "CC")) [
    | none ↦ codes "cc"
    | some cc ↦ if not (bytes_eq cc []) then cc else codes "cc"
  ]

  -- `cc` and `cFlags`
  unfoldable pub compiler_and_flags : Bytes → Bytes → F → Result (Bytes × Bytes)
  compiler_and_flags m dir fs =
      let env_file = dir ++ codes "/" ++ m ++ codes ".env" in
      let given : Bytes = elim (sys.getenv (codes "CFLAGS")) [ none ↦ [] | some flags ↦ flags ] in
      do
        include ← shell_arg sys.is_space (sys.prefix ++ codes "/include")
        let global = codes "-I " ++ include ++ codes " " ++ given
        settings ← if sys.exists env_file fs then read_env_file (sys.lines env_file fs) else ok []
        let (cc, flags) = settings_loop settings c_compiler []
        ok (cc, global ++ codes " " ++ flags)

  unfoldable pub compile_c : Bytes → Bytes → F → Result F
  compile_c m dir fs =
      let own_file = as_prefix dir ++ m ++ codes ".c" in
      let input_file =
        if sys.exists own_file fs
        then own_file
        else as_prefix dir ++ codes ".obnc/" ++ m ++ codes ".c" in
      let output_file = as_prefix dir ++ codes ".obnc/" ++ m ++ codes ".o" in
      do
        (cc, flags) ← compiler_and_flags m dir fs
        output_arg ← shell_arg sys.is_space output_file
        input_arg ← shell_arg sys.is_space input_file
        let command =
            cc ++ codes " -c -o " ++ output_arg ++ codes " " ++ flags ++ codes " " ++ input_arg
        let no_gc = has_text (codes "OBNC_CONFIG_NO_GC=") flags
        let emb = has_text (codes "OBNC_CONFIG_TARGET_EMB=") flags
        let refused = if sys.build_unified then no_gc && emb else no_gc || emb
        let (failed, fs') = sys.run command fs
        if refused || failed then halts else ok fs'
