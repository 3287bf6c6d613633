-- ===== src/Driver/Finishes.antt =====
-- The parts of the driver that end: with a result, or with an error message. No assertion fails in
-- them, and no loop goes on.
use obnc.Prelude.{
  ℕ, ap, arith, bytes_eq, ◌≢◌, ◌==◌, ◌≡◌, All, Bool-cases, inl, inr, List, Option, none, some, refl,
  Bool, true, false, not, [], ◌∷◌, ◌++◌, Bytes, codes, if◌then◌else◌, Result, ok, halts, ◌>>=◌,
  ◌and_also◌, ◌or_else◌,
}
use obnc.Text.{has_space, shell_arg}
use obnc.Text.Modules.{
  some_or, prefix_loop, module_prefix, search_dir, search_path, search_paths, directory,
}
use obnc.Driver.Compile.{
  unquoted_string, setting, env_line, read_env_file, compiler_and_flags, compile_c,
}
use obnc.Driver.System.{System, timestamp, older}
use obnc.Driver.Update.{
  compile_oberon, compile, oberon_compilation_needed, c_compilation_needed, update_object_file,
  sym_file_is_subset,
}
use obnc.Driver.Traverse.{
  imported_modules_of_source, files_loop, is_current, imported_modules, get_imported_files, update,
}

pub data Finishes {ℓ κ} {A : Type ℓ} (P : A → Type κ) : Result A → Type (ℓ ⊔ κ) where
  returns : {a : A} → P a → Finishes P (ok a)
  ends : Finishes P halts

abbrev pub Anything {ℓ} : {A : Type ℓ} → A → Type 0
Anything a = Unit

module _ {ℓ κ} {A : Type ℓ} {P : A → Type κ} where
  pub bind {ι μ} :
      {B : Type ι} {Q : B → Type μ} {m : Result B} {f : B → Result A}
      → Finishes Q m
      → ((b : B) → m ≡ ok b → Q b → Finishes P (f b))
      → Finishes P (m >>= f)
  bind (returns {a} q) h = h a refl q
  bind ends h = ends

  pub branch :
      (b : Bool) {x y : Result A} → Finishes P x → Finishes P y → Finishes P (if b then x else y)
  branch true p q = p
  branch false p q = q

  pub option {ι} :
      {B : Type ι} (o : Option B) {x : Result A} {f : B → Result A}
      → Finishes P x
      → ((b : B) → o ≡ some b → Finishes P (f b))
      → Finishes P (elim o [ none ↦ x | some b ↦ f b ])
  option none p q = p
  option (some b) p q = q b refl

  pub mono {ι} :
      {Q : A → Type ι} {r : Result A}
      → Finishes P r
      → ((a : A) → P a → Finishes Q (ok a))
      → Finishes Q r
  mono (returns {a} p) f = f a p
  mono ends f = ends

abbrev Fin : {A : Type 0} → Result A → Type 0
Fin r = Finishes Anything r

done : {A : Type 0} {a : A} → Fin (ok a)
done = returns tt

or_Fin : {x y : Result Bool} → Fin x → Fin y → Fin (x or_else y)
or_Fin (returns {a = true} p) q = returns tt
or_Fin (returns {a = false} p) q = q
or_Fin ends q = ends

and_Fin : {x y : Result Bool} → Fin x → Fin y → Fin (x and_also y)
and_Fin (returns {a = true} p) q = q
and_Fin (returns {a = false} p) q = returns tt
and_Fin ends q = ends

option_or : {A : Type 0} (o : Option A) {k : Result (Option A)} → Fin k → Fin (some_or o k)
option_or none h = h
option_or (some a) h = done

-- The value of a setting is not a single quote.
abbrev IsValue : Option (Bytes × Bytes) → Type 0
IsValue none = Unit
IsValue (some (key, raw)) = (raw ≢ 34 ∷ []) × (raw ≢ 39 ∷ [])

abbrev pub HasValue : Bytes → Type 0
HasValue line = IsValue (setting line)

unquoted_string-Fin : (s : Bytes) → s ≢ 34 ∷ [] → s ≢ 39 ∷ [] → Fin (unquoted_string s)
unfolding unquoted_string
unquoted_string-Fin [] nd ns = done
unquoted_string-Fin (c ∷ []) nd ns = elim (Bool-cases (c == 34)) [
  | inl e ↦ absurd (nd (ap (λ x. x ∷ []) (ground (arith, e))))
  | inr d ↦ elim (Bool-cases (c == 39)) [
    | inl e ↦ absurd (ns (ap (λ x. x ∷ []) (ground (arith, e))))
    | inr s ↦ rw (d, s) done
  ]
]
unquoted_string-Fin (c ∷ d ∷ r) nd ns = branch _ done done

env_line-Fin : (line : Bytes) → HasValue line → Fin (env_line line)
unfolding env_line
env_line-Fin line h = of_setting (setting line) h
  where
    of_setting :
        (o : Option (Bytes × Bytes))
        → IsValue o
        → Fin {A = Bytes × Bytes} (elim o [
          | none ↦ ok ([], [])
          | some (key, raw) ↦ (do value ← unquoted_string raw; ok (key, value))
        ])
    of_setting none h = done
    of_setting (some (key, raw)) (nd, ns) = bind (unquoted_string-Fin raw nd ns) λ v _ _. returns tt

read_env_file-Fin : (lines : List Bytes) → All HasValue lines → Fin (read_env_file lines)
unfolding read_env_file
read_env_file-Fin [] h = done
read_env_file-Fin (line ∷ lines) (h, hs) =
    bind (env_line-Fin line h) λ e _ _. bind (read_env_file-Fin lines hs) λ es _ _. returns tt

module _ {F : Type 0} (sys : System F) where
  -- No line of a file sets a single quote.
  abbrev pub NoLoneQuotes : Type 0
  NoLoneQuotes = (file : Bytes) (fs : F) → All HasValue (sys.lines file fs)

  timestamp-Fin : (f : Bytes) (fs : F) → Fin (timestamp sys f fs)
  unfolding timestamp
  timestamp-Fin f fs = branch (sys.exists f fs) (returns tt) ends

  older-Fin : (a b : Bytes) (fs : F) → Fin (older sys a b fs)
  unfolding older
  older-Fin a b fs =
      bind (timestamp-Fin a fs) λ x _ _. bind (timestamp-Fin b fs) λ y _ _. returns tt

  -- The C library defines `isspace` and `isupper` for every value of a char, as the GNU library does,
  -- and as C does where char is unsigned.
  pub record DefinedOnChars : Type 0 where
    pub space : (c : ℕ) → (b : Bool) × (sys.is_space c ≡ ok b)
    pub upper : (c : ℕ) → (b : Bool) × (sys.is_upper c ≡ ok b)

  module _ (chars : DefinedOnChars) where
    has_space-Fin : (s : Bytes) → Fin (has_space sys.is_space s)
    unfolding has_space
    has_space-Fin [] = done
    has_space-Fin (c ∷ s) =
        let (b, e) = chars.space c in rw e (or_Fin (done {a = b}) (has_space-Fin s))

    shell_arg-Fin : (s : Bytes) → Fin (shell_arg sys.is_space s)
    unfolding shell_arg
    shell_arg-Fin s = bind (has_space-Fin s) λ b _ _. returns tt

    prefix_loop-Fin : (m passed : Bytes) → Fin (prefix_loop sys.is_upper m passed)
    unfolding prefix_loop
    prefix_loop-Fin [] passed = done
    prefix_loop-Fin (c ∷ m) passed =
        let (b, e) = chars.upper c in rw e (branch b done (prefix_loop-Fin m (passed ++ c ∷ [])))

    search_path-Fin : (ex : Bytes → Bool) (d m : Bytes) → Fin (search_path sys.is_upper ex d m)
    unfolding search_path module_prefix
    search_path-Fin ex d m =
        option_or (search_dir ex d m) (bind (prefix_loop-Fin m []) λ o _ _. returns tt)

    search_paths-Fin :
        (ex : Bytes → Bool) (ps : List Bytes) (m : Bytes) → Fin (search_paths sys.is_upper ex ps m)
    unfolding search_paths
    search_paths-Fin ex [] m = done
    search_paths-Fin ex (p ∷ ps) m =
        bind (branch (bytes_eq p []) done (search_path-Fin ex p m))
          λ o _ _. option_or o (search_paths-Fin ex ps m)

    directory-Fin :
        (ex : Bytes → Bool) (d : Bytes) (ps : List Bytes) (l m : Bytes)
        → Fin (directory sys.is_upper ex d ps l m)
    unfolding directory
    directory-Fin ex d ps l m = bind (search_path-Fin ex d m) λ o _ _.
        option_or o (bind (search_paths-Fin ex ps m) λ q _ _. option_or q (search_path-Fin ex l m))

    compile_oberon-Fin : (m dir : Bytes) (e : Bool) (fs : F) → Fin (compile_oberon sys m dir e fs)
    unfolding compile_oberon
    compile_oberon-Fin m dir e fs = bind (shell_arg-Fin _) λ c _ _. bind (shell_arg-Fin _) λ i _ _.
        bind (branch (bytes_eq dir (codes ".")) done (bind (shell_arg-Fin dir) λ d _ _. returns tt))
          λ command _ _. branch _ ends (returns tt)

    compiler_and_flags-Fin :
        (m dir : Bytes) (fs : F) → NoLoneQuotes → Fin (compiler_and_flags sys m dir fs)
    unfolding compiler_and_flags
    compiler_and_flags-Fin m dir fs quotes = bind (shell_arg-Fin _) λ i _ _.
        bind
          (branch (sys.exists (dir ++ codes "/" ++ m ++ codes ".env") fs)
            (read_env_file-Fin (sys.lines (dir ++ codes "/" ++ m ++ codes ".env") fs)
              (quotes (dir ++ codes "/" ++ m ++ codes ".env") fs))
            (done {a = []}))
          λ settings _ _. returns tt

    compile_c-Fin : (m dir : Bytes) (fs : F) → NoLoneQuotes → Fin (compile_c sys m dir fs)
    unfolding compile_c
    compile_c-Fin m dir fs quotes = bind (compiler_and_flags-Fin m dir fs quotes) λ (cc, flags) _ _.
        bind (shell_arg-Fin _) λ o _ _. bind (shell_arg-Fin _) λ i _ _. branch _ ends (returns tt)

    compile-Fin :
        (m dir : Bytes) (o e : Bool) (fs : F) → NoLoneQuotes → Fin (compile sys m dir o e fs)
    unfolding compile
    compile-Fin m dir o e fs quotes =
        bind (branch o (compile_oberon-Fin m dir e fs) done)
          λ fs₁ _ _. branch sys.build_unified (returns tt) (compile_c-Fin m dir fs₁ quotes)

    oberon-Fin :
        (m dir : Bytes) (stale e : Bool) (fs : F)
        → Fin (oberon_compilation_needed sys m dir stale e fs)
    unfolding oberon_compilation_needed
    oberon-Fin m dir stale e fs =
        or_Fin
          (or_Fin (or_Fin (or_Fin (returns tt) (returns tt)) (older-Fin _ _ fs))
            (and_Fin (returns tt) (returns tt)))
          (and_Fin (returns tt) (
            or_Fin
              (or_Fin (or_Fin (or_Fin (returns tt) (older-Fin _ _ fs)) (returns tt))
                (older-Fin _ _ fs))
              (returns tt)))

    c-Fin : (m dir : Bytes) (o : Bool) (fs : F) → Fin (c_compilation_needed sys m dir o fs)
    unfolding c_compilation_needed
    c-Fin m dir o fs = branch sys.build_unified (returns tt) (
        or_Fin
          (or_Fin
            (or_Fin (or_Fin (returns tt) (returns tt)) (and_Fin (returns tt) (older-Fin _ _ fs)))
            (and_Fin (returns tt) (older-Fin _ _ fs)))
          (and_Fin (returns tt) (older-Fin _ _ fs)))

    update_object_file-Fin :
        (m dir : Bytes) (stale e : Bool) (fs : F)
        → NoLoneQuotes
        → Fin (update_object_file sys m dir stale e fs)
    unfolding update_object_file
    update_object_file-Fin m dir stale e fs quotes = bind (oberon-Fin m dir stale e fs) λ o _ _.
        bind (c-Fin m dir o fs) λ c _ _. bind (or_Fin (done {a = o}) (done {a = c})) λ needed _ _.
          bind (branch needed (compile-Fin m dir o e fs quotes) done) λ fs₁ _ _. returns tt

    subset-Fin : (file1 file2 : Bytes) (fs : F) → Fin (sym_file_is_subset sys file1 file2 fs)
    unfolding sym_file_is_subset
    subset-Fin file1 file2 fs =
        bind (shell_arg-Fin _) λ p _ _.
          bind (shell_arg-Fin file2) λ b _ _. bind (shell_arg-Fin file1) λ a _ _. returns tt

    pub update-Fin :
        (m dir : Bytes) (stale root : Bool) (fs : F)
        → NoLoneQuotes
        → Fin (update sys m dir stale root fs)
    unfolding update
    update-Fin m dir stale root fs quotes =
        branch _
          (bind (update_object_file-Fin m dir stale root fs quotes) λ fs₁ _ _.
            branch _ (bind (subset-Fin _ _ fs₁) λ (compatible, fs₂) _ _. returns tt) (returns tt))
          (returns tt)

    files_loop-Fin : (dir : Bytes) (ms : List Bytes) (fs : F) → Fin (files_loop sys dir ms fs)
    unfolding files_loop
    files_loop-Fin dir [] fs = returns tt
    files_loop-Fin dir (m ∷ ms) fs =
        bind (directory-Fin (λ f. sys.exists f fs) dir sys.import_paths sys.lib_path m)
          λ o _ _. option o ends (λ d _. bind (files_loop-Fin dir ms fs) λ files _ _. returns tt)

    source-Fin : (file : Bytes) (fs : F) → Fin (imported_modules_of_source sys file fs)
    unfolding imported_modules_of_source
    source-Fin file fs = bind (shell_arg-Fin _) λ d _ _. bind (shell_arg-Fin _) λ c _ _.
        bind (shell_arg-Fin _) λ f _ _.
          option (sys.output (codes "cd " ++ d ++ codes " && " ++ c ++ codes " -l " ++ f) fs) ends
            (λ ms _. returns tt)

    is_current-Fin : (imp file : Bytes) (fs : F) → Fin (is_current sys imp file fs)
    unfolding is_current
    is_current-Fin imp file fs = and_Fin (done {a = sys.exists imp fs}) (
        or_Fin (done {a = not (sys.exists file fs)})
          (bind {f = λ b. ok (not b)} (older-Fin imp file fs) λ b _ _. done))

    imported_modules-Fin : (imp file : Bytes) (fs : F) → Fin (imported_modules sys imp file fs)
    unfolding imported_modules
    imported_modules-Fin imp file fs =
        bind (is_current-Fin imp file fs)
          λ current _ _. branch current done (branch (sys.exists file fs) (source-Fin file fs) done)

    pub get_imported_files-Fin : (m dir : Bytes) (fs : F) → Fin (get_imported_files sys m dir fs)
    unfolding get_imported_files
    get_imported_files-Fin m dir fs =
        bind (imported_modules-Fin _ _ fs) λ ms _ _. files_loop-Fin dir ms fs
