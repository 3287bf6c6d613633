-- ===== src/Driver/Discovered.antt =====
-- `Traverse1` finds each module of a program once, and ends.
use obnc.Prelude.{
  ℕ, zero, suc, ◌+◌, ◌≤◌, ◌<◌, ◌≡◌, refl, Bool, true, false, not, ◌&&◌, ◌||◌, none, some, List, [],
  ◌∷◌, arith, Bytes, bytes_eq, bytes_eq_iff, bytes_eq_refl, All, length, if◌then◌else◌, Result, ok,
  ◌>>=◌, Bool-cases, Option-cases, inl, inr,
}
use obnc.Text.{sans_suffix}
use obnc.Driver.System.{System}
use obnc.Driver.Traverse.{
  ModuleNode, new_module_node, is_node, matching_module_node, set_stale, detect_import_cycle,
  get_imported_files, Traversal, imports_loop, traverse1, traverse,
}
use obnc.Driver.Finishes.{
  DefinedOnChars, NoLoneQuotes, Finishes, returns, ends, Anything, bind, mono, option, update-Fin,
  get_imported_files-Fin,
}

abbrev pub has : Bytes → Bytes → List ModuleNode → Bool
has m dir [] = false
has m dir (node ∷ nodes) = is_node m dir node || has m dir nodes

-- Each module stands in the list once.
abbrev pub IsOnce : List ModuleNode → Type 0
IsOnce [] = Unit
IsOnce (node ∷ nodes) = (has node.name node.dir nodes ≡ false) × IsOnce nodes

-- What is known stays known.
abbrev pub Keeps : List ModuleNode → List ModuleNode → Type 0
Keeps xs ys = (m dir : Bytes) → has m dir xs ≡ true → has m dir ys ≡ true

matching-has :
    (m dir : Bytes) (xs : List ModuleNode)
    → (matching_module_node m dir xs ≡ none)
    → has m dir xs ≡ false
unfolding matching_module_node
matching-has m dir [] h = refl
matching-has m dir (x ∷ xs) h = ground (arith, matching-has m dir xs)

matching-found :
    (m dir : Bytes) (xs : List ModuleNode) (p : ModuleNode)
    → (matching_module_node m dir xs ≡ some p)
    → has m dir xs ≡ true
unfolding matching_module_node
matching-found m dir [] p h = absurd (cc)
matching-found m dir (x ∷ xs) p h = ground (arith, matching-found m dir xs p)

-- The mark of a known module is set, and the names stay as they are.
pub data Marked (xs : List ModuleNode) : Result (List ModuleNode) → Type 0 where
  marked :
      {ys : List ModuleNode}
      → ((m dir : Bytes) → has m dir ys ≡ has m dir xs)
      → (IsOnce xs → IsOnce ys)
      → Marked xs (ok ys)

set_stale-Marked :
    (m dir : Bytes) (b : Bool) (xs : List ModuleNode)
    → has m dir xs ≡ true
    → Marked xs (set_stale m dir b xs)
unfolding set_stale
set_stale-Marked m dir b [] h = absurd (cc)
set_stale-Marked m dir b (x ∷ xs) h = elim (Bool-cases (is_node m dir x)) [
  | inl e ↦ rw e (marked (λ k d. refl) (λ o. o))
  | inr e ↦ rw e (step (set_stale m dir b xs) (set_stale-Marked m dir b xs (rw e at h)))
]
  where
    step : (r : Result (List ModuleNode)) → Marked xs r → Marked (x ∷ xs) (r >>= λ ys. ok (x ∷ ys))
    step r (marked {ys} same once) =
        marked (λ k d. rw (same k d)) (λ o. (rw (same x.name x.dir) o.0, once o.1))

abbrev pub listed : Bytes → Bytes → List (Bytes × Bytes) → Bool
listed m dir [] = false
listed m dir ((n, d) ∷ us) = (bytes_eq n m && bytes_eq d dir) || listed m dir us

-- How many of the modules of a program are not yet discovered.
abbrev missing : List (Bytes × Bytes) → List ModuleNode → ℕ
missing [] found = 0
missing ((n, d) ∷ us) found = (if has n d found then 0 else 1) + missing us found

missing-Keeps :
    (us : List (Bytes × Bytes)) (xs ys : List ModuleNode)
    → Keeps xs ys
    → missing us ys ≤ missing us xs
missing-Keeps [] xs ys k = omega arith
missing-Keeps ((n, d) ∷ us) xs ys k = ground (arith, k n d, missing-Keeps us xs ys k)

Keeps-new : (m dir : Bytes) (xs : List ModuleNode) → Keeps xs (new_module_node m dir ∷ xs)
Keeps-new m dir xs k d h = ground arith

has-itself : (m dir : Bytes) (xs : List ModuleNode) → has m dir (new_module_node m dir ∷ xs) ≡ true
has-itself m dir xs = rw (bytes_eq_refl m, bytes_eq_refl dir)

missing-new :
    (us : List (Bytes × Bytes)) (m dir : Bytes) (xs : List ModuleNode)
    → listed m dir us ≡ true
    → has m dir xs ≡ false
    → missing us (new_module_node m dir ∷ xs) < missing us xs
missing-new [] m dir xs l h = absurd (cc)
missing-new ((n, d) ∷ us) m dir xs l h = elim (Bool-cases (bytes_eq n m && bytes_eq d dir)) [
  | inl e ↦
      let n_is : m ≡ n = ground (arith, (bytes_eq_iff n m).0) in
      let d_is : dir ≡ d = ground (arith, (bytes_eq_iff d dir).0) in
      let unknown : has n d xs ≡ false = rw (n_is, d_is) at h in
      let known : has n d (new_module_node m dir ∷ xs) ≡ true =
        rw (n_is, d_is, bytes_eq_refl n, bytes_eq_refl d) in
      ground (
        arith,
        unknown,
        known,
        missing-Keeps us xs (new_module_node m dir ∷ xs) (Keeps-new m dir xs),
      )
  | inr e ↦ ground (arith, missing-new us m dir xs (rw e at l) h, Keeps-new m dir xs n d)
]

-- What a traversal of a module returns: the modules that were known, and that one, each once.
pub record Found {F : Type 0} (m dir : Bytes) (found : List ModuleNode) (r : List ModuleNode × F)
    : Type 0 where
  pub once : IsOnce r.0
  pub known : has m dir r.0 ≡ true
  pub keeps : Keeps found r.0

module _ {F : Type 0} (sys : System F) (us : List (Bytes × Bytes)) where
  -- The module of a file is one of the program.
  abbrev pub Listed : Bytes → Type 0
  Listed file = listed (sans_suffix sys.basename (sys.basename file)) (sys.dirname file) us ≡ true

  abbrev Traverses : ℕ → Traversal sys → Type 0
  Traverses fuel go =
      (m dir : Bytes) (path : List ModuleNode) (is_root : Bool) (found : List ModuleNode) (fs : F)
      → listed m dir us ≡ true
      → IsOnce found
      → has m dir found ≡ false
      → missing us found < fuel
      → Finishes (Found m dir found) (go m dir path is_root found fs)

  abbrev Looped : List ModuleNode → Bool × List ModuleNode × F → Type 0
  Looped found (stale, found', fs) = IsOnce found' × Keeps found found'

  module _ (fuel : ℕ) (go : Traversal sys) (goes : Traverses fuel go) where
    cycle-Finishes :
        (m dir : Bytes) (path : List ModuleNode)
        → Finishes Anything (detect_import_cycle m dir path)
    unfolding detect_import_cycle
    cycle-Finishes m dir path = option (matching_module_node m dir path) (returns tt) (λ p _. ends)

    visit :
        (m dir : Bytes) (path found : List ModuleNode) (fs : F)
        → listed m dir us ≡ true
        → IsOnce found
        → missing us found < fuel
        → Finishes (Found m dir found) (elim (matching_module_node m dir found) [
          | none ↦ go m dir path false found fs
          | some node ↦ ok (found, fs)
        ])
    visit m dir path found fs l once lt = elim (Option-cases (matching_module_node m dir found)) [
      | inl e ↦ rw e (goes m dir path false found fs l once (matching-has m dir found e) lt)
      | inr (p, e) ↦ rw e (
          returns
            (record { once = once; known = matching-found m dir found p e; keeps = λ k d h. h }))
    ]

    loop-Finishes :
        (files : List Bytes) (path : List ModuleNode) (stale : Bool) (found : List ModuleNode)
        (fs : F)
        → All Listed files
        → IsOnce found
        → missing us found < fuel
        → Finishes (Looped found) (imports_loop sys go files path stale found fs)
    unfolding imports_loop
    loop-Finishes [] path stale found fs ls once lt = returns (once, λ k d h. h)
    loop-Finishes (file ∷ files) path stale found fs (l, ls) once lt =
        let m = sans_suffix sys.basename (sys.basename file) in
        let dir = sys.dirname file in
        bind (cycle-Finishes m dir path) λ u _ _.
          bind (visit m dir (new_module_node m dir ∷ path) found fs l once lt) λ (found₁, fs₁) _ q.
            elim (Option-cases (matching_module_node m dir found₁)) [
              | inl e ↦ absurd (ground (arith, q.known, matching-has m dir found₁ e))
              | inr (p, e) ↦ rw e (
                  mono
                    (loop-Finishes files path (stale || p.stale) found₁ fs₁ ls q.once
                      (omega (arith, missing-Keeps us found found₁ q.keeps)))
                    λ r (o, k). returns {a = r} (o, λ j d h. k j d (q.keeps j d h)))
            ]

  set_stale-Finishes :
      (m dir : Bytes) (found found₁ : List ModuleNode) (fs : F)
      → IsOnce found₁
      → Keeps (new_module_node m dir ∷ found) found₁
      → {r : Result (List ModuleNode)} → Marked found₁ r
      → Finishes (Found m dir found) (r >>= λ found₂. ok (found₂, fs))
  set_stale-Finishes m dir found found₁ fs once keeps (marked {ys} same still) = returns (record {
    once = still once;
    known = rw (same m dir) (keeps m dir (has-itself m dir found));
    keeps = λ k d h. rw (same k d) (keeps k d (Keeps-new m dir found k d h));
  })

  module _
      (closed : (m dir : Bytes) (fs : F) (files : List Bytes)
        → get_imported_files sys m dir fs ≡ ok files
        → All Listed files)
      (chars : DefinedOnChars sys) (quotes : NoLoneQuotes sys) where
    traverse1-Traverses : (fuel : ℕ) → Traverses fuel (traverse1 sys fuel)
    unfolding traverse1
    traverse1-Traverses zero m dir path is_root found fs l once new lt = absurd (omega arith)
    traverse1-Traverses (suc fuel) m dir path is_root found fs l once new lt =
        let start = new_module_node m dir ∷ found in
        bind (get_imported_files-Fin sys chars m dir fs) λ files e _.
          bind
            (loop-Finishes fuel (traverse1 sys fuel) (traverse1-Traverses fuel) files path false
              start fs (closed m dir fs files e) (new, once)
              (omega (arith, missing-new us m dir found l new)))
            λ (stale, found₁, fs₁) _ (o, k).
              bind (update-Fin sys chars m dir stale is_root fs₁ quotes) λ (compatible, fs₂) _ _.
                set_stale-Finishes m dir found found₁ fs₂ o k (
                  set_stale-Marked m dir (not compatible) found₁ (k m dir (has-itself m dir found)))

missing-length : (us : List (Bytes × Bytes)) → missing us [] ≤ length us
missing-length [] = omega arith
missing-length ((n, d) ∷ us) = omega (arith, missing-length us)

-- For a program whose modules are all among `us`, in whatever state the files are, where no line of a
-- file sets a value that is a single quote and the C library defines `isspace` and `isupper` for every
-- char, and with more fuel than there are modules: the traversal
-- from the file of a module fails no assertion and ends, with an error message or with a list of
-- modules in which each stands once, that of the file among them.
pub traverse-Finishes :
    {F : Type 0} (sys : System F) (us : List (Bytes × Bytes)) (fuel : ℕ) (file : Bytes) (fs : F)
    → ((m dir : Bytes) (fs' : F) (files : List Bytes)
        → get_imported_files sys m dir fs' ≡ ok files
        → All (Listed sys us) files)
    → DefinedOnChars sys
    → NoLoneQuotes sys
    → Listed sys us file
    → length us < fuel
    → Finishes
        (Found (sans_suffix sys.basename (sys.basename file)) (sys.dirname file) [])
        (traverse sys fuel file [] fs)
unfolding traverse
traverse-Finishes sys us fuel file fs closed chars quotes l lt =
    traverse1-Traverses sys us closed chars quotes fuel _ _ _ true [] fs l tt refl
      (omega (arith, missing-length us))
