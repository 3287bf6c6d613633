-- ===== src/Examples/Builds.antt =====
-- The build of a module A that imports a module B.
use obnc.Prelude.{
  ok, ◌↔◌, Bool, ◌==◌, leb, ◌&&◌, ◌≡◌, refl, true, false, ◌||◌, none, List, [], ◌∷◌, Bytes, codes,
  bytes_eq, All, arith, if◌then◌else◌, Bool-cases, inl, inr,
}
use obnc.Text.{sans_suffix, before_dot}
use obnc.Driver.Compile.{setting}
use obnc.Driver.System.{System}
use obnc.Driver.Update.{oberon_compilation_needed, update_object_file}
use obnc.Driver.Current.{IsCurrent, needed_iff, update-current}
use obnc.Text.Modules.{source_file, source_file_loop, as_prefix}
use obnc.Driver.Traverse.{traverse}
use obnc.Driver.Finishes.{Finishes}
use obnc.Driver.Discovered.{Found, Listed, traverse-Finishes}

abbrev two_modules : System (Unit {0})
two_modules = record {
  exists = λ f fs.
      bytes_eq f (codes "A.obn")
      || (bytes_eq f (codes "B.obn") || bytes_eq f (codes "./.obnc/A.imp"));
  modified = λ f fs. 0;
  lines = λ f fs. codes "B" ∷ [];
  write_file = λ f text fs. fs;
  remove = λ f fs. fs;
  move = λ f g fs. fs;
  create_dir = λ f fs. fs;
  run = λ command fs. (false, fs);
  output = λ command fs. none;
  dirname = λ f. codes ".";
  basename = λ f. if bytes_eq f (codes "A.obn") then codes "A.obn" else codes "B.obn";
  getenv = λ n. none;
  is_space = λ c. ok ((c == 32) || (leb 9 c && leb c 13));
  is_upper = λ c. ok (leb b'A' c && leb c b'Z');
  prefix = codes "/usr";
  import_paths = [];
  lib_path = codes "/usr/lib/obnc";
  build_unified = true;
}

abbrev program_modules : List (Bytes × Bytes)
program_modules = (codes "A", codes ".") ∷ (codes "B", codes ".") ∷ []

file-Listed : (file : Bytes) → Listed two_modules program_modules file
unfolding sans_suffix before_dot bytes_eq
file-Listed file = elim (Bool-cases (bytes_eq file (codes "A.obn"))) [
  | inl e ↦ rw e refl
  | inr e ↦ rw e refl
]

files-Listed : (files : List Bytes) → All (Listed two_modules program_modules) files
files-Listed [] = tt
files-Listed (file ∷ files) = (file-Listed file, files-Listed files)

traverse-Finishes_example :
    Finishes
      (Found
        (sans_suffix two_modules.basename (two_modules.basename (codes "A.obn")))
        (codes ".")
        [])
      (traverse two_modules 3 (codes "A.obn") [] tt)
unfolding bytes_eq setting
traverse-Finishes_example =
    traverse-Finishes two_modules program_modules 3 (codes "A.obn") tt
      (λ m dir fs files e. files-Listed files)
      (record { space = λ c. (_, refl); upper = λ c. (_, refl) }) (λ file fs. (tt, tt))
      (file-Listed (codes "A.obn")) (omega arith)

-- All files exist, and were written behind the source.
abbrev built : System (Unit {0})
built = record two_modules {
  exists = λ f fs. true;
  modified = λ f fs. if bytes_eq f (codes "A.obn") then 1 else 2;
  lines = λ f fs. codes "." ∷ [];
  basename = λ f. f;
  build_unified = false;
}

needed_iff_example :
    (needed : Bool) × (oberon_compilation_needed built (codes "A") (codes ".") false true tt
      ≡ ok needed)
    × ((needed ≡ false) ↔ ((false ≡ false) × IsCurrent built (codes "A") (codes ".") tt true))
needed_iff_example = needed_iff built (codes "A") (codes ".") tt false true refl

update-current_example : update_object_file built (codes "A") (codes ".") false false tt ≡ ok tt
unfolding source_file source_file_loop as_prefix bytes_eq
update-current_example =
    update-current built (codes "A") (codes ".") tt
      (
        (refl, refl, omega arith),
        (refl, refl, omega arith),
        (refl, refl, omega arith),
        (refl, [], refl),
      )
      (inr ((refl, refl, omega arith), inr (refl, refl, omega arith)))
