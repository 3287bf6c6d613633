-- ===== src/Driver/Current.antt =====
-- When the driver does not translate a module again.
use obnc.Prelude.{
  ◌≤◌, ◌≡◌, refl, ◌↔◌, ◌⊎◌, Bool, true, false, Bytes, codes, ◌++◌, arith, if◌then◌else◌, ok, ltb,
  not, ◌||◌, ◌∷◌, [], List, bytes_eq_iff, bytes_eq_refl, Bool-cases, inl, inr,
}
use obnc.Text.Modules.{source_file}
use obnc.Driver.System.{System, timestamp, older}
use obnc.Driver.Update.{
  first_line_is, dir_file_up_to_date, oberon_compilation_needed, c_compilation_needed,
  update_object_file,
}

module _ {F : Type 0} (sys : System F) (m dir : Bytes) (fs : F) where
  abbrev source : Bytes
  source = source_file (λ f. sys.exists f fs) m dir

  -- Both files exist, and the first was not modified before the second.
  abbrev pub NotOlder : Bytes → Bytes → Type 0
  NotOlder a b =
      (sys.exists a fs ≡ true) × (sys.exists b fs ≡ true) × (sys.modified b fs ≤ sys.modified a fs)

  -- The file with a suffix that an earlier translation has left.
  abbrev left_file : Bytes → Bytes
  left_file suffix = dir ++ codes "/.obnc/" ++ m ++ suffix

  -- The first line of the file that notes the directory is the directory's name.
  abbrev HasDirFile : Type 0
  HasDirFile =
      (sys.exists (left_file (codes ".dir")) fs ≡ true)
      × (rest : List Bytes) × (sys.lines (left_file (codes ".dir")) fs ≡ sys.basename dir ∷ rest)

  -- What an earlier translation has left is that of the source.
  abbrev pub IsCurrent : Bool → Type 0
  IsCurrent true =
      NotOlder (left_file (codes ".c")) source × (sys.exists (left_file (codes ".sym")) fs ≡ false)
  IsCurrent false =
      NotOlder (left_file (codes ".c")) source
      × NotOlder (left_file (codes ".sym")) source
      × NotOlder (left_file (codes ".h")) source
      × HasDirFile

  to_first_line :
      (ls : List Bytes) (t : Bytes)
      → first_line_is ls t ≡ true
      → (rest : List Bytes) × (ls ≡ t ∷ rest)
  unfolding first_line_is
  to_first_line [] t h = absurd (cc)
  to_first_line (l ∷ ls) t h = let e = bytes_eq_iff l t in (ls, cc (e.0 h))

  to_dir_file : dir_file_up_to_date sys m dir fs ≡ true → HasDirFile
  unfolding dir_file_up_to_date
  to_dir_file h = elim (Bool-cases (sys.exists (left_file (codes ".dir")) fs)) [
    | inl e ↦
        let (rest, is) =
          to_first_line (sys.lines (left_file (codes ".dir")) fs) (sys.basename dir) (rw e at h) in
        (e, rest, is)
    | inr e ↦ absurd (cc (rw e at h))
  ]

  of_dir_file : HasDirFile → dir_file_up_to_date sys m dir fs ≡ true
  unfolding dir_file_up_to_date first_line_is
  of_dir_file (there, rest, is) = rw (there, is) (bytes_eq_refl (sys.basename dir))

  to_current :
      (stale is_entry : Bool)
      → oberon_compilation_needed sys m dir stale is_entry fs ≡ ok false
      → (stale ≡ false) × IsCurrent is_entry
  unfolding oberon_compilation_needed older timestamp
  to_current stale true h = ground arith
  to_current stale false h =
      let up_to_date : dir_file_up_to_date sys m dir fs ≡ true = ground arith in
      let (fresh, c, symbols, header) : (stale ≡ false)
          × NotOlder (left_file (codes ".c")) source
          × NotOlder (left_file (codes ".sym")) source
          × NotOlder (left_file (codes ".h")) source =
        ground arith in
      (fresh, (c, symbols, header, to_dir_file up_to_date))

  of_current :
      (stale is_entry : Bool)
      → (stale ≡ false) × IsCurrent is_entry
      → oberon_compilation_needed sys m dir stale is_entry fs ≡ ok false
  unfolding oberon_compilation_needed older timestamp
  of_current stale true h = ground arith
  of_current stale false (fresh, (c, symbols, header, noted)) =
      let up_to_date = of_dir_file noted in ground arith

  -- The answer, where no modification time is asked of a file that is missing.
  abbrev answer : Bool → Bool → Bool
  answer stale is_entry =
      let missing = λ (suffix : Bytes). not (sys.exists (left_file suffix) fs) in
      let old =
        λ (suffix : Bytes). ltb (sys.modified (left_file suffix) fs) (sys.modified source fs) in
      let lacks = λ (suffix : Bytes). missing suffix || old suffix in
      stale
      || lacks (codes ".c")
      || (if is_entry
          then not (missing (codes ".sym"))
          else lacks (codes ".sym") || lacks (codes ".h") || not (dir_file_up_to_date sys m dir fs))

  answered :
      (stale is_entry : Bool)
      → sys.exists source fs ≡ true
      → oberon_compilation_needed sys m dir stale is_entry fs ≡ ok (answer stale is_entry)
  unfolding oberon_compilation_needed older timestamp
  answered stale true there = ground arith
  answered stale false there = ground arith

  -- For every state of the files in which the module's source exists: the driver finds whether the
  -- module is to be translated, and asks for the time of no file that is missing. It need not be exactly
  -- if it is not stale and what an earlier translation has left in .obnc is not older than the source:
  -- of a program's entry point, the C file, with no symbol file; of another module, the C file, the
  -- symbol file and the header, with a file that has the directory's name in its first line.
  pub needed_iff :
      (stale is_entry : Bool)
      → sys.exists source fs ≡ true
      → (needed : Bool) × (oberon_compilation_needed sys m dir stale is_entry fs ≡ ok needed)
        × ((needed ≡ false) ↔ ((stale ≡ false) × IsCurrent is_entry))
  needed_iff stale is_entry there =
      let run = answered stale is_entry there in
      (
        answer stale is_entry,
        run,
        (
          λ no. to_current stale is_entry (rw no at run),
          λ h. cc (run, of_current stale is_entry h),
        ),
      )

  -- The object file is not older than the C file, which is the module's own or else the generated one,
  -- nor than the file of settings, if there is one.
  abbrev pub IsObjectCurrent : Type 0
  IsObjectCurrent =
      let object = left_file (codes ".o") in
      let own = dir ++ codes "/" ++ m ++ codes ".c" in
      let env = dir ++ codes "/" ++ m ++ codes ".env" in
      NotOlder object (if sys.exists own fs then own else left_file (codes ".c"))
      × ((sys.exists env fs ≡ false) ⊎ NotOlder object env)

  c_not_needed :
      (sys.build_unified ≡ true) ⊎ IsObjectCurrent
      → c_compilation_needed sys m dir false fs ≡ ok false
  unfolding c_compilation_needed older timestamp
  c_not_needed h = ground arith

  -- If a module that is not the entry point is not stale and current, and its object file is current or
  -- all C files are compiled at once: the update of the module runs no command and changes no file.
  pub update-current :
      IsCurrent false
      → (sys.build_unified ≡ true) ⊎ IsObjectCurrent
      → update_object_file sys m dir false false fs ≡ ok fs
  unfolding update_object_file
  update-current h o = rw (of_current false false (refl, h), c_not_needed o, of_dir_file h.3)
