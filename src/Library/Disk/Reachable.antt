-- ===== src/Library/Disk/Reachable.antt =====
-- What the procedures of Files make of a disk, one call after another.
use obnc.Prelude.{
  ℕ, ◌≤◌, ◌≡◌, inl, inr, refl, Bool, true, false, not, ◌&&◌, none, some, ◌++◌, Bytes, length,
  bytes_eq, if◌then◌else◌, ok, assert, arith, Option-cases,
}
use obnc.Prelude.Ensures.{Ensures, holds, bind, branch, returned}
use obnc.Library.Disk.{
  Mode, read_write, read_only, append, Disk, set_contents, set_directory, handle_of, stream_of,
  temporary_file, open_empty, old_file, old, new_unnamed, new, register, purge, unlink, delete,
  renamed, rename, text_of,
}
use obnc.Runtime.{terminated}
use obnc.Prelude.Int.{ℤ}
use obnc.Library.Disk.Sound.{
  IsSound, Suits, inode_of-some, set_handle-IsSound, temporary_file-IsSound, fresh-Suits,
  set_directory-IsSound, unset-IsSound, new_file-IsSound, open_empty-IsSound, open_empty-named,
}
use obnc.Library.Riders.{Rider, rider_stream, advance, put_bytes, overwritten}

module _ (permits : Bytes → Mode → Bool) where
  -- A call of a procedure that changes the disk; `write` is any of those that write with a rider.
  pub data Step (d : Disk) : Disk → Type 0 where
    old_step : (array : Bytes) (o : ℕ × Disk) → old permits array d ≡ ok o → Step d o.1
    new_step : (array : Bytes) (o : ℕ × Disk) → new permits array d ≡ ok o → Step d o.1
    register_step : (f : ℕ) (d' : Disk) → register permits f d ≡ ok d' → Step d d'
    purge_step : (f : ℕ) (d' : Disk) → purge permits f d ≡ ok d' → Step d d'
    delete_step : (array : Bytes) (o : ℤ × Disk) → delete array d ≡ ok o → Step d o.1
    rename_step :
        (array new_array : Bytes) (o : ℤ × Disk) → rename array new_array d ≡ ok o → Step d o.1
    write_step :
        (max : ℕ) (b : Bytes) (r : Rider) (o : Bool × Rider × Disk)
        → put_bytes max b r d ≡ ok o
        → Step d o.2

  by_case :
      {A : Type 0} {x y : A} (P : A → Type 0) (b : Bool)
      → (b ≡ true → P x)
      → (b ≡ false → P y)
      → P (if b then x else y)
  by_case P true p q = p refl
  by_case P false p q = q refl

  either : {A : Type 0} {x y : A} (P : A → Type 0) (b : Bool) → P x → P y → P (if b then x else y)
  either P b p q = by_case P b (λ _. p) (λ _. q)

  -- A stream of a file that has a name suits a handle whose name is registered.
  known-Suits :
      (d : Disk) (i : ℕ) (mode : Mode) (name : Bytes) (registered : Bool)
      → ¬ (registered ≡ false)
      → i ≤ d.inodes
      → Suits
          (record {
            stream = some (record { inode = i; mode = mode });
            name = name;
            registered = registered;
          })
          d
  known-Suits d i mode name registered is le =
      (λ s e. (let same = inode_of-some s e in omega arith), λ s n j r e m. absurd (is r))

  old_file-IsSound : (name : Bytes) (d : Disk) → IsSound d → IsSound (old_file permits name d).1
  unfolding old_file
  old_file-IsSound name d sound = elim (Option-cases (d.directory name)) [
    | inl unused ↦ rw (old_file, unused) sound
    | inr (i, found) ↦
        let opened = λ (mode : Mode).
          new_file-IsSound (record { inode = i; mode = mode }) name true d sound
            (known-Suits d i mode name true (λ r. ground (arith, r)) (sound.names name i found)) in
        rw (old_file, found)
          (either (λ (q : ℕ × Disk). IsSound q.1) (permits name read_write) (opened read_write)
            (either (λ (q : ℕ × Disk). IsSound q.1) (permits name read_only) (opened read_only)
              (either (λ (q : ℕ × Disk). IsSound q.1) (permits name append) (opened append) sound)))
  ]

  new_unnamed-IsSound :
      (name : Bytes) (d : Disk) → IsSound d → IsSound (new_unnamed permits name d).1
  unfolding new_unnamed
  new_unnamed-IsSound name d sound =
      new_file-IsSound (record { inode = (temporary_file d).0; mode = read_write }) name false
        (temporary_file d).1 (temporary_file-IsSound d sound)
        (fresh-Suits d read_write name false sound)

  unlink-IsSound : (name : Bytes) (d : Disk) → IsSound d → IsSound (unlink name d).1
  unfolding unlink
  unlink-IsSound name d sound = elim (Option-cases (d.directory name)) [
    | inl unused ↦ rw (unlink, unused) sound
    | inr (i, found) ↦ rw (unlink, found) (unset-IsSound name d sound)
  ]

  renamed-IsSound :
      (name new_name : Bytes) (d : Disk) → IsSound d → IsSound (renamed name new_name d).1
  unfolding renamed
  renamed-IsSound name new_name d sound = elim (Option-cases (d.directory name)) [
    | inl unused ↦ rw (renamed, unused) sound
    | inr (i, found) ↦
        let moved = unset-IsSound name (set_directory new_name (some i) d) (
          set_directory-IsSound new_name i d sound (sound.names name i found)
            (λ f s r e. sound.unnamed f s name i r e found)) in
        rw (renamed, found) (either (λ q. IsSound q) (bytes_eq name new_name) sound moved)
  ]

  set_contents-IsSound : (i : ℕ) (b : Bytes) (d : Disk) → IsSound d → IsSound (set_contents i b d)
  unfolding set_contents
  set_contents-IsSound i b d sound = record {
    names = sound.names;
    streams = sound.streams;
    unnamed = sound.unnamed;
  }

  -- The file that has the name of a handle suits it.
  renewed-Suits :
      (d : Disk) (name : Bytes) (registered : Bool)
      → ¬ (registered ≡ false)
      → IsSound d
      → Suits
          (record {
            stream = some (record { inode = (open_empty name d).0; mode = read_write });
            name = name;
            registered = registered;
          })
          (open_empty name d).1
  renewed-Suits d name registered is sound =
      let named = open_empty-named name d in
      let le = (open_empty-IsSound name d sound).names name (open_empty name d).0 named in
      known-Suits (open_empty name d).1 (open_empty name d).0 read_write name registered is le

  no_stream-Suits :
      (name : Bytes) (registered : Bool) (d : Disk)
      → Suits (record { stream = none; name = name; registered = registered }) d
  no_stream-Suits name registered d =
      (λ s e. absurd (ground (arith, e)), λ s n i r e m. absurd (ground (arith, e)))

  register-IsSound : (f : ℕ) (d : Disk) → IsSound d → Ensures IsSound (register permits f d)
  unfolding register
  register-IsSound f d sound = bind (handle_of f d) _ (λ h eh.
      branch (not h.registered && permits h.name read_write) _ _
        (λ c. bind (stream_of f d) _ (λ s es.
          (let o = open_empty h.name d in
            holds (
              set_handle-IsSound f
                (record h {
                  stream = some (record { inode = o.0; mode = read_write });
                  registered = true;
                })
                (set_contents o.0 (o.1.contents s.inode) o.1)
                (set_contents-IsSound o.0 (o.1.contents s.inode) o.1
                  (open_empty-IsSound h.name d sound))
                (renewed-Suits d h.name true (λ r. ground (arith, r)) sound)))))
        (λ c. holds sound))

  purge-IsSound : (f : ℕ) (d : Disk) → IsSound d → Ensures IsSound (purge permits f d)
  unfolding purge
  purge-IsSound f d sound = bind (handle_of f d) _ (λ h eh. bind (stream_of f d) _ (λ s es. holds (
      by_case (λ q. IsSound q) h.registered
        (λ named.
          either (λ q. IsSound q) (permits h.name read_write)
            (set_handle-IsSound f
              (record h {
                stream = some (record { inode = (open_empty h.name d).0; mode = read_write });
              })
              (open_empty h.name d).1 (open_empty-IsSound h.name d sound)
              (renewed-Suits d h.name h.registered (λ r. ground (arith, r, named)) sound))
            (set_handle-IsSound f (record h { stream = none }) d sound
              (no_stream-Suits h.name h.registered d)))
        (λ _.
          set_handle-IsSound f
            (record h {
              stream = some (record { inode = (temporary_file d).0; mode = read_write });
            })
            (temporary_file d).1 (temporary_file-IsSound d sound)
            (fresh-Suits d read_write h.name h.registered sound)))))

  by_mode :
      {A : Type 0} {x y z : A} (P : A → Type 0) (m : Mode)
      → P x
      → P y
      → P z
      → P (elim m [ read_write ↦ x | read_only ↦ y | append ↦ z ])
  by_mode P read_write p q r = p
  by_mode P read_only p q r = q
  by_mode P append p q r = r

  put_bytes-IsSound :
      (max : ℕ) (b : Bytes) (r : Rider) (d : Disk)
      → IsSound d
      → Ensures (λ o. IsSound o.2) (put_bytes max b r d)
  unfolding put_bytes
  put_bytes-IsSound max b r d sound = bind (rider_stream r d) _ (λ s es.
      by_mode (λ m. Ensures (λ (o : Bool × Rider × Disk). IsSound o.2) m) s.mode
        (bind (advance max (length b) r) _ (λ r' er.
          holds
            (set_contents-IsSound s.inode (overwritten r.position b (d.contents s.inode)) d sound)))
        (holds sound)
        (bind (advance max (length b) r) _
          (λ r' er. holds (set_contents-IsSound s.inode (d.contents s.inode ++ b) d sound))))

  Step-IsSound : (d d' : Disk) → Step d d' → IsSound d → IsSound d'
  unfolding old new delete rename
  Step-IsSound d _ (old_step array o e) sound =
      returned {P = λ (q : ℕ × Disk). IsSound q.1} o
        (bind (assert (terminated array)) _
          (λ _ _. holds (old_file-IsSound (text_of array) d sound)))
        e
  Step-IsSound d _ (new_step array o e) sound =
      returned {P = λ (q : ℕ × Disk). IsSound q.1} o
        (bind (assert (terminated array)) _
          (λ _ _. holds (new_unnamed-IsSound (text_of array) d sound)))
        e
  Step-IsSound d _ (register_step f d' e) sound = returned d' (register-IsSound f d sound) e
  Step-IsSound d _ (purge_step f d' e) sound = returned d' (purge-IsSound f d sound) e
  Step-IsSound d _ (delete_step array o e) sound =
      returned {P = λ (q : ℤ × Disk). IsSound q.1} o
        (bind (assert (terminated array)) _ (λ _ _. holds (unlink-IsSound (text_of array) d sound)))
        e
  Step-IsSound d _ (rename_step array new_array o e) sound =
      returned {P = λ (q : ℤ × Disk). IsSound q.1} o
        (bind (assert (terminated array)) _ (λ _ _.
          bind (assert (terminated new_array)) _
            (λ _ _. holds (renamed-IsSound (text_of array) (text_of new_array) d sound))))
        e
  Step-IsSound d _ (write_step max b r o e) sound = returned o (put_bytes-IsSound max b r d sound) e

  -- Any number of calls.
  pub data Reaches : Disk → Disk → Type 0 where
    done : (d : Disk) → Reaches d d
    next : (d d' d'' : Disk) → Step d d' → Reaches d' d'' → Reaches d d''

  -- Calls of Old, New, Register, Purge, Delete and Rename, and writes with riders, in any order, keep it
  -- true that every name and every stream leads to a file of the disk and that the file of a handle
  -- that is not registered has no name.
  pub Reaches-IsSound : (d d' : Disk) → Reaches d d' → IsSound d → IsSound d'
  Reaches-IsSound d _ (done _) sound = sound
  Reaches-IsSound d _ (next _ d' d'' step steps) sound =
      Reaches-IsSound d' d'' steps (Step-IsSound d d' step sound)
