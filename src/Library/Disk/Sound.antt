-- ===== src/Library/Disk/Sound.antt =====
-- The names, the streams and the handles of a disk.
use obnc.Prelude.{
  ℕ, ◌+◌, ◌≤◌, ◌≡◌, inl, inr, refl, ap, Bool, false, Option, none, some, Bytes, bytes_eq,
  bytes_eq_refl, ◌==◌, arith, Bool-cases, Option-cases,
}
use obnc.Library.Disk.{
  Mode, Stream, Handle, Disk, set_contents, set_handle, set_directory, new_file, temporary_file,
  open_empty,
}

-- A file of a name or of a stream is one of the disk, and a file that has a handle without a
-- registered name has no name.
pub record IsSound (d : Disk) : Type 0 where
  pub names : (n : Bytes) (i : ℕ) → d.directory n ≡ some i → i ≤ d.inodes
  pub streams : (f : ℕ) (s : Stream) → (d.handle f).stream ≡ some s → s.inode ≤ d.inodes
  pub unnamed :
      (f : ℕ) (s : Stream) (n : Bytes) (i : ℕ)
      → (d.handle f).registered ≡ false
      → (d.handle f).stream ≡ some s
      → d.directory n ≡ some i
      → (i == s.inode) ≡ false

abbrev pub Suits : Handle → Disk → Type 0
Suits h d =
    ((s : Stream) → h.stream ≡ some s → s.inode ≤ d.inodes)
    × ((s : Stream) (n : Bytes) (i : ℕ)
        → h.registered ≡ false
        → h.stream ≡ some s
        → d.directory n ≡ some i
        → (i == s.inode) ≡ false)

pub set_handle-IsSound :
    (f : ℕ) (h : Handle) (d : Disk) → IsSound d → Suits h d → IsSound (set_handle f h d)
unfolding set_handle
set_handle-IsSound f h d sound suits = record {
  names = sound.names;
  streams = λ g s e. elim (Bool-cases (g == f)) [
    | inl same ↦ suits.0 s (rw same at e)
    | inr other ↦ sound.streams g s (rw other at e)
  ];
  unnamed = λ g s n i r e m. elim (Bool-cases (g == f)) [
    | inl same ↦ suits.1 s n i (rw same at r) (rw same at e) m
    | inr other ↦ sound.unnamed g s n i (rw other at r) (rw other at e) m
  ];
}

pub temporary_file-IsSound : (d : Disk) → IsSound d → IsSound (temporary_file d).1
unfolding temporary_file set_contents
temporary_file-IsSound d sound = record {
  names = λ n i m. let le = sound.names n i m in omega arith;
  streams = λ g s e. let le = sound.streams g s e in omega arith;
  unnamed = sound.unnamed;
}

abbrev pub inode_of : Option Stream → ℕ
inode_of none = 0
inode_of (some s) = s.inode

pub inode_of-some : {o : Option Stream} (s : Stream) → o ≡ some s → inode_of o ≡ s.inode
inode_of-some s e = ap inode_of e

-- A new file suits any handle.
pub fresh-Suits :
    (d : Disk) (mode : Mode) (name : Bytes) (registered : Bool)
    → IsSound d
    → Suits
        (record {
          stream = some (record { inode = (temporary_file d).0; mode = mode });
          name = name;
          registered = registered;
        })
        (temporary_file d).1
unfolding temporary_file set_contents
fresh-Suits d mode name registered sound = (
  λ s e. (let i = inode_of-some s e in omega arith),
  λ s n i r e m. (let j = inode_of-some s e in let le = sound.names n i m in ground arith),
)

pub set_directory-IsSound :
    (name : Bytes) (i : ℕ) (d : Disk)
    → IsSound d
    → i ≤ d.inodes
    → ((f : ℕ) (s : Stream)
        → (d.handle f).registered ≡ false
        → (d.handle f).stream ≡ some s
        → (i == s.inode) ≡ false)
    → IsSound (set_directory name (some i) d)
unfolding set_directory
set_directory-IsSound name i d sound le apart = record {
  names = λ n j m. elim (Bool-cases (bytes_eq n name)) [
    | inl same ↦ (let e : some i ≡ some j = rw same at m in ground (arith, e, le))
    | inr other ↦ sound.names n j (rw other at m)
  ];
  streams = sound.streams;
  unnamed = λ g s n j r e m. elim (Bool-cases (bytes_eq n name)) [
    | inl same ↦
        (let e' : some i ≡ some j = rw same at m in let a = apart g s r e in ground (arith, e', a))
    | inr other ↦ sound.unnamed g s n j r e (rw other at m)
  ];
}

pub unset-IsSound : (name : Bytes) (d : Disk) → IsSound d → IsSound (set_directory name none d)
unfolding set_directory
unset-IsSound name d sound = record {
  names = λ n j m. elim (Bool-cases (bytes_eq n name)) [
    | inl same ↦ (let e : none ≡ some j = rw same at m in ground (arith, e))
    | inr other ↦ sound.names n j (rw other at m)
  ];
  streams = sound.streams;
  unnamed = λ g s n j r e m. elim (Bool-cases (bytes_eq n name)) [
    | inl same ↦ (let e' : none ≡ some j = rw same at m in ground (arith, e'))
    | inr other ↦ sound.unnamed g s n j r e (rw other at m)
  ];
}

pub new_file-IsSound :
    (s : Stream) (name : Bytes) (registered : Bool) (d : Disk)
    → IsSound d
    → Suits (record { stream = some s; name = name; registered = registered }) d
    → IsSound (new_file s name registered d).1
unfolding new_file
new_file-IsSound s name registered d sound suits =
    set_handle-IsSound (d.handles + 1)
      (record { stream = some s; name = name; registered = registered })
      (record d { handles = d.handles + 1 })
      (record { names = sound.names; streams = sound.streams; unnamed = sound.unnamed }) suits

pub open_empty-IsSound : (name : Bytes) (d : Disk) → IsSound d → IsSound (open_empty name d).1
unfolding open_empty set_contents
open_empty-IsSound name d sound = elim (Option-cases (d.directory name)) [
  | inr (i, found) ↦
      rw (open_empty, found)
        (record { names = sound.names; streams = sound.streams; unnamed = sound.unnamed })
  | inl unused ↦
      rw (open_empty, unused)
        (set_directory-IsSound name (temporary_file d).0 (temporary_file d).1
          (temporary_file-IsSound d sound) (omega arith)
          (λ f s r e. (let le = sound.streams f s e in ground (arith, le))))
]

-- The file that the name has then is one of the disk.
pub open_empty-named :
    (name : Bytes) (d : Disk) → (open_empty name d).1.directory name ≡ some (open_empty name d).0
unfolding open_empty set_contents set_directory
open_empty-named name d = elim (Option-cases (d.directory name)) [
  | inr (i, found) ↦ rw (open_empty, found) found
  | inl unused ↦ rw (open_empty, unused) (rw (bytes_eq_refl name) refl)
]
