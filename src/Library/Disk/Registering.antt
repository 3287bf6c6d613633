-- ===== src/Library/Disk/Registering.antt =====
-- What `Register` makes of the names and of the contents.
use obnc.Prelude.{
  ℕ, ◌≤◌, ◌≡◌, inl, inr, refl, Bool, true, false, some, Bytes, ◌==◌, ok, arith, Option-cases,
}
use obnc.Library.Disk.{
  Mode, read_write, Stream, Disk, set_contents, set_handle, set_directory, handle_of, stream_of,
  temporary_file, open_empty, register,
}
use obnc.Library.Disk.Sound.{IsSound, open_empty-named}

-- `fopen` leaves the other files as they are, and takes the file that has the name already.
open_empty-others :
    (name : Bytes) (d : Disk) (j : ℕ)
    → (j == (open_empty name d).0) ≡ false
    → (open_empty name d).1.contents j ≡ d.contents j
unfolding open_empty set_contents set_directory temporary_file
open_empty-others name d j other = elim (Option-cases (d.directory name)) [
  | inl unused ↦ rw (open_empty, unused, rw (open_empty, unused) at other) refl
  | inr (i, found) ↦ rw (open_empty, found, rw (open_empty, found) at other) refl
]

open_empty-known :
    (name : Bytes) (d : Disk) (j : ℕ) → d.directory name ≡ some j → (open_empty name d).0 ≡ j
unfolding open_empty
open_empty-known name d j found = rw (open_empty, found) refl

-- A file of the disk without the name is not the file that the name has then.
open_empty-apart :
    (name : Bytes) (d : Disk) (j : ℕ)
    → j ≤ d.inodes
    → ((i : ℕ) → d.directory name ≡ some i → (i == j) ≡ false)
    → (j == (open_empty name d).0) ≡ false
unfolding open_empty temporary_file
open_empty-apart name d j le apart = elim (Option-cases (d.directory name)) [
  | inl unused ↦ rw (open_empty, unused) (ground (arith, le))
  | inr (i, found) ↦ (let a = apart i found in rw (open_empty, found) (ground (arith, a)))
]

module _ (permits : Bytes → Mode → Bool) where
  -- Register of a handle that is not registered and has a stream, on a sound disk that permits its name
  -- to be written, returns, and then the name leads to a file with the contents of the handle's file.
  -- A file that had the name before is this same file, so that its old contents are gone for all its
  -- handles; every other file keeps its contents.
  pub register-contents :
      (f : ℕ) (s : Stream) (d : Disk)
      → IsSound d
      → (f == 0) ≡ false
      → (d.handle f).registered ≡ false
      → (d.handle f).stream ≡ some s
      → permits (d.handle f).name read_write ≡ true
      → (d' : Disk) × (i : ℕ) × (register permits f d ≡ ok d')
        × (d'.directory (d.handle f).name ≡ some i)
        × (d'.contents i ≡ d.contents s.inode)
        × ((j : ℕ) → d.directory (d.handle f).name ≡ some j → i ≡ j)
        × ((j : ℕ) → (j == i) ≡ false → d'.contents j ≡ d.contents j)
  unfolding register handle_of stream_of set_handle set_contents
  register-contents f s d sound address unnamed stream permitted =
      let name = (d.handle f).name in
      let o = open_empty name d in
      let apart =
        open_empty-apart name d s.inode (sound.streams f s stream)
          (λ i m. sound.unnamed f s name i unnamed stream m) in
      let same : (o.0 == o.0) ≡ true = ground arith in
      (
        set_handle f
            (record (d.handle f) {
              stream = some (record { inode = o.0; mode = read_write });
              registered = true;
            })
            (set_contents o.0 (o.1.contents s.inode) o.1),
        o.0,
        rw (address, unnamed, permitted, stream) refl,
        open_empty-named name d,
        rw same (open_empty-others name d s.inode apart),
        λ j found. open_empty-known name d j found,
        λ j other. rw other (open_empty-others name d j other),
      )
