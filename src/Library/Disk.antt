-- ===== src/Library/Disk.antt =====
-- lib/obnc/Files.c: files and their names, Old to GetDate. A file has its contents whatever its names
-- are; a stream is a file with the mode in which it was opened. What is written through a stream is
-- taken to be in the file at once, so that `fflush` changes nothing. Messages are left out.
-- `permits` tells whether the system opens a file of a name in a mode; other failures of the system
-- are left out. `max` is OBNC_INT_MAX.
pub mod Sound
pub mod Reachable
pub mod Registering
use obnc.Prelude.{
  ℕ, zero, suc, ◌+◌, ◌-◌, ◌*◌, ◌%◌, ◌^◌, Bool, true, false, not, ◌&&◌, ◌||◌, Option, none, some,
  List, [], ◌∷◌, Bytes, bytes_eq, length, leb, ltb, ◌==◌, if◌then◌else◌, Result, ok, abort, ◌>>=◌,
  ◌>>◌, assert,
}
use Prim.Native.Nat.{bit_or}
use obnc.Prelude.Int.{ℤ, pos, negsuc}
use obnc.Runtime.{terminated}

pub data Mode : Type 0 where
  read_write read_only append : Mode

pub record Stream : Type 0 where
  pub inode : ℕ
  pub mode : Mode

-- `struct Handle`; `Purge` may leave it without a stream.
pub record Handle : Type 0 where
  pub stream : Option Stream
  pub name : Bytes
  pub registered : Bool

-- The contents of the files, the names of the directory, and the handles by address; 0 is NULL.
pub record Disk : Type 0 where
  pub inodes : ℕ
  pub contents : ℕ → Bytes
  pub directory : Bytes → Option ℕ
  pub handles : ℕ
  pub handle : ℕ → Handle

unfoldable pub set_contents : ℕ → Bytes → Disk → Disk
set_contents i b d = record d { contents = λ j. if j == i then b else d.contents j }

unfoldable pub set_handle : ℕ → Handle → Disk → Disk
set_handle f h d = record d { handle = λ g. if g == f then h else d.handle g }

unfoldable pub set_directory : Bytes → Option ℕ → Disk → Disk
set_directory n i d = record d { directory = λ m. if bytes_eq m n then i else d.directory m }

-- `*file`
unfoldable pub handle_of : ℕ → Disk → Result Handle
handle_of f d = if f == 0 then abort else ok (d.handle f)

-- The use of a stream, which is undefined for NULL.
unfoldable pub stream_of : ℕ → Disk → Result Stream
stream_of f d = do h ← handle_of f d; elim h.stream [ none ↦ abort | some s ↦ ok s ]

-- `NewFile`
unfoldable pub new_file : Stream → Bytes → Bool → Disk → ℕ × Disk
unfolding set_handle
new_file s name registered d =
    let f = d.handles + 1 in
    (
      f,
      set_handle f (record { stream = some s; name = name; registered = registered })
          (record d { handles = f }),
    )

-- A new empty file without a name, as `tmpfile` makes it.
unfoldable pub temporary_file : Disk → ℕ × Disk
unfolding set_contents
temporary_file d = let i = d.inodes + 1 in (i, set_contents i [] (record d { inodes = i }))

-- `fopen(name, "w+b")`: the file of the name is emptied, or a new one gets the name.
unfoldable pub open_empty : Bytes → Disk → ℕ × Disk
unfolding set_contents set_directory temporary_file
open_empty name d = elim (d.directory name) [
  | some i ↦ (i, set_contents i [] d)
  | none ↦ (let (i, d') = temporary_file d in (i, set_directory name (some i) d'))
]

-- The text in an array, up to its first null.
unfoldable pub text_of : Bytes → Bytes
text_of [] = []
text_of (c ∷ s) = if c == 0 then [] else c ∷ text_of s

module _ (permits : Bytes → Mode → Bool) where
  unfoldable pub old_file : Bytes → Disk → ℕ × Disk
  unfolding new_file
  old_file name d = elim (d.directory name) [
    | none ↦ (0, d)
    | some i ↦
        (if permits name read_write
          then new_file (record { inode = i; mode = read_write }) name true d
          else if permits name read_only
          then new_file (record { inode = i; mode = read_only }) name true d
          else if permits name append
          then new_file (record { inode = i; mode = append }) name true d
          else (0, d))
  ]

  unfoldable pub old : Bytes → Disk → Result (ℕ × Disk)
  unfolding text_of terminated
  old array d = do assert (terminated array); ok (old_file (text_of array) d)

  unfoldable pub new_unnamed : Bytes → Disk → ℕ × Disk
  unfolding new_file temporary_file
  new_unnamed name d =
      let (i, d') = temporary_file d in
      new_file (record { inode = i; mode = read_write }) name false d'

  unfoldable pub new : Bytes → Disk → Result (ℕ × Disk)
  unfolding text_of terminated
  new array d = do assert (terminated array); ok (new_unnamed (text_of array) d)

  -- `Copy` reads the file from its start, and stops with `done` unset if it cannot be read.
  unfoldable pub register : ℕ → Disk → Result Disk
  unfolding open_empty set_contents set_handle
  register f d = do
    h ← handle_of f d
    if not h.registered && permits h.name read_write
        then (do
          s ← stream_of f d
          let (i, d') = open_empty h.name d
          ok (
              set_handle f
                (record h {
                  stream = some (record { inode = i; mode = read_write });
                  registered = true;
                })
                (set_contents i (d'.contents s.inode) d')))
        else ok d

  unfoldable pub close : ℕ → Disk → Result Disk
  close f d = do s ← stream_of f d; ok d

  unfoldable pub purge : ℕ → Disk → Result Disk
  unfolding open_empty temporary_file set_handle
  purge f d = do
    h ← handle_of f d
    s ← stream_of f d
    ok (
        if h.registered
        then (if permits h.name read_write
            then (let (i, d') = open_empty h.name d in
                set_handle f (record h { stream = some (record { inode = i; mode = read_write }) })
                  d')
            else set_handle f (record h { stream = none }) d)
        else (let (i, d') = temporary_file d in
            set_handle f (record h { stream = some (record { inode = i; mode = read_write }) }) d'))

-- `unlink` and `rename` of the C library, with their results.
unfoldable pub unlink : Bytes → Disk → ℤ × Disk
unfolding set_directory
unlink name d = elim (d.directory name) [
  | none ↦ (negsuc 0, d)
  | some i ↦ (pos 0, set_directory name none d)
]

unfoldable pub renamed : Bytes → Bytes → Disk → ℤ × Disk
unfolding set_directory
renamed old_name new_name d = elim (d.directory old_name) [
  | none ↦ (negsuc 0, d)
  | some i ↦ (
    pos 0,
    if bytes_eq old_name new_name
        then d
        else set_directory old_name none (set_directory new_name (some i) d),
  )
]

unfoldable pub delete : Bytes → Disk → Result (ℤ × Disk)
unfolding text_of terminated
delete array d = do assert (terminated array); ok (unlink (text_of array) d)

unfoldable pub rename : Bytes → Bytes → Disk → Result (ℤ × Disk)
unfolding text_of terminated
rename old_array new_array d = do
  assert (terminated old_array)
  assert (terminated new_array)
  ok (renamed (text_of old_array) (text_of new_array) d)

-- `(OBNC_INTEGER) n`, which wraps around.
unfoldable pub wrapped : ℕ → ℕ → ℤ
wrapped max n = let r = n % (2 * max + 2) in if leb r max then pos r else negsuc (2 * max + 1 - r)

unfoldable pub file_length : ℕ → ℕ → Disk → Result ℤ
unfolding wrapped
file_length max f d = do s ← stream_of f d; ok (wrapped max (length (d.contents s.inode)))

-- The fields of a `struct tm`, where `tm_mon` counts from 0.
pub record Time : Type 0 where
  pub year : ℕ
  pub month : ℕ
  pub day : ℕ
  pub hour : ℕ
  pub minute : ℕ
  pub second : ℕ

unfoldable pub packed_time : Time → ℕ
packed_time t = bit_or (bit_or (t.hour * 2 ^ 12) (t.minute * 2 ^ 6)) t.second

unfoldable pub packed_date : Time → ℕ
packed_date t = bit_or (bit_or ((1900 + t.year) * 2 ^ 9) ((t.month + 1) * 2 ^ 5)) t.day

-- `modified` is `stat` and `localtime`. The result is the time and the date, unless they are kept.
unfoldable pub get_date : (Bytes → Option Time) → ℕ → Disk → Result (Option (ℕ × ℕ))
unfolding packed_time packed_date
get_date modified f d = do
  h ← handle_of f d
  if h.registered
      then elim (modified h.name) [
        | none ↦ ok none
        | some t ↦ ok (some (packed_time t, packed_date t))
      ]
      else ok (some (0, 0))
