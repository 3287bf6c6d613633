-- ===== src/Library/Riders.antt =====
-- lib/obnc/Files.c: riders, Set to WriteBytes, without the numbers of variable length.
-- A procedure that assigns a parameter returns its value, or `none` where it leaves the parameter as it
-- was, or not wholly assigned.
pub mod Overwrite
pub mod Objects
use obnc.Prelude.{
  ℕ, zero, suc, ◌+◌, ◌-◌, ◌*◌, ◌≤◌, Bool, true, false, not, ◌&&◌, ◌||◌, Option, none, some, List,
  [], ◌∷◌, ◌++◌, Bytes, length, take, drop, leb, ltb, ◌==◌, if◌then◌else◌, Result, ok, abort, ◌>>=◌,
  ◌>>◌, assert,
}
use obnc.Prelude.Int.{ℤ, pos, negsuc, ltb_ℤ, sub_ℕ}
use obnc.Runtime.{terminated}
use obnc.Library.Disk.{
  Mode, read_write, read_only, append, Stream, Handle, Disk, set_contents, handle_of, stream_of,
  file_length, text_of,
}

-- `Files__Rider_`; its base is the address of a handle.
pub record Rider : Type 0 where
  pub eof : Bool
  pub res : ℤ
  pub base : ℕ
  pub position : ℕ

-- An object of a C type: its size, and its bytes.
pub record Format {ℓ} (A : Type ℓ) : Type ℓ where
  pub size : ℕ
  pub encode : A → Bytes
  pub decode : Bytes → A

unfoldable pub set : ℕ → ℕ → ℤ → Rider → Disk → Result Rider
set max f p r d = do
  assert (not (f == 0))
  assert (not (ltb_ℤ p (pos 0)))
  n ← file_length max f d
  assert (not (ltb_ℤ n p))
  elim p [ negsuc m ↦ abort | pos m ↦ ok (record r { eof = false; base = f; position = m }) ]

unfoldable pub position_of : Rider → Result ℕ
position_of r = do assert (not (r.base == 0)); ok r.position

unfoldable pub base_of : Rider → Result ℕ
base_of r = do assert (not (r.base == 0)); ok r.base

-- What can be read from a position on; nothing, with an error, where the mode is for writing only.
unfoldable pub available : Stream → ℕ → Disk → Option Bytes
available s p d = elim s.mode [ append ↦ none | _ ↦ some (drop p (d.contents s.inode)) ]

-- `r->pos_ += n`
unfoldable pub advance : ℕ → ℕ → Rider → Result Rider
advance max n r =
    if leb (r.position + n) max then ok (record r { position = r.position + n }) else abort

-- `assert`s and `Position`: the stream of a rider.
unfoldable pub rider_stream : Rider → Disk → Result Stream
rider_stream r d = do assert (not (r.base == 0)); stream_of r.base d

unfoldable pub at_end : Rider → Rider
at_end r = record r { eof = true }

unfoldable pub read : ℕ → Rider → Disk → Result (Option ℕ × Rider)
unfolding at_end
read max r d = do
  s ← rider_stream r d
  elim (available s r.position d) [
    | none ↦ ok (none, r)
    | some [] ↦ ok (none, at_end r)
    | some (c ∷ _) ↦ (do r' ← advance max 1 r; ok (some c, r'))
  ]

-- ReadInt, ReadReal and ReadSet.
unfoldable pub read_object {ℓ} :
    {A : Type ℓ} → ℕ → Format A → Rider → Disk → Result (Option A × Rider)
unfolding at_end
read_object max format r d = do
  s ← rider_stream r d
  elim (available s r.position d) [
    | none ↦ ok (none, r)
    | some rest ↦
        (if leb format.size (length rest)
          then (do
            r' ← advance max format.size r
            ok (some (format.decode (take format.size rest)), r'))
          else ok (none, at_end r))
  ]

-- The loop of `ReadString`: the characters before the null, and those that are taken from the file;
-- `room` is what is left of the array without its last element. What follows is a null, another
-- character where the array is full, or the end of the file.
pub data Found : Type 0 where
  terminator : Bytes → Found
  no_room : ℕ → Found
  file_end : Found

unfoldable pub string_loop : ℕ → Bytes → Bytes → ℕ → Found
string_loop room passed [] n = file_end
string_loop zero passed (c ∷ s) n = if c == 0 then terminator passed else no_room n
string_loop (suc room) passed (c ∷ s) n =
    let rest = string_loop room (passed ++ c ∷ []) s (n + 1) in
    if c == 0 then terminator passed else rest

-- The text that the array has behind the call; the null is not put in an array without elements.
unfoldable pub read_string : ℕ → ℕ → Rider → Disk → Result (Option Bytes × Rider)
unfolding at_end string_loop
read_string max array_length r d = do
  s ← rider_stream r d
  elim (available s r.position d) [
    | none ↦ ok (none, r)
    | some rest ↦ elim (string_loop (array_length - 1) [] rest 0) [
      | terminator text ↦ (do
        assert (not (array_length == 0))
        r' ← advance max (length text + 1) r
        ok (some text, r'))
      | no_room n ↦ (do
        assert (not (array_length == 0))
        r' ← advance max (n + 1) r
        ok (some [], r'))
      | file_end ↦ ok (none, at_end r)
    ]
  ]

-- The variable gets the byte itself.
unfoldable pub read_bool : ℕ → Rider → Disk → Result (Option ℕ × Rider)
unfolding read
read_bool max r d = read max r d

unfoldable pub min : ℕ → ℕ → ℕ
min a b = if ltb a b then a else b

-- The bytes that are put in the buffer.
unfoldable pub read_bytes : ℕ → ℕ → ℕ → Rider → Disk → Result (Bytes × Rider)
unfolding min
read_bytes max buffer_length n r d = do
  s ← rider_stream r d
  let wanted = min n buffer_length
  let rest = elim (available s r.position d) as (λ o. Bytes) [ none ↦ [] | some b ↦ b ]
  let is_end = elim (available s r.position d) as (λ o. Bool) [
    | none ↦ false
    | some b ↦ ltb (length b) wanted
  ]
  let got = take wanted rest
  r' ← advance max (length got) r
  ok (got, record r' { res = sub_ℕ n (length got); eof = r.eof || is_end })

-- What stands in a file behind a write at a position; a gap is filled with nulls.
unfoldable pub zeros : ℕ → Bytes
zeros zero = []
zeros (suc n) = 0 ∷ zeros n

unfoldable pub overwritten : ℕ → Bytes → Bytes → Bytes
unfolding zeros
overwritten p [] c = c
overwritten p (b ∷ bs) c =
    take p (c ++ zeros (p - length c)) ++ ((b ∷ bs) ++ drop (p + length (b ∷ bs)) c)

-- `fwrite` and `fputc` at the position of the rider, and the step behind it.
unfoldable pub put_bytes : ℕ → Bytes → Rider → Disk → Result (Bool × Rider × Disk)
unfolding overwritten set_contents
put_bytes max b r d = do
  s ← rider_stream r d
  elim s.mode [
    | read_only ↦ ok (false, r, d)
    | append ↦ (do
      r' ← advance max (length b) r
      ok (true, r', set_contents s.inode (d.contents s.inode ++ b) d))
    | read_write ↦ (do
      r' ← advance max (length b) r
      ok (true, r', set_contents s.inode (overwritten r.position b (d.contents s.inode)) d))
  ]

unfoldable pub write : ℕ → ℕ → Rider → Disk → Result (Bool × Rider × Disk)
unfolding put_bytes
write max x r d = put_bytes max (x ∷ []) r d

-- WriteInt, WriteReal and WriteSet.
unfoldable pub write_object {ℓ} :
    {A : Type ℓ} → ℕ → Format A → A → Rider → Disk → Result (Bool × Rider × Disk)
unfolding put_bytes
write_object max format x r d = put_bytes max (format.encode x) r d

unfoldable pub write_string : ℕ → Bytes → Rider → Disk → Result (Bool × Rider × Disk)
unfolding put_bytes text_of terminated
write_string max array r d = do
  assert (not (r.base == 0))
  assert (terminated array)
  put_bytes max (text_of array ++ 0 ∷ []) r d

unfoldable pub write_bool : ℕ → Bool → Rider → Disk → Result (Bool × Rider × Disk)
unfolding put_bytes
write_bool max b r d = put_bytes max ((if b then 1 else 0) ∷ []) r d

unfoldable pub write_bytes : ℕ → Bytes → ℕ → Rider → Disk → Result (Bool × Rider × Disk)
unfolding put_bytes
write_bytes max buffer n r d = do
  assert (not (r.base == 0))
  assert (leb n (length buffer))
  (done, r', d') ← put_bytes max (take n buffer) r d
  ok (done, record r' { res = if done then pos 0 else pos n }, d')
