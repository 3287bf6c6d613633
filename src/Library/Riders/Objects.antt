-- ===== src/Library/Riders/Objects.antt =====
-- What is written with a rider is read back from the same place.
use mathlib.Core.List.{append_assoc, append-nil}
use obnc.Prelude.{
  ℕ, zero, suc, ◌+◌, ◌-◌, ◌≤◌, ◌≡◌, ◌∙◌, sym, refl, ap, inl, inr, Bool, true, false, ◌||◌, none,
  some, [], ◌∷◌, ◌++◌, Bytes, length, length-append, take, drop, length-take, take-append, leb, ltb,
  ◌==◌, Result, ok, ◌>>=◌, arith, Bool-cases, All,
}
use obnc.Prelude.Int.{pos, sub_ℕ}
use obnc.Runtime.{terminated}
use obnc.Library.Disk.{Stream, Disk, text_of}
use obnc.Library.Riders.{
  Rider, Format, rider_stream, available, read_object, write_object, terminator, string_loop,
  read_string, write_string, min, read_bytes, write_bytes,
}
use obnc.Library.Riders.Overwrite.{
  both, beyond, written, put_bytes-written, advance-beyond, rider_stream-written, available-written,
}

pub rider_stream-base :
    (r : Rider) (d : Disk) (s : Stream) → rider_stream r d ≡ ok s → (r.base == 0) ≡ false
unfolding rider_stream
rider_stream-base r d s opened = elim (Bool-cases (r.base == 0)) [
  | inr set ↦ set
  | inl null ↦ ground (arith, opened, null)
]

pub at_rest :
    {B : Type 0} (s : Stream) (r : Rider) (d : Disk) (rest : Bytes) (k : Bytes → Result B)
    (z : Result B)
    → rider_stream r d ≡ ok s
    → available s r.position d ≡ some rest
    → (rider_stream r d >>= (λ t. elim (available t r.position d) [ none ↦ z | some b ↦ k b ]))
      ≡ k rest
at_rest {B = B} s r d rest k z opened found =
    ap
      (λ m.
        m >>= (λ t. elim (available t r.position d) as (λ o. Result B) [ none ↦ z | some b ↦ k b ]))
      opened
    ∙ ap (λ o. elim o as (λ o. Result B) [ none ↦ z | some b ↦ k b ]) found

-- WriteInt, WriteReal and WriteSet write an object through a stream for reading and writing, if the
-- rider's position does not overflow and the object's bytes have the size of its type and make the
-- object again; ReadInt, ReadReal and ReadSet then read this object from the same place, and end at the
-- same place behind it.
read_object-write_object :
    {A : Type 0} (max i : ℕ) (format : Format A) (x : A) (r : Rider) (d : Disk)
    → length (format.encode x) ≡ format.size
    → format.decode (format.encode x) ≡ x
    → rider_stream r d ≡ ok (both i)
    → r.position + format.size ≤ max
    → (d' : Disk) × (write_object max format x r d ≡ ok (true, beyond format.size r, d'))
      × (read_object max format r d' ≡ ok (some x, beyond format.size r))
unfolding write_object read_object
read_object-write_object max i format x r d size back opened fits =
    let b = format.encode x in
    let rest = drop (r.position + length b) (d.contents i) in
    let enough : leb format.size (length (b ++ rest)) ≡ true =
      ground (arith, length-append b rest) in
    let taken : take format.size (b ++ rest) ≡ b =
      ap (λ n. take n (b ++ rest)) (sym size) ∙ take-append b rest in
    (
      written i b r d,
      put_bytes-written max i b r d opened (omega arith) ∙ rw size refl,
      at_rest (both i) r (written i b r d) (b ++ rest) _ _ (rider_stream-written i b r d opened)
            (available-written i b r d)
          ∙ rw (enough, taken, back, advance-beyond max format.size r fits) refl,
    )

text_of-All : (a : Bytes) → All (λ c. 1 ≤ c) (text_of a)
unfolding text_of
text_of-All [] = tt
text_of-All (c ∷ a) = elim (Bool-cases (c == 0)) [
  | inl null ↦ rw null tt
  | inr char ↦ rw char (ground arith, text_of-All a)
]

string_loop-text :
    (room n : ℕ) (passed t rest : Bytes)
    → All (λ c. 1 ≤ c) t
    → length t ≤ room
    → string_loop room passed (t ++ 0 ∷ rest) n ≡ terminator (passed ++ t)
unfolding string_loop
string_loop-text zero n passed [] rest chars fits = rw (append-nil passed) refl
string_loop-text (suc room) n passed [] rest chars fits = rw (append-nil passed) refl
string_loop-text zero n passed (c ∷ t) rest chars fits = absurd (omega arith)
string_loop-text (suc room) n passed (c ∷ t) rest chars fits =
    let char : (c == 0) ≡ false = ground (arith, chars.0) in
    rw char (
      string_loop-text room (n + 1) (passed ++ c ∷ []) t rest chars.1 (omega arith)
      ∙ ap terminator (append_assoc passed (c ∷ []) t))

-- WriteString writes the text of a terminated array through a stream for reading and writing, with a
-- null, if the rider's position does not overflow. ReadString then reads this text from the same place
-- and ends at the same place behind the null, if its array has the space for the text and the null.
pub read_string-write_string :
    (max i array_length : ℕ) (array : Bytes) (r : Rider) (d : Disk)
    → terminated array ≡ true
    → length (text_of array) + 1 ≤ array_length
    → rider_stream r d ≡ ok (both i)
    → r.position + (length (text_of array) + 1) ≤ max
    → (d' : Disk) × (write_string max array r d
        ≡ ok (true, beyond (length (text_of array) + 1) r, d'))
      × (read_string max array_length r d'
          ≡ ok (some (text_of array), beyond (length (text_of array) + 1) r))
unfolding write_string read_string
read_string-write_string max i array_length array r d ended space opened fits =
    let t = text_of array in
    let b = t ++ 0 ∷ [] in
    let size : length b ≡ length t + 1 = length-append t (0 ∷ []) in
    let rest = drop (r.position + length b) (d.contents i) in
    let not_empty : (array_length == 0) ≡ false = ground (arith, space) in
    let joined : b ++ rest ≡ t ++ 0 ∷ rest = append_assoc t (0 ∷ []) rest in
    (
      written i b r d,
      rw
          (
            rider_stream-base r d (both i) opened,
            ended,
            put_bytes-written max i b r d opened (omega arith),
            size,
          )
          refl,
      at_rest (both i) r (written i b r d) (b ++ rest) _ _ (rider_stream-written i b r d opened)
            (available-written i b r d)
          ∙ rw
              (
                joined,
                string_loop-text (array_length - 1) 0 [] t rest (text_of-All array) (omega arith),
                not_empty,
                advance-beyond max (length t + 1) r fits,
              )
              refl,
    )

min_left : (n m : ℕ) → n ≤ m → min n m ≡ n
unfolding min
min_left n m le = ground (arith, le)

or_false : (b : Bool) → (b || false) ≡ b
or_false true = refl
or_false false = refl

-- WriteBytes writes the first n bytes of a buffer that has so many through a stream for reading and
-- writing, if the rider's position does not overflow, and sets `res` to 0. ReadBytes with n and a buffer
-- of at least n bytes then reads these from the same place, ends at the same place behind them, sets
-- `res` to 0, and leaves `eof`.
pub read_bytes-write_bytes :
    (max i n buffer_length : ℕ) (buffer : Bytes) (r : Rider) (d : Disk)
    → n ≤ length buffer
    → n ≤ buffer_length
    → rider_stream r d ≡ ok (both i)
    → r.position + n ≤ max
    → (d' : Disk) × (write_bytes max buffer n r d
        ≡ ok (true, record (beyond n r) { res = pos 0 }, d'))
      × (read_bytes max buffer_length n r d'
          ≡ ok (take n buffer, record (beyond n r) { res = pos 0 }))
unfolding write_bytes read_bytes
read_bytes-write_bytes max i n buffer_length buffer r d enough space opened fits =
    let b = take n buffer in
    let size : length b ≡ n = length-take n buffer enough in
    let all : leb n (length buffer) ≡ true = ground arith in
    let rest = drop (r.position + length b) (d.contents i) in
    let least : min n buffer_length ≡ n = min_left n buffer_length space in
    let whole : take n (b ++ rest) ≡ b =
      ap (λ m. take m (b ++ rest)) (sym size) ∙ take-append b rest in
    let more : ltb (length (b ++ rest)) n ≡ false = ground (arith, length-append b rest, size) in
    let none_left : sub_ℕ n n ≡ pos 0 = ground arith in
    (
      written i b r d,
      rw
          (
            rider_stream-base r d (both i) opened,
            all,
            put_bytes-written max i b r d opened (omega arith),
            size,
          )
          refl,
      rw (rider_stream-written i b r d opened) (
          rw (available-written i b r d) (
            rw (least, more, whole, size, advance-beyond max n r fits, or_false r.eof, none_left)
              refl)),
    )
