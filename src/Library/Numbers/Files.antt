-- ===== src/Library/Numbers/Files.antt =====
-- A number in a file.
use obnc.Prelude.{
  ℕ, ◌+◌, ◌≤◌, ◌≡◌, ◌∙◌, refl, inl, inr, Bool-cases, true, some, ◌++◌, length, drop, leb,
  if◌then◌else◌, ok, abort, arith,
}
use obnc.Prelude.Int.{ℤ, neg_part}
use obnc.Library.Disk.{Disk}
use obnc.Library.Riders.{Rider, rider_stream}
use obnc.Library.Riders.Overwrite.{
  both, beyond, written, put_bytes-written, advance-beyond, rider_stream-written, available-written,
}
use obnc.Library.Riders.Objects.{at_rest, rider_stream-base}
use obnc.Library.Numbers.{int_32, write_num, read_num}
use obnc.Library.Numbers.Groups.{IsInt32}
use obnc.Library.Numbers.RoundTrip.{num_loop-groups}

-- WriteNum writes a number of 32 bits through a stream for reading and writing, if `int` is no wider
-- than OBNC_INTEGER, the number's type has at least 5 bits for the buffer, and the rider's position
-- does not overflow. ReadNum then reads this number from the same place and ends at the same place, if
-- the number is at least -7 * 2 ^ 28; below, it shifts an `int` out of its range, which is undefined.
pub read_num-write_num :
    (max i bits : ℕ) (wide : int_32 ≤ max) (x : ℤ) (r : Rider) (d : Disk)
    → 5 ≤ bits
    → IsInt32 max wide x
    → rider_stream r d ≡ ok (both i)
    → r.position + bits ≤ max
    → (r' : Rider) × (d' : Disk) × (write_num max bits x r d ≡ ok (true, r', d'))
      × (read_num max r d' ≡ (if leb (neg_part x) 1879048192 then ok (some x, r') else abort))
unfolding write_num read_num
read_num-write_num max i bits wide x r d buffer small opened fits =
    let (bs, run, short, read) = num_loop-groups max wide bits x buffer small in
    let rest = drop (r.position + length bs) (d.contents i) in
    (
      beyond (length bs) r,
      written i bs r d,
      rw
          (
            rider_stream-base r d (both i) opened,
            run,
            put_bytes-written max i bs r d opened (omega arith),
          )
          refl,
      at_rest (both i) r (written i bs r d) (bs ++ rest) _ _ (rider_stream-written i bs r d opened)
            (available-written i bs r d)
          ∙ rw (read rest) (elim (Bool-cases (leb (neg_part x) 1879048192)) [
            | inl high ↦ rw (high, advance-beyond max (length bs) r (omega arith)) refl
            | inr low ↦ rw low refl
          ]),
    )
