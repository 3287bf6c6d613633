-- ===== src/Library/Numbers.antt =====
-- lib/obnc/Files.c: WriteNum and ReadNum, which store an integer in groups of seven bits, the lowest
-- first. `max` is OBNC_INT_MAX, and `bits` the width of OBNC_INTEGER, the size of the C buffer.
pub mod Groups
pub mod RoundTrip
pub mod Files
use obnc.Prelude.{
  ℕ, zero, suc, ◌+◌, ◌-◌, ◌*◌, ◌/◌, ◌%◌, ◌^◌, Bool, true, false, not, ◌||◌, Option, none, some,
  List, [], ◌∷◌, ◌++◌, Bytes, length, leb, ltb, ◌==◌, if◌then◌else◌, Result, ok, abort, ◌>>=◌, ◌>>◌,
  assert,
}
use obnc.Prelude.Int.{ℤ, pos, negsuc, ltb_ℤ, pos_part, sub_ℕ, ◌+ℤ◌, ◌-ℤ◌}
use obnc.Range.{fit}
use obnc.Runtime.{obnc_mod, obnc_div}
use obnc.Library.Disk.{Disk}
use obnc.Library.Riders.{Rider, rider_stream, available, advance, at_end, put_bytes}

-- The largest `int`.
abbrev pub int_32 : ℕ
int_32 = 2147483647

-- The loop of `WriteNum`, with the room that is left in the buffer: the bytes from the next on.
unfoldable pub groups : ℕ → ℕ → ℤ → Result Bytes
groups max zero x = abort
groups max (suc room) x =
    let more = (do
      m ← obnc_mod max x (pos 128)
      b ← fit max (m +ℤ pos 128)
      q ← obnc_div max x (pos 128)
      bs ← groups max room q
      ok (pos_part b ∷ bs)) in
    let last = (do m ← obnc_mod max x (pos 128); ok (pos_part m ∷ [])) in
    if ltb_ℤ x (negsuc 63) || ltb_ℤ (pos 63) x then more else last

unfoldable pub write_num : ℕ → ℕ → ℤ → Rider → Disk → Result (Bool × Rider × Disk)
write_num max bits x r d = do assert (not (r.base == 0)); b ← groups max bits x; put_bytes max b r d

-- `a << s` for an `int` that is not negative: undefined where the result is no `int`, and for a shift
-- by the width of an `int`.
unfoldable pub shifted : ℕ → ℕ → Result ℕ
shifted a s = if leb 32 s then abort else if leb (a * 2 ^ s) int_32 then ok (a * 2 ^ s) else abort

-- `y << s` for the last group, whose first bit is its sign: `z`.
unfoldable pub signed_group : ℕ → ℕ → Result ℤ
unfolding shifted
signed_group ch s =
    if ltb ch 64
    then (do z ← shifted ch s; ok (pos z))
    else (do z ← shifted (128 - ch) s; ok (sub_ℕ 0 z))

-- What the loop of `ReadNum` reaches: the end of the file behind some bytes, or the number and how many
-- bytes it takes. `n` is what the groups so far make.
pub data Scanned : Type 0 where
  file_end : ℕ → Scanned
  number : ℤ → ℕ → Scanned

unfoldable pub num_loop : ℕ → Bytes → ℤ → ℕ → ℕ → Result Scanned
unfolding signed_group
num_loop max [] n s taken = ok (file_end taken)
num_loop max (ch ∷ rest) n s taken =
    let more = (do
      z ← shifted (ch - 128) s
      n' ← fit max (n +ℤ pos z)
      num_loop max rest n' (s + 7) (taken + 1)) in
    let last = (do z ← signed_group ch s; x ← fit max (n +ℤ z); ok (number x (taken + 1))) in
    if leb 128 ch then more else last

unfoldable pub read_num : ℕ → Rider → Disk → Result (Option ℤ × Rider)
unfolding num_loop
read_num max r d = do
  s ← rider_stream r d
  elim (available s r.position d) [
    | none ↦ ok (none, r)
    | some rest ↦ (do
      scanned ← num_loop max rest (pos 0) 0 0
      elim scanned [
        | file_end taken ↦ (do r' ← advance max taken r; ok (none, at_end r'))
        | number x taken ↦ (do r' ← advance max taken r; ok (some x, r'))
      ])
  ]
