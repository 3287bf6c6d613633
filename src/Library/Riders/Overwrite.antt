-- ===== src/Library/Riders/Overwrite.antt =====
-- What can be read where something has been written to a file.
use obnc.Prelude.{
  ℕ, zero, suc, ◌+◌, ◌-◌, ◌≤◌, ◌≡◌, ◌∙◌, sym, refl, ap, true, some, List, [], ◌∷◌, ◌++◌, Bytes,
  length, length-append, take, drop, length-take, drop-append, ◌==◌, ok, arith,
}
use obnc.Library.Disk.{Stream, Disk, read_write, set_contents, stream_of, handle_of}
use obnc.Library.Riders.{Rider, zeros, overwritten, rider_stream, available, advance, put_bytes}

length-zeros : (n : ℕ) → length (zeros n) ≡ n
unfolding zeros
length-zeros zero = refl
length-zeros (suc n) = ap suc (length-zeros n)

drop_behind : {A : Type 0} (p : ℕ) (xs ys : List A) → length xs ≡ p → drop p (xs ++ ys) ≡ ys
drop_behind p xs ys e = ap (λ n. drop n (xs ++ ys)) (sym e) ∙ drop-append xs ys

-- From the position on stand the bytes that were written, and then the old ones behind them.
pub drop-overwritten :
    (p : ℕ) (b c : Bytes) → drop p (overwritten p b c) ≡ b ++ drop (p + length b) c
unfolding overwritten
drop-overwritten p [] c = ground arith
drop-overwritten p (a ∷ bs) c =
    let padded = c ++ zeros (p - length c) in
    let long : p ≤ length padded =
      omega (arith, length-append c (zeros (p - length c)), length-zeros (p - length c)) in
    drop_behind p (take p padded) ((a ∷ bs) ++ drop (p + length (a ∷ bs)) c)
      (length-take p padded long)

-- A stream for both directions.
abbrev pub both : ℕ → Stream
both i = record { inode = i; mode = read_write }

abbrev pub beyond : ℕ → Rider → Rider
beyond n r = record r { position = r.position + n }

abbrev pub written : ℕ → Bytes → Rider → Disk → Disk
written i b r d = set_contents i (overwritten r.position b (d.contents i)) d

pub advance-beyond :
    (max n : ℕ) (r : Rider) → r.position + n ≤ max → advance max n r ≡ ok (beyond n r)
unfolding advance
advance-beyond max n r fits = ground (arith, fits)

pub put_bytes-written :
    (max i : ℕ) (b : Bytes) (r : Rider) (d : Disk)
    → rider_stream r d ≡ ok (both i)
    → r.position + length b ≤ max
    → put_bytes max b r d ≡ ok (true, beyond (length b) r, written i b r d)
unfolding put_bytes
put_bytes-written max i b r d opened fits = rw (opened, advance-beyond max (length b) r fits) refl

pub rider_stream-written :
    (i : ℕ) (b : Bytes) (r : Rider) (d : Disk)
    → rider_stream r d ≡ ok (both i)
    → rider_stream r (written i b r d) ≡ ok (both i)
unfolding rider_stream stream_of handle_of set_contents
rider_stream-written i b r d opened = opened

pub available-written :
    (i : ℕ) (b : Bytes) (r : Rider) (d : Disk)
    → available (both i) r.position (written i b r d)
      ≡ some (b ++ drop (r.position + length b) (d.contents i))
unfolding available set_contents
available-written i b r d =
    let same : (i == i) ≡ true = ground arith in
    rw (same, drop-overwritten r.position b (d.contents i)) refl
