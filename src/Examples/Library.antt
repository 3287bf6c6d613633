-- ===== src/Examples/Library.antt =====
-- The theorems about files and riders at concrete inputs.
use obnc.Prelude.{
  ℕ, ◌≡◌, refl, Bool, true, false, none, some, [], ◌∷◌, ◌++◌, Bytes, codes, take, drop, ◌==◌, ok,
  arith,
}
use obnc.Prelude.Int.{pos, negsuc}
use obnc.Runtime.{terminated}
use obnc.Library.Disk.{
  Mode, Disk, set_contents, set_handle, handle_of, stream_of, new_file, temporary_file, new_unnamed,
  new, register, text_of,
}
use obnc.Library.Disk.Sound.{IsSound}
use obnc.Library.Disk.Reachable.{new_step, write_step, Reaches, done, next, Reaches-IsSound}
use obnc.Library.Disk.Registering.{register-contents}
use obnc.Library.Riders.{
  Rider, rider_stream, advance, put_bytes, overwritten, zeros, read_string, write_string,
  read_bytes, write_bytes,
}
use obnc.Library.Riders.Overwrite.{both, beyond, written}
use obnc.Library.Riders.Objects.{read_string-write_string, read_bytes-write_bytes}
use obnc.Library.Numbers.{write_num, read_num}
use obnc.Library.Numbers.Files.{read_num-write_num}

abbrev allowed : Bytes → Mode → Bool
allowed _ _ = true

-- No file at all.
abbrev bare : Disk
bare = record {
  inodes = 0;
  contents = λ _. [];
  directory = λ _. none;
  handles = 0;
  handle = λ _. record { stream = none; name = []; registered = false };
}

bare-IsSound : IsSound bare
bare-IsSound = record {
  names = λ n i e. absurd (ground (arith, e));
  streams = λ f s e. absurd (ground (arith, e));
  unnamed = λ f s n i r e m. absurd (ground (arith, m));
}

-- A new file, of which a handle is the first.
abbrev created : Disk
created = (new_unnamed allowed (codes "a") bare).1

abbrev start : Rider
start = record { eof = false; res = pos 0; base = 1; position = 0 }

abbrev filled : Disk
filled = written 1 (codes "xyz") start created

filled-Reaches : Reaches allowed bare filled
unfolding new text_of terminated new_unnamed new_file temporary_file set_handle set_contents
    put_bytes rider_stream stream_of handle_of advance overwritten zeros drop take
filled-Reaches = next bare created filled (new_step (codes "a" ++ 0 ∷ []) (1, created) refl) (
    next created filled filled
      (write_step 2147483647 (codes "xyz") start (true, beyond 3 start, filled) refl) (done filled))

Reaches-IsSound_example : IsSound filled
Reaches-IsSound_example = Reaches-IsSound allowed bare filled filled-Reaches bare-IsSound

filled-IsSound : IsSound filled
filled-IsSound = Reaches-IsSound allowed bare filled filled-Reaches bare-IsSound

register-contents_example :
    (d' : Disk) × (i : ℕ) × (register allowed 1 filled ≡ ok d')
    × (d'.directory (codes "a") ≡ some i)
    × (d'.contents i ≡ codes "xyz")
    × ((j : ℕ) → filled.directory (codes "a") ≡ some j → i ≡ j)
    × ((j : ℕ) → (j == i) ≡ false → d'.contents j ≡ filled.contents j)
unfolding new_unnamed new_file temporary_file set_handle set_contents overwritten zeros drop take
register-contents_example =
    register-contents allowed 1 (both 1) filled filled-IsSound refl refl refl refl

-- A handle's stream.
opened : rider_stream start created ≡ ok (both 1)
unfolding new_unnamed new_file temporary_file set_handle set_contents rider_stream stream_of
    handle_of
opened = refl

read_string-write_string_example :
    (d' : Disk) × (write_string 2147483647 (codes "ab" ++ 0 ∷ 9 ∷ []) start created
      ≡ ok (true, beyond 3 start, d'))
    × (read_string 2147483647 10 start d' ≡ ok (some (codes "ab"), beyond 3 start))
unfolding text_of terminated
read_string-write_string_example =
    read_string-write_string 2147483647 1 10 (codes "ab" ++ 0 ∷ 9 ∷ []) start created refl
      (omega arith) opened (omega arith)

read_bytes-write_bytes_example :
    (d' : Disk) × (write_bytes 2147483647 (codes "abcd") 3 start created
      ≡ ok (true, record (beyond 3 start) { res = pos 0 }, d'))
    × (read_bytes 2147483647 5 3 start d'
        ≡ ok (codes "abc", record (beyond 3 start) { res = pos 0 }))
unfolding take
read_bytes-write_bytes_example =
    read_bytes-write_bytes 2147483647 1 3 5 (codes "abcd") start created (omega arith) (omega arith)
      opened (omega arith)

-- A number above the limit, and one below.
read_num-write_num_example :
    (r' : Rider) × (d' : Disk) × (write_num 2147483647 32 (negsuc 1879048191) start created
      ≡ ok (true, r', d'))
    × (read_num 2147483647 start d' ≡ ok (some (negsuc 1879048191), r'))
read_num-write_num_example =
    read_num-write_num 2147483647 1 32 (omega arith) (negsuc 1879048191) start created (omega arith)
      (omega arith, omega arith) opened (omega arith)
