-- ===== src/Range/Bounds.antt =====
-- The checks of shift counts, bit positions, characters, bytes and set elements.
use obnc.Prelude.{ℕ, ◌-◌, ◌≡◌, ◌↔◌, arith}
use obnc.Prelude.Int.{ℤ, pos, ◌≤ℤ◌, ◌<ℤ◌}
use obnc.Range.{
  silent, warns, exits, above, below, uchar_max, check_lsl, check_asr, check_ror, check_bit,
  check_chr, check_byte, check_set_element,
}

abbrev pub Between : ℕ → ℕ → ℤ → Type 0
Between low high n = (pos low ≤ℤ n) × (n ≤ℤ pos high)

-- For every integer width and count: the checks of LSL, ASR and BIT are silent exactly for 0 to
-- the width less 1, and the check of ROR exactly for 1 to the width less 1.
shift_checks-silent_iff :
    (bits : ℕ) (n : ℤ)
    → ((check_lsl bits n ≡ silent) ↔ Between 0 (bits - 1) n)
      × ((check_asr bits n ≡ silent) ↔ Between 0 (bits - 1) n)
      × ((check_ror bits n ≡ silent) ↔ Between 1 (bits - 1) n)
      × ((check_bit bits n ≡ silent) ↔ Between 0 (bits - 1) n)
unfolding check_lsl check_asr check_ror check_bit
shift_checks-silent_iff bits n = ground arith

-- For every value: CHR and BYTE checks are silent exactly for 0 to 255, where BYTE ends the
-- compiler and CHR only warns; a negative set element ends the compiler, one above the last bit
-- only warns, and the others pass.
value_checks_iff :
    (bits : ℕ) (n : ℤ)
    → ((check_chr n ≡ silent) ↔ Between 0 uchar_max n)
      × ((check_byte n ≡ silent) ↔ Between 0 uchar_max n)
      × ((check_byte n ≡ exits above) ↔ (pos uchar_max <ℤ n))
      × ((check_set_element bits n ≡ exits below) ↔ (n <ℤ pos 0))
      × ((check_set_element bits n ≡ warns above) ↔ (pos (bits - 1) <ℤ n))
      × ((check_set_element bits n ≡ silent) ↔ Between 0 (bits - 1) n)
unfolding check_chr check_byte check_set_element
value_checks_iff bits n = ground arith
