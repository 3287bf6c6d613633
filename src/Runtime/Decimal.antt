-- ===== src/Runtime/Decimal.antt =====
-- `OBNC_WriteInt` prints the decimal digits of its argument, within its buffer.
use mathlib.Core.List.{append_assoc, append-nil}
use obnc.Prelude.{
  ℕ, zero, suc, ◌+◌, ◌-◌, ◌*◌, ◌/◌, ◌%◌, ◌^◌, ◌≤◌, ◌<◌, ◌≡◌, refl, ◌∙◌, Bool, false, [], ◌∷◌, ◌++◌,
  arith, Bytes, All, ◌==◌, if◌then◌else◌, Bool-cases, inl, inr, ok, length, ltb, ◌⊎◌,
}
use obnc.Prelude.Int.{ℤ, pos, negsuc, pos_part, neg_part, ltb_ℤ, quot}
use obnc.Runtime.{digit_loop, write_int, padding_loop, padding}
use native.Mathlib.Nat.{pow-suc}

abbrev pub IsDigit : ℕ → Type 0
IsDigit c = (b'0' ≤ c) × (c ≤ b'9')

-- The number that digits spell behind `n`.
abbrev pub value : ℕ → Bytes → ℕ
value n [] = n
value n (c ∷ s) = value (n * 10 + (c - b'0')) s

abbrev pub leads_zero : Bytes → Bool
leads_zero [] = false
leads_zero (c ∷ s) = c == b'0'

abbrev pub magnitude : ℤ → ℕ
magnitude x = pos_part x + neg_part x

-- `ds` is the number `n` in decimal, with a leading zero only for 0 itself.
pub record IsDecimal (n : ℕ) (ds : Bytes) : Type 0 where
  pub digits : All IsDigit ds
  pub spells : value 0 ds ≡ n
  pub leading : leads_zero ds ≡ (n == 0)

value-snoc : (n : ℕ) (ds : Bytes) (c : ℕ) → value n (ds ++ c ∷ []) ≡ value n ds * 10 + (c - b'0')
value-snoc n [] c = refl
value-snoc n (d ∷ ds) c = value-snoc (n * 10 + (d - b'0')) ds c

All-snoc : (ds : Bytes) (c : ℕ) → All IsDigit ds → IsDigit c → All IsDigit (ds ++ c ∷ [])
All-snoc [] c h k = (k, tt)
All-snoc (d ∷ ds) c (h, hs) k = (h, All-snoc ds c hs k)

IsDecimal-snoc :
    (n : ℕ) (ds : Bytes)
    → 0 < n / 10
    → IsDecimal (n / 10) ds
    → IsDecimal n (ds ++ (b'0' + n % 10) ∷ [])
IsDecimal-snoc n [] h d = absurd (omega (arith, d.spells))
IsDecimal-snoc n (c ∷ ds) h d = record {
  digits = All-snoc (c ∷ ds) (b'0' + n % 10) d.digits (omega arith);
  spells = omega (arith, value-snoc 0 (c ∷ ds) (b'0' + n % 10), d.spells);
  leading = ground (arith, d.leading);
}

magnitude-quot : (x : ℤ) → magnitude (quot x (pos 10)) ≡ magnitude x / 10
unfolding quot
magnitude-quot (pos a) = ground arith
magnitude-quot (negsuc a) = ground arith

abbrev last_digit : ℤ → ℕ
last_digit x = b'0' + magnitude x % 10

-- One round, in terms of the magnitude.
digit_loop-suc :
    (room : ℕ) (x : ℤ) (buf : Bytes)
    → digit_loop (suc room) x buf ≡ (
        if magnitude x / 10 == 0
        then ok (last_digit x ∷ buf)
        else digit_loop room (quot x (pos 10)) (last_digit x ∷ buf))
unfolding digit_loop
digit_loop-suc room (pos a) buf = ground arith
digit_loop-suc room (negsuc a) buf = ground arith

IsDecimal-digit : (n : ℕ) → n / 10 ≡ 0 → IsDecimal n ((b'0' + n % 10) ∷ [])
IsDecimal-digit n e = record { digits = omega arith; spells = omega arith; leading = ground arith }

digit_loop-IsDecimal :
    (room : ℕ) (x : ℤ) (buf : Bytes)
    → magnitude x < 10 ^ suc room
    → (ds : Bytes) × (digit_loop (suc room) x buf ≡ ok (ds ++ buf)) × IsDecimal (magnitude x) ds
digit_loop-IsDecimal zero x buf lt =
    let e : magnitude x / 10 ≡ 0 = omega arith in
    (last_digit x ∷ [], ground (arith, digit_loop-suc zero x buf), IsDecimal-digit (magnitude x) e)
digit_loop-IsDecimal (suc room) x buf lt = elim (Bool-cases (magnitude x / 10 == 0)) [
  | inl e ↦ (
    last_digit x ∷ [],
    ground (arith, digit_loop-suc (suc room) x buf),
    IsDecimal-digit (magnitude x) (ground arith),
  )
  | inr e ↦
      let x' = quot x (pos 10) in
      let small : magnitude x' < 10 ^ suc room =
        omega (arith, magnitude-quot x, pow-suc 10 (suc room)) in
      let (ds, run, d) = digit_loop-IsDecimal room x' (last_digit x ∷ buf) small in
      (
        ds ++ last_digit x ∷ [],
        digit_loop-suc (suc room) x buf ∙ rw (e, append_assoc) run,
        IsDecimal-snoc (magnitude x) ds (ground arith) (rw (magnitude-quot x) at d),
      )
]

abbrev pub spaces : ℕ → Bytes
spaces zero = []
spaces (suc n) = b' ' ∷ spaces n

abbrev pub minus : ℤ → Bytes
minus x = if ltb_ℤ x (pos 0) then b'-' ∷ [] else []

-- `k` spaces before `text` fill the width `n`: exactly, or the text alone is as long.
abbrev pub Fills : ℤ → ℕ → Bytes → Type 0
Fills n k text = (k + length text ≡ pos_part n) ⊎ ((k ≡ 0) × (pos_part n ≤ length text))

padding_loop-spaces :
    (n used : ℕ)
    → (k : ℕ) × (padding_loop n used ≡ spaces k) × ((k + used ≡ n) ⊎ ((k ≡ 0) × (n ≤ used)))
unfolding padding_loop
padding_loop-spaces zero used = (0, refl, inr (refl, omega arith))
padding_loop-spaces (suc n) used = elim (Bool-cases (ltb used (suc n))) [
  | inr e ↦ (0, rw e refl, inr (refl, ground arith))
  | inl e ↦
      let (k, run, fills) = padding_loop-spaces n used in
      (suc k, rw (e, run) refl, inl (ground (arith, fills)))
]

padding-spaces :
    (n : ℤ) (used : ℕ)
    → (k : ℕ) × (padding n used ≡ spaces k)
      × ((k + used ≡ pos_part n) ⊎ ((k ≡ 0) × (pos_part n ≤ used)))
unfolding padding
padding-spaces (pos n) used = padding_loop-spaces n used
padding-spaces (negsuc n) used = (0, refl, inr (refl, omega arith))

length-signed :
    (x : ℤ) (ds : Bytes) → length (minus x ++ ds) ≡ length ds + (if ltb_ℤ x (pos 0) then 1 else 0)
length-signed (pos x) ds = ground arith
length-signed (negsuc x) ds = ground arith

-- For an integer of at most as many digits as the buffer has bytes, and every width: the run of
-- `OBNC_WriteInt` does not fail its assertion. It writes a minus sign exactly for a negative number and
-- the decimal digits of its magnitude with no leading zero, and before them as many spaces as fill the
-- width, or none where they are as long as the width.
pub write_int-IsDecimal :
    (size : ℕ) (x n : ℤ)
    → magnitude x < 10 ^ suc size
    → (ds : Bytes) × (k : ℕ) × (write_int (suc size) x n ≡ ok (spaces k ++ (minus x ++ ds)))
      × IsDecimal (magnitude x) ds
      × Fills n k (minus x ++ ds)
unfolding write_int
write_int-IsDecimal size x n lt =
    let (ds, run, d) = digit_loop-IsDecimal size x [] lt in
    let (k, pads, fills) = padding-spaces n (length ds + (if ltb_ℤ x (pos 0) then 1 else 0)) in
    (ds, k, rw (run, append-nil, pads) refl, d, rw (length-signed x ds) fills)
