-- ===== src/Table/Numbers.antt =====
-- What the writer prints of a number, the reader scans back.
use obnc.Prelude.{
  ℕ, zero, suc, ◌+◌, ◌*◌, ◌/◌, ◌%◌, ◌≤◌, ◌<◌, ◌≡◌, ◌∙◌, refl, ap, true, false, [], ◌∷◌, ◌++◌, arith,
  Bytes, codes, ◌==◌, ok, Bool-cases, inl, inr,
}
use obnc.Prelude.Int.{ℤ, pos, negsuc}
use obnc.Range.{InRange}
use obnc.Table.Scan.{
  is_space, skip_space, is_digit, digits, starts_digit, sign, scan_int, scan_unsigned, is_hex,
  hex_value_of, hex_digits, starts_hex, hex_prefix, scan_hex,
}
use obnc.Table.Writer.{
  print_digits, decimal_digit, upper_hex_digit, print_nat, print_int, print_hex,
}

print_digits-append :
    (f base : ℕ) (digit : ℕ → ℕ) (n : ℕ) (tail rest : Bytes)
    → print_digits f base digit n tail ++ rest ≡ print_digits f base digit n (tail ++ rest)
unfolding print_digits
print_digits-append zero base digit n tail rest = refl
print_digits-append (suc f) base digit n tail rest = elim (Bool-cases (n / base == 0)) [
  | inl e ↦ rw e
  | inr e ↦ rw e (print_digits-append f base digit (n / base) (digit (n % base) ∷ tail) rest)
]

digit_is_digit : (n : ℕ) → is_digit (decimal_digit (n % 10)) ≡ true
unfolding is_digit
digit_is_digit n = ground arith

digits-print_digits :
    (f n : ℕ) (tail : Bytes)
    → n < f
    → digits 0 (print_digits f 10 decimal_digit n tail) ≡ digits n tail
unfolding digits print_digits
digits-print_digits zero n tail lt = absurd (omega arith)
digits-print_digits (suc f) n tail lt = elim (Bool-cases (n / 10 == 0)) [
  | inl e ↦ rw (e, digit_is_digit n) (ap (λ m. digits m tail) (ground arith))
  | inr e ↦ rw e (
      digits-print_digits f (n / 10) (decimal_digit (n % 10) ∷ tail) (ground arith)
      ∙ rw (digit_is_digit n) (ap (λ m. digits m tail) (ground arith)))
]

starts_digit-print_digits :
    (f n : ℕ) (tail : Bytes) → starts_digit (print_digits (suc f) 10 decimal_digit n tail) ≡ true
unfolding starts_digit print_digits
starts_digit-print_digits zero n tail = elim (Bool-cases (n / 10 == 0)) [
  | inl e ↦ rw e (digit_is_digit n)
  | inr e ↦ rw e (digit_is_digit n)
]
starts_digit-print_digits (suc f) n tail = elim (Bool-cases (n / 10 == 0)) [
  | inl e ↦ rw e (digit_is_digit n)
  | inr e ↦ rw e (starts_digit-print_digits f (n / 10) (decimal_digit (n % 10) ∷ tail))
]

-- What follows a number ends it.
abbrev pub Ends : Bytes → Type 0
Ends rest = starts_digit rest ≡ false

digits-Ends : (n : ℕ) (rest : Bytes) → Ends rest → digits n rest ≡ (n, rest)
unfolding digits starts_digit
digits-Ends n [] h = refl
digits-Ends n (c ∷ s) h = rw h

plain_start : (s : Bytes) → starts_digit s ≡ true → (skip_space s ≡ s) × (sign s ≡ (false, s))
unfolding starts_digit is_digit skip_space sign is_space
plain_start [] h = absurd (cc)
plain_start (c ∷ s) h = ground arith

print_nat-rest :
    (n : ℕ) (rest : Bytes) → print_nat n ++ rest ≡ print_digits (suc n) 10 decimal_digit n rest
unfolding print_nat
print_nat-rest n rest = print_digits-append (suc n) 10 decimal_digit n [] rest

pub scan_nat :
    (n : ℕ) (rest : Bytes)
    → Ends rest
    → let s = print_nat n ++ rest in
      (skip_space s ≡ s)
      × (sign s ≡ (false, s))
      × (starts_digit s ≡ true)
      × (digits 0 s ≡ (n, rest))
scan_nat n rest h =
    let start = starts_digit-print_digits n n rest in
    let (spaces, signs) = plain_start _ start in
    rw (print_nat-rest n rest) (
      spaces,
      signs,
      start,
      digits-print_digits (suc n) n rest (omega arith) ∙ digits-Ends n rest h,
    )

minus : (s : Bytes) → (skip_space (b'-' ∷ s) ≡ b'-' ∷ s) × (sign (b'-' ∷ s) ≡ (true, s))
unfolding skip_space sign is_space
minus s = (refl, refl)

-- For an integer of the type and any rest of the file that does not begin with a digit: `%d` reads
-- back what `%d` wrote, behind a space or not.
pub scan_int-print_int :
    (max : ℕ) (v : ℤ) (rest : Bytes)
    → InRange max v
    → Ends rest
    → (scan_int max (print_int v ++ rest) ≡ ok (v, rest))
      × (scan_int max (b' ' ∷ (print_int v ++ rest)) ≡ ok (v, rest))
unfolding scan_int print_int skip_space is_space
scan_int-print_int max (pos n) rest r h =
    let (spaces, signs, start, value) = scan_nat n rest h in
    rw (spaces, signs, start, value) (ground arith, ground arith)
scan_int-print_int max (negsuc n) rest r h =
    let (_, _, start, value) = scan_nat (suc n) rest h in
    rw ((minus (print_nat (suc n) ++ rest)).1, start, value) (ground arith, ground arith)

-- For a number of the unsigned type: likewise for `%u`.
pub scan_unsigned-print_nat :
    (max n : ℕ) (rest : Bytes)
    → n ≤ 2 * max + 1
    → Ends rest
    → scan_unsigned max (b' ' ∷ (print_nat n ++ rest)) ≡ ok (n, rest)
unfolding scan_unsigned skip_space is_space
scan_unsigned-print_nat max n rest le h =
    let (spaces, signs, start, value) = scan_nat n rest h in
    rw (spaces, signs, start, value) (ground arith)

hex_value-digit :
    (n : ℕ)
    → (is_hex (upper_hex_digit (n % 16)) ≡ true)
      × (hex_value_of (upper_hex_digit (n % 16)) ≡ n % 16)
unfolding hex_value_of is_hex is_digit
hex_value-digit n = ground arith

hex_digits-print_digits :
    (f n : ℕ) (tail : Bytes)
    → n < f
    → hex_digits 0 (print_digits f 16 upper_hex_digit n tail) ≡ hex_digits n tail
unfolding hex_digits print_digits
hex_digits-print_digits zero n tail lt = absurd (omega arith)
hex_digits-print_digits (suc f) n tail lt = elim (Bool-cases (n / 16 == 0)) [
  | inl e ↦
      rw (e, (hex_value-digit n).0, (hex_value-digit n).1)
        (ap (λ m. hex_digits m tail) (ground arith))
  | inr e ↦ rw e (
      hex_digits-print_digits f (n / 16) (upper_hex_digit (n % 16) ∷ tail) (ground arith)
      ∙ rw ((hex_value-digit n).0, (hex_value-digit n).1)
          (ap (λ m. hex_digits m tail) (ground arith)))
]

-- The zero in front keeps the first digit from being taken as the letter of a prefix.
no_prefix :
    (f n : ℕ) (tail : Bytes)
    → hex_prefix (b'0' ∷ print_digits (suc f) 16 upper_hex_digit n tail)
      ≡ b'0' ∷ print_digits (suc f) 16 upper_hex_digit n tail
unfolding hex_prefix print_digits
no_prefix zero n tail = ground arith
no_prefix (suc f) n tail = elim (Bool-cases (n / 16 == 0)) [
  | inl e ↦ rw e (ground arith)
  | inr e ↦ rw e (no_prefix f (n / 16) (upper_hex_digit (n % 16) ∷ tail))
]

-- For a byte: what `0%XX` wrote, `%xX` reads back, up to the end of the `X`.
pub scan_hex-print_hex :
    (n : ℕ) (rest : Bytes)
    → n < 256
    → scan_hex (codes "0" ++ (print_hex n ++ (codes "X" ++ rest))) ≡ ok (n, rest)
unfolding scan_hex print_hex skip_space is_space sign starts_hex is_hex is_digit hex_value_of
    hex_digits
scan_hex-print_hex n rest lt =
    let text = print_digits-append (suc n) 16 upper_hex_digit n [] (b'X' ∷ rest) in
    let value : hex_digits 0 (print_digits (suc n) 16 upper_hex_digit n (b'X' ∷ rest))
        ≡ (n, b'X' ∷ rest) =
      hex_digits-print_digits (suc n) n (b'X' ∷ rest) (omega arith) in
    rw (text, no_prefix n n (b'X' ∷ rest), value) (ground arith)
