-- ===== src/Runtime/Hexadecimal.antt =====
-- `OBNC_WriteHex` prints the hexadecimal digits of its argument.
use native.Mathlib.Nat.{pow-suc}
use obnc.Prelude.{
  ℕ, zero, suc, ◌+◌, ◌-◌, ◌*◌, ◌/◌, ◌%◌, ◌^◌, ◌<◌, ◌≡◌, refl, ◌∙◌, ap, [], ◌∷◌, arith, Bytes,
  length, leb, if◌then◌else◌,
}
use obnc.Runtime.{hex_digit, hex_loop, write_hex}

-- The number that hexadecimal digits spell behind `n`.
abbrev digit_value : ℕ → ℕ
digit_value c = if leb b'A' c then c - b'A' + 10 else c - b'0'

abbrev pub hex_value : ℕ → Bytes → ℕ
hex_value n [] = n
hex_value n (c ∷ s) = hex_value (n * 16 + digit_value c) s

hex_digit-value : (d : ℕ) → d < 16 → digit_value (hex_digit d) ≡ d
unfolding hex_digit
hex_digit-value d h = ground arith

hex_loop-value :
    (k n : ℕ) (digits : Bytes) → n < 16 ^ k → hex_value 0 (hex_loop k n digits) ≡ hex_value n digits
unfolding hex_loop
hex_loop-value zero n digits h = let e : n ≡ 0 = omega arith in rw e
hex_loop-value (suc k) n digits h =
    hex_loop-value k (n / 16) (hex_digit (n % 16) ∷ digits) (omega (arith, pow-suc 16 k))
    ∙ rw (hex_digit-value (n % 16) (omega arith)) (ap (λ m. hex_value m digits) (omega arith))

hex_loop-length : (k n : ℕ) (digits : Bytes) → length (hex_loop k n digits) ≡ k + length digits
unfolding hex_loop
hex_loop-length zero n digits = omega arith
hex_loop-length (suc k) n digits =
    omega (arith, hex_loop-length k (n / 16) (hex_digit (n % 16) ∷ digits))

-- For a number below 16 to the `k`: `OBNC_WriteHex` writes a space and exactly `k` digits, which
-- spell the number in base 16.
write_hex-value :
    (k n : ℕ)
    → n < 16 ^ k
    → (ds : Bytes) × (write_hex k n ≡ b' ' ∷ ds) × (length ds ≡ k) × (hex_value 0 ds ≡ n)
unfolding write_hex
write_hex-value k n h =
    (hex_loop k n [], refl, omega (arith, hex_loop-length k n []), hex_loop-value k n [] h)
