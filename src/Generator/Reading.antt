-- ===== src/Generator/Reading.antt =====
-- How `c_text` reads a text, byte for byte.
use obnc.Prelude.{
  ℕ, ◌+◌, ◌*◌, ◌/◌, ◌%◌, ◌≤◌, ◌<◌, ◌≡◌, ◌∙◌, refl, ap, true, false, ◌||◌, none, some, [], ◌∷◌, ◌++◌,
  Bytes, leb, ◌==◌, arith,
}
use obnc.Generator.Literals.{double_quote, single_quote, backslash, lower_digit, hex_escape}
use obnc.Generator.CText.{between, inside, escape, hex_start, hex, cons, hex_value, c_text}

pub hex_value-lower_digit : (d : ℕ) → d < 16 → hex_value (lower_digit d) ≡ some d
unfolding lower_digit
hex_value-lower_digit d small = ground arith

pub at_quote : (q : ℕ) (s : Bytes) → c_text q inside (q ∷ s) ≡ c_text q between s
unfolding c_text
at_quote q s = (let same : (q == q) ≡ true = ground arith in rw same refl)

pub at_char :
    (q c : ℕ) (s : Bytes)
    → (c == q) ≡ false
    → (c == backslash) ≡ false
    → (c == 10) ≡ false
    → c_text q inside (c ∷ s) ≡ cons c (c_text q inside s)
unfolding c_text
at_char q c s no_quote no_backslash no_newline = rw (no_quote, no_backslash, no_newline) refl

pub at_backslash :
    (q : ℕ) (s : Bytes)
    → (backslash == q) ≡ false
    → c_text q inside (backslash ∷ s) ≡ c_text q escape s
unfolding c_text
at_backslash q s other = rw other refl

pub at_escaped :
    (q c : ℕ) (s : Bytes)
    → ((c == double_quote) || ((c == single_quote) || (c == backslash))) ≡ true
    → c_text q escape (c ∷ s) ≡ cons c (c_text q inside s)
unfolding c_text
at_escaped q c s special = rw special refl

pub at_x : (q : ℕ) (s : Bytes) → c_text q escape (b'x' ∷ s) ≡ c_text q hex_start s
unfolding c_text
at_x q s = refl

pub at_high :
    (q c d : ℕ) (s : Bytes) → hex_value c ≡ some d → c_text q hex_start (c ∷ s) ≡ c_text q (hex d) s
unfolding c_text
at_high q c d s digit = rw (c_text, digit) refl

pub at_low :
    (q v c d : ℕ) (s : Bytes)
    → hex_value c ≡ some d
    → c_text q (hex v) (c ∷ s) ≡ c_text q (hex (v * 16 + d)) s
unfolding c_text
at_low q v c d s digit = rw (c_text, digit) refl

pub at_hex_end :
    (q v : ℕ) (s : Bytes)
    → hex_value q ≡ none
    → v ≤ 255
    → c_text q (hex v) (q ∷ s) ≡ cons v (c_text q between s)
unfolding c_text
at_hex_end q v s no_digit small =
    let same : (q == q) ≡ true = ground arith in
    let byte : leb v 255 ≡ true = ground arith in rw (c_text, no_digit, same, byte) refl

-- The space between two literals.
pub at_gap :
    (s : Bytes)
    → c_text double_quote between (b' ' ∷ double_quote ∷ s) ≡ c_text double_quote inside s
unfolding c_text
at_gap s = refl

-- A byte that a hexadecimal escape names, in front of the closing quote.
pub c_text-hex_escape :
    (q c : ℕ) (s : Bytes)
    → c < 256
    → hex_value q ≡ none
    → (backslash == q) ≡ false
    → c_text q inside (hex_escape c ++ q ∷ s) ≡ cons c (c_text q between s)
unfolding hex_escape
c_text-hex_escape q c s small no_digit other =
    let high = lower_digit (c / 16) in
    let low = lower_digit (c % 16) in
    let whole : c / 16 * 16 + c % 16 ≡ c = omega arith in
    at_backslash q (b'x' ∷ high ∷ low ∷ q ∷ s) other
    ∙ at_x q (high ∷ low ∷ q ∷ s)
    ∙ at_high q high (c / 16) (low ∷ q ∷ s) (hex_value-lower_digit (c / 16) (omega arith))
    ∙ at_low q (c / 16) low (c % 16) (q ∷ s) (hex_value-lower_digit (c % 16) (omega arith))
    ∙ ap (λ v. c_text q (hex v) (q ∷ s)) whole
    ∙ at_hex_end q c s no_digit (omega arith)

pub at_start : (q : ℕ) (s : Bytes) → c_text q between (q ∷ s) ≡ c_text q inside s
unfolding c_text
at_start q s = (let same : (q == q) ≡ true = ground arith in rw same refl)

pub at_end : (q : ℕ) → c_text q between [] ≡ some []
unfolding c_text
at_end q = refl
