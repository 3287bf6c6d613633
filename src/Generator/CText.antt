-- ===== src/Generator/CText.antt =====
-- What string literals and character constants of C mean (ISO 9899:1999, 6.4.4.4 and 6.4.5), of the
-- escapes only \', \", \\ and \x, and without trigraphs. Adjacent string literals are one text.
use obnc.Prelude.{
  ℕ, ◌+◌, ◌-◌, ◌*◌, ◌&&◌, ◌||◌, Option, none, some, [], ◌∷◌, Bytes, leb, ◌==◌, if◌then◌else◌,
}
use obnc.Generator.Literals.{double_quote, single_quote, backslash}

-- Where a byte stands: between two literals, in one, behind a backslash, behind \x, or behind some
-- hexadecimal digits with their value.
pub data Place : Type 0 where
  between inside escape hex_start : Place
  hex : ℕ → Place

abbrev pub cons : ℕ → Option Bytes → Option Bytes
cons c none = none
cons c (some s) = some (c ∷ s)

abbrev pub hex_value : ℕ → Option ℕ
hex_value c =
    if leb 48 c && leb c 57
    then some (c - 48)
    else if leb 97 c && leb c 102
    then some (c - 87)
    else if leb 65 c && leb c 70
    then some (c - 55)
    else none

-- The text between two quotes `q`, with what follows the closing one left to `between`; a newline ends
-- no literal.
unfoldable pub c_text : ℕ → Place → Bytes → Option Bytes
c_text q between [] = some []
c_text q inside [] = none
c_text q escape [] = none
c_text q hex_start [] = none
c_text q (hex v) [] = none
c_text q between (c ∷ s) =
    let opened = c_text q inside s in
    let rest = c_text q between s in if c == q then opened else if c == 32 then rest else none
c_text q inside (c ∷ s) =
    let closed = c_text q between s in
    let escaped = c_text q escape s in
    let rest = c_text q inside s in
    if c == q
    then closed
    else if c == backslash
    then escaped
    else if c == 10
    then none
    else cons c rest
c_text q escape (c ∷ s) =
    let rest = c_text q inside s in
    let digits = c_text q hex_start s in
    if (c == double_quote) || ((c == single_quote) || (c == backslash))
    then cons c rest
    else if c == 120
    then digits
    else none
c_text q hex_start (c ∷ s) =
    let more = λ (d : ℕ). c_text q (hex d) s in elim (hex_value c) [ none ↦ none | some d ↦ more d ]
c_text q (hex v) (c ∷ s) =
    let closed = c_text q between s in
    let escaped = c_text q escape s in
    let rest = c_text q inside s in
    let more = λ (d : ℕ). c_text q (hex (v * 16 + d)) s in
    let byte = λ (o : Option Bytes). if leb v 255 then cons v o else none in
    elim (hex_value c) [
      | some d ↦ more d
      | none ↦
          (if c == q
            then byte closed
            else if c == backslash
            then byte escaped
            else if c == 10
            then none
            else byte (cons c rest))
    ]
