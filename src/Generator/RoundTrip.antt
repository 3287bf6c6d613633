-- ===== src/Generator/RoundTrip.antt =====
-- The literals of the C program mean what the Oberon program says.
use mathlib.Core.List.{append_assoc}
use obnc.Prelude.{
  ℕ, ◌≤◌, ◌<◌, ◌≡◌, ◌∙◌, inl, inr, refl, ap, Bool, true, false, ◌||◌, Option, some, [], ◌∷◌, ◌++◌,
  Bytes, All, leb, ◌==◌, ok, abort, arith, Bool-cases,
}
use obnc.Generator.Literals.{
  double_quote, single_quote, backslash, hex_escape, string_char, string_chars, string_inside,
  generate_string, generate_char,
}
use obnc.Generator.CText.{between, inside, cons, c_text}
use obnc.Generator.Reading.{
  at_quote, at_char, at_backslash, at_escaped, at_gap, c_text-hex_escape, at_start, at_end,
}

abbrev prepend : Bytes → Option Bytes → Option Bytes
prepend [] o = o
prepend (c ∷ s) o = cons c (prepend s o)

prepend_nil : (s : Bytes) → prepend s (some []) ≡ some s
prepend_nil [] = refl
prepend_nil (c ∷ s) = rw (prepend_nil s) refl

module _ (is_print : ℕ → Bool) (newline : is_print 10 ≡ false) where
  newline_apart : (c : ℕ) → is_print c ≡ true → (c == 10) ≡ false
  newline_apart c print = elim (Bool-cases (c == 10)) [
    | inr other ↦ other
    | inl same ↦
        (let e : c ≡ 10 = ground (arith, same) in absurd (cc (newline, print, ap is_print e)))
  ]

  -- A character of a literal, in front of the rest of it.
  c_text-string_char :
      (c : ℕ) (s : Bytes)
      → c < 256
      → c_text double_quote inside (string_char is_print c ++ s)
        ≡ cons c (c_text double_quote inside s)
  unfolding string_char
  c_text-string_char c s small = elim (Bool-cases (leb c 127)) [
    | inr high ↦
        let q : (c == double_quote) ≡ false = ground arith in
        let b : (c == backslash) ≡ false = ground arith in
        let n : (c == 10) ≡ false = ground arith in rw high (at_char double_quote c s q b n)
    | inl ascii ↦ elim (Bool-cases (is_print c)) [
      | inr control ↦
          rw (ascii, control)
            (at_quote double_quote (
                b' ' ∷ double_quote ∷ (hex_escape c ++ double_quote ∷ b' ' ∷ double_quote ∷ [])
                ++ s)
              ∙ at_gap ((hex_escape c ++ double_quote ∷ b' ' ∷ double_quote ∷ []) ++ s)
              ∙ rw (append_assoc (hex_escape c) (double_quote ∷ b' ' ∷ double_quote ∷ []) s)
                  (c_text-hex_escape double_quote c (b' ' ∷ double_quote ∷ s) small refl refl)
              ∙ ap (cons c) (at_gap s))
      | inl print ↦ elim (Bool-cases ((c == double_quote) || (c == backslash))) [
        | inl special ↦
            let known : ((c == double_quote) || ((c == single_quote) || (c == backslash))) ≡ true =
              ground (arith, special) in
            rw (ascii, print, special)
              (at_backslash double_quote (c ∷ s) refl ∙ at_escaped double_quote c s known)
        | inr plain ↦
            let n : (c == 10) ≡ false = newline_apart c print in
            let q : (c == double_quote) ≡ false = ground (arith, plain) in
            let b : (c == backslash) ≡ false = ground (arith, plain) in
            rw (ascii, print, plain) (at_char double_quote c s q b n)
      ]
    ]
  ]

  c_text-string_chars :
      (s rest : Bytes)
      → All (λ c. c < 256) s
      → c_text double_quote inside (string_chars is_print s ++ double_quote ∷ rest)
        ≡ prepend s (c_text double_quote between rest)
  unfolding string_chars
  c_text-string_chars [] rest bytes = at_quote double_quote rest
  c_text-string_chars (c ∷ s) rest bytes =
      rw
        (
          append_assoc (string_char is_print c) (string_chars is_print s) (double_quote ∷ rest),
          c_text-string_char c (string_chars is_print s ++ double_quote ∷ rest) bytes.0,
          c_text-string_chars s rest bytes.1,
        )
        refl

  c_text-string_inside :
      (s : Bytes)
      → All (λ c. c < 256) s
      → c_text double_quote inside (string_inside is_print s ++ double_quote ∷ []) ≡ some s
  unfolding string_inside
  c_text-string_inside [] bytes = at_quote double_quote [] ∙ at_end double_quote
  c_text-string_inside (c ∷ d ∷ s) bytes =
      c_text-string_chars (c ∷ d ∷ s) [] bytes
      ∙ (rw (at_end double_quote) (prepend_nil (c ∷ d ∷ s)))
  c_text-string_inside (c ∷ []) bytes = elim (Bool-cases (leb 128 c)) [
    | inl high ↦
        rw high (
          c_text-hex_escape double_quote c [] bytes.0 refl refl ∙ ap (cons c) (at_end double_quote))
    | inr low ↦
        rw low (
          c_text-string_chars (c ∷ []) [] bytes ∙ (rw (at_end double_quote) (prepend_nil (c ∷ []))))
  ]

  -- GenerateString prints string literals of C that mean its string, for every string of bytes, if
  -- `isprint` rejects the newline.
  pub c_text-generate_string :
      (s : Bytes)
      → All (λ c. c < 256) s
      → c_text double_quote between (generate_string is_print s) ≡ some s
  unfolding generate_string string_inside
  c_text-generate_string s bytes =
      at_start double_quote (string_inside is_print s ++ double_quote ∷ [])
      ∙ c_text-string_inside s bytes

  -- GenerateChar prints a character constant of C that means its character, for every character below
  -- 128, if `isprint` rejects the newline.
  pub c_text-generate_char :
      (c : ℕ)
      → c < 128
      → (b : Bytes) × (generate_char is_print c ≡ ok b)
        × (c_text single_quote between b ≡ some (c ∷ []))
  unfolding generate_char
  c_text-generate_char c small =
      let ascii : leb 128 c ≡ false = ground arith in
      elim (Bool-cases ((c == single_quote) || (c == backslash))) [
        | inl special ↦
            let known : ((c == double_quote) || ((c == single_quote) || (c == backslash))) ≡ true =
              ground (arith, special) in
            (
              single_quote ∷ backslash ∷ c ∷ single_quote ∷ [],
              rw special refl,
              at_start single_quote (backslash ∷ c ∷ single_quote ∷ [])
                  ∙ at_backslash single_quote (c ∷ single_quote ∷ []) refl
                  ∙ at_escaped single_quote c (single_quote ∷ []) known
                  ∙ ap (cons c) (at_quote single_quote [] ∙ at_end single_quote),
            )
        | inr plain ↦ elim (Bool-cases (is_print c)) [
          | inr control ↦ (
            single_quote ∷ (hex_escape c ++ single_quote ∷ []),
            rw (plain, ascii, control) refl,
            at_start single_quote (hex_escape c ++ single_quote ∷ [])
                ∙ c_text-hex_escape single_quote c [] (omega arith) refl refl
                ∙ ap (cons c) (at_end single_quote),
          )
          | inl print ↦
              let n = newline_apart c print in
              let q : (c == single_quote) ≡ false = ground (arith, plain) in
              let b : (c == backslash) ≡ false = ground (arith, plain) in
              (
                single_quote ∷ c ∷ single_quote ∷ [],
                rw (plain, ascii, print) refl,
                at_start single_quote (c ∷ single_quote ∷ [])
                    ∙ at_char single_quote c (single_quote ∷ []) q b n
                    ∙ ap (cons c) (at_quote single_quote [] ∙ at_end single_quote),
              )
        ]
      ]

  -- From 128 on it calls `isprint` where this is undefined.
  generate_char_undefined : (c : ℕ) → 128 ≤ c → generate_char is_print c ≡ abort
  unfolding generate_char
  generate_char_undefined c high =
      let other : ((c == single_quote) || (c == backslash)) ≡ false = ground (arith, high) in
      let outside : leb 128 c ≡ true = ground (arith, high) in rw (other, outside) refl
