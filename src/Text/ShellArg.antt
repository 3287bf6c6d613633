-- ===== src/Text/ShellArg.antt =====
-- `Paths_ShellArg`: a text with white space is quoted so that the shell reads it back.
use obnc.Prelude.{
  ℕ, ◌≡◌, refl, Bool, true, false, ◌||◌, Option, none, some, [], ◌∷◌, ◌++◌, arith, Bytes, codes,
  ◌==◌, if◌then◌else◌, Bool-cases, inl, inr, Result, ok, leb, ◌&&◌,
}
use obnc.Text.{has_space, replace, quote, double_quote, quoted_quote, shell_arg}
use obnc.Text.Replace.{substitute, replace-substitute}

-- The shell's quotes: inside single quotes each byte stands for itself; inside double quotes each
-- but dollar, backquote and backslash; outside, each that has no meaning of its own.
pub data Mode : Type 0 where
  plain single double : Mode

abbrev is_active : ℕ → Bool
is_active c = (c == b'$') || (c == b'`') || (c == b'\\')

abbrev one_of : ℕ → Bytes → Bool
one_of c [] = false
one_of c (x ∷ s) = (c == x) || one_of c s

-- What separates words.
abbrev is_blank : ℕ → Bool
is_blank c = (c == 32) || (leb 9 c && leb c 13)

unfoldable pub is_special : ℕ → Bool
is_special c = is_blank c || one_of c (codes "|&;<>()$`\\*?[#~=%{}!")

abbrev prepend : ℕ → Option Bytes → Option Bytes
prepend c none = none
prepend c (some s) = some (c ∷ s)

-- The text of the one word that the shell reads, if it is one literal word.
unfoldable pub unquote : Mode → Bytes → Option Bytes
unquote plain [] = some []
unquote single [] = none
unquote double [] = none
unquote plain (c ∷ s) =
    let in_single = unquote single s in
    let in_double = unquote double s in
    let rest = unquote plain s in
    if c == quote
    then in_single
    else if c == double_quote
    then in_double
    else if is_special c
    then none
    else prepend c rest
unquote single (c ∷ s) =
    let out = unquote plain s in
    let rest = unquote single s in if c == quote then out else prepend c rest
unquote double (c ∷ s) =
    let out = unquote plain s in
    let rest = unquote double s in
    if c == double_quote then out else if is_active c then none else prepend c rest

unquote-single :
    (s : Bytes) → unquote single (substitute quote quoted_quote s ++ quote ∷ []) ≡ some s
unfolding unquote
unquote-single [] = refl
unquote-single (c ∷ s) = elim (Bool-cases (quote == c)) [
  | inl e ↦ let is : quote ≡ c = ground arith in rw (← is) (rw (unquote-single s))
  | inr e ↦ let other : (c == quote) ≡ false = ground arith in rw (e, other, unquote-single s)
]

unquote_open :
    (s : Bytes) → unquote plain (quote ∷ (substitute quote quoted_quote s ++ quote ∷ [])) ≡ some s
unfolding unquote
unquote_open s = unquote-single s

-- For every text in which the loop finds white space, whatever `isspace` is: `Paths_ShellArg` makes an
-- argument, and the shell reads it as one word, which is the text, quotes and all special bytes
-- included.
pub unquote-shell_arg :
    (is_space : ℕ → Result Bool) (s : Bytes)
    → has_space is_space s ≡ ok true
    → (arg : Bytes) × (shell_arg is_space s ≡ ok arg) × (unquote plain arg ≡ some s)
unfolding shell_arg
unquote-shell_arg is_space s h = (
  quote ∷ (replace (quote ∷ []) quoted_quote s ++ quote ∷ []),
  rw h refl,
  rw replace-substitute (unquote_open s),
)
