-- ===== src/Examples/Texts.antt =====
-- The texts and paths of the compiler at concrete inputs.
use obnc.Prelude.{
  ℕ, Result, ok, abort, leb, ◌&&◌, ◌||◌, ◌==◌, if◌then◌else◌, ◌+◌, ◌≡◌, Bool, some, [], ◌∷◌, Bytes,
  codes, bytes_eq, length, All, refl,
}
use obnc.Text.{occurrences, starts_with, has_space, replace, replace_loop, shell_arg}
use obnc.Text.Replace.{substitute, replace-substitute}
use obnc.Text.ShellArg.{plain, unquote, unquote-shell_arg}
use obnc.Text.Split.{path_separator, char_count, split, join, split-join}

replace-substitute_example :
    replace (codes "/") (codes "::") (codes "a/b") ≡ substitute b'/' (codes "::") (codes "a/b")
replace-substitute_example = replace-substitute b'/' (codes "::") (codes "a/b")

-- "ab" in "abc" by "x" gives "xbc".
replace_two_bytes : replace (codes "ab") (codes "x") (codes "abc") ≡ codes "xbc"
unfolding replace occurrences replace_loop starts_with
replace_two_bytes = refl

-- A function of the C locale where char is signed: no negative char has a value.
abbrev of_char : (ℕ → Bool) → ℕ → Result Bool
of_char f c = if leb 128 c then abort else ok (f c)

abbrev c_space : ℕ → Result Bool
c_space = of_char λ c. (c == 32) || (leb 9 c && leb c 13)

abbrev c_upper : ℕ → Result Bool
c_upper = of_char λ c. leb b'A' c && leb c b'Z'

unquote-shell_arg_example :
    (arg : Bytes) × (shell_arg c_space (codes "it's 5") ≡ ok arg)
    × (unquote plain arg ≡ some (codes "it's 5"))
unfolding has_space
unquote-shell_arg_example = unquote-shell_arg c_space (codes "it's 5") refl

-- A byte of UTF-8 is a negative char.
shell_arg_utf8 : shell_arg c_space (195 ∷ 164 ∷ []) ≡ abort
unfolding shell_arg has_space
shell_arg_utf8 = refl

split-join_example :
    (join (split (codes "a::b") path_separator) ≡ codes "a::b")
    × (length (split (codes "a::b") path_separator) ≡ char_count path_separator (codes "a::b") + 1)
    × All (λ p. char_count path_separator p ≡ 0) (split (codes "a::b") path_separator)
split-join_example = split-join (codes "a::b")

-- A file system with one file.
abbrev one_file : Bytes → Bool
one_file f = bytes_eq f (codes "lib/M.Mod")
