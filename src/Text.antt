-- ===== src/Text.antt =====
-- src/Util.c, src/Paths.c and src/ModulePaths.c: file names and texts.
-- A C string is the list of its bytes. What the functions make with `Util_String` and a format of
-- `%s` alone is the concatenation of the parts. The POSIX variant of the code is modelled.
pub mod Replace
pub mod Paths
pub mod ShellArg
pub mod Modules
pub mod Split
use obnc.Prelude.{
  ℕ, zero, suc, ◌+◌, ◌*◌, ◌%◌, Bool, true, false, not, ◌&&◌, ◌||◌, Option, none, some, List, [],
  ◌∷◌, ◌++◌, Bytes, codes, bytes_eq, length, leb, ltb, ◌==◌, if◌then◌else◌, Result, ok, ◌>>=◌,
  ◌or_else◌,
}
use mathlib.Core.List.{reverse}

-- `strstr(s, old) == s`
unfoldable pub starts_with : Bytes → Bytes → Bool
starts_with [] s = true
starts_with (a ∷ old) [] = false
starts_with (a ∷ old) (b ∷ s) = (a == b) && starts_with old s

-- The number of places where `strstr` finds `old`, which the first loop of `Util_Replace` counts. For
-- an empty `old` the C code reads behind the text; the compiler has no such call.
unfoldable pub occurrences : Bytes → Bytes → ℕ
occurrences old [] = if starts_with old [] then 1 else 0
occurrences old (c ∷ s) = (if starts_with old (c ∷ s) then 1 else 0) + occurrences old s

-- The second loop, from the position `i` on.
unfoldable pub replace_loop : Bytes → Bytes → Bytes → Bytes
replace_loop old new [] = []
replace_loop old new (c ∷ s) =
    (if starts_with old (c ∷ s) then new else c ∷ []) ++ replace_loop old new s

-- `Util_Replace`, and the size of the buffer that it allocates.
unfoldable pub replace : Bytes → Bytes → Bytes → Bytes
replace old new s = if occurrences old s == 0 then s else replace_loop old new s

unfoldable pub replace_buffer : Bytes → Bytes → Bytes → ℕ
replace_buffer old new s = length s + occurrences old s * length new + 1

-- `Paths_Absolute`
unfoldable pub absolute : Bytes → Bool
absolute [] = false
absolute (c ∷ _) = c == b'/'

unfoldable pub is_separator : ℕ → Bool
is_separator c = (c == b'/') || (c == b'\\')

unfoldable pub starts_separator : Bytes → Bool
unfolding is_separator
starts_separator [] = false
starts_separator (c ∷ _) = is_separator c

-- The loop of `Paths_Suffix`, from the end of the path. `rev` is what lies before, the last byte
-- first, and `tail` what was passed. The result is the suffix.
unfoldable pub suffix_loop : Bytes → Bytes → Bytes
unfolding is_separator starts_separator
suffix_loop [] tail = []
suffix_loop (c ∷ rev) tail =
    let rest = suffix_loop rev (c ∷ tail) in
    if (c == b'.') || is_separator c
    then (if (c == b'.') && not (bytes_eq rev []) && not (starts_separator rev)
        then c ∷ tail
        else [])
    else rest

unfoldable pub suffix : Bytes → Bytes
unfolding suffix_loop
suffix path = suffix_loop (reverse path) []

-- The text up to the first dot, where `strchr` finds it and a null is written.
unfoldable pub before_dot : Bytes → Bytes
before_dot [] = []
before_dot (c ∷ s) = if c == b'.' then [] else c ∷ before_dot s

-- `Paths_SansSuffix`, given the C library's `basename`.
unfoldable pub sans_suffix : (Bytes → Bytes) → Bytes → Bytes
unfolding before_dot
sans_suffix basename path = before_dot (basename path)

-- The loop of `Paths_ShellArg`: whether it stops before the end. `is_space` is `isspace` of a char,
-- which aborts where C does not define it: for a negative char.
unfoldable pub has_space : (ℕ → Result Bool) → Bytes → Result Bool
has_space is_space [] = ok false
has_space is_space (c ∷ s) = is_space c or_else has_space is_space s

abbrev pub quote : ℕ
quote = b'\''

abbrev pub double_quote : ℕ
double_quote = 34

-- How a single quote is written inside single quotes: '"'"'
abbrev pub quoted_quote : Bytes
quoted_quote = quote ∷ double_quote ∷ quote ∷ double_quote ∷ quote ∷ []

unfoldable pub shell_arg : (ℕ → Result Bool) → Bytes → Result Bytes
shell_arg is_space s = do
  stops ← has_space is_space s
  ok (if stops then quote ∷ (replace (quote ∷ []) quoted_quote s ++ quote ∷ []) else s)
