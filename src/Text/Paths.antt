-- ===== src/Text/Paths.antt =====
-- `Paths_Suffix` returns an end of the path that is empty or begins with the last dot.
use mathlib.Core.List.{reverse, reverse-reverse, append_assoc, append-nil, reverse-cons}
use obnc.Prelude.{
  ℕ, ◌≡◌, ◌≢◌, refl, sym, ◌∙◌, true, false, not, ◌&&◌, ◌||◌, [], ◌∷◌, ◌++◌, arith, Bytes, All,
  bytes_eq, bytes_eq_iff, ◌==◌, Bool-cases, inl, inr,
}
use obnc.Text.{is_separator, starts_separator, suffix_loop, suffix}

-- A byte of a suffix behind its dot.
abbrev pub IsPlain : ℕ → Type 0
IsPlain c = (c ≢ b'.') × (c ≢ b'/') × (c ≢ b'\\')

-- Nothing, or a dot and plain bytes, behind a byte `front` ends with that is no separator.
abbrev pub IsSuffix : Bytes → Bytes → Type 0
IsSuffix rev [] = Unit
IsSuffix rev (c ∷ s) = (c ≡ b'.') × All IsPlain s × (rev ≢ []) × (starts_separator rev ≡ false)

shift : (c : ℕ) (rev tail : Bytes) → reverse (c ∷ rev) ++ tail ≡ reverse rev ++ (c ∷ tail)
shift c rev tail = rw (reverse-cons, append_assoc)

IsPlain-of : (c : ℕ) → ((c == b'.') || is_separator c) ≡ false → IsPlain c
unfolding is_separator
IsPlain-of c h = ground arith

stops :
    (c : ℕ) (rev tail : Bytes)
    → All IsPlain tail
    → ((c == b'.') && not (bytes_eq rev []) && not (starts_separator rev)) ≡ true
    → IsSuffix rev (c ∷ tail)
stops c rev tail h dot = (ground arith, h, ground (arith, bytes_eq_iff rev []), ground arith)

suffix_loop-IsSuffix :
    (rev tail : Bytes)
    → All IsPlain tail
    → (front : Bytes) × (reverse rev ++ tail ≡ reverse front ++ suffix_loop rev tail)
      × IsSuffix front (suffix_loop rev tail)
unfolding suffix_loop
suffix_loop-IsSuffix [] tail h = (reverse tail, rw (reverse-reverse, append-nil), tt)
suffix_loop-IsSuffix (c ∷ rev) tail h = elim (Bool-cases ((c == b'.') || is_separator c)) [
  | inr go ↦
      let plain : IsPlain c = IsPlain-of c go in
      let (front, e, is) = suffix_loop-IsSuffix rev (c ∷ tail) (plain, h) in
      (front, rw go (shift c rev tail ∙ e), rw go is)
  | inl stop ↦
      elim (Bool-cases ((c == b'.') && not (bytes_eq rev []) && not (starts_separator rev))) [
        | inl dot ↦
            (rev, rw (stop, dot) (shift c rev tail), rw (stop, dot) (stops c rev tail h dot))
        | inr none ↦ (
          reverse (reverse (c ∷ rev) ++ tail),
          rw (stop, none, reverse-reverse, append-nil),
          rw (stop, none) tt,
        )
      ]
]

-- For every path: it is a front and what `Paths_Suffix` returns; that is nothing, or a dot followed
-- by bytes that are neither dots nor separators, and then the front is not empty and does not end
-- with a separator.
suffix-IsSuffix :
    (path : Bytes)
    → (front : Bytes) × (path ≡ reverse front ++ suffix path) × IsSuffix front (suffix path)
unfolding suffix
suffix-IsSuffix path =
    let (front, e, is) = suffix_loop-IsSuffix (reverse path) [] tt in
    (front, sym (rw (reverse-reverse, append-nil) refl) ∙ e, is)
