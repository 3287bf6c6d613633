-- ===== src/Prelude/Runs.antt =====
-- Runs of C functions: a value, a failed `assert` (or a use of NULL), a loop that is cut off, or an
-- error message and `exit(EXIT_FAILURE)`.

use mathlib.Core.Bool.{Bool, true, false}

pub data Result {ℓ} (A : Type ℓ) : Type ℓ where
  ok : A → Result A
  abort : Result A
  diverge : Result A
  halts : Result A

infixl 5 ◌>>=◌ ◌>>◌
abbrev pub ◌>>=◌ {ℓ κ} : {A : Type ℓ} {B : Type κ} → Result A → (A → Result B) → Result B
ok a >>= f = f a
abort >>= f = abort
diverge >>= f = diverge
halts >>= f = halts

abbrev pub ◌>>◌ {ℓ} : {B : Type ℓ} → Result (Unit {0}) → Result B → Result B
m >> k = m >>= λ _. k

-- `assert(b)`
abbrev pub assert : Bool → Result (Unit {0})
assert true = ok tt
assert false = abort

-- `a && b` and `a || b`, where `b` is run only if `a` does not decide.
infixl 35 ◌and_also◌
infixl 30 ◌or_else◌
abbrev pub ◌and_also◌ : Result Bool → Result Bool → Result Bool
ok true and_also r = r
ok false and_also r = ok false
abort and_also r = abort
diverge and_also r = diverge
halts and_also r = halts

abbrev pub ◌or_else◌ : Result Bool → Result Bool → Result Bool
ok true or_else r = ok true
ok false or_else r = r
abort or_else r = abort
diverge or_else r = diverge
halts or_else r = halts
