-- ===== src/Prelude/Ensures.antt =====
-- A postcondition of a run, if the run returns a value; with a rule for each way to build a run.
use mathlib.Core.Path.{◌≡◌, refl, subst}
use mathlib.Core.Bool.{Bool, true, false}
use obnc.Prelude.Runs.{Result, ok, abort, diverge, halts, ◌>>=◌, assert}
use obnc.Prelude.Tests.{if◌then◌else◌}

pub data Ensures {ℓ κ} {A : Type ℓ} (P : A → Type κ) : Result A → Type (ℓ ⊔ κ) where
  holds : {a : A} → P a → Ensures P (ok a)
  aborts : Ensures P abort
  diverges : Ensures P diverge
  halting : Ensures P halts

module _ {ℓ κ} {A : Type ℓ} {P : A → Type κ} where
  pub bind {ι} :
      {B : Type ι} (m : Result B) (f : B → Result A)
      → ((b : B) → m ≡ ok b → Ensures P (f b))
      → Ensures P (m >>= f)
  bind (ok b) f h = h b refl
  bind abort f h = aborts
  bind diverge f h = diverges
  bind halts f h = halting

  pub branch :
      (b : Bool) (x y : Result A)
      → (b ≡ true → Ensures P x)
      → (b ≡ false → Ensures P y)
      → Ensures P (if b then x else y)
  branch true x y p q = p refl
  branch false x y p q = q refl

  pub returned : {r : Result A} (a : A) → Ensures P r → r ≡ ok a → P a
  returned a h e = of_ok (subst (Ensures P) e h)
    where
      of_ok : {a : A} → Ensures P (ok a) → P a
      of_ok (holds p) = p

  pub mono {ι} : {Q : A → Type ι} {r : Result A} → Ensures P r → ((a : A) → P a → Q a) → Ensures Q r
  mono (holds p) f = holds (f _ p)
  mono aborts f = aborts
  mono diverges f = diverges
  mono halting f = halting

-- A chain that returned a value went through its first part.
pub >>=-eq-ok {κ ι} :
    {C : Type κ} {B : Type ι} (run : Result B) (next : B → Result C) {c : C}
    → run >>= next ≡ ok c
    → (b : B) × (next b ≡ ok c) × (run ≡ ok b)
>>=-eq-ok halts next e = cc
>>=-eq-ok diverge next e = cc
>>=-eq-ok abort next e = cc
>>=-eq-ok (ok b) next e = (b, e, refl)

pub assert-eq-ok : (b : Bool) {u : Unit {0}} → assert b ≡ ok u → b ≡ true
assert-eq-ok true h = refl
assert-eq-ok false h = cc
