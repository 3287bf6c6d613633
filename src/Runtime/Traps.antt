-- ===== src/Runtime/Traps.antt =====
-- lib/obnc/OBNC.h: the operators and the checks that trap. A type descriptor has the IDs of the base
-- types of a record type, the topmost first, and its own ID last. `max` is OBNC_INT_MAX.
use obnc.Prelude.{
  ℕ, zero, suc, ◌+◌, ◌-◌, ◌*◌, Bool, true, false, not, ◌&&◌, Option, none, some, List, [], ◌∷◌,
  length, leb, ltb, ◌==◌, if◌then◌else◌, Result, ok, abort,
}
use obnc.Prelude.Int.{ℤ, pos, negsuc}

-- `OBNC_Td`
pub record Td : Type 0 where
  pub ids : List ℕ

pub data Exception : Type 0 where
  array_index type_guard array_assignment record_assignment pointer_dereference procedure_call :
      Exception

-- A check has a value, or calls the trap handler and ends the program.
pub data Checked {ℓ} (A : Type ℓ) : Type ℓ where
  passes : A → Checked A
  traps : Exception → Checked A

unfoldable pub id_at : ℕ → List ℕ → Option ℕ
id_at n [] = none
id_at zero (i ∷ is) = some i
id_at (suc n) (i ∷ is) = id_at n is

-- `td->ids[level] == id`, for a level below `nids`.
unfoldable pub has_id : Td → ℕ → ℕ → Bool
unfolding id_at
has_id td id level = elim (id_at level td.ids) [ none ↦ false | some i ↦ i == id ]

-- OBNC_IS, for the address of a variable.
unfoldable pub obnc_is : ℕ → Td → ℕ → ℕ → Bool
unfolding has_id
obnc_is var td id level = not (var == 0) && (ltb level (length td.ids) && has_id td id level)

-- OBNC_RTT, and OBNC_PTT for the pointer that is tested.
unfoldable pub obnc_rtt : ℕ → Td → ℕ → ℕ → Checked ℕ
unfolding obnc_is
obnc_rtt ptr td id level = if obnc_is ptr td id level then passes ptr else traps type_guard

-- OBNC_RAT; without an ID, it reads before the array.
unfoldable pub obnc_rat : Td → Td → Result (Checked Bool)
unfolding id_at
obnc_rat src dst =
    let n = length dst.ids in
    if leb n (length src.ids)
    then (if n == 0 then abort else elim (id_at (n - 1) src.ids) [
      | none ↦ abort
      | some i ↦ elim (id_at (n - 1) dst.ids) [
        | none ↦ abort
        | some j ↦ ok (if i == j then passes true else traps record_assignment)
      ]
    ])
    else ok (traps record_assignment)

-- `(unsigned OBNC_INTEGER) x`
unfoldable pub unsigned : ℕ → ℤ → ℕ
unsigned max (pos n) = n
unsigned max (negsuc n) = 2 * max + 1 - n

-- OBNC_IT
unfoldable pub obnc_it : ℕ → ℤ → ℤ → Checked ℤ
unfolding unsigned
obnc_it max index len =
    if ltb (unsigned max index) (unsigned max len) then passes index else traps array_index

-- OBNC_AAT, for the lengths of the arrays.
unfoldable pub obnc_aat : ℕ → ℕ → Checked Bool
obnc_aat source_len target_len =
    if ltb target_len source_len then traps array_assignment else passes true

-- OBNC_PT and OBNC_PCT
unfoldable pub obnc_pt : ℕ → Checked ℕ
obnc_pt ptr = if ptr == 0 then traps pointer_dereference else passes ptr

unfoldable pub obnc_pct : ℕ → Checked ℕ
obnc_pct ptr = if ptr == 0 then traps procedure_call else passes ptr
