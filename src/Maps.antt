-- ===== src/Maps.antt =====
-- src/Maps.c: association lists with the newest entry first. `Maps_Put` never removes an entry, so
-- a key may occur often; `Maps_At` sees the newest one, and `Maps_Apply` drops the others first.
-- A map is the list of its nodes from the head, and NULL is the empty list. Values are `void *` in
-- C, and of any type here; the NULL that `Maps_At` returns for a missing key is `none`.
pub mod Laws
pub mod Newest
use obnc.Prelude.{
  Bool, true, false, Option, none, some, List, [], ◌∷◌, Bytes, bytes_eq, if◌then◌else◌,
}

abbrev pub MapOf {ℓ} : Type ℓ → Type ℓ
MapOf V = List (Bytes × V)

module _ {ℓ} {V : Type ℓ} where
  unfoldable pub new : MapOf V
  new = []

  unfoldable pub is_empty : MapOf V → Bool
  is_empty [] = true
  is_empty (_ ∷ _) = false

  unfoldable pub put : Bytes → V → MapOf V → MapOf V
  put key value map = (key, value) ∷ map

  unfoldable pub has_key : Bytes → MapOf V → Bool
  has_key key [] = false
  has_key key ((k, v) ∷ next) = if bytes_eq k key then true else has_key key next

  unfoldable pub at : Bytes → MapOf V → Option V
  at key [] = none
  at key ((k, v) ∷ next) = if bytes_eq k key then some v else at key next

  -- The loop of `DeletedDuplicates`, with its variables `map` and `result`.
  unfoldable deleted_duplicates_loop : MapOf V → MapOf V → MapOf V
  unfolding put has_key
  deleted_duplicates_loop [] result = result
  deleted_duplicates_loop ((k, v) ∷ next) result =
      deleted_duplicates_loop next (if has_key k result then result else put k v result)

  unfoldable pub deleted_duplicates : MapOf V → MapOf V
  unfolding deleted_duplicates_loop new
  deleted_duplicates map = deleted_duplicates_loop map new

-- `Maps_Apply` for an applicator `f` that changes the state `data`.
module _ {ℓ κ} {V : Type ℓ} {S : Type κ} (f : Bytes → V → S → S) where
  unfoldable pub apply_loop : MapOf V → S → S
  apply_loop [] s = s
  apply_loop ((k, v) ∷ next) s = apply_loop next (f k v s)

  unfoldable pub apply : MapOf V → S → S
  unfolding apply_loop
  apply map s = apply_loop (deleted_duplicates map) s
