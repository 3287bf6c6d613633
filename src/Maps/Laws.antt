-- ===== src/Maps/Laws.antt =====
-- Insertion and lookup.
use obnc.Prelude.{◌≡◌, refl, true, false, some, Bytes, bytes_eq, if◌then◌else◌}
use obnc.Maps.{MapOf, put, has_key, at, is_empty}

module _ {ℓ} {V : Type ℓ} where
  -- For every map, keys and value: after `Maps_Put` the key has the new value, and every other key
  -- has what it had, both for `Maps_At` and for `Maps_HasKey`; the map is not empty.
  pub at-put :
      (k j : Bytes) (v : V) (m : MapOf V)
      → (at j (put k v m) ≡ (if bytes_eq k j then some v else at j m))
        × (has_key j (put k v m) ≡ (if bytes_eq k j then true else has_key j m))
        × (is_empty (put k v m) ≡ false)
  unfolding at put has_key is_empty
  at-put k j v m = (refl, refl, refl)
