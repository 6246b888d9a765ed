-- ===== src/StdMap.antt =====
-- `std::map` and `std::set` with number keys, as the source uses them: lists in the order of the
-- keys, which is the order of iteration. `insert` on a key that is present changes nothing.
pub mod Entries
use tboost_stm.Prelude.{
  ℕ, ◌≡◌, refl, ◌≢◌, Bool, false, ltb, ◌==◌, if◌then◌else◌, ◌||◌, List, [], ◌∷◌, Option, none, some,
  arith,
}

module _ {ℓ} {V : Type ℓ} where
  -- `find(k)`, with `none` for `end()`.
  unfoldable pub lookup : ℕ → List (ℕ × V) → Option V
  lookup k [] = none
  lookup k ((j, v) ∷ m) = if j == k then some v else lookup k m

  -- `find(k) != end()`
  unfoldable pub has_key : ℕ → List (ℕ × V) → Bool
  has_key k [] = false
  has_key k ((j, v) ∷ m) = j == k || has_key k m

  unfoldable pub place : ℕ → V → List (ℕ × V) → List (ℕ × V)
  place k v [] = (k, v) ∷ []
  place k v ((j, w) ∷ m) = if ltb k j then (k, v) ∷ (j, w) ∷ m else (j, w) ∷ place k v m

  -- `insert(make_pair(k, v))`
  unfoldable pub insert : ℕ → V → List (ℕ × V) → List (ℕ × V)
  unfolding place
  insert k v m = if has_key k m then m else place k v m

  -- `erase(k)`
  unfoldable pub erase : ℕ → List (ℕ × V) → List (ℕ × V)
  erase k [] = []
  erase k ((j, v) ∷ m) = if j == k then m else (j, v) ∷ erase k m

  -- `m[k] = v`, on a key that may be present.
  unfoldable pub assign : ℕ → V → List (ℕ × V) → List (ℕ × V)
  assign k v [] = (k, v) ∷ []
  assign k v ((j, w) ∷ m) =
      if j == k then (k, v) ∷ m else if ltb k j then (k, v) ∷ (j, w) ∷ m else (j, w) ∷ assign k v m

module _ {V : Type 0} where
  pub has_key-lookup : (k : ℕ) (m : List (ℕ × V)) → has_key k m ≡ false → lookup k m ≡ none
  unfolding has_key lookup
  has_key-lookup k [] h = refl
  has_key-lookup k ((j, w) ∷ m) h = ground (arith, has_key-lookup k m)

  pub lookup-none-has_key : (k : ℕ) (m : List (ℕ × V)) → lookup k m ≡ none → has_key k m ≡ false
  unfolding has_key lookup
  lookup-none-has_key k [] h = refl
  lookup-none-has_key k ((j, w) ∷ m) h = ground (arith, lookup-none-has_key k m)

  pub lookup-place_ne :
      (k j : ℕ) (v : V) (m : List (ℕ × V)) → k ≢ j → lookup j (place k v m) ≡ lookup j m
  unfolding lookup place
  lookup-place_ne k j v [] ne = ground arith
  lookup-place_ne k j v ((i, w) ∷ m) ne = ground (arith, lookup-place_ne k j v m ne)

  pub lookup-place_self :
      (k : ℕ) (v : V) (m : List (ℕ × V)) → has_key k m ≡ false → lookup k (place k v m) ≡ some v
  unfolding lookup place has_key
  lookup-place_self k v [] h = ground arith
  lookup-place_self k v ((i, w) ∷ m) h = ground (arith, lookup-place_self k v m)

  -- A key that is absent is written, and an absent one only; no other key is touched.
  pub lookup-insert_ne :
      (k j : ℕ) (v : V) (m : List (ℕ × V)) → k ≢ j → lookup j (insert k v m) ≡ lookup j m
  unfolding insert
  lookup-insert_ne k j v m ne = ground (arith, lookup-place_ne k j v m ne)

  pub lookup-insert_new :
      (k : ℕ) (v : V) (m : List (ℕ × V)) → lookup k m ≡ none → lookup k (insert k v m) ≡ some v
  unfolding insert
  lookup-insert_new k v m h = ground (arith, lookup-none-has_key k m, lookup-place_self k v m)

  pub lookup-insert_old :
      (k : ℕ) (v w : V) (m : List (ℕ × V)) → lookup k m ≡ some w → insert k v m ≡ m
  unfolding insert
  lookup-insert_old k v w m h = ground (arith, has_key-lookup k m)

  -- To assign an absent key and erase it restores the map.
  pub erase-assign :
      (k : ℕ) (v : V) (m : List (ℕ × V)) → has_key k m ≡ false → erase k (assign k v m) ≡ m
  unfolding has_key erase assign
  erase-assign k v [] h = ground arith
  erase-assign k v ((j, w) ∷ m) h = ground (arith, erase-assign k v m)

  pub has_key-assign :
      (k j : ℕ) (v : V) (m : List (ℕ × V)) → has_key j (assign k v m) ≡ (j == k || has_key j m)
  unfolding has_key assign
  has_key-assign k j v [] = ground arith
  has_key-assign k j v ((i, w) ∷ m) = ground (arith, has_key-assign k j v m)

  pub has_key-erase_ne : (k j : ℕ) (m : List (ℕ × V)) → k ≢ j → has_key j (erase k m) ≡ has_key j m
  unfolding has_key erase
  has_key-erase_ne k j [] ne = refl
  has_key-erase_ne k j ((i, w) ∷ m) ne = ground (arith, has_key-erase_ne k j m ne)
