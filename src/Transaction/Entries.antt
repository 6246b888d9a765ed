-- ===== src/Transaction/Entries.antt =====
-- The loops over a write list: what they do to an object in the list, to a copy, and to the rest.
use tboost_stm.Prelude.{
  ℕ, ◌≡◌, refl, ◌∙◌, ◌≢◌, Bool, true, false, ◌==◌, ◌||◌, ◌⊎◌, List, [], ◌∷◌, none, some, arith,
  ℕ_discrete,
}
use tboost_stm.StdMap
use tboost_stm.Objects.{
  Object, Heap, invalid_thread, set_transaction_thread, set_new_memory, copy_state, delete,
}
use tboost_stm.Transaction.Abort.{delete_copies, restore_entry, restore}
use tboost_stm.Transaction.Commit.{publish_entry, publish}

-- Whether an address is a copy in the list.
unfoldable pub has_copy : ℕ → List (ℕ × ℕ) → Bool
has_copy c [] = false
has_copy c ((a, b) ∷ m) = b == c || has_copy c m

-- The entries of a write list do not overlap: no address stands in two places, but for the null
-- pointer, which no original is.
abbrev pub Separate : List (ℕ × ℕ) → Type 0
Separate [] = Unit {0}
Separate ((a, b) ∷ m) =
    (a ≢ 0)
    × (a ≢ b)
    × (StdMap.has_key a m ≡ false)
    × (has_copy a m ≡ false)
    × (StdMap.has_key b m ≡ false)
    × ((b ≡ 0) ⊎ (has_copy b m ≡ false))
    × Separate m

pub lookup-some-has_key :
    (a b : ℕ) (m : List (ℕ × ℕ)) → StdMap.lookup a m ≡ some b → StdMap.has_key a m ≡ true
unfolding StdMap.lookup StdMap.has_key
lookup-some-has_key a b [] h = cc
lookup-some-has_key a b ((k, c) ∷ m) h = ground (arith, lookup-some-has_key a b m)

pub lookup-some-has_copy :
    (a b : ℕ) (m : List (ℕ × ℕ)) → StdMap.lookup a m ≡ some b → has_copy b m ≡ true
unfolding StdMap.lookup has_copy
lookup-some-has_copy a b [] h = cc
lookup-some-has_copy a b ((k, c) ∷ m) h = ground (arith, lookup-some-has_copy a b m)

module _ {V : Type 0} where
  publish_entry-other :
      (a b c : ℕ) (h : Heap V) → a ≢ c → b ≢ c → (publish_entry a b h).cell c ≡ h.cell c
  unfolding publish_entry set_transaction_thread set_new_memory copy_state delete
  publish_entry-other a b c h p q = ground arith

  pub publish-other :
      (m : List (ℕ × ℕ)) (c : ℕ) (h : Heap V)
      → StdMap.has_key c m ≡ false
      → has_copy c m ≡ false
      → (publish m h).cell c ≡ h.cell c
  unfolding publish has_copy StdMap.has_key
  publish-other [] c h p q = refl
  publish-other ((a, b) ∷ m) c h p q =
      publish-other m c (publish_entry a b h) (ground arith) (ground arith)
      ∙ publish_entry-other a b c h (ground arith) (ground arith)

  -- The published object: the copy's value, shared.
  abbrev pub shared : Object V → Object V
  shared o = record o { transaction_thread = invalid_thread; new_memory = 0 }

  publish_entry_self :
      (a b : ℕ) (h : Heap V) {o x : Object V}
      → a ≢ b
      → b ≢ 0
      → h.cell b ≡ some o
      → h.cell a ≡ some x
      → (publish_entry a b h).cell a ≡ some (shared o)
  unfolding publish_entry set_transaction_thread set_new_memory copy_state delete
  publish_entry_self a b h p q r s = ground arith

  publish_entry-copy : (a b : ℕ) (h : Heap V) → a ≢ b → b ≢ 0 → (publish_entry a b h).cell b ≡ none
  unfolding publish_entry set_transaction_thread set_new_memory copy_state delete
  publish_entry-copy a b h p q = ground arith

  -- A commit gives each original in the list the value of its copy, and shares it.
  pub publish-written :
      (m : List (ℕ × ℕ)) (a b : ℕ) (h : Heap V) {o x : Object V}
      → Separate m
      → StdMap.lookup a m ≡ some b
      → b ≢ 0
      → h.cell b ≡ some o
      → h.cell a ≡ some x
      → (publish m h).cell a ≡ some (shared o)
  unfolding publish StdMap.lookup has_copy StdMap.has_key
  publish-written [] a b h sep l nz p q = cc
  publish-written ((k, c) ∷ m) a b h {o} {x} sep l nz p q = elim (ℕ_discrete k a) [
    | yes same ↦
        let hit : c ≡ b = ground arith in
        publish-other m a (publish_entry k c h) (ground arith) (ground arith)
        ∙ rw (same, hit) (publish_entry_self a b h {o = o} {x = x} (ground arith) nz p q)
    | no other ↦
        let l' : StdMap.lookup a m ≡ some b = ground arith in
        let kept : StdMap.has_key a m ≡ true = lookup-some-has_key a b m l' in
        let copied : has_copy b m ≡ true = lookup-some-has_copy a b m l' in
        publish-written m a b (publish_entry k c h) {o = o} {x = x} sep.6 l' nz
          (publish_entry-other k c b h (ground arith) (ground arith) ∙ p)
          (publish_entry-other k c a h other (ground arith) ∙ q)
  ]

  -- A commit frees each copy in a list whose entries are separate.
  pub publish-freed :
      (m : List (ℕ × ℕ)) (b : ℕ) (h : Heap V)
      → Separate m
      → has_copy b m ≡ true
      → b ≢ 0
      → (publish m h).cell b ≡ none
  unfolding publish has_copy
  publish-freed [] b h sep l nz = cc
  publish-freed ((k, c) ∷ m) b h sep l nz = elim (ℕ_discrete c b) [
    | yes same ↦
        publish-other m b (publish_entry k c h) (ground arith) (ground arith)
        ∙ rw same (publish_entry-copy k b h (ground arith) nz)
    | no other ↦ publish-freed m b (publish_entry k c h) sep.6 (ground arith) nz
  ]

  restore_entry-other :
      (a b c : ℕ) (h : Heap V) → a ≢ c → b ≢ c → (restore_entry a b h).cell c ≡ h.cell c
  unfolding restore_entry set_transaction_thread copy_state delete
  restore_entry-other a b c h p q = ground arith

  restore_entry_self :
      (a b : ℕ) (h : Heap V) {o x : Object V}
      → a ≢ b
      → b ≢ 0
      → h.cell b ≡ some o
      → h.cell a ≡ some x
      → (restore_entry a b h).cell a ≡ some (record o { transaction_thread = invalid_thread })
  unfolding restore_entry set_transaction_thread copy_state delete
  restore_entry_self a b h p q r s = ground arith

  pub restore-other :
      (m : List (ℕ × ℕ)) (c : ℕ) (h : Heap V)
      → StdMap.has_key c m ≡ false
      → has_copy c m ≡ false
      → (restore m h).cell c ≡ h.cell c
  unfolding restore has_copy StdMap.has_key
  restore-other [] c h p q = refl
  restore-other ((a, b) ∷ m) c h p q =
      restore-other m c (restore_entry a b h) (ground arith) (ground arith)
      ∙ restore_entry-other a b c h (ground arith) (ground arith)

  -- With direct updating an abort gives each original in the list its saved state, and no thread's
  -- number. The entries of the list are separate, and original and saved state are objects.
  pub restore-written :
      (m : List (ℕ × ℕ)) (a b : ℕ) (h : Heap V) {o x : Object V}
      → Separate m
      → StdMap.lookup a m ≡ some b
      → b ≢ 0
      → h.cell b ≡ some o
      → h.cell a ≡ some x
      → (restore m h).cell a ≡ some (record o { transaction_thread = invalid_thread })
  unfolding restore StdMap.lookup has_copy StdMap.has_key
  restore-written [] a b h sep l nz p q = cc
  restore-written ((k, c) ∷ m) a b h {o} {x} sep l nz p q = elim (ℕ_discrete k a) [
    | yes same ↦
        let hit : c ≡ b = ground arith in
        restore-other m a (restore_entry k c h) (ground arith) (ground arith)
        ∙ rw (same, hit) (restore_entry_self a b h {o = o} {x = x} (ground arith) nz p q)
    | no other ↦
        let l' : StdMap.lookup a m ≡ some b = ground arith in
        let kept : StdMap.has_key a m ≡ true = lookup-some-has_key a b m l' in
        let copied : has_copy b m ≡ true = lookup-some-has_copy a b m l' in
        restore-written m a b (restore_entry k c h) {o = o} {x = x} sep.6 l' nz
          (restore_entry-other k c b h (ground arith) (ground arith) ∙ p)
          (restore_entry-other k c a h other (ground arith) ∙ q)
  ]

  -- Deleting the copies leaves every other object alone.
  pub delete_copies-other :
      (m : List (ℕ × ℕ)) (c : ℕ) (h : Heap V)
      → has_copy c m ≡ false
      → (delete_copies m h).cell c ≡ h.cell c
  unfolding delete_copies has_copy delete
  delete_copies-other [] c h p = refl
  delete_copies-other ((a, b) ∷ m) c h p =
      delete_copies-other m c (delete b h) (ground arith) ∙ ground arith
