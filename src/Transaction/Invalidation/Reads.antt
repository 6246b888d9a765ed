-- ===== src/Transaction/Invalidation/Reads.antt =====
-- A thread's Bloom filter holds every object that it has read, which the scan for conflicts relies on.
use tboost_stm.Prelude.{ℕ, ◌≡◌, refl, subst, true, none, if_both, ==-eq_true, Bool-cases, inl, inr}
use tboost_stm.BloomFilter
use tboost_stm.BloomFilter.Laws.{exists-insert_self}
use tboost_stm.StdMap
use tboost_stm.System.{System, Outcome, returns, throws, context_of}
use tboost_stm.Transaction.Status.{forced_to_abort}
use tboost_stm.Transaction.Deferred.{
  deferred_read, insert_and_return_read_memory, surely_unwritten, count_read, bloom_insert,
}

module _ {V : Type 0} (hash : ℕ → ℕ × ℕ) where
  abbrev Seen : ℕ → ℕ → Outcome V ℕ → Type 0
  Seen t a (returns r s) = BloomFilter.exists hash a (context_of s t).bloom ≡ true
  Seen t a (throws s) = Unit

  noted-Seen :
      (t a : ℕ) (s : System V) → Seen t a (returns a (count_read t (bloom_insert hash t a s)))
  noted-Seen t a s =
      rw (==-eq_true t t refl, ==-eq_true (s.tx t).thread_id (s.tx t).thread_id refl)
        (exists-insert_self hash a (context_of s t).bloom)

  inserted-Seen : (t a : ℕ) (s : System V) → Seen t a (insert_and_return_read_memory hash t a s)
  unfolding insert_and_return_read_memory
  inserted-Seen t a s = elim (Bool-cases (BloomFilter.exists hash a (context_of s t).bloom)) [
    | inl known ↦ rw known known
    | inr unknown ↦ rw unknown (noted-Seen t a s)
  ]

  read-Seen :
      (t a : ℕ) (s : System V)
      → StdMap.lookup a (context_of s t).write_mem ≡ none
      → Seen t a (deferred_read hash t a s)
  unfolding deferred_read
  read-Seen t a s unwritten = rw unwritten (
      if_both (Seen t a) (forced_to_abort s t) _ _ tt (
        if_both (Seen t a) (surely_unwritten hash (context_of s t) a) _ _ (inserted-Seen t a s)
          (inserted-Seen t a s)))

  -- After a read of an object that is not in the write list, the reader's filter holds the object.
  pub deferred_read-exists :
      (t a r : ℕ) (s s' : System V)
      → StdMap.lookup a (context_of s t).write_mem ≡ none
      → deferred_read hash t a s ≡ returns r s'
      → BloomFilter.exists hash a (context_of s' t).bloom ≡ true
  deferred_read-exists t a r s s' unwritten e = subst (Seen t a) e (read-Seen t a s unwritten)
