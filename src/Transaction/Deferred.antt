-- ===== src/Transaction/Deferred.antt =====
-- boost/stm/transaction.hpp: access with deferred updating. A write makes a copy of the object, and
-- the transaction works on the copy. A reference is an address; the null reference is 0.
use tboost_stm.Prelude.{
  ℕ, ◌+◌, Bool, not, ltb, ◌==◌, if◌then◌else◌, ◌&&◌, ◌||◌, List, [], ◌∷◌, ◌++◌, none, some, length,
}
use tboost_stm.BloomFilter
use tboost_stm.StdMap
use tboost_stm.Contention.{ContentionManager}
use tboost_stm.Objects.{
  invalid_thread, set_transaction_thread, set_new_memory, new_copy, new_object,
  transaction_thread_at, assign,
}
use tboost_stm.System.{
  System, Context, Outcome, returns, throws, context_of, set_context, set_heap, set_tx,
}
use tboost_stm.Transaction.Status.{forced_to_abort}
use tboost_stm.Transaction.Abort.{deferred_abort, direct_abort}

-- The test by which `deferred_read` skips the search of the write list.
unfoldable pub surely_unwritten : (ℕ → ℕ × ℕ) → Context → ℕ → Bool
surely_unwritten hash c a =
    length c.write_mem == 0
    || (ltb 16 (length c.write_mem) && not (BloomFilter.exists hash a c.wbloom))

-- The loop of `deferred_delete_memory`, from an entry of the write list on, over the write list and the
-- deleted memory so far. The map's iterator is not disturbed by its insertions, which find their key
-- present.
unfoldable pub delete_originals : ℕ → List (ℕ × ℕ) → List (ℕ × ℕ) → List ℕ → List (ℕ × ℕ) × List ℕ
delete_originals a [] writes deleted = (writes, deleted)
delete_originals a ((k, b) ∷ m) writes deleted =
    if b == a
    then delete_originals a m (StdMap.insert k 0 writes) (deleted ++ k ∷ [])
    else delete_originals a m writes deleted

module _ {V : Type 0} where
  -- `++reads_`
  abbrev pub count_read : ℕ → System V → System V
  count_read t s = set_tx s t (record (s.tx t) { reads = (s.tx t).reads + 1 })

module _ {V : Type 0} (hash : ℕ → ℕ × ℕ) where
  -- `bloom().insert(&in)`
  abbrev pub bloom_insert : ℕ → ℕ → System V → System V
  bloom_insert t a s =
      let c = context_of s t in
      set_context s t (record c { bloom = BloomFilter.insert hash a c.bloom })

  -- `insert_and_return_read_memory`
  unfoldable pub insert_and_return_read_memory : ℕ → ℕ → System V → Outcome V ℕ
  insert_and_return_read_memory t a s =
      if BloomFilter.exists hash a (context_of s t).bloom
      then returns a s
      else returns a (count_read t (bloom_insert t a s))

  -- `deferred_read`
  unfoldable pub deferred_read : ℕ → ℕ → System V → Outcome V ℕ
  unfolding insert_and_return_read_memory surely_unwritten
  deferred_read t a s =
      if forced_to_abort s t
      then throws (deferred_abort t s)
      else if surely_unwritten hash (context_of s t) a
      then insert_and_return_read_memory t a s
      else elim (StdMap.lookup a (context_of s t).write_mem) [
        | none ↦ insert_and_return_read_memory t a s
        | some b ↦ returns b s
      ]

  -- The last part of `deferred_write`: the filters, the copy and the write list.
  unfoldable pub open_for_write : ℕ → ℕ → System V → Outcome V ℕ
  open_for_write t a s =
      let c = context_of s t in
      let bloom = BloomFilter.insert hash a c.bloom in
      let (b, h) = new_copy a s.heap in
      returns b (
        set_context (set_heap s (set_transaction_thread (s.tx t).thread_id b h)) t (record c {
          bloom = bloom;
          wbloom = BloomFilter.set_bv2 bloom.h2 (BloomFilter.set_bv1 bloom.h1 c.wbloom);
          write_mem = StdMap.insert a b c.write_mem;
        }))

  -- `deferred_write`
  unfoldable pub deferred_write : ℕ → ℕ → System V → Outcome V ℕ
  deferred_write t a s =
      if forced_to_abort s t
      then throws (deferred_abort t s)
      else elim (StdMap.lookup a (context_of s t).write_mem) [
        | some b ↦ returns b s
        | none ↦
            if transaction_thread_at s.heap a == invalid_thread
            then open_for_write t a s
            else returns a s
      ]

  -- `deferred_delete_memory`
  unfoldable pub deferred_delete_memory : ℕ → ℕ → System V → Outcome V (Unit {0})
  unfolding delete_originals
  deferred_delete_memory t a s =
      if forced_to_abort s t
      then throws (deferred_abort t s)
      else let c = context_of s t in
        let (writes, deleted) =
          if not (transaction_thread_at s.heap a == invalid_thread)
          then (StdMap.insert a 0 c.write_mem, c.del_mem)
          else delete_originals a c.write_mem c.write_mem c.del_mem in
        returns tt (
          set_context s t (record c {
            bloom = BloomFilter.insert hash a c.bloom;
            write_mem = writes;
            del_mem = deleted ++ a ∷ [];
          }))

module _ {V : Type 0} where
  -- `new_memory`: `v` is the value that the constructor of T gives. With direct updating the
  -- manager's notice decides what becomes of a transaction that is forced to abort.
  unfoldable pub new_memory : ContentionManager → V → ℕ → System V → Outcome V ℕ
  new_memory cm v t s =
      let (a, h) = new_object v s.heap in
      let h' = set_new_memory 1 a (set_transaction_thread (s.tx t).thread_id a h) in
      let c = context_of s t in
      let made =
        returns a (set_context (set_heap s h') t (record c { new_mem = c.new_mem ++ a ∷ [] })) in
      if forced_to_abort s t
      then if not s.direct_updating
        then throws (deferred_abort t s)
        else if cm.abort_on_new
        then throws (direct_abort t s)
        else made
      else made

  -- The client's `t.write(x) = v`, through the reference that the write returned.
  unfoldable pub assign_through : V → Outcome V ℕ → Outcome V ℕ
  assign_through v (returns b s) = returns b (set_heap s (assign b v s.heap))
  assign_through v (throws s) = throws s
