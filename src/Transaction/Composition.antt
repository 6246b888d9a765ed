-- ===== src/Transaction/Composition.antt =====
-- Nested transactions: an inner one hands its lists on to the outer one of its thread.
use tboost_stm.Prelude.{ℕ, ◌≡◌, ap, sym, subst, ◌∙◌, true, false, none, some, arith}
use tboost_stm.BloomFilter
use tboost_stm.StdMap
use tboost_stm.StdMap.{lookup-none-has_key, lookup-place_self}
use tboost_stm.Objects.{invalid_thread, transaction_thread_at}
use tboost_stm.System.{System, returns, final, context_of}
use tboost_stm.Transaction.Status.{forced_to_abort}
use tboost_stm.Transaction.Deferred.{deferred_read, deferred_write, open_for_write}
use tboost_stm.Transaction.Commit.{hand_off}
use tboost_stm.Transaction.Isolation.{
  opened, opened-write_mem, opened-forced, opened-wbloom, opened-result, write_opens, read_listed,
}

module _ {V : Type 0} where
  hand_off-context : (t u : ℕ) (s : System V) → context_of (hand_off t s) u ≡ context_of s u
  unfolding hand_off
  hand_off-context t u s = ground arith

module _ {V : Type 0} (hash : ℕ → ℕ × ℕ) where
  read_handed :
      (t u a b : ℕ) (s : System V)
      → (s.tx u).thread_id ≡ (s.tx t).thread_id
      → forced_to_abort s t ≡ false
      → BloomFilter.exists hash a (context_of s t).wbloom ≡ true
      → StdMap.lookup a (context_of s t).write_mem ≡ some b
      → deferred_read hash u a (hand_off t s) ≡ returns b (hand_off t s)
  read_handed t u a b s same free listed found =
      let e : context_of (hand_off t s) u ≡ context_of s t =
        hand_off-context t u s ∙ ap s.context same in
      read_listed hash u a b (hand_off t s) (ap (λ c. c.abort) e ∙ free)
        (ap (λ c. BloomFilter.exists hash a c.wbloom) e ∙ listed)
        (ap (λ c. StdMap.lookup a c.write_mem) e ∙ found)

  opened-same_thread :
      (t u a : ℕ) (s : System V)
      → (s.tx u).thread_id ≡ (s.tx t).thread_id
      → ((opened hash t a s).tx u).thread_id ≡ ((opened hash t a s).tx t).thread_id
  unfolding open_for_write
  opened-same_thread t u a s same = same

  -- An outer transaction reads what an inner one of its thread has written, unless they are forced
  -- to abort: after the inner one's
  -- write of a shared object that was not in the list, and its hand-off, a read by the outer one
  -- returns the copy that the write returned, and changes nothing.
  pub deferred_read-hand_off :
      (t u a r : ℕ) (s s' : System V)
      → (s.tx u).thread_id ≡ (s.tx t).thread_id
      → forced_to_abort s t ≡ false
      → StdMap.lookup a (context_of s t).write_mem ≡ none
      → transaction_thread_at s.heap a ≡ invalid_thread
      → deferred_write hash t a s ≡ returns r s'
      → deferred_read hash u a (hand_off t s') ≡ returns r (hand_off t s')
  deferred_read-hand_off t u a r s s' same free absent shared e =
      let e' : open_for_write hash t a s ≡ returns r s' =
        sym (write_opens hash t a s free absent shared) ∙ e in
      subst (λ z. deferred_read hash u a (hand_off t z) ≡ returns r (hand_off t z)) (ap final e')
        (read_handed t u a r (opened hash t a s) (opened-same_thread t u a s same)
          (opened-forced hash t a s ∙ free) (opened-wbloom hash t a s)
          (rw (opened-write_mem hash t a s absent, ← opened-result hash t a s e')
            (lookup-place_self a s.heap.next _ (lookup-none-has_key a _ absent))))
