-- ===== src/Transaction/Publication.antt =====
-- What the others find in memory when a transaction has ended.
use tboost_stm.Prelude.{ℕ, ◌≡◌, ◌≢◌, refl, ap, ◌∙◌, List, [], ◌∷◌, some, arith, ==-eq_true, length}
use tboost_stm.StdMap
use tboost_stm.StdSet
use tboost_stm.Objects.{Object, Heap, set_transaction_thread, set_new_memory}
use tboost_stm.System.{set_context, e_normal_tx, System, context_of}
use tboost_stm.Transaction.Release.{
  unblock_waiting, unblock_conflicting_threads, give_back, clear_latm_obtained_locks,
}
use tboost_stm.Transaction.Deletions.{commit_deleted_memory}
use tboost_stm.Transaction.Commit.{
  publish, share_all, deferred_commit_write_state, commit_new_memory, finish, write_back,
  count_commit, inc_commits, count_memory,
}
use tboost_stm.Transaction.Entries.{Separate, shared, publish-written}

module _ {V : Type 0} where
  share_all-shared :
      (m : List ℕ) (a : ℕ) (h : Heap V) (o : Object V)
      → h.cell a ≡ some (shared o)
      → (share_all m h).cell a ≡ some (shared o)
  unfolding share_all set_transaction_thread set_new_memory
  share_all-shared [] a h o e = e
  share_all-shared (c ∷ m) a h o e = share_all-shared m a _ o (ground arith)

  unblock_waiting-heap :
      (m : ℕ) (ths : List ℕ) (s : System V) → (unblock_waiting m ths s).heap ≡ s.heap
  unfolding unblock_waiting
  unblock_waiting-heap m [] s = refl
  unblock_waiting-heap m (th ∷ ths) s = unblock_waiting-heap m ths _ ∙ ground arith

  unblock_conflicting_threads-heap :
      (m : ℕ) (s : System V) → (unblock_conflicting_threads m s).heap ≡ s.heap
  unfolding unblock_conflicting_threads
  unblock_conflicting_threads-heap m s = ground (arith, unblock_waiting-heap m s.threads s)

  give_back-heap : (t : ℕ) (ms : List ℕ) (s : System V) → (give_back t ms s).heap ≡ s.heap
  unfolding give_back
  give_back-heap t [] s = refl
  give_back-heap t (m ∷ ms) s = give_back-heap t ms _ ∙ unblock_conflicting_threads-heap m _

  clear_latm_obtained_locks-heap :
      (t : ℕ) (s : System V) → (clear_latm_obtained_locks t s).heap ≡ s.heap
  unfolding clear_latm_obtained_locks
  clear_latm_obtained_locks-heap t s = give_back-heap t (context_of s t).obtained_locks s

  pub finish-heap : (t : ℕ) (s : System V) → (finish t s).heap ≡ s.heap
  unfolding finish
  finish-heap t s = clear_latm_obtained_locks-heap t (
      set_context s t (record (context_of s t) { tx_type = e_normal_tx; conflicting_mutexes = [] }))

  commit_deleted_memory-heap :
      (now t : ℕ) (s : System V) → (commit_deleted_memory now t s).heap ≡ s.heap
  unfolding commit_deleted_memory
  commit_deleted_memory-heap now t s = ground arith

  -- The state that the writing back starts from.
  abbrev counted : ℕ → System V → System V
  counted t s = count_commit t (record s { in_flight = StdSet.erase t s.in_flight })

  written-heap :
      (t : ℕ) (s : System V)
      → (commit_new_memory t (deferred_commit_write_state t (counted t s))).heap
        ≡ share_all (context_of s t).new_mem (publish (context_of s t).write_mem s.heap)
  unfolding commit_new_memory deferred_commit_write_state
  written-heap t s = rw (==-eq_true (s.tx t).thread_id (s.tx t).thread_id refl) refl

  pub write_back-heap :
      (now t : ℕ) (s : System V)
      → (write_back now t s).heap
        ≡ share_all (context_of s t).new_mem (publish (context_of s t).write_mem s.heap)
  unfolding write_back
  write_back-heap now t s =
      let s' = commit_new_memory t (deferred_commit_write_state t (counted t s)) in
      let c = context_of s t in
      finish-heap t (
        inc_commits
          (count_memory (length c.new_mem) (length c.del_mem) (commit_deleted_memory now t s')))
      ∙ commit_deleted_memory-heap now t s'
      ∙ written-heap t s

  -- The commit of a transaction puts the value of each copy in the write list into its original, which carries no
  -- thread's number from then on. The entries of the write list are separate, and original and copy
  -- are objects.
  pub write_back-written :
      (now t a b : ℕ) (s : System V) {o x : Object V}
      → Separate (context_of s t).write_mem
      → StdMap.lookup a (context_of s t).write_mem ≡ some b
      → b ≢ 0
      → s.heap.cell b ≡ some o
      → s.heap.cell a ≡ some x
      → (write_back now t s).heap.cell a ≡ some (shared o)
  write_back-written now t a b s {o} {x} sep listed nz copy original =
      ap (λ h. h.cell a) (write_back-heap now t s)
      ∙ share_all-shared (context_of s t).new_mem a _ o (
          publish-written (context_of s t).write_mem a b s.heap {o = o} {x = x} sep listed nz copy
            original)
