-- ===== src/Transaction/Isolation.antt =====
-- Deferred updating: a write works on a copy. What a transaction sees of its own writes, and what
-- the others see of them before the commit.
use tboost_stm.Prelude.{
  ℕ, suc, ◌<◌, ◌≤◌, ◌≡◌, refl, sym, ap, subst, ◌∙◌, ◌≢◌, true, false, ◌==◌, inl, inr, List, [], ◌∷◌,
  none, some, arith, length, if◌then◌else◌, ==-eq_true,
}
use tboost_stm.BloomFilter
use tboost_stm.StdMap
use tboost_stm.StdMap.{lookup-none-has_key, lookup-place_self}
use tboost_stm.BloomFilter.Laws.{exists-set_self}
use tboost_stm.Objects.{
  Object, Heap, invalid_thread, set_transaction_thread, new_copy, transaction_thread_at,
}
use tboost_stm.System.{Context, System, returns, final, context_of}
use tboost_stm.Transaction.Status.{forced_to_abort}
use tboost_stm.Transaction.Deferred.{
  deferred_read, deferred_write, open_for_write, surely_unwritten,
}
use tboost_stm.Transaction.Entries.{has_copy, Separate}
use tboost_stm.Transaction.WriteList.{
  Backed, Backed-fresh, Backed-shared, Backed-place, Separate-place,
}

-- What a thread's write list satisfies between two calls.
pub record IsPrivate {V : Type 0} (s : System V) (t : ℕ) : Type 0 where
  pub separate : Separate (context_of s t).write_mem
  pub backed : Backed s.heap (s.tx t).thread_id (context_of s t).write_mem
  pub allocated : 0 < s.heap.next
  pub tagged : (s.tx t).thread_id ≢ invalid_thread

pub listed_pos : (a b : ℕ) (m : List (ℕ × ℕ)) → StdMap.lookup a m ≡ some b → 0 < length m
unfolding StdMap.lookup
listed_pos a b [] h = cc
listed_pos a b (p ∷ m) h = omega arith

if_equal : {A : Type 0} {u : A} (v : A) (x y : ℕ) → x ≡ y → (if x == y then u else v) ≡ u
if_equal v x y e = rw (==-eq_true x y e) refl

not_skipped :
    (hash : ℕ → ℕ × ℕ) (a b : ℕ) (c : Context)
    → BloomFilter.exists hash a c.wbloom ≡ true
    → StdMap.lookup a c.write_mem ≡ some b
    → surely_unwritten hash c a ≡ false
unfolding surely_unwritten
not_skipped hash a b c listed found =
    let some_writes : 0 < length c.write_mem = listed_pos a b c.write_mem found in ground arith

module _ {V : Type 0} where
  pub Backed-grow :
      (h h' : Heap V) (th : ℕ) (m : List (ℕ × ℕ))
      → h.next ≤ h'.next
      → ((c : ℕ) → c < h.next → h'.cell c ≡ h.cell c)
      → Backed h th m
      → Backed h' th m
  Backed-grow h h' th [] n same k = tt
  Backed-grow h h' th ((a, b) ∷ m) n same k = (
    omega arith,
    omega arith,
    elim k.2 [ inl z ↦ inl z | inr tagged ↦ inr (rw (same b k.1) tagged) ],
    Backed-grow h h' th m n same k.3,
  )

module _ {V : Type 0} (hash : ℕ → ℕ × ℕ) where
  -- A write that returns changes no object that was allocated before it.
  pub deferred_write-other :
      (t a c : ℕ) (s : System V) {r : ℕ} {s' : System V}
      → deferred_write hash t a s ≡ returns r s'
      → c < s.heap.next
      → s'.heap.cell c ≡ s.heap.cell c
  unfolding deferred_write open_for_write new_copy set_transaction_thread
  deferred_write-other t a c s e l = ground arith

  -- The result of a write that opens an object.
  abbrev pub opened : ℕ → ℕ → System V → System V
  opened t a s = final (open_for_write hash t a s)

  pub opened-write_mem :
      (t a : ℕ) (s : System V)
      → StdMap.lookup a (context_of s t).write_mem ≡ none
      → (context_of (opened t a s) t).write_mem
        ≡ StdMap.place a s.heap.next (context_of s t).write_mem
  unfolding open_for_write StdMap.insert new_copy
  opened-write_mem t a s h = ground (arith, lookup-none-has_key a (context_of s t).write_mem)

  pub opened-next : (t a : ℕ) (s : System V) → (opened t a s).heap.next ≡ suc s.heap.next
  unfolding open_for_write new_copy set_transaction_thread
  opened-next t a s = refl

  pub opened-other :
      (t a c : ℕ) (s : System V) → c < s.heap.next → (opened t a s).heap.cell c ≡ s.heap.cell c
  unfolding open_for_write new_copy set_transaction_thread
  opened-other t a c s l = ground arith

  pub opened-thread :
      (t a : ℕ) (s : System V) → ((opened t a s).tx t).thread_id ≡ (s.tx t).thread_id
  unfolding open_for_write
  opened-thread t a s = refl

  -- The copy is tagged with the thread, if there is an object to copy.
  pub opened-tagged :
      (t a : ℕ) (s : System V) {o : Object V}
      → s.heap.cell a ≡ some o
      → transaction_thread_at (opened t a s).heap s.heap.next ≡ (s.tx t).thread_id
  unfolding open_for_write new_copy set_transaction_thread
  opened-tagged t a s e = ground arith

  -- Opening an object for writing keeps the write list private: no two entries overlap, all are
  -- allocated, and every copy carries the number of the transaction's thread. The object is allocated
  -- and shared, and the write list does not hold it yet.
  pub open_for_write-IsPrivate :
      (t a : ℕ) (s : System V) {o : Object V}
      → IsPrivate s t
      → StdMap.lookup a (context_of s t).write_mem ≡ none
      → s.heap.cell a ≡ some o
      → o.transaction_thread ≡ invalid_thread
      → 0 < a
      → a < s.heap.next
      → IsPrivate (final (open_for_write hash t a s)) t
  open_for_write-IsPrivate t a s {o} p absent live free pos l =
      let m = (context_of s t).write_mem in
      let th = (s.tx t).thread_id in
      let h' = (opened t a s).heap in
      let shared : transaction_thread_at s.heap a ≡ invalid_thread = rw live free in
      let nz : a ≢ 0 = omega arith in
      let fa : has_copy a m ≡ false = Backed-shared s.heap th m a p.backed p.tagged nz shared in
      let grown : h'.next ≡ suc s.heap.next = opened-next t a s in
      let mine : transaction_thread_at h' s.heap.next ≡ th = opened-tagged t a s live in
      let old : Backed h' th m =
        Backed-grow s.heap h' th m (omega arith) (λ c. opened-other t a c s) p.backed in
      record {
        separate = rw (opened-write_mem t a s absent) (
            Separate-place a s.heap.next m p.separate nz (omega arith) (omega (arith, p.allocated))
              (lookup-none-has_key a m absent, fa) (Backed-fresh s.heap th m p.backed));
        backed =
            rw (opened-write_mem t a s absent, opened-thread t a s)
              (Backed-place a s.heap.next h' th m old (omega arith) (omega arith) mine);
        allocated = omega arith;
        tagged = rw (opened-thread t a s) p.tagged;
      }

  pub opened-forced :
      (t a : ℕ) (s : System V) → forced_to_abort (opened t a s) t ≡ forced_to_abort s t
  unfolding open_for_write
  opened-forced t a s = ground arith

  pub opened-wbloom :
      (t a : ℕ) (s : System V)
      → BloomFilter.exists hash a (context_of (opened t a s) t).wbloom ≡ true
  unfolding open_for_write
  opened-wbloom t a s =
      rw (==-eq_true (s.tx t).thread_id (s.tx t).thread_id refl)
        (exists-set_self hash a (context_of s t).bloom (context_of s t).wbloom)

  pub write_opens :
      (t a : ℕ) (s : System V)
      → forced_to_abort s t ≡ false
      → StdMap.lookup a (context_of s t).write_mem ≡ none
      → transaction_thread_at s.heap a ≡ invalid_thread
      → deferred_write hash t a s ≡ open_for_write hash t a s
  unfolding deferred_write
  write_opens t a s free absent shared = rw (free, absent) (if_equal (returns a s) _ _ shared)

  pub opened-result :
      (t a : ℕ) (s : System V) {r : ℕ} {s' : System V}
      → open_for_write hash t a s ≡ returns r s'
      → s.heap.next ≡ r
  unfolding open_for_write new_copy
  opened-result t a s e = ground arith

  pub read_listed :
      (t a b : ℕ) (s : System V)
      → forced_to_abort s t ≡ false
      → BloomFilter.exists hash a (context_of s t).wbloom ≡ true
      → StdMap.lookup a (context_of s t).write_mem ≡ some b
      → deferred_read hash t a s ≡ returns b s
  unfolding deferred_read
  read_listed t a b s free listed found =
      rw (free, not_skipped hash a b (context_of s t) listed found, found) refl

  -- A transaction that is not forced to abort reads its own writes: after a write of a shared object that is not in the write list
  -- yet, a read returns the copy that the write returned, and changes nothing, however long the write
  -- list is.
  pub deferred_read-write :
      (t a r : ℕ) (s s' : System V)
      → forced_to_abort s t ≡ false
      → StdMap.lookup a (context_of s t).write_mem ≡ none
      → transaction_thread_at s.heap a ≡ invalid_thread
      → deferred_write hash t a s ≡ returns r s'
      → deferred_read hash t a s' ≡ returns r s'
  deferred_read-write t a r s s' free absent shared e =
      let e' : open_for_write hash t a s ≡ returns r s' =
        sym (write_opens t a s free absent shared) ∙ e in
      subst (λ z. deferred_read hash t a z ≡ returns r z) (ap final e')
        (read_listed t a r (opened t a s) (opened-forced t a s ∙ free) (opened-wbloom t a s) (
          rw (opened-write_mem t a s absent, ← opened-result t a s e')
            (lookup-place_self a s.heap.next _ (lookup-none-has_key a _ absent))))
