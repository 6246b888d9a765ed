-- ===== src/Transaction/Unwinding.antt =====
-- With deferred updating a transaction that ends in an abort, by its own call or because one of its
-- calls throws, has changed no object that was there when it began.
pub mod Agreement
use tboost_stm.Prelude.{
  ℕ, ◌<◌, ◌≤◌, ◌≡◌, refl, sym, ◌∙◌, false, ◌==◌, if◌then◌else◌, List, [], ◌∷◌, ◌++◌, some, arith,
  Bool-cases, Option-cases, inl, inr, ==-eq_true, All, if_both, ltb, ltb→lt, ℕ_discrete, subst, ap,
  Bool, not,
}
use tboost_stm.BloomFilter
use tboost_stm.StdMap
use tboost_stm.Contention.{ContentionManager}
use tboost_stm.Objects.{
  Heap, invalid_thread, set_transaction_thread, set_new_memory, new_copy, new_object, delete,
  transaction_thread_at, thread_of, assign,
}
use tboost_stm.System.{System, Outcome, returns, throws, final, context_of, set_heap}
use tboost_stm.Transaction.Status.{forced_to_abort}
use tboost_stm.Transaction.Abort.{deferred_abort, leave, delete_all, delete_copies}
use tboost_stm.Transaction.Deferred.{
  deferred_read, deferred_write, open_for_write, surely_unwritten, insert_and_return_read_memory,
  new_memory, assign_through,
}
use tboost_stm.Transaction.Unwinding.Agreement.{
  Call, read, write, create, unwound, Agree, Common, IsUntouched, deferred_abort-Agree,
}
use tboost_stm.StdMap.Entries.{All-insert, All-lookup}

if_not : {A : Type 0} {u : A} (v : A) (b : Bool) → b ≡ false → (if not b then u else v) ≡ u
if_not v b e = rw e refl

All-snoc : (P : ℕ → Type 0) (m : List ℕ) (a : ℕ) → All P m → P a → All P (m ++ a ∷ [])
All-snoc P [] a k p = (p, tt)
All-snoc P (x ∷ m) a k p = (k.0, All-snoc P m a k.1 p)

module _ {V : Type 0} where
  -- A transaction that goes on is untouched, and one that has thrown has left the objects alone.
  abbrev pub Kept : ℕ → Heap V → ℕ → Outcome V ℕ → Type 0
  Kept n h t (returns _ s) = IsUntouched n h t s
  Kept n h t (throws s) = Agree n h s.heap

module _ {V : Type 0} (hash : ℕ → ℕ × ℕ) where
  pub noted-Kept :
      (n t a : ℕ) (h : Heap V) (s : System V)
      → IsUntouched n h t s
      → Kept n h t (insert_and_return_read_memory hash t a s)
  unfolding insert_and_return_read_memory
  noted-Kept n t a h s u =
      if_both (Kept n h t) (BloomFilter.exists hash a (context_of s t).bloom) _ _ u (record {
        same = u.same;
        grown = u.grown;
        copies =
            rw (==-eq_true t t refl, ==-eq_true (s.tx t).thread_id (s.tx t).thread_id refl)
              u.copies;
        deferred = u.deferred;
        created =
            rw (==-eq_true t t refl, ==-eq_true (s.tx t).thread_id (s.tx t).thread_id refl)
              u.created;
      })

  read-Kept :
      (n t a : ℕ) (h : Heap V) (s : System V)
      → IsUntouched n h t s
      → Kept n h t (deferred_read hash t a s)
  unfolding deferred_read
  read-Kept n t a h s u =
      if_both (Kept n h t) (forced_to_abort s t) _ _ (deferred_abort-Agree n t h s u) (
        if_both (Kept n h t) (surely_unwritten hash (context_of s t) a) _ _ (noted-Kept n t a h s u)
          (elim (Option-cases (StdMap.lookup a (context_of s t).write_mem)) [
            | inl absent ↦ rw absent (noted-Kept n t a h s u)
            | inr (b, found) ↦ rw found u
          ]))

  pub assign-Untouched :
      (n t b : ℕ) (v : V) (h : Heap V) (s : System V)
      → IsUntouched n h t s
      → n ≤ b
      → IsUntouched n h t (set_heap s (assign b v s.heap))
  unfolding assign
  assign-Untouched n t b v h s u le = record {
    same = λ c l. let e = u.same c l in ground arith;
    grown = u.grown;
    copies = u.copies;
    deferred = u.deferred;
    created = u.created;
  }

  pub opened-Untouched :
      (n t a : ℕ) (h : Heap V) (s : System V)
      → IsUntouched n h t s
      → IsUntouched n h t (final (open_for_write hash t a s))
  unfolding open_for_write new_copy set_transaction_thread
  opened-Untouched n t a h s u = record {
    same = λ c l. let e = u.same c l in let g = u.grown in ground arith;
    grown = omega (arith, u.grown);
    copies =
        rw (==-eq_true (s.tx t).thread_id (s.tx t).thread_id refl)
          (All-insert (λ e. n ≤ e.1) a s.heap.next (context_of s t).write_mem u.copies u.grown);
    deferred = u.deferred;
    created = rw (==-eq_true (s.tx t).thread_id (s.tx t).thread_id refl) u.created;
  }

  open-Untouched :
      (n t a : ℕ) (v : V) (h : Heap V) (s : System V)
      → IsUntouched n h t s
      → Kept n h t (assign_through v (open_for_write hash t a s))
  unfolding open_for_write new_copy assign_through
  open-Untouched n t a v h s u =
      assign-Untouched n t s.heap.next v h (final (open_for_write hash t a s))
        (opened-Untouched n t a h s u) u.grown

  write-Kept :
      (n t a : ℕ) (v : V) (h : Heap V) (s : System V)
      → IsUntouched n h t s
      → (a < n → transaction_thread_at h a ≡ invalid_thread)
      → Kept n h t (assign_through v (deferred_write hash t a s))
  unfolding deferred_write assign_through
  write-Kept n t a v h s u free =
      if_both P (forced_to_abort s t) _ _ (deferred_abort-Agree n t h s u)
        (elim (Option-cases (StdMap.lookup a (context_of s t).write_mem)) [
          | inl absent ↦
              rw absent (elim (Bool-cases (transaction_thread_at s.heap a == invalid_thread)) [
                | inl common ↦ rw common (open-Untouched n t a v h s u)
                | inr own ↦ rw own (assign-Untouched n t a v h s u (own_above own))
              ])
          | inr (b, found) ↦ rw found (
              assign-Untouched n t b v h s u
                (All-lookup (λ e. n ≤ e.1) a b (context_of s t).write_mem u.copies found).1)
        ])
    where
      P : Outcome V ℕ → Type 0
      P o = Kept n h t (assign_through v o)

      own_above : (transaction_thread_at s.heap a == invalid_thread) ≡ false → n ≤ a
      own_above own = elim (Bool-cases (ltb a n)) [
        | inl below ↦
            let l = ltb→lt a n below in
            let free_now = ==-eq_true _ _ (ap thread_of (u.same a l) ∙ free l) in cc
        | inr above ↦ ground arith
      ]

module _ {V : Type 0} (hash : ℕ → ℕ × ℕ) (cm : ContentionManager) where
  -- What a call of a transaction with deferred updating does.
  pub call : Call V → ℕ → System V → Outcome V ℕ
  call (read a) t s = deferred_read hash t a s
  call (write a v) t s = assign_through v (deferred_write hash t a s)
  call (create v) t s = new_memory cm v t s

  abbrev and_then : (System V → Outcome V ℕ) → Outcome V ℕ → Outcome V ℕ
  and_then f (returns _ s) = f s
  and_then f (throws s) = throws s

  -- The calls up to the first that throws.
  pub run : List (Call V) → ℕ → System V → Outcome V ℕ
  run [] t s = returns 0 s
  run (c ∷ cs) t s = and_then (run cs t) (call c t s)

  create-Kept :
      (n t : ℕ) (v : V) (h : Heap V) (s : System V)
      → IsUntouched n h t s
      → Kept n h t (new_memory cm v t s)
  unfolding new_memory new_object set_transaction_thread set_new_memory
  create-Kept n t v h s u =
      if_both (Kept n h t) (forced_to_abort s t) _ _
        (subst (Kept n h t) (sym (if_not _ s.direct_updating u.deferred))
          (deferred_abort-Agree n t h s u))
        (record {
          same = λ c l. let e = u.same c l in let g = u.grown in ground arith;
          grown = omega (arith, u.grown);
          copies = rw (==-eq_true (s.tx t).thread_id (s.tx t).thread_id refl) u.copies;
          deferred = u.deferred;
          created =
              rw (==-eq_true (s.tx t).thread_id (s.tx t).thread_id refl)
                (All-snoc (λ a. n ≤ a) (context_of s t).new_mem s.heap.next u.created u.grown);
        })

  call-Kept :
      (n t : ℕ) (c : Call V) (h : Heap V) (s : System V)
      → IsUntouched n h t s
      → Common n h c
      → Kept n h t (call c t s)
  unfolding call
  call-Kept n t (read a) h s u w = read-Kept hash n t a h s u
  call-Kept n t (write a v) h s u w = write-Kept hash n t a v h s u w
  call-Kept n t (create v) h s u w = create-Kept n t v h s u

  and_then-Kept :
      (n t : ℕ) (h : Heap V) (f : System V → Outcome V ℕ) (o : Outcome V ℕ)
      → ((s : System V) → IsUntouched n h t s → Kept n h t (f s))
      → Kept n h t o
      → Kept n h t (and_then f o)
  and_then-Kept n t h f (returns r s) g k = g s k
  and_then-Kept n t h f (throws s) g k = k

  run-Kept :
      (n t : ℕ) (cs : List (Call V)) (h : Heap V) (s : System V)
      → IsUntouched n h t s
      → All (Common n h) cs
      → Kept n h t (run cs t s)
  unfolding run
  run-Kept n t [] h s u w = u
  run-Kept n t (c ∷ cs) h s u w =
      and_then-Kept n t h (run cs t) (call c t s) (λ s' k. run-Kept n t cs h s' k w.1)
        (call-Kept n t c h s u w.0)

  unwound-Agree :
      (n t : ℕ) (h : Heap V) (o : Outcome V ℕ) → Kept n h t o → Agree n h (unwound t o).heap
  unwound-Agree n t h (returns r s) k = deferred_abort-Agree n t h s k
  unwound-Agree n t h (throws s) k = k

  -- Whatever a transaction reads, writes and creates, and wherever a call throws: after its abort
  -- every object that was there when it began is as it was. The transaction begins with deferred
  -- updating and with empty lists, and writes no object that carries the number of a thread.
  pub run-Agree :
      (t : ℕ) (cs : List (Call V)) (s : System V)
      → s.direct_updating ≡ false
      → (context_of s t).write_mem ≡ []
      → (context_of s t).new_mem ≡ []
      → All (Common s.heap.next s.heap) cs
      → Agree s.heap.next s.heap (unwound t (run cs t s)).heap
  run-Agree t cs s d w c p = unwound-Agree s.heap.next t s.heap (run cs t s) (
      run-Kept s.heap.next t cs s.heap s
        (record {
          same = λ c l. refl;
          grown = omega arith;
          copies = rw w tt;
          deferred = d;
          created = rw c tt;
        })
        p)
