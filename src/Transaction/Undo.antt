-- ===== src/Transaction/Undo.antt =====
-- Direct updating: an abort undoes a write in place.
use tboost_stm.Prelude.{
  ℕ, ◌<◌, ◌≡◌, ◌≢◌, refl, sym, ap, subst, ◌∙◌, false, ◌==◌, if◌then◌else◌, [], some, arith,
  ==-eq_true, ==-eq_false,
}
use tboost_stm.BloomFilter
use tboost_stm.StdMap
use tboost_stm.Contention.{ContentionManager}
use tboost_stm.Objects.{
  Object, Heap, invalid_thread, set_transaction_thread, new_copy, copy_state, delete,
  transaction_thread_at, assign,
}
use tboost_stm.System.{System, Outcome, returns, throws, final, context_of, set_context, set_heap}
use tboost_stm.Transaction.Status.{forced_to_abort}
use tboost_stm.Transaction.Abort.{
  direct_abort, leave, delete_all, disown_all, restore, restore_entry,
}
use tboost_stm.Transaction.Direct.{direct_write, take_for_write}

if_equal : {A : Type 0} {v : A} (u : A) (x y : ℕ) → x ≡ y → (if x == y then v else u) ≡ v
if_equal u x y e = rw (==-eq_true x y e) refl

module _ {V : Type 0} where
  -- The value that a call returns.
  abbrev result : Outcome V ℕ → ℕ
  result (returns r s) = r
  result (throws s) = 0

  direct_abort-heap :
      (t : ℕ) (s : System V)
      → (direct_abort t s).heap
        ≡ delete_all
            (context_of s t).new_mem
            (disown_all (context_of s t).del_mem (restore (context_of s t).write_mem s.heap))
  unfolding direct_abort leave
  direct_abort-heap t s = ground arith

  -- Taking an object, saving it, changing it and restoring it.
  restored :
      (th a : ℕ) (v : V) (h : Heap V) {x : Object V}
      → h.cell a ≡ some x
      → 0 < a
      → a < h.next
      → (restore_entry a h.next (assign a v (new_copy a (set_transaction_thread th a h)).1)).cell a
        ≡ some (record x { transaction_thread = invalid_thread })
  unfolding restore_entry assign new_copy set_transaction_thread copy_state delete
  restored th a v h live pos l = ground arith

  -- An object that carries no thread's number is equal to itself without one.
  disowned :
      (x : Object V)
      → x.transaction_thread ≡ invalid_thread
      → record x { transaction_thread = invalid_thread } ≡ x
  disowned x free = rw (← free) refl

module _ {V : Type 0} (hash : ℕ → ℕ × ℕ) (cm : ContentionManager) where
  -- The state after a first write of a shared object.
  abbrev taken : ℕ → ℕ → System V → System V
  taken t a s =
      let c = context_of s t in
      set_context (set_heap s (new_copy a (set_transaction_thread (s.tx t).thread_id a s.heap)).1) t
        (record c {
          write_mem = StdMap.insert a s.heap.next c.write_mem;
          bloom = BloomFilter.insert hash a c.bloom;
        })

  write_takes :
      (t a : ℕ) (s : System V)
      → transaction_thread_at s.heap a ≡ invalid_thread
      → (s.tx t).thread_id ≢ invalid_thread
      → forced_to_abort s t ≡ false
      → direct_write hash cm t a s ≡ returns a (taken t a s)
  unfolding direct_write take_for_write new_copy set_transaction_thread
  write_takes t a s shared tagged go =
      rw (==-eq_false _ _ (λ e. tagged (sym e ∙ shared)), go) (if_equal _ _ _ shared)

  undone :
      (t a : ℕ) (v : V) (s : System V)
      → (context_of s t).write_mem ≡ []
      → (context_of s t).new_mem ≡ []
      → (context_of s t).del_mem ≡ []
      → (direct_abort t (set_heap (taken t a s) (assign a v (taken t a s).heap))).heap
        ≡ restore_entry a s.heap.next
            (assign a v (new_copy a (set_transaction_thread (s.tx t).thread_id a s.heap)).1)
  unfolding restore disown_all delete_all StdMap.insert StdMap.has_key StdMap.place
  undone t a v s w n d =
      rw
        (
          direct_abort-heap t (set_heap (taken t a s) (assign a v (taken t a s).heap)),
          ==-eq_true (s.tx t).thread_id (s.tx t).thread_id refl,
          w,
          n,
          d,
        )
        refl

  -- Direct updating: an object that a transaction has written in its first write, and changed
  -- through the reference, is after the abort what it was before. The object is shared, the
  -- transaction is not forced to abort, and its lists are empty.
  pub direct_abort-write :
      (t a r : ℕ) (v : V) (s s' : System V) {x : Object V}
      → (context_of s t).write_mem ≡ []
      → (context_of s t).new_mem ≡ []
      → (context_of s t).del_mem ≡ []
      → s.heap.cell a ≡ some x
      → x.transaction_thread ≡ invalid_thread
      → (s.tx t).thread_id ≢ invalid_thread
      → forced_to_abort s t ≡ false
      → 0 < a
      → a < s.heap.next
      → direct_write hash cm t a s ≡ returns r s'
      → (direct_abort t (set_heap s' (assign r v s'.heap))).heap.cell a ≡ some x
  direct_abort-write t a r v s s' {x} w n d live free tagged go pos l e =
      let shared : transaction_thread_at s.heap a ≡ invalid_thread = rw live free in
      let e' : returns a (taken t a s) ≡ returns r s' =
        sym (write_takes t a s shared tagged go) ∙ e in
      let same : a ≡ r = ap result e' in
      subst (λ b. (direct_abort t (set_heap s' (assign b v s'.heap))).heap.cell a ≡ some x) same
        (subst (λ z. (direct_abort t (set_heap z (assign a v z.heap))).heap.cell a ≡ some x)
          (ap final e')
          (ap (λ h. h.cell a) (undone t a v s w n d)
            ∙ restored (s.tx t).thread_id a v s.heap live pos l
            ∙ ap some (disowned x free)))
