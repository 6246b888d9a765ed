-- ===== src/Transaction/Unwinding/Agreement.antt =====
-- Transactions that have worked on copies and on new objects only, and their abort.
use tboost_stm.Prelude.{ℕ, ◌<◌, ◌≤◌, ◌≡◌, sym, false, List, [], ◌∷◌, arith, All, subst}
use tboost_stm.Objects.{Heap, invalid_thread, delete, transaction_thread_at}
use tboost_stm.System.{System, Outcome, returns, throws, context_of}
use tboost_stm.Transaction.Abort.{deferred_abort, leave, delete_all, delete_copies}

-- What the code between the beginning and the end of a transaction calls.
pub data Call (V : Type 0) : Type 0 where
  read : ℕ → Call V
  write : ℕ → V → Call V
  create : V → Call V

module _ {V : Type 0} where
  -- A call that throws has aborted the transaction; one that returns is followed by an abort.
  abbrev pub unwound : ℕ → Outcome V ℕ → System V
  unwound t (returns _ s) = deferred_abort t s
  unwound t (throws s) = s

  -- The two heaps agree on every object below a bound.
  abbrev pub Agree : ℕ → Heap V → Heap V → Type 0
  Agree n h h' = (c : ℕ) → c < n → h'.cell c ≡ h.cell c

  -- The call writes no object that another thread has made for itself.
  abbrev pub Common : ℕ → Heap V → Call V → Type 0
  Common n h (read a) = Unit
  Common n h (write a v) = a < n → transaction_thread_at h a ≡ invalid_thread
  Common n h (create v) = Unit

  -- A transaction that has worked on copies and on new objects only.
  pub record IsUntouched (n : ℕ) (h : Heap V) (t : ℕ) (s : System V) : Type 0 where
    pub same : Agree n h s.heap
    pub grown : n ≤ s.heap.next
    pub copies : All (λ e. n ≤ e.1) (context_of s t).write_mem
    pub deferred : s.direct_updating ≡ false
    pub created : All (λ a. n ≤ a) (context_of s t).new_mem

  delete_copies-Agree :
      (n : ℕ) (h h' : Heap V) (m : List (ℕ × ℕ))
      → Agree n h h'
      → All (λ e. n ≤ e.1) m
      → Agree n h (delete_copies m h')
  unfolding delete_copies delete
  delete_copies-Agree n h h' [] same k = same
  delete_copies-Agree n h h' ((a, b) ∷ m) same k =
      delete_copies-Agree n h (delete b h') m
        (λ c l. let k0 = k.0 in let e = same c l in ground arith) k.1

  delete_all-Agree :
      (n : ℕ) (h h' : Heap V) (m : List ℕ)
      → Agree n h h'
      → All (λ a. n ≤ a) m
      → Agree n h (delete_all m h')
  unfolding delete_all delete
  delete_all-Agree n h h' [] same k = same
  delete_all-Agree n h h' (a ∷ m) same k =
      delete_all-Agree n h (delete a h') m (λ c l. let k0 = k.0 in let e = same c l in ground arith)
        k.1

  pub deferred_abort-heap :
      (t : ℕ) (s : System V)
      → (deferred_abort t s).heap
        ≡ delete_all (context_of s t).new_mem (delete_copies (context_of s t).write_mem s.heap)
  unfolding deferred_abort leave
  deferred_abort-heap t s = ground arith

  -- An abort of such a transaction leaves the objects as they were.
  pub deferred_abort-Agree :
      (n t : ℕ) (h : Heap V) (s : System V)
      → IsUntouched n h t s
      → Agree n h (deferred_abort t s).heap
  deferred_abort-Agree n t h s u = subst (Agree n h) (sym (deferred_abort-heap t s)) (
      delete_all-Agree n h (delete_copies (context_of s t).write_mem s.heap)
        (context_of s t).new_mem
        (delete_copies-Agree n h s.heap (context_of s t).write_mem u.same u.copies) u.created)
