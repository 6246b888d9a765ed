-- ===== src/Transaction/Atomic.antt =====
-- A transaction with deferred updating, from its first call to its commit, as one step on a memory.
pub mod Clients
pub mod Reads
pub mod Writes
pub mod Openings
pub mod Settled
pub mod Ending
use tboost_stm.Prelude.{
  ℕ, ◌<◌, ◌≡◌, ◌≢◌, refl, sym, ap, ◌∙◌, arith, Bool, true, false, List, [], Option, none, some,
}
use tboost_stm.StdMap
use tboost_stm.Objects.{Heap, invalid_thread}
use tboost_stm.System.{System, Outcome, returns, throws, update, context_of}
use tboost_stm.Transaction.Status.{forced_to_abort, in_flight, other_in_flight_same_thread}
use tboost_stm.Transaction.Deferred.{deferred_read, deferred_write, assign_through}
use tboost_stm.Contention.{ContentionManager}
use tboost_stm.Transaction.Commit.{end}
use tboost_stm.Transaction.Atomic.Clients.{
  Client, stop, reading, writing, atomically, Uses, value_at, with_value, and_then, Holds, Stores,
  AllOrNothing, perform, IsView,
}
use tboost_stm.Transaction.Atomic.Reads.{Finds, deferred_read-Finds}
use tboost_stm.Transaction.Atomic.Openings.{Leaves, deferred_write-Leaves}
use tboost_stm.Transaction.Atomic.Ending.{end-AllOrNothing}

-- A transaction that begins: nothing written, nothing created, and not forced to abort.
pub record IsBegun {V : Type 0} (s : System V) (t : ℕ) : Type 0 where
  pub deferred : s.direct_updating ≡ false
  pub unwritten : (context_of s t).write_mem ≡ []
  pub uncreated : (context_of s t).new_mem ≡ []
  pub free : forced_to_abort s t ≡ false
  pub flying : in_flight s t ≡ true
  pub alone : other_in_flight_same_thread s t ≡ false
  pub numbered : (s.tx t).thread_id ≢ invalid_thread
  pub allocated : 0 < s.heap.next

module _ {V : Type 0} (hash : ℕ → ℕ × ℕ) (D : ℕ → Type 0) (fl : List ℕ) (h : Heap V) (t : ℕ) where
  -- The program has run to its end, and the transaction sees its memory.
  abbrev Ends : (ℕ → V) → Outcome V Bool → Type 0
  Ends ν (returns true s) = IsView hash D fl h ν t s
  Ends ν (returns false s) = true ≡ false
  Ends ν (throws s) = true ≡ false

  goes_on-Ends :
      (μ ν : ℕ → V) (v : V) (f : V → System V → Outcome V Bool) (o : Outcome V ℕ)
      → Finds hash D fl h μ t v o
      → ((s : System V) → IsView hash D fl h μ t s → Ends ν (f v s))
      → Ends ν (and_then (λ b s. with_value s (λ u. f u s) (value_at s.heap b)) o)
  goes_on-Ends μ ν v f (returns b s) (w, e) g = rw e (g s w)
  goes_on-Ends μ ν v f (throws s) k g = cc

  follows-Ends :
      (μ ν : ℕ → V) (f : System V → Outcome V Bool) (o : Outcome V ℕ)
      → Leaves hash D fl h μ t μ o
      → ((s : System V) → IsView hash D fl h μ t s → Ends ν (f s))
      → Ends ν (and_then (λ _ s. f s) o)
  follows-Ends μ ν f (returns b s) w g = g s w
  follows-Ends μ ν f (throws s) k g = cc

  perform-Ends :
      (p : Client V) (μ μ0 : ℕ → V) (s : System V)
      → Stores D μ0 h
      → Uses D p
      → IsView hash D fl h μ t s
      → Ends (atomically p μ) (perform hash p t s)
  unfolding perform atomically
  perform-Ends stop μ μ0 s k u w = w
  perform-Ends (reading a f) μ μ0 s k u w =
      goes_on-Ends μ (atomically (f (μ a)) μ) (μ a) (λ v s'. perform hash (f v) t s')
        (deferred_read hash t a s) (deferred_read-Finds hash D fl h μ t a s w u.0)
        (λ s' w'. perform-Ends (f (μ a)) μ μ0 s' k (u.1 (μ a)) w')
  perform-Ends (writing a v p) μ μ0 s k u w =
      follows-Ends (update μ a v) (atomically p (update μ a v)) (λ s'. perform hash p t s')
        (assign_through v (deferred_write hash t a s))
        (deferred_write-Leaves hash D fl h μ t a v s w (λ c d. ((k c d).positive, (k c d).below))
          u.0 (k a u.0))
        (λ s' w'. perform-Ends p (update μ a v) μ0 s' k u.1 w')

module _ {V : Type 0} (hash : ℕ → ℕ × ℕ) (D : ℕ → Type 0) where
  begun-IsView :
      (t : ℕ) (μ : ℕ → V) (s : System V)
      → IsBegun s t
      → Stores D μ s.heap
      → IsView hash D s.in_flight s.heap μ t s
  unfolding StdMap.lookup
  begun-IsView t μ s b k = record {
    untouched = record {
      same = λ c l. refl;
      grown = omega arith;
      copies = rw b.unwritten tt;
      deferred = b.deferred;
      created = rw b.uncreated tt;
    };
    private = record {
      separate = rw b.unwritten tt;
      backed = rw b.unwritten tt;
      allocated = b.allocated;
      tagged = b.numbered;
    };
    free = b.free;
    flight = refl;
    flying = b.flying;
    alone = b.alone;
    covers = rw b.unwritten tt;
    sees = λ a d. rw (b.unwritten, (k a d).live, (k a d).value_eq) refl;
  }

  performed :
      (t : ℕ) (fl : List ℕ) (h : Heap V) (ν : ℕ → V) (o : Outcome V Bool)
      → Ends hash D fl h t ν o
      → (s' : System V) × (o ≡ returns true s') × IsView hash D fl h ν t s'
  performed t fl h ν (throws s') w = cc
  performed t fl h ν (returns false s') w = cc
  performed t fl h ν (returns true s') w = (s', refl, w)

  -- The program runs to its end.
  pub perform-IsView :
      (t : ℕ) (p : Client V) (μ : ℕ → V) (s : System V)
      → IsBegun s t
      → Stores D μ s.heap
      → Uses D p
      → (s' : System V) × (perform hash p t s ≡ returns true s')
        × IsView hash D s.in_flight s.heap (atomically p μ) t s'
  perform-IsView t p μ s b k u =
      performed t s.in_flight s.heap (atomically p μ) (perform hash p t s)
        (perform-Ends hash D s.in_flight s.heap t p μ μ s k u (begun-IsView t μ s b k))

module _ {V : Type 0} (hash : ℕ → ℕ × ℕ) (cm : ContentionManager) (now : ℕ) (D : ℕ → Type 0) where
  -- A transaction is atomic. A client's program that reads and writes objects of a set, with deferred
  -- updating and whatever it decides by what it reads, runs to its end without an exception; and the
  -- end of the transaction either returns, and the objects have the values that the program gives them
  -- on a memory of its own, or throws, and they have the values that they had. The transaction begins
  -- in flight, alone on its thread, with empty lists and not forced to abort, and nobody else runs
  -- between its calls; the objects carry no thread's number.
  pub end-perform :
      (t : ℕ) (p : Client V) (μ : ℕ → V) (s : System V)
      → IsBegun s t
      → Stores D μ s.heap
      → Uses D p
      → (s' : System V) × (perform hash p t s ≡ returns true s')
        × AllOrNothing D μ (atomically p μ) (end hash cm now t s')
  end-perform t p μ s b k u =
      let (s', e, w) = perform-IsView hash D t p μ s b k u in
      (s', e, end-AllOrNothing hash cm now D s.in_flight s.heap μ (atomically p μ) t s' k w)
