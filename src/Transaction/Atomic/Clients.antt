-- ===== src/Transaction/Atomic/Clients.antt =====
-- A client's code as a program, what it does through the calls of a transaction, and what it would do
-- to a memory of its own. Reads decide what comes next.
use tboost_stm.Prelude.{ℕ, ◌<◌, ◌≡◌, Bool, true, false, List, Option, none, some}
use tboost_stm.StdMap
use tboost_stm.Objects.{Object, Heap, invalid_thread}
use tboost_stm.System.{System, Outcome, returns, throws, update, context_of}
use tboost_stm.Transaction.Status.{forced_to_abort, in_flight, other_in_flight_same_thread}
use tboost_stm.Transaction.Deferred.{deferred_read, deferred_write, assign_through}
use tboost_stm.Transaction.Invalidation.Scan.{WbloomCovers}
use tboost_stm.Transaction.Isolation.{IsPrivate}
use tboost_stm.Transaction.Unwinding.Agreement.{IsUntouched}

-- Reads of objects, of which the value decides how to go on, and writes of values.
pub data Client (V : Type 0) : Type 0 where
  stop : Client V
  reading : ℕ → (V → Client V) → Client V
  writing : ℕ → V → Client V → Client V

module _ {V : Type 0} where
  -- The program on a memory that nobody else uses.
  unfoldable pub atomically : Client V → (ℕ → V) → ℕ → V
  atomically stop μ = μ
  atomically (reading a k) μ = atomically (k (μ a)) μ
  atomically (writing a v p) μ = atomically p (update μ a v)

  -- The program uses the objects of a set only.
  abbrev pub Uses : (ℕ → Type 0) → Client V → Type 0
  Uses D stop = Unit {0}
  Uses D (reading a k) = D a × ((v : V) → Uses D (k v))
  Uses D (writing a v p) = D a × Uses D p

  abbrev pub value_of : Option (Object V) → Option V
  value_of none = none
  value_of (some o) = some o.value

  -- The value behind a reference, if it is one to an object.
  abbrev pub value_at : Heap V → ℕ → Option V
  value_at h a = value_of (h.cell a)

  abbrev pub with_value : System V → (V → Outcome V Bool) → Option V → Outcome V Bool
  with_value s f none = returns false s
  with_value s f (some v) = f v

  abbrev pub and_then : (ℕ → System V → Outcome V Bool) → Outcome V ℕ → Outcome V Bool
  and_then f (returns b s) = f b s
  and_then f (throws s) = throws s

  -- An object that a transaction may open, with its value.
  pub record Holds (h : Heap V) (v : V) (a : ℕ) : Type 0 where
    pub object : Object V
    pub live : h.cell a ≡ some object
    pub value_eq : object.value ≡ v
    pub common : object.transaction_thread ≡ invalid_thread
    pub positive : 0 < a
    pub below : a < h.next

  -- The objects of a set have the values of the memory.
  abbrev pub Stores : (ℕ → Type 0) → (ℕ → V) → Heap V → Type 0
  Stores D μ h = (a : ℕ) → D a → Holds h (μ a) a

  -- All or nothing: after a commit the objects have the values of the second memory, and after an
  -- exception those of the first.
  abbrev pub AllOrNothing : (ℕ → Type 0) → (ℕ → V) → (ℕ → V) → Outcome V (Unit {0}) → Type 0
  AllOrNothing D μ ν (returns _ s) = Stores D ν s.heap
  AllOrNothing D μ ν (throws s) = Stores D μ s.heap

module _ {V : Type 0} (hash : ℕ → ℕ × ℕ) where
  -- The program through a transaction. The flag is false where a call returns a reference to no
  -- object, and the program cannot go on.
  unfoldable pub perform : Client V → ℕ → System V → Outcome V Bool
  perform stop t s = returns true s
  perform (reading a k) t s =
      and_then (λ b s'. with_value s' (λ v. perform (k v) t s') (value_at s'.heap b))
        (deferred_read hash t a s)
  perform (writing a v p) t s =
      and_then (λ _ s'. perform p t s') (assign_through v (deferred_write hash t a s))

-- Where a transaction finds the object: in the copy of the write list, or in place.
abbrev pub place_of : ℕ → Option ℕ → ℕ
place_of a none = a
place_of a (some b) = b

-- What holds between the calls of a transaction that began with a heap: to the transaction the
-- objects have the values of the memory.
pub record IsView {V : Type 0} (hash : ℕ → ℕ × ℕ) (D : ℕ → Type 0) (fl : List ℕ) (h : Heap V)
    (μ : ℕ → V) (t : ℕ) (s : System V) : Type 0 where
  pub untouched : IsUntouched h.next h t s
  pub private : IsPrivate s t
  pub free : forced_to_abort s t ≡ false
  pub flight : s.in_flight ≡ fl
  pub flying : in_flight s t ≡ true
  pub alone : other_in_flight_same_thread s t ≡ false
  pub covers : WbloomCovers hash s t
  pub sees :
      (a : ℕ)
      → D a
      → value_at s.heap (place_of a (StdMap.lookup a (context_of s t).write_mem)) ≡ some (μ a)
