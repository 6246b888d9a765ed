-- ===== src/Transaction/Pointers.antt =====
-- boost/stm/detail/tx_ptr.hpp: pointers to transactional objects that follow the object to the
-- transaction's copy.
pub mod Following
use tboost_stm.Prelude.{ℕ, Bool, true, false, ◌==◌, if◌then◌else◌, Option, none, some}
use tboost_stm.Contention.{ContentionManager}
use tboost_stm.Objects.{Object, Heap, assign}
use tboost_stm.System.{System, Outcome, returns, throws, set_heap}
use tboost_stm.Transaction.Status.{forced_to_abort}
use tboost_stm.Transaction.Abort.{abort}
use tboost_stm.Transaction.Deferred.{assign_through}
use tboost_stm.Transaction.Access.{read, write, get_written}

-- `read_ptr<T>`
pub record ReadPtr : Type 0 where
  pub transaction : ℕ
  pub tx_ptr : ℕ
  pub written : Bool

-- `write_ptr<T>`
pub record WritePtr : Type 0 where
  pub transaction : ℕ
  pub tx_obj : ℕ

module _ {V : Type 0} where
  -- How the members of both classes begin.
  abbrev pub throw_if_forced : {A : Type 0} → ℕ → Outcome V A → System V → Outcome V A
  unfolding abort
  throw_if_forced t o s = if forced_to_abort s t then throws (abort t s) else o

  -- The pointer holds the written object from now on.
  abbrev pub holding : ReadPtr → ℕ → System V → Outcome V (ℕ × ReadPtr)
  holding r b s = returns (b, record r { tx_ptr = b; written = true }) s

  -- `read_ptr::get`, and the two operators, which call it
  unfoldable pub get : ReadPtr → System V → Outcome V (ℕ × ReadPtr)
  unfolding get_written
  get r s =
      let temp = get_written r.transaction r.tx_ptr s in
      throw_if_forced r.transaction
        (if r.written
          then returns (r.tx_ptr, r) s
          else if temp == 0
          then returns (r.tx_ptr, r) s
          else holding r temp s)
        s

  -- `write_ptr::operator*` and `write_ptr::operator->`
  unfoldable pub dereference : WritePtr → System V → Outcome V ℕ
  dereference p s = throw_if_forced p.transaction (returns p.tx_obj s) s

module _ {V : Type 0} (hash : ℕ → ℕ × ℕ) (cm : ContentionManager) where
  abbrev pointing : ℕ → Outcome V ℕ → Outcome V ReadPtr
  pointing t (returns b s) = returns (record { transaction = t; tx_ptr = b; written = false }) s
  pointing t (throws s) = throws s

  -- The constructor of `read_ptr`.
  unfoldable pub read_ptr : ℕ → ℕ → System V → Outcome V ReadPtr
  unfolding read
  read_ptr t a s = pointing t (read hash cm t a s)

  abbrev pub held : ReadPtr → Outcome V ℕ → Outcome V (ℕ × ReadPtr)
  held r (returns b s) = holding r b s
  held r (throws s) = throws s

  -- `read_ptr::write_ptr`
  unfoldable pub write_through : ReadPtr → System V → Outcome V (ℕ × ReadPtr)
  unfolding get_written write
  write_through r s =
      let temp = get_written r.transaction r.tx_ptr s in
      throw_if_forced r.transaction
        (if r.written
          then returns (r.tx_ptr, r) s
          else if temp == 0
          then held r (write hash cm r.transaction r.tx_ptr s)
          else holding r temp s)
        s

  abbrev writing_to : ℕ → Outcome V ℕ → Outcome V WritePtr
  writing_to t (returns b s) = returns (record { transaction = t; tx_obj = b }) s
  writing_to t (throws s) = throws s

  -- The constructor of the class `write_ptr`.
  unfoldable pub write_ptr : ℕ → ℕ → System V → Outcome V WritePtr
  unfolding write
  write_ptr t a s = writing_to t (write hash cm t a s)

-- `protected_ptr<T>`: a transactional object whose value is a pointer, given by its address. A
-- reference to no object is an error of the caller, here the null pointer.
abbrev pub pointee : Option (Object ℕ) → ℕ
pointee none = 0
pointee (some o) = o.value

-- `unsafe_get`
unfoldable pub unsafe_get : ℕ → System ℕ → ℕ
unsafe_get a s = pointee (s.heap.cell a)

-- `unsafe_reset`
unfoldable pub unsafe_reset : ℕ → ℕ → System ℕ → System ℕ
unfolding assign
unsafe_reset new_value a s = set_heap s (assign a new_value s.heap)

-- `std::swap` of the values behind two references.
unfoldable pub swap_values : ℕ → ℕ → Heap ℕ → Heap ℕ
unfolding assign
swap_values b1 b2 h = assign b2 (pointee (h.cell b1)) (assign b1 (pointee (h.cell b2)) h)

module _ (hash : ℕ → ℕ × ℕ) (cm : ContentionManager) where
  abbrev pointee_at : Outcome ℕ ℕ → Outcome ℕ ℕ
  pointee_at (returns b s) = returns (pointee (s.heap.cell b)) s
  pointee_at (throws s) = throws s

  -- `protected_ptr::get`
  unfoldable pub protected_get : ℕ → ℕ → System ℕ → Outcome ℕ ℕ
  unfolding read
  protected_get t a s = pointee_at (read hash cm t a s)

  -- `protected_ptr::reset`
  unfoldable pub reset : ℕ → ℕ → ℕ → System ℕ → Outcome ℕ ℕ
  unfolding write assign_through
  reset new_value t a s = assign_through new_value (write hash cm t a s)

  abbrev swapped : ℕ → Outcome ℕ ℕ → Outcome ℕ (Unit {0})
  unfolding swap_values
  swapped b1 (returns b2 s) = returns tt (set_heap s (swap_values b1 b2 s.heap))
  swapped b1 (throws s) = throws s

  abbrev swap_with : ℕ → ℕ → Outcome ℕ ℕ → Outcome ℕ (Unit {0})
  unfolding write swap_values
  swap_with t rhs (returns b1 s) = swapped b1 (write hash cm t rhs s)
  swap_with t rhs (throws s) = throws s

  -- `protected_ptr::swap`
  unfoldable pub swap : ℕ → ℕ → ℕ → System ℕ → Outcome ℕ (Unit {0})
  unfolding write swap_values
  swap rhs t a s = swap_with t rhs (write hash cm t a s)
