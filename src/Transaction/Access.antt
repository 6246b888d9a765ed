-- ===== src/Transaction/Access.antt =====
-- boost/stm/transaction.hpp: the calls of the client, with deferred or with direct updating, and what
-- stands beside them.
use tboost_stm.Prelude.{
  ℕ, ◌==◌, Bool, true, false, not, if◌then◌else◌, List, [], ◌∷◌, ◌++◌, Option, none, some,
}
use tboost_stm.BloomFilter
use tboost_stm.StdMap
use tboost_stm.Contention.{ContentionManager}
use tboost_stm.Objects.{
  Heap, Object, invalid_thread, new_copy, new_object, set_new_memory, set_transaction_thread,
  transaction_thread_at,
}
use tboost_stm.System.{System, Outcome, returns, throws, context_of, set_context, set_heap}
use tboost_stm.Transaction.Status.{forced_to_abort, in_flight, make_irrevocable}
use tboost_stm.Transaction.Abort.{deferred_abort, direct_abort, Restarted, restarted, restart}
use tboost_stm.Transaction.Deferred.{deferred_read, deferred_write, deferred_delete_memory}
use tboost_stm.Transaction.Direct.{direct_read, direct_write, direct_delete_memory}

-- The loop of `find_original`: the original of a copy, by the copy's address.
unfoldable pub original_of : ℕ → List (ℕ × ℕ) → Option ℕ
original_of b [] = none
original_of b ((a, c) ∷ l) = if c == b then some a else original_of b l

-- `in.new_memory()`; an address with no object is an error of the caller.
abbrev pub new_memory_of : {V : Type 0} → Option (Object V) → ℕ
new_memory_of none = 0
new_memory_of (some o) = o.new_memory

-- The value of a call that returns nothing.
abbrev pub ignore_value : {V : Type 0} → Outcome V ℕ → Outcome V (Unit {0})
ignore_value (returns a s) = returns tt s
ignore_value (throws s) = throws s

module _ {V : Type 0} where
  unfoldable pub find_original : ℕ → ℕ → System V → Outcome V ℕ
  unfolding original_of
  find_original t a s =
      if new_memory_of (s.heap.cell a) == 1
      then returns a s
      else if transaction_thread_at s.heap a == invalid_thread
      then returns a s
      else elim (original_of a (context_of s t).write_mem) [
        | none ↦ throws s
        | some o ↦ returns o s
      ]

  -- The address of the written value, or the null pointer.
  unfoldable pub get_written : ℕ → ℕ → System V → ℕ
  get_written t a s =
      if s.direct_updating
      then if transaction_thread_at s.heap a == (s.tx t).thread_id then a else 0
      else elim (StdMap.lookup a (context_of s t).write_mem) [ none ↦ 0 | some b ↦ b ]

  -- `as_new`
  unfoldable pub as_new : ℕ → ℕ → System V → System V
  as_new t a s =
      let c = context_of s t in
      set_context
        (set_heap s (set_new_memory 1 a (set_transaction_thread (s.tx t).thread_id a s.heap))) t
        (record c { new_mem = c.new_mem ++ a ∷ [] })

  -- A change of the policy, as long as no transaction is in flight: whether it was made.
  abbrev pub if_idle : List ℕ → Bool × System V → System V → Bool × System V
  if_idle [] changed s = changed
  if_idle (i ∷ is) changed s = (false, s)

  unfoldable pub do_direct_updating : System V → Bool × System V
  do_direct_updating s = if_idle s.in_flight (true, record s { direct_updating = true }) s

  unfoldable pub do_deferred_updating : System V → Bool × System V
  do_deferred_updating s = if_idle s.in_flight (true, record s { direct_updating = false }) s

  -- One round of `restart_if_not_inflight`.
  unfoldable pub restart_if_not_inflight : ℕ → System V → Restarted V
  unfolding restart
  restart_if_not_inflight t s = if in_flight s t then restarted s else restart t s

module _ {V : Type 0} (cm : ContentionManager) where
  -- `throw_if_forced_to_abort_on_new`, which `new_memory_copy` and `new_shared_memory` have written
  -- out.
  unfoldable pub throw_if_forced_to_abort_on_new : ℕ → System V → Outcome V (Unit {0})
  unfolding deferred_abort direct_abort
  throw_if_forced_to_abort_on_new t s =
      if forced_to_abort s t
      then if not s.direct_updating
        then throws (deferred_abort t s)
        else if cm.abort_on_new
        then throws (direct_abort t s)
        else returns tt s
      else returns tt s

  abbrev pub made_new : ℕ → ℕ × Heap V → System V → Outcome V ℕ
  unfolding as_new
  made_new t (a, h) s = returns a (as_new t a (set_heap s h))

  unfoldable pub new_memory_copy : ℕ → ℕ → System V → Outcome V ℕ
  unfolding throw_if_forced_to_abort_on_new as_new new_copy
  new_memory_copy rhs t s = elim (throw_if_forced_to_abort_on_new t s) [
    | throws s' ↦ throws s'
    | returns u s' ↦ made_new t (new_copy rhs s'.heap) s'
  ]

  -- `new_shared_memory`, of an object with the value `v`: with one round of the loop of
  -- `make_irrevocable`, after which the transaction is irrevocable, or the code is still in the loop
  -- (`none`).
  unfoldable pub new_shared_memory : V → ℕ → System V → Outcome V (Option ℕ)
  unfolding throw_if_forced_to_abort_on_new as_new new_object make_irrevocable
  new_shared_memory v t s = elim (throw_if_forced_to_abort_on_new t s) [
    | throws s' ↦ throws s'
    | returns u s' ↦
        let (s'', over) = make_irrevocable t s' in
        let (a, h) = new_object v s''.heap in
        if over then returns (some a) (as_new t a (set_heap s'' h)) else returns none s''
  ]

module _ {V : Type 0} (hash : ℕ → ℕ × ℕ) (cm : ContentionManager) where
  unfoldable pub read : ℕ → ℕ → System V → Outcome V ℕ
  unfolding direct_read deferred_read
  read t a s = if s.direct_updating then direct_read hash cm t a s else deferred_read hash t a s

  unfoldable pub write : ℕ → ℕ → System V → Outcome V ℕ
  unfolding direct_write deferred_write
  write t a s = if s.direct_updating then direct_write hash cm t a s else deferred_write hash t a s

  unfoldable pub delete_memory : ℕ → ℕ → System V → Outcome V (Unit {0})
  unfolding direct_delete_memory deferred_delete_memory
  delete_memory t a s =
      if s.direct_updating
      then ignore_value (direct_delete_memory hash cm t a s)
      else deferred_delete_memory hash t a s

  -- `read_ptr`, `write_ptr`: the null pointer is passed on.
  unfoldable pub read_ptr : ℕ → ℕ → System V → Outcome V ℕ
  unfolding read
  read_ptr t a s = if a == 0 then returns 0 s else read t a s

  unfoldable pub write_ptr : ℕ → ℕ → System V → Outcome V ℕ
  unfolding write
  write_ptr t a s = if a == 0 then returns 0 s else write t a s

  -- `has_been_read`, without read sets
  unfoldable pub has_been_read : ℕ → ℕ → System V → Bool
  has_been_read t a s = BloomFilter.exists hash a (context_of s t).bloom
