-- ===== src/Transaction/Status.antt =====
-- The kind and the state of a transaction, and the scans of `transactionsInFlight_`.
pub mod Exclusive
use tboost_stm.Prelude.{
  ℕ, ◌+◌, Bool, true, false, not, ◌==◌, if◌then◌else◌, ◌&&◌, ◌||◌, List, [], ◌∷◌, Option, none,
  some, has, length, ltb,
}
use tboost_stm.Contention.{ContentionManager, TxView}
use tboost_stm.StdMap
use tboost_stm.StdSet
use tboost_stm.System.{
  TransactionState, e_in_flight, TxType, e_normal_tx, e_irrevocable_tx,
  e_irrevocable_and_isolated_tx, LatmType, e_full_latm_protection,
  e_tm_conflicting_lock_latm_protection, e_tx_conflicting_lock_latm_protection, Latm, System,
  context_of, set_context, set_tx, set_state,
}

-- `irrevocable()`, by the type of the transaction's thread
unfoldable pub is_irrevocable : TxType → Bool
is_irrevocable e_normal_tx = false
is_irrevocable e_irrevocable_tx = true
is_irrevocable e_irrevocable_and_isolated_tx = true

-- `isolated()`
unfoldable pub is_isolated : TxType → Bool
is_isolated e_normal_tx = false
is_isolated e_irrevocable_tx = false
is_isolated e_irrevocable_and_isolated_tx = true

abbrev pub is_in_flight : TransactionState → Bool
is_in_flight e_in_flight = true
is_in_flight _ = false

abbrev pub is_empty {ℓ} : {A : Type ℓ} → List A → Bool
is_empty [] = true
is_empty (x ∷ xs) = false

module _ {V : Type 0} where
  unfoldable pub irrevocable : System V → ℕ → Bool
  unfolding is_irrevocable
  irrevocable s t = is_irrevocable (context_of s t).tx_type

  unfoldable pub isolated : System V → ℕ → Bool
  unfolding is_isolated
  isolated s t = is_isolated (context_of s t).tx_type

  -- `in_flight()`
  abbrev pub in_flight : System V → ℕ → Bool
  in_flight s t = is_in_flight (s.tx t).state

  abbrev pub forced_to_abort : System V → ℕ → Bool
  forced_to_abort s t = (context_of s t).abort

  abbrev pub same_thread : System V → ℕ → ℕ → Bool
  same_thread s i t = (s.tx i).thread_id == (s.tx t).thread_id

  unfoldable pub is_writing : System V → ℕ → Bool
  is_writing s t =
      let c = context_of s t in
      not (is_empty c.write_mem && is_empty c.del_mem && is_empty c.new_mem)

  unfoldable pub is_only_reading : System V → ℕ → Bool
  unfolding is_writing
  is_only_reading s t = not (is_writing s t)

  abbrev pub view : System V → ℕ → TxView
  view s t = record {
    writes = length (context_of s t).write_mem;
    reads = (s.tx t).reads;
    priority = (s.tx t).priority;
    commits = (context_of s t).commits;
  }

  -- `force_to_abort()`, with the flag that the transactions of a thread share
  unfoldable pub force_to_abort : ℕ → System V → System V
  unfolding irrevocable
  force_to_abort t s =
      if irrevocable s t then s else set_context s t (record (context_of s t) { abort = true })

  unfoldable pub unforce_to_abort : ℕ → System V → System V
  unforce_to_abort t s = set_context s t (record (context_of s t) { abort = false })

  -- `raise_priority()`: not beyond the largest `size_t`
  unfoldable pub raise_priority : ℕ → System V → System V
  raise_priority t s =
      let x = s.tx t in
      set_tx s t (record x {
        priority = if ltb x.priority 0xffffffffffffffff then x.priority + 1 else x.priority;
      })

  -- The loops over the transactions in flight, from the head of a list on.
  unfoldable pub other_same_thread : System V → ℕ → List ℕ → Bool
  other_same_thread s t [] = false
  other_same_thread s t (i ∷ is) = (not (i == t) && same_thread s i t) || other_same_thread s t is

  -- `other_in_flight_same_thread_transactions()`, and
  -- `otherInFlightTransactionsOfSameThreadNotIncludingThis(this)`
  unfoldable pub other_in_flight_same_thread : System V → ℕ → Bool
  unfolding other_same_thread
  other_in_flight_same_thread s t = other_same_thread s t s.in_flight

  unfoldable pub any_isolated : System V → ℕ → List ℕ → Bool
  unfolding isolated
  any_isolated s t [] = false
  any_isolated s t (i ∷ is) = (not (same_thread s i t) && isolated s i) || any_isolated s t is

  -- `isolatedTxInFlight()`
  unfoldable pub isolated_tx_in_flight : System V → ℕ → Bool
  unfolding any_isolated
  isolated_tx_in_flight s t = any_isolated s t s.in_flight

  unfoldable pub any_irrevocable : System V → ℕ → List ℕ → Bool
  unfolding irrevocable
  any_irrevocable s t [] = false
  any_irrevocable s t (i ∷ is) =
      (not (same_thread s i t) && irrevocable s i) || any_irrevocable s t is

  -- `irrevocableTxInFlight()`
  unfoldable pub irrevocable_tx_in_flight : System V → ℕ → Bool
  unfolding any_irrevocable
  irrevocable_tx_in_flight s t = any_irrevocable s t s.in_flight

  unfoldable pub abort_all : ℕ → List ℕ → System V → System V
  unfolding force_to_abort
  abort_all t [] s = s
  abort_all t (i ∷ is) s = abort_all t is (if same_thread s i t then s else force_to_abort i s)

  -- `abortAllInFlightTxs()`
  unfoldable pub abort_all_in_flight_txs : ℕ → System V → System V
  unfolding abort_all
  abort_all_in_flight_txs t s = abort_all t s.in_flight s

  unfoldable pub can_abort_all : ContentionManager → System V → ℕ → List ℕ → Bool
  can_abort_all cm s t [] = true
  can_abort_all cm s t (i ∷ is) =
      (same_thread s i t || cm.permission_to_abort (view s i) (view s t)) && can_abort_all cm s t is

  -- `canAbortAllInFlightTxs()`
  unfoldable pub can_abort_all_in_flight_txs : ContentionManager → System V → ℕ → Bool
  unfolding can_abort_all
  can_abort_all_in_flight_txs cm s t = can_abort_all cm s t s.in_flight

-- The loop of `can_go_inflight` over `latmLockedLocksOfThreadMap_`.
unfoldable pub all_of_thread : ℕ → List (ℕ × ℕ) → Bool
all_of_thread th [] = true
all_of_thread th ((m, owner) ∷ ls) = th == owner && all_of_thread th ls

-- One lock of `can_go_inflight`, held by another thread.
abbrev pub held_elsewhere : Latm → ℕ → Option ℕ → Bool
held_elsewhere l th none = false
held_elsewhere l th (some owner) = not (th == owner)

-- The loop over `tmConflictingLocks_`.
unfoldable pub no_conflict_held : Latm → ℕ → List ℕ → Bool
no_conflict_held l th [] = true
no_conflict_held l th (m ∷ ms) =
    not (has m l.locked_locks && held_elsewhere l th (StdMap.lookup m l.locked_locks_of_thread))
    && no_conflict_held l th ms

unfoldable pub latm_admits : LatmType → Latm → ℕ → Bool
unfolding all_of_thread no_conflict_held
latm_admits e_full_latm_protection l th = all_of_thread th l.locked_locks_of_thread
latm_admits e_tm_conflicting_lock_latm_protection l th =
    no_conflict_held l th l.tm_conflicting_locks
latm_admits e_tx_conflicting_lock_latm_protection l th = true

module _ {V : Type 0} where
  -- `can_go_inflight()`, called by the transaction's own thread
  unfoldable pub can_go_inflight : System V → ℕ → Bool
  unfolding latm_admits
  can_go_inflight s t = latm_admits s.latm.latm_type s.latm (s.tx t).thread_id

  -- One round of the loop of `put_tx_inflight`; after `none` the loop sleeps and goes round again.
  unfoldable pub put_tx_inflight : ℕ → System V → Option (System V)
  unfolding can_go_inflight isolated_tx_in_flight
  put_tx_inflight t s =
      if can_go_inflight s t && not (isolated_tx_in_flight s t)
      then some (set_state (record s { in_flight = StdSet.insert t s.in_flight }) t e_in_flight)
      else none

  -- `begin()`: it waits while the thread is blocked.
  unfoldable pub begin : ℕ → System V → Option (System V)
  unfolding put_tx_inflight
  begin t s =
      if in_flight s t
      then some s
      else if (context_of s t).blocked
      then none
      else put_tx_inflight t s

  -- One round of the loop of `make_irrevocable`; each failed round raises the priority, by
  -- `perform_irrevocable_tx_wait_priority_promotion`. The flag says whether the loop is over.
  unfoldable pub make_irrevocable : ℕ → System V → System V × Bool
  unfolding irrevocable irrevocable_tx_in_flight raise_priority
  make_irrevocable t s =
      if irrevocable s t
      then (s, true)
      else if not (irrevocable_tx_in_flight s t)
      then (set_context s t (record (context_of s t) { tx_type = e_irrevocable_tx }), true)
      else (raise_priority t s, false)
