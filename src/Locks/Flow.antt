-- ===== src/Locks/Flow.antt =====
-- boost/stm/detail/latm_general_impl.hpp and the files beside it: the flow that the lock, trylock and
-- unlock functions of the three policies share.
use tboost_stm.Prelude.{ℕ, zero, suc, ◌+◌, Bool, true, false, not, ◌==◌, if◌then◌else◌, none, some}
use tboost_stm.System.{System}
use tboost_stm.Locks.{
  MutexLibrary, LockState, Reply, Core, declines, does, code, again, drains, refuses, jams, aborts,
  stalled, minus_one,
}
use tboost_stm.Locks.General.{leave_tx, own_lock}

-- What is done inside a transaction before the mutex is locked: whether the transaction had the lock
-- already; or another round, a wait for the held locks to be released, or an exception.
pub data Prepared (V : Type 0) : Type 0 where
  ready stalls : Bool → System V → Prepared V
  waits refused aborted : System V → Prepared V

module _ {V M : Type 0} (lib : MutexLibrary M) (th m : ℕ) where
  -- The end of a lock function's round, by what the core returns.
  unfoldable pub lock_ended : LockState V M → M → Core V (System V) → Reply V M
  unfolding own_lock
  lock_ended st mx (declines s) = again (record { system = s; mutexes = lib.unlock th m mx })
  lock_ended st mx (does s) = code 0 (record { system = own_lock th m s; mutexes = mx })

  -- One round of the loop of a lock function outside transactions, by its core: lock the mutex, do
  -- the core's work, and unlock the mutex where the core returns false.
  unfoldable pub lock_round : (System V → Core V (System V)) → LockState V M → Reply V M
  unfolding lock_ended
  lock_round core st = lock_ended st (lib.lock th m st.mutexes) (core st.system)

  -- The end of a trylock function, by what the core returns.
  unfoldable pub trylock_ended : LockState V M → M → Core V (System V) → Reply V M
  unfolding own_lock
  trylock_ended st mx (declines s) =
      code minus_one (record { system = s; mutexes = lib.unlock th m mx })
  trylock_ended st mx (does s) = code 0 (record { system = own_lock th m s; mutexes = mx })

  -- A trylock function outside transactions.
  unfoldable pub trylock_once : (System V → Core V (System V)) → LockState V M → Reply V M
  unfolding trylock_ended
  trylock_once core st =
      let (val, mx) = lib.trylock th m st.mutexes in
      if not (val == 0)
      then code val (record st { mutexes = mx })
      else trylock_ended st mx (core st.system)

  -- Inside a transaction: the mutex is locked, unless the transaction had it.
  unfoldable pub lock_prepared : M → Prepared V → Reply V M
  lock_prepared mx (ready true s) = code 0 (record { system = s; mutexes = mx })
  lock_prepared mx (ready false s) = code 0 (record { system = s; mutexes = lib.lock th m mx })
  lock_prepared mx (stalls had s) = stalled had (record { system = s; mutexes = mx })
  lock_prepared mx (waits s) = again (record { system = s; mutexes = mx })
  lock_prepared mx (refused s) = refuses (record { system = s; mutexes = mx })
  lock_prepared mx (aborted s) = aborts (record { system = s; mutexes = mx })

  unfoldable pub trylock_prepared : M → Prepared V → Reply V M
  trylock_prepared mx (ready true s) = code 0 (record { system = s; mutexes = mx })
  trylock_prepared mx (ready false s) =
      let (val, mx') = lib.trylock th m mx in code val (record { system = s; mutexes = mx' })
  trylock_prepared mx (stalls had s) = stalled had (record { system = s; mutexes = mx })
  trylock_prepared mx (waits s) = again (record { system = s; mutexes = mx })
  trylock_prepared mx (refused s) = refuses (record { system = s; mutexes = mx })
  trylock_prepared mx (aborted s) = aborts (record { system = s; mutexes = mx })

  -- The same for the functions whose core may have to wait with the mutex held: where the core says
  -- true, the wait comes before the rest of the function.
  unfoldable pub drain_ended : LockState V M → M → Core V (Bool × System V) → Reply V M
  unfolding own_lock
  drain_ended st mx (declines s) = again (record { system = s; mutexes = lib.unlock th m mx })
  drain_ended st mx (does (true, s)) = drains (record { system = s; mutexes = mx })
  drain_ended st mx (does (false, s)) = code 0 (record { system = own_lock th m s; mutexes = mx })

  unfoldable pub drain_round : (System V → Core V (Bool × System V)) → LockState V M → Reply V M
  unfolding drain_ended
  drain_round core st = drain_ended st (lib.lock th m st.mutexes) (core st.system)

  unfoldable pub drain_tried : LockState V M → M → Core V (Bool × System V) → Reply V M
  unfolding own_lock
  drain_tried st mx (declines s) =
      code minus_one (record { system = s; mutexes = lib.unlock th m mx })
  drain_tried st mx (does (true, s)) = drains (record { system = s; mutexes = mx })
  drain_tried st mx (does (false, s)) = code 0 (record { system = own_lock th m s; mutexes = mx })

  unfoldable pub drain_once : (System V → Core V (Bool × System V)) → LockState V M → Reply V M
  unfolding drain_tried
  drain_once core st =
      let (val, mx) = lib.trylock th m st.mutexes in
      if not (val == 0)
      then code val (record st { mutexes = mx })
      else drain_tried st mx (core st.system)

  -- An unlock function, by how its exception leaves it (the functions of two of the policies leave
  -- `latmMutex_` locked), and by what it does to the locked locks.
  unfoldable pub unlock_by :
      (LockState V M → Reply V M) → (System V → System V) → LockState V M → Reply V M
  unfolding leave_tx
  unlock_by thrown forget st = elim (leave_tx th m st.system) [
    | none ↦ thrown st
    | some (has_lock, s) ↦ code 0 (record {
      system = forget s;
      mutexes = if has_lock then lib.unlock th m st.mutexes else st.mutexes;
    })
  ]

module _ {V M : Type 0} where
  -- What follows a round: the next one, where it is to be repeated.
  abbrev pub next_round : (LockState V M → Reply V M) → Reply V M → Reply V M
  next_round go (code c st) = code c st
  next_round go (again st) = go st
  next_round go (drains st) = drains st
  next_round go (refuses st) = refuses st
  next_round go (jams st) = jams st
  next_round go (aborts st) = aborts st
  next_round go (stalled b st) = stalled b st

  -- The loop `for (;;)` of a lock function, at most as often as the first number says, on the time
  -- waited and the refusals so far.
  unfoldable pub lock_loop :
      (ℕ → ℕ → LockState V M → Reply V M) → ℕ → ℕ → ℕ → ℕ → LockState V M → Reply V M
  lock_loop round sleep zero wait_time refusals st = again st
  lock_loop round sleep (suc n) wait_time refusals st =
      next_round (λ st'. lock_loop round sleep n (wait_time + sleep) (suc refusals) st')
        (round wait_time refusals st)
