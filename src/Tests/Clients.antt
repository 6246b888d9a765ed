-- ===== src/Tests/Clients.antt =====
-- The theorems on the locks of the clients at concrete states.
use tboost_stm.Prelude.{some, ◌≢◌, ℕ, ◌≡◌, refl, true, false, List, [], ◌∷◌, arith}
use tboost_stm.StdMap
use tboost_stm.StdSet
use tboost_stm.Contention.{default_manager, default_lock}
use tboost_stm.System.{e_tx_conflicting_lock_latm_protection, e_tm_conflicting_lock_latm_protection}
use tboost_stm.Transaction.Status.{forced_to_abort, can_go_inflight, irrevocable}
use tboost_stm.Transaction.Release.{on_obtained_list, occurrences}
use tboost_stm.Locks.{LockState, Reply, code, jams, left}
use tboost_stm.Locks.General.{get_inflight_tx_of_same_thread}
use tboost_stm.Locks.Flow.{lock_loop}
use tboost_stm.Locks.Full.{def_full_lock, def_full_unlock}
use tboost_stm.Locks.Tm.{dir_tm_lock, dir_tm_unlock}
use tboost_stm.Locks.Tx.{def_tx_lock, tx_unlock}
use tboost_stm.Locks.Protection.{def_full_lock-forced_to_abort, def_full_lock-can_go_inflight}
use tboost_stm.Locks.RoundTrip.{def_full_unlock-lock}
use tboost_stm.Locks.Stopping.{IsStopped, def_tx_lock-IsStopped}
use tboost_stm.Locks.Wakeup.{tx_unlock-blocked}
use tboost_stm.Locks.Dispatch.{pthread_lock}
use tboost_stm.Locks.Rounds.{pthread_lock-again}
use tboost_stm.Locks.Refusal.{dir_tm_unlock-lock}
use tboost_stm.Locks.Patience.{lock_loop-def_full_lock}
use tboost_stm.Locks.Interleaving.{locks, start, later, Reach-can_go_inflight}
use tboost_stm.Tests.Data.{mutex_list, lenient, fresh, two_in_flight}

-- Thread 3 locks the mutex 5, while the threads 1 and 2 have transactions in flight.
abbrev free : LockState ℕ (List ℕ)
free = record { system = two_in_flight; mutexes = [] }

refused : Reply ℕ (List ℕ)
refused = pthread_lock mutex_list default_manager 9 0 0 3 5 free

pthread_lock-again_example : left refused ≡ free
unfolding refused pthread_lock default_manager default_lock
pthread_lock-again_example =
    pthread_lock-again mutex_list default_manager 9 0 0 3 5 free (left refused) refl (λ mx. refl)
      refl

granted : LockState ℕ (List ℕ)
granted = left (def_full_lock mutex_list lenient 9 0 0 3 5 free)

def_full_lock-forced_to_abort_example : forced_to_abort granted.system 12 ≡ true
unfolding granted def_full_lock
def_full_lock-forced_to_abort_example =
    def_full_lock-forced_to_abort mutex_list lenient 9 0 0 3 5 0 12 free granted refl refl refl refl

def_full_lock-can_go_inflight_example : can_go_inflight granted.system 11 ≡ false
unfolding granted def_full_lock
def_full_lock-can_go_inflight_example =
    def_full_lock-can_go_inflight mutex_list lenient 9 0 0 3 5 0 11 free granted refl refl
      (λ e. omega (arith, e)) refl

def_full_unlock-lock_example :
    (st'' : LockState ℕ (List ℕ)) × (def_full_unlock mutex_list lenient 3 5 granted ≡ code 0 st'')
    × (st''.system.latm ≡ two_in_flight.latm)
unfolding granted def_full_lock StdMap.has_key
def_full_unlock-lock_example =
    def_full_unlock-lock mutex_list lenient 9 0 0 3 5 0 free granted refl refl refl refl

lock_loop-def_full_lock_example :
    (st' : LockState ℕ (List ℕ)) × (lock_loop
        (λ time refusals st. def_full_lock mutex_list default_manager 9 time refusals 3 5 st)
        10
        12
        0
        0
        free
      ≡ code 0 st')
unfolding irrevocable get_inflight_tx_of_same_thread
lock_loop-def_full_lock_example =
    lock_loop-def_full_lock mutex_list 9 0 3 5 free refl (λ mx. refl)
      ((refl, omega arith), ((refl, omega arith), tt))

-- Both transactions have the mutex 5 in their conflicting sets.
abbrev conflicted : LockState ℕ (List ℕ)
conflicted = record free {
  system = record two_in_flight {
    context = λ th. record fresh { conflicting_mutexes = 5 ∷ [] };
    latm = record two_in_flight.latm { latm_type = e_tx_conflicting_lock_latm_protection };
  };
}

stopped : LockState ℕ (List ℕ)
stopped = left (def_tx_lock mutex_list lenient 9 0 0 3 5 conflicted)

def_tx_lock-IsStopped_example : IsStopped stopped.system 12
unfolding stopped def_tx_lock
def_tx_lock-IsStopped_example =
    def_tx_lock-IsStopped mutex_list lenient 9 0 0 3 5 0 12 conflicted stopped refl refl refl refl

tx_unlock-blocked_example :
    (st' : LockState ℕ (List ℕ)) × (tx_unlock mutex_list lenient 3 5 stopped ≡ code 0 st')
    × ((st'.system.context 2).blocked ≡ false)
unfolding stopped def_tx_lock StdMap.has_key StdMap.erase StdMap.insert on_obtained_list occurrences
tx_unlock-blocked_example =
    tx_unlock-blocked mutex_list lenient 3 5 2 stopped refl refl refl refl refl refl refl

-- The mutex 5 conflicts with all transactions, and updating is direct.
abbrev guarded : LockState ℕ (List ℕ)
guarded = record free {
  system = record two_in_flight {
    direct_updating = true;
    latm = record two_in_flight.latm {
      latm_type = e_tm_conflicting_lock_latm_protection;
      tm_conflicting_locks = 5 ∷ [];
    };
  };
}

inside : LockState ℕ (List ℕ)
inside = left (dir_tm_lock mutex_list lenient 0 0 1 5 guarded)

dir_tm_unlock-lock_example :
    (inside.mutexes ≡ mutex_list.lock 1 5 guarded.mutexes)
    × (dir_tm_unlock mutex_list lenient 1 5 inside ≡ jams inside)
unfolding inside dir_tm_lock
dir_tm_unlock-lock_example =
    dir_tm_unlock-lock mutex_list lenient 0 0 1 5 0 11 guarded inside refl refl refl

Reach-can_go_inflight_example :
    (th : ℕ) × (StdMap.lookup 5 granted.system.latm.locked_locks_of_thread ≡ some th)
    × ((t : ℕ) → (granted.system.tx t).thread_id ≢ th → can_go_inflight granted.system t ≡ false)
unfolding granted def_full_lock StdSet.insert
Reach-can_go_inflight_example =
    Reach-can_go_inflight mutex_list lenient free granted 5 refl
      (later start (locks 9 0 0 3 5 refl)) refl refl
