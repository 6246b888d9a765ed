-- ===== src/Tests/Parts.antt =====
-- The theorems on the pool, the histories, the guards and the mutexes at concrete states.
use tboost_stm.Prelude.{
  ℕ, ◌+◌, ◌≡◌, refl, true, false, ◌==◌, if◌then◌else◌, List, [], ◌∷◌, Option, none, some, arith,
}
use tboost_stm.MemoryPool.{FixedReserve, retrieve_fixed_chunk, return_fixed_chunk}
use tboost_stm.MemoryPool.Stack.{
  IsReserve, available, pop_free, retrieve_fixed_chunk-pop_free, retrieve-return_fixed_chunk,
}
use tboost_stm.Histories.{Histories, has_id}
use tboost_stm.Histories.Matching.{
  IsMatched, aborting, committing, record_events, record_events-IsMatched,
}
use tboost_stm.Locks.{MutexLibrary}
use tboost_stm.Locks.AutoLock.{
  AutoLock, Guards, Guarded, guarded, timed_out, pending, thread_has_lock, do_auto_lock,
  do_auto_unlock,
}
use tboost_stm.Locks.AutoLock.Nesting.{do_auto_unlock-lock}
use tboost_stm.Locks.Mutexes.{lock_all_mutexes_but_this, unlock_all_mutexes_but_this}
use tboost_stm.Locks.Mutexes.Holding.{Ownership, of_another, owner-unlock_all-lock_all}
use tboost_stm.Tests.Data.{mutex_list, lenient, two_in_flight}

-- `malloc` as a counter.
abbrev counting : ℕ → ℕ → ℕ × ℕ
counting size n = (n, n + 1)

-- A reserve of one chunk, 8, that is out.
abbrev empty_reserve : FixedReserve
empty_reserve = record {
  alloc_size = 2;
  current_loc = 1;
  current_size = 1;
  chunk = 16;
  data_ = 8 ∷ [];
}

empty_reserve-IsReserve : IsReserve empty_reserve
empty_reserve-IsReserve = record { size_eq = refl; in_range = omega arith }

retrieve_fixed_chunk-pop_free_example :
    (p : ℕ) × (r' : FixedReserve) × (a' : ℕ) × (retrieve_fixed_chunk counting empty_reserve 20
      ≡ some (p, (r', a')))
    × (pop_free counting 2 16 (available empty_reserve) 20 ≡ some (p, (available r', a')))
    × IsReserve r'
retrieve_fixed_chunk-pop_free_example =
    retrieve_fixed_chunk-pop_free counting 1 empty_reserve 20 empty_reserve-IsReserve refl

retrieve-return_fixed_chunk_example :
    (r' r'' : FixedReserve) × (return_fixed_chunk 8 empty_reserve ≡ some r')
    × (retrieve_fixed_chunk counting r' 20 ≡ some (8, (r'', 20)))
    × (available r'' ≡ available empty_reserve)
retrieve-return_fixed_chunk_example =
    retrieve-return_fixed_chunk counting 8 0 empty_reserve 20 empty_reserve-IsReserve refl

abbrev no_histories : Histories
no_histories = record {
  aborts = 0;
  committed_read_set_size = [];
  committed_write_set_size = [];
  aborted_read_set_size = [];
  aborted_write_set_size = [];
  waiting_for_commit_read = λ th. false;
  waiting_for_commit_write = λ th. false;
}

no_histories-IsMatched : IsMatched 1 no_histories
unfolding has_id
no_histories-IsMatched = record { match = λ k. refl; fresh = λ n l. refl; unmatched = λ e. refl }

record_events-IsMatched_example :
    IsMatched 1 (record_events 1 (aborting 4 2 ∷ aborting 3 2 ∷ committing 5 2 ∷ []) no_histories)
record_events-IsMatched_example =
    record_events-IsMatched 1 (aborting 4 2 ∷ aborting 3 2 ∷ committing 5 2 ∷ []) no_histories
      (omega arith) no_histories-IsMatched

abbrev unguarded : Guards ℕ (List ℕ)
unguarded = record {
  locks = record { system = two_in_flight; mutexes = [] };
  threaded_locks = (2, 6) ∷ [];
}

abbrev no_guard : AutoLock
no_guard = record { done_post_step = false; has_lock = false; lock = 0 }

guard_of : Guarded ℕ (List ℕ) → AutoLock
guard_of (guarded a g) = a
guard_of (timed_out g) = no_guard
guard_of (pending r) = no_guard

guards_of : Guarded ℕ (List ℕ) → Guards ℕ (List ℕ)
guards_of (guarded a g) = g
guards_of (timed_out g) = g
guards_of (pending r) = unguarded

inside : Guarded ℕ (List ℕ)
inside = do_auto_lock mutex_list lenient 9 0 0 3 5 unguarded

outside : Guarded ℕ (List ℕ)
unfolding inside guard_of guards_of
outside = do_auto_unlock mutex_list lenient 3 (guard_of inside) (guards_of inside)

do_auto_unlock-lock_example :
    (thread_has_lock 3 5 (guards_of inside).threaded_locks ≡ true)
    × ((guard_of outside).has_lock ≡ false)
    × ((guards_of outside).threaded_locks ≡ unguarded.threaded_locks)
unfolding inside outside guard_of guards_of do_auto_lock do_auto_unlock thread_has_lock
do_auto_unlock-lock_example =
    do_auto_unlock-lock mutex_list lenient 9 0 0 3 5 (guard_of inside) (guard_of outside) unguarded
      (guards_of inside) (guards_of outside) refl refl refl

-- Mutexes as their owners.
abbrev owner_map : MutexLibrary (ℕ → Option ℕ)
owner_map = record {
  lock = λ th m mx j. if m == j then some th else mx j;
  trylock = λ th m mx. (0, λ j. if m == j then some th else mx j);
  unlock = λ th m mx j. if m == j then none else mx j;
}

abbrev owner_map-Ownership : Ownership owner_map
owner_map-Ownership = record {
  owner = λ mx. mx;
  owner-lock = λ th m j mx. refl;
  owner-unlock = λ th m j mx. refl;
}

abbrev mutexes : List (ℕ × ℕ)
mutexes = (1, 31) ∷ (2, 32) ∷ (3, 33) ∷ []

abbrev nobody : ℕ → Option ℕ
nobody j = none

owner-unlock_all-lock_all_example :
    let held = lock_all_mutexes_but_this owner_map 2 2 mutexes nobody in
    (held 33 ≡ (if of_another 2 33 mutexes then some 2 else none))
    × (unlock_all_mutexes_but_this owner_map 2 2 mutexes held 33 ≡ none)
owner-unlock_all-lock_all_example =
    owner-unlock_all-lock_all owner_map owner_map-Ownership 2 2 33 mutexes nobody (λ e. refl)
