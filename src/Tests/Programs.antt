-- ===== src/Tests/Programs.antt =====
-- The theorems on whole transactions of a client at concrete states.
use tboost_stm.Prelude.{ℕ, ◌+◌, ◌≡◌, refl, true, false, List, [], ◌∷◌, arith}
use tboost_stm.StdMap
use tboost_stm.BloomFilter
use tboost_stm.BitVector
use tboost_stm.Objects.{new_copy}
use tboost_stm.Contention.{default_manager}
use tboost_stm.System.{System, returns, throws, final}
use tboost_stm.Transaction.Status.{other_in_flight_same_thread, other_same_thread}
use tboost_stm.Transaction.Deferred.{deferred_write, open_for_write}
use tboost_stm.Transaction.Abort.{deferred_abort}
use tboost_stm.Transaction.Commit.{end, invalidating_deferred_commit}
use tboost_stm.Transaction.Invalidation.{force_others_accessing}
use tboost_stm.Transaction.Conflicts.{end-commit}
use tboost_stm.BloomFilter.Laws.{exists-insert_self}
use tboost_stm.Transaction.Retry.{rounds, atomic_round, ends}
use tboost_stm.Transaction.Atomic.{IsBegun, end-perform}
use tboost_stm.Transaction.Atomic.Clients.{
  Client, stop, reading, writing, atomically, perform, Stores, AllOrNothing,
}
use tboost_stm.Transaction.Blocks.{block, atomic_round-perform}
use tboost_stm.Transaction.Pointers.{ReadPtr, get}
use tboost_stm.Transaction.Pointers.Following.{get-deferred_write}
use tboost_stm.Transaction.Binding.{bound_to}
use tboost_stm.Transaction.Binding.Bonds.{Bond, binds, unbinds, call_all, bound_to-call_all}
use tboost_stm.Tests.Data.{hash, lenient, heap, plain, two_in_flight, conflicting}

-- The client adds 1 to the object 1.
abbrev increment : Client ℕ
increment = reading 1 (λ v. writing 1 (v + 1) stop)

abbrev seventy : ℕ → ℕ
seventy a = 70

heap-Stores : Stores (λ a. a ≡ 1) seventy heap
heap-Stores a e = record {
  object = plain 70;
  live = rw e refl;
  value_eq = refl;
  common = refl;
  positive = omega (arith, e);
  below = omega (arith, e);
}

two_in_flight-IsBegun : IsBegun two_in_flight 11
unfolding other_in_flight_same_thread other_same_thread
two_in_flight-IsBegun = record {
  deferred = refl;
  unwritten = refl;
  uncreated = refl;
  free = refl;
  flying = refl;
  alone = refl;
  numbered = λ e. omega (arith, e);
  allocated = omega arith;
}

end-perform_example :
    (s' : System ℕ) × (perform hash increment 11 two_in_flight ≡ returns true s')
    × AllOrNothing
        (λ a. a ≡ 1)
        seventy
        (atomically increment seventy)
        (end hash default_manager 9 11 s')
end-perform_example =
    end-perform hash default_manager 9 (λ a. a ≡ 1) 11 increment seventy two_in_flight
      two_in_flight-IsBegun heap-Stores (refl, λ v. (refl, tt))

abbrev lonely : System ℕ
lonely = record two_in_flight { in_flight = 11 ∷ [] }

lonely-IsBegun : IsBegun lonely 11
unfolding other_in_flight_same_thread other_same_thread
lonely-IsBegun = record {
  deferred = refl;
  unwritten = refl;
  uncreated = refl;
  free = refl;
  flying = refl;
  alone = refl;
  numbered = λ e. omega (arith, e);
  allocated = omega arith;
}

atomic_round-perform_example :
    (s' : System ℕ) × (rounds 2
        (atomic_round hash default_manager 9 (block hash increment 11) 11)
        lonely
      ≡ ends s')
    × Stores (λ a. a ≡ 1) (atomically increment seventy) s'.heap
atomic_round-perform_example =
    atomic_round-perform hash default_manager 9 0 11 (λ a. a ≡ 1) increment seventy lonely
      lonely-IsBegun refl heap-Stores (refl, λ v. (refl, tt))

abbrev pointer : ReadPtr
pointer = record { transaction = 11; tx_ptr = 1; written = false }

after_write : System ℕ
after_write = final (deferred_write hash 11 1 two_in_flight)

get-deferred_write_example :
    get pointer after_write ≡ returns (3, record pointer { tx_ptr = 3; written = true }) after_write
unfolding after_write deferred_write open_for_write StdMap.lookup new_copy
get-deferred_write_example =
    get-deferred_write hash pointer 3 two_in_flight after_write refl refl refl refl refl
      (omega arith) refl

-- Two objects are bound to the object 1, which is unbound in between.
abbrev bonds : List Bond
bonds = binds 1 3 ∷ unbinds 1 ∷ binds 1 2 ∷ []

bound_to-call_all_example : bound_to 1 (call_all bonds []) ≡ 3 ∷ 2 ∷ []
bound_to-call_all_example = bound_to-call_all 1 bonds

committed_state : System ℕ
committed_state = final (invalidating_deferred_commit hash lenient 9 11 conflicting)

end-commit_example :
    end hash lenient 10 12 committed_state ≡ throws (deferred_abort 12 committed_state)
unfolding committed_state invalidating_deferred_commit force_others_accessing BloomFilter.exists
    BloomFilter.insert BloomFilter.empty BitVector.test BitVector.set BitVector.clear
end-commit_example =
    end-commit hash lenient 9 10 11 12 1 conflicting committed_state
      (exists-insert_self hash 1 BloomFilter.empty, tt) refl refl refl refl refl refl refl
      (record { written = refl; seen = exists-insert_self hash 1 BloomFilter.empty }) refl
