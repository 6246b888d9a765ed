-- ===== src/Tests/Calls.antt =====
-- The theorems on sequences of calls at concrete states.
use tboost_stm.Prelude.{inr, ◌++◌, ℕ, ◌≡◌, refl, true, if◌then◌else◌, ◌==◌, [], ◌∷◌, arith, some}
use tboost_stm.BitVector
use tboost_stm.BloomFilter
use tboost_stm.StdMap
use tboost_stm.Objects.{new_copy, set_transaction_thread, assign}
use tboost_stm.System.{System, final, returns, set_heap, context_of}
use tboost_stm.Transaction.Status.{
  isolated, forced_to_abort, irrevocable_tx_in_flight, can_abort_all_in_flight_txs,
}
use tboost_stm.Transaction.Abort.{abort, make_isolated, direct_abort}
use tboost_stm.Transaction.Deferred.{
  deferred_read, deferred_write, deferred_delete_memory, open_for_write,
}
use tboost_stm.Transaction.Direct.{direct_write, take_for_write}
use tboost_stm.Transaction.Commit.{hand_off}
use tboost_stm.Transaction.Invalidation.Scan.{WbloomCovers}
use tboost_stm.Transaction.Invalidation.Coverage.{deferred_write-WbloomCovers}
use tboost_stm.Transaction.Invalidation.Reads.{deferred_read-exists}
use tboost_stm.Transaction.Composition.{deferred_read-hand_off}
use tboost_stm.Transaction.Entries.{has_copy}
use tboost_stm.Transaction.Removal.{deferred_delete_memory-lookup, abort-tx_type}
use tboost_stm.Transaction.Undo.{direct_abort-write}
use tboost_stm.Transaction.Solitude.{make_isolated-forced_to_abort}
use tboost_stm.Tests.Data.{
  hash, lenient, plain, of_thread, two_in_flight, conflicting, one_irrevocable,
}

-- Transaction 11 writes the object 1.
wrote : System ℕ
wrote = final (deferred_write hash 11 1 two_in_flight)

deferred_write-WbloomCovers_example : WbloomCovers hash wrote 11
unfolding wrote deferred_write StdMap.lookup open_for_write new_copy
deferred_write-WbloomCovers_example =
    deferred_write-WbloomCovers hash 11 1 3 two_in_flight wrote tt refl

-- Transaction 12 reads the object 1.
has_read : System ℕ
has_read = final (deferred_read hash 12 1 two_in_flight)

deferred_read-exists_example : BloomFilter.exists hash 1 (context_of has_read 12).bloom ≡ true
unfolding has_read deferred_read StdMap.lookup BloomFilter.exists BloomFilter.empty BitVector.test
    BitVector.clear
deferred_read-exists_example = deferred_read-exists hash 12 1 1 two_in_flight has_read refl refl

-- Transaction 13 is of the thread of transaction 11.
nested : System ℕ
nested = record two_in_flight {
  tx = λ t. if t == 11 then of_thread 1 else if t == 13 then of_thread 1 else of_thread 2;
  in_flight = 11 ∷ 12 ∷ 13 ∷ [];
}

inner_wrote : System ℕ
inner_wrote = final (deferred_write hash 13 1 nested)

deferred_read-hand_off_example :
    deferred_read hash 11 1 (hand_off 13 inner_wrote) ≡ returns 3 (hand_off 13 inner_wrote)
unfolding inner_wrote nested deferred_write StdMap.lookup open_for_write new_copy
deferred_read-hand_off_example =
    deferred_read-hand_off hash 13 11 1 3 nested inner_wrote refl refl refl refl refl

after_deletion : System ℕ
after_deletion = final (deferred_delete_memory hash 11 3 conflicting)

deferred_delete_memory-lookup_example :
    (StdMap.lookup 1 (context_of after_deletion 11).write_mem ≡ some 3)
    × (StdMap.lookup 3 (context_of after_deletion 11).write_mem ≡ some 0)
    × ((context_of after_deletion 11).del_mem ≡ (context_of conflicting 11).del_mem ++ 3 ∷ [])
unfolding after_deletion StdMap.lookup StdMap.has_key has_copy
deferred_delete_memory-lookup_example =
    deferred_delete_memory-lookup hash 11 1 3 conflicting
      (record {
        separate = ((omega arith), (omega arith), refl, refl, refl, inr refl, tt);
        backed = ((omega arith), (omega arith), inr refl, tt);
        allocated = omega arith;
        tagged = omega arith;
      })
      refl (omega arith) refl

abort-tx_type_example :
    ((abort 12 one_irrevocable).context 2).tx_type ≡ (one_irrevocable.context 2).tx_type
abort-tx_type_example = abort-tx_type 12 2 one_irrevocable

took : System ℕ
took = final (direct_write hash lenient 11 1 two_in_flight)

direct_abort-write_example :
    (direct_abort 11 (set_heap took (assign 1 71 took.heap))).heap.cell 1 ≡ some (plain 70)
unfolding took direct_write take_for_write new_copy set_transaction_thread
direct_abort-write_example =
    direct_abort-write hash lenient 11 1 1 71 two_in_flight took {x = plain 70} refl refl refl refl
      refl (omega arith) refl (omega arith) (omega arith) refl

alone_now : System ℕ
alone_now = final (make_isolated lenient 11 two_in_flight)

make_isolated-forced_to_abort_example : forced_to_abort alone_now 12 ≡ true
unfolding alone_now make_isolated isolated irrevocable_tx_in_flight can_abort_all_in_flight_txs
make_isolated-forced_to_abort_example =
    make_isolated-forced_to_abort lenient 11 12 two_in_flight alone_now refl refl (omega arith) refl
