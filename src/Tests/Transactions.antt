-- ===== src/Tests/Transactions.antt =====
-- The theorems on transactions at concrete states.
use tboost_stm.Prelude.{ℕ, ◌≡◌, inl, inr, refl, [], ◌∷◌, arith, some}
use tboost_stm.BitVector
use tboost_stm.BloomFilter
use tboost_stm.BloomFilter.Laws.{exists-insert_self}
use tboost_stm.StdMap
use tboost_stm.Objects.{new_copy}
use tboost_stm.System.{System, final, returns}
use tboost_stm.Transaction.Status.{irrevocable, make_irrevocable}
use tboost_stm.Transaction.Status.Exclusive.{Exclusive, make_irrevocable-Exclusive}
use tboost_stm.Transaction.Deferred.{deferred_read, deferred_write, open_for_write}
use tboost_stm.Transaction.Invalidation.{force_others_accessing}
use tboost_stm.Transaction.Invalidation.Safety.{IsSettled, force_others_accessing-IsSettled}
use tboost_stm.Transaction.Deletions.{do_interval_deletions}
use tboost_stm.Transaction.Deletions.Order.{Buffered, do_interval_deletions-keeps}
use tboost_stm.Transaction.Commit.{write_back}
use tboost_stm.Transaction.Entries.{shared, has_copy}
use tboost_stm.Transaction.Isolation.{IsPrivate, open_for_write-IsPrivate, deferred_read-write}
use tboost_stm.Transaction.Publication.{write_back-written}
use tboost_stm.Transaction.Unwinding.{run, run-Agree}
use tboost_stm.Transaction.Unwinding.Agreement.{read, write, create, Agree, unwound}
use tboost_stm.Tests.Data.{hash, lenient, plain, copy, heap, two_in_flight, conflicting}

run-Agree_example :
    Agree 3 heap
      (unwound 11 (run hash lenient (write 1 71 ∷ read 1 ∷ create 5 ∷ []) 11 two_in_flight)).heap
run-Agree_example =
    run-Agree hash lenient 11 (write 1 71 ∷ read 1 ∷ create 5 ∷ []) two_in_flight refl refl refl
      ((λ l. refl), (tt, (tt, tt)))

forced : System ℕ
forced = final (force_others_accessing hash lenient 11 conflicting)

force_others_accessing-IsSettled_example : IsSettled conflicting forced 11 12
unfolding forced force_others_accessing BloomFilter.exists BloomFilter.insert BloomFilter.empty
    BitVector.test BitVector.set BitVector.clear
force_others_accessing-IsSettled_example =
    force_others_accessing-IsSettled hash lenient conflicting forced 11 12 1
      (exists-insert_self hash 1 BloomFilter.empty, tt) refl refl refl
      (record { written = refl; seen = exists-insert_self hash 1 BloomFilter.empty }) refl

written : System ℕ
written = final (deferred_write hash 11 1 two_in_flight)

deferred_read-write_example : deferred_read hash 11 1 written ≡ returns 3 written
unfolding written deferred_write StdMap.lookup open_for_write new_copy
deferred_read-write_example =
    deferred_read-write hash 11 1 3 two_in_flight written refl refl refl refl

write_back-written_example : (write_back 9 11 conflicting).heap.cell 1 ≡ some (shared (copy 71))
unfolding StdMap.lookup has_copy StdMap.has_key
write_back-written_example =
    write_back-written 9 11 1 3 conflicting {o = copy 71} {x = plain 70}
      ((omega arith), (omega arith), refl, refl, refl, inr refl, tt) refl (omega arith) refl refl

one-IsPrivate : IsPrivate two_in_flight 11
one-IsPrivate = record { separate = tt; backed = tt; allocated = omega arith; tagged = omega arith }

open_for_write-IsPrivate_example : IsPrivate (final (open_for_write hash 11 1 two_in_flight)) 11
unfolding StdMap.lookup
open_for_write-IsPrivate_example =
    open_for_write-IsPrivate hash 11 1 two_in_flight {o = plain 70} one-IsPrivate refl refl refl
      (omega arith) (omega arith)

make_irrevocable-Exclusive_example : Exclusive (make_irrevocable 12 two_in_flight).0
unfolding Exclusive irrevocable
make_irrevocable-Exclusive_example = make_irrevocable-Exclusive 12 two_in_flight nobody
  where
    nobody : Exclusive two_in_flight
    nobody i j p q e f = cc

do_interval_deletions-keeps_example :
    Buffered 6 (21 ∷ []) (do_interval_deletions two_in_flight).deletion_buffer
do_interval_deletions-keeps_example =
    do_interval_deletions-keeps two_in_flight 12 6 (21 ∷ []) refl (omega arith)
      (inr (inl (refl, refl)))
