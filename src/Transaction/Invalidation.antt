-- ===== src/Transaction/Invalidation.antt =====
-- boost/stm/detail/transaction_impl.hpp: a transaction that commits aborts the transactions in
-- flight whose Bloom filters hold an object that it wrote.
pub mod Writers
pub mod Scan
pub mod Safety
pub mod Coverage
pub mod Reads
use tboost_stm.Prelude.{ℕ, not, ltb, if◌then◌else◌, ◌&&◌, ◌||◌, List, [], ◌∷◌, map, length}
use tboost_stm.BloomFilter
use tboost_stm.Contention.{ContentionManager}
use tboost_stm.System.{System, Outcome, returns, throws, context_of}
use tboost_stm.Transaction.Status.{irrevocable, forced_to_abort, force_to_abort, same_thread, view}

-- What a scan of the transactions in flight comes to: the list `aborted`, or the exception.
pub data Verdict : Type 0 where
  aborts : List ℕ → Verdict
  refused : Verdict

abbrev pub keys : List (ℕ × ℕ) → List ℕ
keys = map λ p. p.0

module _ {V : Type 0} (hash : ℕ → ℕ × ℕ) (cm : ContentionManager) (s : System V) (me : ℕ) where
  -- A conflict with the transaction `i`: it joins the list, unless it may not be aborted.
  unfoldable pub add_conflict : ℕ → List ℕ → Verdict
  add_conflict i aborted =
      if irrevocable s me
      then aborts (i ∷ aborted)
      else if not (irrevocable s i) && cm.permission_to_abort (view s me) (view s i)
      then aborts (i ∷ aborted)
      else refused

  -- The inner loop, over the write list: each hit adds the transaction once more.
  unfoldable pub scan_writes : ℕ → List ℕ → Verdict → Verdict
  unfolding add_conflict
  scan_writes i ks refused = refused
  scan_writes i [] (aborts l) = aborts l
  scan_writes i (a ∷ ks) (aborts l) =
      scan_writes i ks
        (if BloomFilter.exists hash a (context_of s i).bloom then add_conflict i l else aborts l)

  -- One transaction in flight. From twenty writes on the two filters are intersected instead.
  unfoldable pub scan_tx : ℕ → List ℕ → Verdict
  unfolding scan_writes
  scan_tx i l =
      let c = context_of s me in
      if ltb (length c.write_mem) 20
      then scan_writes i (keys c.write_mem) (aborts l)
      else if BloomFilter.intersection c.wbloom (context_of s i).bloom
      then add_conflict i l
      else aborts l

  -- The outer loop.
  unfoldable pub scan : List ℕ → Verdict → Verdict
  unfolding scan_tx
  scan is refused = refused
  scan [] (aborts l) = aborts l
  scan (i ∷ is) (aborts l) =
      scan is (if forced_to_abort s i || same_thread s i me then aborts l else scan_tx i l)

  -- The outer loop of `forceOtherInFlightTransactionsReadingThisWriteMemoryToAbort`. Its assertion
  -- that no other transaction of the thread is in flight is what the caller has tested.
  unfoldable pub scan_readers : List ℕ → Verdict → Verdict
  unfolding scan_writes
  scan_readers is refused = refused
  scan_readers [] (aborts l) = aborts l
  scan_readers (i ∷ is) (aborts l) = scan_readers is (
      if forced_to_abort s i
      then aborts l
      else scan_writes i (keys (context_of s me).write_mem) (aborts l))

module _ {V : Type 0} where
  -- The loop over `aborted`.
  unfoldable pub force_all : List ℕ → System V → System V
  unfolding force_to_abort
  force_all [] s = s
  force_all (i ∷ is) s = force_all is (force_to_abort i s)

module _ {V : Type 0} (hash : ℕ → ℕ × ℕ) (cm : ContentionManager) where
  abbrev pub settle : ℕ → System V → Verdict → Outcome V (Unit {0})
  settle me s refused = throws (force_to_abort me s)
  settle me s (aborts []) = returns tt s
  settle me s (aborts (i ∷ is)) =
      if cm.permission_to_abort_all (view s me) (map (view s) (i ∷ is))
      then returns tt (force_all (i ∷ is) s)
      else throws (force_to_abort me s)

  -- `forceOtherInFlightTransactionsAccessingThisWriteMemoryToAbort`; `allow_stall` is false in it,
  -- so that it never stalls.
  unfoldable pub force_others_accessing : ℕ → System V → Outcome V (Unit {0})
  unfolding scan force_all
  force_others_accessing me s = settle me s (scan hash cm s me s.in_flight (aborts []))

  abbrev pub settle_readers : ℕ → System V → Verdict → Outcome V (Unit {0})
  settle_readers me s refused = throws (force_to_abort me s)
  settle_readers me s (aborts l) = returns tt (force_all l s)

  -- `forceOtherInFlightTransactionsReadingThisWriteMemoryToAbort`
  unfoldable pub force_others_reading : ℕ → System V → Outcome V (Unit {0})
  unfolding scan_readers force_all
  force_others_reading me s =
      settle_readers me s (scan_readers hash cm s me s.in_flight (aborts []))
