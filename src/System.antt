-- ===== src/System.antt =====
-- The state that the library keeps: the transactional objects (boost/stm/base_transaction.hpp), the
-- context of each thread and the transactions (boost/stm/transaction.hpp), and the static members.
-- A pointer is a number, 0 the null pointer; a thread and a transaction are numbers too.
use tboost_stm.Prelude.{ℕ, ◌==◌, if◌then◌else◌, Bool, List}
use tboost_stm.BloomFilter.{BloomFilter}
use tboost_stm.Objects.{Heap}

-- `enum transaction_state`
pub data TransactionState : Type 0 where
  e_no_state e_aborted e_committed e_hand_off e_in_flight : TransactionState

-- `enum TxType`
pub data TxType : Type 0 where
  e_normal_tx e_irrevocable_tx e_irrevocable_and_isolated_tx : TxType

-- `enum LatmType`, the policies of lock-aware transactions.
pub data LatmType : Type 0 where
  e_full_latm_protection e_tm_conflicting_lock_latm_protection : LatmType
  e_tx_conflicting_lock_latm_protection : LatmType

-- `tx_context`, and the values of the other maps that go by a thread.
pub record Context : Type 0 where
  pub new_mem : List ℕ
  pub del_mem : List ℕ
  pub write_mem : List (ℕ × ℕ)
  pub wbloom : BloomFilter
  pub bloom : BloomFilter
  pub tx_type : TxType
  pub abort : Bool
  pub commits : ℕ
  pub blocked : Bool
  pub conflicting_mutexes : List ℕ
  pub obtained_locks : List ℕ
  pub currently_locked_locks : List ℕ

-- The members of a `transaction` that are no references into the maps.
pub record Transaction : Type 0 where
  pub thread_id : ℕ
  pub priority : ℕ
  pub state : TransactionState
  pub reads : ℕ
  pub start_time : ℕ

-- The counters of `transaction_bookkeeping` that the library writes in this configuration.
pub record Bookkeeping : Type 0 where
  pub commits : ℕ
  pub hand_offs : ℕ
  pub new_memory_commits : ℕ
  pub deleted_memory_commits : ℕ

-- The static members on locks outside the transactions.
pub record Latm : Type 0 where
  pub latm_type : LatmType
  pub tm_conflicting_locks : List ℕ
  pub locked_locks : List ℕ
  pub locked_locks_of_thread : List (ℕ × ℕ)
  pub locked_locks_and_thread_ids : List (ℕ × List ℕ)

pub record System (V : Type 0) : Type 0 where
  pub heap : Heap V
  pub threads : List ℕ
  pub context : ℕ → Context
  pub tx : ℕ → Transaction
  pub in_flight : List ℕ
  pub deletion_buffer : List (ℕ × List ℕ)
  pub latm : Latm
  pub direct_updating : Bool
  pub direct_late_write_read_conflict : Bool
  pub bookkeeping : Bookkeeping
  pub global_clock : ℕ

-- What a call of a member function ends with: its value, or an `aborted_transaction_exception`.
pub data Outcome (V A : Type 0) : Type 0 where
  returns : A → System V → Outcome V A
  throws : System V → Outcome V A

-- The state that a call leaves behind.
abbrev pub final : {V A : Type 0} → Outcome V A → System V
final (returns a s) = s
final (throws s) = s

abbrev pub update {ℓ} : {A : Type ℓ} → (ℕ → A) → ℕ → A → ℕ → A
update f k a j = if k == j then a else f j

module _ {V : Type 0} where
  -- `*tss_context_map_.find(threadId_)->second` of a transaction.
  abbrev pub context_of : System V → ℕ → Context
  context_of s t = s.context (s.tx t).thread_id

  abbrev pub set_context : System V → ℕ → Context → System V
  set_context s t c = record s { context = update s.context (s.tx t).thread_id c }

  abbrev pub set_tx : System V → ℕ → Transaction → System V
  set_tx s t x = record s { tx = update s.tx t x }

  abbrev pub set_heap : System V → Heap V → System V
  set_heap s h = record s { heap = h }

  abbrev pub set_state : System V → ℕ → TransactionState → System V
  set_state s t e = set_tx s t (record (s.tx t) { state = e })
