-- ===== src/Tests/Data.antt =====
-- The states of the tests.
use tboost_stm.Prelude.{ℕ, ◌+◌, ◌==◌, if◌then◌else◌, true, false, has, List, [], ◌∷◌, none, some}
use tboost_stm.BloomFilter
use tboost_stm.Contention.{ContentionManager, TxView}
use tboost_stm.Locks.{MutexLibrary}
use tboost_stm.Objects.{Object, Heap, invalid_thread}
use tboost_stm.System.{
  System, Context, Transaction, e_normal_tx, e_irrevocable_tx, e_in_flight, e_full_latm_protection,
}

abbrev pub hash : ℕ → ℕ × ℕ
hash k = (k, k + 1)

abbrev pub lenient : ContentionManager
lenient = record {
  abort_on_new = true;
  abort_on_write = true;
  permission_to_abort = λ lhs rhs. true;
  permission_to_abort_all = λ lhs rhs. true;
  allow_lock_to_abort_tx = λ time refusals irrevocable rhs. true;
}

abbrev pub plain : ℕ → Object ℕ
plain v = record { value = v; transaction_thread = invalid_thread; new_memory = 0 }

abbrev pub copy : ℕ → Object ℕ
copy v = record { value = v; transaction_thread = 1; new_memory = 0 }

abbrev pub heap : Heap ℕ
heap = record {
  cell = λ a. if a == 1 then some (plain 70) else if a == 2 then some (plain 80) else none;
  next = 3;
}

-- Transaction 11 has a copy of the object 1 at 3.
abbrev pub written_heap : Heap ℕ
written_heap = record { cell = λ a. if a == 3 then some (copy 71) else heap.cell a; next = 4 }

abbrev pub fresh : Context
fresh = record {
  new_mem = [];
  del_mem = [];
  write_mem = [];
  wbloom = BloomFilter.empty;
  bloom = BloomFilter.empty;
  tx_type = e_normal_tx;
  abort = false;
  commits = 0;
  blocked = false;
  conflicting_mutexes = [];
  obtained_locks = [];
  currently_locked_locks = [];
}

abbrev pub writer : Context
writer = record fresh {
  write_mem = (1, 3) ∷ [];
  wbloom = BloomFilter.insert hash 1 BloomFilter.empty;
  bloom = BloomFilter.insert hash 1 BloomFilter.empty;
}

abbrev pub reader : Context
reader = record fresh { bloom = BloomFilter.insert hash 1 BloomFilter.empty }

abbrev pub of_thread : ℕ → Transaction
of_thread th = record {
  thread_id = th;
  priority = 0;
  state = e_in_flight;
  reads = 0;
  start_time = 5;
}

-- Transaction 11 of thread 1 and 12 of thread 2 are in flight.
abbrev pub two_in_flight : System ℕ
two_in_flight = record {
  heap = heap;
  threads = 1 ∷ 2 ∷ [];
  context = λ th. fresh;
  tx = λ t. if t == 11 then of_thread 1 else of_thread 2;
  in_flight = 11 ∷ 12 ∷ [];
  deletion_buffer = (4, 20 ∷ []) ∷ (6, 21 ∷ []) ∷ [];
  latm = record {
    latm_type = e_full_latm_protection;
    tm_conflicting_locks = [];
    locked_locks = [];
    locked_locks_of_thread = [];
    locked_locks_and_thread_ids = [];
  };
  direct_updating = false;
  direct_late_write_read_conflict = false;
  bookkeeping = record {
    commits = 0;
    hand_offs = 0;
    new_memory_commits = 0;
    deleted_memory_commits = 0;
  };
  global_clock = 0;
}

-- Transaction 11 has written the object 1, and 12 has read it.
abbrev pub conflicting : System ℕ
conflicting = record two_in_flight {
  heap = written_heap;
  context = λ th. if th == 1 then writer else reader;
}

-- Thread 2 is irrevocable.
abbrev pub one_irrevocable : System ℕ
one_irrevocable = record two_in_flight {
  context = λ th. if th == 2 then record fresh { tx_type = e_irrevocable_tx } else fresh;
}

abbrev pub committed : ℕ → TxView
committed n = record { writes = 1; reads = 1; priority = 0; commits = n }

-- Mutexes as the list of those that are locked.
abbrev pub drop : ℕ → List ℕ → List ℕ
drop m [] = []
drop m (k ∷ ks) = if k == m then ks else k ∷ drop m ks

abbrev pub mutex_list : MutexLibrary (List ℕ)
mutex_list = record {
  lock = λ th m mx. m ∷ mx;
  trylock = λ th m mx. if has m mx then (16, mx) else (0, m ∷ mx);
  unlock = λ th m mx. drop m mx;
}
