-- ===== src/Transaction/Threads.antt =====
-- libs/stm/src/transaction.cpp: the threads that use the library.
use tboost_stm.Prelude.{ℕ, false, if◌then◌else◌, List, [], has}
use tboost_stm.BloomFilter
use tboost_stm.StdSet
use tboost_stm.System.{System, Context, update, e_normal_tx}

-- The state with the keys of `tss_context_map_`; the keys of the other maps by a thread are `threads`.
pub record ThreadState (V : Type 0) : Type 0 where
  pub system : System V
  pub contexts : List ℕ

-- The entries that are made of a thread in the other maps; `new size_t` leaves the counter of the
-- commits at the value `any`.
abbrev pub new_lists : ℕ → Context → Context
new_lists any c = record c {
  commits = any;
  blocked = false;
  conflicting_mutexes = [];
  obtained_locks = [];
  currently_locked_locks = [];
}

-- `new tx_context()`
abbrev pub new_context : Context → Context
new_context c = record c {
  new_mem = [];
  del_mem = [];
  write_mem = [];
  wbloom = BloomFilter.empty;
  bloom = BloomFilter.empty;
  tx_type = e_normal_tx;
  abort = false;
}

module _ {V : Type 0} where
  -- `initialize_thread()`, of the calling thread
  unfoldable pub initialize_thread : ℕ → ℕ → ThreadState V → ThreadState V
  initialize_thread any th st =
      let s = st.system in
      let c = if has th s.threads then s.context th else new_lists any (s.context th) in
      let c' = if has th st.contexts then c else new_context c in
      record {
        system = record s {
          threads = StdSet.insert th s.threads;
          context = update s.context th c';
        };
        contexts = StdSet.insert th st.contexts;
      }

  -- `terminate_thread()`
  unfoldable pub terminate_thread : ℕ → ThreadState V → ThreadState V
  terminate_thread th st = record st { contexts = StdSet.erase th st.contexts }
