-- ===== src/Transaction/Release.antt =====
-- boost/stm/detail/latm_general_impl.hpp: what a transaction gives back when it ends: the locks that
-- it obtained, and with them the threads that they block.
use tboost_stm.Prelude.{ℕ, Bool, false, ◌+◌, ◌==◌, if◌then◌else◌, ◌&&◌, ◌||◌, List, [], ◌∷◌, has}
use tboost_stm.StdMap
use tboost_stm.System.{System, update, context_of, set_context}

-- `thread_id_occurance_in_locked_locks_map`
unfoldable pub occurrences : ℕ → List (ℕ × List ℕ) → ℕ
occurrences th [] = 0
occurrences th ((m, ids) ∷ ls) = (if has th ids then 1 else 0) + occurrences th ls

module _ {V : Type 0} where
  -- `mutex_is_on_obtained_tx_list`, over the threads from the head of a list on
  unfoldable pub on_obtained_list : System V → ℕ → List ℕ → Bool
  on_obtained_list s m [] = false
  on_obtained_list s m (th ∷ ths) = has m (s.context th).obtained_locks || on_obtained_list s m ths

  -- `thread_conflicting_mutexes_set_all_cnd`
  unfoldable pub unblock_waiting : ℕ → List ℕ → System V → System V
  unfolding occurrences
  unblock_waiting m [] s = s
  unblock_waiting m (th ∷ ths) s =
      let c = s.context th in
      let hit =
        has m c.conflicting_mutexes && occurrences th s.latm.locked_locks_and_thread_ids == 0 in
      unblock_waiting m ths (
        if hit
        then record s { context = update s.context th (record c { blocked = false }) }
        else s)

  unfoldable pub unblock_conflicting_threads : ℕ → System V → System V
  unfolding on_obtained_list unblock_waiting
  unblock_conflicting_threads m s =
      if StdMap.has_key m s.latm.locked_locks_and_thread_ids
      then s
      else if on_obtained_list s m s.threads
      then s
      else unblock_waiting m s.threads s

  -- The loop of `clear_latm_obtained_locks`, over what is left of the obtained locks.
  unfoldable pub give_back : ℕ → List ℕ → System V → System V
  unfolding unblock_conflicting_threads
  give_back t [] s = s
  give_back t (m ∷ ms) s = give_back t ms (
      unblock_conflicting_threads m
        (set_context s t (record (context_of s t) { obtained_locks = ms })))

  unfoldable pub clear_latm_obtained_locks : ℕ → System V → System V
  unfolding give_back
  clear_latm_obtained_locks t s =
      let s' = give_back t (context_of s t).obtained_locks s in
      set_context s' t (record (context_of s' t) { currently_locked_locks = [] })
