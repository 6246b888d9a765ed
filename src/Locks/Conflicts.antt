-- ===== src/Locks/Conflicts.antt =====
-- boost/stm/detail/latm_general_impl.hpp: the locks that conflict with one transaction.
use tboost_stm.Prelude.{
  ℕ, Bool, true, false, not, ◌==◌, if◌then◌else◌, ◌&&◌, ◌||◌, List, [], ◌∷◌, none, some, has,
}
use tboost_stm.StdMap
use tboost_stm.StdSet
use tboost_stm.System.{
  System, Outcome, returns, throws, context_of, set_context, e_full_latm_protection,
  e_tm_conflicting_lock_latm_protection, e_tx_conflicting_lock_latm_protection,
}
use tboost_stm.Transaction.Status.{irrevocable}
use tboost_stm.Transaction.Abort.{abort}
use tboost_stm.Locks.General.{set_latm}

-- Whether one of the first list is in the second.
abbrev pub meets : List ℕ → List ℕ → Bool
meets [] ms = false
meets (k ∷ ks) ms = has k ms || meets ks ms

-- Whether a lock that stopped transactions is in the set.
unfoldable pub stopping : List (ℕ × List ℕ) → List ℕ → Bool
stopping [] ms = false
stopping ((k, ids) ∷ ls) ms = has k ms || stopping ls ms

-- The thread joins those that the lock stops.
unfoldable pub note_stopped : ℕ → ℕ → List (ℕ × List ℕ) → List (ℕ × List ℕ)
note_stopped th m [] = []
note_stopped th m ((k, ids) ∷ ls) =
    if k == m then (k, StdSet.insert th ids) ∷ ls else (k, ids) ∷ note_stopped th m ls

module _ {V : Type 0} where
  -- `block()`
  unfoldable pub block : ℕ → System V → System V
  block t s = set_context s t (record (context_of s t) { blocked = true })

  abbrev pub must_be_in_conflicting_lock_set : System V → ℕ → ℕ → Bool
  must_be_in_conflicting_lock_set s t m = has m (context_of s t).conflicting_mutexes

  -- Whether another thread of the list has obtained a lock of the set.
  unfoldable pub obtained_elsewhere : System V → ℕ → List ℕ → List ℕ → Bool
  obtained_elsewhere s me ms [] = false
  obtained_elsewhere s me ms (th ∷ ths) =
      not (th == me) && meets (s.context th).obtained_locks ms || obtained_elsewhere s me ms ths

  -- `block_if_conflict_mutex`
  unfoldable pub block_if_conflict_mutex : ℕ → System V → System V
  unfolding block obtained_elsewhere
  block_if_conflict_mutex t s =
      if obtained_elsewhere s (s.tx t).thread_id (context_of s t).conflicting_mutexes s.threads
      then block t s
      else s

  -- The last loop of `see_if_tx_must_block_due_to_tx_latm`.
  unfoldable pub block_on_owned : ℕ → List ℕ → System V → System V
  unfolding block note_stopped
  block_on_owned t [] s = s
  block_on_owned t (k ∷ ks) s =
      let me = (s.tx t).thread_id in
      let ids = s.latm.locked_locks_and_thread_ids in
      let rest = block_on_owned t ks s in
      elim (StdMap.lookup k s.latm.locked_locks_of_thread) [
        | none ↦ rest
        | some owner ↦
            if me == owner
            then rest
            else block t (
                set_latm s (record s.latm {
                  locked_locks_and_thread_ids =
                      if StdMap.has_key k ids
                      then note_stopped me k ids
                      else StdMap.insert k (StdSet.insert me []) ids;
                }))
      ]

  unfoldable pub see_if_tx_must_block_due_to_tx_latm : ℕ → System V → System V
  unfolding stopping block block_if_conflict_mutex block_on_owned
  see_if_tx_must_block_due_to_tx_latm t s =
      let ms = (context_of s t).conflicting_mutexes in
      let s' = if stopping s.latm.locked_locks_and_thread_ids ms then block t s else s in
      block_on_owned t ms (block_if_conflict_mutex t s')

  abbrev conflict_added : ℕ → System V → Outcome V (Unit {0})
  conflict_added t s = if (context_of s t).blocked then throws (abort t s) else returns tt s

  unfoldable pub add_tx_conflicting_lock : ℕ → ℕ → System V → Outcome V (Unit {0})
  unfolding irrevocable see_if_tx_must_block_due_to_tx_latm abort
  add_tx_conflicting_lock t m s = elim s.latm.latm_type [
    | e_full_latm_protection ↦ returns tt s
    | e_tm_conflicting_lock_latm_protection ↦ returns tt s
    | e_tx_conflicting_lock_latm_protection ↦
        let c = context_of s t in
        let s' =
          set_context s t
            (record c { conflicting_mutexes = StdSet.insert m c.conflicting_mutexes }) in
        if has m c.conflicting_mutexes || irrevocable s' t
        then returns tt (if has m c.conflicting_mutexes then s else s')
        else conflict_added t (see_if_tx_must_block_due_to_tx_latm t s')
  ]

  unfoldable pub clear_tx_conflicting_locks : ℕ → System V → System V
  clear_tx_conflicting_locks t s =
      set_context s t (record (context_of s t) { conflicting_mutexes = [] })
