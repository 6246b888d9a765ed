-- ===== src/Locks/Dispatch.antt =====
-- boost/stm/detail/latm_general_impl.hpp: the calls of the client, by the kind of protection.
use tboost_stm.Prelude.{ℕ, Bool, true, false}
use tboost_stm.Contention.{ContentionManager}
use tboost_stm.System.{
  LatmType, e_full_latm_protection, e_tm_conflicting_lock_latm_protection,
  e_tx_conflicting_lock_latm_protection,
}
use tboost_stm.Locks.{MutexLibrary, LockState, Reply}
use tboost_stm.Locks.Full.{
  def_full_lock, def_full_trylock, def_full_unlock, dir_full_lock, dir_full_trylock,
  dir_full_unlock,
}
use tboost_stm.Locks.Tm.{
  def_tm_lock, def_tm_trylock, def_tm_unlock, dir_tm_lock, dir_tm_trylock, dir_tm_unlock,
}
use tboost_stm.Locks.Tx.{def_tx_lock, dir_tx_lock, tx_trylock, tx_unlock}

module _ {V M : Type 0} (lib : MutexLibrary M) (cm : ContentionManager) where
  -- `pthread_lock`, by the kind of protection and by whether updates are direct.
  unfoldable pub lock_under : LatmType → Bool → ℕ → ℕ → ℕ → ℕ → ℕ → LockState V M → Reply V M
  unfolding def_full_lock dir_full_lock def_tm_lock dir_tm_lock def_tx_lock dir_tx_lock
  lock_under e_full_latm_protection true now wait_time refusals th m st =
      dir_full_lock lib cm wait_time refusals th m st
  lock_under e_full_latm_protection false now wait_time refusals th m st =
      def_full_lock lib cm now wait_time refusals th m st
  lock_under e_tm_conflicting_lock_latm_protection true now wait_time refusals th m st =
      dir_tm_lock lib cm wait_time refusals th m st
  lock_under e_tm_conflicting_lock_latm_protection false now wait_time refusals th m st =
      def_tm_lock lib cm now wait_time refusals th m st
  lock_under e_tx_conflicting_lock_latm_protection true now wait_time refusals th m st =
      dir_tx_lock lib cm wait_time refusals th m st
  lock_under e_tx_conflicting_lock_latm_protection false now wait_time refusals th m st =
      def_tx_lock lib cm now wait_time refusals th m st

  unfoldable pub pthread_lock : ℕ → ℕ → ℕ → ℕ → ℕ → LockState V M → Reply V M
  unfolding lock_under
  pthread_lock now wait_time refusals th m st =
      lock_under st.system.latm.latm_type st.system.direct_updating now wait_time refusals th m st

  -- `pthread_trylock`, by the kind of protection and by whether updates are direct.
  unfoldable pub trylock_under : LatmType → Bool → ℕ → ℕ → ℕ → LockState V M → Reply V M
  unfolding def_full_trylock dir_full_trylock def_tm_trylock dir_tm_trylock tx_trylock
  trylock_under e_full_latm_protection true now th m st = dir_full_trylock lib cm th m st
  trylock_under e_full_latm_protection false now th m st = def_full_trylock lib cm now th m st
  trylock_under e_tm_conflicting_lock_latm_protection true now th m st =
      dir_tm_trylock lib cm th m st
  trylock_under e_tm_conflicting_lock_latm_protection false now th m st =
      def_tm_trylock lib cm now th m st
  trylock_under e_tx_conflicting_lock_latm_protection true now th m st = tx_trylock lib cm st
  trylock_under e_tx_conflicting_lock_latm_protection false now th m st = tx_trylock lib cm st

  unfoldable pub pthread_trylock : ℕ → ℕ → ℕ → LockState V M → Reply V M
  unfolding trylock_under
  pthread_trylock now th m st =
      trylock_under st.system.latm.latm_type st.system.direct_updating now th m st

  -- `pthread_unlock`, by the kind of protection and by whether updates are direct.
  unfoldable pub unlock_under : LatmType → Bool → ℕ → ℕ → LockState V M → Reply V M
  unfolding def_full_unlock dir_full_unlock def_tm_unlock dir_tm_unlock tx_unlock
  unlock_under e_full_latm_protection true th m st = dir_full_unlock lib cm th m st
  unlock_under e_full_latm_protection false th m st = def_full_unlock lib cm th m st
  unlock_under e_tm_conflicting_lock_latm_protection true th m st = dir_tm_unlock lib cm th m st
  unlock_under e_tm_conflicting_lock_latm_protection false th m st = def_tm_unlock lib cm th m st
  unlock_under e_tx_conflicting_lock_latm_protection true th m st = tx_unlock lib cm th m st
  unlock_under e_tx_conflicting_lock_latm_protection false th m st = tx_unlock lib cm th m st

  unfoldable pub pthread_unlock : ℕ → ℕ → LockState V M → Reply V M
  unfolding unlock_under
  pthread_unlock th m st = unlock_under st.system.latm.latm_type st.system.direct_updating th m st
