-- ===== src/Locks/Mutexes.antt =====
-- boost/stm/detail/transaction_impl.hpp: the mutexes that the threads have each, one of the library's
-- own for every thread. The map `threadMutexes_` is a list in the order of the threads.
pub mod Holding
use tboost_stm.Prelude.{
  ℕ, Bool, true, false, ◌==◌, if◌then◌else◌, List, [], ◌∷◌, Option, none, some,
}
use tboost_stm.StdMap
use tboost_stm.Locks.{MutexLibrary}

module _ {M : Type 0} (lib : MutexLibrary M) (th : ℕ) where
  -- One round of `lock_tx`, on the mutex of the transaction's thread, with `hasMutex_`; `none` while
  -- the loop sleeps, with the mutexes as the attempt leaves them.
  unfoldable pub lock_tx : ℕ → M → Option Bool × M
  lock_tx m mx = let (r, mx') = lib.trylock th m mx in (if r == 0 then some true else none, mx')

  -- `unlock_tx`
  unfoldable pub unlock_tx : ℕ → M → Bool × M
  unlock_tx m mx = (false, lib.unlock th m mx)

  -- `lock_all_mutexes_but_this`
  unfoldable pub lock_all_mutexes_but_this : ℕ → List (ℕ × ℕ) → M → M
  lock_all_mutexes_but_this this [] mx = mx
  lock_all_mutexes_but_this this ((i, m) ∷ ms) mx =
      lock_all_mutexes_but_this this ms (if i == this then mx else lib.lock th m mx)

  -- `unlock_all_mutexes_but_this`
  unfoldable pub unlock_all_mutexes_but_this : ℕ → List (ℕ × ℕ) → M → M
  unlock_all_mutexes_but_this this [] mx = mx
  unlock_all_mutexes_but_this this ((i, m) ∷ ms) mx =
      unlock_all_mutexes_but_this this ms (if i == this then mx else lib.unlock th m mx)

  -- The loop of `lock_all_mutexes`
  unfoldable pub lock_each : List (ℕ × ℕ) → M → M
  lock_each [] mx = mx
  lock_each ((i, m) ∷ ms) mx = lock_each ms (lib.lock th m mx)

  -- `lock_all_mutexes`, with `hasMutex_`
  unfoldable pub lock_all_mutexes : List (ℕ × ℕ) → M → Bool × M
  unfolding lock_each
  lock_all_mutexes ms mx = (true, lock_each ms mx)

  -- The loop of `unlock_all_mutexes`
  unfoldable pub unlock_each : List (ℕ × ℕ) → M → M
  unlock_each [] mx = mx
  unlock_each ((i, m) ∷ ms) mx = unlock_each ms (lib.unlock th m mx)

  -- `unlock_all_mutexes`, with `hasMutex_`
  unfoldable pub unlock_all_mutexes : List (ℕ × ℕ) → M → Bool × M
  unfolding unlock_each
  unlock_all_mutexes ms mx = (false, unlock_each ms mx)
