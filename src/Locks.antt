-- ===== src/Locks.antt =====
-- boost/stm/detail/latm_general_impl.hpp and the six files beside it: locks of the client that
-- transactions know of. A client locks its own mutexes through the library, which stops the
-- transactions that the lock excludes.
pub mod General
pub mod Flow
pub mod Policy
pub mod Conflicts
pub mod Full
pub mod Tm
pub mod Tx
pub mod Dispatch
pub mod Rounds
pub mod Protection
pub mod RoundTrip
pub mod Refusal
pub mod Stopping
pub mod Wakeup
pub mod Patience
pub mod Interleaving
pub mod AutoLock
pub mod Mutexes
use tboost_stm.Prelude.{ℕ, Bool, ◌≡◌, ◌∙◌, sym, ap}
use tboost_stm.System.{System}

-- The library of the client's mutexes (pthread, or Boost), on a state of its own. The first number
-- is the calling thread, the second the mutex; `lock` gives the state in which it has returned.
pub record MutexLibrary (M : Type 0) : Type 0 where
  pub lock : ℕ → ℕ → M → M
  pub trylock : ℕ → ℕ → M → ℕ × M
  pub unlock : ℕ → ℕ → M → M

pub record LockState (V M : Type 0) : Type 0 where
  pub system : System V
  pub mutexes : M

-- The `int` -1 that `trylock` returns.
abbrev pub minus_one : ℕ
minus_one = 0xffffffff

-- What a round of a lock function ends with: its result; another round, after a sleep or a wait; a
-- wait, with `latmMutex_` and the mutex held, for transactions in flight to end; a wait inside a
-- transaction for the held locks to be released, with the flag that it has the mutex; a
-- `char const*` that is thrown (`refuses`), or that is thrown with `latmMutex_` held, so that no later
-- call of a function that locks it returns (`jams`); an `aborted_transaction_exception`.
pub data Reply (V M : Type 0) : Type 0 where
  code : ℕ → LockState V M → Reply V M
  again drains refuses jams aborts : LockState V M → Reply V M
  stalled : Bool → LockState V M → Reply V M

-- The state that a round leaves.
abbrev pub left : {V M : Type 0} → Reply V M → LockState V M
left (code c st) = st
left (again st) = st
left (drains st) = st
left (refuses st) = st
left (jams st) = st
left (aborts st) = st
left (stalled b st) = st

-- What the core of a lock function comes to: it returns false, in some state; or it does its work.
pub data Core (V A : Type 0) : Type 0 where
  declines : System V → Core V A
  does : A → Core V A

pub does_cancel : {V A : Type 0} (a b : A) (c : Core V A) → c ≡ does a → c ≡ does b → a ≡ b
does_cancel {V} {A} a b c p q = ap get (sym p ∙ q)
  where
    get : Core V A → A
    get (declines s) = a
    get (does x) = x

-- A core that returns false has left the state as it was.
abbrev pub IsIdle : {V A : Type 0} → System V → Core V A → Type 0
IsIdle s (declines s') = s' ≡ s
IsIdle s (does x) = Unit {0}
