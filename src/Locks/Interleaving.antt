-- ===== src/Locks/Interleaving.antt =====
-- Full protection with deferred updating: any interleaving of the clients' calls with the work of the
-- transactions.
use tboost_stm.Prelude.{
  ℕ, ◌≡◌, ◌≢◌, refl, sym, ap, subst, ◌∙◌, true, false, not, ◌==◌, inl, inr, List, [], ◌∷◌, none,
  some, arith, has, Bool-cases, ==_iff, if_both,
}
use tboost_stm.StdMap
use tboost_stm.StdMap.{has_key-assign, has_key-erase_ne, has_key-lookup}
use tboost_stm.StdSet
use tboost_stm.StdSet.{
  IsSorted, insert-IsSorted, erase-IsSorted, has-insert, has-erase_ne, has-erase_self,
}
use tboost_stm.Contention.{ContentionManager}
use tboost_stm.System.{System, Latm, e_full_latm_protection}
use tboost_stm.Transaction.Status.{all_of_thread, latm_admits, can_go_inflight}
use tboost_stm.Locks.{Core, declines, does, MutexLibrary, LockState, Reply, left}
use tboost_stm.Locks.General.{get_inflight_tx_of_same_thread, own_lock, disown_lock, erase_locked}
use tboost_stm.Locks.Flow.{lock_ended, trylock_once, trylock_ended}
use tboost_stm.Locks.Full.{def_do_core_full, def_full_lock, def_full_trylock, def_full_unlock}
use tboost_stm.Locks.Rounds.{def_do_core_full-declines}
use tboost_stm.Locks.Patience.{def_full_lock_outside}
use tboost_stm.Locks.RoundTrip.{def_do_core_full-latm, unlock_outside}

-- One event: a round of a client's lock, a client's trylock or unlock, or any change that leaves the
-- static members on locks alone. The clients call outside transactions.
pub data Step {V M : Type 0} (lib : MutexLibrary M) (cm : ContentionManager) (st : LockState V M)
    : LockState V M → Type 0 where
  locks :
      (now time refusals th m : ℕ)
      → get_inflight_tx_of_same_thread st.system th ≡ none
      → Step lib cm st (left (def_full_lock lib cm now time refusals th m st))
  trylocks :
      (now th m : ℕ)
      → get_inflight_tx_of_same_thread st.system th ≡ none
      → Step lib cm st (left (def_full_trylock lib cm now th m st))
  unlocks :
      (th m : ℕ)
      → get_inflight_tx_of_same_thread st.system th ≡ none
      → Step lib cm st (left (def_full_unlock lib cm th m st))
  works : (st' : LockState V M) → st'.system.latm ≡ st.system.latm → Step lib cm st st'

-- What a number of events leads to.
pub data Reach {V M : Type 0} (lib : MutexLibrary M) (cm : ContentionManager) (st : LockState V M)
    : LockState V M → Type 0 where
  start : Reach lib cm st st
  later :
      {st' st'' : LockState V M} → Reach lib cm st st' → Step lib cm st' st'' → Reach lib cm st st''

-- The locked locks are a set, and each has an owner.
pub record IsOwned (l : Latm) : Type 0 where
  pub sorted : IsSorted l.locked_locks
  pub owned :
      (k : ℕ) → has k l.locked_locks ≡ true → StdMap.has_key k l.locked_locks_of_thread ≡ true

abbrev taken : ℕ → ℕ → Latm → Latm
taken th m l = record l {
  locked_locks = StdSet.insert m l.locked_locks;
  locked_locks_of_thread = StdMap.assign m th l.locked_locks_of_thread;
}

abbrev released : ℕ → Latm → Latm
released m l = record l {
  locked_locks = StdSet.erase m l.locked_locks;
  locked_locks_of_thread = StdMap.erase m l.locked_locks_of_thread;
}

taken-IsOwned : (th m : ℕ) (l : Latm) → IsOwned l → IsOwned (taken th m l)
taken-IsOwned th m l o = record {
  sorted = insert-IsSorted m l.locked_locks o.sorted;
  owned = λ k h.
      let old = o.owned k in
      ground (arith, has-insert m k l.locked_locks, has_key-assign m k th l.locked_locks_of_thread);
}

released-IsOwned : (m : ℕ) (l : Latm) → IsOwned l → IsOwned (released m l)
released-IsOwned m l o = record {
  sorted = erase-IsSorted m l.locked_locks o.sorted;
  owned = λ k h. elim (Bool-cases (m == k)) [
    | inl hit ↦
        let same : m ≡ k = (==_iff m k).0 hit in
        let gone : has k (StdSet.erase m l.locked_locks) ≡ false =
          subst (λ z. has z (StdSet.erase m l.locked_locks) ≡ false) same
            (has-erase_self m l.locked_locks o.sorted) in
        cc
    | inr miss ↦
        let ne : m ≢ k = ground arith in
        has_key-erase_ne m k l.locked_locks_of_thread ne
        ∙ o.owned k (sym (has-erase_ne m k l.locked_locks (λ e. ne (sym e))) ∙ h)
  ];
}

all_of_thread-lookup :
    (x th m : ℕ) (l : List (ℕ × ℕ))
    → StdMap.lookup m l ≡ some th
    → x ≢ th
    → all_of_thread x l ≡ false
unfolding all_of_thread StdMap.lookup
all_of_thread-lookup x th m [] e ne = cc
all_of_thread-lookup x th m ((j, w) ∷ l) e ne = ground (arith, all_of_thread-lookup x th m l)

lookup_of_key :
    (k : ℕ) (l : List (ℕ × ℕ))
    → StdMap.has_key k l ≡ true
    → (th : ℕ) × (StdMap.lookup k l ≡ some th)
unfolding StdMap.has_key StdMap.lookup
lookup_of_key k [] h = cc
lookup_of_key k ((j, w) ∷ l) h = elim (Bool-cases (j == k)) [
  | inl hit ↦ (w, rw (StdMap.lookup, hit) refl)
  | inr miss ↦ let r = lookup_of_key k l (ground arith) in (r.0, rw (StdMap.lookup, miss) r.1)
]

module _ {V M : Type 0} (lib : MutexLibrary M) (cm : ContentionManager) where
  abbrev Leaves : Reply V M → Type 0
  Leaves r = IsOwned (left r).system.latm

  own_lock-IsOwned :
      (time refusals th m : ℕ) (s s' : System V)
      → def_do_core_full cm time refusals m s ≡ does s'
      → IsOwned s.latm
      → IsOwned (own_lock th m s').latm
  unfolding own_lock
  own_lock-IsOwned time refusals th m s s' e k =
      let l = def_do_core_full-latm cm time refusals m s s' e in
      subst
        (λ z.
          IsOwned
            (record z { locked_locks_of_thread = StdMap.assign m th z.locked_locks_of_thread }))
        (sym l) (taken-IsOwned th m s.latm k)

  lock_ended-IsOwned :
      (time refusals th m : ℕ) (st : LockState V M) (mx : M) (o : Core V (System V))
      → def_do_core_full cm time refusals m st.system ≡ o
      → IsOwned st.system.latm
      → IsOwned (left (lock_ended lib th m st mx o)).system.latm
  unfolding lock_ended
  lock_ended-IsOwned time refusals th m st mx (declines s) e k =
      subst (λ z. IsOwned z.latm) (sym (def_do_core_full-declines cm time refusals m st.system s e))
        k
  lock_ended-IsOwned time refusals th m st mx (does s) e k =
      own_lock-IsOwned time refusals th m st.system s e k

  trylock_ended-IsOwned :
      (th m : ℕ) (st : LockState V M) (mx : M) (o : Core V (System V))
      → def_do_core_full cm 0 0 m st.system ≡ o
      → IsOwned st.system.latm
      → IsOwned (left (trylock_ended lib th m st mx o)).system.latm
  unfolding trylock_ended
  trylock_ended-IsOwned th m st mx (declines s) e k =
      subst (λ z. IsOwned z.latm) (sym (def_do_core_full-declines cm 0 0 m st.system s e)) k
  trylock_ended-IsOwned th m st mx (does s) e k = own_lock-IsOwned 0 0 th m st.system s e k

  Step-IsOwned :
      (st st' : LockState V M)
      → Step lib cm st st'
      → IsOwned st.system.latm
      → IsOwned st'.system.latm
  unfolding disown_lock erase_locked def_full_trylock trylock_once
  Step-IsOwned st _ (locks now time refusals th m out) k =
      rw (def_full_lock_outside lib cm now time refusals th m st out)
        (lock_ended-IsOwned time refusals th m st (lib.lock th m st.mutexes) _ refl k)
  Step-IsOwned st _ (trylocks now th m out) k =
      rw (def_full_trylock, trylock_once, out)
        (if_both Leaves (not ((lib.trylock th m st.mutexes).0 == 0)) _ _ k
          (trylock_ended-IsOwned th m st (lib.trylock th m st.mutexes).1 _ refl k))
  Step-IsOwned st _ (unlocks th m out) k =
      rw (unlock_outside lib cm th m st out) (released-IsOwned m st.system.latm k)
  Step-IsOwned st st' (works _ e) k = subst IsOwned (sym e) k

  Reach-IsOwned :
      (st st' : LockState V M)
      → Reach lib cm st st'
      → IsOwned st.system.latm
      → IsOwned st'.system.latm
  Reach-IsOwned st _ start k = k
  Reach-IsOwned st st' (later {st' = st1} r s) k = Step-IsOwned st1 st' s (Reach-IsOwned st st1 r k)

  -- Full protection with deferred updating: however rounds of clients' locks, their trylocks and
  -- their unlocks, called outside transactions by any threads, interleave with work that leaves the static members on
  -- locks alone, from a state in which no lock is held: each lock that is held has an owner, and no
  -- transaction of a thread other than that owner may go in flight.
  pub Reach-can_go_inflight :
      (st st' : LockState V M) (m : ℕ)
      → st.system.latm.locked_locks ≡ []
      → Reach lib cm st st'
      → st'.system.latm.latm_type ≡ e_full_latm_protection
      → has m st'.system.latm.locked_locks ≡ true
      → (th : ℕ) × (StdMap.lookup m st'.system.latm.locked_locks_of_thread ≡ some th)
        × ((t : ℕ) → (st'.system.tx t).thread_id ≢ th → can_go_inflight st'.system t ≡ false)
  unfolding can_go_inflight latm_admits
  Reach-can_go_inflight st st' m free r full h =
      let begun : IsOwned st.system.latm = record {
        sorted = subst IsSorted (sym free) tt;
        owned = λ k g. let none_held = ap (has k) free in cc;
      } in
      let k = Reach-IsOwned st st' r begun in
      let f = lookup_of_key m st'.system.latm.locked_locks_of_thread (k.owned m h) in
      (
        f.0,
        f.1,
        λ t ne. rw full (
            all_of_thread-lookup (st'.system.tx t).thread_id f.0 m
              st'.system.latm.locked_locks_of_thread f.1 ne),
      )
