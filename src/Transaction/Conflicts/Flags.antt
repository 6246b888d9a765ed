-- ===== src/Transaction/Conflicts/Flags.antt =====
-- What the commit of a transaction leaves to another one: that it is forced to abort, and in flight.
use tboost_stm.Prelude.{
  ℕ, ◌≡◌, ◌≢◌, refl, ap, ◌∙◌, false, if◌then◌else◌, List, [], ◌∷◌, arith, if_both, ==-eq_true,
  ==-eq_false, ℕ_discrete, inl, inr, length, ◌⊎◌, ◌+◌, u64,
}
use tboost_stm.StdSet
use tboost_stm.System.{
  System, Context, set_context, set_state, context_of, e_committed, e_normal_tx, update,
}
use tboost_stm.Transaction.Status.{in_flight, forced_to_abort}
use tboost_stm.Transaction.Release.{
  unblock_waiting, unblock_conflicting_threads, give_back, clear_latm_obtained_locks,
}
use tboost_stm.Transaction.Deletions.{commit_deleted_memory}
use tboost_stm.Transaction.Commit.{
  deferred_commit_write_state, commit_new_memory, finish, write_back, count_commit, inc_commits,
  count_memory,
}

-- The flag, the state and the policy of the transaction `i` are the same.
pub record Spares {V : Type 0} (i : ℕ) (s s' : System V) : Type 0 where
  pub flag : forced_to_abort s' i ≡ forced_to_abort s i
  pub flying : in_flight s' i ≡ in_flight s i
  pub policy : s'.direct_updating ≡ s.direct_updating

list_cases : {A : Type 0} (l : List A) → (l ≡ []) ⊎ ((a : A) × (rest : List A) × (l ≡ a ∷ rest))
list_cases [] = inl refl
list_cases (a ∷ rest) = inr (a, rest, refl)

module _ {V : Type 0} (i : ℕ) where
  pub Spares-trans : (s s' s'' : System V) → Spares i s s' → Spares i s' s'' → Spares i s s''
  Spares-trans s s' s'' a b = record {
    flag = b.flag ∙ a.flag;
    flying = b.flying ∙ a.flying;
    policy = b.policy ∙ a.policy;
  }

  -- The context of a thread changes, but for its flag.
  context-Spares :
      (th : ℕ) (c : Context) (s : System V)
      → c.abort ≡ (s.context th).abort
      → Spares i s (record s { context = update s.context th c })
  context-Spares th c s e = record {
    flag = elim (ℕ_discrete th (s.tx i).thread_id) [
      | yes same ↦
          ap (λ b. (if b then c else s.context (s.tx i).thread_id).abort)
            (==-eq_true th (s.tx i).thread_id same)
          ∙ e
          ∙ ap (λ z. (s.context z).abort) same
      | no other ↦ ground arith
    ];
    flying = refl;
    policy = refl;
  }

  same_flags : (s : System V) → Spares i s s
  same_flags s = record { flag = refl; flying = refl; policy = refl }

  unblock_waiting-Spares :
      (m : ℕ) (ths : List ℕ) (s : System V) → Spares i s (unblock_waiting m ths s)
  unfolding unblock_waiting
  unblock_waiting-Spares m [] s = same_flags s
  unblock_waiting-Spares m (th ∷ ths) s =
      Spares-trans s _ _
        (if_both (Spares i s) _ _ _
          (context-Spares th (record (s.context th) { blocked = false }) s refl) (same_flags s))
        (unblock_waiting-Spares m ths _)

  unblock_conflicting_threads-Spares :
      (m : ℕ) (s : System V) → Spares i s (unblock_conflicting_threads m s)
  unfolding unblock_conflicting_threads
  unblock_conflicting_threads-Spares m s =
      if_both (Spares i s) _ _ _ (same_flags s)
        (if_both (Spares i s) _ _ _ (same_flags s) (unblock_waiting-Spares m s.threads s))

  give_back-Spares : (t : ℕ) (ms : List ℕ) (s : System V) → Spares i s (give_back t ms s)
  unfolding give_back
  give_back-Spares t [] s = same_flags s
  give_back-Spares t (m ∷ ms) s =
      let c = record (context_of s t) { obtained_locks = ms } in
      let s1 = set_context s t c in
      Spares-trans s s1 _ (context-Spares (s.tx t).thread_id c s refl) (
        Spares-trans s1 (unblock_conflicting_threads m s1) _
          (unblock_conflicting_threads-Spares m s1)
          (give_back-Spares t ms (unblock_conflicting_threads m s1)))

  clear_latm_obtained_locks-Spares :
      (t : ℕ) (s : System V) → Spares i s (clear_latm_obtained_locks t s)
  unfolding clear_latm_obtained_locks
  clear_latm_obtained_locks-Spares t s =
      let s1 = give_back t (context_of s t).obtained_locks s in
      Spares-trans s s1 _ (give_back-Spares t (context_of s t).obtained_locks s) (
        context-Spares (s1.tx t).thread_id
          (record (context_of s1 t) { currently_locked_locks = [] }) s1 refl)

  -- Another transaction is committed.
  committed-Spares : (t : ℕ) (s : System V) → t ≢ i → Spares i s (set_state s t e_committed)
  committed-Spares t s ne = record {
    flag = rw (==-eq_false t i ne) refl;
    flying = rw (==-eq_false t i ne) refl;
    policy = refl;
  }

  finish-Spares : (t : ℕ) (s : System V) → t ≢ i → Spares i s (finish t s)
  unfolding finish
  finish-Spares t s ne =
      let c = record (context_of s t) { tx_type = e_normal_tx; conflicting_mutexes = [] } in
      let s1 = set_context s t c in
      Spares-trans s s1 _ (context-Spares (s.tx t).thread_id c s refl) (
        Spares-trans s1 (clear_latm_obtained_locks t s1) _ (clear_latm_obtained_locks-Spares t s1)
          (committed-Spares t (clear_latm_obtained_locks t s1) ne))

  buffered-Spares :
      (b : List (ℕ × List ℕ)) (s s' : System V)
      → Spares i s s'
      → Spares i s (record s' { deletion_buffer = b })
  buffered-Spares b s s' k = record { flag = k.flag; flying = k.flying; policy = k.policy }

  deleted-Spares : (now t : ℕ) (s : System V) → Spares i s (commit_deleted_memory now t s)
  unfolding commit_deleted_memory
  deleted-Spares now t s = elim (list_cases (context_of s t).del_mem) [
    | inl e ↦ rw (commit_deleted_memory, e) (same_flags s)
    | inr (a, rest, e) ↦
        rw (commit_deleted_memory, e)
          (buffered-Spares _ s _
            (context-Spares (s.tx t).thread_id (record (context_of s t) { del_mem = [] }) s refl))
  ]

  write_state-Spares : (t : ℕ) (s : System V) → Spares i s (deferred_commit_write_state t s)
  unfolding deferred_commit_write_state
  write_state-Spares t s =
      let k =
        context-Spares (s.tx t).thread_id (record (context_of s t) { write_mem = [] }) s refl in
      record { flag = k.flag; flying = k.flying; policy = k.policy }

  new_memory-Spares : (t : ℕ) (s : System V) → Spares i s (commit_new_memory t s)
  unfolding commit_new_memory
  new_memory-Spares t s =
      let k = context-Spares (s.tx t).thread_id (record (context_of s t) { new_mem = [] }) s refl in
      record { flag = k.flag; flying = k.flying; policy = k.policy }

  counted-Spares :
      (t : ℕ) (l : List ℕ) (s : System V) → Spares i s (count_commit t (record s { in_flight = l }))
  counted-Spares t l s =
      let k =
        context-Spares (s.tx t).thread_id
          (record (context_of s t) { commits = u64 ((context_of s t).commits + 1) }) s refl in
      record { flag = k.flag; flying = k.flying; policy = k.policy }

  -- The writing back of a transaction leaves the others forced to abort and in flight.
  pub write_back-Spares : (now t : ℕ) (s : System V) → t ≢ i → Spares i s (write_back now t s)
  unfolding write_back
  write_back-Spares now t s ne =
      let s1 = count_commit t (record s { in_flight = StdSet.erase t s.in_flight }) in
      let s2 = deferred_commit_write_state t s1 in
      let s3 = commit_new_memory t s2 in
      let s4 = commit_deleted_memory now t s3 in
      let c = context_of s t in
      let s5 = inc_commits (count_memory (length c.new_mem) (length c.del_mem) s4) in
      Spares-trans s s1 _ (counted-Spares t (StdSet.erase t s.in_flight) s) (
        Spares-trans s1 s2 _ (write_state-Spares t s1) (
          Spares-trans s2 s3 _ (new_memory-Spares t s2) (
            Spares-trans s3 s4 _ (deleted-Spares now t s3) (
              Spares-trans s4 s5 _ (record { flag = refl; flying = refl; policy = refl })
                (finish-Spares t s5 ne)))))
