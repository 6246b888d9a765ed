-- ===== src/Transaction/Atomic/Ending.antt =====
-- The end of a transaction: it commits, or another one's rights make it abort.
use tboost_stm.Prelude.{
  ℕ, ◌≡◌, refl, sym, ap, subst, ◌∙◌, true, Bool, map, not, ◌&&◌, ltb, if◌then◌else◌, List, [], ◌∷◌,
  some, inl, inr, arith, Bool-cases, some_cancel, if_both, if_so, if_not_so, length,
}
use tboost_stm.StdMap
use tboost_stm.StdSet
use tboost_stm.Contention.{ContentionManager}
use tboost_stm.Objects.{Heap}
use tboost_stm.System.{System, Outcome, returns, throws, context_of}
use tboost_stm.Transaction.Status.{
  force_to_abort, is_only_reading, is_writing, is_empty, view, other_in_flight_same_thread,
}
use tboost_stm.Transaction.Abort.{deferred_abort, delete_all, delete_copies}
use tboost_stm.Transaction.Invalidation.{
  Verdict, aborts, refused, force_all, settle, scan, force_others_accessing,
}
use tboost_stm.Transaction.Commit.{
  write_back, commit_or_abort, tick_outcome, end, end_reading, end_writing,
  invalidating_deferred_commit, invalidating_deferred_end_transaction,
}
use tboost_stm.Transaction.Publication.{write_back-heap, finish-heap}
use tboost_stm.Transaction.Unwinding.Agreement.{deferred_abort-Agree, deferred_abort-heap}
use tboost_stm.Transaction.Atomic.Clients.{
  AllOrNothing, IsView, Holds, Stores, value_at, value_of, place_of,
}
use tboost_stm.Transaction.Atomic.Settled.{write_back-Holds, delete-next}

-- The heap and the lists of a transaction are the same.
record Alike {V : Type 0} (s s' : System V) (t : ℕ) : Type 0 where
  heap_eq : s'.heap ≡ s.heap
  writes_eq : (context_of s' t).write_mem ≡ (context_of s t).write_mem
  news_eq : (context_of s' t).new_mem ≡ (context_of s t).new_mem

empty_first : (m : List (ℕ × ℕ)) (b c : Bool) → not (not (is_empty m && b && c)) ≡ true → m ≡ []
empty_first [] b c e = refl
empty_first (x ∷ m) b c e = cc

module _ {V : Type 0} where
  force_to_abort-Alike : (i t : ℕ) (s : System V) → Alike s (force_to_abort i s) t
  unfolding force_to_abort
  force_to_abort-Alike i t s = record {
    heap_eq = ground arith;
    writes_eq = ground arith;
    news_eq = ground arith;
  }

  force_all-Alike : (l : List ℕ) (t : ℕ) (s : System V) → Alike s (force_all l s) t
  unfolding force_all
  force_all-Alike [] t s = record { heap_eq = refl; writes_eq = refl; news_eq = refl }
  force_all-Alike (i ∷ l) t s =
      let a = force_to_abort-Alike i t s in
      let b = force_all-Alike l t (force_to_abort i s) in
      record {
        heap_eq = b.heap_eq ∙ a.heap_eq;
        writes_eq = b.writes_eq ∙ a.writes_eq;
        news_eq = b.news_eq ∙ a.news_eq;
      }

  abbrev AlikeAfter : System V → ℕ → Outcome V (Unit {0}) → Type 0
  AlikeAfter s t (returns _ s') = Alike s s' t
  AlikeAfter s t (throws s') = Alike s s' t

  -- An abort and a commit depend on the lists and on the heap only.
  deferred_abort-Alike :
      (t : ℕ) (s s' : System V)
      → Alike s s' t
      → (deferred_abort t s').heap ≡ (deferred_abort t s).heap
  deferred_abort-Alike t s s' a =
      deferred_abort-heap t s'
      ∙ rw (a.heap_eq, a.writes_eq, a.news_eq) refl
      ∙ sym (deferred_abort-heap t s)

  write_back-Alike :
      (now t : ℕ) (s s' : System V)
      → Alike s s' t
      → (write_back now t s').heap ≡ (write_back now t s).heap
  write_back-Alike now t s s' a =
      write_back-heap now t s'
      ∙ rw (a.heap_eq, a.writes_eq, a.news_eq) refl
      ∙ sym (write_back-heap now t s)

  delete_all-next : (m : List ℕ) (h : Heap V) → (delete_all m h).next ≡ h.next
  unfolding delete_all
  delete_all-next [] h = refl
  delete_all-next (a ∷ m) h = delete_all-next m _ ∙ delete-next a h

  delete_copies-next : (m : List (ℕ × ℕ)) (h : Heap V) → (delete_copies m h).next ≡ h.next
  unfolding delete_copies
  delete_copies-next [] h = refl
  delete_copies-next ((a, b) ∷ m) h = delete_copies-next m _ ∙ delete-next b h

  deferred_abort-next : (t : ℕ) (s : System V) → (deferred_abort t s).heap.next ≡ s.heap.next
  deferred_abort-next t s =
      ap (λ h. h.next) (deferred_abort-heap t s)
      ∙ delete_all-next (context_of s t).new_mem _
      ∙ delete_copies-next (context_of s t).write_mem s.heap

  only_reading-write_mem :
      (t : ℕ) (s : System V) → is_only_reading s t ≡ true → (context_of s t).write_mem ≡ []
  unfolding is_only_reading is_writing
  only_reading-write_mem t s e =
      let c = context_of s t in empty_first c.write_mem (is_empty c.del_mem) (is_empty c.new_mem) e

module _ {V : Type 0} (hash : ℕ → ℕ × ℕ) (cm : ContentionManager) where
  settle-Alike : (t : ℕ) (s : System V) (v : Verdict) → AlikeAfter s t (settle hash cm t s v)
  settle-Alike t s refused = force_to_abort-Alike t t s
  settle-Alike t s (aborts []) = record { heap_eq = refl; writes_eq = refl; news_eq = refl }
  settle-Alike t s (aborts (i ∷ is)) =
      if_both (AlikeAfter s t) (cm.permission_to_abort_all (view s t) (map (view s) (i ∷ is))) _ _
        (force_all-Alike (i ∷ is) t s) (force_to_abort-Alike t t s)

  force_others_accessing-Alike :
      (t : ℕ) (s : System V) → AlikeAfter s t (force_others_accessing hash cm t s)
  unfolding force_others_accessing
  force_others_accessing-Alike t s = settle-Alike t s (scan hash cm s t s.in_flight (aborts []))

module _ {V : Type 0} (hash : ℕ → ℕ × ℕ) (D : ℕ → Type 0) (fl : List ℕ) (h : Heap V) (μ ν : ℕ → V)
    (t : ℕ) where
  aborted-Stores :
      (s s' : System V)
      → Stores D μ h
      → IsView hash D fl h ν t s
      → Alike s s' t
      → Stores D μ (deferred_abort t s').heap
  aborted-Stores s s' k w al a d =
      let x = k a d in
      let e = deferred_abort-Alike t s s' al in
      record {
        object = x.object;
        live =
            ap (λ h. h.cell a) e ∙ deferred_abort-Agree h.next t h s w.untouched a x.below ∙ x.live;
        value_eq = x.value_eq;
        common = x.common;
        positive = x.positive;
        below =
            rw (ap (λ h. h.next) e ∙ deferred_abort-next t s)
              (omega (arith, x.below, w.untouched.grown));
      }

  committed-Stores :
      (now : ℕ) (s s' : System V)
      → Stores D μ h
      → IsView hash D fl h ν t s
      → Alike s s' t
      → Stores D ν (write_back now t s').heap
  committed-Stores now s s' k w al a d =
      subst (λ z. Holds z (ν a) a) (sym (write_back-Alike now t s s' al))
        (write_back-Holds hash D fl h ν t now a s w d (k a d))

  -- A transaction without writes has seen what is in place.
  read_only-Stores :
      (s : System V)
      → Stores D μ h
      → IsView hash D fl h ν t s
      → (context_of s t).write_mem ≡ []
      → Stores D ν s.heap
  unfolding StdMap.lookup
  read_only-Stores s k w e a d =
      let x = k a d in
      let live = w.untouched.same a x.below ∙ x.live in
      let seen : value_at s.heap a ≡ some (ν a) =
        ap (λ m. value_at s.heap (place_of a (StdMap.lookup a m))) (sym e) ∙ w.sees a d in
      record {
        object = x.object;
        live = live;
        value_eq = some_cancel x.object.value (ν a) (sym (ap value_of live) ∙ seen);
        common = x.common;
        positive = x.positive;
        below = omega (arith, x.below, w.untouched.grown);
      }

module _ {V : Type 0} (hash : ℕ → ℕ × ℕ) (cm : ContentionManager) (now : ℕ) where
  end_reading-heap : (t : ℕ) (s : System V) → (end_reading hash cm now t s).heap ≡ s.heap
  unfolding end_reading
  end_reading-heap t s =
      let s' = record s { in_flight = StdSet.erase t s.in_flight } in
      if_both {A = System V} (λ z. z.heap ≡ s.heap) (other_in_flight_same_thread s' t) _ _ refl
        (finish-heap t s')

  module _ (D : ℕ → Type 0) (fl : List ℕ) (h : Heap V) (μ ν : ℕ → V) (t : ℕ) (s : System V) where
    commit_or_abort-AllOrNothing :
        (o : Outcome V (Unit {0}))
        → Stores D μ h
        → IsView hash D fl h ν t s
        → AlikeAfter s t o
        → AllOrNothing D μ ν (commit_or_abort hash cm now t o)
    commit_or_abort-AllOrNothing (returns _ s') k w al =
        committed-Stores hash D fl h μ ν t now s s' k w al
    commit_or_abort-AllOrNothing (throws s') k w al = aborted-Stores hash D fl h μ ν t s s' k w al

    tick_outcome-AllOrNothing :
        (o : Outcome V (Unit {0}))
        → AllOrNothing D μ ν o
        → AllOrNothing D μ ν (tick_outcome hash cm now o)
    tick_outcome-AllOrNothing (returns _ s') k = k
    tick_outcome-AllOrNothing (throws s') k = k

    Alike-self : Alike s s t
    Alike-self = record { heap_eq = refl; writes_eq = refl; news_eq = refl }

    commit-AllOrNothing :
        Stores D μ h
        → IsView hash D fl h ν t s
        → AllOrNothing D μ ν (invalidating_deferred_commit hash cm now t s)
    unfolding invalidating_deferred_commit
    commit-AllOrNothing k w =
        commit_or_abort-AllOrNothing
          (if ltb 1 (length s.in_flight) then force_others_accessing hash cm t s else returns tt s)
          k w
          (if_both (AlikeAfter s t) (ltb 1 (length s.in_flight)) _ _
            (force_others_accessing-Alike hash cm t s) Alike-self)

    end_writing-AllOrNothing :
        Stores D μ h → IsView hash D fl h ν t s → AllOrNothing D μ ν (end_writing hash cm now t s)
    unfolding end_writing
    end_writing-AllOrNothing k w = subst (AllOrNothing D μ ν) (sym (if_not_so _ _ _ w.free)) (
        tick_outcome-AllOrNothing _
          (subst (AllOrNothing D μ ν) (sym (if_not_so _ _ _ w.alone)) (commit-AllOrNothing k w)))

    -- The end of a transaction that sees the second memory, and began with the first.
    pub end-AllOrNothing :
        Stores D μ h → IsView hash D fl h ν t s → AllOrNothing D μ ν (end hash cm now t s)
    unfolding end invalidating_deferred_end_transaction
    end-AllOrNothing k w =
        subst (AllOrNothing D μ ν)
          (sym
            (if_so _ _ _ w.flying ∙ if_not_so _ _ _ w.untouched.deferred ∙ if_not_so _ _ _ w.free))
          (elim (Bool-cases (is_only_reading s t)) [
            | inl reading ↦ subst (AllOrNothing D μ ν) (sym (if_so _ _ _ reading)) (
                subst (Stores D ν) (sym (end_reading-heap t s))
                  (read_only-Stores hash D fl h μ ν t s k w (only_reading-write_mem t s reading)))
            | inr writing ↦
                subst (AllOrNothing D μ ν) (sym (if_not_so _ _ _ writing))
                  (end_writing-AllOrNothing k w)
          ])
