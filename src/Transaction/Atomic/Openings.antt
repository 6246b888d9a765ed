-- ===== src/Transaction/Atomic/Openings.antt =====
-- The first write of an object: the transaction goes on with a copy that has the object's value.
use tboost_stm.Prelude.{
  ℕ, ◌<◌, ◌≡◌, refl, sym, ap, subst, ◌∙◌, true, false, List, [], ◌∷◌, none, some, inl, inr, arith,
  ==-eq_true, Option-cases, ℕ_discrete, if_not_so,
}
use tboost_stm.StdMap
use tboost_stm.StdMap.{lookup-none-has_key, lookup-place_self, lookup-place_ne}
use tboost_stm.Objects.{
  Heap, invalid_thread, new_copy, set_transaction_thread, transaction_thread_at, thread_of,
}
use tboost_stm.System.{System, Outcome, returns, throws, update, context_of}
use tboost_stm.Transaction.Status.{forced_to_abort, in_flight, other_in_flight_same_thread}
use tboost_stm.Transaction.Deferred.{deferred_write, open_for_write, assign_through}
use tboost_stm.Transaction.WriteList.{Backed}
use tboost_stm.Transaction.Invalidation.Scan.{WbloomCovers}
use tboost_stm.Transaction.Invalidation.Coverage.{deferred_write-WbloomCovers}
use tboost_stm.Transaction.Isolation.{
  opened, opened-write_mem, opened-other, opened-forced, write_opens, open_for_write-IsPrivate,
}
use tboost_stm.Transaction.Unwinding.{opened-Untouched}
use tboost_stm.Transaction.Atomic.Clients.{IsView, Holds, value_of, value_at, place_of}
use tboost_stm.Transaction.Atomic.Reads.{other_same_thread_equal}
use tboost_stm.Transaction.Atomic.Writes.{assign-IsView}

module _ {V : Type 0} where
  Backed-lookup :
      (c d : ℕ) (h : Heap V) (th : ℕ) (m : List (ℕ × ℕ))
      → Backed h th m
      → StdMap.lookup c m ≡ some d
      → d < h.next
  unfolding StdMap.lookup
  Backed-lookup c d h th [] k e = cc
  Backed-lookup c d h th ((a, b) ∷ m) k e = elim (ℕ_discrete a c) [
    | yes hit ↦ let l = k.1 in ground arith
    | no miss ↦ Backed-lookup c d h th m k.3 (ground arith)
  ]

module _ {V : Type 0} (hash : ℕ → ℕ × ℕ) where
  open_for_write-returns :
      (t a : ℕ) (s : System V) → open_for_write hash t a s ≡ returns s.heap.next (opened hash t a s)
  unfolding open_for_write new_copy
  open_for_write-returns t a s = refl

  opened-in_flight : (t a : ℕ) (s : System V) → in_flight (opened hash t a s) t ≡ in_flight s t
  unfolding open_for_write
  opened-in_flight t a s = refl

  opened-flight : (t a : ℕ) (s : System V) → (opened hash t a s).in_flight ≡ s.in_flight
  unfolding open_for_write
  opened-flight t a s = refl

  alone-opened :
      (t a : ℕ) (s : System V)
      → other_in_flight_same_thread (opened hash t a s) t ≡ other_in_flight_same_thread s t
  unfolding open_for_write other_in_flight_same_thread
  alone-opened t a s = other_same_thread_equal s (opened hash t a s) t s.in_flight (λ i. refl)

  value_at-opened :
      (t a : ℕ) (s : System V) → value_at (opened hash t a s).heap s.heap.next ≡ value_at s.heap a
  unfolding open_for_write new_copy set_transaction_thread
  value_at-opened t a s = elim (Option-cases (s.heap.cell a)) [
    | inl empty ↦ rw (==-eq_true s.heap.next s.heap.next refl, empty) refl
    | inr (o, live) ↦ rw (==-eq_true s.heap.next s.heap.next refl, live) refl
  ]

  opened-WbloomCovers :
      (t a : ℕ) (s : System V)
      → forced_to_abort s t ≡ false
      → StdMap.lookup a (context_of s t).write_mem ≡ none
      → transaction_thread_at s.heap a ≡ invalid_thread
      → WbloomCovers hash s t
      → WbloomCovers hash (opened hash t a s) t
  opened-WbloomCovers t a s free absent common k =
      deferred_write-WbloomCovers hash t a s.heap.next s (opened hash t a s) k
        (write_opens hash t a s free absent common ∙ open_for_write-returns t a s)

module _ {V : Type 0} (hash : ℕ → ℕ × ℕ) (D : ℕ → Type 0) (fl : List ℕ) (h : Heap V) (μ : ℕ → V)
    (t : ℕ) where
  -- Where an object is found is allocated.
  placed_below :
      (c : ℕ) (s : System V)
      → IsView hash D fl h μ t s
      → c < h.next
      → place_of c (StdMap.lookup c (context_of s t).write_mem) < s.heap.next
  placed_below c s w l =
      let m = (context_of s t).write_mem in
      elim (Option-cases (StdMap.lookup c m)) [
        | inl absent ↦ rw absent (omega (arith, w.untouched.grown))
        | inr (d, found) ↦
            rw found (Backed-lookup c d s.heap (s.tx t).thread_id m w.private.backed found)
      ]

  opened-IsView :
      (a : ℕ) {v : V} (s : System V)
      → IsView hash D fl h μ t s
      → ((c : ℕ) → D c → (0 < c) × (c < h.next))
      → D a
      → Holds h v a
      → StdMap.lookup a (context_of s t).write_mem ≡ none
      → IsView hash D fl h μ t (opened hash t a s)
  opened-IsView a s w bounds da x absent =
      let m = (context_of s t).write_mem in
      let live = w.untouched.same a x.below ∙ x.live in
      let common : transaction_thread_at s.heap a ≡ invalid_thread = ap thread_of live ∙ x.common in
      let new = lookup-none-has_key a m absent in
      record {
        untouched = opened-Untouched hash h.next t a h s w.untouched;
        private =
            open_for_write-IsPrivate hash t a s w.private absent live x.common x.positive
              (omega (arith, x.below, w.untouched.grown));
        free = opened-forced hash t a s ∙ w.free;
        flight = opened-flight hash t a s ∙ w.flight;
        flying = opened-in_flight hash t a s ∙ w.flying;
        alone = alone-opened hash t a s ∙ w.alone;
        covers = opened-WbloomCovers hash t a s w.free absent common w.covers;
        sees = λ c d. rw (opened-write_mem hash t a s absent) (elim (ℕ_discrete a c) [
          | yes same ↦
              subst
                (λ z.
                  value_at (opened hash t a s).heap
                    (place_of z (StdMap.lookup z (StdMap.place a s.heap.next m)))
                  ≡ some (μ z))
                same
                (rw (lookup-place_self a s.heap.next m new) (
                  value_at-opened hash t a s
                  ∙ ap (λ o. value_at s.heap (place_of a o)) (sym absent)
                  ∙ w.sees a da))
          | no other ↦
              let (pos, l) = bounds c d in
              rw (lookup-place_ne a c s.heap.next m other)
                (ap value_of (opened-other hash t a _ s (placed_below c s w l)) ∙ w.sees c d)
        ]);
      }

  -- A write has returned, and the transaction goes on with another memory.
  abbrev pub Leaves : (ℕ → V) → Outcome V ℕ → Type 0
  Leaves ν (returns b s) = IsView hash D fl h ν t s
  Leaves ν (throws s) = true ≡ false

  write_listed :
      (a b : ℕ) (s : System V)
      → forced_to_abort s t ≡ false
      → StdMap.lookup a (context_of s t).write_mem ≡ some b
      → deferred_write hash t a s ≡ returns b s
  unfolding deferred_write
  write_listed a b s free found = if_not_so _ _ _ free ∙ rw found refl

  -- In a view of a memory the write of a value makes a view of the memory with the value.
  pub deferred_write-Leaves :
      (a : ℕ) (v : V) (s : System V) {u : V}
      → IsView hash D fl h μ t s
      → ((c : ℕ) → D c → (0 < c) × (c < h.next))
      → D a
      → Holds h u a
      → Leaves (update μ a v) (assign_through v (deferred_write hash t a s))
  unfolding assign_through
  deferred_write-Leaves a v s w bounds da x =
      let m = (context_of s t).write_mem in
      elim (Option-cases (StdMap.lookup a m)) [
        | inl absent ↦
            let live = w.untouched.same a x.below ∙ x.live in
            let common : transaction_thread_at s.heap a ≡ invalid_thread =
              ap thread_of live ∙ x.common in
            let listed : StdMap.lookup a (context_of (opened hash t a s) t).write_mem
                ≡ some s.heap.next =
              rw (opened-write_mem hash t a s absent)
                (lookup-place_self a s.heap.next m (lookup-none-has_key a m absent)) in
            subst (λ o. Leaves (update μ a v) (assign_through v o))
              (sym
                (write_opens hash t a s w.free absent common ∙ open_for_write-returns hash t a s))
              (assign-IsView hash D fl h t a s.heap.next v μ (opened hash t a s)
                (opened-IsView a s w bounds da x absent) bounds da listed)
        | inr (b, found) ↦
            subst (λ o. Leaves (update μ a v) (assign_through v o))
              (sym (write_listed a b s w.free found))
              (assign-IsView hash D fl h t a b v μ s w bounds da found)
      ]
