-- ===== src/Transaction/Atomic/Reads.antt =====
-- A read gives the transaction the value that the memory has.
use tboost_stm.Prelude.{
  ℕ, ◌≡◌, refl, sym, ap, subst, ◌∙◌, true, false, List, [], ◌∷◌, some, inl, inr, arith, if_both,
  if_not_so, ==-eq_true, Option-cases, All, ℕ_discrete,
}
use tboost_stm.BloomFilter
use tboost_stm.StdMap
use tboost_stm.Objects.{Heap}
use tboost_stm.System.{System, Transaction, update, Outcome, returns, throws, context_of}
use tboost_stm.Transaction.Status.{other_same_thread, other_in_flight_same_thread}
use tboost_stm.Transaction.Deferred.{
  deferred_read, surely_unwritten, insert_and_return_read_memory, bloom_insert, count_read,
}
use tboost_stm.Transaction.Invalidation.{keys}
use tboost_stm.Transaction.Isolation.{read_listed}
use tboost_stm.Transaction.Unwinding.{Kept, noted-Kept}
use tboost_stm.Transaction.Atomic.Clients.{IsView, value_at, place_of}

-- What holds of the keys of a map holds of a key that is found.
All-keys_found :
    (P : ℕ → Type 0) (a b : ℕ) (m : List (ℕ × ℕ))
    → All P (keys m)
    → StdMap.lookup a m ≡ some b
    → P a
unfolding StdMap.lookup
All-keys_found P a b [] k e = cc
All-keys_found P a b ((c, d) ∷ m) k e = elim (ℕ_discrete c a) [
  | yes hit ↦ subst P hit k.0
  | no miss ↦ All-keys_found P a b m k.1 (ground arith)
]

module _ {V : Type 0} where
  thread-update :
      (t i : ℕ) (x : Transaction) (s : System V)
      → x.thread_id ≡ (s.tx t).thread_id
      → (update s.tx t x i).thread_id ≡ (s.tx i).thread_id
  thread-update t i x s e = elim (ℕ_discrete t i) [
    | yes same ↦ rw (same, ==-eq_true i i refl) (e ∙ ap (λ z. (s.tx z).thread_id) same)
    | no other ↦ ground arith
  ]

  -- The search for another transaction of the thread reads the numbers of the threads only.
  pub other_same_thread_equal :
      (s s' : System V) (t : ℕ) (is : List ℕ)
      → ((i : ℕ) → (s'.tx i).thread_id ≡ (s.tx i).thread_id)
      → other_same_thread s' t is ≡ other_same_thread s t is
  unfolding other_same_thread
  other_same_thread_equal s s' t [] e = refl
  other_same_thread_equal s s' t (i ∷ is) e =
      rw (e i, e t, other_same_thread_equal s s' t is e) refl

  alone-noted :
      (hash : ℕ → ℕ × ℕ) (t a : ℕ) (s : System V)
      → other_in_flight_same_thread (count_read t (bloom_insert hash t a s)) t
        ≡ other_in_flight_same_thread s t
  unfolding other_in_flight_same_thread
  alone-noted hash t a s =
      other_same_thread_equal s (count_read t (bloom_insert hash t a s)) t s.in_flight
        (λ i. thread-update t i _ s refl)

module _ {V : Type 0} (hash : ℕ → ℕ × ℕ) (D : ℕ → Type 0) (fl : List ℕ) (h : Heap V) (μ : ℕ → V)
    (t : ℕ) where
  -- A read has returned a reference to the value, and the transaction goes on.
  abbrev pub Finds : V → Outcome V ℕ → Type 0
  Finds v (returns b s) = IsView hash D fl h μ t s × (value_at s.heap b ≡ some v)
  Finds v (throws s) = true ≡ false

  noted-Finds :
      (a : ℕ) (v : V) (s : System V)
      → IsView hash D fl h μ t s
      → value_at s.heap a ≡ some v
      → Finds v (insert_and_return_read_memory hash t a s)
  unfolding insert_and_return_read_memory
  noted-Finds a v s w e =
      let here = ==-eq_true t t refl in
      let mine = ==-eq_true (s.tx t).thread_id (s.tx t).thread_id refl in
      let c = context_of s t in
      if_both (λ o. Kept h.next h t o → Finds v o) (BloomFilter.exists hash a c.bloom) _ _
        (λ _. (w, e))
        (λ u. (
          record {
            untouched = u;
            private = record {
              separate = rw (here, mine) w.private.separate;
              backed = rw (here, mine) w.private.backed;
              allocated = w.private.allocated;
              tagged = rw here w.private.tagged;
            };
            free = let f = w.free in ground arith;
            flight = w.flight;
            flying = rw here w.flying;
            alone = alone-noted hash t a s ∙ w.alone;
            covers = rw (here, mine) w.covers;
            sees = rw (here, mine) w.sees;
          },
          e,
        ))
        (noted-Kept hash h.next t a h s w.untouched)

  -- In a view of a memory the read of an object returns a reference to its value in the memory.
  pub deferred_read-Finds :
      (a : ℕ) (s : System V)
      → IsView hash D fl h μ t s
      → D a
      → Finds (μ a) (deferred_read hash t a s)
  unfolding deferred_read
  deferred_read-Finds a s w d =
      let m = (context_of s t).write_mem in
      elim (Option-cases (StdMap.lookup a m)) [
        | inl absent ↦
            let e : value_at s.heap a ≡ some (μ a) =
              ap (λ o. value_at s.heap (place_of a o)) (sym absent) ∙ w.sees a d in
            subst (Finds (μ a)) (sym (if_not_so _ _ _ w.free)) (
              if_both (Finds (μ a)) (surely_unwritten hash (context_of s t) a) _ _
                (noted-Finds a (μ a) s w e) (rw absent (noted-Finds a (μ a) s w e)))
        | inr (b, found) ↦
            let e : value_at s.heap b ≡ some (μ a) =
              ap (λ o. value_at s.heap (place_of a o)) (sym found) ∙ w.sees a d in
            let listed =
              All-keys_found (λ j. BloomFilter.exists hash j (context_of s t).wbloom ≡ true) a b m
                w.covers found in
            subst (Finds (μ a)) (sym (read_listed hash t a b s w.free listed found)) (w, e)
      ]
