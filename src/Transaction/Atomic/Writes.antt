-- ===== src/Transaction/Atomic/Writes.antt =====
-- A write changes, to the transaction, the value of one object, and nothing else.
use tboost_stm.Prelude.{
  ℕ, ◌<◌, ◌≤◌, ◌≡◌, ◌≢◌, refl, sym, ap, subst, ◌∙◌, List, [], ◌∷◌, Option, none, some, inl, inr,
  arith, ==-eq_true, Option-cases, ℕ_discrete,
}
use tboost_stm.StdMap
use tboost_stm.StdMap.{lookup-none-has_key, lookup-place_self, lookup-place_ne}
use tboost_stm.StdMap.Entries.{All-lookup}
use tboost_stm.Objects.{Object, Heap, assign, transaction_thread_at, on_object, thread_of}
use tboost_stm.System.{System, update, context_of, set_heap}
use tboost_stm.Transaction.Status.{other_in_flight_same_thread}
use tboost_stm.Transaction.Atomic.Reads.{other_same_thread_equal}
use tboost_stm.Transaction.Entries.{has_copy, Separate, lookup-some-has_copy}
use tboost_stm.Transaction.WriteList.{Backed}
use tboost_stm.Transaction.Unwinding.{assign-Untouched}
use tboost_stm.Transaction.Atomic.Clients.{IsView, value_at, place_of}

-- Two entries of a list with separate entries have different copies.
pub lookup_apart :
    (a b c d : ℕ) (m : List (ℕ × ℕ))
    → Separate m
    → StdMap.lookup a m ≡ some b
    → StdMap.lookup c m ≡ some d
    → a ≢ c
    → b ≢ 0
    → b ≢ d
unfolding StdMap.lookup has_copy
lookup_apart a b c d [] sep e f ne nz = cc
lookup_apart a b c d ((k, x) ∷ m) sep e f ne nz = elim (ℕ_discrete k a) [
  | yes p ↦
      let other = lookup-some-has_copy c d m (ground arith) in
      elim sep.5 [ inl z ↦ ground arith | inr u ↦ ground arith ]
  | no p ↦ elim (ℕ_discrete k c) [
    | yes q ↦
        let other = lookup-some-has_copy a b m (ground arith) in
        elim sep.5 [ inl z ↦ ground arith | inr u ↦ ground arith ]
    | no q ↦ lookup_apart a b c d m sep.6 (ground arith) (ground arith) ne nz
  ]
]

module _ {V : Type 0} where
  value_at-assign_self :
      (b : ℕ) (v w : V) (h : Heap V) → value_at h b ≡ some w → value_at (assign b v h) b ≡ some v
  unfolding assign
  value_at-assign_self b v w h e = elim (Option-cases (h.cell b)) [
    | inl empty ↦ ground arith
    | inr (o, live) ↦ rw (==-eq_true b b refl, live) refl
  ]

  value_at-assign_ne :
      (b c : ℕ) (v : V) (h : Heap V) → b ≢ c → value_at (assign b v h) c ≡ value_at h c
  unfolding assign
  value_at-assign_ne b c v h ne = ground arith

  next-assign : (b : ℕ) (v : V) (h : Heap V) → (assign b v h).next ≡ h.next
  unfolding assign
  next-assign b v h = refl

  alone-assign :
      (b : ℕ) (v : V) (t : ℕ) (s : System V)
      → other_in_flight_same_thread (set_heap s (assign b v s.heap)) t
        ≡ other_in_flight_same_thread s t
  unfolding other_in_flight_same_thread
  alone-assign b v t s =
      other_same_thread_equal s (set_heap s (assign b v s.heap)) t s.in_flight (λ i. refl)

  tag-on_object :
      (v : V) (o : Option (Object V))
      → thread_of (on_object (λ o. record o { value = v }) o) ≡ thread_of o
  tag-on_object v none = refl
  tag-on_object v (some o) = refl

  tag-assign :
      (b c : ℕ) (v : V) (h : Heap V)
      → transaction_thread_at (assign b v h) c ≡ transaction_thread_at h c
  unfolding assign
  tag-assign b c v h = elim (ℕ_discrete b c) [
    | yes same ↦ rw (same, ==-eq_true c c refl) (tag-on_object v (h.cell c))
    | no other ↦ ground arith
  ]

  Backed-assign :
      (b : ℕ) (v : V) (h : Heap V) (th : ℕ) (m : List (ℕ × ℕ))
      → Backed h th m
      → Backed (assign b v h) th m
  unfolding assign
  Backed-assign b v h th [] k = tt
  Backed-assign b v h th ((c, d) ∷ m) k =
      (k.0, k.1, rw (tag-assign b d v h) k.2, Backed-assign b v h th m k.3)

module _ {V : Type 0} (hash : ℕ → ℕ × ℕ) (D : ℕ → Type 0) (fl : List ℕ) (h : Heap V) (t : ℕ) where
  -- Where another object is found, the copy of this one is not.
  apart :
      (a b c : ℕ) (μ : ℕ → V) (s : System V)
      → IsView hash D fl h μ t s
      → StdMap.lookup a (context_of s t).write_mem ≡ some b
      → a ≢ c
      → 0 < c
      → c < h.next
      → b ≢ place_of c (StdMap.lookup c (context_of s t).write_mem)
  apart a b c μ s w found ne pos l =
      let m = (context_of s t).write_mem in
      let le = (All-lookup (λ e. h.next ≤ e.1) a b m w.untouched.copies found).1 in
      elim (Option-cases (StdMap.lookup c m)) [
        | inl absent ↦ rw absent (omega arith)
        | inr (d, other) ↦
            rw other (lookup_apart a b c d m w.private.separate found other ne (omega arith))
      ]

  -- The client's assignment to the copy of an object.
  pub assign-IsView :
      (a b : ℕ) (v : V) (μ : ℕ → V) (s : System V)
      → IsView hash D fl h μ t s
      → ((c : ℕ) → D c → (0 < c) × (c < h.next))
      → D a
      → StdMap.lookup a (context_of s t).write_mem ≡ some b
      → IsView hash D fl h (update μ a v) t (set_heap s (assign b v s.heap))
  assign-IsView a b v μ s w bounds da found =
      let m = (context_of s t).write_mem in
      let le = (All-lookup (λ e. h.next ≤ e.1) a b m w.untouched.copies found).1 in
      record {
        untouched = assign-Untouched hash h.next t b v h s w.untouched le;
        private = record {
          separate = w.private.separate;
          backed = Backed-assign b v s.heap (s.tx t).thread_id m w.private.backed;
          allocated = rw (next-assign b v s.heap) w.private.allocated;
          tagged = w.private.tagged;
        };
        free = w.free;
        flight = w.flight;
        flying = w.flying;
        alone = alone-assign b v t s ∙ w.alone;
        covers = w.covers;
        sees = λ c d. elim (ℕ_discrete a c) [
          | yes same ↦
              subst
                (λ z.
                  value_at (assign b v s.heap) (place_of z (StdMap.lookup z m))
                  ≡ some (update μ a v z))
                same
                (rw (found, ==-eq_true a a refl)
                  (value_at-assign_self b v (μ a) s.heap
                    (ap (λ o. value_at s.heap (place_of a o)) (sym found) ∙ w.sees a da)))
          | no other ↦
              let (pos, l) = bounds c d in
              value_at-assign_ne b _ v s.heap (apart a b c μ s w found other pos l)
              ∙ w.sees c d
              ∙ ap some (ground arith)
        ];
      }
