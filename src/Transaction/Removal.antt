-- ===== src/Transaction/Removal.antt =====
-- What a deletion, and an abort, leave as it was.
use tboost_stm.Prelude.{
  ℕ, ◌≡◌, ◌≢◌, ◌∙◌, refl, sym, ap, subst, true, false, not, ◌==◌, List, [], ◌∷◌, ◌++◌, some, inl,
  inr, All, arith, if_both, if_so, ==-eq_true, ==-eq_false, Bool-cases, ℕ_discrete,
}
use tboost_stm.StdMap
use tboost_stm.StdMap.{has_key-lookup, lookup-insert_ne, lookup-insert_new}
use tboost_stm.Objects.{Heap, invalid_thread, transaction_thread_at}
use tboost_stm.System.{System, final, context_of}
use tboost_stm.Transaction.Status.{forced_to_abort}
use tboost_stm.Transaction.Abort.{deferred_abort, direct_abort, abort, leave}
use tboost_stm.Transaction.Deferred.{deferred_delete_memory, delete_originals}
use tboost_stm.Transaction.Entries.{has_copy, Separate, lookup-some-has_copy}
use tboost_stm.Transaction.WriteList.{Backed}
use tboost_stm.Transaction.Isolation.{IsPrivate}

insert-present : (k v : ℕ) (m : List (ℕ × ℕ)) → StdMap.has_key k m ≡ true → StdMap.insert k v m ≡ m
unfolding StdMap.insert
insert-present k v m h = if_so _ _ _ h

-- The loop over a part of the write list changes no entry, since each key that it inserts is present.
delete_originals-writes :
    (a : ℕ) (m w : List (ℕ × ℕ)) (d : List ℕ)
    → All (λ e. StdMap.has_key e.0 w ≡ true) m
    → (delete_originals a m w d).0 ≡ w
unfolding delete_originals
delete_originals-writes a [] w d k = refl
delete_originals-writes a ((j, b) ∷ m) w d k = elim (Bool-cases (b == a)) [
  | inl hit ↦ rw (hit, insert-present j 0 w k.0) (delete_originals-writes a m w (d ++ j ∷ []) k.1)
  | inr miss ↦ rw miss (delete_originals-writes a m w d k.1)
]

-- The keys of a list whose keys are in the map are in the map.
present_in :
    (m w : List (ℕ × ℕ))
    → ((k : ℕ) → StdMap.has_key k m ≡ true → StdMap.has_key k w ≡ true)
    → All (λ e. StdMap.has_key e.0 w ≡ true) m
unfolding StdMap.has_key
present_in [] w f = tt
present_in ((j, b) ∷ m) w f = (f j (ground arith), present_in m w (λ k h. f k (ground arith)))

-- A copy in the list is no key of it, and not its own original.
Separate-lookup :
    (a b : ℕ) (m : List (ℕ × ℕ))
    → Separate m
    → b ≢ 0
    → StdMap.lookup a m ≡ some b
    → (a ≢ b) × (StdMap.has_key b m ≡ false)
unfolding StdMap.lookup StdMap.has_key
Separate-lookup a b [] sep nz e = cc
Separate-lookup a b ((k, c) ∷ m) sep nz e = elim (ℕ_discrete k a) [
  | yes hit ↦
      let same : c ≡ b = ground arith in let apart = sep.1 in let new = sep.4 in ground arith
  | no miss ↦
      let e' : StdMap.lookup a m ≡ some b = ground arith in
      let rest = Separate-lookup a b m sep.6 nz e' in
      let kept = lookup-some-has_copy a b m e' in
      let free = sep.3 in
      let apart : k ≢ b = λ z. let kept' = subst (λ q. has_copy q m ≡ false) z free in cc in
      let new = rest.1 in (rest.0, ground arith)
]

module _ {V : Type 0} where
  Backed-tagged :
      (a b th : ℕ) (h : Heap V) (m : List (ℕ × ℕ))
      → Backed h th m
      → b ≢ 0
      → StdMap.lookup a m ≡ some b
      → transaction_thread_at h b ≡ th
  unfolding StdMap.lookup
  Backed-tagged a b th h [] k nz e = cc
  Backed-tagged a b th h ((j, c) ∷ m) k nz e = elim (ℕ_discrete j a) [
    | yes hit ↦
        let same : c ≡ b = ground arith in
        elim k.2 [ inl z ↦ absurd (nz (sym same ∙ z)) | inr own ↦ rw (← same) own ]
    | no miss ↦ Backed-tagged a b th h m k.3 nz (ground arith)
  ]

module _ {V : Type 0} (hash : ℕ → ℕ × ℕ) where
  -- Unless the transaction is forced to abort, deleting an object leaves the write list as it is at
  -- every other object, also at the original of a copy that is deleted.
  deferred_delete_memory-keeps :
      (t a k : ℕ) (s : System V)
      → forced_to_abort s t ≡ false
      → k ≢ a
      → StdMap.lookup k (context_of (final (deferred_delete_memory hash t a s)) t).write_mem
        ≡ StdMap.lookup k (context_of s t).write_mem
  unfolding deferred_delete_memory
  deferred_delete_memory-keeps t a k s free ne =
      let m = (context_of s t).write_mem in
      let d = (context_of s t).del_mem in
      rw (free, ==-eq_true (s.tx t).thread_id (s.tx t).thread_id refl)
        (if_both {A = List (ℕ × ℕ) × List ℕ} (λ w. StdMap.lookup k w.0 ≡ StdMap.lookup k m)
          (not (transaction_thread_at s.heap a == invalid_thread)) (StdMap.insert a 0 m, d)
          (delete_originals a m m d) (lookup-insert_ne a k 0 m (omega arith))
          (ap (StdMap.lookup k) (delete_originals-writes a m m d (present_in m m (λ k h. h)))))

  -- Deleting a copy with deferred updating does not delete its original: if the transaction is not
  -- forced to abort and its write list is private, then after the deletion of a copy the write list
  -- still pairs the original with the copy, the copy stands in it as an original without a copy, and
  -- the copy alone has been added to the deleted memory.
  pub deferred_delete_memory-lookup :
      (t a b : ℕ) (s : System V)
      → IsPrivate s t
      → forced_to_abort s t ≡ false
      → b ≢ 0
      → StdMap.lookup a (context_of s t).write_mem ≡ some b
      → let c = context_of (final (deferred_delete_memory hash t b s)) t in
        (StdMap.lookup a c.write_mem ≡ some b)
        × (StdMap.lookup b c.write_mem ≡ some 0)
        × (c.del_mem ≡ (context_of s t).del_mem ++ b ∷ [])
  unfolding deferred_delete_memory
  deferred_delete_memory-lookup t a b s p free nz e =
      let m = (context_of s t).write_mem in
      let (apart, new) = Separate-lookup a b m p.separate nz e in
      let own = Backed-tagged a b (s.tx t).thread_id s.heap m p.backed nz e in
      let tagged : (transaction_thread_at s.heap b == invalid_thread) ≡ false =
        ==-eq_false _ _ (λ z. p.tagged (sym own ∙ z)) in
      (
        deferred_delete_memory-keeps t b a s free apart ∙ e,
        rw (free, tagged, ==-eq_true (s.tx t).thread_id (s.tx t).thread_id refl)
            (lookup-insert_new b 0 m (has_key-lookup b m new)),
        rw (free, tagged, ==-eq_true (s.tx t).thread_id (s.tx t).thread_id refl) refl,
      )

module _ {V : Type 0} where
  deferred_abort-tx_type :
      (t th : ℕ) (s : System V) → ((deferred_abort t s).context th).tx_type ≡ (s.context th).tx_type
  unfolding deferred_abort leave
  deferred_abort-tx_type t th s = ground arith

  direct_abort-tx_type :
      (t th : ℕ) (s : System V) → ((direct_abort t s).context th).tx_type ≡ (s.context th).tx_type
  unfolding direct_abort leave
  direct_abort-tx_type t th s = ground arith

  -- An abort changes the type of no thread: the thread of an irrevocable transaction that aborts
  -- stays irrevocable.
  pub abort-tx_type :
      (t th : ℕ) (s : System V) → ((abort t s).context th).tx_type ≡ (s.context th).tx_type
  unfolding abort
  abort-tx_type t th s =
      if_both {A = System V} (λ z. (z.context th).tx_type ≡ (s.context th).tx_type)
        s.direct_updating _ _ (direct_abort-tx_type t th s) (deferred_abort-tx_type t th s)
