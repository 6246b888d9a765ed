-- ===== src/Transaction/Invalidation/Coverage.antt =====
-- The write filter holds every object of the write list, which the scan for conflicts relies on.
use tboost_stm.Prelude.{
  ℕ, ◌≡◌, refl, subst, true, ltb, ◌==◌, List, [], ◌∷◌, All, if_both, ==-eq_true, Option-cases, inl,
  inr,
}
use tboost_stm.BloomFilter
use tboost_stm.BloomFilter.Laws.{exists-set_self, exists-set_mono}
use tboost_stm.StdMap
use tboost_stm.Objects.{new_copy, invalid_thread, transaction_thread_at}
use tboost_stm.System.{System, Outcome, returns, throws, context_of}
use tboost_stm.Transaction.Status.{forced_to_abort}
use tboost_stm.Transaction.Deferred.{deferred_write, open_for_write}
use tboost_stm.Transaction.Invalidation.{keys}
use tboost_stm.Transaction.Invalidation.Scan.{WbloomCovers}

All-map {ℓ} : {P Q : ℕ → Type ℓ} (m : List ℕ) → ((a : ℕ) → P a → Q a) → All P m → All Q m
All-map [] f k = tt
All-map (a ∷ m) f k = (f a k.0, All-map m f k.1)

All-keys-place :
    (P : ℕ → Type 0) (a b : ℕ) (m : List (ℕ × ℕ))
    → All P (keys m)
    → P a
    → All P (keys (StdMap.place a b m))
unfolding StdMap.place
All-keys-place P a b [] k p = (p, tt)
All-keys-place P a b ((c, d) ∷ m) k p =
    if_both (λ m. All P (keys m)) (ltb a c) _ _ (p, k) (k.0, All-keys-place P a b m k.1 p)

All-keys-insert :
    (P : ℕ → Type 0) (a b : ℕ) (m : List (ℕ × ℕ))
    → All P (keys m)
    → P a
    → All P (keys (StdMap.insert a b m))
unfolding StdMap.insert
All-keys-insert P a b m k p =
    if_both (λ m. All P (keys m)) (StdMap.has_key a m) _ _ k (All-keys-place P a b m k p)

module _ {V : Type 0} (hash : ℕ → ℕ × ℕ) where
  abbrev Covered : ℕ → Outcome V ℕ → Type 0
  Covered t (returns r s) = WbloomCovers hash s t
  Covered t (throws s) = Unit

  opened-Covered :
      (t a : ℕ) (s : System V) → WbloomCovers hash s t → Covered t (open_for_write hash t a s)
  unfolding open_for_write new_copy
  opened-Covered t a s k =
      let c = context_of s t in
      rw (==-eq_true (s.tx t).thread_id (s.tx t).thread_id refl) (
        All-keys-insert
          (λ j.
            BloomFilter.exists hash j (
              BloomFilter.set_bv2 (BloomFilter.insert hash a c.bloom).h2
                (BloomFilter.set_bv1 (BloomFilter.insert hash a c.bloom).h1 c.wbloom))
            ≡ true)
          a s.heap.next c.write_mem
          (All-map (keys c.write_mem) (λ j e. exists-set_mono hash j _ _ c.wbloom e) k)
          (exists-set_self hash a c.bloom c.wbloom))

  written-Covered :
      (t a : ℕ) (s : System V) → WbloomCovers hash s t → Covered t (deferred_write hash t a s)
  unfolding deferred_write
  written-Covered t a s k =
      if_both (Covered t) (forced_to_abort s t) _ _ tt
        (elim (Option-cases (StdMap.lookup a (context_of s t).write_mem)) [
          | inl absent ↦ rw absent (
              if_both (Covered t) (transaction_thread_at s.heap a == invalid_thread) _ _
                (opened-Covered t a s k) k)
          | inr (b, found) ↦ rw found k
        ])

  -- A write that returns keeps every object of the write list in the write filter, if it held them
  -- before.
  pub deferred_write-WbloomCovers :
      (t a r : ℕ) (s s' : System V)
      → WbloomCovers hash s t
      → deferred_write hash t a s ≡ returns r s'
      → WbloomCovers hash s' t
  deferred_write-WbloomCovers t a r s s' k e = subst (Covered t) e (written-Covered t a s k)
