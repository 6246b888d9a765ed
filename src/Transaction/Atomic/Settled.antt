-- ===== src/Transaction/Atomic/Settled.antt =====
-- What the commit of a transaction makes of its view: the values in the memory that everyone shares.
use tboost_stm.Prelude.{
  ℕ, ◌<◌, ◌≤◌, ◌≡◌, refl, sym, ap, ◌∙◌, false, ◌==◌, List, [], ◌∷◌, Option, none, some, inl, inr,
  arith, Option-cases, All, some_cancel, if_both,
}
use tboost_stm.StdMap
use tboost_stm.StdMap.{lookup-none-has_key}
use tboost_stm.StdMap.Entries.{All-lookup}
use tboost_stm.Objects.{Object, Heap, copy_state, delete, set_new_memory, set_transaction_thread}
use tboost_stm.System.{System, context_of}
use tboost_stm.Transaction.Commit.{share_all, publish, publish_entry, write_back}
use tboost_stm.Transaction.Entries.{has_copy, shared, publish-other}
use tboost_stm.Transaction.Publication.{write_back-heap, write_back-written}
use tboost_stm.Transaction.Atomic.Clients.{IsView, Holds, value_at, value_of, place_of}

-- A value comes from an object.
pub object_with :
    {V : Type 0} (o : Option (Object V)) (v : V)
    → value_of o ≡ some v
    → (x : Object V) × (o ≡ some x) × (x.value ≡ v)
object_with none v e = cc
object_with (some x) v e = (x, refl, some_cancel x.value v e)

module _ {V : Type 0} where
  share_all-other :
      (n c : ℕ) (m : List ℕ) (h : Heap V)
      → All (λ a. n ≤ a) m
      → c < n
      → (share_all m h).cell c ≡ h.cell c
  unfolding share_all set_transaction_thread set_new_memory
  share_all-other n c [] h k l = refl
  share_all-other n c (a ∷ m) h k l = share_all-other n c m _ k.1 l ∙ (let le = k.0 in ground arith)

  share_all-next : (m : List ℕ) (h : Heap V) → (share_all m h).next ≡ h.next
  unfolding share_all set_transaction_thread set_new_memory
  share_all-next [] h = refl
  share_all-next (a ∷ m) h = share_all-next m _

  copy_state-next : (a b : ℕ) (h : Heap V) → (copy_state a b h).next ≡ h.next
  unfolding copy_state
  copy_state-next a b h = elim (Option-cases (h.cell b)) [
    | inl empty ↦ rw (copy_state, empty) refl
    | inr (o, live) ↦ rw (copy_state, live) refl
  ]

  pub delete-next : (b : ℕ) (h : Heap V) → (delete b h).next ≡ h.next
  unfolding delete
  delete-next b h = if_both {A = Heap V} (λ k. k.next ≡ h.next) (b == 0) _ _ refl refl

  publish_entry-next : (a b : ℕ) (h : Heap V) → (publish_entry a b h).next ≡ h.next
  unfolding publish_entry set_transaction_thread set_new_memory
  publish_entry-next a b h =
      if_both {A = Heap V} (λ k. k.next ≡ h.next) (b == 0) _ _ refl
        (delete-next b _ ∙ copy_state-next a b h)

  publish-next : (m : List (ℕ × ℕ)) (h : Heap V) → (publish m h).next ≡ h.next
  unfolding publish
  publish-next [] h = refl
  publish-next ((a, b) ∷ m) h = publish-next m (publish_entry a b h) ∙ publish_entry-next a b h

  write_back-next : (now t : ℕ) (s : System V) → (write_back now t s).heap.next ≡ s.heap.next
  write_back-next now t s =
      ap (λ h. h.next) (write_back-heap now t s)
      ∙ share_all-next (context_of s t).new_mem _
      ∙ publish-next (context_of s t).write_mem s.heap

-- An address below a bound is not a copy, if no copy is.
has_copy_below : (n c : ℕ) (m : List (ℕ × ℕ)) → All (λ e. n ≤ e.1) m → c < n → has_copy c m ≡ false
unfolding has_copy
has_copy_below n c [] k l = refl
has_copy_below n c ((a, b) ∷ m) k l =
    let le = k.0 in let rest = has_copy_below n c m k.1 l in ground arith

module _ {V : Type 0} (hash : ℕ → ℕ × ℕ) (D : ℕ → Type 0) (fl : List ℕ) (h : Heap V) (μ : ℕ → V)
    (t : ℕ) where
  -- After the commit every object has the value that the transaction saw.
  pub write_back-Holds :
      (now a : ℕ) {v : V} (s : System V)
      → IsView hash D fl h μ t s
      → D a
      → Holds h v a
      → Holds (write_back now t s).heap (μ a) a
  write_back-Holds now a s w d x =
      let m = (context_of s t).write_mem in
      let live = w.untouched.same a x.below ∙ x.live in
      let below : a < (write_back now t s).heap.next =
        rw (write_back-next now t s) (omega (arith, x.below, w.untouched.grown)) in
      elim (Option-cases (StdMap.lookup a m)) [
        | inl absent ↦
            let seen : value_at s.heap a ≡ some (μ a) =
              ap (λ o. value_at s.heap (place_of a o)) (sym absent) ∙ w.sees a d in
            record {
              object = x.object;
              live =
                  ap (λ h. h.cell a) (write_back-heap now t s)
                  ∙ share_all-other h.next a (context_of s t).new_mem _ w.untouched.created x.below
                  ∙ publish-other m a s.heap (lookup-none-has_key a m absent)
                      (has_copy_below h.next a m w.untouched.copies x.below)
                  ∙ live;
              value_eq = some_cancel x.object.value (μ a) (sym (ap value_of live) ∙ seen);
              common = x.common;
              positive = x.positive;
              below = below;
            }
        | inr (b, found) ↦
            let le = (All-lookup (λ e. h.next ≤ e.1) a b m w.untouched.copies found).1 in
            let (o, copy, eq) =
              object_with (s.heap.cell b) (μ a)
                (ap (λ o. value_at s.heap (place_of a o)) (sym found) ∙ w.sees a d) in
            record {
              object = shared o;
              live =
                  write_back-written now t a b s {o = o} {x = x.object} w.private.separate found
                    (omega (arith, x.below)) copy live;
              value_eq = eq;
              common = refl;
              positive = x.positive;
              below = below;
            }
      ]
