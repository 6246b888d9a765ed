-- ===== src/Transaction/Invalidation/Writers.antt =====
-- boost/stm/detail/transaction_impl.hpp: the search for another transaction that writes an object.
use tboost_stm.Prelude.{
  ℕ, ◌==◌, ◌≡◌, ◌↔◌, refl, ==_iff, subst, Bool, true, false, not, ◌&&◌, ◌||◌, List, [], ◌∷◌, has,
  arith, Bool-cases, inl, inr,
}
use tboost_stm.StdMap
use tboost_stm.System.{System, context_of}
use tboost_stm.Transaction.Status.{forced_to_abort, is_empty, is_writing, same_thread}

is_empty-keyed : (a : ℕ) (l : List (ℕ × ℕ)) → StdMap.has_key a l ≡ true → is_empty l ≡ false
unfolding StdMap.has_key
is_empty-keyed a [] e = cc
is_empty-keyed a (x ∷ l) e = refl

module _ {V : Type 0} where
  -- The tests on one transaction in flight.
  unfoldable pub writes_this : System V → ℕ → ℕ → ℕ → Bool
  unfolding is_writing
  writes_this s t a i =
      not (same_thread s i t)
      && is_writing s i
      && not (forced_to_abort s i)
      && StdMap.has_key a (context_of s i).write_mem

  -- The loop, from the head of a list on.
  unfoldable pub any_writes_this : System V → ℕ → ℕ → List ℕ → Bool
  any_writes_this s t a [] = false
  any_writes_this s t a (i ∷ is) = writes_this s t a i || any_writes_this s t a is

  unfoldable pub other_in_flight_transactions_writing_this_memory : System V → ℕ → ℕ → Bool
  unfolding any_writes_this
  other_in_flight_transactions_writing_this_memory s t a = any_writes_this s t a s.in_flight

  -- A transaction of another thread that writes the object and is not being aborted.
  pub record IsWriter (s : System V) (t a i : ℕ) : Type 0 where
    other : same_thread s i t ≡ false
    going : forced_to_abort s i ≡ false
    holds : StdMap.has_key a (context_of s i).write_mem ≡ true

  IsWriter-writes : (s : System V) (t a i : ℕ) → IsWriter s t a i → writes_this s t a i ≡ true
  unfolding writes_this is_writing
  IsWriter-writes s t a i w =
      let o = w.other in
      let g = w.going in
      let h = w.holds in let k = is_empty-keyed a (context_of s i).write_mem h in ground arith

  writes-IsWriter : (s : System V) (t a i : ℕ) → writes_this s t a i ≡ true → IsWriter s t a i
  unfolding writes_this
  writes-IsWriter s t a i e = record {
    other = ground arith;
    going = ground arith;
    holds = ground arith;
  }

  any-found :
      (s : System V) (t a i : ℕ) (is : List ℕ)
      → has i is ≡ true
      → writes_this s t a i ≡ true
      → any_writes_this s t a is ≡ true
  unfolding any_writes_this
  any-found s t a i [] h w = cc
  any-found s t a i (j ∷ is) h w = elim (Bool-cases (i == j)) [
    | inl hit ↦
        let now = subst (λ z. writes_this s t a z ≡ true) ((==_iff i j).0 hit) w in ground arith
    | inr miss ↦ let later = any-found s t a i is (ground arith) w in ground arith
  ]

  any-writer :
      (s : System V) (t a : ℕ) (is : List ℕ)
      → any_writes_this s t a is ≡ true
      → (i : ℕ) × (has i is ≡ true) × (writes_this s t a i ≡ true)
  unfolding any_writes_this
  any-writer s t a [] e = cc
  any-writer s t a (j ∷ is) e = elim (Bool-cases (writes_this s t a j)) [
    | inl hit ↦ (j, ground arith, hit)
    | inr miss ↦ let (i, h, w) = any-writer s t a is (ground arith) in (i, ground arith, w)
  ]

  -- The search finds a writer exactly if some transaction in flight of another thread holds the object
  -- in its write list and is not being aborted.
  pub other_in_flight_transactions_writing_this_memory-IsWriter :
      (s : System V) (t a : ℕ)
      → (other_in_flight_transactions_writing_this_memory s t a ≡ true)
        ↔ ((i : ℕ) × (has i s.in_flight ≡ true) × IsWriter s t a i)
  unfolding other_in_flight_transactions_writing_this_memory
  other_in_flight_transactions_writing_this_memory-IsWriter s t a = (found, back)
    where
      found :
          any_writes_this s t a s.in_flight ≡ true
          → (i : ℕ) × (has i s.in_flight ≡ true) × IsWriter s t a i
      found e = let (i, h, w) = any-writer s t a s.in_flight e in (i, h, writes-IsWriter s t a i w)

      back :
          ((i : ℕ) × (has i s.in_flight ≡ true) × IsWriter s t a i)
          → any_writes_this s t a s.in_flight ≡ true
      back (i, h, w) = any-found s t a i s.in_flight h (IsWriter-writes s t a i w)
