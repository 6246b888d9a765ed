-- ===== src/Transaction/Pointers/Following.antt =====
-- A `read_ptr` follows its object to the copy, whoever in the transaction writes it.
use tboost_stm.Prelude.{
  ℕ, ◌<◌, ◌≡◌, ◌≢◌, refl, sym, ap, subst, ◌∙◌, true, false, ◌==◌, Bool-cases, inl, inr, none, some,
  arith, if_not_so, if_both, if_so, ==-eq_false,
}
use tboost_stm.StdMap
use tboost_stm.StdMap.{lookup-none-has_key, lookup-place_self}
use tboost_stm.Contention.{ContentionManager}
use tboost_stm.Objects.{invalid_thread, transaction_thread_at}
use tboost_stm.System.{System, Outcome, returns, throws, final, context_of}
use tboost_stm.Transaction.Status.{forced_to_abort}
use tboost_stm.Transaction.Access.{get_written, write}
use tboost_stm.Transaction.Deferred.{deferred_write, open_for_write}
use tboost_stm.Transaction.Isolation.{
  opened, opened-write_mem, opened-forced, opened-result, write_opens,
}
use tboost_stm.Transaction.Pointers.{ReadPtr, get, write_through, holding, held, throw_if_forced}

module _ {V : Type 0} where
  -- What a member that returns leaves behind.
  abbrev Holds : ReadPtr → Outcome V (ℕ × ReadPtr) → Type 0
  Holds r (returns p s) =
      (p.1.written ≡ true) × (p.1.tx_ptr ≡ p.0) × (p.1.transaction ≡ r.transaction)
  Holds r (throws s) = Unit

  throw-Holds :
      (r : ReadPtr) (t : ℕ) (o : Outcome V (ℕ × ReadPtr)) (s : System V)
      → Holds r o
      → Holds r (throw_if_forced t o s)
  unfolding throw_if_forced
  throw-Holds r t o s k = if_both (Holds r) (forced_to_abort s t) _ _ tt k

  get-written :
      (r : ReadPtr) (s : System V)
      → forced_to_abort s r.transaction ≡ false
      → r.written ≡ true
      → get r s ≡ returns (r.tx_ptr, r) s
  unfolding get throw_if_forced
  get-written r s free w = if_not_so _ _ _ free ∙ rw w refl

  found_by :
      (r : ReadPtr) (b : ℕ) (s : System V)
      → forced_to_abort s r.transaction ≡ false
      → r.written ≡ false
      → get_written r.transaction r.tx_ptr s ≡ b
      → b ≢ 0
      → get r s ≡ holding r b s
  unfolding get throw_if_forced
  found_by r b s free w found nz =
      if_not_so _ _ _ free ∙ if_not_so _ _ _ w ∙ rw found (if_not_so _ _ _ (==-eq_false b 0 nz))

  get_written-listed :
      (t a b : ℕ) (s : System V)
      → s.direct_updating ≡ false
      → StdMap.lookup a (context_of s t).write_mem ≡ some b
      → get_written t a s ≡ b
  unfolding get_written
  get_written-listed t a b s deferred found = if_not_so _ _ _ deferred ∙ rw found refl

module _ {V : Type 0} (hash : ℕ → ℕ × ℕ) (cm : ContentionManager) where
  held-Holds : (r : ReadPtr) (o : Outcome V ℕ) → Holds r (held hash cm r o)
  held-Holds r (returns b s) = (refl, refl, refl)
  held-Holds r (throws s) = tt

  write_through-Holds : (r : ReadPtr) (s : System V) → Holds r (write_through hash cm r s)
  unfolding write_through
  write_through-Holds r s = throw-Holds r r.transaction _ s (elim (Bool-cases r.written) [
    | inl w ↦ subst (Holds r) (sym (if_so _ _ _ w)) (w, refl, refl)
    | inr w ↦ subst (Holds r) (sym (if_not_so _ _ _ w)) (
        if_both (Holds r) (get_written r.transaction r.tx_ptr s == 0) _ _
          (held-Holds r (write hash cm r.transaction r.tx_ptr s)) (refl, refl, refl))
  ])

  -- A pointer that has been written through stays with the written object: `get` returns the address
  -- that `write_ptr` returned, and changes nothing, unless the transaction is forced to abort since.
  pub get-write_through :
      (r r' : ReadPtr) (b : ℕ) (s s' : System V)
      → write_through hash cm r s ≡ returns (b, r') s'
      → forced_to_abort s' r'.transaction ≡ false
      → get r' s' ≡ returns (b, r') s'
  get-write_through r r' b s s' e free =
      let k = subst (Holds r) e (write_through-Holds r s) in
      get-written r' s' free k.0 ∙ ap (λ z. returns (z, r') s') k.1

module _ {V : Type 0} (hash : ℕ → ℕ × ℕ) where
  opened-deferred :
      (t a : ℕ) (s : System V) → (opened hash t a s).direct_updating ≡ s.direct_updating
  unfolding open_for_write
  opened-deferred t a s = refl

  -- With deferred updating a pointer to an object that the transaction had not written finds the
  -- copy once the transaction writes the object: `get` returns the copy that the write returned, and
  -- the pointer holds it from then on. The transaction is not forced to abort, the object is shared,
  -- and the allocator has given out an address.
  pub get-deferred_write :
      (r : ReadPtr) (b : ℕ) (s s' : System V)
      → s.direct_updating ≡ false
      → forced_to_abort s r.transaction ≡ false
      → r.written ≡ false
      → StdMap.lookup r.tx_ptr (context_of s r.transaction).write_mem ≡ none
      → transaction_thread_at s.heap r.tx_ptr ≡ invalid_thread
      → 0 < s.heap.next
      → deferred_write hash r.transaction r.tx_ptr s ≡ returns b s'
      → get r s' ≡ returns (b, record r { tx_ptr = b; written = true }) s'
  get-deferred_write r b s s' deferred free fresh absent shared pos e =
      let t = r.transaction in
      let a = r.tx_ptr in
      let e' : open_for_write hash t a s ≡ returns b s' =
        sym (write_opens hash t a s free absent shared) ∙ e in
      let z : s.heap.next ≡ b = opened-result hash t a s e' in
      let listed : StdMap.lookup a (context_of (opened hash t a s) t).write_mem ≡ some b =
        rw (opened-write_mem hash t a s absent, ← z)
          (lookup-place_self a s.heap.next _ (lookup-none-has_key a _ absent)) in
      subst (λ q. get r q ≡ holding r b q) (ap final e')
        (found_by r b (opened hash t a s) (opened-forced hash t a s ∙ free) fresh
          (get_written-listed t a b (opened hash t a s) (opened-deferred t a s ∙ deferred) listed)
          (omega arith))
