-- ===== src/Transaction/WriteList.antt =====
-- The write list as an operation keeps it: its entries do not overlap, they are allocated, and every
-- copy carries the number of the list's thread.
use tboost_stm.Prelude.{
  ℕ, ◌<◌, ◌≡◌, refl, sym, ◌∙◌, ◌≢◌, false, ◌==◌, ◌||◌, ◌⊎◌, inl, inr, List, [], ◌∷◌, arith,
  ℕ_discrete, ltb, Bool-cases,
}
use tboost_stm.StdMap
use tboost_stm.Objects.{Heap, invalid_thread, transaction_thread_at}
use tboost_stm.Transaction.Entries.{has_copy, Separate}

has_key-place :
    (a b c : ℕ) (m : List (ℕ × ℕ))
    → StdMap.has_key c (StdMap.place a b m) ≡ (a == c || StdMap.has_key c m)
unfolding StdMap.place StdMap.has_key
has_key-place a b c [] = ground arith
has_key-place a b c ((k, d) ∷ m) = ground (arith, has_key-place a b c m)

has_copy-place :
    (a b c : ℕ) (m : List (ℕ × ℕ)) → has_copy c (StdMap.place a b m) ≡ (b == c || has_copy c m)
unfolding StdMap.place has_copy
has_copy-place a b c [] = ground arith
has_copy-place a b c ((k, d) ∷ m) = ground (arith, has_copy-place a b c m)

-- A new entry for a shared object and a fresh copy.
pub Separate-place :
    (a b : ℕ) (m : List (ℕ × ℕ))
    → Separate m
    → a ≢ 0
    → a ≢ b
    → b ≢ 0
    → (StdMap.has_key a m ≡ false) × (has_copy a m ≡ false)
    → (StdMap.has_key b m ≡ false) × (has_copy b m ≡ false)
    → Separate (StdMap.place a b m)
unfolding StdMap.place StdMap.has_key has_copy
Separate-place a b [] sep az ab bz fa fb = ground arith
Separate-place a b ((k, c) ∷ m) sep az ab bz fa fb = elim (Bool-cases (ltb a k)) [
  | inl first ↦ rw first (ground arith)
  | inr later ↦ rw later (
    sep.0,
    sep.1,
    ground (arith, has_key-place a b k m),
    ground (arith, has_copy-place a b k m),
    ground (arith, has_key-place a b c m),
    elim sep.5 [ inl z ↦ inl z | inr u ↦ inr (ground (arith, has_copy-place a b c m)) ],
    Separate-place a b m sep.6 az ab bz (ground arith, ground arith) (ground arith, ground arith),
  )
]

module _ {V : Type 0} where
  -- The entries are allocated, and the copies are tagged by the thread.
  abbrev pub Backed : Heap V → ℕ → List (ℕ × ℕ) → Type 0
  Backed h th [] = Unit {0}
  Backed h th ((a, b) ∷ m) =
      (a < h.next) × (b < h.next) × ((b ≡ 0) ⊎ (transaction_thread_at h b ≡ th)) × Backed h th m

  pub Backed-fresh :
      (h : Heap V) (th : ℕ) (m : List (ℕ × ℕ))
      → Backed h th m
      → (StdMap.has_key h.next m ≡ false) × (has_copy h.next m ≡ false)
  unfolding StdMap.has_key has_copy
  Backed-fresh h th [] k = (refl, refl)
  Backed-fresh h th ((a, b) ∷ m) k =
      let rest = Backed-fresh h th m k.3 in let la = k.0 in let lb = k.1 in ground arith

  -- An object without a thread's number is no copy.
  pub Backed-shared :
      (h : Heap V) (th : ℕ) (m : List (ℕ × ℕ)) (a : ℕ)
      → Backed h th m
      → th ≢ invalid_thread
      → a ≢ 0
      → transaction_thread_at h a ≡ invalid_thread
      → has_copy a m ≡ false
  unfolding has_copy
  Backed-shared h th [] a k real nz e = refl
  Backed-shared h th ((c, b) ∷ m) a k real nz e = elim (ℕ_discrete b a) [
    | yes same ↦ elim k.2 [
      | inl z ↦ absurd (nz (sym same ∙ z))
      | inr tagged ↦ absurd (real (sym tagged ∙ rw same e))
    ]
    | no other ↦ ground (arith, Backed-shared h th m a k.3 real nz e)
  ]

  pub Backed-place :
      (a b : ℕ) (h : Heap V) (th : ℕ) (m : List (ℕ × ℕ))
      → Backed h th m
      → a < h.next
      → b < h.next
      → transaction_thread_at h b ≡ th
      → Backed h th (StdMap.place a b m)
  unfolding StdMap.place
  Backed-place a b h th [] k p q r = (p, q, inr r, tt)
  Backed-place a b h th ((c, d) ∷ m) k p q r = elim (Bool-cases (ltb a c)) [
    | inl first ↦ rw first (p, q, inr r, k)
    | inr later ↦ rw later (k.0, k.1, k.2, Backed-place a b h th m k.3 p q r)
  ]
