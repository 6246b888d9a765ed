-- ===== src/StdSet.antt =====
-- `std::set` of numbers, as the source uses it: a list in the order of iteration.
use tboost_stm.Prelude.{
  All, sym, subst, inl, inr, Bool-cases, ==_iff, if_both, ltb→lt, ◌<◌, ℕ, ◌≡◌, refl, ◌≢◌, false,
  ltb, ◌==◌, if◌then◌else◌, ◌||◌, List, [], ◌∷◌, has, arith,
}

unfoldable pub insert : ℕ → List ℕ → List ℕ
insert a [] = a ∷ []
insert a (x ∷ xs) = if a == x then x ∷ xs else if ltb a x then a ∷ x ∷ xs else x ∷ insert a xs

unfoldable pub erase : ℕ → List ℕ → List ℕ
erase a [] = []
erase a (x ∷ xs) = if a == x then xs else x ∷ erase a xs

pub has-insert : (a b : ℕ) (xs : List ℕ) → has b (insert a xs) ≡ (b == a || has b xs)
unfolding insert
has-insert a b [] = ground arith
has-insert a b (x ∷ xs) = ground (arith, has-insert a b xs)

pub has-erase_ne : (a b : ℕ) (xs : List ℕ) → b ≢ a → has b (erase a xs) ≡ has b xs
unfolding erase
has-erase_ne a b [] ne = refl
has-erase_ne a b (x ∷ xs) ne = ground (arith, has-erase_ne a b xs ne)

pub erase-insert : (a : ℕ) (xs : List ℕ) → has a xs ≡ false → erase a (insert a xs) ≡ xs
unfolding insert erase
erase-insert a [] h = ground arith
erase-insert a (x ∷ xs) h = ground (arith, erase-insert a xs)

-- The order in which a set is iterated.
abbrev pub IsSorted : List ℕ → Type 0
IsSorted [] = Unit
IsSorted (x ∷ xs) = All (λ y. x < y) xs × IsSorted xs

All-insert : (P : ℕ → Type 0) (a : ℕ) (xs : List ℕ) → P a → All P xs → All P (insert a xs)
unfolding insert
All-insert P a [] p h = (p, tt)
All-insert P a (x ∷ xs) p (q, h) =
    if_both (All P) (a == x) _ _ (q, h)
      (if_both (All P) (ltb a x) _ _ (p, (q, h)) (q, All-insert P a xs p h))

All-erase : (P : ℕ → Type 0) (a : ℕ) (xs : List ℕ) → All P xs → All P (erase a xs)
unfolding erase
All-erase P a [] h = h
All-erase P a (x ∷ xs) (q, h) = if_both (All P) (a == x) _ _ h (q, All-erase P a xs h)

above : (a x : ℕ) (xs : List ℕ) → a < x → All (λ y. x < y) xs → All (λ y. a < y) xs
above a x [] lt h = tt
above a x (y ∷ xs) lt (q, h) = (omega (arith, lt, q), above a x xs lt h)

insert-IsSorted_step :
    (a x : ℕ) (xs : List ℕ)
    → IsSorted (x ∷ xs)
    → IsSorted (insert a xs)
    → IsSorted (insert a (x ∷ xs))
unfolding insert
insert-IsSorted_step a x xs s r = elim (Bool-cases (a == x)) [
  | inl hit ↦ rw (insert, hit) s
  | inr miss ↦ elim (Bool-cases (ltb a x)) [
    | inl lt ↦ rw (insert, miss, lt) ((ltb→lt a x lt, above a x xs (ltb→lt a x lt) s.0), s)
    | inr ge ↦
        let gt : x < a = ground arith in
        rw (insert, miss, ge) (All-insert (λ y. x < y) a xs gt s.0, r)
  ]
]

pub insert-IsSorted : (a : ℕ) (xs : List ℕ) → IsSorted xs → IsSorted (insert a xs)
unfolding insert
insert-IsSorted a [] s = (tt, tt)
insert-IsSorted a (x ∷ xs) s = insert-IsSorted_step a x xs s (insert-IsSorted a xs s.1)

pub erase-IsSorted : (a : ℕ) (xs : List ℕ) → IsSorted xs → IsSorted (erase a xs)
unfolding erase
erase-IsSorted a [] s = s
erase-IsSorted a (x ∷ xs) s =
    if_both IsSorted (a == x) _ _ s.1 (All-erase (λ y. x < y) a xs s.0, erase-IsSorted a xs s.1)

has-above : (a : ℕ) (xs : List ℕ) → All (λ y. a < y) xs → has a xs ≡ false
has-above a [] h = refl
has-above a (x ∷ xs) (q, h) = ground (arith, has-above a xs)

pub has-erase_self : (a : ℕ) (xs : List ℕ) → IsSorted xs → has a (erase a xs) ≡ false
unfolding erase
has-erase_self a [] s = refl
has-erase_self a (x ∷ xs) s = elim (Bool-cases (a == x)) [
  | inl hit ↦
      let same : a ≡ x = (==_iff a x).0 hit in
      rw (erase, hit) (subst (λ z. has z xs ≡ false) (sym same) (has-above x xs s.0))
  | inr miss ↦ rw (erase, miss) (let r = has-erase_self a xs s.1 in ground arith)
]
