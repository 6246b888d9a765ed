-- ===== src/VectorSet/Laws.antt =====
-- `vector_set`: what an insertion and its iterator stand for.
use tboost_stm.Prelude.{
  ℕ, suc, ◌+◌, ◌≡◌, refl, sym, ap, subst, ◌==◌, inl, inr, List, [], ◌∷◌, ◌++◌, some, length,
  get_elem?, arith, Bool-cases, ==_iff, some_cancel, Option-cases,
}
use tboost_stm.VectorSet.{index_from, insert}

-- The iterator that the loop of an insertion stops at stands at the element.
index_from-get_elem? :
    (i j rhs : ℕ) (xs : List ℕ)
    → index_from i rhs xs ≡ some j
    → (k : ℕ) × (j ≡ i + k) × (get_elem? xs k ≡ some rhs)
unfolding index_from
index_from-get_elem? i j rhs [] e = cc
index_from-get_elem? i j rhs (x ∷ xs) e = elim (Bool-cases (rhs == x)) [
  | inl hit ↦
      let same : rhs ≡ x = (==_iff rhs x).0 hit in
      let here : some i ≡ some j = rw (index_from, hit) at e in
      let first : i ≡ j = some_cancel i j here in
      (0, omega (arith, first), ap (λ z. some z) (sym same))
  | inr miss ↦
      let r = index_from-get_elem? (suc i) j rhs xs (rw (index_from, miss) at e) in
      let at : j ≡ suc i + r.0 = r.1 in (suc r.0, omega (arith, at), r.2)
]

append-get_elem? : (a : ℕ) (xs : List ℕ) → get_elem? (xs ++ a ∷ []) (length xs) ≡ some a
append-get_elem? a [] = refl
append-get_elem? a (x ∷ xs) = append-get_elem? a xs

-- The iterator that an insertion returns stands at the element.
pub insert-get_elem? :
    (rhs : ℕ) (xs : List ℕ) → get_elem? (insert rhs xs).1 (insert rhs xs).0 ≡ some rhs
unfolding insert
insert-get_elem? rhs xs = elim (Option-cases (index_from 0 rhs xs)) [
  | inl new ↦ rw (insert, new) (append-get_elem? rhs xs)
  | inr (j, old) ↦
      let r = index_from-get_elem? 0 j rhs xs old in
      let at : r.0 ≡ j = omega (arith, r.1) in
      rw (insert, old) (subst (λ k. get_elem? xs k ≡ some rhs) at r.2)
]
