-- ===== src/StdMap/Entries.antt =====
-- What holds of every entry of a map.
use tboost_stm.Prelude.{ℕ, ◌≡◌, ltb, if_both, subst, ℕ_discrete, List, [], ◌∷◌, some, All, arith}
use tboost_stm.StdMap

pub All-place :
    (P : ℕ × ℕ → Type 0) (a b : ℕ) (m : List (ℕ × ℕ))
    → All P m
    → P (a, b)
    → All P (StdMap.place a b m)
unfolding StdMap.place
All-place P a b [] k p = (p, tt)
All-place P a b ((c, d) ∷ m) k p =
    if_both (All P) (ltb a c) _ _ (p, k) (k.0, All-place P a b m k.1 p)

pub All-insert :
    (P : ℕ × ℕ → Type 0) (a b : ℕ) (m : List (ℕ × ℕ))
    → All P m
    → P (a, b)
    → All P (StdMap.insert a b m)
unfolding StdMap.insert
All-insert P a b m k p = if_both (All P) (StdMap.has_key a m) _ _ k (All-place P a b m k p)

pub All-lookup :
    (P : ℕ × ℕ → Type 0) (a b : ℕ) (m : List (ℕ × ℕ))
    → All P m
    → StdMap.lookup a m ≡ some b
    → (k : ℕ) × P (k, b)
unfolding StdMap.lookup
All-lookup P a b [] k e = cc
All-lookup P a b ((c, d) ∷ m) k e = elim (ℕ_discrete c a) [
  | yes hit ↦ let same : d ≡ b = ground arith in (c, subst (λ z. P (c, z)) same k.0)
  | no miss ↦ All-lookup P a b m k.1 (ground arith)
]
