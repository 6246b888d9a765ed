-- ===== src/VectorMap/Laws.antt =====
-- What `insert`, `find` and `erase` of `vector_map` promise one another.
use tboost_stm.Prelude.{
  ℕ, suc, ◌≡◌, refl, subst, ◌≢◌, ◌==◌, if◌then◌else◌, List, [], ◌∷◌, ◌++◌, Option, none, some,
  length, arith, ℕ_discrete, ==-eq_true, ==-eq_false,
}
use tboost_stm.VectorMap.{second, find, later, overwrite, insert_calls, insert}

module _ {U : Type 0} where
  -- `m.find(k)->second`, with `none` at `end()`.
  pub get : ℕ → List (ℕ × U) → Option U
  get k m = second m (find k m)

  -- What a write of `v` at the key `f` does to a map, by the iterator that it returns.
  pub record Writes (f : ℕ) (v : U) (m : List (ℕ × U)) (i : ℕ) (m' : List (ℕ × U)) : Type 0 where
    pub found : find f m' ≡ i
    pub written : second m' i ≡ some v
    pub kept : (k : ℕ) → k ≢ f → get k m' ≡ get k m

  -- `find` returns `end()`.
  pub Missing : ℕ → List (ℕ × U) → Type 0
  Missing f m = find f m ≡ length m

  get_step :
      (k j : ℕ) (u : U) (m : List (ℕ × U))
      → get k ((j, u) ∷ m) ≡ (if k == j then some u else get k m)
  unfolding get find second
  get_step k j u m = ground arith

  Writes-head : (f : ℕ) (v u : U) (m : List (ℕ × U)) → Writes f v ((f, u) ∷ m) 0 ((f, v) ∷ m)
  unfolding find second
  Writes-head f v u m = record {
    found = ground arith;
    written = refl;
    kept = λ k h. ground (arith, get_step k f v m, get_step k f u m);
  }

  Writes-tail :
      (f : ℕ) (v : U) (k : ℕ) (u : U) (m : List (ℕ × U)) (i : ℕ) (m' : List (ℕ × U))
      → f ≢ k
      → Writes f v m i m'
      → Writes f v ((k, u) ∷ m) (suc i) ((k, u) ∷ m')
  unfolding find second
  Writes-tail f v k u m i m' ne w = record {
    found = ground arith;
    written = w.written;
    kept = λ j h. ground (arith, get_step j k u m, get_step j k u m', w.kept j h);
  }

  -- The loop's result: it misses the key, or it has written.
  Overwritten : ℕ → U → List (ℕ × U) → Option (ℕ × List (ℕ × U)) → Type 0
  Overwritten f v m none = Missing f m
  Overwritten f v m (some (i, m')) = Writes f v m i m' × (length m' ≡ length m)

  later-Overwritten :
      (f : ℕ) (v : U) (k : ℕ) (u : U) (m : List (ℕ × U)) (o : Option (ℕ × List (ℕ × U)))
      → f ≢ k
      → Overwritten f v m o
      → Overwritten f v ((k, u) ∷ m) (later (k, u) o)
  unfolding Overwritten Missing later find
  later-Overwritten f v k u m none ne miss = ground arith
  later-Overwritten f v k u m (some (i, m')) ne (w, len) =
      (Writes-tail f v k u m i m' ne w, omega arith)

  overwrite-Overwritten :
      (f : ℕ) (v : U) (m : List (ℕ × U)) → Overwritten f v m (overwrite (f, v) m)
  unfolding overwrite Overwritten Missing find
  overwrite-Overwritten f v [] = refl
  overwrite-Overwritten f v ((k, u) ∷ m) = elim (ℕ_discrete f k) [
    | yes p ↦
        rw (==-eq_true f k p)
          (subst (λ j. Writes f v ((j, u) ∷ m) 0 ((j, v) ∷ m)) p (Writes-head f v u m), refl)
    | no p ↦ rw (==-eq_false f k p) (later-Overwritten f v k u m _ p (overwrite-Overwritten f v m))
  ]

  Missing-Writes :
      (f : ℕ) (v : U) (m : List (ℕ × U)) → Missing f m → Writes f v m (length m) (m ++ (f, v) ∷ [])
  unfolding Missing find second get
  Missing-Writes f v [] miss = record {
    found = ground arith;
    written = refl;
    kept = λ k h. ground arith;
  }
  Missing-Writes f v ((k, u) ∷ m) miss =
      Writes-tail f v k u m _ _ (ground arith) (Missing-Writes f v m (ground arith))

  overwrite_append :
      (f : ℕ) (v : U) (m : List (ℕ × U))
      → Missing f m
      → overwrite (f, v) (m ++ (f, v) ∷ []) ≡ some (length m, m ++ (f, v) ∷ [])
  unfolding Missing find overwrite later
  overwrite_append f v [] miss = ground arith
  overwrite_append f v ((k, u) ∷ m) miss = ground (arith, overwrite_append f v m)

  inserted :
      (f : ℕ) (v : U) (m : List (ℕ × U)) (o : Option (ℕ × List (ℕ × U)))
      → overwrite (f, v) m ≡ o
      → Overwritten f v m o
      → (i : ℕ) × (m' : List (ℕ × U)) × (insert (f, v) m ≡ some (i, m')) × Writes f v m i m'
  unfolding Overwritten insert Missing
  inserted f v m none e miss = (
    length m,
    m ++ (f, v) ∷ [],
    rw (e, insert_calls, overwrite_append f v m miss, insert_calls) refl,
    Missing-Writes f v m miss,
  )
  inserted f v m (some (i, m')) e w = (i, m', rw (e, insert_calls), w.0)

  -- `insert` returns for every pair and map, within two calls: the iterator is where `find` finds the
  -- key, the value is written there, and every other key keeps its value.
  pub insert-Writes :
      (f : ℕ) (v : U) (m : List (ℕ × U))
      → (i : ℕ) × (m' : List (ℕ × U)) × (insert (f, v) m ≡ some (i, m')) × Writes f v m i m'
  insert-Writes f v m = inserted f v m _ refl (overwrite-Overwritten f v m)
