-- ===== src/Locks/Mutexes/Holding.antt =====
-- Who holds the threads' mutexes while a thread holds all but its own.
use tboost_stm.Prelude.{
  ℕ, ◌≡◌, refl, sym, ◌∙◌, Bool, true, false, not, ◌==◌, ◌&&◌, ◌||◌, if◌then◌else◌, List, [], ◌∷◌,
  Option, none, some, Bool-cases, inl, inr, if_so, if_not_so,
}
use tboost_stm.Locks.{MutexLibrary}
use tboost_stm.Locks.Mutexes.{lock_all_mutexes_but_this, unlock_all_mutexes_but_this}

-- What the mutexes are relied on for: each has one owner or none, and a call changes that of its own
-- mutex only.
pub record Ownership {M : Type 0} (lib : MutexLibrary M) : Type 0 where
  pub owner : M → ℕ → Option ℕ
  pub owner-lock :
      (th m j : ℕ) (mx : M) → owner (lib.lock th m mx) j ≡ (if m == j then some th else owner mx j)
  pub owner-unlock :
      (th m j : ℕ) (mx : M) → owner (lib.unlock th m mx) j ≡ (if m == j then none else owner mx j)

-- Whether the mutex is that of a thread in the list, other than the one given.
abbrev pub of_another : ℕ → ℕ → List (ℕ × ℕ) → Bool
of_another this j [] = false
of_another this j ((i, m) ∷ ms) = (not (i == this) && m == j) || of_another this j ms

merged :
    {A : Type 0} (a b : Bool) (x y : A)
    → (if a then x else (if b then x else y)) ≡ (if b || a then x else y)
merged true true x y = refl
merged true false x y = refl
merged false true x y = refl
merged false false x y = refl

module _ {M : Type 0} (lib : MutexLibrary M) (own : Ownership lib) (th this j : ℕ) where
  open own use {owner, owner-lock, owner-unlock}

  -- While a thread holds the mutexes of the other threads, it is the owner of each of these, and
  -- whoever owns another mutex still does.
  pub owner-lock_all :
      (ms : List (ℕ × ℕ)) (mx : M)
      → owner (lock_all_mutexes_but_this lib th this ms mx) j
        ≡ (if of_another this j ms then some th else owner mx j)
  unfolding lock_all_mutexes_but_this
  owner-lock_all [] mx = refl
  owner-lock_all ((i, m) ∷ ms) mx =
      owner-lock_all ms (if i == this then mx else lib.lock th m mx)
      ∙ elim (Bool-cases (i == this)) [
        | inl same ↦ rw same refl
        | inr other ↦
            rw (other, owner-lock th m j mx)
              (merged (of_another this j ms) (m == j) (some th) (owner mx j))
      ]

  owner-unlock_all :
      (ms : List (ℕ × ℕ)) (mx : M)
      → owner (unlock_all_mutexes_but_this lib th this ms mx) j
        ≡ (if of_another this j ms then none else owner mx j)
  unfolding unlock_all_mutexes_but_this
  owner-unlock_all [] mx = refl
  owner-unlock_all ((i, m) ∷ ms) mx =
      owner-unlock_all ms (if i == this then mx else lib.unlock th m mx)
      ∙ elim (Bool-cases (i == this)) [
        | inl same ↦ rw same refl
        | inr other ↦
            rw (other, owner-unlock th m j mx)
              (merged (of_another this j ms) (m == j) none (owner mx j))
      ]

  -- A thread that takes and releases the mutexes of all other threads leaves every mutex with the
  -- owner that it had, if those mutexes were free; and in between it owns each of them, and no other
  -- mutex changes its owner. The mutexes
  -- have one owner or none, which a call changes for its own mutex only.
  pub owner-unlock_all-lock_all :
      (ms : List (ℕ × ℕ)) (mx : M)
      → (of_another this j ms ≡ true → owner mx j ≡ none)
      → let held = lock_all_mutexes_but_this lib th this ms mx in
        (owner held j ≡ (if of_another this j ms then some th else owner mx j))
        × (owner (unlock_all_mutexes_but_this lib th this ms held) j ≡ owner mx j)
  owner-unlock_all-lock_all ms mx free =
      let held = lock_all_mutexes_but_this lib th this ms mx in
      (
        owner-lock_all ms mx,
        owner-unlock_all ms held ∙ elim (Bool-cases (of_another this j ms)) [
          | inl e ↦ if_so _ _ _ e ∙ sym (free e)
          | inr e ↦ if_not_so _ _ _ e ∙ owner-lock_all ms mx ∙ if_not_so _ _ _ e
        ],
      )
