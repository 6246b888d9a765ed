-- ===== src/Transaction/Deletions/Order.antt =====
-- The deletion buffer is in the order of its times, and memory leaves it when no transaction in
-- flight is older than its deletion.
use tboost_stm.Prelude.{
  ℕ, ◌≤◌, ◌≡◌, true, ltb, ◌⊎◌, inl, inr, List, [], ◌∷◌, arith, has, Bool-cases, ltb→lt, ==_iff,
  ◌==◌, subst, sym,
}
use tboost_stm.Objects.{Heap}
use tboost_stm.System.{System}
use tboost_stm.Transaction.Abort.{delete_all}
use tboost_stm.Transaction.Deletions.{
  buffer, earliest, earliest_start_time_of_inflight_txes, free_older, do_interval_deletions,
}

-- An entry of the buffer.
abbrev pub Buffered : ℕ → List ℕ → List (ℕ × List ℕ) → Type 0
Buffered k l [] = ⊥
Buffered k l ((k', l') ∷ m) = ((k ≡ k') × (l ≡ l')) ⊎ Buffered k l m

-- Every time in the buffer is at least this one.
abbrev pub From : ℕ → List (ℕ × List ℕ) → Type 0
From n [] = Unit
From n ((k, l) ∷ m) = (n ≤ k) × From n m

abbrev pub Ordered : List (ℕ × List ℕ) → Type 0
Ordered [] = Unit
Ordered ((k, l) ∷ m) = From k m × Ordered m

From-trans : (n n' : ℕ) (m : List (ℕ × List ℕ)) → n ≤ n' → From n' m → From n m
From-trans n n' [] h k = tt
From-trans n n' ((k', l) ∷ m) h k = (omega (arith, k.0), From-trans n n' m h k.1)

From-buffer :
    (n time : ℕ) (mem : List ℕ) (m : List (ℕ × List ℕ))
    → n ≤ time
    → From n m
    → From n (buffer time mem m)
unfolding buffer
From-buffer n time mem [] h k = (h, tt)
From-buffer n time mem ((k', l) ∷ m) h k = elim (Bool-cases (ltb time k')) [
  | inl before ↦ rw before (h, k)
  | inr behind ↦ rw behind (k.0, From-buffer n time mem m h k.1)
]

-- The memory of a commit goes into a buffer that is in the order of the times so that it stays in
-- this order.
pub buffer-Ordered :
    (time : ℕ) (mem : List ℕ) (m : List (ℕ × List ℕ)) → Ordered m → Ordered (buffer time mem m)
unfolding buffer
buffer-Ordered time mem [] o = (tt, tt)
buffer-Ordered time mem ((k, l) ∷ m) o = elim (Bool-cases (ltb time k)) [
  | inl before ↦ rw before (
    (
      omega (arith, ltb→lt time k before),
      From-trans time k m (omega (arith, ltb→lt time k before)) o.0,
    ),
    o,
  )
  | inr behind ↦
      rw behind (From-buffer k time mem m (ground arith) o.0, buffer-Ordered time mem m o.1)
]

module _ {V : Type 0} where
  earliest-bound : (s : System V) (is : List ℕ) (secs : ℕ) → earliest s is secs ≤ secs
  unfolding earliest
  earliest-bound s [] secs = omega arith
  earliest-bound s (i ∷ is) secs = elim (Bool-cases (ltb (s.tx i).start_time secs)) [
    | inl less ↦
        let rest = earliest-bound s is (s.tx i).start_time in
        let l = ltb→lt (s.tx i).start_time secs less in rw less (omega arith)
    | inr more ↦ rw more (earliest-bound s is secs)
  ]

  -- No transaction in the list started earlier.
  earliest-least :
      (s : System V) (is : List ℕ) (secs i : ℕ)
      → has i is ≡ true
      → earliest s is secs ≤ (s.tx i).start_time
  unfolding earliest
  earliest-least s [] secs i h = cc
  earliest-least s (j ∷ is) secs i h = elim (Bool-cases (i == j)) [
    | inl hit ↦
        subst (λ z. earliest s (j ∷ is) secs ≤ (s.tx z).start_time) (sym ((==_iff i j).0 hit))
          (elim (Bool-cases (ltb (s.tx j).start_time secs)) [
            | inl less ↦ rw less (earliest-bound s is (s.tx j).start_time)
            | inr more ↦
                let rest = earliest-bound s is secs in
                let le : secs ≤ (s.tx j).start_time = ground arith in rw more (omega arith)
          ])
    | inr miss ↦ earliest-least s is _ i (ground arith)
  ]

  free_older-keeps :
      (limit k : ℕ) (l : List ℕ) (m : List (ℕ × List ℕ)) (h : Heap V)
      → Buffered k l m
      → limit ≤ k
      → Buffered k l (free_older limit m h).0
  unfolding free_older
  free_older-keeps limit k l [] h e le = e
  free_older-keeps limit k l ((k', l') ∷ m) h e le = elim (Bool-cases (ltb k' limit)) [
    | inl old ↦ rw old (elim e [
      | inl same ↦ absurd (omega (arith, ltb→lt k' limit old, same.0, le))
      | inr later ↦ free_older-keeps limit k l m (delete_all l' h) later le
    ])
    | inr young ↦ rw young e
  ]

  free_older-From :
      (limit : ℕ) (m : List (ℕ × List ℕ)) (h : Heap V)
      → Ordered m
      → From limit (free_older limit m h).0
  unfolding free_older
  free_older-From limit [] h o = tt
  free_older-From limit ((k, l) ∷ m) h o = elim (Bool-cases (ltb k limit)) [
    | inl old ↦ rw old (free_older-From limit m (delete_all l h) o.1)
    | inr young ↦ let le : limit ≤ k = ground arith in rw young (le, From-trans limit k m le o.0)
  ]

  -- Memory that was deleted at or after the start of a transaction in flight stays in the buffer.
  pub do_interval_deletions-keeps :
      (s : System V) (i k : ℕ) (l : List ℕ)
      → has i s.in_flight ≡ true
      → (s.tx i).start_time ≤ k
      → Buffered k l s.deletion_buffer
      → Buffered k l (do_interval_deletions s).deletion_buffer
  unfolding do_interval_deletions earliest_start_time_of_inflight_txes
  do_interval_deletions-keeps s i k l member started buffered =
      free_older-keeps _ k l s.deletion_buffer s.heap buffered
        (omega (arith, earliest-least s s.in_flight 0xffffffff i member, started))

  -- If the buffer is in order, no memory that is older than every transaction in flight stays.
  pub do_interval_deletions-frees :
      (s : System V)
      → Ordered s.deletion_buffer
      → From (earliest_start_time_of_inflight_txes s) (do_interval_deletions s).deletion_buffer
  unfolding do_interval_deletions
  do_interval_deletions-frees s o = free_older-From _ s.deletion_buffer s.heap o
