-- ===== src/Histories/Matching.antt =====
-- The histories of a program with one thread: an abort is kept if and only if a commit followed it.
use tboost_stm.Prelude.{
  ℕ, ◌+◌, ◌<◌, ◌≤◌, ◌^◌, ◌≡◌, refl, sym, subst, ◌∙◌, Bool, true, false, not, ◌&&◌, ◌||◌, List, [],
  ◌∷◌, arith, length, if_so, if_not_so, ==-eq_true, Bool-cases, inl, inr, u64, if_both,
}
use tboost_stm.Histories.{
  ThreadIdAndCommitId, History, Histories, same_id, less_id, has_id, erase_id, assign_id, id_of,
  drop_last, push_read_aborting, push_write_aborting, push_read_committing, push_write_committing,
}

has_id-assign :
    (k j : ThreadIdAndCommitId) (v : ℕ) (m : History)
    → has_id j (assign_id k v m) ≡ (same_id k j || has_id j m)
unfolding has_id assign_id same_id less_id
has_id-assign k j v [] = ground arith
has_id-assign k j v ((i, w) ∷ m) = ground (arith, has_id-assign k j v m)

has_id-erase :
    (k j : ThreadIdAndCommitId) (m : History)
    → has_id j (erase_id k m) ≡ (not (same_id k j) && has_id j m)
unfolding has_id erase_id same_id
has_id-erase k j [] = ground arith
has_id-erase k j ((i, w) ∷ m) = ground (arith, has_id-erase k j m)

next_number : (a : ℕ) → a + 1 < 2 ^ 64 → u64 (a + 1) ≡ a + 1
next_number a l = omega arith

last_number : (a : ℕ) → a + 1 < 2 ^ 64 → u64 (u64 (a + 1) + 0xffffffffffffffff) ≡ a
last_number a l = omega (arith, next_number a l)

-- An abort by the thread, with the sizes of the two sets, or a commit.
pub data Event : Type 0 where
  aborting committing : ℕ → ℕ → Event

-- How the library records it: the read set first.
pub record_event : ℕ → Event → Histories → Histories
record_event th (aborting reads writes) h =
    push_write_aborting th writes (push_read_aborting th reads h)
record_event th (committing reads writes) h =
    push_write_committing th writes (push_read_committing th reads h)

pub record_events : ℕ → List Event → Histories → Histories
unfolding record_event
record_events th [] h = h
record_events th (e ∷ es) h = record_events th es (record_event th e h)

-- The thread's last abort, while no commit has followed it.
abbrev pub open_abort : ℕ → Histories → ThreadIdAndCommitId → Bool
open_abort th h k = h.waiting_for_commit_read th && same_id (id_of th h.aborts) k

pub record IsMatched (th : ℕ) (h : Histories) : Type 0 where
  pub match :
      (k : ThreadIdAndCommitId)
      → has_id k h.aborted_read_set_size ≡ (has_id k h.committed_read_set_size || open_abort th h k)
  pub fresh : (n : ℕ) → h.aborts < n → has_id (id_of th n) h.committed_read_set_size ≡ false
  pub unmatched :
      h.waiting_for_commit_read th ≡ true
      → has_id (id_of th h.aborts) h.committed_read_set_size ≡ false

has_id_same :
    (j k : ThreadIdAndCommitId) (m : History) → same_id j k ≡ true → has_id k m ≡ has_id j m
unfolding has_id same_id
has_id_same j k [] e = refl
has_id_same j k ((i, v) ∷ m) e = let rest = has_id_same j k m e in ground arith

-- A new abort takes the place of the last one, which was unmatched.
replaced :
    (new waiting old matched : Bool)
    → (waiting ≡ true → old ≡ true → matched ≡ false)
    → (new || (not (waiting && old) && (matched || (waiting && old)))) ≡ (matched || new)
replaced new false old false f = ground arith
replaced new false old true f = ground arith
replaced new true false false f = ground arith
replaced new true false true f = ground arith
replaced new true true false f = ground arith
replaced new true true true f = let z = f refl refl in cc

closed :
    (matched waiting last : Bool)
    → waiting ≡ true
    → (matched || (waiting && last)) ≡ (last || matched || false)
closed false w false e = ground arith
closed false w true e = ground arith
closed true w false e = ground arith
closed true w true e = ground arith

module _ (th size : ℕ) (h : Histories) where
  read_aborting-aborts :
      h.aborts + 1 < 2 ^ 64 → (push_read_aborting th size h).aborts ≡ h.aborts + 1
  unfolding push_read_aborting
  read_aborting-aborts l = next_number h.aborts l

  read_aborting-committed :
      (push_read_aborting th size h).committed_read_set_size ≡ h.committed_read_set_size
  unfolding push_read_aborting drop_last
  read_aborting-committed =
      if_both {A = Histories} (λ z. z.committed_read_set_size ≡ h.committed_read_set_size)
        (h.waiting_for_commit_read th) _ _ refl refl

  read_aborting_open : (push_read_aborting th size h).waiting_for_commit_read th ≡ true
  unfolding push_read_aborting
  read_aborting_open = rw (==-eq_true th th refl) refl

  drop_last-aborted :
      (k : ThreadIdAndCommitId) (n : ℕ)
      → has_id k (drop_last th n h).aborted_read_set_size ≡ (
          not (h.waiting_for_commit_read th && same_id (id_of th n) k)
          && has_id k h.aborted_read_set_size)
  unfolding drop_last
  drop_last-aborted k n = elim (Bool-cases (h.waiting_for_commit_read th)) [
    | inl w ↦ rw w (has_id-erase (id_of th n) k h.aborted_read_set_size)
    | inr w ↦ rw w refl
  ]

  read_aborting-aborted :
      (k : ThreadIdAndCommitId)
      → h.aborts + 1 < 2 ^ 64
      → has_id k (push_read_aborting th size h).aborted_read_set_size ≡ (
          same_id (id_of th (h.aborts + 1)) k
          || (not (open_abort th h k) && has_id k h.aborted_read_set_size))
  unfolding push_read_aborting drop_last
  read_aborting-aborted k l =
      has_id-assign (id_of th (u64 (h.aborts + 1))) k size _
      ∙ rw (last_number h.aborts l, drop_last-aborted k h.aborts, next_number h.aborts l) refl

  read_aborting-IsMatched :
      h.aborts + 1 < 2 ^ 64 → IsMatched th h → IsMatched th (push_read_aborting th size h)
  read_aborting-IsMatched l m = record {
    match = λ k.
        rw
          (
            read_aborting-aborted k l,
            read_aborting-committed,
            read_aborting_open,
            read_aborting-aborts l,
            m.match k,
          )
          (replaced (same_id (id_of th (h.aborts + 1)) k) (h.waiting_for_commit_read th)
            (same_id (id_of th h.aborts) k) (has_id k h.committed_read_set_size)
            (λ w e. has_id_same (id_of th h.aborts) k h.committed_read_set_size e ∙ m.unmatched w));
    fresh = λ n q. rw read_aborting-committed (m.fresh n (omega (arith, read_aborting-aborts l)));
    unmatched = λ q.
        rw (read_aborting-committed, read_aborting-aborts l) (m.fresh (h.aborts + 1) (omega arith));
  }

  write_aborting-IsMatched : IsMatched th h → IsMatched th (push_write_aborting th size h)
  unfolding push_write_aborting
  write_aborting-IsMatched m = record { match = m.match; fresh = m.fresh; unmatched = m.unmatched }

  open_other :
      (n : ℕ)
      → h.aborts < n
      → has_id (id_of th n) h.committed_read_set_size ≡ false
      → (same_id (id_of th h.aborts) (id_of th n) || has_id (id_of th n) h.committed_read_set_size)
        ≡ false
  unfolding same_id
  open_other n l f = ground arith

  read_committing-IsMatched : IsMatched th h → IsMatched th (push_read_committing th size h)
  unfolding push_read_committing
  read_committing-IsMatched m = elim (Bool-cases (h.waiting_for_commit_read th)) [
    | inr w ↦ subst (IsMatched th) (sym (if_not_so _ _ _ w)) m
    | inl w ↦ subst (IsMatched th) (sym (if_so _ _ _ w)) (record {
      match = λ k.
          rw
            (
              ==-eq_true th th refl,
              has_id-assign (id_of th h.aborts) k size h.committed_read_set_size,
              m.match k,
            )
            (closed (has_id k h.committed_read_set_size) (h.waiting_for_commit_read th)
              (same_id (id_of th h.aborts) k) w);
      fresh = λ n q.
          has_id-assign (id_of th h.aborts) (id_of th n) size h.committed_read_set_size
          ∙ (let f = m.fresh n q in open_other n q f);
      unmatched = λ q. let z : false ≡ true = rw (==-eq_true th th refl) at q in cc;
    })
  ]

  read_committing-aborts : (push_read_committing th size h).aborts ≡ h.aborts
  unfolding push_read_committing
  read_committing-aborts =
      if_both {A = Histories} (λ z. z.aborts ≡ h.aborts) (h.waiting_for_commit_read th) _ _ refl
        refl

  write_committing-aborts : (push_write_committing th size h).aborts ≡ h.aborts
  unfolding push_write_committing
  write_committing-aborts =
      if_both {A = Histories} (λ z. z.aborts ≡ h.aborts) (h.waiting_for_commit_write th) _ _ refl
        refl

  write_committing-IsMatched : IsMatched th h → IsMatched th (push_write_committing th size h)
  unfolding push_write_committing
  write_committing-IsMatched m =
      if_both (IsMatched th) (h.waiting_for_commit_write th) _ _
        (record { match = m.match; fresh = m.fresh; unmatched = m.unmatched }) m

module _ (th : ℕ) where
  event-aborts :
      (e : Event) (h : Histories)
      → h.aborts + 1 < 2 ^ 64
      → (record_event th e h).aborts ≤ h.aborts + 1
  unfolding record_event push_write_aborting push_read_committing push_write_committing
  event-aborts (aborting r w) h l = omega (arith, read_aborting-aborts th r h l)
  event-aborts (committing r w) h l = omega (
    arith,
    write_committing-aborts th w (push_read_committing th r h),
    read_committing-aborts th r h,
  )

  event-IsMatched :
      (e : Event) (h : Histories)
      → h.aborts + 1 < 2 ^ 64
      → IsMatched th h
      → IsMatched th (record_event th e h)
  unfolding record_event
  event-IsMatched (aborting r w) h l m =
      write_aborting-IsMatched th w _ (read_aborting-IsMatched th r h l m)
  event-IsMatched (committing r w) h l m =
      write_committing-IsMatched th w _ (read_committing-IsMatched th r h m)

  -- In a program with one thread, whatever it aborts and commits keeps the histories of the read sets
  -- matched: an abort has an entry exactly if the commit after it has one, but for the last abort
  -- while no commit has followed, which has an entry of its own; and no commit has an entry beyond
  -- the aborts so far. They are matched before, and the aborts stay below 2^64.
  pub record_events-IsMatched :
      (es : List Event) (h : Histories)
      → h.aborts + length es < 2 ^ 64
      → IsMatched th h
      → IsMatched th (record_events th es h)
  unfolding record_events
  record_events-IsMatched [] h l m = m
  record_events-IsMatched (e ∷ es) h l m =
      record_events-IsMatched es (record_event th e h)
        (omega (arith, event-aborts e h (omega arith))) (event-IsMatched e h (omega arith) m)
