-- ===== src/Histories.antt =====
-- boost/stm/detail/transaction_bookkeeping.hpp: the sizes of the read and write sets of transactions
-- that were aborted, and of the commits that followed.
pub mod Matching
use tboost_stm.Prelude.{
  ℕ, ◌+◌, Bool, true, false, ltb, ◌==◌, ◌&&◌, ◌||◌, if◌then◌else◌, u64, List, [], ◌∷◌,
}
use tboost_stm.System.{update}

-- `ThreadIdAndCommitId`
pub record ThreadIdAndCommitId : Type 0 where
  pub thread_id : ℕ
  pub commit_id : ℕ

-- `operator==`
unfoldable pub same_id : ThreadIdAndCommitId → ThreadIdAndCommitId → Bool
same_id lhs rhs = lhs.thread_id == rhs.thread_id && lhs.commit_id == rhs.commit_id

-- `operator<`
unfoldable pub less_id : ThreadIdAndCommitId → ThreadIdAndCommitId → Bool
less_id lhs rhs =
    if ltb lhs.thread_id rhs.thread_id
    then true
    else lhs.thread_id == rhs.thread_id && ltb lhs.commit_id rhs.commit_id

-- `std::map<ThreadIdAndCommitId, uint32>`, in the order of the keys
abbrev pub History : Type 0
History = List (ThreadIdAndCommitId × ℕ)

-- Whether the map has the key.
unfoldable pub has_id : ThreadIdAndCommitId → History → Bool
unfolding same_id
has_id k [] = false
has_id k ((j, v) ∷ m) = same_id j k || has_id k m

-- `m.erase(k)`, which erases whatever has the key
unfoldable pub erase_id : ThreadIdAndCommitId → History → History
unfolding same_id
erase_id k [] = []
erase_id k ((j, v) ∷ m) = if same_id j k then erase_id k m else (j, v) ∷ erase_id k m

-- `m[k] = v`
unfoldable pub assign_id : ThreadIdAndCommitId → ℕ → History → History
unfolding same_id less_id
assign_id k v [] = (k, v) ∷ []
assign_id k v ((j, w) ∷ m) =
    if same_id j k
    then (k, v) ∷ m
    else if less_id k j
    then (k, v) ∷ (j, w) ∷ m
    else (j, w) ∷ assign_id k v m

-- The members of `transaction_bookkeeping` that the histories need. The two maps to `bool` are
-- functions: a missing key reads as false.
pub record Histories : Type 0 where
  pub aborts : ℕ
  pub committed_read_set_size : History
  pub committed_write_set_size : History
  pub aborted_read_set_size : History
  pub aborted_write_set_size : History
  pub waiting_for_commit_read : ℕ → Bool
  pub waiting_for_commit_write : ℕ → Bool

abbrev pub id_of : ℕ → ℕ → ThreadIdAndCommitId
id_of th n = record { thread_id = th; commit_id = n }

-- The entries of the last abort, if no commit has followed it.
abbrev pub drop_last : ℕ → ℕ → Histories → Histories
unfolding erase_id
drop_last th n h =
    if h.waiting_for_commit_read th
    then record h {
      aborted_read_set_size = erase_id (id_of th n) h.aborted_read_set_size;
      aborted_write_set_size = erase_id (id_of th n) h.aborted_write_set_size;
    }
    else h

-- `pushBackSizeOfReadSetWhenAborting`, by the thread `th`
unfoldable pub push_read_aborting : ℕ → ℕ → Histories → Histories
unfolding assign_id erase_id drop_last
push_read_aborting th size h0 =
    let n = u64 (h0.aborts + 1) in
    let h = drop_last th (u64 (n + 0xffffffffffffffff)) h0 in
    record h {
      aborts = n;
      aborted_read_set_size = assign_id (id_of th n) size h.aborted_read_set_size;
      waiting_for_commit_read = update h.waiting_for_commit_read th true;
    }

-- `pushBackSizeOfWriteSetWhenAborting`
unfoldable pub push_write_aborting : ℕ → ℕ → Histories → Histories
unfolding assign_id
push_write_aborting th size h = record h {
  aborted_write_set_size = assign_id (id_of th h.aborts) size h.aborted_write_set_size;
  waiting_for_commit_write = update h.waiting_for_commit_write th true;
}

-- `pushBackSizeOfReadSetWhenCommitting`
unfoldable pub push_read_committing : ℕ → ℕ → Histories → Histories
unfolding assign_id
push_read_committing th size h =
    if h.waiting_for_commit_read th
    then record h {
      committed_read_set_size = assign_id (id_of th h.aborts) size h.committed_read_set_size;
      waiting_for_commit_read = update h.waiting_for_commit_read th false;
    }
    else h

-- `pushBackSizeOfWriteSetWhenCommitting`
unfoldable pub push_write_committing : ℕ → ℕ → Histories → Histories
unfolding assign_id
push_write_committing th size h =
    if h.waiting_for_commit_write th
    then record h {
      committed_write_set_size = assign_id (id_of th h.aborts) size h.committed_write_set_size;
      waiting_for_commit_write = update h.waiting_for_commit_write th false;
    }
    else h
