-- ===== src/Transaction/Invalidation/Scan.antt =====
-- What the scans of the transactions in flight collect: every conflict, and no transaction that must
-- not be aborted.
use tboost_stm.Prelude.{
  ℕ, true, false, ltb, ◌≡◌, ◌==◌, if◌then◌else◌, ◌⊎◌, inl, inr, List, [], ◌∷◌, length, has, arith,
  All, All-has, Bool-cases, if_both, ==_iff,
}
use tboost_stm.BloomFilter
use tboost_stm.BloomFilter.Laws.{intersection_common}
use tboost_stm.Contention.{ContentionManager}
use tboost_stm.System.{System, context_of}
use tboost_stm.Transaction.Status.{irrevocable, forced_to_abort, same_thread}
use tboost_stm.Transaction.Invalidation.{
  Verdict, aborts, refused, keys, add_conflict, scan_writes, scan_tx, scan,
}

module _ {V : Type 0} (hash : ℕ → ℕ × ℕ) (s : System V) (me : ℕ) where
  -- The write filter holds every object of the write list.
  abbrev pub WbloomCovers : Type 0
  WbloomCovers =
      All (λ a. BloomFilter.exists hash a (context_of s me).wbloom ≡ true)
        (keys (context_of s me).write_mem)

  -- An object that both transactions hold.
  pub record Conflict (i a : ℕ) : Type 0 where
    pub written : has a (keys (context_of s me).write_mem) ≡ true
    pub seen : BloomFilter.exists hash a (context_of s i).bloom ≡ true

-- The scan has listed the transaction, or thrown.
abbrev pub Lists : ℕ → Verdict → Type 0
Lists i refused = Unit {0}
Lists i (aborts l) = has i l ≡ true

module _ {V : Type 0} (s : System V) (me : ℕ) where
  -- A transaction that the committing one may abort.
  abbrev pub MayAbort : ℕ → Type 0
  MayAbort i = (irrevocable s me ≡ true) ⊎ (irrevocable s i ≡ false)

  abbrev pub AllMayAbort : Verdict → Type 0
  AllMayAbort refused = Unit {0}
  AllMayAbort (aborts l) = All MayAbort l

module _ {V : Type 0} (hash : ℕ → ℕ × ℕ) (cm : ContentionManager) (s : System V) (me : ℕ) where
  pub add_conflict-Lists : (i : ℕ) (l : List ℕ) → Lists i (add_conflict hash cm s me i l)
  unfolding add_conflict
  add_conflict-Lists i l = ground arith

  pub add_conflict_mono :
      (i j : ℕ) (l : List ℕ) → has j l ≡ true → Lists j (add_conflict hash cm s me i l)
  unfolding add_conflict
  add_conflict_mono i j l h = ground arith

  pub add_conflict-AllMayAbort :
      (i : ℕ) (l : List ℕ)
      → All (MayAbort s me) l
      → AllMayAbort s me (add_conflict hash cm s me i l)
  unfolding add_conflict
  add_conflict-AllMayAbort i l h = ground arith

  pub scan_writes-Lists :
      (i j : ℕ) (ks : List ℕ) (v : Verdict) → Lists j v → Lists j (scan_writes hash cm s me i ks v)
  unfolding scan_writes
  scan_writes-Lists i j ks refused h = h
  scan_writes-Lists i j [] (aborts l) h = h
  scan_writes-Lists i j (a ∷ ks) (aborts l) h =
      scan_writes-Lists i j ks _ (ground (arith, add_conflict_mono i j l))

  pub scan_writes-hit :
      (i a : ℕ) (ks : List ℕ) (v : Verdict)
      → has a ks ≡ true
      → BloomFilter.exists hash a (context_of s i).bloom ≡ true
      → Lists i (scan_writes hash cm s me i ks v)
  unfolding scan_writes
  scan_writes-hit i a ks refused h e = tt
  scan_writes-hit i a [] (aborts l) h e = cc
  scan_writes-hit i a (k ∷ ks) (aborts l) h e = elim (Bool-cases (a == k)) [
    | inl hit ↦
        let same : a ≡ k = (==_iff a k).0 hit in
        scan_writes-Lists i i ks _ (rw (← same, e) (add_conflict-Lists i l))
    | inr miss ↦ scan_writes-hit i a ks _ (ground arith) e
  ]

  pub scan_writes-AllMayAbort :
      (i : ℕ) (ks : List ℕ) (v : Verdict)
      → AllMayAbort s me v
      → AllMayAbort s me (scan_writes hash cm s me i ks v)
  unfolding scan_writes
  scan_writes-AllMayAbort i ks refused h = h
  scan_writes-AllMayAbort i [] (aborts l) h = h
  scan_writes-AllMayAbort i (a ∷ ks) (aborts l) h =
      scan_writes-AllMayAbort i ks _ (ground (arith, add_conflict-AllMayAbort i l h))

  scan_tx_cases :
      (P : Verdict → Type 0) (i : ℕ) (l : List ℕ)
      → P (scan_writes hash cm s me i (keys (context_of s me).write_mem) (aborts l))
      → P (add_conflict hash cm s me i l)
      → P (aborts l)
      → P (scan_tx hash cm s me i l)
  unfolding scan_tx
  scan_tx_cases P i l h k m =
      let c = context_of s me in
      let both = BloomFilter.intersection c.wbloom (context_of s i).bloom in
      let add = add_conflict hash cm s me i l in
      if_both P (ltb (length c.write_mem) 20)
        (scan_writes hash cm s me i (keys c.write_mem) (aborts l)) (if both then add else aborts l)
        h (if_both P both add (aborts l) k m)

  pub scan_tx-Lists : (i j : ℕ) (l : List ℕ) → has j l ≡ true → Lists j (scan_tx hash cm s me i l)
  unfolding scan_tx
  scan_tx-Lists i j l h =
      scan_tx_cases (Lists j) i l
        (scan_writes-Lists i j (keys (context_of s me).write_mem) (aborts l) h)
        (add_conflict_mono i j l h) h

  pub scan_tx-hit :
      (i a : ℕ) (l : List ℕ)
      → WbloomCovers hash s me
      → Conflict hash s me i a
      → Lists i (scan_tx hash cm s me i l)
  unfolding scan_tx
  scan_tx-hit i a l covers c =
      let b : BloomFilter.exists hash a (context_of s me).wbloom ≡ true =
        All-has _ a (keys (context_of s me).write_mem) covers c.written in
      elim (Bool-cases (ltb (length (context_of s me).write_mem) 20)) [
        | inl few ↦
            rw few
              (scan_writes-hit i a (keys (context_of s me).write_mem) (aborts l) c.written c.seen)
        | inr many ↦
            rw
              (
                many,
                intersection_common hash a (context_of s me).wbloom (context_of s i).bloom b c.seen,
              )
              (add_conflict-Lists i l)
      ]

  pub scan_tx-AllMayAbort :
      (i : ℕ) (l : List ℕ) → All (MayAbort s me) l → AllMayAbort s me (scan_tx hash cm s me i l)
  unfolding scan_tx
  scan_tx-AllMayAbort i l h =
      scan_tx_cases (AllMayAbort s me) i l
        (scan_writes-AllMayAbort i (keys (context_of s me).write_mem) (aborts l) h)
        (add_conflict-AllMayAbort i l h) h

  pub scan-Lists :
      (is : List ℕ) (j : ℕ) (v : Verdict) → Lists j v → Lists j (scan hash cm s me is v)
  unfolding scan
  scan-Lists [] j refused h = h
  scan-Lists (i ∷ is) j refused h = h
  scan-Lists [] j (aborts l) h = h
  scan-Lists (i ∷ is) j (aborts l) h = scan-Lists is j _ (ground (arith, scan_tx-Lists i j l h))

  pub scan-AllMayAbort :
      (is : List ℕ) (v : Verdict) → AllMayAbort s me v → AllMayAbort s me (scan hash cm s me is v)
  unfolding scan
  scan-AllMayAbort [] refused h = h
  scan-AllMayAbort (i ∷ is) refused h = h
  scan-AllMayAbort [] (aborts l) h = h
  scan-AllMayAbort (i ∷ is) (aborts l) h =
      scan-AllMayAbort is _ (ground (arith, scan_tx-AllMayAbort i l h))

  pub scan-hit :
      (is : List ℕ) (i a : ℕ) (v : Verdict)
      → WbloomCovers hash s me
      → has i is ≡ true
      → forced_to_abort s i ≡ false
      → same_thread s i me ≡ false
      → Conflict hash s me i a
      → Lists i (scan hash cm s me is v)
  unfolding scan
  scan-hit [] i a v w h f d c = cc
  scan-hit (j ∷ is) i a refused w h f d c = tt
  scan-hit (j ∷ is) i a (aborts l) w h f d c = elim (Bool-cases (i == j)) [
    | inl hit ↦
        let same : i ≡ j = (==_iff i j).0 hit in
        scan-Lists is i _ (rw (← same, f, d) (scan_tx-hit i a l w c))
    | inr miss ↦ scan-hit is i a _ w (ground arith) f d c
  ]
