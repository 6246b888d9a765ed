-- ===== src/MemoryPool/Stack.antt =====
-- A reserve is a stack of free chunks.
use tboost_stm.Prelude.{
  ℕ, zero, suc, ◌+◌, ◌-◌, ◌<◌, ◌≤◌, ◌≡◌, refl, ap, ◌∙◌, true, false, leb, List, [], ◌∷◌, Option,
  none, some, length, get_elem?, arith, if_so, if_not_so,
}
use tboost_stm.MemoryPool.{
  FixedReserve, set_at, resize, fill, allocate_block, handed, hand_out, retrieve_fixed_chunk,
  return_fixed_chunk,
}

drop : ℕ → List ℕ → List ℕ
drop zero xs = xs
drop (suc n) [] = []
drop (suc n) (x ∷ xs) = drop n xs

drop-get : (i : ℕ) (x : ℕ) (xs : List ℕ) → get_elem? xs i ≡ some x → drop i xs ≡ x ∷ drop (suc i) xs
unfolding drop
drop-get zero x [] e = cc
drop-get zero x (y ∷ ys) e = cc
drop-get (suc i) x [] e = cc
drop-get (suc i) x (y ∷ ys) e = drop-get i x ys e

get-drop :
    (i p : ℕ) (xs ps : List ℕ)
    → drop i xs ≡ p ∷ ps
    → (get_elem? xs i ≡ some p) × (drop (suc i) xs ≡ ps) × (i < length xs)
unfolding drop
get-drop zero p [] ps e = cc
get-drop zero p (y ∷ ys) ps e = (cc, cc, omega arith)
get-drop (suc i) p [] ps e = cc
get-drop (suc i) p (y ∷ ys) ps e = let (a, b, c) = get-drop i p ys ps e in (a, b, omega arith)

drop_all : (i : ℕ) (xs : List ℕ) → length xs ≤ i → drop i xs ≡ []
unfolding drop
drop_all zero [] l = refl
drop_all zero (x ∷ xs) l = ground arith
drop_all (suc i) [] l = refl
drop_all (suc i) (x ∷ xs) l = drop_all i xs (omega arith)

drop-nil : (i : ℕ) (xs : List ℕ) → drop i xs ≡ [] → length xs ≤ i
unfolding drop
drop-nil zero [] e = omega arith
drop-nil zero (y ∷ ys) e = cc
drop-nil (suc i) [] e = omega arith
drop-nil (suc i) (y ∷ ys) e = let l = drop-nil i ys e in omega arith

length-set_at : (i p : ℕ) (xs : List ℕ) → length (set_at i p xs) ≡ length xs
unfolding set_at
length-set_at i p [] = refl
length-set_at zero p (x ∷ xs) = refl
length-set_at (suc i) p (x ∷ xs) = ap suc (length-set_at i p xs)

get-set_at : (i p : ℕ) (xs : List ℕ) → i < length xs → get_elem? (set_at i p xs) i ≡ some p
unfolding set_at
get-set_at i p [] l = ground arith
get-set_at zero p (x ∷ xs) l = refl
get-set_at (suc i) p (x ∷ xs) l = get-set_at i p xs (omega arith)

get-set_at_below : (i j p : ℕ) (xs : List ℕ) → i < j → get_elem? (set_at j p xs) i ≡ get_elem? xs i
unfolding set_at
get-set_at_below i j p [] l = refl
get-set_at_below i zero p (x ∷ xs) l = ground arith
get-set_at_below zero (suc j) p (x ∷ xs) l = refl
get-set_at_below (suc i) (suc j) p (x ∷ xs) l = get-set_at_below i j p xs (omega arith)

drop-set_at : (i p : ℕ) (xs : List ℕ) → i < length xs → drop i (set_at i p xs) ≡ p ∷ drop (suc i) xs
unfolding drop set_at
drop-set_at i p [] l = ground arith
drop-set_at zero p (x ∷ xs) l = refl
drop-set_at (suc i) p (x ∷ xs) l = drop-set_at i p xs (omega arith)

length-resize : (n : ℕ) (xs : List ℕ) → length (resize n xs) ≡ n
unfolding resize
length-resize zero xs = refl
length-resize (suc n) [] = ap suc (length-resize n [])
length-resize (suc n) (x ∷ xs) = ap suc (length-resize n xs)

-- The free chunks, the next one first.
abbrev pub available : FixedReserve → List ℕ
unfolding drop
available r = drop r.current_loc r.data_

-- The vector has the size that is noted, and the place is in it or at its end.
pub record IsReserve (r : FixedReserve) : Type 0 where
  pub size_eq : length r.data_ ≡ r.current_size
  pub in_range : r.current_loc ≤ r.current_size

-- To give a chunk back is to push it.
pub return_fixed_chunk-available :
    (m i : ℕ) (r : FixedReserve)
    → IsReserve r
    → r.current_loc ≡ suc i
    → (r' : FixedReserve) × (return_fixed_chunk m r ≡ some r')
      × (available r' ≡ m ∷ available r)
      × IsReserve r'
unfolding return_fixed_chunk available
return_fixed_chunk-available m i r k e =
    let l : i < length r.data_ = omega (arith, k.size_eq, k.in_range) in
    (
      record r { current_loc = i; data_ = set_at i m r.data_ },
      rw e refl,
      rw e (drop-set_at i m r.data_ l),
      record {
        size_eq = length-set_at i m r.data_ ∙ k.size_eq;
        in_range = omega (arith, k.in_range);
      },
    )

module _ {A : Type 0} (malloc : ℕ → A → ℕ × A) where
  -- What `malloc` gives in a number of calls, and its state then.
  mallocs : ℕ → ℕ → A → List ℕ × A
  mallocs chunk zero a = ([], a)
  mallocs chunk (suc n) a =
      let (p, a') = malloc chunk a in let (ps, b) = mallocs chunk n a' in (p ∷ ps, b)

  length-fill : (c n i : ℕ) (d : List ℕ) (a : A) → length (fill malloc c n i d a).0 ≡ length d
  unfolding fill
  length-fill c zero i d a = refl
  length-fill c (suc n) i d a = length-fill c n (suc i) _ _ ∙ length-set_at i (malloc c a).0 d

  fill-below :
      (c n i j : ℕ) (d : List ℕ) (a : A)
      → i < j
      → get_elem? (fill malloc c n j d a).0 i ≡ get_elem? d i
  unfolding fill
  fill-below c zero i j d a l = refl
  fill-below c (suc n) i j d a l =
      fill-below c n i (suc j) _ _ (omega arith) ∙ get-set_at_below i j (malloc c a).0 d l

  -- The loop of `allocateBlock` puts what `malloc` gives into the rest of the vector.
  fill-mallocs :
      (c n i : ℕ) (d : List ℕ) (a : A)
      → i + n ≡ length d
      → (drop i (fill malloc c n i d a).0 ≡ (mallocs c n a).0)
        × ((fill malloc c n i d a).1 ≡ (mallocs c n a).1)
  unfolding fill mallocs
  fill-mallocs c zero i d a e = (drop_all i d (omega arith), refl)
  fill-mallocs c (suc n) i d a e =
      let (p, a') = malloc c a in
      let d' = set_at i p d in
      let (f, g) = fill-mallocs c n (suc i) d' a' (omega (arith, length-set_at i p d)) in
      let here : get_elem? (fill malloc c n (suc i) d' a').0 i ≡ some p =
        fill-below c n i (suc i) d' a' (omega arith) ∙ get-set_at i p d (omega arith) in
      (drop-get i p _ here ∙ ap (λ z. p ∷ z) f, g)

  -- To retrieve a chunk while there are free ones is to pop the first.
  pub retrieve_fixed_chunk-available :
      (p : ℕ) (ps : List ℕ) (r : FixedReserve) (a : A)
      → IsReserve r
      → available r ≡ p ∷ ps
      → (r' : FixedReserve) × (retrieve_fixed_chunk malloc r a ≡ some (p, (r', a)))
        × (available r' ≡ ps)
        × IsReserve r'
  unfolding retrieve_fixed_chunk available
  retrieve_fixed_chunk-available p ps r a k e =
      let (g, d, l) = get-drop r.current_loc p r.data_ ps e in
      let more : leb r.current_size r.current_loc ≡ false = ground (arith, k.size_eq) in
      (
        record r { current_loc = suc r.current_loc },
        ap (hand_out malloc) (if_not_so _ _ _ more) ∙ ap (handed malloc (r, a)) g,
        d,
        record { size_eq = k.size_eq; in_range = omega (arith, k.size_eq) },
      )

  -- A new block, for a reserve without free chunks: what `malloc` gives.
  allocate_block-available :
      (n : ℕ) (r : FixedReserve) (a : A)
      → IsReserve r
      → available r ≡ []
      → (available (allocate_block malloc n r a).0 ≡ (mallocs r.chunk n a).0)
        × ((allocate_block malloc n r a).1 ≡ (mallocs r.chunk n a).1)
        × IsReserve (allocate_block malloc n r a).0
  unfolding allocate_block available
  allocate_block-available n r a k e =
      let at_end : r.current_loc ≡ r.current_size =
        omega (arith, drop-nil r.current_loc r.data_ e, k.size_eq, k.in_range) in
      let size = r.current_size + n in
      let count = size - r.current_loc in
      let d = resize size r.data_ in
      let whole : r.current_loc + count ≡ length d = omega (arith, length-resize size r.data_) in
      let all : count ≡ n = omega arith in
      let (f, g) = fill-mallocs r.chunk count r.current_loc d a whole in
      (
        f ∙ ap (λ z. (mallocs r.chunk z a).0) all,
        g ∙ ap (λ z. (mallocs r.chunk z a).1) all,
        record {
          size_eq = length-fill r.chunk count r.current_loc d a ∙ length-resize size r.data_;
          in_range = omega (arith, k.in_range);
        },
      )

  abbrev popped : List ℕ × A → Option (ℕ × (List ℕ × A))
  popped ([], a) = none
  popped (p ∷ ps, a) = some (p, (ps, a))

  -- What a reserve promises: the first free chunk, or else the first of a number of new ones, of
  -- which the others are free from then on.
  pub pop_free : ℕ → ℕ → List ℕ → A → Option (ℕ × (List ℕ × A))
  unfolding mallocs
  pop_free n chunk (p ∷ ps) a = some (p, (ps, a))
  pop_free n chunk [] a = popped (mallocs chunk n a)

  -- The reserve has done what it promises.
  record Pops (n : ℕ) (r : FixedReserve) (a : A) : Type 0 where
    chunk : ℕ
    next : FixedReserve
    state : A
    result : retrieve_fixed_chunk malloc r a ≡ some (chunk, (next, state))
    promised : pop_free n r.chunk (available r) a ≡ some (chunk, (available next, state))
    kept : IsReserve next

  pop_listed :
      (n p : ℕ) (ps : List ℕ) (r : FixedReserve) (a : A)
      → IsReserve r
      → available r ≡ p ∷ ps
      → Pops n r a
  unfolding pop_free
  pop_listed n p ps r a k e =
      let (r', f, g, kept) = retrieve_fixed_chunk-available p ps r a k e in
      record { chunk = p; next = r'; state = a; result = f; promised = rw (e, g) refl; kept = kept }

  retrieve-allocate :
      (n : ℕ) (r : FixedReserve) (a : A)
      → IsReserve r
      → available r ≡ []
      → r.alloc_size ≡ n
      → retrieve_fixed_chunk malloc r a ≡ hand_out malloc (allocate_block malloc n r a)
  unfolding retrieve_fixed_chunk available
  retrieve-allocate n r a k e m =
      let full : leb r.current_size r.current_loc ≡ true =
        let l = drop-nil r.current_loc r.data_ e in ground (arith, k.size_eq) in
      ap (hand_out malloc) (if_so _ _ _ full ∙ ap (λ z. allocate_block malloc z r a) m)

  pop_new :
      (n : ℕ) (r : FixedReserve) (a : A)
      → IsReserve r
      → available r ≡ []
      → r.alloc_size ≡ suc n
      → Pops (suc n) r a
  unfolding pop_free mallocs available
  pop_new n r a k e m =
      let (f, g, kept) = allocate_block-available (suc n) r a k e in
      let b = allocate_block malloc (suc n) r a in
      let (p, a') = malloc r.chunk a in
      let (get, rest, l) = get-drop b.0.current_loc p b.0.data_ (mallocs r.chunk n a').0 f in
      record {
        chunk = p;
        next = record b.0 { current_loc = suc b.0.current_loc };
        state = b.1;
        result = retrieve-allocate (suc n) r a k e m ∙ ap (handed malloc b) get;
        promised = rw (e, rest, g) refl;
        kept = record { size_eq = kept.size_eq; in_range = omega (arith, kept.size_eq) };
      }

  pop_either :
      (n : ℕ) (r : FixedReserve) (a : A) (free : List ℕ)
      → available r ≡ free
      → IsReserve r
      → r.alloc_size ≡ suc n
      → Pops (suc n) r a
  pop_either n r a [] e k m = pop_new n r a k e m
  pop_either n r a (p ∷ ps) e k m = pop_listed (suc n) p ps r a k e

  -- A reserve is a stack of free chunks that fills up by itself: `retrieveFixedChunk` takes the first
  -- free chunk, and only if there is none a block of new ones from `malloc`, as many as the reserve
  -- was made for, of which it takes the first and keeps the others. The vector has the size that is
  -- noted, the place is in it or at its end, and the size of a block is not 0.
  pub retrieve_fixed_chunk-pop_free :
      (n : ℕ) (r : FixedReserve) (a : A)
      → IsReserve r
      → r.alloc_size ≡ suc n
      → (p : ℕ) × (r' : FixedReserve) × (a' : A) × (retrieve_fixed_chunk malloc r a
          ≡ some (p, (r', a')))
        × (pop_free (suc n) r.chunk (available r) a ≡ some (p, (available r', a')))
        × IsReserve r'
  retrieve_fixed_chunk-pop_free n r a k m =
      let w = pop_either n r a (available r) refl k m in
      (w.chunk, w.next, w.state, w.result, w.promised, w.kept)

  -- The chunk that is given back is the next to be handed out, and the free chunks are then as they
  -- were before it was given back. The vector has the size that is noted, and a chunk is out.
  pub retrieve-return_fixed_chunk :
      (m i : ℕ) (r : FixedReserve) (a : A)
      → IsReserve r
      → r.current_loc ≡ suc i
      → (r' r'' : FixedReserve) × (return_fixed_chunk m r ≡ some r')
        × (retrieve_fixed_chunk malloc r' a ≡ some (m, (r'', a)))
        × (available r'' ≡ available r)
  retrieve-return_fixed_chunk m i r a k e =
      let (r', f, g, k') = return_fixed_chunk-available m i r k e in
      let (r'', f', g', k'') = retrieve_fixed_chunk-available m (available r) r' a k' g in
      (r', r'', f, f', g')
