-- ===== src/MemoryPool.antt =====
-- boost/stm/detail/memory_pool.hpp: chunks of memory of one size that are handed out and given back,
-- and a pool of them for each size. `malloc` is a parameter, on a state of its own; an address is a
-- number. A size is that of a vector in memory, so that no sum wraps around.
pub mod Stack
use tboost_stm.Prelude.{
  ℕ, zero, suc, ◌+◌, ◌-◌, ltb, leb, ◌==◌, if◌then◌else◌, List, [], ◌∷◌, Option, none, some, length,
  get_elem?,
}
use tboost_stm.VectorMap

-- `FixedReserve<T>`
pub record FixedReserve : Type 0 where
  pub alloc_size : ℕ
  pub current_loc : ℕ
  pub current_size : ℕ
  pub chunk : ℕ
  pub data_ : List ℕ

-- `data_[i].object_ = p`; an index out of range is an error of the caller.
unfoldable pub set_at : ℕ → ℕ → List ℕ → List ℕ
set_at i p [] = []
set_at zero p (x ∷ xs) = p ∷ xs
set_at (suc i) p (x ∷ xs) = x ∷ set_at i p xs

-- `data_.resize(n)`, with null pointers in the new elements
unfoldable pub resize : ℕ → List ℕ → List ℕ
resize zero xs = []
resize (suc n) [] = 0 ∷ resize n []
resize (suc n) (x ∷ xs) = x ∷ resize n xs

-- The loop of `freeAllocatedMem` from the index `i` on: the addresses that it frees.
unfoldable pub free_loop : ℕ → ℕ → List ℕ → List ℕ
free_loop zero i d = []
free_loop (suc n) i d =
    let rest = free_loop n (suc i) d in elim (get_elem? d i) [ none ↦ [] | some p ↦ p ∷ rest ]

-- `freeAllocatedMem`, which the destructor calls
unfoldable pub free_allocated_mem : FixedReserve → List ℕ
unfolding free_loop
free_allocated_mem r = free_loop (r.current_size - r.current_loc) r.current_loc r.data_

-- `returnFixedChunk`; `none` where it would write in front of the vector.
unfoldable pub return_fixed_chunk : ℕ → FixedReserve → Option FixedReserve
unfolding set_at
return_fixed_chunk mem r = elim r.current_loc [
  | zero ↦ none
  | suc i ↦ some (record r { current_loc = i; data_ = set_at i mem r.data_ })
]

module _ {A : Type 0} (malloc : ℕ → A → ℕ × A) where
  -- The loop of `allocateBlock`, from the index `i` on.
  unfoldable pub fill : ℕ → ℕ → ℕ → List ℕ → A → List ℕ × A
  unfolding set_at
  fill chunk zero i d a = (d, a)
  fill chunk (suc n) i d a = let (p, a') = malloc chunk a in fill chunk n (suc i) (set_at i p d) a'

  -- `allocateBlock`
  unfoldable pub allocate_block : ℕ → FixedReserve → A → FixedReserve × A
  unfolding fill resize
  allocate_block amount r a =
      let size = r.current_size + amount in
      let (d, a') = fill r.chunk (size - r.current_loc) r.current_loc (resize size r.data_) a in
      (record r { current_size = size; data_ = d }, a')

  -- The constructor; `none` where it throws.
  unfoldable pub new_reserve : ℕ → ℕ → A → Option (FixedReserve × A)
  unfolding allocate_block
  new_reserve amount size a =
      let r : FixedReserve = record {
        alloc_size = amount;
        current_loc = 0;
        current_size = 0;
        chunk = size;
        data_ = [];
      } in
      if ltb amount 1 then none else some (allocate_block amount r a)

  abbrev pub handed : FixedReserve × A → Option ℕ → Option (ℕ × (FixedReserve × A))
  handed (r, a) none = none
  handed (r, a) (some p) = some (p, (record r { current_loc = suc r.current_loc }, a))

  abbrev pub hand_out : FixedReserve × A → Option (ℕ × (FixedReserve × A))
  hand_out (r, a) = handed (r, a) (get_elem? r.data_ r.current_loc)

  -- `retrieveFixedChunk`; `none` where it would read outside the vector.
  unfoldable pub retrieve_fixed_chunk : FixedReserve → A → Option (ℕ × (FixedReserve × A))
  unfolding allocate_block
  retrieve_fixed_chunk r a =
      hand_out
        (if leb r.current_size r.current_loc then allocate_block r.alloc_size r a else (r, a))

-- `MemoryPool<T>`. The map holds the reserve itself, which nothing else points to.
pub record MemoryPool : Type 0 where
  pub mem : List (ℕ × FixedReserve)
  pub alloc_size : ℕ

-- The constructors.
abbrev pub k_default_alloc_size : ℕ
k_default_alloc_size = 512

abbrev pub default_pool : MemoryPool
default_pool = record { mem = []; alloc_size = k_default_alloc_size }

abbrev pub new_pool : ℕ → MemoryPool
new_pool amount = record { mem = []; alloc_size = amount }

-- `alloc_size`
abbrev pub set_alloc_size : ℕ → MemoryPool → MemoryPool
set_alloc_size amount p = record p { alloc_size = amount }

-- The reserve at an index changes.
unfoldable pub set_second : ℕ → FixedReserve → List (ℕ × FixedReserve) → List (ℕ × FixedReserve)
set_second i r [] = []
set_second zero r ((k, x) ∷ m) = (k, r) ∷ m
set_second (suc i) r ((k, x) ∷ m) = (k, x) ∷ set_second i r m

-- `~MemoryPool`: the addresses that the reserves free.
unfoldable pub destroy_pool : List (ℕ × FixedReserve) → List (List ℕ)
unfolding free_allocated_mem
destroy_pool [] = []
destroy_pool ((k, r) ∷ m) = free_allocated_mem r ∷ destroy_pool m

-- `returnChunk`; `none` where the pool has no reserve of the size.
unfoldable pub return_chunk : ℕ → ℕ → MemoryPool → Option MemoryPool
unfolding return_fixed_chunk set_second
return_chunk m size p =
    let i = VectorMap.find size p.mem in
    elim (VectorMap.second p.mem i) [
      | none ↦ none
      | some r ↦ elim (return_fixed_chunk m r) [
        | none ↦ none
        | some r' ↦ some (record p { mem = set_second i r' p.mem })
      ]
    ]

module _ {A : Type 0} (malloc : ℕ → A → ℕ × A) where
  abbrev stored : ℕ → MemoryPool → Option (ℕ × (FixedReserve × A)) → Option (ℕ × (MemoryPool × A))
  unfolding set_second
  stored i p none = none
  stored i p (some (c, (r, a))) = some (c, (record p { mem = set_second i r p.mem }, a))

  abbrev pub retrieve_at : ℕ → MemoryPool → A → Option (ℕ × (MemoryPool × A))
  unfolding retrieve_fixed_chunk set_second
  retrieve_at i p a = elim (VectorMap.second p.mem i) [
    | none ↦ none
    | some r ↦ stored i p (retrieve_fixed_chunk malloc r a)
  ]

  abbrev inserted : ℕ → MemoryPool → Option (FixedReserve × A) → Option (ℕ × (MemoryPool × A))
  unfolding retrieve_fixed_chunk set_second
  inserted size p none = none
  inserted size p (some (r, a)) = elim (VectorMap.insert (size, r) p.mem) [
    | none ↦ none
    | some (i, m) ↦ retrieve_at i (record p { mem = m }) a
  ]

  -- `retrieveChunk`
  unfoldable pub retrieve_chunk : ℕ → MemoryPool → A → Option (ℕ × (MemoryPool × A))
  unfolding new_reserve retrieve_fixed_chunk set_second
  retrieve_chunk size p a =
      let i = VectorMap.find size p.mem in
      if i == length p.mem
      then inserted size p (new_reserve malloc p.alloc_size size a)
      else retrieve_at i p a
