-- ===== src/Objects.antt =====
-- boost/stm/base_transaction.hpp: transactional objects in memory.
-- A cell without an object is free, or was never allocated. `next` is an address that the allocator
-- has not given out yet; addresses are not given out again.
use tboost_stm.Prelude.{ℕ, suc, ◌==◌, if◌then◌else◌, Option, none, some}

-- `kInvalidThread`
abbrev pub invalid_thread : ℕ
invalid_thread = 0xffffffff

-- `base_transaction_object`, with the value of the derived class.
pub record Object (V : Type 0) : Type 0 where
  pub value : V
  pub transaction_thread : ℕ
  pub new_memory : ℕ

pub record Heap (V : Type 0) : Type 0 where
  pub cell : ℕ → Option (Object V)
  pub next : ℕ

module _ {V : Type 0} where
  abbrev pub store : ℕ → Option (Object V) → Heap V → Heap V
  store a o h = record h { cell = λ j. if a == j then o else h.cell j }

  abbrev pub on_object : (Object V → Object V) → Option (Object V) → Option (Object V)
  on_object f none = none
  on_object f (some o) = some (f o)

  -- `obj->transaction_thread(rhs)`
  unfoldable pub set_transaction_thread : ℕ → ℕ → Heap V → Heap V
  set_transaction_thread rhs a h =
      store a (on_object (λ o. record o { transaction_thread = rhs }) (h.cell a)) h

  -- `obj->new_memory(rhs)`
  unfoldable pub set_new_memory : ℕ → ℕ → Heap V → Heap V
  set_new_memory rhs a h = store a (on_object (λ o. record o { new_memory = rhs }) (h.cell a)) h

  -- `obj->copy_state(rhs)`: the assignment operator of the derived class. The implicit one assigns
  -- the members of the base class too.
  unfoldable pub copy_state : ℕ → ℕ → Heap V → Heap V
  copy_state a rhs h = elim (h.cell rhs) [
    | none ↦ h
    | some o ↦ store a (on_object (λ _. o) (h.cell a)) h
  ]

  -- `delete obj`: the null pointer is left alone.
  unfoldable pub delete : ℕ → Heap V → Heap V
  delete a h = if a == 0 then h else store a none h

  -- `new T(in)`: the address of a copy, in a cell of its own.
  unfoldable pub new_copy : ℕ → Heap V → ℕ × Heap V
  new_copy a h = (h.next, record (store h.next (h.cell a) h) { next = suc h.next })

  -- `new T(value)`; the constructor of the base class sets the other two members.
  unfoldable pub new_object : V → Heap V → ℕ × Heap V
  new_object v h = (
    h.next,
    record (store h.next
        (some (record { value = v; transaction_thread = invalid_thread; new_memory = 0 })) h) {
          next = suc h.next;
        },
  )

  -- `in.transaction_thread()`; an address with no object is an error of the caller.
  abbrev pub thread_of : Option (Object V) → ℕ
  thread_of none = invalid_thread
  thread_of (some o) = o.transaction_thread

  abbrev pub transaction_thread_at : Heap V → ℕ → ℕ
  transaction_thread_at h a = thread_of (h.cell a)

  -- The client's assignment through the reference that `write` returns.
  unfoldable pub assign : ℕ → V → Heap V → Heap V
  assign a v h = store a (on_object (λ o. record o { value = v }) (h.cell a)) h
