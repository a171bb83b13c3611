-- ===== src/Fls.antt =====
-- src/legacy/shared/fibersapi.c: fiber-local storage on top of pthread keys. A `struct fls_key` or
-- `fls_value` is a block named by its address; the lists that their `next` fields link are lists of
-- addresses. Calls do not overlap, so the spin lock is left out.
pub mod Lists
pub mod Sound
pub mod Keep
pub mod Grow
pub mod NewKey
pub mod Spec
pub mod View
pub mod New
pub mod Freed
pub mod Free
pub mod Ends
pub mod Alloc
pub mod Refine
mod Tests
pub mod Set
pub mod Old
use clamav_win.Base.{
  ℕ, Bool, true, false, Option, none, some, List, [], ◌∷◌, ◌++◌, ◌==◌, if◌then◌else◌, update, ◌⊎◌,
  inl, inr, ◌||◌,
}

-- The calls of pthreads on a state `T` of theirs: a result, 0 for success, the key where one is made,
-- and the new state. `exits` is what a thread that ends does to its value of a key before it
-- calls the destructor.
pub record Pthread (T : Type 0) : Type 0 where
  pub enomem : ℕ
  pub create : T → (ℕ × ℕ) × T
  pub getspecific : T → (index thread : ℕ) → ℕ
  pub setspecific : T → (index thread value : ℕ) → ℕ × T
  pub delete : T → (index : ℕ) → ℕ × T
  pub exits : T → (index thread : ℕ) → T

-- `struct fls_value` without `next`.
pub record Value : Type 0 where
  pub owner : ℕ
  pub value : ℕ

-- `struct fls_key` without `next` and `values`; the callback is 0 for NULL.
pub record Key : Type 0 where
  pub index : ℕ
  pub callback : ℕ

-- The list `fls_keys`, the blocks, the list of the values of each key, the blocks that are
-- allocated, the state of pthreads, and the calls of callbacks so far with their arguments.
pub record Fls (T : Type 0) : Type 0 where
  pub keys : List ℕ
  pub key : ℕ → Key
  pub values : ℕ → List ℕ
  pub value : ℕ → Value
  pub heap : ℕ → Bool
  pub tls : T
  pub called : List (ℕ × ℕ)

pub data Error : Type 0 where
  not_enough_memory invalid_parameter : Error

-- What a BOOL function returns, with the last error where that is FALSE.
pub data Outcome : Type 0 where
  returned_true : Outcome
  returned_false : Error → Outcome

-- `fls_find_key`: the block of a key.
unfoldable pub fls_find_key : (ℕ → Key) → List ℕ → ℕ → Option ℕ
fls_find_key key [] index = none
fls_find_key key (k ∷ rest) index =
    if (key k).index == index then some k else fls_find_key key rest index

-- The list without the first place that holds `x`.
unfoldable pub remove : ℕ → List ℕ → List ℕ
remove x [] = []
remove x (y ∷ rest) = if y == x then rest else y ∷ remove x rest

-- The callback with its argument, unless either is NULL.
abbrev pub call : (callback argument : ℕ) → List (ℕ × ℕ)
call callback argument = if callback == 0 || argument == 0 then [] else (callback, argument) ∷ []

module _ {T : Type 0} where
  unfoldable pub fls_unlink_value : Fls T → ℕ → Fls T
  unfolding remove
  fls_unlink_value s v =
      let k = (s.value v).owner in record s { values = update s.values k (remove v (s.values k)) }

  abbrev pub heap_free : Fls T → ℕ → Fls T
  heap_free s block = record s { heap = update s.heap block false }

  -- `fls_destroy_value`, the destructor of every key.
  unfoldable pub fls_destroy_value : Fls T → ℕ → Fls T
  unfolding fls_unlink_value
  fls_destroy_value s v =
      let t = heap_free (fls_unlink_value s v) v in
      let k = (s.value v).owner in
      if v == 0
      then s
      else record t { called = t.called ++ call (s.key k).callback (s.value v).value }

  -- The loop of FlsFree over the values of a key.
  unfoldable pub free_values : Fls T → (callback : ℕ) → List ℕ → Fls T
  free_values s callback [] = s
  free_values s callback (v ∷ rest) =
      free_values
        (record s {
          called = s.called ++ call callback (s.value v).value;
          heap = update s.heap v false;
        })
        callback rest

module _ {T : Type 0} (p : Pthread T) where
  abbrev pub error_of : ℕ → Error
  error_of result = if result == p.enomem then not_enough_memory else invalid_parameter

  -- `FlsAlloc`: an error, or the index. `block` is what HeapAlloc returns.
  unfoldable pub fls_alloc : Fls T → (callback : ℕ) → (block : Option ℕ) → Fls T × (Error ⊎ ℕ)
  fls_alloc s callback none = (s, inl not_enough_memory)
  fls_alloc s callback (some k) =
      let ((result, index), tls) = p.create s.tls in
      if result == 0
      then (
        record s {
          keys = k ∷ s.keys;
          key = update s.key k (record { index = index; callback = callback });
          values = update s.values k [];
          heap = update s.heap k true;
          tls = tls;
        },
        inr index,
      )
      else (record s { tls = tls }, inl (error_of result))

  -- FlsSetValue with NULL data, once the key is found; `v` is the value of the thread.
  unfoldable pub set_null : Fls T → (k thread v : ℕ) → Fls T × Outcome
  unfolding fls_unlink_value
  set_null s k thread v =
      let (result, tls) = p.setspecific s.tls (s.key k).index thread 0 in
      let t = record s { tls = tls } in
      if v == 0
      then (s, returned_true)
      else if result == 0
      then (heap_free (fls_unlink_value t v) v, returned_true)
      else (t, returned_false (error_of result))

  -- FlsSetValue where the thread has no value yet.
  unfoldable pub set_new : Fls T → (k thread pointer : ℕ) → Option ℕ → Fls T × Outcome
  unfolding fls_unlink_value
  set_new s k thread pointer none = (s, returned_false not_enough_memory)
  set_new s k thread pointer (some v) =
      let (result, tls) = p.setspecific s.tls (s.key k).index thread v in
      let t = record s {
        value = update s.value v (record { owner = k; value = pointer });
        values = update s.values k (v ∷ s.values k);
        heap = update s.heap v true;
        tls = tls;
      } in
      if result == 0
      then (t, returned_true)
      else (heap_free (fls_unlink_value t v) v, returned_false (error_of result))

  -- FlsSetValue where it has one.
  unfoldable pub set_old : Fls T → (k thread pointer v : ℕ) → Fls T × Outcome
  set_old s k thread pointer v =
      let (result, tls) = p.setspecific s.tls (s.key k).index thread v in
      let t = record s {
        value = update s.value v (record (s.value v) { value = pointer });
        tls = tls;
      } in
      (t, if result == 0 then returned_true else returned_false (error_of result))

  unfoldable pub set_found : Fls T → (k thread pointer : ℕ) → Option ℕ → Fls T × Outcome
  unfolding set_null set_new set_old
  set_found s k thread pointer block =
      let v = p.getspecific s.tls (s.key k).index thread in
      if pointer == 0
      then set_null s k thread v
      else if v == 0
      then set_new s k thread pointer block
      else set_old s k thread pointer v

  -- `FlsSetValue` in a thread; `block` is what HeapAlloc returns if it is called.
  unfoldable pub fls_set_value :
      Fls T → (thread index pointer : ℕ) → (block : Option ℕ) → Fls T × Outcome
  unfolding fls_find_key set_found
  fls_set_value s thread index pointer block = elim (fls_find_key s.key s.keys index) [
    | none ↦ (s, returned_false invalid_parameter)
    | some k ↦ set_found s k thread pointer block
  ]

  -- FlsFree once the key is found and unlinked.
  unfoldable pub free_found : Fls T → (k : ℕ) → Fls T × Outcome
  unfolding free_values remove
  free_found s k =
      let (result, tls) = p.delete s.tls (s.key k).index in
      let rest = remove k s.keys in
      if result == 0
      then (
        heap_free
            (free_values (record s { keys = rest; tls = tls }) (s.key k).callback (s.values k)) k,
        returned_true,
      )
      else (record s { keys = k ∷ rest; tls = tls }, returned_false invalid_parameter)

  -- `FlsFree`.
  unfoldable pub fls_free : Fls T → (index : ℕ) → Fls T × Outcome
  unfolding fls_find_key free_found
  fls_free s index = elim (fls_find_key s.key s.keys index) [
    | none ↦ (s, returned_false invalid_parameter)
    | some k ↦ free_found s k
  ]

  -- A thread that ends gives its value of a key to the destructor, if it has one.
  unfoldable pub thread_ends : Fls T → (thread index : ℕ) → Fls T
  unfolding fls_destroy_value
  thread_ends s thread index =
      fls_destroy_value (record s { tls = p.exits s.tls index thread })
        (p.getspecific s.tls index thread)

-- `IsThreadAFiber`, by the field of the thread's block.
unfoldable pub is_thread_a_fiber : (fiber_data : ℕ) → Bool
is_thread_a_fiber fiber_data = if fiber_data == 0 then false else true
