-- ===== src/Fls/Spec.antt =====
-- What fiber-local storage promises, with no lists and no blocks, and how the state of
-- src/legacy/shared/fibersapi.c is read as such.
use clamav_win.Base.{
  ℕ, ◌≡◌, ◌≢◌, true, ◌&&◌, ◌==◌, if◌then◌else◌, is_in, Distinct, Option, none, some, List, [], ◌∷◌,
  ◌++◌, ◌⊎◌, inl, inr,
}
use clamav_win.Fls.{
  Pthread, Fls, Key, Value, Error, Outcome, returned_true, returned_false, call, fls_find_key,
  fls_alloc, fls_set_value, fls_free, thread_ends,
}
use clamav_win.Fls.Sound.{FreshBlock}

-- The callback of each index that is in use, 0 for NULL; the pointer of each index and thread, 0
-- where none is stored; the calls of callbacks so far.
pub record Spec : Type 0 where
  pub callback_of : ℕ → Option ℕ
  pub pointer : (index thread : ℕ) → ℕ
  pub calls : List (ℕ × ℕ)

abbrev pub Same : Spec → Spec → Type 0
Same a b =
    ((i : ℕ) → b.callback_of i ≡ a.callback_of i)
    × ((i t : ℕ) → b.pointer i t ≡ a.pointer i t)
    × (b.calls ≡ a.calls)

-- One pointer is stored and nothing else changes.
abbrev pub Stored : (i t d : ℕ) → Spec → Spec → Type 0
Stored i t d a b =
    ((j : ℕ) → b.callback_of j ≡ a.callback_of j)
    × ((j u : ℕ) → b.pointer j u ≡ (if i == j && t == u then d else a.pointer j u))
    × (b.calls ≡ a.calls)

-- The calls of a callback for the pointers of some threads.
abbrev pub calls_for : (callback : ℕ) → (pointer : ℕ → ℕ) → List ℕ → List (ℕ × ℕ)
calls_for callback pointer [] = []
calls_for callback pointer (t ∷ rest) = call callback (pointer t) ++ calls_for callback pointer rest

-- An operation with its result.
pub data Event : Type 0 where
  allocates : (callback : ℕ) → Error ⊎ ℕ → Event
  sets : (thread index pointer : ℕ) → Outcome → Event
  frees : (index : ℕ) → Outcome → Event
  ends : (thread index : ℕ) → Event

-- What an operation does, by its result. A new index was not in use and has no pointers. TRUE from
-- FlsSetValue: the pointer is stored, NULL included; FALSE: nothing is stored, or the pointer is
-- stored over another one. TRUE from FlsFree: the callback is called once for each thread that
-- has a pointer, in some order, and the index is gone. A thread that ends has its own pointer passed
-- to the callback.
abbrev pub Obeys : Event → Spec → Spec → Type 0
Obeys (allocates callback (inl error)) a b = Same a b
Obeys (allocates callback (inr i)) a b =
    (a.callback_of i ≡ none)
    × ((j : ℕ) → b.callback_of j ≡ (if i == j then some callback else a.callback_of j))
    × ((j t : ℕ) → b.pointer j t ≡ (if i == j then 0 else a.pointer j t))
    × (b.calls ≡ a.calls)
Obeys (sets t i d returned_true) a b = (a.callback_of i ≢ none) × Stored i t d a b
Obeys (sets t i d (returned_false error)) a b = Same a b ⊎ ((a.pointer i t ≢ 0) × Stored i t d a b)
Obeys (frees i returned_true) a b =
    (callback : ℕ) × (threads : List ℕ) × (a.callback_of i ≡ some callback)
    × Distinct threads
    × ((t : ℕ) → a.pointer i t ≢ 0 → is_in t threads ≡ true)
    × ((j : ℕ) → b.callback_of j ≡ (if i == j then none else a.callback_of j))
    × ((j t : ℕ) → b.pointer j t ≡ (if i == j then 0 else a.pointer j t))
    × (b.calls ≡ a.calls ++ calls_for callback (a.pointer i) threads)
Obeys (frees i (returned_false error)) a b = Same a b
Obeys (ends t i) a b =
    (callback : ℕ) × (a.callback_of i ≡ some callback)
    × ((j : ℕ) → b.callback_of j ≡ a.callback_of j)
    × ((j u : ℕ) → b.pointer j u ≡ (if i == j && t == u then 0 else a.pointer j u))
    × (b.calls ≡ a.calls ++ call callback (a.pointer i t))

-- Runs of the specification, the last event first.
pub data SpecRun : Spec → List Event → Type 0 where
  start :
      {a : Spec}
      → ((i : ℕ) → a.callback_of i ≡ none)
      → ((i t : ℕ) → a.pointer i t ≡ 0)
      → a.calls ≡ []
      → SpecRun a []
  next :
      {a b : Spec} {events : List Event} {e : Event}
      → SpecRun a events
      → Obeys e a b
      → SpecRun b (e ∷ events)

-- The pointer in a block, 0 for none.
abbrev pub pointer_in : (ℕ → Value) → ℕ → ℕ
pointer_in value v = if v == 0 then 0 else (value v).value

abbrev pub callback_at : (ℕ → Key) → Option ℕ → Option ℕ
callback_at key none = none
callback_at key (some k) = some (key k).callback

abbrev pub pointer_at : (ℕ → Value) → Option ℕ → (v : ℕ) → ℕ
pointer_at value none v = 0
pointer_at value (some k) v = pointer_in value v

module _ {T : Type 0} (p : Pthread T) where
  abbrev pub view : Fls T → Spec
  view s = record {
    callback_of = λ i. callback_at s.key (fls_find_key s.key s.keys i);
    pointer = λ i t. pointer_at s.value (fls_find_key s.key s.keys i) (p.getspecific s.tls i t);
    calls = s.called;
  }

  -- One call, or the end of a thread with its value of a key of ours.
  pub data Step (s : Fls T) : Event → Fls T → Type 0 where
    calls_alloc :
        (callback : ℕ) (block : Option ℕ)
        → FreshBlock s block
        → Step s
            (allocates callback (fls_alloc p s callback block).1)
            (fls_alloc p s callback block).0
    calls_set :
        (thread index pointer : ℕ) (block : Option ℕ)
        → FreshBlock s block
        → Step s
            (sets thread index pointer (fls_set_value p s thread index pointer block).1)
            (fls_set_value p s thread index pointer block).0
    calls_free : (index : ℕ) → Step s (frees index (fls_free p s index).1) (fls_free p s index).0
    thread_stops :
        (thread index k : ℕ)
        → fls_find_key s.key s.keys index ≡ some k
        → Step s (ends thread index) (thread_ends p s thread index)

  -- Runs of the code from a start with no keys, the last event first.
  pub data Run : Fls T → List Event → Type 0 where
    start : {s : Fls T} → s.keys ≡ [] → s.called ≡ [] → Run s []
    next :
        {s t : Fls T} {events : List Event} {e : Event}
        → Run s events
        → Step s e t
        → Run t (e ∷ events)
