-- ===== src/RunOnce/Threads.antt =====
-- Any number of threads in InitOnceExecuteOnce of src/legacy/shared/runonce.c on one INIT_ONCE, their
-- reads and compare-exchanges interleaved in any order.
use clamav_win.Base.{ℕ, ◌≡◌, Bool, true, false, not, Option, none, some, update}
use clamav_win.RunOnce.{
  Begun, pending, already, invalid_parameter, unsuccessful, Round, begin_round, complete_word,
  Ended, stored, complete_round,
}
use clamav_win.RunOnce.Chain.{assign}

-- Where a thread stands. `new` is the word that InitOnceComplete is to store, and `success` the context with
-- which pInitFn succeeded, none if it failed.
pub data Pc : Type 0 where
  idle : Pc
  begin : Pc  -- head of the loop of InitOnceBeginInitialize
  saw : (val : ℕ) → Pc  -- it has read `val`
  running : Pc  -- in pInitFn
  completing : (result : Bool) → (context : ℕ) → Pc  -- pInitFn has returned
  ready : (success : Option ℕ) → (new : ℕ) → Pc  -- head of the loop of InitOnceComplete
  saw_complete : (success : Option ℕ) → (new val : ℕ) → Pc
  finished : (success : Option ℕ) → (new : ℕ) → Pc  -- InitOnceComplete has succeeded
  returned : (context : ℕ) → Pc  -- it has found the initialization complete
  failed : Pc  -- InitOnceExecuteOnce returned FALSE after a call that failed

-- The word, the `next` variables by address, and the threads.
pub record Once : Type 0 where
  pub word : ℕ
  pub memory : ℕ → ℕ
  pub pc : ℕ → Pc

-- After a round of InitOnceBeginInitialize, and of InitOnceComplete.
unfoldable pub after_begin : Begun → Pc
after_begin pending = running
after_begin (already c) = returned c
after_begin Begun.again = begin
after_begin invalid_parameter = failed
after_begin unsuccessful = failed

unfoldable pub after_complete : (success : Option ℕ) → ℕ → Ended → Pc
after_complete success new (stored waiters) = finished success new
after_complete success new Ended.again = ready success new
after_complete success new _ = failed

unfoldable pub after_init : (success : Option ℕ) → Option ℕ → Pc
after_init success none = failed
after_init success (some new) = ready success new

-- What the return of pInitFn says.
abbrev pub success_of : (result : Bool) → (context : ℕ) → Option ℕ
success_of true context = some context
success_of false context = none

abbrev pub at : Once → ℕ → Pc → Once
at s i p = record s { pc = update s.pc i p }

-- `cell i` is the address of the variable `next` of thread `i`.
pub data Step (cell : ℕ → ℕ) (s : Once) (i : ℕ) : Once → Type 0 where
  call : s.pc i ≡ idle → Step cell s i (at s i begin)
  read : s.pc i ≡ begin → Step cell s i (at s i (saw s.word))
  try :
      {val : ℕ} {r : Round}
      → s.pc i ≡ saw val
      → begin_round false val s.word (cell i) ≡ r
      → Step cell s i (record {
        word = r.word;
        memory = assign s.memory (cell i) r.linked;
        pc = update s.pc i (after_begin r.result);
      })
  run :
      (result : Bool) (context : ℕ)
      → s.pc i ≡ running
      → Step cell s i (at s i (completing result context))
  conclude :
      {result : Bool} {context : ℕ}
      → s.pc i ≡ completing result context
      → Step cell s i (
          at s i
            (after_init (success_of result context) (complete_word (not result) false context)))
  reread :
      {success : Option ℕ} {new : ℕ}
      → s.pc i ≡ ready success new
      → Step cell s i (at s i (saw_complete success new s.word))
  store :
      {success : Option ℕ} {new val : ℕ} {r : Ended × ℕ}
      → s.pc i ≡ saw_complete success new val
      → complete_round false new val s.word ≡ r
      → Step cell s i (record s { word = r.1; pc = update s.pc i (after_complete success new r.0) })

-- InitOnceInitialize sets the word to NULL.
pub data Reach (cell : ℕ → ℕ) : Once → Type 0 where
  start : (memory : ℕ → ℕ) → Reach cell (record { word = 0; memory = memory; pc = λ _. idle })
  next : {s t : Once} → Reach cell s → (i : ℕ) → Step cell s i t → Reach cell t

-- The thread has been told to initialize and has not yet completed.
abbrev pub initialises : Pc → Bool
initialises running = true
initialises (completing result context) = true
initialises (ready success new) = true
initialises (saw_complete success new val) = true
initialises _ = false
