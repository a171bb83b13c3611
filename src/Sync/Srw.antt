-- ===== src/Sync/Srw.antt =====
-- `AcquireSRWLockExclusive` and `ReleaseSRWLockExclusive` of src/legacy/shared/synchapi.c, for any
-- number of threads on one lock. Each interlocked operation is one step, and so is each section of
-- WaitOnAddress and WakeByAddressSingle under the queue's spin lock. The timeout is INFINITE, so a
-- parked thread moves only when it is woken.
pub mod Exclusion
pub mod Races
use clamav_win.Base.{ℕ, ◌≡◌, ◌≢◌, Bool, true, false, List, [], ◌∷◌, ◌++◌, update}

-- Where a thread stands.
pub data Pc : Type 0 where
  idle : Pc  -- outside both functions, without the lock
  enter : Pc  -- head of the loop, before the first compare-exchange
  saw : (state : ℕ) → Pc  -- the first compare-exchange returned `state`, neither 0 nor 2
  waiting : Pc  -- before the section of WaitOnAddress that compares and queues
  parked : Pc  -- queued, in WaitForSingleObject
  owner : Pc  -- AcquireSRWLockExclusive has returned
  waking : Pc  -- before WakeByAddressSingle

-- `SRWLock->Ptr`, the queue of its address, oldest waiter first, and the threads.
pub record Lock : Type 0 where
  pub word : ℕ
  pub queue : List ℕ
  pub pc : ℕ → Pc

abbrev pub at : Lock → ℕ → Pc → Lock
at s i p = record s { pc = update s.pc i p }

abbrev pub put : Lock → ℕ → ℕ → Pc → Lock
put s w i p = record s { word = w; pc = update s.pc i p }

-- A step of thread `i`. The index says whether it is the return after the second compare-exchange.
pub data Step (s : Lock) (i : ℕ) : Bool → Lock → Type 0 where
  call : s.pc i ≡ idle → Step s i false (at s i enter)
  take : s.pc i ≡ enter → s.word ≡ 0 → Step s i false (put s 1 i owner)
  taken : s.pc i ≡ enter → s.word ≢ 0 → s.word ≢ 2 → Step s i false (at s i (saw s.word))
  contended : s.pc i ≡ enter → s.word ≡ 2 → Step s i false (at s i waiting)
  mark : {t : ℕ} → s.pc i ≡ saw t → s.word ≡ t → Step s i false (put s 2 i waiting)
  mark_lost : {t : ℕ} → s.pc i ≡ saw t → s.word ≢ t → s.word ≢ 0 → Step s i false (at s i waiting)
  -- The second compare-exchange returned NULL, and stored nothing.
  mark_free : {t : ℕ} → s.pc i ≡ saw t → s.word ≢ t → s.word ≡ 0 → Step s i true (at s i owner)
  changed : s.pc i ≡ waiting → s.word ≢ 2 → Step s i false (at s i enter)
  park :
      s.pc i ≡ waiting
      → s.word ≡ 2
      → Step s i false (record s { queue = s.queue ++ i ∷ []; pc = update s.pc i parked })
  -- WaitOnAddress returns because CreateEvent fails.
  no_event : s.pc i ≡ waiting → s.word ≡ 2 → Step s i false (at s i enter)
  release : s.pc i ≡ owner → s.word ≢ 2 → Step s i false (put s 0 i idle)
  release_contended : s.pc i ≡ owner → s.word ≡ 2 → Step s i false (put s 0 i waking)
  wake_none : s.pc i ≡ waking → s.queue ≡ [] → Step s i false (at s i idle)
  wake :
      {j : ℕ} {rest : List ℕ}
      → s.pc i ≡ waking
      → s.queue ≡ j ∷ rest
      → Step s i false (record s { queue = rest; pc = update (update s.pc j enter) i idle })

-- A lock that nobody has used.
abbrev pub fresh : Lock
fresh = record { word = 0; queue = []; pc = λ _. idle }

pub data Reach : Lock → Type 0 where
  start : Reach fresh
  next : {s t : Lock} {b : Bool} → Reach s → (i : ℕ) → Step s i b t → Reach t

-- Runs in which no thread returns after the second compare-exchange.
pub data CleanReach : Lock → Type 0 where
  start : CleanReach fresh
  next : {s t : Lock} → CleanReach s → (i : ℕ) → Step s i false t → CleanReach t
