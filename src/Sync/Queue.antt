-- ===== src/Sync/Queue.antt =====
-- The wait queues of src/legacy/shared/synchapi.c: WakeByAddressSingle, WakeByAddressAll,
-- WaitOnAddress, SleepConditionVariableCS and WakeConditionVariable. The two arrays of queues are
-- used alike, so one type stands for both. A `futex_entry` or `condvar_entry` is a node in the
-- stack of its waiter; nodes are named by numbers.
pub mod Wake
pub mod First
pub mod Members
pub mod Invariant
pub mod Sleep
pub mod Calls
use clamav_win.Base.{
  ℕ, zero, suc, ◌+◌, ◌/◌, ◌%◌, Bool, true, false, not, ◌&&◌, ◌||◌, Option, none, some, List, [],
  ◌∷◌, ◌++◌, ltb, ◌==◌, if◌then◌else◌, update, ◌⊎◌, inl, inr,
}

-- A node's `address`, none if it is NULL, and its event.
pub record Node : Type 0 where
  pub address : Option ℕ
  pub event : ℕ

-- The queue of each bucket, the nodes, and the SetEvent calls so far, the oldest first.
pub record Waiters : Type 0 where
  pub queue : ℕ → List ℕ
  pub node : ℕ → Node
  pub signals : List ℕ

-- `get_futex_queue` and `get_condvar_queue`: the index of the queue of an address.
unfoldable pub bucket : ℕ → ℕ
bucket addr = addr / 16 % 256

abbrev pub is_at : ℕ → Option ℕ → Bool
is_at addr none = false
is_at addr (some a) = a == addr

abbrev pub waits_on : (ℕ → Node) → ℕ → ℕ → Bool
waits_on node addr i = is_at addr (node i).address

abbrev pub cleared : (ℕ → Node) → ℕ → ℕ → Node
cleared node i = update node i (record (node i) { address = none })

-- `list_remove`.
unfoldable pub unlink : ℕ → List ℕ → List ℕ
unlink i [] = []
unlink i (j ∷ rest) = if i == j then rest else j ∷ unlink i rest

-- The first node of the queue that waits on the address.
unfoldable pub first_waiter : (ℕ → Node) → ℕ → List ℕ → Option ℕ
first_waiter node addr [] = none
first_waiter node addr (i ∷ rest) =
    if waits_on node addr i then some i else first_waiter node addr rest

-- The loop body of WakeByAddressSingle, the removal and the SetEvent after it.
unfoldable pub wake_node : Waiters → ℕ → Option ℕ → Waiters
unfolding unlink
wake_node s addr none = s
wake_node s addr (some i) = record {
  queue = update s.queue (bucket addr) (unlink i (s.queue (bucket addr)));
  node = cleared s.node i;
  signals = s.signals ++ (s.node i).event ∷ [];
}

-- `WakeByAddressSingle`, and `WakeConditionVariable`, which calls SetEvent before it unlocks.
unfoldable pub wake_by_address_single : Waiters → ℕ → Waiters
unfolding wake_node first_waiter
wake_by_address_single s addr =
    if addr == 0 then s else wake_node s addr (first_waiter s.node addr (s.queue (bucket addr)))

abbrev pub max_events : ℕ
max_events = 256

-- What the loop of WakeByAddressAll leaves: the nodes, the queue, the events that were set at once
-- and those that were buffered.
pub record Woken : Type 0 where
  pub nodes : ℕ → Node
  pub kept : List ℕ
  pub direct : List ℕ
  pub buffered : List ℕ

abbrev pub push_event : ℕ → ℕ → Woken → Woken
push_event count event w =
    if ltb count max_events
    then record w { buffered = event ∷ w.buffered }
    else record w { direct = event ∷ w.direct }

-- The loop, with `count` events buffered so far.
unfoldable pub wake_loop : (ℕ → Node) → ℕ → ℕ → List ℕ → Woken
wake_loop node addr count [] = record { nodes = node; kept = []; direct = []; buffered = [] }
wake_loop node addr count (i ∷ rest) = elim (waits_on node addr i) [
  | true ↦
      push_event count (node i).event
        (wake_loop (cleared node i) addr (if ltb count max_events then count + 1 else count) rest)
  | false ↦ let w = wake_loop node addr count rest in record w { kept = i ∷ w.kept }
]

-- `WakeByAddressAll`.
unfoldable pub wake_by_address_all : Waiters → ℕ → Waiters
unfolding wake_loop
wake_by_address_all s addr =
    let w = wake_loop s.node addr 0 (s.queue (bucket addr)) in
    if addr == 0 then s else record {
      queue = update s.queue (bucket addr) w.kept;
      node = w.nodes;
      signals = (s.signals ++ w.direct) ++ w.buffered;
    }

-- A node joins the queue of an address, with an event of its own.
unfoldable pub enqueue : Waiters → (i addr event : ℕ) → Waiters
enqueue s i addr event = record s {
  queue = update s.queue (bucket addr) (s.queue (bucket addr) ++ i ∷ []);
  node = update s.node i (record { address = some addr; event = event });
}

-- The bytes of a value in memory, as `compare_addr` compares them.
unfoldable pub same_bytes : (ℕ → ℕ) → ℕ → ℕ → ℕ → Bool
same_bytes memory n addr cmp = elim n [
  | zero ↦ true
  | suc (k → rest) ↦ memory (addr + k) == memory (cmp + k) && rest
]

-- A size that WaitOnAddress accepts.
abbrev pub is_size : ℕ → Bool
is_size size = size == 1 || (size == 2 || (size == 4 || size == 8))

-- `compare_addr`.
unfoldable pub compare_addr : (ℕ → ℕ) → (addr cmp size : ℕ) → Bool
unfolding same_bytes
compare_addr memory addr cmp size = if is_size size then same_bytes memory size addr cmp else false

-- How the section of WaitOnAddress before the wait ends; the middle two return TRUE and FALSE.
pub data Queued : Type 0 where
  invalid_parameter : Queued
  value_differs : Queued
  no_event : Queued
  queued : Waiters → Queued

abbrev pub enqueue_with : Waiters → (i addr : ℕ) → Option ℕ → Queued
enqueue_with s i addr none = no_event
enqueue_with s i addr (some event) = queued (enqueue s i addr event)

-- WaitOnAddress until it waits; `event` is what CreateEvent returns.
unfoldable pub wait_begin :
    Waiters → (memory : ℕ → ℕ) → (i addr cmp size : ℕ) → (event : Option ℕ) → Queued
unfolding compare_addr
wait_begin s memory i addr cmp size event =
    if not (is_size size)
    then invalid_parameter
    else if not (compare_addr memory addr cmp size)
    then value_differs
    else enqueue_with s i addr event

pub data WaitResult : Type 0 where
  object timeout failed : WaitResult

abbrev pub is_timeout : WaitResult → Bool
is_timeout timeout = true
is_timeout _ = false

-- The removal of a node that nobody has woken; `clear` says whether its address is set to NULL.
unfoldable pub leave_queue : Waiters → (i : ℕ) → (clear : Bool) → Option ℕ → Waiters
unfolding unlink
leave_queue s i clear none = s
leave_queue s i clear (some addr) = record s {
  queue = update s.queue (bucket addr) (unlink i (s.queue (bucket addr)));
  node = if clear then cleared s.node i else s.node;
}

-- WaitOnAddress after the wait. The node is gone with the stack frame, and its address is left.
unfoldable pub wait_end : Waiters → ℕ → WaitResult → Waiters × Bool
unfolding leave_queue
wait_end s i result = (leave_queue s i false (s.node i).address, not (is_timeout result))

-- The result of SleepConditionVariableCS: TRUE, or FALSE with an error.
pub data Slept : Type 0 where
  woken : Slept
  timed_out : Slept
  wait_failed : Slept
  invalid_argument : Slept
  event_failed : Slept

-- SleepConditionVariableCS until it waits: the queue, with the caller's lock left, or its result.
unfoldable pub sleep_begin :
    Waiters → (i cond_var section : ℕ) → (event : Option ℕ) → Waiters ⊎ Slept
sleep_begin s i cond_var section event =
    if cond_var == 0 || section == 0
    then inr invalid_argument
    else elim event [ none ↦ inr event_failed | some e ↦ inl (enqueue s i cond_var e) ]

abbrev pub slept : (dequeued : Bool) → WaitResult → Slept
slept true result = woken
slept false object = woken
slept false timeout = timed_out
slept false failed = wait_failed

abbrev pub is_dequeued : Option ℕ → Bool
is_dequeued none = true
is_dequeued (some a) = false

-- SleepConditionVariableCS after the wait. A node that was taken off the queue has an event that is
-- or will be set, which is waited for.
unfoldable pub sleep_end : Waiters → ℕ → WaitResult → Waiters × Slept
unfolding leave_queue
sleep_end s i result =
    (leave_queue s i true (s.node i).address, slept (is_dequeued (s.node i).address) result)
