-- ===== src/Sync/Queue/Sleep.antt =====
-- What SleepConditionVariableCS leaves and returns after its wait.
use clamav_win.Base.{NotIn, ℕ, ◌≡◌, ◌↔◌, refl, sym, true, Option, none, some, arith, update_ind}
use clamav_win.Sync.Queue.{
  Waiters, bucket, leave_queue, WaitResult, object, Slept, woken, sleep_end,
}
use clamav_win.Sync.Queue.Members.{NotIn-self-unlink, NotIn-bucket}
use clamav_win.Sync.Queue.Invariant.{Sound}

leave_queue-off :
    {s : Waiters}
    → Sound s
    → (i addr : ℕ) → (s.node i).address ≡ some addr
    → ((b : ℕ) → NotIn i ((leave_queue s i true (some addr)).queue b))
      × (((leave_queue s i true (some addr)).node i).address ≡ none)
unfolding leave_queue
leave_queue-off {s} inv i addr e = (
  update_ind (λ b. NotIn i) s.queue (bucket addr) _
      (NotIn-self-unlink i (s.queue (bucket addr)) (inv.distinct (bucket addr)))
      (λ b ne.
        NotIn-bucket s.node b i (bucket addr) (s.queue b) (λ q. ne (sym q)) (rw e refl)
          (inv.in_bucket b)),
  ground arith,
)

-- The end of a sleep of node `i`, whose address was `o`.
abbrev pub SleepEnds : Waiters → ℕ → WaitResult → Option ℕ → Waiters → Slept → Type 0
SleepEnds s i result none t res = (t ≡ s) × (res ≡ woken)
SleepEnds s i result (some addr) t res =
    ((b : ℕ) → NotIn i (t.queue b))
    × ((t.node i).address ≡ none)
    × ((res ≡ woken) ↔ (result ≡ object))

-- Where each queue holds a node once at most and only nodes of its own addresses: a thread that a
-- wake has taken off its queue returns TRUE from SleepConditionVariableCS, whatever
-- its wait gave, and changes no queue. A thread that is still queued leaves every queue and sets
-- its address to NULL, and returns TRUE just where its event was set.
pub sleep_end_lem :
    {s : Waiters}
    → Sound s
    → (i : ℕ) (result : WaitResult) (o : Option ℕ) → (s.node i).address ≡ o
    → SleepEnds s i result o (sleep_end s i result).0 (sleep_end s i result).1
unfolding sleep_end
sleep_end_lem {s} inv i result none e = rw e (ground arith, ground arith)
sleep_end_lem {s} inv i result (some addr) e =
    let (off, gone) = leave_queue-off inv i addr e in
    rw e (off, gone, ((λ h. ground arith), (λ h. ground arith)))
