-- ===== src/Sync/Tests.antt =====
-- Instances of the theorems on src/legacy/shared/synchapi.c.
use clamav_win.Base.{
  is_in, Distinct, ℕ, update, true, false, ◌≡◌, ◌≢◌, ◌&&◌, ◌==◌, if◌then◌else◌, refl, Option, none,
  some, [], ◌++◌, arith, take, drop,
}
use clamav_win.Sync.Srw.{
  idle, parked, owner, Lock, at, put, enter, fresh, call, take as takes, CleanReach, start, next,
  Reach,
}
use clamav_win.Sync.Srw.Exclusion.{mutual_exclusion}
use clamav_win.Sync.Srw.Races.{two_owners, lost_wakeup}
use clamav_win.Sync.Queue.{
  Waiters, bucket, waits_on, max_events, wake_by_address_all, wake_by_address_single, object,
  sleep_end, enqueue, wait_begin, queued, compare_addr, same_bytes,
}
use clamav_win.Sync.Queue.Wake.{waiting, others, events, woken_node, wake_by_address_all_lem}
use clamav_win.Sync.Queue.First.{WakesFirst, wake_by_address_single_lem}
use clamav_win.Sync.Queue.Calls as Calls
use clamav_win.Sync.Queue.Sleep.{SleepEnds, sleep_end_lem}

-- Thread 0 owns the lock.
abbrev owned : Lock
owned = put (at fresh 0 enter) 1 0 owner

owned-CleanReach : CleanReach owned
owned-CleanReach = next (next start 0 (call refl)) 0 (takes refl refl)

mutual_exclusion_example : (◌≡◌ {A = ℕ} 0 0) × (owned.word ≢ 0)
mutual_exclusion_example = mutual_exclusion {s = owned} owned-CleanReach 0 0 refl refl

two_owners_example : (s : Lock) × Reach s × (s.pc 1 ≡ owner) × (s.pc 2 ≡ owner)
two_owners_example = two_owners 0 1 2 (omega arith) (omega arith) (omega arith)

lost_wakeup_example :
    (s : Lock) × Reach s × (s.word ≡ 0) × ((m : ℕ) → s.pc m ≡ (if m == 2 then parked else idle))
lost_wakeup_example = lost_wakeup 0 1 2 (omega arith) (omega arith) (omega arith)

-- Node 0 waits on the address 32 with the event 7.
abbrev unused : Waiters
unused = record { queue = λ _. []; node = λ _. record { address = none; event = 0 }; signals = [] }

abbrev one_waits : Waiters
one_waits = enqueue unused 0 32 7

one_waits-Distinct : Distinct (one_waits.queue (bucket 32))
unfolding enqueue bucket
one_waits-Distinct = (tt, tt)

wake_by_address_all_example :
    let ids = one_waits.queue (bucket 32) in
    let expected = events one_waits.node (waiting one_waits.node 32 ids) in
    let t = wake_by_address_all one_waits 32 in
    (t.signals ≡ (one_waits.signals ++ drop max_events expected) ++ take max_events expected)
    × ((j : ℕ)
        → t.node j ≡ (
            if is_in j ids && waits_on one_waits.node 32 j
            then woken_node (one_waits.node j)
            else one_waits.node j))
    × ((b : ℕ)
        → t.queue b ≡ (if bucket 32 == b then others one_waits.node 32 ids else one_waits.queue b))
wake_by_address_all_example = wake_by_address_all_lem one_waits 32 (omega arith) one_waits-Distinct

wake_by_address_single_example :
    (o : Option ℕ) × WakesFirst one_waits 32 o (wake_by_address_single one_waits 32)
wake_by_address_single_example = wake_by_address_single_lem one_waits 32 (omega arith)

one_waits-begins : wait_begin unused (λ _. 5) 0 32 64 4 (some 7) ≡ queued one_waits
unfolding wait_begin compare_addr same_bytes
one_waits-begins = refl

one_call : Calls.Reach (record { waiters = one_waits; inside = update (λ _. false) 0 true })
one_call =
    Calls.Reach.next (Calls.Reach.start (λ _. record { address = none; event = 0 }))
      (Calls.Step.waits (λ _. 5) 0 32 64 4 (some 7) refl one_waits-begins)

Reach-Live_example :
    Calls.Live (record { waiters = one_waits; inside = update (λ _. false) 0 true })
Reach-Live_example = Calls.Reach-Live one_call

sleep_end_example :
    SleepEnds one_waits 0 object
      (some 32)
      (sleep_end one_waits 0 object).0
      (sleep_end one_waits 0 object).1
unfolding enqueue
sleep_end_example = sleep_end_lem (Calls.Reach-Live one_call).sound 0 object (some 32) refl
