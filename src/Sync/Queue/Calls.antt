-- ===== src/Sync/Queue/Calls.antt =====
-- Calls of the wait functions of src/legacy/shared/synchapi.c in any order. A node lives in the stack frame
-- of its call, so a call takes a node that no running call has, and gives it up when it returns.
use clamav_win.Base.{
  NotIn, ℕ, ◌≡◌, ◌≢◌, refl, Bool, true, false, Option, none, some, List, [], ◌∷◌, arith, ◌==◌,
  update, Bool-cases, inl, inr, sym, subst, update_ind,
}
use native.Mathlib.Decide.{ℕ_discrete}
use clamav_win.Sync.Queue.{
  Node, Waiters, bucket, wake_node, first_waiter, wake_by_address_single, wake_by_address_all,
  enqueue, leave_queue, wait_begin, queued, wait_end, WaitResult, sleep_begin, sleep_end,
}
use clamav_win.Sync.Queue.Wake.{wake_by_address_all_lem}
use clamav_win.Sync.Queue.Members.{
  InBucket, AllIn, NotIn-unlink, NotIn-others, NotIn-self-unlink, NotIn-bucket, NotIn-snoc,
}
use clamav_win.Sync.Queue.Invariant.{
  Sound, enqueue-Sound, leave_queue-Sound, wake_single-Sound, wake_all-Sound, begin-enqueue,
  sleep-enqueue,
}

-- The queues, and which nodes belong to a call that has not returned.
pub record System : Type 0 where
  pub waiters : Waiters
  pub inside : ℕ → Bool

-- One call, or one half of a call that waits.
pub data Step (s : System) : System → Type 0 where
  waits :
      {t : Waiters} (memory : ℕ → ℕ) (i addr cmp size : ℕ) (event : Option ℕ)
      → s.inside i ≡ false
      → wait_begin s.waiters memory i addr cmp size event ≡ queued t
      → Step s (record { waiters = t; inside = update s.inside i true })
  wait_ends :
      (i : ℕ) (result : WaitResult)
      → s.inside i ≡ true
      → Step s
          (record { waiters = (wait_end s.waiters i result).0; inside = update s.inside i false })
  sleeps :
      {t : Waiters} (i cond_var section : ℕ) (event : Option ℕ)
      → s.inside i ≡ false
      → sleep_begin s.waiters i cond_var section event ≡ inl t
      → Step s (record { waiters = t; inside = update s.inside i true })
  sleep_ends :
      (i : ℕ) (result : WaitResult)
      → s.inside i ≡ true
      → Step s
          (record { waiters = (sleep_end s.waiters i result).0; inside = update s.inside i false })
  wakes_one : (addr : ℕ) → Step s (record s { waiters = wake_by_address_single s.waiters addr })
  wakes_all : (addr : ℕ) → Step s (record s { waiters = wake_by_address_all s.waiters addr })

pub data Reach : System → Type 0 where
  start :
      (node : ℕ → Node)
      → Reach (record {
        waiters = record { queue = λ _. []; node = node; signals = [] };
        inside = λ _. false;
      })
  next : {s t : System} → Reach s → Step s t → Reach t

-- The queues are well-formed, and hold no node of a call that has returned.
pub record Live (s : System) : Type 0 where
  pub sound : Sound s.waiters
  pub unlisted : (i : ℕ) → s.inside i ≡ false → (b : ℕ) → NotIn i (s.waiters.queue b)

-- A node with no address is in no queue.
NotIn-woken :
    (node : ℕ → Node) (b i : ℕ) (ids : List ℕ)
    → (node i).address ≡ none
    → AllIn node b ids
    → NotIn i ids
NotIn-woken node b i [] e a = tt
NotIn-woken node b i (k ∷ rest) e a = (
  (λ q. elim (subst (InBucket b) e (subst (λ x. InBucket b (node x).address) (sym q) a.0)) [ ]),
  NotIn-woken node b i rest e a.1,
)

-- What a call does to the queues that a node is not in.
module _ (s : Waiters) (j : ℕ) (out : (b : ℕ) → NotIn j (s.queue b)) where
  enqueue-out : (i addr event : ℕ) → j ≢ i → (b : ℕ) → NotIn j ((enqueue s i addr event).queue b)
  unfolding enqueue
  enqueue-out i addr event ne =
      update_ind (λ b. NotIn j) s.queue (bucket addr) _ (NotIn-snoc j i _ (out (bucket addr)) ne)
        (λ b other. out b)

  leave_queue-out :
      (i : ℕ) (clear : Bool) (o : Option ℕ) (b : ℕ) → NotIn j ((leave_queue s i clear o).queue b)
  unfolding leave_queue
  leave_queue-out i clear none b = out b
  leave_queue-out i clear (some addr) b =
      update_ind (λ c. NotIn j) s.queue (bucket addr) _ (NotIn-unlink j i _ (out (bucket addr)))
        (λ c other. out c) b

  wake_node-out : (addr : ℕ) (o : Option ℕ) (b : ℕ) → NotIn j ((wake_node s addr o).queue b)
  unfolding wake_node
  wake_node-out addr none b = out b
  wake_node-out addr (some i) b =
      update_ind (λ c. NotIn j) s.queue (bucket addr) _ (NotIn-unlink j i _ (out (bucket addr)))
        (λ c other. out c) b

  wake_single-out : (addr b : ℕ) → NotIn j ((wake_by_address_single s addr).queue b)
  unfolding wake_by_address_single
  wake_single-out addr b = elim (Bool-cases (addr == 0)) [
    | inl e ↦ rw e (out b)
    | inr e ↦ rw e (wake_node-out addr (first_waiter s.node addr (s.queue (bucket addr))) b)
  ]

  null_out : (b : ℕ) → NotIn j ((wake_by_address_all s 0).queue b)
  unfolding wake_by_address_all
  null_out b = out b

  wake_all-out : Sound s → (addr b : ℕ) → NotIn j ((wake_by_address_all s addr).queue b)
  wake_all-out inv addr b = elim (ℕ_discrete addr 0) [
    | yes e ↦ subst (λ a. NotIn j ((wake_by_address_all s a).queue b)) (sym e) (null_out b)
    | no n ↦
        let (_, _, queues) = wake_by_address_all_lem s addr n (inv.distinct (bucket addr)) in
        subst (NotIn j) (sym (queues b)) (elim (Bool-cases (bucket addr == b)) [
          | inl e ↦ rw e (NotIn-others s.node addr j _ (out (bucket addr)))
          | inr e ↦ rw e (out b)
        ])
  ]

-- The node of a call that returns leaves every queue.
leave_queue-gone :
    (s : Waiters) (i : ℕ) (clear : Bool) (o : Option ℕ)
    → Sound s
    → (s.node i).address ≡ o
    → (b : ℕ) → NotIn i ((leave_queue s i clear o).queue b)
unfolding leave_queue
leave_queue-gone s i clear none inv e b = NotIn-woken s.node b i (s.queue b) e (inv.in_bucket b)
leave_queue-gone s i clear (some addr) inv e b =
    update_ind (λ c. NotIn i) s.queue (bucket addr) _
      (NotIn-self-unlink i (s.queue (bucket addr)) (inv.distinct (bucket addr)))
      (λ c ne.
        NotIn-bucket s.node c i (bucket addr) (s.queue c) (λ q. ne (sym q)) (rw e refl)
          (inv.in_bucket c))
      b

module _ {s : System} (inv : Live s) where
  open inv use {sound, unlisted}

  begin-Live :
      (i addr event : ℕ)
      → s.inside i ≡ false
      → Live (record { waiters = enqueue s.waiters i addr event; inside = update s.inside i true })
  begin-Live i addr event new = record {
    sound = enqueue-Sound sound i addr event (unlisted i new);
    unlisted =
        update_ind (λ j x. x ≡ false → (b : ℕ) → NotIn j ((enqueue s.waiters i addr event).queue b))
          s.inside i true (λ h. absurd (ground (arith, h)))
          (λ j ne h. enqueue-out s.waiters j (unlisted j h) i addr event (λ q. ne (sym q)));
  }

  end-Live :
      (i : ℕ) (clear : Bool)
      → Live (record {
        waiters = leave_queue s.waiters i clear (s.waiters.node i).address;
        inside = update s.inside i false;
      })
  end-Live i clear = record {
    sound = leave_queue-Sound sound i clear (s.waiters.node i).address refl;
    unlisted =
        let o = (s.waiters.node i).address in
        update_ind
          (λ j x. x ≡ false → (b : ℕ) → NotIn j ((leave_queue s.waiters i clear o).queue b))
          s.inside i false (λ h. leave_queue-gone s.waiters i clear o sound refl)
          (λ j ne h. leave_queue-out s.waiters j (unlisted j h) i clear o);
  }

step-Live : {s t : System} → Live s → Step s t → Live t
unfolding wait_end sleep_end wake_by_address_all
step-Live {s} inv (waits memory i addr cmp size event new h) =
    let (e, q) = begin-enqueue s.waiters memory i addr cmp size event h in
    subst (λ (w : Waiters). Live (record { waiters = w; inside = update s.inside i true })) (sym q)
      (begin-Live inv i addr e new)
step-Live {s} inv (sleeps i cond_var section event new h) =
    let (e, q) = sleep-enqueue s.waiters i cond_var section event h in
    subst (λ (w : Waiters). Live (record { waiters = w; inside = update s.inside i true })) (sym q)
      (begin-Live inv i cond_var e new)
step-Live inv (wait_ends i result running) = end-Live inv i false
step-Live inv (sleep_ends i result running) = end-Live inv i true
step-Live {s} inv (wakes_one addr) = record {
  sound = wake_single-Sound inv.sound addr;
  unlisted = λ i h. wake_single-out s.waiters i (inv.unlisted i h) addr;
}
step-Live {s} inv (wakes_all addr) = record {
  sound = elim (ℕ_discrete addr 0) [
    | yes e ↦ subst (λ a. Sound (wake_by_address_all s.waiters a)) (sym e) inv.sound
    | no n ↦ wake_all-Sound inv.sound addr n
  ];
  unlisted = λ i h. wake_all-out s.waiters i (inv.unlisted i h) inv.sound addr;
}

-- In every state that calls of the two families of functions can lead to, in any order, where a call that waits
-- takes a node that no call has which has not returned: each queue holds a node once at most, only nodes whose
-- address belongs to that queue, and no node of a call that has returned.
pub Reach-Live : {s : System} → Reach s → Live s
Reach-Live (start node) = record {
  sound = record { distinct = λ b. tt; in_bucket = λ b. tt };
  unlisted = λ i h b. tt;
}
Reach-Live (next r st) = step-Live (Reach-Live r) st
