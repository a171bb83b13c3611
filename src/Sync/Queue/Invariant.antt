-- ===== src/Sync/Queue/Invariant.antt =====
-- The well-formed queues of src/legacy/shared/synchapi.c, and the operations on them.
use clamav_win.Base.{
  NotIn, Distinct, ℕ, ◌≡◌, ◌≢◌, refl, Bool, true, false, Option, none, some, List, arith, ◌==◌,
  update, Bool-cases, inl, inr, ==_iff, sym, subst, update_self, update_ind, ap,
}
use native.Mathlib.Decide.{ℕ_discrete}
use clamav_win.Sync.Queue.{
  Node, Waiters, bucket, is_at, unlink, wake_node, wake_by_address_single, wake_by_address_all,
  enqueue, leave_queue, wait_begin, queued, sleep_begin,
}
use clamav_win.Sync.Queue.Wake.{others, woken_node, wake_by_address_all_lem}
use clamav_win.Sync.Queue.First.{FirstFound, first_waiter-FirstFound}
use clamav_win.Sync.Queue.Members.{
  InBucket, AllIn, Distinct-unlink, Distinct-snoc, Distinct-others, AllIn-update, AllIn-unlink,
  AllIn-snoc, AllIn-others, AllIn-same, elsewhere, NotIn-self-unlink, NotIn-bucket,
}

pub record Sound (s : Waiters) : Type 0 where
  pub distinct : (b : ℕ) → Distinct (s.queue b)
  pub in_bucket : (b : ℕ) → AllIn s.node b (s.queue b)

-- Taking one node off its queue, and clearing its address.
module _ {s : Waiters} (inv : Sound s) where
  open inv use {distinct, in_bucket}

  take_off-Sound :
      (i addr : ℕ) (n : Node) (signals : List ℕ)
      → InBucket (bucket addr) (s.node i).address
      → Sound (record {
        queue = update s.queue (bucket addr) (unlink i (s.queue (bucket addr)));
        node = update s.node i n;
        signals = signals;
      })
  take_off-Sound i addr n signals h = record {
    distinct =
        update_ind (λ b. Distinct) s.queue (bucket addr) _
          (Distinct-unlink i (s.queue (bucket addr)) (distinct (bucket addr))) (λ b ne. distinct b);
    in_bucket =
        update_ind (AllIn (update s.node i n)) s.queue (bucket addr) _
          (AllIn-update s.node (bucket addr) i n _
            (NotIn-self-unlink i (s.queue (bucket addr)) (distinct (bucket addr)))
            (AllIn-unlink s.node (bucket addr) i _ (in_bucket (bucket addr))))
          (λ b ne.
            AllIn-update s.node b i n (s.queue b)
              (NotIn-bucket s.node b i (bucket addr) (s.queue b) (λ e. ne (sym e)) h (in_bucket b))
              (in_bucket b));
  }

  pub enqueue-Sound :
      (i addr event : ℕ) → ((b : ℕ) → NotIn i (s.queue b)) → Sound (enqueue s i addr event)
  unfolding enqueue
  enqueue-Sound i addr event new = record {
    distinct =
        update_ind (λ b. Distinct) s.queue (bucket addr) _
          (Distinct-snoc i (s.queue (bucket addr)) (new (bucket addr)) (distinct (bucket addr)))
          (λ b ne. distinct b);
    in_bucket =
        update_ind (AllIn (update s.node i waiting_node)) s.queue (bucket addr) _
          (AllIn-snoc (update s.node i waiting_node) (bucket addr) i (s.queue (bucket addr))
            (kept (bucket addr))
            (subst (λ (x : Node). InBucket (bucket addr) x.address)
              (sym (update_self s.node i waiting_node)) refl))
          (λ b ne. kept b);
  }
    where
      waiting_node : Node
      waiting_node = record { address = some addr; event = event }

      kept : (b : ℕ) → AllIn (update s.node i waiting_node) b (s.queue b)
      kept b = AllIn-update s.node b i waiting_node (s.queue b) (new b) (in_bucket b)

  pub leave_queue-Sound :
      (i : ℕ) (clear : Bool) (o : Option ℕ)
      → (s.node i).address ≡ o
      → Sound (leave_queue s i clear o)
  unfolding leave_queue
  leave_queue-Sound i clear none e = inv
  leave_queue-Sound i true (some addr) e =
      take_off-Sound i addr (woken_node (s.node i)) s.signals (rw e refl)
  leave_queue-Sound i false (some addr) e = record {
    distinct =
        update_ind (λ b. Distinct) s.queue (bucket addr) _
          (Distinct-unlink i (s.queue (bucket addr)) (distinct (bucket addr))) (λ b ne. distinct b);
    in_bucket =
        update_ind (AllIn s.node) s.queue (bucket addr) _
          (AllIn-unlink s.node (bucket addr) i _ (in_bucket (bucket addr))) (λ b ne. in_bucket b);
  }

  wake_node-Sound :
      (addr : ℕ) (o : Option ℕ)
      → FirstFound s.node addr (s.queue (bucket addr)) o
      → Sound (wake_node s addr o)
  unfolding wake_node
  wake_node-Sound addr none f = inv
  wake_node-Sound addr (some i) f =
      take_off-Sound i addr (woken_node (s.node i)) _ (waits-InBucket (s.node i).address f.waits)
    where
      waits-InBucket : (o : Option ℕ) → is_at addr o ≡ true → InBucket (bucket addr) o
      waits-InBucket none h = cc
      waits-InBucket (some a) h = ap bucket ((==_iff a addr).0 h)

  pub wake_single-Sound : (addr : ℕ) → Sound (wake_by_address_single s addr)
  unfolding wake_by_address_single
  wake_single-Sound addr = elim (Bool-cases (addr == 0)) [
    | inl e ↦ rw e inv
    | inr e ↦
        rw e (wake_node-Sound addr _ (first_waiter-FirstFound s.node addr (s.queue (bucket addr))))
  ]

  wake_all-elsewhere :
      (addr : ℕ)
      → addr ≢ 0
      → (b : ℕ) → b ≢ bucket addr
      → (wake_by_address_all s addr).queue b ≡ s.queue b
  wake_all-elsewhere addr nonnull b ne =
      let (_, _, queues) = wake_by_address_all_lem s addr nonnull (distinct (bucket addr)) in
      ground (arith, queues b)

  pub wake_all-Sound : (addr : ℕ) → addr ≢ 0 → Sound (wake_by_address_all s addr)
  wake_all-Sound addr nonnull =
      let (_, node_is, queues) = wake_by_address_all_lem s addr nonnull (distinct (bucket addr)) in
      let t = wake_by_address_all s addr in
      let queue_is : t.queue (bucket addr) ≡ others s.node addr (s.queue (bucket addr)) =
        ground (arith, queues (bucket addr)) in
      let queue_ne = wake_all-elsewhere addr nonnull in
      record {
        distinct = λ b. elim (ℕ_discrete b (bucket addr)) [
          | yes e ↦
              subst (λ c. Distinct (t.queue c)) (sym e)
                (subst Distinct (sym queue_is)
                  (Distinct-others s.node addr _ (distinct (bucket addr))))
          | no n ↦ subst Distinct (sym (queue_ne b n)) (distinct b)
        ];
        in_bucket = λ b. elim (ℕ_discrete b (bucket addr)) [
          | yes e ↦
              subst (λ c. AllIn t.node c (t.queue c)) (sym e)
                (subst (AllIn t.node (bucket addr)) (sym queue_is) (
                  AllIn-others s.node (bucket addr) t.node addr (λ j h. ground (arith, node_is j))
                    (s.queue (bucket addr)) (in_bucket (bucket addr))))
          | no n ↦ subst (AllIn t.node b) (sym (queue_ne b n)) (
              AllIn-same s.node b t.node
                (λ j h. ground (arith, node_is j, elsewhere b addr (s.node j).address n h))
                (s.queue b) (in_bucket b))
        ];
      }

pub begin-enqueue :
    (s : Waiters) (memory : ℕ → ℕ) (i addr cmp size : ℕ) (event : Option ℕ) {t : Waiters}
    → wait_begin s memory i addr cmp size event ≡ queued t
    → (e : ℕ) × (t ≡ enqueue s i addr e)
unfolding wait_begin
begin-enqueue s memory i addr cmp size none h = absurd (ground arith)
begin-enqueue s memory i addr cmp size (some e) h = (e, ground arith)

pub sleep-enqueue :
    (s : Waiters) (i cond_var section : ℕ) (event : Option ℕ) {t : Waiters}
    → sleep_begin s i cond_var section event ≡ inl t
    → (e : ℕ) × (t ≡ enqueue s i cond_var e)
unfolding sleep_begin
sleep-enqueue s i cond_var section none h = absurd (ground arith)
sleep-enqueue s i cond_var section (some e) h = (e, ground arith)
