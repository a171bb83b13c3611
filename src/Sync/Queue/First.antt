-- ===== src/Sync/Queue/First.antt =====
-- Which waiter WakeByAddressSingle and WakeConditionVariable of src/legacy/shared/synchapi.c wake.
use clamav_win.Base.{
  ℕ, ◌≡◌, ◌≢◌, refl, true, false, Option, none, some, List, [], ◌∷◌, ◌++◌, arith, ◌==◌,
  if◌then◌else◌, ap, subst, inl, inr, Bool-cases,
}
use clamav_win.Sync.Queue.{
  Node, Waiters, bucket, waits_on, unlink, first_waiter, wake_node, wake_by_address_single,
}
use clamav_win.Sync.Queue.Wake.{woken_node}

-- None of the nodes waits on the address.
abbrev pub NoneWaits : (ℕ → Node) → ℕ → List ℕ → Type 0
NoneWaits node addr [] = Unit
NoneWaits node addr (i ∷ rest) = (waits_on node addr i ≡ false) × NoneWaits node addr rest

-- The queue around its first node that waits on the address.
pub record FirstOf (node : ℕ → Node) (addr : ℕ) (ids : List ℕ) (i : ℕ) : Type 0 where
  pub before : List ℕ
  pub after : List ℕ
  pub splits : ids ≡ before ++ i ∷ after
  pub earlier : NoneWaits node addr before
  pub waits : waits_on node addr i ≡ true
  pub unlinked : unlink i ids ≡ before ++ after

abbrev pub FirstFound : (ℕ → Node) → ℕ → List ℕ → Option ℕ → Type 0
FirstFound node addr ids none = NoneWaits node addr ids
FirstFound node addr ids (some i) = FirstOf node addr ids i

module _ (node : ℕ → Node) (addr i : ℕ) (rest : List ℕ) where
  found_here : waits_on node addr i ≡ true → FirstOf node addr (i ∷ rest) i
  unfolding unlink
  found_here e = record {
    before = [];
    after = rest;
    splits = refl;
    earlier = tt;
    waits = e;
    unlinked = ground arith;
  }

  found_later :
      waits_on node addr i ≡ false
      → (o : Option ℕ) → FirstFound node addr rest o
      → FirstFound node addr (i ∷ rest) o
  unfolding unlink
  found_later e none h = (e, h)
  found_later e (some j) h = record {
    before = i ∷ h.before;
    after = h.after;
    splits = ap (◌∷◌ i) h.splits;
    earlier = (e, h.earlier);
    waits = h.waits;
    unlinked = ground (arith, h.waits, h.unlinked);
  }

pub first_waiter-FirstFound :
    (node : ℕ → Node) (addr : ℕ) (ids : List ℕ)
    → FirstFound node addr ids (first_waiter node addr ids)
unfolding first_waiter
first_waiter-FirstFound node addr [] = tt
first_waiter-FirstFound node addr (i ∷ rest) = elim (Bool-cases (waits_on node addr i)) [
  | inl e ↦ rw e (found_here node addr i rest e)
  | inr e ↦ rw e (found_later node addr i rest e _ (first_waiter-FirstFound node addr rest))
]

-- What a call of WakeByAddressSingle does where the first waiter of the queue is `o`.
abbrev pub WakesFirst : Waiters → ℕ → Option ℕ → Waiters → Type 0
WakesFirst s addr none t = NoneWaits s.node addr (s.queue (bucket addr)) × (t ≡ s)
WakesFirst s addr (some i) t =
    (f : FirstOf s.node addr (s.queue (bucket addr)) i) × (t.signals
      ≡ s.signals ++ (s.node i).event ∷ [])
    × ((j : ℕ) → t.node j ≡ (if i == j then woken_node (s.node i) else s.node j))
    × ((b : ℕ) → t.queue b ≡ (if bucket addr == b then f.before ++ f.after else s.queue b))

wake_node-WakesFirst :
    (s : Waiters) (addr : ℕ) (o : Option ℕ)
    → FirstFound s.node addr (s.queue (bucket addr)) o
    → WakesFirst s addr o (wake_node s addr o)
unfolding wake_node
wake_node-WakesFirst s addr none h = (h, refl)
wake_node-WakesFirst s addr (some i) h =
    (h, refl, λ j. ground arith, λ b. ground (arith, h.unlinked))

-- WakeByAddressSingle and WakeConditionVariable wake the oldest waiter of an address other than
-- NULL: the first node of the queue that waits on it is taken off, its event is set once and its
-- address becomes NULL; no other node and no other queue changes. If no node waits on the address,
-- nothing changes.
pub wake_by_address_single_lem :
    (s : Waiters) (addr : ℕ)
    → addr ≢ 0
    → (o : Option ℕ) × WakesFirst s addr o (wake_by_address_single s addr)
unfolding wake_by_address_single
wake_by_address_single_lem s addr nonnull =
    let ids = s.queue (bucket addr) in
    let o = first_waiter s.node addr ids in
    (
      o,
      subst (WakesFirst s addr o) (ground arith)
          (wake_node-WakesFirst s addr o (first_waiter-FirstFound s.node addr ids)),
    )
