-- ===== src/Sync/Queue/Wake.antt =====
-- Which waiters WakeByAddressAll of src/legacy/shared/synchapi.c wakes.
use clamav_win.Base.{
  is_in, NotIn, Distinct, ℕ, zero, suc, ◌+◌, ◌≡◌, ◌≢◌, refl, ◌&&◌, none, List, [], ◌∷◌, ◌++◌, arith,
  ◌==◌, if◌then◌else◌, take, drop,
}
use clamav_win.Sync.Queue.{
  Node, Waiters, bucket, waits_on, cleared, max_events, Woken, wake_loop, wake_by_address_all,
}

-- The nodes of a queue that wait on an address, and the others, in their order.
abbrev pub waiting : (ℕ → Node) → ℕ → List ℕ → List ℕ
waiting node addr [] = []
waiting node addr (i ∷ rest) =
    if waits_on node addr i then i ∷ waiting node addr rest else waiting node addr rest

abbrev pub others : (ℕ → Node) → ℕ → List ℕ → List ℕ
others node addr [] = []
others node addr (i ∷ rest) =
    if waits_on node addr i then others node addr rest else i ∷ others node addr rest

abbrev pub events : (ℕ → Node) → List ℕ → List ℕ
events node [] = []
events node (i ∷ rest) = (node i).event ∷ events node rest

-- A node that is not in the list can be cleared.
module _ (node : ℕ → Node) (addr i : ℕ) where
  waiting-cleared :
      (ids : List ℕ) → NotIn i ids → waiting (cleared node i) addr ids ≡ waiting node addr ids
  waiting-cleared [] h = refl
  waiting-cleared (j ∷ rest) h = ground (arith, waiting-cleared rest)

  others-cleared :
      (ids : List ℕ) → NotIn i ids → others (cleared node i) addr ids ≡ others node addr ids
  others-cleared [] h = refl
  others-cleared (j ∷ rest) h = ground (arith, others-cleared rest)

  events-cleared :
      (ids : List ℕ)
      → NotIn i ids
      → events (cleared node i) (waiting node addr ids) ≡ events node (waiting node addr ids)
  events-cleared [] h = refl
  events-cleared (j ∷ rest) h = ground (arith, events-cleared rest)

module _ (addr : ℕ) where
  kept-wake_loop :
      (ids : List ℕ) (node : ℕ → Node) (count : ℕ)
      → Distinct ids
      → (wake_loop node addr count ids).kept ≡ others node addr ids
  unfolding wake_loop
  kept-wake_loop [] node count d = refl
  kept-wake_loop (i ∷ rest) node count d = ground (
    arith,
    kept-wake_loop rest node count d.1,
    kept-wake_loop rest (cleared node i) count d.1,
    kept-wake_loop rest (cleared node i) (count + 1) d.1,
    others-cleared node addr i rest d.0,
  )

  -- The events that are buffered, where there is room for `room`, and those that are set at once.
  abbrev Signalled : ℕ → List ℕ → Woken → Type 0
  Signalled room expected w = (w.buffered ≡ take room expected) × (w.direct ≡ drop room expected)

  Signalled-wake_loop :
      (ids : List ℕ) (node : ℕ → Node) (count room : ℕ)
      → Distinct ids
      → count + room ≡ max_events
      → Signalled room (events node (waiting node addr ids)) (wake_loop node addr count ids)
  unfolding wake_loop
  Signalled-wake_loop [] node count zero d h = (refl, refl)
  Signalled-wake_loop [] node count (suc room) d h = (refl, refl)
  Signalled-wake_loop (i ∷ rest) node count zero d h = ground (
    arith,
    Signalled-wake_loop rest node count zero d.1 h,
    Signalled-wake_loop rest (cleared node i) count zero d.1 h,
    waiting-cleared node addr i rest d.0,
    events-cleared node addr i rest d.0,
  )
  Signalled-wake_loop (i ∷ rest) node count (suc room) d h = ground (
    arith,
    Signalled-wake_loop rest node count (suc room) d.1 h,
    Signalled-wake_loop rest (cleared node i) (count + 1) room d.1,
    waiting-cleared node addr i rest d.0,
    events-cleared node addr i rest d.0,
  )

-- A node once it is woken: its address is NULL.
abbrev pub woken_node : Node → Node
woken_node n = record n { address = none }

nodes-wake_loop :
    (addr : ℕ) (ids : List ℕ) (node : ℕ → Node) (count j : ℕ)
    → (wake_loop node addr count ids).nodes j
      ≡ (if is_in j ids && waits_on node addr j then woken_node (node j) else node j)
unfolding wake_loop
nodes-wake_loop addr [] node count j = refl
nodes-wake_loop addr (i ∷ rest) node count j = ground (
  arith,
  nodes-wake_loop addr rest node count j,
  nodes-wake_loop addr rest (cleared node i) count j,
  nodes-wake_loop addr rest (cleared node i) (count + 1) j,
)

-- WakeByAddressAll on an address other than NULL, whose queue holds no node twice, takes exactly the nodes that wait on it off their
-- queue and keeps the order of the others; it sets the event of each of them once, those past the
-- first 256 before the others; it sets the address of each of them to NULL and changes no other
-- node and no other queue.
pub wake_by_address_all_lem :
    (s : Waiters) (addr : ℕ)
    → addr ≢ 0
    → Distinct (s.queue (bucket addr))
    → let ids = s.queue (bucket addr) in
      let expected = events s.node (waiting s.node addr ids) in
      let t = wake_by_address_all s addr in
      (t.signals ≡ (s.signals ++ drop max_events expected) ++ take max_events expected)
      × ((j : ℕ)
          → t.node j
            ≡ (if is_in j ids && waits_on s.node addr j then woken_node (s.node j) else s.node j))
      × ((b : ℕ) → t.queue b ≡ (if bucket addr == b then others s.node addr ids else s.queue b))
unfolding wake_by_address_all
wake_by_address_all_lem s addr nonnull distinct =
    let ids = s.queue (bucket addr) in
    let signalled = Signalled-wake_loop addr ids s.node 0 max_events distinct refl in
    (
      ground (arith, signalled),
      λ j. ground (arith, nodes-wake_loop addr ids s.node 0 j),
      λ b. ground (arith, kept-wake_loop addr ids s.node 0 distinct),
    )
