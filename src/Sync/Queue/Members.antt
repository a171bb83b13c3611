-- ===== src/Sync/Queue/Members.antt =====
-- Lists of waiting nodes: which nodes they hold, and on whose addresses these wait.
use clamav_win.Base.{
  NotIn, Distinct, ℕ, ◌≡◌, ◌≢◌, false, Option, none, some, List, [], ◌∷◌, ◌++◌, arith, ◌==◌, update,
  Bool-cases, inl, inr, ==_iff, sym, subst, ◌∙◌, ap,
}
use clamav_win.Sync.Queue.{Node, bucket, is_at, waits_on, unlink}
use clamav_win.Sync.Queue.Wake.{others}

-- A node in the queue of bucket `b` waits on an address of that bucket.
abbrev pub InBucket : ℕ → Option ℕ → Type 0
InBucket b none = ⊥
InBucket b (some a) = bucket a ≡ b

abbrev pub AllIn : (ℕ → Node) → ℕ → List ℕ → Type 0
AllIn node b [] = Unit
AllIn node b (i ∷ rest) = InBucket b (node i).address × AllIn node b rest

pub NotIn-unlink : (i j : ℕ) (ids : List ℕ) → NotIn i ids → NotIn i (unlink j ids)
unfolding unlink
NotIn-unlink i j [] h = tt
NotIn-unlink i j (k ∷ rest) h = ground (arith, NotIn-unlink i j rest h.1)

pub Distinct-unlink : (j : ℕ) (ids : List ℕ) → Distinct ids → Distinct (unlink j ids)
unfolding unlink
Distinct-unlink j [] h = tt
Distinct-unlink j (k ∷ rest) h = elim (Bool-cases (j == k)) [
  | inl e ↦ rw e h.1
  | inr e ↦ rw e (NotIn-unlink k j rest h.0, Distinct-unlink j rest h.1)
]

pub NotIn-self-unlink : (i : ℕ) (ids : List ℕ) → Distinct ids → NotIn i (unlink i ids)
unfolding unlink
NotIn-self-unlink i [] h = tt
NotIn-self-unlink i (k ∷ rest) h = elim (Bool-cases (i == k)) [
  | inl e ↦ rw e (subst (λ x. NotIn x rest) (sym ((==_iff i k).0 e)) h.0)
  | inr e ↦ rw e ((λ q. ground arith), NotIn-self-unlink i rest h.1)
]

pub NotIn-snoc : (k i : ℕ) (ids : List ℕ) → NotIn k ids → k ≢ i → NotIn k (ids ++ i ∷ [])
NotIn-snoc k i [] h q = (q, tt)
NotIn-snoc k i (j ∷ r) h q = (h.0, NotIn-snoc k i r h.1 q)

pub Distinct-snoc : (i : ℕ) (ids : List ℕ) → NotIn i ids → Distinct ids → Distinct (ids ++ i ∷ [])
Distinct-snoc i [] n d = (tt, tt)
Distinct-snoc i (k ∷ rest) n d =
    (NotIn-snoc k i rest d.0 (λ e. n.0 (sym e)), Distinct-snoc i rest n.1 d.1)

pub NotIn-others :
    (node : ℕ → Node) (addr i : ℕ) (ids : List ℕ) → NotIn i ids → NotIn i (others node addr ids)
NotIn-others node addr i [] h = tt
NotIn-others node addr i (k ∷ rest) h = ground (arith, NotIn-others node addr i rest h.1)

pub Distinct-others :
    (node : ℕ → Node) (addr : ℕ) (ids : List ℕ) → Distinct ids → Distinct (others node addr ids)
Distinct-others node addr [] h = tt
Distinct-others node addr (k ∷ rest) h = elim (Bool-cases (waits_on node addr k)) [
  | inl e ↦ rw e (Distinct-others node addr rest h.1)
  | inr e ↦ rw e (NotIn-others node addr k rest h.0, Distinct-others node addr rest h.1)
]

module _ (node : ℕ → Node) (b : ℕ) where
  pub AllIn-update :
      (i : ℕ) (n : Node) (ids : List ℕ)
      → NotIn i ids
      → AllIn node b ids
      → AllIn (update node i n) b ids
  AllIn-update i n [] h a = tt
  AllIn-update i n (k ∷ rest) h a =
      (subst (λ (x : Node). InBucket b x.address) (kept k h.0) a.0, AllIn-update i n rest h.1 a.1)
    where
      kept : (k : ℕ) → i ≢ k → node k ≡ update node i n k
      kept k ne = ground arith

  pub AllIn-unlink : (i : ℕ) (ids : List ℕ) → AllIn node b ids → AllIn node b (unlink i ids)
  unfolding unlink
  AllIn-unlink i [] a = tt
  AllIn-unlink i (k ∷ rest) a = elim (Bool-cases (i == k)) [
    | inl e ↦ rw e a.1
    | inr e ↦ rw e (a.0, AllIn-unlink i rest a.1)
  ]

  pub AllIn-snoc :
      (i : ℕ) (ids : List ℕ)
      → AllIn node b ids
      → InBucket b (node i).address
      → AllIn node b (ids ++ i ∷ [])
  AllIn-snoc i [] a h = (h, tt)
  AllIn-snoc i (k ∷ rest) a h = (a.0, AllIn-snoc i rest a.1 h)

  -- The nodes of other buckets are not in this one.
  pub NotIn-bucket :
      (i c : ℕ) (ids : List ℕ)
      → b ≢ c
      → InBucket c (node i).address
      → AllIn node b ids
      → NotIn i ids
  NotIn-bucket i c [] ne h a = tt
  NotIn-bucket i c (k ∷ rest) ne h a = (
    (λ e.
        ne (one_bucket (node i).address (subst (λ x. InBucket b (node x).address) (sym e) a.0) h)),
    NotIn-bucket i c rest ne h a.1,
  )
    where
      one_bucket : (o : Option ℕ) → InBucket b o → InBucket c o → b ≡ c
      one_bucket none p q = elim p [ ]
      one_bucket (some a') p q = sym p ∙ q

  pub AllIn-others :
      (node' : ℕ → Node) (addr : ℕ)
      → ((j : ℕ) → waits_on node addr j ≡ false → node' j ≡ node j)
      → (ids : List ℕ) → AllIn node b ids
      → AllIn node' b (others node addr ids)
  AllIn-others node' addr same [] a = tt
  AllIn-others node' addr same (k ∷ rest) a = elim (Bool-cases (waits_on node addr k)) [
    | inl e ↦ rw e (AllIn-others node' addr same rest a.1)
    | inr e ↦ rw e (
      subst (λ (x : Node). InBucket b x.address) (sym (same k e)) a.0,
      AllIn-others node' addr same rest a.1,
    )
  ]

  pub AllIn-same :
      (node' : ℕ → Node)
      → ((j : ℕ) → InBucket b (node j).address → node' j ≡ node j)
      → (ids : List ℕ) → AllIn node b ids
      → AllIn node' b ids
  AllIn-same node' same [] a = tt
  AllIn-same node' same (k ∷ rest) a = (
    subst (λ (x : Node). InBucket b x.address) (sym (same k a.0)) a.0,
    AllIn-same node' same rest a.1,
  )

pub elsewhere : (b addr : ℕ) (o : Option ℕ) → b ≢ bucket addr → InBucket b o → is_at addr o ≡ false
elsewhere b addr none n h = elim h [ ]
elsewhere b addr (some a) n h = elim (Bool-cases (a == addr)) [
  | inl e ↦ absurd (n (sym h ∙ ap bucket ((==_iff a addr).0 e)))
  | inr e ↦ e
]
