-- ===== src/Fls/View.antt =====
-- Pointers as blocks of src/legacy/shared/fibersapi.c hold them, and as they are promised.
use clamav_win.Base.{
  ◌⊎◌, refl, inl, inr, none, some, ℕ, ◌≡◌, ◌≢◌, refl, Bool, true, ◌&&◌, ◌==◌, if◌then◌else◌, is_in,
  Option, none, some, arith, sym, ◌∙◌, ap,
}
use native.Mathlib.Decide.{ℕ_discrete}
use clamav_win.Fls.{Pthread, Fls, Value, fls_find_key, Outcome}
use clamav_win.Fls.Lists.{find-listed}
use clamav_win.Fls.Sound.{Sound}
use clamav_win.Fls.Spec.{Event, Same, Obeys, sets, pointer_in, pointer_at, view}

pub pointers_stored :
    (value value' : ℕ → Value) (found : Option ℕ) (w w' i j t u d : ℕ)
    → (found ≡ none → i ≢ j)
    → ((k : ℕ)
        → found ≡ some k
        → pointer_in value' w' ≡ (if i == j && t == u then d else pointer_in value w))
    → pointer_at value' found w' ≡ (if i == j && t == u then d else pointer_at value found w)
pointers_stored value value' none w w' i j t u d absent present =
    let n = absent refl in ground arith
pointers_stored value value' (some k) w w' i j t u d absent present = present k refl

pub pointers_same :
    (value value' : ℕ → Value) (found : Option ℕ) (w w' : ℕ)
    → ((k : ℕ) → found ≡ some k → pointer_in value' w' ≡ pointer_in value w)
    → pointer_at value' found w' ≡ pointer_at value found w
pointers_same value value' none w w' present = refl
pointers_same value value' (some k) w w' present = present k refl

-- A choice by two equations, split.
pub if_at :
    (i j t u x y d : ℕ)
    → (i ≡ j → t ≡ u → x ≡ d)
    → (¬ ((i ≡ j) × (t ≡ u)) → x ≡ y)
    → x ≡ (if i == j && t == u then d else y)
if_at i j t u x y d here there = elim (ℕ_discrete i j) [
  | yes a ↦ elim (ℕ_discrete t u) [
    | yes b ↦ let h = here a b in ground (arith, h, a, b)
    | no b ↦ let h = there (λ q. b q.1) in ground (arith, h, b)
  ]
  | no a ↦ let h = there (λ q. a q.0) in ground (arith, h, a)
]

pub if_off :
    (i j t u x y d : ℕ) → x ≡ (if i == j && t == u then d else y) → ¬ ((i ≡ j) × (t ≡ u)) → x ≡ y
if_off i j t u x y d h n = elim (ℕ_discrete i j) [
  | yes a ↦ elim (ℕ_discrete t u) [ yes b ↦ absurd (n (a, b)) | no b ↦ ground (arith, h, b) ]
  | no a ↦ ground (arith, h, a)
]

module _ {T : Type 0} {p : Pthread T} {valid : T → ℕ → Bool} {s : Fls T}
    (inv : Sound p valid s) where
  -- A pointer that is stored lies in an allocated block that the key lists.
  pub record Holds (j k u : ℕ) : Type 0 where
    pub key_listed : is_in k s.keys ≡ true
    pub index_is : (s.key k).index ≡ j
    pub listed : is_in (p.getspecific s.tls j u) (s.values k) ≡ true
    pub thread_is : inv.thread (p.getspecific s.tls j u) ≡ u
    pub owner_is : (s.value (p.getspecific s.tls j u)).owner ≡ k
    pub live : s.heap (p.getspecific s.tls j u) ≡ true

  pub holds :
      (j k u : ℕ) → fls_find_key s.key s.keys j ≡ some k → p.getspecific s.tls j u ≢ 0 → Holds j k u
  holds j k u h nonnull =
      let (mk, e) = find-listed s.key s.keys j h in
      let (m, t) =
        (inv.each k mk).found u (p.getspecific s.tls j u)
          (ap (λ (i : ℕ). p.getspecific s.tls i u) e) nonnull in
      let o = (inv.each k mk).owned (p.getspecific s.tls j u) m in
      record {
        key_listed = mk;
        index_is = e;
        listed = m;
        thread_is = t;
        owner_is = o.0;
        live = o.1;
      }

  -- No two threads share a block, and no two keys.
  pub one_holder :
      (i k t j k' u : ℕ)
      → fls_find_key s.key s.keys i ≡ some k
      → fls_find_key s.key s.keys j ≡ some k'
      → p.getspecific s.tls i t ≡ p.getspecific s.tls j u
      → p.getspecific s.tls i t ≢ 0
      → (i ≡ j) × (t ≡ u)
  one_holder i k t j k' u hi hj same nonnull =
      let a = holds i k t hi nonnull in
      let b = holds j k' u hj (λ e. nonnull (same ∙ e)) in
      let one = sym a.owner_is ∙ ap (λ (v : ℕ). (s.value v).owner) same ∙ b.owner_is in
      (
        sym a.index_is ∙ ap (λ (x : ℕ). (s.key x).index) one ∙ b.index_is,
        sym a.thread_is ∙ ap inv.thread same ∙ b.thread_is,
      )

module _ {T : Type 0} (p : Pthread T) (valid : T → ℕ → Bool) (s : Fls T) where
  -- The promise for a key that is found.
  abbrev pub Promised : (t k d : ℕ) → Fls T × Outcome → Type 0
  Promised t k d r =
      Sound p valid r.0 × Obeys (sets t (s.key k).index d r.1) (view p s) (view p r.0)

  module _ (k : ℕ) (found : fls_find_key s.key s.keys (s.key k).index ≡ some k) where
    pub absent : (j : ℕ) → fls_find_key s.key s.keys j ≡ none → (s.key k).index ≢ j
    absent j h e = ground (arith, found, h, ap (fls_find_key s.key s.keys) e)

    pub is_key : (view p s).callback_of (s.key k).index ≢ none
    is_key = rw found (λ e. ground (arith, e))

pub Option-cases : (o : Option ℕ) → (o ≡ none) ⊎ ((k : ℕ) × (o ≡ some k))
Option-cases none = inl refl
Option-cases (some k) = inr (k, refl)

module _ {T : Type 0} (p : Pthread T) (valid : T → ℕ → Bool) (s : Fls T) where
  -- An operation keeps the invariant and does what is promised.
  abbrev pub Refines : Event → Fls T → Type 0
  Refines e s' = Sound p valid s' × Obeys e (view p s) (view p s')

  pub unchanged : Same (view p s) (view p s)
  unchanged = ((λ i. refl), (λ i t. refl), refl)
