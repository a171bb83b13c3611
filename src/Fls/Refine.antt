-- ===== src/Fls/Refine.antt =====
-- src/legacy/shared/fibersapi.c implements what fiber-local storage promises.
use clamav_win.Base.{
  ℕ, ◌≡◌, ◌≢◌, refl, Bool, false, ◌==◌, is_in, Distinct, Option, none, some, arith, sym, subst, ◌∙◌,
  ap, List, [], Bool-cases, inl, inr, ==_iff,
}
use native.Mathlib.Decide.{ℕ_discrete}
use clamav_win.Fls.{
  Pthread, Fls, Key, fls_find_key, fls_set_value, set_found, set_new, fls_free, free_found,
  thread_ends,
}
use clamav_win.Fls.Lists.{find-listed}
use clamav_win.Fls.Sound.{Documented, Sound, FreshBlock}
use clamav_win.Fls.Spec.{
  Event, sets, frees, ends, Obeys, SpecRun, Step, Run, start, next, calls_alloc, calls_set,
  calls_free, thread_stops, callback_at, view,
}
use clamav_win.Fls.View.{
  Option-cases, Refines, unchanged, pointers_same, pointers_stored, if_at, if_off, holds, absent,
}
use clamav_win.Fls.View as View
use clamav_win.Fls.New.{set_new-Promised}
use clamav_win.Fls.Set.{set_null-Promised}
use clamav_win.Fls.Old.{set_old-Promised}
use clamav_win.Fls.Free.{free_found-Promised}
use clamav_win.Fls.Ends.{destroyed-Refines}
use clamav_win.Fls.Alloc.{fls_alloc-Refines}

module _ {T : Type 0} {p : Pthread T} {valid : T → ℕ → Bool} (doc : Documented p valid) {s : Fls T}
    (inv : Sound p valid s) where
  set_found-Refines :
      (t k d : ℕ) (block : Option ℕ)
      → FreshBlock s block
      → fls_find_key s.key s.keys (s.key k).index ≡ some k
      → View.Promised p valid s t k d (set_found p s k t d block)
  unfolding set_found set_new
  set_found-Refines t k d block fresh found = elim (ℕ_discrete d 0) [
    | yes e ↦
        subst (λ x. View.Promised p valid s t k x (set_found p s k t x block)) (sym e)
          (set_null-Promised doc inv k found t _ refl)
    | no n ↦
        let nonnull : (d == 0) ≡ false = ground (arith, n) in
        let v = p.getspecific s.tls (s.key k).index t in
        rw nonnull (elim (Bool-cases (v == 0)) [
          | inl z ↦ rw z (new block fresh ((==_iff v 0).0 z) n)
          | inr z ↦ rw z (set_old-Promised doc inv k found t d v n (λ q. ground (arith, z, q)) refl)
        ])
  ]
    where
      new :
          (block : Option ℕ)
          → FreshBlock s block
          → p.getspecific s.tls (s.key k).index t ≡ 0
          → d ≢ 0
          → View.Promised p valid s t k d (set_new p s k t d block)
      new none fresh unset n = (inv, inl (unchanged p valid s))
      new (some v) fresh unset n = set_new-Promised doc inv k t d v found n fresh.0 fresh.1 unset

  fls_set_value-Refines :
      (t i d : ℕ) (block : Option ℕ)
      → FreshBlock s block
      → Refines p valid s
          (sets t i d (fls_set_value p s t i d block).1)
          (fls_set_value p s t i d block).0
  unfolding fls_set_value
  fls_set_value-Refines t i d block fresh = elim (Option-cases (fls_find_key s.key s.keys i)) [
    | inl e ↦ rw (fls_set_value, e) (inv, inl (unchanged p valid s))
    | inr (k, e) ↦
        let index_is = (find-listed s.key s.keys i e).1 in
        rw (fls_set_value, e)
          (subst
            (λ (x : ℕ).
              Refines p valid s (sets t x d (set_found p s k t d block).1)
                (set_found p s k t d block).0)
            index_is
            (set_found-Refines t k d block fresh (ap (fls_find_key s.key s.keys) index_is ∙ e)))
  ]

  fls_free-Refines : (i : ℕ) → Refines p valid s (frees i (fls_free p s i).1) (fls_free p s i).0
  unfolding fls_free
  fls_free-Refines i = elim (Option-cases (fls_find_key s.key s.keys i)) [
    | inl e ↦ rw (fls_free, e) (inv, (unchanged p valid s))
    | inr (k, e) ↦
        let index_is = (find-listed s.key s.keys i e).1 in
        rw (fls_free, e)
          (subst (λ (x : ℕ). Refines p valid s (frees x (free_found p s k).1) (free_found p s k).0)
            index_is (free_found-Promised doc inv k (ap (fls_find_key s.key s.keys) index_is ∙ e)))
  ]

step-Refines :
    {T : Type 0} {p : Pthread T} {valid : T → ℕ → Bool}
    → Documented p valid
    → {s s' : Fls T} {e : Event} → Sound p valid s
    → Step p s e s'
    → Sound p valid s' × Obeys e (view p s) (view p s')
unfolding thread_ends
step-Refines doc inv (calls_alloc callback block fresh) =
    fls_alloc-Refines doc inv callback block fresh
step-Refines doc inv (calls_set t i d block fresh) = fls_set_value-Refines doc inv t i d block fresh
step-Refines doc inv (calls_free i) = fls_free-Refines doc inv i
step-Refines {p} {valid} doc {s} inv (thread_stops t i k found) =
    let index_is = (find-listed s.key s.keys i found).1 in
    subst
      (λ (x : ℕ).
        Sound p valid (thread_ends p s t x)
        × Obeys (ends t x) (view p s) (view p (thread_ends p s t x)))
      index_is
      (destroyed-Refines doc inv t k (p.getspecific s.tls (s.key k).index t)
        (ap (fls_find_key s.key s.keys) index_is ∙ found) refl)

no_key : (k : ℕ) (l : List ℕ) → l ≡ [] → is_in k l ≡ false
no_key k l e = rw e refl

find_in-empty : (key : ℕ → Key) (l : List ℕ) (i : ℕ) → l ≡ [] → fls_find_key key l i ≡ none
unfolding fls_find_key
find_in-empty key l i e = rw e refl

run_lem :
    {T : Type 0} {p : Pthread T} {valid : T → ℕ → Bool}
    → Documented p valid
    → {s : Fls T} {events : List Event} → Run p s events
    → Sound p valid s × SpecRun (view p s) events
run_lem doc (start {s} no_keys no_calls) = (
  record {
    thread = λ v. 0;
    each = λ k m. absurd (ground (arith, m, no_key k s.keys no_keys));
    one_index = λ j k mj mk e. absurd (ground (arith, mj, no_key j s.keys no_keys));
    keys_distinct = subst Distinct (sym no_keys) tt;
  },
  start (λ i. ap (callback_at s.key) (find_in-empty s.key s.keys i no_keys))
      (λ i t. rw (find_in-empty s.key s.keys i no_keys) refl) no_calls,
)
run_lem doc (next run step) =
    let (inv, spec) = run_lem doc run in
    let (inv', obeys) = step-Refines doc inv step in (inv', next spec obeys)

-- In every state that calls of FlsAlloc, FlsSetValue and FlsFree and ends of threads lead to from a
-- start with no keys, in any order and with any failures of HeapAlloc and of pthreads:
-- every listed key has an index of pthreads that exists, no two have the same; the blocks of keys and values are all
-- different and allocated; each value is linked in its owner's list, once, and has a pointer other
-- than NULL, and it is the value that exactly one thread has of that key.
pub Run-Sound :
    {T : Type 0} {p : Pthread T} {valid : T → ℕ → Bool}
    → Documented p valid
    → {s : Fls T} {events : List Event} → Run p s events
    → Sound p valid s
Run-Sound doc run = (run_lem doc run).0

-- Every run of FlsAlloc, FlsSetValue, FlsFree and ends of threads from a start with no keys is, read as
-- callbacks and pointers by index and thread, a run of the specification with the same results.
pub Run-SpecRun :
    {T : Type 0} {p : Pthread T} {valid : T → ℕ → Bool}
    → Documented p valid
    → {s : Fls T} {events : List Event} → Run p s events
    → SpecRun (view p s) events
Run-SpecRun doc run = (run_lem doc run).1
