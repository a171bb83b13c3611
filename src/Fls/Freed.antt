-- ===== src/Fls/Freed.antt =====
-- What the loop of FlsFree over the values of a key does, and which threads these belong to.
use clamav_win.Base.{
  ℕ, ◌≡◌, ◌≢◌, refl, Bool, true, false, is_in, NotIn, Distinct, arith, sym, ◌∙◌, ap, update,
  update_ne, List, [], ◌∷◌, ◌++◌, map,
}
use mathlib.Core.List.{append_assoc, append-nil}
use native.Mathlib.Decide.{ℕ_discrete}
use clamav_win.Fls.{Fls, Value, Key, call, fls_find_key, remove, free_values}
use clamav_win.Fls.Spec.{calls_for}

-- What the loop over the values leaves.
abbrev pub calls_of : (ℕ → Value) → (callback : ℕ) → List ℕ → List (ℕ × ℕ)
calls_of value callback [] = []
calls_of value callback (v ∷ rest) = call callback (value v).value ++ calls_of value callback rest

abbrev pub freed : (ℕ → Bool) → List ℕ → ℕ → Bool
freed heap [] = heap
freed heap (v ∷ rest) = freed (update heap v false) rest

pub free_values_lem :
    {T : Type 0} (s : Fls T) (callback : ℕ) (vs : List ℕ)
    → free_values s callback vs
      ≡ record s { called = s.called ++ calls_of s.value callback vs; heap = freed s.heap vs }
unfolding free_values
free_values_lem s callback [] =
    ap (λ (c : List (ℕ × ℕ)). record s { called = c }) (sym (append-nil s.called))
free_values_lem s callback (v ∷ rest) =
    free_values_lem
      (record s {
        called = s.called ++ call callback (s.value v).value;
        heap = update s.heap v false;
      })
      callback rest
    ∙ ap (λ (c : List (ℕ × ℕ)). record s { called = c; heap = freed (update s.heap v false) rest })
        (append_assoc s.called (call callback (s.value v).value) (calls_of s.value callback rest))

pub freed_ne :
    (heap : ℕ → Bool) (vs : List ℕ) (w : ℕ) → is_in w vs ≡ false → freed heap vs w ≡ heap w
freed_ne heap [] w h = refl
freed_ne heap (v ∷ rest) w h =
    freed_ne (update heap v false) rest w (ground (arith, h))
    ∙ update_ne heap v w false (λ e. ground (arith, h, e))

-- The threads that hold the values.
map-NotIn :
    (thread : ℕ → ℕ) (v : ℕ) (vs : List ℕ)
    → NotIn v vs
    → ((w : ℕ) → is_in w vs ≡ true → thread v ≡ thread w → v ≡ w)
    → NotIn (thread v) (map thread vs)
map-NotIn thread v [] n h = tt
map-NotIn thread v (w ∷ rest) n h = (
  (λ e. n.0 (h w (ground arith) e)),
  map-NotIn thread v rest n.1 (λ x m. h x (ground (arith, m))),
)

pub map-Distinct :
    (thread : ℕ → ℕ) (vs : List ℕ)
    → Distinct vs
    → ((v w : ℕ) → is_in v vs ≡ true → is_in w vs ≡ true → thread v ≡ thread w → v ≡ w)
    → Distinct (map thread vs)
map-Distinct thread [] d h = tt
map-Distinct thread (v ∷ rest) d h = (
  map-NotIn thread v rest d.0 (λ w m. h v w (ground arith) (ground (arith, m))),
  map-Distinct thread rest d.1 (λ x y mx my. h x y (ground (arith, mx)) (ground (arith, my))),
)

pub is_in-map :
    (f : ℕ → ℕ) (v : ℕ) (vs : List ℕ) → is_in v vs ≡ true → is_in (f v) (map f vs) ≡ true
is_in-map f v [] h = h
is_in-map f v (w ∷ rest) h = elim (ℕ_discrete w v) [
  | yes e ↦ ground (arith, ap f e)
  | no n ↦ ground (arith, is_in-map f v rest (ground (arith, h, n)))
]

pub calls_same :
    (value : ℕ → Value) (callback : ℕ) (pointer thread : ℕ → ℕ) (vs : List ℕ)
    → ((v : ℕ) → is_in v vs ≡ true → pointer (thread v) ≡ (value v).value)
    → calls_of value callback vs ≡ calls_for callback pointer (map thread vs)
calls_same value callback pointer thread [] h = refl
calls_same value callback pointer thread (v ∷ rest) h =
    rw
      (
        h v (ground arith),
        calls_same value callback pointer thread rest (λ x m. h x (ground (arith, m))),
      )
      refl

pub find-remove :
    (key : ℕ → Key) (k : ℕ) (ks : List ℕ) (j : ℕ)
    → (key k).index ≢ j
    → fls_find_key key (remove k ks) j ≡ fls_find_key key ks j
unfolding fls_find_key remove
find-remove key k [] j n = refl
find-remove key k (x ∷ rest) j n = elim (ℕ_discrete x k) [
  | yes e ↦ ground (arith, e, n, ap key e)
  | no ne ↦ ground (arith, ne, find-remove key k rest j n)
]
