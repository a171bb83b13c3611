-- ===== src/LongPath/Loop.antt =====
-- The loop of GetLongPathNameW, src/legacy/shared/getlongpathnamew.c, ends and gives the long form.
use clamav_win.Base.{
  ℕ, zero, suc, ◌+◌, ◌≡◌, ◌≤◌, ◌<◌, refl, true, not, Option, none, some, List, [], ◌∷◌, ◌++◌,
  if◌then◌else◌, arith, Bool-cases, inl, inr, sym, subst, ◌∙◌, length, take, drop, length-append,
  ◌==◌,
}
use mathlib.Core.List.{append_assoc}
use clamav_win.LongPath.{
  is_long_name, skip_separators, span_name, Found, behind, find_short_name, find_short, chosen,
  Calls, Progress, Walked, walked, absent, exhausted, fits, append, named, after_name, expand_loop,
}
use clamav_win.LongPath.Spec.{prepend, replace_by}
use clamav_win.LongPath.Find.{
  long_form-found, long_form-find_short_name, length-span, length-skip, suc_not_zero, prepend_twice,
}

-- The text behind the name that is found is shorter.
abbrev pub Shorter : ℕ → Option Found → Type 0
Shorter n none = Unit
Shorter n (some f) = length f.after < n

Shorter-behind :
    (m n : ℕ) (front : List ℕ) (o : Option Found) → m ≤ n → Shorter m o → Shorter n (behind front o)
Shorter-behind m n front none le h = tt
Shorter-behind m n front (some f) le h = omega arith

length-drop_one : (l : List ℕ) → length (drop 1 l) ≤ length l
length-drop_one [] = omega arith
length-drop_one (c ∷ l) = omega arith

-- One round, by what it finds behind the separators and behind the name.
module _ (fuel n : ℕ) (ih : (q : List ℕ) → Shorter (length q) (find_short_name fuel q)) where
  by_rest :
      (front q : List ℕ)
      → length q < n
      → Shorter n (
          if length q == 0
          then none
          else behind (front ++ take 1 q) (find_short_name fuel (drop 1 q)))
  by_rest front [] h = tt
  by_rest front (d ∷ q) h =
      rw (suc_not_zero (length q)) (
        Shorter-behind (length q) n (front ++ d ∷ []) (find_short_name fuel q) (omega arith) (ih q))

  by_back :
      (front back : List ℕ)
      → length back ≤ n
      → Shorter n (
          let p = span_name (drop 1 back) in
          let w = take 1 back ++ p.front in
          if length back == 0
          then none
          else if not (is_long_name w)
          then some (record { before = front; name = w; after = p.back })
          else if length p.back == 0
          then none
          else behind (front ++ (w ++ take 1 p.back)) (find_short_name fuel (drop 1 p.back)))
  by_back front [] h = tt
  by_back front (c ∷ r) h =
      let span = length-span r in
      let w = c ∷ (span_name r).front in
      let q = (span_name r).back in
      elim (Bool-cases (is_long_name w)) [
        | inl e ↦
            rw (suc_not_zero (length r), e)
              (subst
                (λ (l : List ℕ).
                  Shorter n
                    (if length q == 0 then none else behind l (find_short_name fuel (drop 1 q))))
                (append_assoc front w (take 1 q)) (by_rest (front ++ w) q (omega (arith, span))))
        | inr e ↦ rw (suc_not_zero (length r), e) (omega (arith, span))
      ]

pub find_short_name-Shorter :
    (fuel : ℕ) (path : List ℕ) → Shorter (length path) (find_short_name fuel path)
unfolding find_short_name
find_short_name-Shorter zero path = tt
find_short_name-Shorter (suc fuel) path =
    by_back fuel (length path) (find_short_name-Shorter fuel) (skip_separators path).front
      (skip_separators path).back (omega (arith, length-skip path))

module _ (calls : Calls) where
  -- How the loop ends, where the long form of what is left is `text` and the loop has come to `g`.
  abbrev pub Ends : Option (List ℕ) → Progress → Walked → Type 0
  Ends none g (absent copied) = Unit
  Ends none g (walked g') = ⊥
  Ends none g exhausted = ⊥
  Ends (some text) g (absent copied) = ⊥
  Ends (some text) g exhausted = ⊥
  Ends (some text) g (walked g') =
      (g'.total + length g'.rest ≡ g.total + length text)
      × (fits calls (g.total + length text) ≡ true → g'.text ++ g'.rest ≡ g.text ++ text)

  fits_less : (m n : ℕ) → m ≤ n → fits calls n ≡ true → fits calls m ≡ true
  fits_less m n h f = ground (arith, f)

  -- A part is added before the rest.
  Ends-append :
      (o : Option (List ℕ)) (g : Progress) (part rest : List ℕ) (end : Walked)
      → Ends o (append calls g part rest) end
      → Ends (prepend part o) g end
  Ends-append none g part rest (absent copied) h = tt
  Ends-append none g part rest (walked g') h = elim h [ ]
  Ends-append none g part rest exhausted h = elim h [ ]
  Ends-append (some text) g part rest (absent copied) h = elim h [ ]
  Ends-append (some text) g part rest exhausted h = elim h [ ]
  Ends-append (some text) g part rest (walked g') h = (
    omega (arith, h.0, length-append part text),
    λ f.
        let both : fits calls (g.total + length part + length text) ≡ true =
          subst (λ (n : ℕ). fits calls n ≡ true) (omega (arith, length-append part text)) f in
        let first =
          fits_less (g.total + length part) (g.total + length part + length text) (omega arith)
            both in
        h.1 both ∙ rw first (append_assoc g.text part text),
  )

  named-Ends :
      (path : List ℕ) (f : Found) (g : Progress) (found : Option (List ℕ)) (next : Option Found)
      (again : Found → Progress → Walked) (later : Option (List ℕ))
      → later ≡ long_form-found calls.find_first path next f.after
      → ((x : Found)
          → next ≡ some x
          → (h : Progress)
          → Ends (long_form-found calls.find_first path (some x) f.after) h (again x h))
      → Ends (replace_by f.before f.name found later) g (named calls again f g found next)
  named-Ends path f g none next again later e step = tt
  named-Ends path f g (some long) next again later e step =
      subst (λ (o : Option (List ℕ)). Ends o g (after_name calls again g2 next))
        (prepend_twice f.before (chosen long f.name) later)
        (Ends-append (prepend (chosen long f.name) later) g f.before [] _ (
          Ends-append later (append calls g f.before []) (chosen long f.name) f.after _ (
            subst (λ (o : Option (List ℕ)). Ends o g2 (after_name calls again g2 next)) (sym e)
              (by_next next step))))
    where
      g2 : Progress
      g2 = append calls (append calls g f.before []) (chosen long f.name) f.after

      by_next :
          (next : Option Found)
          → ((x : Found)
              → next ≡ some x
              → (h : Progress)
              → Ends (long_form-found calls.find_first path (some x) f.after) h (again x h))
          → Ends
              (long_form-found calls.find_first path next f.after)
              g2
              (after_name calls again g2 next)
      by_next none step = (refl, λ fit. refl)
      by_next (some x) step = step x refl g2

  -- The loop ends, and comes to the long form.
  pub expand_loop-Ends :
      (fuel : ℕ) (done : List ℕ) (f : Found) (g : Progress)
      → length f.after < fuel
      → Ends (long_form-found calls.find_first done (some f) []) g (expand_loop calls fuel done f g)
  unfolding expand_loop
  expand_loop-Ends zero done f g h = absurd (omega arith)
  expand_loop-Ends (suc fuel) done f g h =
      let path = done ++ (f.before ++ f.name) in
      named-Ends path f g (calls.find_first path) (find_short f.after) (expand_loop calls fuel path)
        _
        (long_form-find_short_name calls.find_first (suc (length f.after)) path f.after
          (omega arith))
        (λ x e k. expand_loop-Ends fuel path x k (
          next_shorter x (find_short f.after)
            (find_short_name-Shorter (suc (length f.after)) f.after) e))
    where
      next_shorter :
          (x : Found) (o : Option Found)
          → Shorter (length f.after) o
          → o ≡ some x
          → length x.after < fuel
      next_shorter x none s e = absurd (ground (arith, e))
      next_shorter x (some y) s e =
          let same : y ≡ x = ground (arith, e) in
          subst (λ (z : Found). length z.after < fuel) same (omega (arith, s, h))
