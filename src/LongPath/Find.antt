-- ===== src/LongPath/Find.antt =====
-- FindLFNorSFN_U of src/legacy/shared/getlongpathnamew.c finds the first name that is replaced.
use clamav_win.Base.{
  ℕ, zero, suc, ◌+◌, ◌≡◌, ◌≢◌, ◌≤◌, ◌<◌, refl, true, false, not, Option, none, some, List, [], ◌∷◌,
  ◌++◌, if◌then◌else◌, arith, Bool-cases, inl, inr, sym, ap, ◌∙◌, length, take, drop, length-append,
  ◌==◌,
}
use mathlib.Core.List.{append_assoc, append-nil}
use clamav_win.LongPath.{
  is_separator, is_long_name, skip_separators, span_name, Found, behind, find_short_name, chosen,
}
use clamav_win.LongPath.Spec.{name, glue, tokens, prepend, replace_by, long_form}

pub prepend_twice :
    (a b : List ℕ) (o : Option (List ℕ)) → prepend a (prepend b o) ≡ prepend (a ++ b) o
prepend_twice a b none = refl
prepend_twice a b (some t) = ap some (sym (append_assoc a b t))

prepend_none : (o : Option (List ℕ)) → prepend [] o ≡ o
prepend_none none = refl
prepend_none (some t) = refl

prepend_three :
    (a b c : List ℕ) (o : Option (List ℕ))
    → prepend a (prepend b (prepend c o)) ≡ prepend (a ++ (b ++ c)) o
prepend_three a b c o = ap (prepend a) (prepend_twice b c o) ∙ prepend_twice a (b ++ c) o

prepend-replace_by :
    (front before w : List ℕ) (o later : Option (List ℕ))
    → prepend front (replace_by before w o later) ≡ replace_by (front ++ before) w o later
prepend-replace_by front before w none later = refl
prepend-replace_by front before w (some long) later =
    prepend_twice front (before ++ chosen long w) later
    ∙ rw (append_assoc front before (chosen long w)) refl

cons_not_nil : (d : ℕ) (q : List ℕ) → ◌≢◌ {A = List ℕ} (d ∷ q) []
cons_not_nil d q e = ground (arith, ap length e)

pub suc_not_zero : (n : ℕ) → (suc n == 0) ≡ false
suc_not_zero n = ground arith

-- A separator or the end.
abbrev pub Stops : List ℕ → Type 0
Stops [] = Unit
Stops (c ∷ rest) = is_separator c ≡ true

-- Another character, or the end.
abbrev Starts : List ℕ → Type 0
Starts [] = Unit
Starts (c ∷ rest) = is_separator c ≡ false

skip-Starts :
    (path : List ℕ)
    → (path ≡ (skip_separators path).front ++ (skip_separators path).back)
      × Starts (skip_separators path).back
unfolding skip_separators
skip-Starts [] = (refl, tt)
skip-Starts (c ∷ rest) = elim (Bool-cases (is_separator c)) [
  | inl e ↦ let (p, q) = skip-Starts rest in rw e (ap (◌∷◌ c) p, q)
  | inr e ↦ rw e (refl, e)
]

-- The text behind a name is a text that starts a new token.
tokens-span :
    (path : List ℕ)
    → (path ≡ (span_name path).front ++ (span_name path).back) × Stops (span_name path).back
unfolding span_name
tokens-span [] = (refl, tt)
tokens-span (c ∷ rest) = elim (Bool-cases (is_separator c)) [
  | inl e ↦ rw e (refl, e)
  | inr e ↦ let (p, q) = tokens-span rest in rw e (ap (◌∷◌ c) p, q)
]

glue-stop :
    (c : ℕ) (path : List ℕ) → Stops path → glue c (tokens path) ≡ name (c ∷ []) ∷ tokens path
unfolding tokens
glue-stop c [] h = refl
glue-stop c (d ∷ rest) h = rw h refl

pub length-skip :
    (path : List ℕ)
    → length path ≡ length (skip_separators path).front + length (skip_separators path).back
length-skip path =
    ap length (skip-Starts path).0
    ∙ length-append (skip_separators path).front (skip_separators path).back

pub length-span :
    (path : List ℕ) → length path ≡ length (span_name path).front + length (span_name path).back
length-span path =
    ap length (tokens-span path).0 ∙ length-append (span_name path).front (span_name path).back

drop-shorter : (fuel : ℕ) (l : List ℕ) → l ≢ [] → length l < suc fuel → length (drop 1 l) < fuel
drop-shorter fuel [] n h = absurd (n refl)
drop-shorter fuel (c ∷ l) n h = omega arith

tokens_start :
    (d : ℕ) (rest : List ℕ) → is_separator d ≡ false → tokens (d ∷ rest) ≡ glue d (tokens rest)
unfolding tokens
tokens_start d rest h = rw h refl

-- The first character of a name and the rest of it are one token.
tokens-name :
    (c : ℕ) (path : List ℕ)
    → is_separator c ≡ false
    → tokens (c ∷ path) ≡ name (c ∷ (span_name path).front) ∷ tokens (span_name path).back
unfolding tokens span_name
tokens-name c [] h = rw h refl
tokens-name c (d ∷ rest) h = elim (Bool-cases (is_separator d)) [
  | inl e ↦ rw (h, e) (rw e refl)
  | inr e ↦ rw (h, e) (ap (glue c) (sym (tokens_start d rest e) ∙ tokens-name d rest e))
]

module _ (find : List ℕ → Option (List ℕ)) where
  long_form-separators :
      (done path : List ℕ)
      → long_form find done (tokens path)
        ≡ prepend (skip_separators path).front (
            long_form find
              (done ++ (skip_separators path).front)
              (tokens (skip_separators path).back))
  unfolding long_form tokens skip_separators
  long_form-separators done [] = refl
  long_form-separators done (c ∷ rest) = elim (Bool-cases (is_separator c)) [
    | inl e ↦ rw e (
        ap (prepend (c ∷ [])) (long_form-separators (done ++ c ∷ []) rest)
        ∙ prepend_twice (c ∷ []) _ _
        ∙ rw (append_assoc done (c ∷ []) (skip_separators rest).front) refl)
    | inr e ↦ rw e (sym (prepend_none _ ∙ rw (append-nil done) (rw e refl)))
  ]

  -- What a search that ended so leaves to do.
  abbrev pub long_form-found : (done : List ℕ) → Option Found → List ℕ → Option (List ℕ)
  long_form-found done none path = some path
  long_form-found done (some f) path =
      replace_by f.before f.name (find (done ++ (f.before ++ f.name)))
        (long_form find (done ++ (f.before ++ f.name)) (tokens f.after))

  pub found-behind :
      (done front : List ℕ) (o : Option Found) (path : List ℕ)
      → long_form-found done (behind front o) (front ++ path)
        ≡ prepend front (long_form-found (done ++ front) o path)
  found-behind done front none path = refl
  found-behind done front (some f) path =
      rw (append_assoc front f.before f.name, append_assoc done front (f.before ++ f.name))
        (sym (prepend-replace_by front f.before f.name _ _))

  -- One name behind separators, and what the rounds behind it give.
  name_first :
      (done front w rest : List ℕ) (later : Option Found)
      → Stops rest
      → (rest ≢ []
          → long_form find (done ++ (front ++ (w ++ take 1 rest))) (tokens (drop 1 rest))
            ≡ long_form-found (done ++ (front ++ (w ++ take 1 rest))) later (drop 1 rest))
      → prepend front (long_form find (done ++ front) (name w ∷ tokens rest))
        ≡ long_form-found done
            (if not (is_long_name w)
              then some (record { before = front; name = w; after = rest })
              else if length rest == 0
              then none
              else behind (front ++ (w ++ take 1 rest)) later)
            (front ++ (w ++ rest))
  unfolding long_form tokens
  name_first done front w rest later stops ih = elim (Bool-cases (is_long_name w)) [
    | inl e ↦ rw e (long rest stops ih)
    | inr e ↦
        rw (e, append_assoc done front w)
          (prepend-replace_by front [] w _ _ ∙ rw (append-nil front) refl)
  ]
    where
      long :
          (rest : List ℕ)
          → Stops rest
          → (rest ≢ []
              → long_form find (done ++ (front ++ (w ++ take 1 rest))) (tokens (drop 1 rest))
                ≡ long_form-found (done ++ (front ++ (w ++ take 1 rest))) later (drop 1 rest))
          → prepend front (prepend w (long_form find ((done ++ front) ++ w) (tokens rest)))
            ≡ long_form-found done
                (if length rest == 0 then none else behind (front ++ (w ++ take 1 rest)) later)
                (front ++ (w ++ rest))
      long [] stops ih = refl
      long (d ∷ q) stops ih =
          rw (stops, suc_not_zero (length q))
            (prepend_three front w (d ∷ []) _
              ∙ ap (prepend (front ++ (w ++ d ∷ []))) (
                  rw
                    (append_assoc (done ++ front) w (d ∷ []), append_assoc done front (w ++ d ∷ []))
                    (ih (λ e. cons_not_nil d q e)))
              ∙ sym (found-behind done (front ++ (w ++ d ∷ [])) later q)
              ∙ rw (append_assoc front (w ++ d ∷ []) q, append_assoc w (d ∷ []) q) refl)

  -- One round of the loop, behind the separators.
  round :
      (fuel : ℕ) (done front back : List ℕ)
      → Starts back
      → length back ≤ fuel
      → ((done' q : List ℕ)
          → length q < fuel
          → long_form find done' (tokens q) ≡ long_form-found done' (find_short_name fuel q) q)
      → prepend front (long_form find (done ++ front) (tokens back))
        ≡ long_form-found done
            (let p = span_name (drop 1 back) in
              let w = take 1 back ++ p.front in
              if length back == 0
              then none
              else if not (is_long_name w)
              then some (record { before = front; name = w; after = p.back })
              else if length p.back == 0
              then none
              else behind (front ++ (w ++ take 1 p.back)) (find_short_name fuel (drop 1 p.back)))
            (front ++ back)
  unfolding tokens long_form
  round fuel done front [] starts h ih = refl
  round fuel done front (c ∷ r) starts h ih =
      let (whole, stops) = tokens-span r in
      let p = span_name r in
      let shorter = length-span r in
      rw (suc_not_zero (length r)) (
        ap (λ t. prepend front (long_form find (done ++ front) t)) (tokens-name c r starts)
        ∙ name_first done front (c ∷ p.front) p.back (find_short_name fuel (drop 1 p.back)) stops
            (λ n. ih _ (drop 1 p.back) (drop-shorter fuel p.back n (omega (arith, shorter))))
        ∙ ap
            (λ l.
              long_form-found done
                (if not (is_long_name (c ∷ p.front))
                  then some (record { before = front; name = c ∷ p.front; after = p.back })
                  else if length p.back == 0
                  then none
                  else behind (front ++ ((c ∷ p.front) ++ take 1 p.back))
                      (find_short_name fuel (drop 1 p.back)))
                (front ++ c ∷ l))
            (sym whole))

  -- The long form, by what the search finds; the fuel is enough.
  pub long_form-find_short_name :
      (fuel : ℕ) (done path : List ℕ)
      → length path < fuel
      → long_form find done (tokens path) ≡ long_form-found done (find_short_name fuel path) path
  unfolding find_short_name
  long_form-find_short_name zero done path h = absurd (omega arith)
  long_form-find_short_name (suc fuel) done path h =
      let (whole, starts) = skip-Starts path in
      let s = skip_separators path in
      long_form-separators done path
      ∙ round fuel done s.front s.back starts
          (omega (arith, ap length whole, length-append s.front s.back))
          (long_form-find_short_name fuel)
      ∙ ap (long_form-found done (find_short_name (suc fuel) path)) (sym whole)
