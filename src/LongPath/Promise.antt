-- ===== src/LongPath/Promise.antt =====
-- The results of GetLongPathNameW, src/legacy/shared/getlongpathnamew.c.
use clamav_win.Base.{
  ℕ, suc, ◌+◌, ◌≡◌, ◌≤◌, refl, Bool, true, false, not, ◌&&◌, Option, none, some, List, [], ◌∷◌,
  ◌++◌, arith, sym, subst, ap, ◌∙◌, length, take, drop, length-drop, take-append-drop, ◌==◌,
}
use mathlib.Core.List.{append_assoc}
use clamav_win.LongPath.{
  Found, behind, find_short, Calls, Progress, Walked, walked, absent, exhausted, Result, fits,
  dword, finish, expand, unchanged, from_name, from_found, skip_path_type_indicator,
  get_long_path_name,
}
use clamav_win.LongPath.Spec.{tokens, prepend, long_form}
use clamav_win.LongPath.Find.{long_form-found, long_form-find_short_name, found-behind}
use clamav_win.LongPath.Loop.{Ends, Shorter, expand_loop-Ends, find_short_name-Shorter}

module _ (calls : Calls) where
  -- The long form of a path; a path with no place for names in it is its own.
  abbrev pub expected : (path : List ℕ) → Option ℕ → Option (List ℕ)
  expected path none = some path
  expected path (some n) =
      prepend (take n path) (long_form calls.find_first (take n path) (tokens (drop n path)))

  -- What is returned and stored, by the long form.
  abbrev pub Promised : Option (List ℕ) → Result → Type 0
  Promised none r = (r.returned ≡ 0) × (r.error ≡ none)
  Promised (some text) r =
      (fits calls (length text) ≡ true
        → (r.returned ≡ dword calls (length text)) × (r.stored ≡ text ++ 0 ∷ []))
      × (fits calls (length text) ≡ false → r.returned ≡ dword calls (length text + 1))

  start : Progress
  start = record { total = 0; text = []; rest = [] }

  finish-Promised :
      (o : Option (List ℕ)) (end : Walked) → Ends calls o start end → Promised o (finish calls end)
  unfolding finish start
  finish-Promised none (absent copied) h = (refl, refl)
  finish-Promised none (walked g) h = elim h [ ]
  finish-Promised none exhausted h = elim h [ ]
  finish-Promised (some text) (absent copied) h = elim h [ ]
  finish-Promised (some text) exhausted h = elim h [ ]
  finish-Promised (some text) (walked g) h =
      let e : g.total + length g.rest ≡ length text = omega (arith, h.0) in
      let whole = λ (f : fits calls (length text) ≡ true).
        h.1 (subst (λ (n : ℕ). fits calls n ≡ true) (omega arith) f) in
      (
        (λ f.
            rw (e, f)
              (refl, sym (append_assoc g.text g.rest (0 ∷ [])) ∙ ap (λ l. l ++ 0 ∷ []) (whole f))),
        (λ f. rw (e, f) refl),
      )

  unchanged-Promised : (path : List ℕ) → Promised (some path) (unchanged calls path)
  unfolding unchanged
  unchanged-Promised path = ((λ f. rw f (refl, refl)), (λ f. rw f refl))

  never : (a b c : Bool) → (a && (b && (c && false))) ≡ false
  never a b c = ground arith

  module _ (path : List ℕ) (first_ok : calls.first_block ≡ true)
      (second_ok : calls.second_block ≡ true) where
    expand-Promised :
        (prefix : List ℕ) (f : Found)
        → length f.after ≤ length path
        → Promised
            (long_form-found calls.find_first [] (behind prefix (some f)) path)
            (expand calls path prefix f)
    unfolding expand start
    expand-Promised prefix f h =
        rw (first_ok, second_ok, never calls.overlaps (not (calls.room == 0)) calls.has_buffer)
          (finish-Promised _ _ (
            expand_loop-Ends calls (suc (length path)) [] (record f { before = prefix ++ f.before })
              start (omega arith)))

    from_found-Promised :
        (n : ℕ) (o : Option Found)
        → Shorter (length (drop n path)) o
        → Promised
            (long_form-found calls.find_first [] (behind (take n path) o) path)
            (from_found calls path (take n path) o)
    from_found-Promised n none h = unchanged-Promised path
    from_found-Promised n (some f) h =
        expand-Promised (take n path) f (omega (arith, length-drop n path, h))

    from_name-Promised : (at : Option ℕ) → Promised (expected path at) (from_name calls path at)
    from_name-Promised none = unchanged-Promised path
    from_name-Promised (some n) =
        let rest = drop n path in
        let fuel = suc (length rest) in
        subst (λ (o : Option (List ℕ)). Promised o (from_name calls path (some n)))
          (sym (
            ap (prepend (take n path))
              (long_form-find_short_name calls.find_first fuel (take n path) rest (omega arith))
            ∙ sym (found-behind calls.find_first [] (take n path) (find_short rest) rest)
            ∙ ap (long_form-found calls.find_first [] (behind (take n path) (find_short rest)))
                (take-append-drop n path)))
          (from_found-Promised n (find_short rest) (find_short_name-Shorter fuel rest))

-- Where the path has attributes and the allocations succeed, GetLongPathNameW returns 0 and sets no error itself if the
-- file system does not give a name that is to be replaced; else the long form is the path with every such name behind
-- its type indicator replaced, and it stores the long form with a NUL and returns its length if
-- they fit the buffer, and returns the length with the NUL if not. It never runs out of rounds.
pub get_long_path_name-Promised :
    (calls : Calls) (path : List ℕ)
    → calls.has_attributes path ≡ true
    → calls.first_block ≡ true
    → calls.second_block ≡ true
    → Promised calls
        (expected calls path (skip_path_type_indicator calls.starts_unc path))
        (get_long_path_name calls (some path))
unfolding get_long_path_name
get_long_path_name-Promised calls path there first_ok second_ok = rw there (
    from_name-Promised calls path first_ok second_ok
      (skip_path_type_indicator calls.starts_unc path))
