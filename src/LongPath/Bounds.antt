-- ===== src/LongPath/Bounds.antt =====
-- What GetLongPathNameW stores stays in the caller's buffer, src/legacy/shared/getlongpathnamew.c.
use clamav_win.Base.{
  ℕ, zero, suc, ◌+◌, ◌≡◌, ◌≤◌, ◌<◌, Bool, true, false, not, ◌&&◌, Option, none, some, List, [], ◌∷◌,
  ◌++◌, if◌then◌else◌, arith, Bool-cases, inl, inr, length, take, drop, length-append, ◌==◌,
}
use clamav_win.LongPath.{
  Found, find_short, Calls, Progress, Walked, walked, absent, exhausted, Result, fits, expand_loop,
  finish, expand, unchanged, from_name, from_found, skip_path_type_indicator, get_long_path_name,
  append, named, chosen,
}

module _ (calls : Calls) where
  -- The characters that the caller's buffer has room for.
  abbrev pub space : ℕ
  space = if calls.has_buffer then calls.room else 0

  InSpace : Progress → Type 0
  InSpace g = (length g.text ≤ g.total) × (length g.text ≤ space)

  fits-space : (n : ℕ) → fits calls n ≡ true → n < space
  fits-space n f = ground (arith, f)

  append-InSpace :
      (g : Progress) (part rest : List ℕ) → InSpace g → InSpace (append calls g part rest)
  unfolding InSpace
  append-InSpace g part rest h = elim (Bool-cases (fits calls (g.total + length part))) [
    | inl f ↦
        let room = fits-space (g.total + length part) f in
        let sum = length-append g.text part in
        rw f (omega (arith, sum, h.0), omega (arith, sum, room, h.0))
    | inr f ↦ rw f (omega (arith, h.0), h.1)
  ]

  InSpaceEnd : Walked → Type 0
  InSpaceEnd exhausted = Unit
  InSpaceEnd (absent text) = length text ≤ space
  InSpaceEnd (walked g) = InSpace g

  expand_loop-InSpace :
      (fuel : ℕ) (done : List ℕ) (f : Found) (g : Progress)
      → InSpace g
      → InSpaceEnd (expand_loop calls fuel done f g)
  unfolding expand_loop InSpaceEnd InSpace
  expand_loop-InSpace zero done f g h = tt
  expand_loop-InSpace (suc fuel) done f g h =
      round (expand_loop calls fuel (done ++ (f.before ++ f.name)))
        (calls.find_first (done ++ (f.before ++ f.name))) (find_short f.after)
        (expand_loop-InSpace fuel (done ++ (f.before ++ f.name)))
    where
      round :
          (again : Found → Progress → Walked) (found : Option (List ℕ)) (next : Option Found)
          → ((x : Found) (k : Progress) → InSpace k → InSpaceEnd (again x k))
          → InSpaceEnd (named calls again f g found next)
      round again none next ih = (append-InSpace g f.before [] h).1
      round again (some long) none ih =
          append-InSpace (append calls g f.before []) (chosen long f.name) f.after
            (append-InSpace g f.before [] h)
      round again (some long) (some x) ih = ih x _ (
          append-InSpace (append calls g f.before []) (chosen long f.name) f.after
            (append-InSpace g f.before [] h))

  finish-InSpace : (end : Walked) → InSpaceEnd end → length (finish calls end).stored ≤ space
  unfolding finish InSpaceEnd InSpace
  finish-InSpace exhausted h = omega arith
  finish-InSpace (absent text) h = elim (Bool-cases calls.overlaps) [
    | inl o ↦ rw o (omega arith)
    | inr o ↦ rw o h
  ]
  finish-InSpace (walked g) h = elim (Bool-cases (fits calls (g.total + length g.rest))) [
    | inl f ↦
        let room = fits-space (g.total + length g.rest) f in
        rw f (
          omega (
            arith,
            length-append g.text (g.rest ++ 0 ∷ []),
            length-append g.rest (0 ∷ []),
            room,
            h.0,
          ))
    | inr f ↦
        rw f (elim (Bool-cases calls.overlaps) [ inl o ↦ rw o (omega arith) | inr o ↦ rw o h.1 ])
  ]

  unchanged-InSpace : (path : List ℕ) → length (unchanged calls path).stored ≤ space
  unfolding unchanged
  unchanged-InSpace path = elim (Bool-cases (fits calls (length path))) [
    | inl f ↦
        let room = fits-space (length path) f in
        rw f (omega (arith, length-append path (0 ∷ []), room))
    | inr f ↦ rw f (omega arith)
  ]

  either-InSpace :
      (b : Bool) (x y : Result)
      → length x.stored ≤ space
      → length y.stored ≤ space
      → length (if b then x else y).stored ≤ space
  either-InSpace true x y hx hy = hx
  either-InSpace false x y hx hy = hy

  expand-InSpace :
      (path prefix : List ℕ) (f : Found) → length (expand calls path prefix f).stored ≤ space
  unfolding expand InSpace
  expand-InSpace path prefix f = either-InSpace (not calls.first_block) _ _ (omega arith) (
      either-InSpace
        (calls.overlaps && (not (calls.room == 0) && (calls.has_buffer && not calls.second_block)))
        _ _ (omega arith)
        (finish-InSpace _ (
          expand_loop-InSpace (suc (length path)) [] (record f { before = prefix ++ f.before })
            (record { total = 0; text = []; rest = [] }) (omega arith, omega arith))))

  from_name-InSpace :
      (path : List ℕ) (at : Option ℕ) → length (from_name calls path at).stored ≤ space
  from_name-InSpace path none = unchanged-InSpace path
  from_name-InSpace path (some n) = by_found (find_short (drop n path))
    where
      by_found : (o : Option Found) → length (from_found calls path (take n path) o).stored ≤ space
      by_found none = unchanged-InSpace path
      by_found (some f) = expand-InSpace path (take n path) f

-- Whatever the file system answers and whichever allocation fails, GetLongPathNameW stores no more
-- characters in the caller's buffer, the NUL included, than this has room for, and none without a buffer.
pub get_long_path_name-InSpace :
    (calls : Calls) (path : Option (List ℕ))
    → length (get_long_path_name calls path).stored ≤ space calls
unfolding get_long_path_name
get_long_path_name-InSpace calls none = omega arith
get_long_path_name-InSpace calls (some path) = elim (Bool-cases (calls.has_attributes path)) [
  | inl e ↦ rw e (from_name-InSpace calls path (skip_path_type_indicator calls.starts_unc path))
  | inr e ↦ rw e (omega arith)
]
