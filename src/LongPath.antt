-- ===== src/LongPath.antt =====
-- src/legacy/shared/getlongpathnamew.c: GetLongPathNameW. A wide string is the list of its
-- characters before the NUL; a pointer into one is what stands before it and what follows.
pub mod Spec
pub mod Find
pub mod Loop
pub mod Promise
pub mod Bounds
mod Tests
use clamav_win.Base.{
  ℕ, zero, suc, ◌+◌, ◌%◌, Bool, true, false, not, ◌&&◌, ◌||◌, Option, none, some, List, [], ◌∷◌,
  ◌++◌, ltb, ◌==◌, if◌then◌else◌, length, take, drop, get_or,
}

abbrev pub is_separator : ℕ → Bool
is_separator c = c == b'\\' || c == b'/'

-- RTL_PATH_TYPE, the types that occur.
pub data PathType : Type 0 where
  relative drive_absolute drive_relative rooted unc_absolute local_device root_local_device :
      PathType

-- The character of a string at a place, NUL behind its end.
abbrev pub char_at : List ℕ → ℕ → ℕ
char_at path i = get_or path i 0

-- `RtlDetermineDosPathNameType_U`.
unfoldable pub determine_dos_path_name_type : List ℕ → PathType
determine_dos_path_name_type path =
    if not (is_separator (char_at path 0))
    then if char_at path 0 == 0 || not (char_at path 1 == b':')
      then relative
      else if is_separator (char_at path 2)
      then drive_absolute
      else drive_relative
    else if not (is_separator (char_at path 1))
    then rooted
    else if not (char_at path 2 == b'.' || char_at path 2 == b'?')
    then unc_absolute
    else if is_separator (char_at path 3)
    then local_device
    else if char_at path 3 == 0
    then root_local_device
    else unc_absolute

-- How far the loop over the server and the share goes, which ends behind the separator number `i`.
unfoldable pub skip_share : List ℕ → (i : ℕ) → ℕ
skip_share [] i = 0
skip_share (c ∷ rest) zero = 0
skip_share (c ∷ rest) (suc i) = suc (skip_share rest (if is_separator c then i else suc i))

-- `SkipPathTypeIndicator_U`: how many characters stand before the place that it returns, none for
-- NULL; `starts_unc` is whether wcsnicmp finds `?\UNC` at the start of the path.
unfoldable pub skip_path_type_indicator : (starts_unc : List ℕ → Bool) → List ℕ → Option ℕ
unfolding determine_dos_path_name_type skip_share
skip_path_type_indicator starts_unc path =
    let start = if starts_unc path then 8 else 2 in
    elim (determine_dos_path_name_type path) [
      | unc_absolute ↦ some (start + skip_share (drop start path) 2)
      | drive_absolute ↦ some 3
      | drive_relative ↦ some 2
      | rooted ↦ some 1
      | relative ↦ some 0
      | _ ↦ none
    ]

-- The loop of IsLongName_U from place `i` on, with `dots` characters to come after the first.
unfoldable pub is_long_from : List ℕ → (i : ℕ) → (has_ext : Bool) → Bool
is_long_from [] i has_ext = false
is_long_from (c ∷ rest) i has_ext =
    let later = is_long_from rest (suc i) (c == b'.' || has_ext) in
    if c == b'.' && (has_ext || ltb 3 (length rest))
    then true
    else if ltb 7 i && not (c == b'.' || has_ext)
    then true
    else later

-- `IsLongName_U` of a name.
unfoldable pub is_long_name : List ℕ → Bool
unfolding is_long_from
is_long_name name =
    if length name == 0 || (ltb 12 (length name) || char_at name 0 == b'.')
    then true
    else is_long_from name 0 false

-- A path cut in two.
pub record Cut : Type 0 where
  pub front : List ℕ
  pub back : List ℕ

abbrev pub push : ℕ → Cut → Cut
push c k = record { front = c ∷ k.front; back = k.back }

-- The separators that a path starts with.
unfoldable pub skip_separators : List ℕ → Cut
skip_separators [] = record { front = []; back = [] }
skip_separators (c ∷ rest) =
    if is_separator c then push c (skip_separators rest) else record { front = []; back = c ∷ rest }

-- The characters up to a separator or the end.
unfoldable pub span_name : List ℕ → Cut
span_name [] = record { front = []; back = [] }
span_name (c ∷ rest) =
    if is_separator c then record { front = []; back = c ∷ rest } else push c (span_name rest)

-- What FindLFNorSFN_U finds: what stands before `*First`, the name, and the text from `*Last` on.
pub record Found : Type 0 where
  pub before : List ℕ
  pub name : List ℕ
  pub after : List ℕ

abbrev pub behind : List ℕ → Option Found → Option Found
behind front none = none
behind front (some f) = some (record f { before = front ++ f.before })

-- `FindLFNorSFN_U` for short names, one round of its loop for each unit of fuel.
unfoldable pub find_short_name : (fuel : ℕ) → List ℕ → Option Found
unfolding is_long_name skip_separators span_name
find_short_name zero path = none
find_short_name (suc fuel) path =
    let s = skip_separators path in
    let p = span_name (drop 1 s.back) in
    let name = take 1 s.back ++ p.front in
    let later = find_short_name fuel (drop 1 p.back) in
    if length s.back == 0
    then none
    else if not (is_long_name name)
    then some (record { before = s.front; name = name; after = p.back })
    else if length p.back == 0
    then none
    else behind (s.front ++ (name ++ take 1 p.back)) later

-- The rounds that a path can take.
abbrev pub find_short : List ℕ → Option Found
find_short path = find_short_name (suc (length path)) path

-- What the caller and the system give: the room in the buffer, whether there is one, and whether it
-- overlaps the short path; whether the two allocations succeed; the attributes and the name of a
-- file, if it is there.
pub record Calls : Type 0 where
  pub room : ℕ
  pub has_buffer : Bool
  pub overlaps : Bool
  pub first_block : Bool
  pub second_block : Bool
  pub starts_unc : List ℕ → Bool
  pub has_attributes : List ℕ → Bool
  pub find_first : List ℕ → Option (List ℕ)

pub data Error : Type 0 where
  invalid_parameter not_enough_memory : Error

-- What the function returns, the characters that it stores from the start of the caller's buffer on,
-- the NUL included, and the error that it sets.
pub record Result : Type 0 where
  pub returned : ℕ
  pub stored : List ℕ
  pub error : Option Error

-- The state of the loop: ReturnLength, the characters at the destination, and the text from Src on.
pub record Progress : Type 0 where
  pub total : ℕ
  pub text : List ℕ
  pub rest : List ℕ

-- How the loop ends: behind the last short name, or where FindFirstFileW fails, with what has been copied
-- to the destination; or the rounds run out.
pub data Walked : Type 0 where
  walked : Progress → Walked
  absent : (text : List ℕ) → Walked
  exhausted : Walked

-- The name that FindFirstFileW gives, unless it is empty.
abbrev pub chosen : (long name : List ℕ) → List ℕ
chosen long name = if length long == 0 then name else long

module _ (calls : Calls) where
  -- The text fits with its NUL.
  abbrev pub fits : ℕ → Bool
  fits total = ltb total calls.room && calls.has_buffer

  -- A part is added to the length, and copied while all fits.
  abbrev pub append : Progress → (part : List ℕ) → (rest : List ℕ) → Progress
  append g part rest =
      let total = g.total + length part in
      record { total = total; text = if fits total then g.text ++ part else g.text; rest = rest }

  -- The end of a round: `next` is the next short name, found behind the last.
  abbrev pub after_name : (Found → Progress → Walked) → Progress → Option Found → Walked
  after_name again g none = walked g
  after_name again g (some next) = again next g

  -- A round once FindFirstFileW has returned.
  abbrev pub named :
      (Found → Progress → Walked) → Found → Progress → Option (List ℕ) → Option Found → Walked
  named again f g none next = absent (append g f.before []).text
  named again f g (some long) next =
      after_name again (append (append g f.before []) (chosen long f.name) f.after) next

  -- The loop of GetLongPathNameW; `done` is the short path up to Src, `f` where the next short name
  -- stands behind it.
  unfoldable pub expand_loop : (fuel : ℕ) → (done : List ℕ) → Found → Progress → Walked
  unfolding find_short_name
  expand_loop zero done f g = exhausted
  expand_loop (suc fuel) done f g =
      let path = done ++ (f.before ++ f.name) in
      named (expand_loop fuel path) f g (calls.find_first path) (find_short f.after)

  abbrev pub dword : ℕ → ℕ
  dword n = n % 4294967296

  -- The tail behind the last short name, and the NUL; a separate buffer is copied only when complete.
  unfoldable pub finish : Walked → Result
  finish exhausted = record { returned = 0; stored = []; error = none }
  finish (absent text) = record {
    returned = 0;
    stored = if calls.overlaps then [] else text;
    error = none;
  }
  finish (walked g) =
      let total = g.total + length g.rest in
      if fits total
      then record { returned = dword total; stored = g.text ++ (g.rest ++ 0 ∷ []); error = none }
      else record {
        returned = dword (total + 1);
        stored = if calls.overlaps then [] else g.text;
        error = none;
      }

  -- GetLongPathNameW where the path has a short name behind `prefix`.
  unfoldable pub expand : (path prefix : List ℕ) → Found → Result
  unfolding expand_loop finish
  expand path prefix f =
      if not calls.first_block
      then record { returned = 0; stored = []; error = some not_enough_memory }
      else if calls.overlaps
          && (not (calls.room == 0) && (calls.has_buffer && not calls.second_block))
      then record { returned = 0; stored = []; error = some not_enough_memory }
      else finish (
          expand_loop (suc (length path)) [] (record f { before = prefix ++ f.before })
            (record { total = 0; text = []; rest = [] }))

  -- It has none, and is copied whole.
  unfoldable pub unchanged : (path : List ℕ) → Result
  unchanged path =
      if fits (length path)
      then record { returned = dword (length path); stored = path ++ 0 ∷ []; error = none }
      else record { returned = dword (length path + 1); stored = []; error = none }

  abbrev pub from_found : (path prefix : List ℕ) → Option Found → Result
  from_found path prefix none = unchanged path
  from_found path prefix (some f) = expand path prefix f

  abbrev pub from_name : (path : List ℕ) → Option ℕ → Result
  from_name path none = unchanged path
  from_name path (some n) = from_found path (take n path) (find_short (drop n path))

  -- `GetLongPathNameW`; a path of none is NULL.
  unfoldable pub get_long_path_name : Option (List ℕ) → Result
  unfolding skip_path_type_indicator find_short_name expand unchanged
  get_long_path_name none = record { returned = 0; stored = []; error = some invalid_parameter }
  get_long_path_name (some path) =
      if not (calls.has_attributes path)
      then record { returned = 0; stored = []; error = none }
      else from_name path (skip_path_type_indicator calls.starts_unc path)
