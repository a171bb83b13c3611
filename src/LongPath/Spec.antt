-- ===== src/LongPath/Spec.antt =====
-- What GetLongPathNameW promises: a path is cut into separators and names, and each name that is not a
-- long one is replaced by the name that the file system gives for the path up to it.
use clamav_win.Base.{ℕ, Option, none, some, List, [], ◌∷◌, ◌++◌, if◌then◌else◌}
use clamav_win.LongPath.{is_separator, is_long_name, chosen}

pub data Token : Type 0 where
  separator : ℕ → Token
  name : List ℕ → Token

abbrev pub glue : ℕ → List Token → List Token
glue c [] = name (c ∷ []) ∷ []
glue c (separator d ∷ rest) = name (c ∷ []) ∷ separator d ∷ rest
glue c (name w ∷ rest) = name (c ∷ w) ∷ rest

unfoldable pub tokens : List ℕ → List Token
tokens [] = []
tokens (c ∷ rest) = if is_separator c then separator c ∷ tokens rest else glue c (tokens rest)

abbrev pub prepend : List ℕ → Option (List ℕ) → Option (List ℕ)
prepend front none = none
prepend front (some text) = some (front ++ text)

-- A name behind `front` is replaced by the one that is found for it, if one is, and more follows.
abbrev pub replace_by : (front w : List ℕ) → Option (List ℕ) → Option (List ℕ) → Option (List ℕ)
replace_by front w none later = none
replace_by front w (some long) later = prepend (front ++ chosen long w) later

-- `find` gives the name of a file by its path.
module _ (find : List ℕ → Option (List ℕ)) where
  -- The long form of the tokens behind `done`, if every short name is found.
  unfoldable pub long_form : (done : List ℕ) → List Token → Option (List ℕ)
  long_form done [] = some []
  long_form done (separator c ∷ rest) = prepend (c ∷ []) (long_form (done ++ c ∷ []) rest)
  long_form done (name w ∷ rest) =
      let later = long_form (done ++ w) rest in
      if is_long_name w then prepend w later else replace_by [] w (find (done ++ w)) later
