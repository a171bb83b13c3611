-- ===== src/LongPath/Tests.antt =====
-- Instances of the theorems on src/legacy/shared/getlongpathnamew.c.
use clamav_win.Base.{
  ℕ, ◌≡◌, ◌≤◌, refl, true, false, some, List, [], ◌∷◌, ◌==◌, if◌then◌else◌, length,
}
use clamav_win.LongPath.{
  Calls, get_long_path_name, skip_path_type_indicator, skip_share, determine_dos_path_name_type,
  find_short_name, skip_separators, span_name, is_long_name, is_long_from, expand, expand_loop,
  finish, unchanged,
}
use clamav_win.LongPath.Promise.{Promised, expected, get_long_path_name-Promised}
use clamav_win.LongPath.Bounds.{space, get_long_path_name-InSpace}

-- `C:\AB~1\D`, where `C:\AB~1` is called `LONGER`.
abbrev short_path : List ℕ
short_path = b'C' ∷ b':' ∷ b'\\' ∷ b'A' ∷ b'B' ∷ b'~' ∷ b'1' ∷ b'\\' ∷ b'D' ∷ []

abbrev one_name : Calls
one_name = record {
  room = 20;
  has_buffer = true;
  overlaps = false;
  first_block = true;
  second_block = true;
  starts_unc = λ path. false;
  has_attributes = λ path. true;
  find_first = λ path.
      if length path == 7
      then some (b'L' ∷ b'O' ∷ b'N' ∷ b'G' ∷ b'E' ∷ b'R' ∷ [])
      else some (b'D' ∷ []);
}

long_path_stored :
    (get_long_path_name one_name (some short_path)).stored
    ≡ b'C' ∷ b':' ∷ b'\\' ∷ b'L' ∷ b'O' ∷ b'N' ∷ b'G' ∷ b'E' ∷ b'R' ∷ b'\\' ∷ b'D' ∷ 0 ∷ []
unfolding get_long_path_name skip_path_type_indicator skip_share determine_dos_path_name_type
    find_short_name skip_separators span_name is_long_name is_long_from expand expand_loop finish
    unchanged
long_path_stored = refl

get_long_path_name-Promised_example :
    Promised one_name
      (expected one_name short_path (skip_path_type_indicator one_name.starts_unc short_path))
      (get_long_path_name one_name (some short_path))
get_long_path_name-Promised_example = get_long_path_name-Promised one_name short_path refl refl refl

get_long_path_name-InSpace_example :
    length (get_long_path_name one_name (some short_path)).stored ≤ space one_name
get_long_path_name-InSpace_example = get_long_path_name-InSpace one_name (some short_path)
