-- ===== src/Actions/Quarantine.antt =====
-- `action_move`, `action_copy` and `action_remove` of src/common/win32actions.c, and their setup.
use clamav_win.Base.{ℕ, suc, Bool, Option, none, some, List, if◌then◌else◌}
use clamav_win.Actions.Source.{Source, action_source_filename}
use clamav_win.Actions.Dest.{Store, Created, getdest}

-- `open`, and `filecopy` and `cli_unlink` of libclamav with the files after them; true is success.
pub record FileCalls : Type 0 where
  pub create : Store → List ℕ → Created
  pub filecopy : Store → (from to : List ℕ) → Bool × Store
  pub unlink : Store → List ℕ → Bool × Store

-- The files and the counters `notmoved` and `notremoved`.
pub record Acted : Type 0 where
  pub files : Store
  pub notmoved : ℕ
  pub notremoved : ℕ

-- What the actions read beside their argument, and whether `getdest` gets its memory.
pub record Target : Type 0 where
  pub actarget : List ℕ
  pub basename : List ℕ → List ℕ
  pub copied : Bool
  pub allocated : ℕ → Bool

abbrev pub not_moved : Store → Acted → Acted
not_moved files acted = record acted { files = files; notmoved = suc acted.notmoved }

module _ (calls : FileCalls) (target : Target) where
  open calls use {create, filecopy, unlink}

  unfoldable pub destination : Store → List ℕ → Option (ℕ × List ℕ × Store)
  destination files filename =
      getdest (create files) target.basename target.actarget filename target.copied target.allocated

  -- After `filecopy`: a file that was not copied is removed again.
  abbrev pub finish_move : (filename name : List ℕ) → Acted → Bool × Store → Acted
  finish_move filename name acted (copied, files) =
      if copied
      then record acted { files = (unlink files filename).1 }
      else not_moved (unlink files name).1 acted

  abbrev pub finish_copy : (name : List ℕ) → Acted → Bool × Store → Acted
  finish_copy name acted (copied, files) =
      if copied then record acted { files = files } else not_moved (unlink files name).1 acted

  abbrev pub move_to : List ℕ → Acted → Option (ℕ × List ℕ × Store) → Acted
  move_to filename acted none = not_moved acted.files acted
  move_to filename acted (some (fd, name, files)) =
      finish_move filename name acted (filecopy files filename name)

  abbrev pub copy_to : List ℕ → Acted → Option (ℕ × List ℕ × Store) → Acted
  copy_to filename acted none = not_moved acted.files acted
  copy_to filename acted (some (fd, name, files)) =
      finish_copy name acted (filecopy files filename name)

  abbrev pub move_file : Option (List ℕ) → Acted → Acted
  move_file none acted = acted
  move_file (some filename) acted = move_to filename acted (destination acted.files filename)

  abbrev pub copy_file : Option (List ℕ) → Acted → Acted
  copy_file none acted = not_moved acted.files acted
  copy_file (some filename) acted = copy_to filename acted (destination acted.files filename)

  abbrev pub remove_file : Option (List ℕ) → Acted → Acted
  remove_file none acted = acted
  remove_file (some filename) acted =
      let (removed, files) = unlink acted.files filename in
      record acted {
        files = files;
        notremoved = if removed then acted.notremoved else suc acted.notremoved;
      }

  unfoldable pub action_move : Source → Acted → Acted
  unfolding destination
  action_move source acted = move_file (action_source_filename source) acted

  unfoldable pub action_copy : Source → Acted → Acted
  unfolding destination
  action_copy source acted = copy_file (action_source_filename source) acted

  unfoldable pub action_remove : Source → Acted → Acted
  action_remove source acted = remove_file (action_source_filename source) acted

-- The options, each with its argument where it is enabled.
pub record Options : Type 0 where
  pub move : Option (List ℕ)
  pub copy : Option (List ℕ)
  pub remove : Bool

pub data Action : Type 0 where
  move copy : (actarget : List ℕ) → Action
  remove nothing : Action

abbrev pub into_directory : (is_directory : Bool) → Action → Option Action
into_directory is_directory action = if is_directory then some action else none

abbrev pub setup_rest : (is_directory : List ℕ → Bool) → Option (List ℕ) → Bool → Option Action
setup_rest is_directory (some target) removing = into_directory (is_directory target) (copy target)
setup_rest is_directory none removing = some (if removing then Action.remove else nothing)

abbrev pub setup : (is_directory : List ℕ → Bool) → Option (List ℕ) → Options → Option Action
setup is_directory (some target) opts = into_directory (is_directory target) (Action.move target)
setup is_directory none opts = setup_rest is_directory opts.copy opts.remove

-- `actsetup` with `isdir`; `none` is its result 1, which sets no action.
unfoldable pub actsetup : (is_directory : List ℕ → Bool) → Options → Option Action
actsetup is_directory opts = setup is_directory opts.move opts
