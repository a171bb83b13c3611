-- ===== src/Actions/Source.antt =====
-- `action_source_t` of src/common/win32actions.c: opening and closing, with a ledger of what the
-- process holds.
pub mod Balance
use clamav_win.Base.{
  ℕ, zero, suc, Bool, true, false, Option, none, some, List, [], ◌∷◌, ◌==◌, if◌then◌else◌,
}

-- The file descriptors, the handles and the number of strings that are not yet given back.
pub record Held : Type 0 where
  pub fds : List ℕ
  pub handles : List ℕ
  pub strings : ℕ

-- A `scan_fd` of -1 and an INVALID_HANDLE_VALUE are `none`.
pub record Source : Type 0 where
  pub display_path : Option (List ℕ)
  pub action_path : Option (List ℕ)
  pub scan_fd : Option ℕ
  pub handle : Option ℕ
  pub has_stat : Bool

pub data Status : Type 0 where
  success earg emem eopen : Status

-- What the calls of one opening return: the two `strdup`, the open or `_dup`, `FSTAT`, `S_ISREG`,
-- `_get_osfhandle` and `DuplicateHandle`.
pub record Calls : Type 0 where
  pub display_copied : Bool
  pub action_copied : Bool
  pub opened : Option ℕ
  pub has_status : Bool
  pub is_regular : Bool
  pub os_handle : Option ℕ
  pub duplicated : Option ℕ

-- `action_source_init`.
abbrev pub action_source_init : Source
action_source_init = record {
  display_path = none;
  action_path = none;
  scan_fd = none;
  handle = none;
  has_stat = false;
}

-- Giving back what is not held is an error, `none`.
abbrev pub give_back : ℕ → List ℕ → Option (List ℕ)
give_back n [] = none
give_back n (m ∷ rest) =
    let later = give_back n rest in
    if n == m then some rest else elim later [ none ↦ none | some l ↦ some (m ∷ l) ]

abbrev pub close_fd : Option ℕ → Held → Option Held
close_fd none held = some held
close_fd (some fd) held = elim (give_back fd held.fds) [
  | none ↦ none
  | some l ↦ some (record held { fds = l })
]

abbrev pub close_handle : Option ℕ → Held → Option Held
close_handle none held = some held
close_handle (some h) held = elim (give_back h held.handles) [
  | none ↦ none
  | some l ↦ some (record held { handles = l })
]

abbrev pub free_string : ℕ → Held → Option Held
free_string zero held = none
free_string (suc n) held = some (record held { strings = n })

abbrev pub free_path : Option (List ℕ) → Held → Option Held
free_path none held = some held
free_path (some path) held = free_string held.strings held

abbrev pub and_then : Option Held → (Held → Option Held) → Option Held
and_then none f = none
and_then (some held) f = f held

-- `action_source_close`: what is held after it; the source is `action_source_init` then.
unfoldable pub action_source_close : Source → Held → Option Held
action_source_close source held =
    and_then
      (and_then (and_then (close_fd source.scan_fd held) (close_handle source.handle))
        (free_path source.display_path))
      (free_path source.action_path)

abbrev pub one_more_string : Held → Held
one_more_string held = record held { strings = suc held.strings }

-- `action_source_set_paths`, for an `action_path` that is not NULL.
unfoldable pub action_source_set_paths :
    Calls → (display action : List ℕ) → Source → Held → Status × Source × Held
action_source_set_paths calls display action source held =
    let named = record source { display_path = some display } in
    let held' = one_more_string held in
    if calls.display_copied
    then (if calls.action_copied
        then (success, record named { action_path = some action }, one_more_string held')
        else (emem, named, held'))
    else (emem, source, held)

-- `action_source_attach_fd` from its `DuplicateHandle` on.
abbrev pub attach_handle : Option ℕ → (fd : ℕ) → Source → Held → Status × Source × Held
attach_handle none fd source held = (eopen, source, held)
attach_handle (some h) fd source held = (
  success,
  record source { scan_fd = some fd; handle = some h },
  record held { handles = h ∷ held.handles },
)

abbrev pub is_some : Option ℕ → Bool
is_some none = false
is_some (some n) = true

-- `action_source_attach_fd`.
unfoldable pub action_source_attach_fd : Calls → (fd : ℕ) → Source → Held → Status × Source × Held
action_source_attach_fd calls fd source held =
    let statted = record source { has_stat = true } in
    if calls.has_status
    then (if calls.is_regular
        then (if is_some calls.os_handle
            then attach_handle calls.duplicated fd statted held
            else (eopen, statted, held))
        else (eopen, statted, held))
    else (eopen, source, held)

-- `done:` of both openings: the descriptor that is still the function's own is closed, and after an
-- error the source is.
unfoldable pub done : (own : Option ℕ) → Status → Source → Held → Option (Status × Source × Held)
unfolding action_source_close
done own success source held = elim (close_fd own held) [
  | none ↦ none
  | some h ↦ some (success, source, h)
]
done own status source held = elim (and_then (close_fd own held) (action_source_close source)) [
  | none ↦ none
  | some h ↦ some (status, action_source_init, h)
]

abbrev pub after_attach : (fd : ℕ) → Status × Source × Held → Option (Status × Source × Held)
after_attach fd (success, source, held) = done none success source held
after_attach fd (status, source, held) = done (some fd) status source held

abbrev pub with_fd : Calls → Option ℕ → Source → Held → Option (Status × Source × Held)
with_fd calls none source held = done none eopen source held
with_fd calls (some fd) source held =
    after_attach fd (action_source_attach_fd calls fd source (record held { fds = fd ∷ held.fds }))

abbrev pub after_paths : Calls → Status × Source × Held → Option (Status × Source × Held)
after_paths calls (success, source, held) = with_fd calls calls.opened source held
after_paths calls (status, source, held) = done none status source held

-- `action_source_open_path`, and `action_source_open` with one path for both; `arguments` says that
-- no argument is NULL.
unfoldable pub action_source_open_path :
    Calls
    → (arguments : Bool) → (display path : List ℕ) → Source
    → Held
    → Option (Status × Source × Held)
unfolding action_source_attach_fd done
action_source_open_path calls arguments display path source held =
    if arguments
    then after_paths calls (action_source_set_paths calls display path action_source_init held)
    else some (earg, source, held)

-- `action_source_from_fd`; `opened` is the result of `_dup`, and `arguments` says as well that the
-- descriptor is not negative.
unfoldable pub action_source_from_fd :
    Calls
    → (arguments : Bool) → (display : List ℕ) → Source
    → Held
    → Option (Status × Source × Held)
unfolding action_source_open_path
action_source_from_fd calls arguments display source held =
    action_source_open_path calls arguments display display source held

abbrev pub filename_or : Option (List ℕ) → Option (List ℕ) → Option (List ℕ)
filename_or none display = display
filename_or (some []) display = display
filename_or (some (c ∷ rest)) display = some (c ∷ rest)

-- `action_source_filename`.
unfoldable pub action_source_filename : Source → Option (List ℕ)
action_source_filename source = filename_or source.action_path source.display_path
