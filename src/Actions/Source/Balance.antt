-- ===== src/Actions/Source/Balance.antt =====
-- The openings of src/common/win32actions.c neither leak nor close twice.
use clamav_win.Base.{
  subst, sym, Bool-cases, inl, inr, ◌∷◌, ℕ, ◌≡◌, refl, Bool, true, false, Option, none, some, List,
  arith,
}
use clamav_win.Actions.Source.{
  Held, Source, give_back, one_more_string, after_attach, attach_handle, with_fd, is_some, Status,
  success, earg, eopen, Calls, action_source_init, action_source_close, action_source_set_paths,
  action_source_attach_fd, done, action_source_open_path, action_source_from_fd,
}

-- What an opening may end with. After CL_SUCCESS, `action_source_close` gives back all that was taken
-- since; after an error of a call there is nothing to give back.
abbrev pub Balanced : (before : Source) → Held → Option (Status × Source × Held) → Type 0
Balanced before held none = ⊥
Balanced before held (some (success, source, now)) = action_source_close source now ≡ some held
Balanced before held (some (earg, source, now)) = (source ≡ before) × (now ≡ held)
Balanced before held (some (status, source, now)) = (source ≡ action_source_init) × (now ≡ held)

pub give_back-head : (n : ℕ) (l : List ℕ) → give_back n (n ∷ l) ≡ some l
give_back-head n l = ground arith

module _ (display path : List ℕ) (before : Source) (held : Held) where
  -- The source with both paths, and what is held with a descriptor beside them.
  abbrev named : Bool → Source
  named stat = record action_source_init {
    display_path = some display;
    action_path = some path;
    has_stat = stat;
  }

  abbrev with_paths : Held
  with_paths = one_more_string (one_more_string held)

  failed-Balanced :
      (fd : ℕ) (stat : Bool)
      → Balanced before held
          (done (some fd) eopen (named stat) (record with_paths { fds = fd ∷ held.fds }))
  unfolding done action_source_close
  failed-Balanced fd stat =
      let own = give_back-head fd held.fds in
      let t : done (some fd) eopen (named stat) (record with_paths { fds = fd ∷ held.fds })
          ≡ some (eopen, action_source_init, held) =
        ground (arith, own) in
      subst (Balanced before held) (sym t) (refl, refl)

  attach-Balanced :
      (fd : ℕ) (o : Option ℕ)
      → Balanced before held (
          after_attach fd
            (attach_handle o fd (named true) (record with_paths { fds = fd ∷ held.fds })))
  unfolding done action_source_close
  attach-Balanced fd none = failed-Balanced fd true
  attach-Balanced fd (some h) =
      ground (arith, give_back-head fd held.fds, give_back-head h held.handles)

  with_fd-Balanced :
      (calls : Calls) (o : Option ℕ)
      → Balanced before held (with_fd calls o (named false) with_paths)
  unfolding action_source_attach_fd done action_source_close
  with_fd-Balanced calls none = (refl, refl)
  with_fd-Balanced calls (some fd) = elim (Bool-cases calls.has_status) [
    | inr e ↦ rw e (failed-Balanced fd false)
    | inl e ↦ rw e (elim (Bool-cases calls.is_regular) [
      | inr r ↦ rw r (failed-Balanced fd true)
      | inl r ↦ rw r (elim (Bool-cases (is_some calls.os_handle)) [
        | inr h ↦ rw h (failed-Balanced fd true)
        | inl h ↦ rw h (attach-Balanced fd calls.duplicated)
      ])
    ])
  ]

opening-Balanced :
    (calls : Calls) (arguments : Bool) (display path : List ℕ) (before : Source) (held : Held)
    → Balanced before held (action_source_open_path calls arguments display path before held)
unfolding action_source_open_path action_source_set_paths action_source_attach_fd done
    action_source_close
opening-Balanced calls arguments display path before held = elim (Bool-cases arguments) [
  | inr e ↦ rw e (refl, refl)
  | inl e ↦ rw e (elim (Bool-cases calls.display_copied) [
    | inr d ↦ rw d (refl, refl)
    | inl d ↦ rw d (elim (Bool-cases calls.action_copied) [
      | inr a ↦ rw a (refl, refl)
      | inl a ↦ rw a (with_fd-Balanced display path before held calls calls.opened)
    ])
  ])
]

-- Whatever the system's calls return, opening a source for an action, by its path or from a
-- descriptor, never closes or frees what it does not hold; where it fails it leaves what the process
-- holds as it was, and where it succeeds closing the source restores that.
pub open_path-Balanced :
    (calls : Calls) (arguments : Bool) (display path : List ℕ) (before : Source) (held : Held)
    → Balanced before held (action_source_open_path calls arguments display path before held)
      × Balanced before held (action_source_from_fd calls arguments display before held)
unfolding action_source_from_fd
open_path-Balanced calls arguments display path before held = (
  opening-Balanced calls arguments display path before held,
  opening-Balanced calls arguments display display before held,
)
