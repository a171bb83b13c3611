-- ===== src/ScanMem/Ready.antt =====
-- What `scanfile` of src/common/scanmem.c has opened before it scans.
use clamav_win.Base.{
  ℕ, ◌≡◌, refl, Bool, true, false, ◌⊎◌, inl, inr, Option, none, some, List, ◌∷◌, ap, Bool-cases,
}
use clamav_win.Actions.Source.{
  one_more_string, Held, Source, Status, success, earg, emem, Calls, action_source_init,
  action_source_close, close_fd, and_then, action_source_open_path, action_source_attach_fd,
  action_source_set_paths, done, is_some, with_fd, after_attach, attach_handle,
}
use clamav_win.Actions.Source.Balance.{Balanced, open_path-Balanced}
use clamav_win.ScanMem.{or_else, chain}
use clamav_win.ScanMem.File.{Answers, Job, Prepared, prepared, prepare, open_at, close_source}

-- A source that opened has a descriptor.
Opened : Option (Status × Source × Held) → Type 0
Opened none = Unit
Opened (some (success, source, held)) = (fd : ℕ) × (source.scan_fd ≡ some fd)
Opened (some (status, source, held)) = Unit

-- The error ends of an opening.
done-Opened :
    (own : Option ℕ) (source : Source) (held : Held)
    → Opened (done own Status.eopen source held) × Opened (done own emem source held)
unfolding Opened done
done-Opened own source held = (
  by_held (and_then (close_fd own held) (action_source_close source)),
  by_held' (and_then (close_fd own held) (action_source_close source)),
)
  where
    by_held :
        (o : Option Held)
        → Opened (elim o as (λ (x : Option Held). Option (Status × Source × Held)) [
          | none ↦ none
          | some h ↦ some (Status.eopen, action_source_init, h)
        ])
    by_held none = tt
    by_held (some h) = tt

    by_held' :
        (o : Option Held)
        → Opened (elim o as (λ (x : Option Held). Option (Status × Source × Held)) [
          | none ↦ none
          | some h ↦ some (emem, action_source_init, h)
        ])
    by_held' none = tt
    by_held' (some h) = tt

attach-Opened :
    (o : Option ℕ) (fd : ℕ) (source : Source) (held : Held)
    → Opened (after_attach fd (attach_handle o fd source held))
unfolding Opened done
attach-Opened none fd source held = (done-Opened (some fd) source held).0
attach-Opened (some h) fd source held = (fd, refl)

with_fd-Opened :
    (calls : Calls) (o : Option ℕ) (source : Source) (held : Held)
    → Opened (with_fd calls o source held)
unfolding action_source_attach_fd
with_fd-Opened calls none source held = (done-Opened none source held).0
with_fd-Opened calls (some fd) source held = elim (Bool-cases calls.has_status) [
  | inr e ↦ rw e (done-Opened (some fd) source (record held { fds = fd ∷ held.fds })).0
  | inl e ↦ rw e (elim (Bool-cases calls.is_regular) [
    | inr r ↦ rw r (done-Opened (some fd) _ (record held { fds = fd ∷ held.fds })).0
    | inl r ↦ rw r (elim (Bool-cases (is_some calls.os_handle)) [
      | inr h ↦ rw h (done-Opened (some fd) _ (record held { fds = fd ∷ held.fds })).0
      | inl h ↦ rw h (attach-Opened calls.duplicated fd _ _)
    ])
  ])
]

open_path-Opened :
    (calls : Calls) (display path : List ℕ) (held : Held)
    → Opened (action_source_open_path calls true display path action_source_init held)
unfolding action_source_open_path action_source_set_paths
open_path-Opened calls display path held = elim (Bool-cases calls.display_copied) [
  | inr d ↦ rw d (done-Opened none action_source_init held).1
  | inl d ↦ rw d (elim (Bool-cases calls.action_copied) [
    | inr a ↦
        rw a
          (done-Opened none (record action_source_init { display_path = some display })
            (one_more_string held)).1
    | inl a ↦ rw a (with_fd-Opened calls calls.opened _ _)
  ])
]

-- Before the scan: nothing was opened, or a source that can be given back.
abbrev pub Ready : Held → Prepared → Type 0
Ready before p =
    ((p.have ≡ false) × (p.held ≡ before))
    ⊎ ((p.have ≡ true)
        × (action_source_close p.source p.held ≡ some before)
        × (fd : ℕ) × (p.source.scan_fd ≡ some fd))

abbrev pub ReadyIf : Held → Option Prepared → Type 0
ReadyIf before none = ⊥
ReadyIf before (some p) = Ready before p

prepared-Ready :
    (before : Held) (o : Option (Status × Source × Held))
    → Balanced action_source_init before o
    → Opened o
    → ReadyIf before (chain o (λ r. some (prepared r)))
unfolding Opened
prepared-Ready before none b h = elim b [ ]
prepared-Ready before (some (success, source, held)) b h = inr (refl, b, h.0, h.1)
prepared-Ready before (some (earg, source, held)) b h = inl (refl, b.1)
prepared-Ready before (some (emem, source, held)) b h = inl (refl, b.1)
prepared-Ready before (some (Status.eopen, source, held)) b h = inl (refl, b.1)

pub prepare-Ready :
    (action : Bool) (answers : Answers) (job : Job) (held : Held)
    → ReadyIf held (prepare action answers job held)
prepare-Ready false answers job held = inl (refl, refl)
prepare-Ready true answers job held =
    by_path (or_else job.action_target job.filename) job.action_open_path job.required
  where
    by_path :
        (display : List ℕ) (path : Option (List ℕ)) (required : Bool)
        → ReadyIf held (
            chain
              (open_at answers.source display path required held)
              (λ (r : Status × Source × Held). some (prepared r)))
    by_path display none true = inl (refl, refl)
    by_path display none false =
        prepared-Ready held
          (action_source_open_path answers.source true display display action_source_init held)
          (open_path-Balanced answers.source true display display action_source_init held).0
          (open_path-Opened answers.source display display held)
    by_path display (some path) required =
        prepared-Ready held
          (action_source_open_path answers.source true display path action_source_init held)
          (open_path-Balanced answers.source true display path action_source_init held).0
          (open_path-Opened answers.source display path held)

pub closed :
    (before : Held) (p : Prepared)
    → Ready before p
    → close_source p.have p.source p.held ≡ some before
closed before p (inl (e, h)) = rw e (ap some h)
closed before p (inr (e, h, _, _)) = rw e h
