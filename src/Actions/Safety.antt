-- ===== src/Actions/Safety.antt =====
-- What the actions of src/common/win32actions.c do to the files.
use clamav_win.Base.{
  ℕ, zero, suc, ◌≡◌, ◌≢◌, ◌≤◌, length, arith, ◌⊎◌, inl, inr, refl, sym, ◌∙◌, true, Bool-cases,
  Option, none, some, List, subst, [], ◌∷◌, ◌++◌,
}
use mathlib.Core.List.{append-nil}
use clamav_win.Actions.Source.{Source, action_source_filename}
use clamav_win.Actions.Dest.{
  Store, Created, made, exists, refused, getdest, getdest_loop, numbered, separator, name_size,
}
use clamav_win.Actions.Quarantine.{
  FileCalls, Acted, Target, destination, move_to, copy_to, action_move, action_copy, action_remove,
}

-- What the calls promise, where every file has one path: two texts that name one file, by letter case or
-- as a short name, are outside of this. O_EXCL creates a file where none was; a successful `filecopy` gives the copy the
-- content; each call changes no other file than the one it is to write or remove.
pub record Documented (calls : FileCalls) : Type 0 where
  pub create_new : (s t : Store) (q : List ℕ) (fd : ℕ) → calls.create s q ≡ made fd t → s q ≡ none
  pub create_frame :
      (s t : Store) (p q : List ℕ) (fd : ℕ) → calls.create s q ≡ made fd t → p ≢ q → t p ≡ s p
  pub copy_content :
      (s : Store) (q r : List ℕ)
      → (calls.filecopy s q r).0 ≡ true
      → (calls.filecopy s q r).1 r ≡ s q
  pub copy_frame : (s : Store) (p q r : List ℕ) → p ≢ r → (calls.filecopy s q r).1 p ≡ s p
  pub unlink_frame : (s : Store) (p q : List ℕ) → p ≢ q → (calls.unlink s q).1 p ≡ s p

-- A name that is `base`, or `base` with a suffix of 4 characters at most.
abbrev pub StartsWith : (base name : List ℕ) → Type 0
StartsWith base name = (suffix : List ℕ) × (name ≡ base ++ suffix) × (length suffix ≤ 4)

-- A name that `getdest` returns has just been created, and starts with `base`.
abbrev IsNew : (List ℕ → Created) → (base : List ℕ) → Option (ℕ × List ℕ × Store) → Type 0
IsNew create base none = Unit
IsNew create base (some (fd, name, files)) = (create name ≡ made fd files) × StartsWith base name

loop-IsNew :
    (create : List ℕ → Created) (base : List ℕ) (rounds i : ℕ) (name : List ℕ)
    → StartsWith base name
    → IsNew create base (getdest_loop create base rounds i name)
unfolding getdest_loop numbered
loop-IsNew create base zero i name starts = tt
loop-IsNew create base (suc rounds) i name starts =
    on_result (loop-IsNew create base rounds (suc i) (numbered base i) (_, refl, omega arith))
      (create name) refl
  where
    on_result :
        IsNew create base (getdest_loop create base rounds (suc i) (numbered base i))
        → (c : Created) → create name ≡ c
        → IsNew create base (elim c [
          | made fd files ↦ some (fd, name, files)
          | exists ↦ getdest_loop create base rounds (suc i) (numbered base i)
          | refused ↦ none
        ])
    on_result later (made fd files) q = (q, starts)
    on_result later exists q = later
    on_result later refused q = tt

module _ (calls : FileCalls) (target : Target) where
  -- The name of a file in the target directory.
  abbrev pub in_target : List ℕ → List ℕ
  in_target filename = target.actarget ++ (separator ∷ target.basename filename)

  destination-IsNew :
      (files : Store) (filename : List ℕ)
      → IsNew (calls.create files) (in_target filename) (destination calls target files filename)
  unfolding destination getdest
  destination-IsNew files filename = elim (Bool-cases target.copied) [
    | inr e ↦ rw e tt
    | inl e ↦
        rw e
          (elim (Bool-cases
            (target.allocated (name_size target.actarget (target.basename filename)))) [
              | inr a ↦ rw a tt
              | inl a ↦ rw a (
                  loop-IsNew (calls.create files) _ 999 1 _
                    ([], sym (append-nil (in_target filename)), omega arith))
            ])
  ]

  -- Where the content of the file is after a move.
  abbrev pub Moved : (filename content : List ℕ) → Acted → Acted → Type 0
  Moved filename content before after =
      ((after.notmoved ≡ suc before.notmoved) × (after.files filename ≡ some content))
      ⊎ ((after.notmoved ≡ before.notmoved)
          × ((dest : List ℕ) × StartsWith (in_target filename) dest
              × (before.files dest ≡ none)
              × (after.files dest ≡ some content)))

  module _ (doc : Documented calls) (acted : Acted) (filename : List ℕ) where
    open doc use {create_new, create_frame, copy_content, copy_frame, unlink_frame}

    -- A new name is not that of a file.
    new_name :
        (fd : ℕ) (p name c : List ℕ) (files : Store)
        → calls.create acted.files name ≡ made fd files
        → acted.files p ≡ some c
        → p ≢ name
    new_name fd p name c files new here e =
        let gone = create_new acted.files files name fd new in
        let there = subst (λ (q : List ℕ). acted.files q ≡ some c) e here in cc

    move_to-Moved :
        (content : List ℕ)
        → acted.files filename ≡ some content
        → (o : Option (ℕ × List ℕ × Store))
        → IsNew (calls.create acted.files) (in_target filename) o
        → Moved filename content acted (move_to calls target filename acted o)
    move_to-Moved content here none new = inl (refl, here)
    move_to-Moved content here (some (fd, name, files)) (new, starts) =
        let ne = new_name fd filename name content files new here in
        let kept = create_frame acted.files files filename name fd new ne ∙ here in
        elim (Bool-cases (calls.filecopy files filename name).0) [
          | inl e ↦ rw e (
              inr (
                refl,
                (
                  name,
                  starts,
                  create_new acted.files files name fd new,
                  unlink_frame _ name filename (λ q. ne (sym q))
                      ∙ (copy_content files filename name e ∙ kept),
                ),
              ))
          | inr e ↦ rw e (
              inl (
                refl,
                unlink_frame _ filename name ne
                    ∙ (copy_frame files filename filename name ne ∙ kept),
              ))
        ]

    move_to-others :
        (p c : List ℕ)
        → p ≢ filename
        → acted.files p ≡ some c
        → (o : Option (ℕ × List ℕ × Store))
        → IsNew (calls.create acted.files) (in_target filename) o
        → (move_to calls target filename acted o).files p ≡ some c
    move_to-others p c other here none new = here
    move_to-others p c other here (some (fd, name, files)) (new, starts) =
        let ne = new_name fd p name c files new here in
        let kept = create_frame acted.files files p name fd new ne ∙ here in
        let copied = copy_frame files p filename name ne ∙ kept in
        elim (Bool-cases (calls.filecopy files filename name).0) [
          | inl e ↦ rw e (unlink_frame _ p filename other ∙ copied)
          | inr e ↦ rw e (unlink_frame _ p name ne ∙ copied)
        ]

    copy_to-Moved :
        (content : List ℕ)
        → acted.files filename ≡ some content
        → (o : Option (ℕ × List ℕ × Store))
        → IsNew (calls.create acted.files) (in_target filename) o
        → Moved filename content acted (copy_to calls target filename acted o)
    copy_to-Moved content here none new = inl (refl, here)
    copy_to-Moved content here (some (fd, name, files)) (new, starts) =
        let ne = new_name fd filename name content files new here in
        let kept = create_frame acted.files files filename name fd new ne ∙ here in
        elim (Bool-cases (calls.filecopy files filename name).0) [
          | inl e ↦ rw e (
              inr (
                refl,
                (
                  name,
                  starts,
                  create_new acted.files files name fd new,
                  copy_content files filename name e ∙ kept,
                ),
              ))
          | inr e ↦ rw e (
              inl (
                refl,
                unlink_frame _ filename name ne
                    ∙ (copy_frame files filename filename name ne ∙ kept),
              ))
        ]

    copy_to-kept :
        (p c : List ℕ)
        → acted.files p ≡ some c
        → (o : Option (ℕ × List ℕ × Store))
        → IsNew (calls.create acted.files) (in_target filename) o
        → (copy_to calls target filename acted o).files p ≡ some c
    copy_to-kept p c here none new = here
    copy_to-kept p c here (some (fd, name, files)) (new, starts) =
        let ne = new_name fd p name c files new here in
        let copied =
          copy_frame files p filename name ne
          ∙ (create_frame acted.files files p name fd new ne ∙ here) in
        elim (Bool-cases (calls.filecopy files filename name).0) [
          | inl e ↦ rw e copied
          | inr e ↦ rw e (unlink_frame _ p name ne ∙ copied)
        ]

-- Under what the calls promise, a move of an existing file never loses its content: either `notmoved` is
-- counted and the file is as it was, or `notmoved` stays and the content is in a file that did not exist before: in the
-- target directory, with the name of the file or that name and a suffix of 4
-- characters at most.
pub action_move-Moved :
    (calls : FileCalls) (target : Target) (source : Source) (acted : Acted)
    (filename content : List ℕ)
    → Documented calls
    → action_source_filename source ≡ some filename
    → acted.files filename ≡ some content
    → Moved calls target filename content acted (action_move calls target source acted)
unfolding action_move
action_move-Moved calls target source acted filename content doc name here = rw name (
    move_to-Moved calls target doc acted filename content here _
      (destination-IsNew calls target acted.files filename))

-- Under what the calls promise, a copy changes no file that exists, the copied one included, and
-- it counts in `notmoved` unless the content is in a file that did not exist before: in the target
-- directory, with the name of the file or that name and a suffix of 4
-- characters at most.
pub action_copy-Moved :
    (calls : FileCalls) (target : Target) (source : Source) (acted : Acted)
    (filename content p c : List ℕ)
    → Documented calls
    → action_source_filename source ≡ some filename
    → acted.files filename ≡ some content
    → acted.files p ≡ some c
    → let after = action_copy calls target source acted in
      Moved calls target filename content acted after × (after.files p ≡ some c)
unfolding action_copy
action_copy-Moved calls target source acted filename content p c doc name here there =
    let new = destination-IsNew calls target acted.files filename in
    rw name (
      copy_to-Moved calls target doc acted filename content here _ new,
      copy_to-kept calls target doc acted filename p c there _ new,
    )

-- Under what the calls promise, a move and a removal change no file that exists but the one that
-- they are about.
pub actions-others :
    (calls : FileCalls) (target : Target) (source : Source) (acted : Acted) (filename p c : List ℕ)
    → Documented calls
    → action_source_filename source ≡ some filename
    → p ≢ filename
    → acted.files p ≡ some c
    → ((action_move calls target source acted).files p ≡ some c)
      × ((action_remove calls target source acted).files p ≡ some c)
unfolding action_move action_remove
actions-others calls target source acted filename p c doc name other here = rw name (
  move_to-others calls target doc acted filename p c other here _
      (destination-IsNew calls target acted.files filename),
  doc.unlink_frame acted.files p filename other ∙ here,
)
