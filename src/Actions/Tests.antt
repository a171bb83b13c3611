-- ===== src/Actions/Tests.antt =====
-- Instances of the theorems on src/common/win32actions.c.
use clamav_win.Base.{
  ℕ, ◌≡◌, leb, ltb, ◌≢◌, ◌==◌, ◌&&◌, refl, Bool, true, false, Bool-cases, inl, inr, Option, none,
  some, List, [], ◌∷◌, arith, if◌then◌else◌,
}
use clamav_win.Actions.Source.{
  Source, Held, Calls, action_source_filename, action_source_open_path, action_source_from_fd,
}
use clamav_win.Actions.Source.Balance.{Balanced, open_path-Balanced}
use clamav_win.Actions.Dest.{
  Store, Created, made, exists, getdest, separator, Chosen, getdest-Chosen,
}
use clamav_win.Actions.Quarantine.{
  FileCalls, Acted, Target, action_move, action_copy, action_remove,
}
use clamav_win.Actions.Safety.{
  Documented, Moved, action_move-Moved, action_copy-Moved, actions-others,
}

-- `DuplicateHandle` fails.
abbrev calls_fail_late : Calls
calls_fail_late = record {
  display_copied = true;
  action_copied = true;
  opened = some 3;
  has_status = true;
  is_regular = true;
  os_handle = some 40;
  duplicated = none;
}

abbrev holding : Held
holding = record { fds = 1 ∷ []; handles = []; strings = 0 }

abbrev source : Source
source = record {
  display_path = some (97 ∷ []);
  action_path = some (98 ∷ []);
  scan_fd = none;
  handle = none;
  has_stat = false;
}

open_path-Balanced_example :
    Balanced source holding
      (action_source_open_path calls_fail_late true (97 ∷ []) (98 ∷ []) source holding)
    × Balanced source holding (action_source_from_fd calls_fail_late true (97 ∷ []) source holding)
open_path-Balanced_example =
    open_path-Balanced calls_fail_late true (97 ∷ []) (98 ∷ []) source holding

abbrev same_path : List ℕ → List ℕ → Bool
same_path [] [] = true
same_path [] (d ∷ q) = false
same_path (c ∷ p) [] = false
same_path (c ∷ p) (d ∷ q) = c == d && same_path p q

same_path_refl : (p : List ℕ) → same_path p p ≡ true
same_path_refl [] = refl
same_path_refl (c ∷ p) = ground (arith, same_path_refl p)

same_path-eq : (p q : List ℕ) → same_path p q ≡ true → p ≡ q
same_path-eq [] [] h = refl
same_path-eq [] (d ∷ q) h = absurd (cc)
same_path-eq (c ∷ p) [] h = absurd (cc)
same_path-eq (c ∷ p) (d ∷ q) h = ground (arith, same_path-eq p q)

same_path-ne : (p q : List ℕ) → p ≢ q → same_path p q ≡ false
same_path-ne p q n = elim (Bool-cases (same_path p q)) [
  | inl e ↦ absurd (n (same_path-eq p q e))
  | inr e ↦ e
]

-- A disk on which every call succeeds.
abbrev created : Store → List ℕ → Option (List ℕ) → Created
created s q none = made 3 (λ p. if same_path p q then some [] else s p)
created s q (some c) = exists

abbrev disk : FileCalls
disk = record {
  create = λ s q. created s q (s q);
  filecopy = λ s q r. (true, λ p. if same_path p r then s q else s p);
  unlink = λ s q. (true, λ p. if same_path p q then none else s p);
}

created-new :
    (s t : Store) (q : List ℕ) (fd : ℕ) (o : Option (List ℕ)) → created s q o ≡ made fd t → o ≡ none
created-new s t q fd none e = refl
created-new s t q fd (some c) e = absurd (cc)

created-frame :
    (s t : Store) (p q : List ℕ) (fd : ℕ) (o : Option (List ℕ))
    → created s q o ≡ made fd t
    → p ≢ q
    → t p ≡ s p
created-frame s t p q fd none e n = ground (arith, e, same_path-ne p q n)
created-frame s t p q fd (some c) e n = absurd (cc)

disk-Documented : Documented disk
disk-Documented = record {
  create_new = λ s t q fd e. created-new s t q fd (s q) e;
  create_frame = λ s t p q fd e n. created-frame s t p q fd (s q) e n;
  copy_content = λ s q r e. ground (arith, same_path_refl r);
  copy_frame = λ s p q r n. ground (arith, same_path-ne p r n);
  unlink_frame = λ s p q n. ground (arith, same_path-ne p q n);
}

abbrev target : Target
target = record { actarget = 81 ∷ []; basename = λ p. p; copied = true; allocated = λ size. true }

-- The files b and c.
abbrev acted : Acted
acted = record {
  files = λ p.
      if same_path p (98 ∷ [])
      then some (1 ∷ [])
      else if same_path p (99 ∷ [])
      then some (2 ∷ [])
      else none;
  notmoved = 0;
  notremoved = 0;
}

getdest-Chosen_example :
    Chosen (disk.create acted.files) (81 ∷ separator ∷ 98 ∷ []) 8 (
      getdest
        (disk.create acted.files)
        target.basename
        (81 ∷ [])
        (98 ∷ [])
        true
        (λ (size : ℕ). leb size 8))
    × (getdest
          (disk.create acted.files)
          target.basename
          (81 ∷ [])
          (98 ∷ [])
          true
          (λ (size : ℕ). ltb size 8)
        ≡ none)
getdest-Chosen_example =
    getdest-Chosen (disk.create acted.files) target.basename (81 ∷ []) (98 ∷ [])

action_move-Moved_example :
    Moved disk target (98 ∷ []) (1 ∷ []) acted (action_move disk target source acted)
unfolding action_source_filename
action_move-Moved_example =
    action_move-Moved disk target source acted (98 ∷ []) (1 ∷ []) disk-Documented refl refl

action_copy-Moved_example :
    let after = action_copy disk target source acted in
    Moved disk target (98 ∷ []) (1 ∷ []) acted after × (after.files (99 ∷ []) ≡ some (2 ∷ []))
unfolding action_source_filename
action_copy-Moved_example =
    action_copy-Moved disk target source acted (98 ∷ []) (1 ∷ []) (99 ∷ []) (2 ∷ []) disk-Documented
      refl refl refl

c-ne-b : ◌≢◌ {A = List ℕ} (99 ∷ []) (98 ∷ [])
c-ne-b e = absurd (ground arith)

actions-others_example :
    ((action_move disk target source acted).files (99 ∷ []) ≡ some (2 ∷ []))
    × ((action_remove disk target source acted).files (99 ∷ []) ≡ some (2 ∷ []))
unfolding action_source_filename
actions-others_example =
    actions-others disk target source acted (98 ∷ []) (99 ∷ []) (2 ∷ []) disk-Documented refl c-ne-b
      refl
