-- ===== src/RunOnce/Tests.antt =====
-- Instances of the theorems on src/legacy/shared/runonce.c.
use clamav_win.Base.{
  ℕ, ◌+◌, ◌*◌, ◌%◌, ◌≡◌, refl, true, false, none, some, [], ◌∷◌, arith, update, ◌==◌,
}
use clamav_win.RunOnce.{
  begin_round, complete_word, complete_round, state_of_bits, walk, pointer_of, round, pending,
  already, stored,
}
use clamav_win.RunOnce.Chain.{assign, Linked, first_round_links, second_round_loops}
use clamav_win.RunOnce.Threads.{
  idle, begin, saw, running, completing, ready, saw_complete, finished, returned, Once, at, call,
  read, try, run, conclude, reread, store, Reach, start, next, after_begin, after_complete,
  after_init,
}
use clamav_win.RunOnce.Once.{one_initialiser}
use clamav_win.RunOnce.Done.{one_context, has_initialised}

abbrev cell : ℕ → ℕ
cell k = (k + 1) * 4

cell-aligned : (k : ℕ) → cell k % 4 ≡ 0
cell-aligned k = omega arith

abbrev unused : Once
unused = record { word = 0; memory = λ _. 0; pc = λ _. idle }

-- Thread 0 is told to initialize.
abbrev begun : Once
begun = record (at (at unused 0 begin) 0 (saw 0)) {
  word = 1;
  pc = update (at (at unused 0 begin) 0 (saw 0)).pc 0 running;
}

begun-Reach : Reach cell begun
unfolding begin_round after_begin
begun-Reach =
    next (next (next (start (λ _. 0)) 0 (call refl)) 0 (read refl)) 0
      (try {val = 0} {r = round pending 1 none} refl refl)

one_initialiser_example : ◌≡◌ {A = ℕ} 0 0
one_initialiser_example =
    one_initialiser {cell = cell} {s = begun} cell-aligned begun-Reach 0 0 refl refl

-- Thread 0 has completed with the context 8, and thread 1 has found that.
abbrev done_by_0 : Once
done_by_0 =
    record (at
      (at (at (at begun 0 (completing true 8)) 0 (ready (some 8) 10)) 0
        (saw_complete (some 8) 10 1))
      0 (finished (some 8) 10)) { word = 10 }

abbrev found_by_1 : Once
found_by_1 = at (at (at done_by_0 1 begin) 1 (saw 10)) 1 (returned 8)

found-Reach : Reach cell found_by_1
unfolding begin_round after_begin complete_word complete_round after_complete after_init
found-Reach =
    let completed =
      next
        (next
          (next (next begun-Reach 0 (run true 8 refl)) 0
            (conclude {result = true} {context = 8} refl))
          0 (reread {success = some 8} {new = 10} refl))
        0 (store {success = some 8} {new = 10} {val = 1} {r = (stored 0, 10)} refl refl) in
    next (next (next completed 1 (call refl)) 1 (read refl)) 1
      (try {val = 10} {r = round (already 8) 10 none} refl refl)

one_context_example :
    (j : ℕ) × (new : ℕ) × (found_by_1.pc j ≡ finished (some 8) new)
    × ((k : ℕ) → has_initialised (found_by_1.pc k) ≡ (k == j))
one_context_example = one_context {cell = cell} {s = found_by_1} cell-aligned found-Reach 1 8 refl

-- A second waiter, at 8, in front of one at 4.
abbrev one_waits : ℕ → ℕ
one_waits _ = 0

first_round_links_example :
    let r = begin_round false 5 5 8 in
    let after = assign one_waits 8 r.linked in
    Linked after (pointer_of r.word) (8 ∷ 4 ∷ []) × (walk 10 after (pointer_of r.word) ≡ some 7)
unfolding state_of_bits
first_round_links_example =
    first_round_links one_waits 5 8 (4 ∷ []) 10 refl refl (omega arith) (omega arith) (omega arith)
      (omega arith)

second_round_loops_example :
    let first = begin_round false 1 1 8 in
    let second = begin_round false first.word first.word 8 in
    let after = assign (assign one_waits 8 first.linked) 8 second.linked in
    (after 8 ≡ 8) × (walk 100 after (pointer_of second.word) ≡ none)
unfolding state_of_bits
second_round_loops_example = second_round_loops one_waits 1 8 100 refl refl (omega arith)
