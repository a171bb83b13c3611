-- ===== src/RunOnce/Chain.antt =====
-- The list that waiting threads of src/legacy/shared/runonce.c build from their `next` variables, and
-- the walk of InitOnceComplete over it.
use clamav_win.Base.{
  ℕ, zero, suc, ◌+◌, ◌-◌, ◌%◌, ◌<◌, ◌≡◌, ◌≢◌, refl, false, Option, none, some, List, [], ◌∷◌, arith,
  length, update, update_self, update_ne, subst, sym, ap, ◌∙◌,
}
use clamav_win.RunOnce.{
  progress, state_of, state_of_bits, pointer_of, Begun, Round, round, begin_round, walk,
}

-- The assignment of a round to its `next`.
abbrev pub assign : (ℕ → ℕ) → ℕ → Option ℕ → ℕ → ℕ
assign memory cell none = memory
assign memory cell (some v) = update memory cell v

-- The variables from `val` on, each holding the address of the one after it.
abbrev pub Linked : (ℕ → ℕ) → ℕ → List ℕ → Type 0
Linked memory val [] = val ≡ 0
Linked memory val (c ∷ rest) = (val ≡ c) × (c ≢ 0) × Linked memory (memory c) rest

abbrev pub NotIn : ℕ → List ℕ → Type 0
NotIn i [] = Unit
NotIn i (j ∷ rest) = (i ≢ j) × NotIn i rest

walk-Linked :
    (memory : ℕ → ℕ) (val : ℕ) (cells : List ℕ) (fuel : ℕ)
    → Linked memory val cells
    → length cells < fuel
    → walk fuel memory val ≡ some (fuel - suc (length cells))
unfolding walk
walk-Linked memory val cells zero l h = elim h [ ]
walk-Linked memory val [] (suc fuel) l h = ground arith
walk-Linked memory val (c ∷ rest) (suc fuel) l h =
    ground (arith, walk-Linked memory (memory c) rest fuel l.2)

Linked-update :
    (memory : ℕ → ℕ) (cell v val : ℕ) (cells : List ℕ)
    → NotIn cell cells
    → Linked memory val cells
    → Linked (update memory cell v) val cells
Linked-update memory cell v val [] n l = l
Linked-update memory cell v val (c ∷ rest) n l = (
  l.0,
  l.1,
  rw (update_ne memory cell c v n.0) (Linked-update memory cell v (memory c) rest n.1 l.2),
)

bits-progress : (val : ℕ) → state_of val ≡ progress → val % 4 ≡ 1
unfolding state_of_bits
bits-progress val h = from_bits (val % 4) h
  where
    from_bits : (n : ℕ) → state_of_bits n ≡ progress → n ≡ 1
    from_bits zero e = cc
    from_bits (suc zero) e = refl
    from_bits (suc (suc zero)) e = cc
    from_bits (suc (suc (suc n))) e = cc

-- An undisturbed round of a waiting thread.
progress_round :
    (val cell : ℕ)
    → val % 4 ≡ 1
    → begin_round false val val cell ≡ round Begun.again (cell + 1) (some (pointer_of val))
unfolding begin_round
progress_round val cell h = ground arith

-- The word after an undisturbed round points at the variable of the thread.
pointer_of-cell : (cell : ℕ) → cell % 4 ≡ 0 → (pointer_of (cell + 1) ≡ cell) × ((cell + 1) % 4 ≡ 1)
pointer_of-cell cell h = (omega arith, omega arith)

-- Where the initialization is in progress and the variable of a thread stands at a multiple of 4 and
-- not yet in the list: if the thread waits for the first time, while `cells` wait already, it links its variable in front of
-- theirs; a walk over the list then ends, after one step for each waiting thread.
pub first_round_links :
    (memory : ℕ → ℕ) (val cell : ℕ) (cells : List ℕ) (fuel : ℕ)
    → state_of val ≡ progress
    → cell % 4 ≡ 0
    → cell ≢ 0
    → NotIn cell cells
    → Linked memory (pointer_of val) cells
    → suc (length cells) < fuel
    → let r = begin_round false val val cell in
      let after = assign memory cell r.linked in
      Linked after (pointer_of r.word) (cell ∷ cells)
      × (walk fuel after (pointer_of r.word) ≡ some (fuel - (length cells + 2)))
first_round_links memory val cell cells fuel state aligned nonnull new linked enough =
    subst
      (λ (r : Round).
        Linked (assign memory cell r.linked) (pointer_of r.word) (cell ∷ cells)
        × (walk fuel (assign memory cell r.linked) (pointer_of r.word)
            ≡ some (fuel - (length cells + 2))))
      (sym (progress_round val cell (bits-progress val state))) (links, ends)
  where
    after : ℕ → ℕ
    after = update memory cell (pointer_of val)

    links : Linked after (pointer_of (cell + 1)) (cell ∷ cells)
    links = (
      (pointer_of-cell cell aligned).0,
      nonnull,
      subst (λ v. Linked after v cells) (sym (update_self memory cell (pointer_of val)))
          (Linked-update memory cell (pointer_of val) (pointer_of val) cells new linked),
    )

    ends : walk fuel after (pointer_of (cell + 1)) ≡ some (fuel - (length cells + 2))
    ends =
        walk-Linked after (pointer_of (cell + 1)) (cell ∷ cells) fuel links enough
        ∙ ap some (omega arith)

walk-self_loop :
    (fuel : ℕ) (memory : ℕ → ℕ) (cell : ℕ)
    → cell ≢ 0
    → memory cell ≡ cell
    → walk fuel memory cell ≡ none
unfolding walk
walk-self_loop zero memory cell n e = refl
walk-self_loop (suc fuel) memory cell n e = ground (arith, walk-self_loop fuel memory cell n e)

-- A thread that goes round the loop a second time before another thread joins assigns its variable
-- the variable's own address: whatever the fuel, the walk of InitOnceComplete over the word that it
-- leaves does not end.
pub second_round_loops :
    (memory : ℕ → ℕ) (val cell fuel : ℕ)
    → state_of val ≡ progress
    → cell % 4 ≡ 0
    → cell ≢ 0
    → let first = begin_round false val val cell in
      let second = begin_round false first.word first.word cell in
      let after = assign (assign memory cell first.linked) cell second.linked in
      (after cell ≡ cell) × (walk fuel after (pointer_of second.word) ≡ none)
second_round_loops memory val cell fuel state aligned nonnull =
    rw
      (
        progress_round val cell (bits-progress val state),
        progress_round (cell + 1) cell (pointer_of-cell cell aligned).1,
        (pointer_of-cell cell aligned).0,
      )
      (own, walk-self_loop fuel after cell nonnull own)
  where
    after : ℕ → ℕ
    after = update (update memory cell (pointer_of val)) cell cell

    own : after cell ≡ cell
    own = update_self (update memory cell (pointer_of val)) cell cell
