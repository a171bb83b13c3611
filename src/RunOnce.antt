-- ===== src/RunOnce.antt =====
-- src/legacy/shared/runonce.c: one-time initialization. The word of an INIT_ONCE holds a state in its
-- two low bits and a pointer, a multiple of 4, above them.
pub mod Chain
pub mod Threads
pub mod Fits
pub mod Once
pub mod Done
mod Tests
use clamav_win.Base.{
  ℕ, zero, suc, ◌+◌, ◌-◌, ◌%◌, Bool, true, false, not, ◌&&◌, ◌||◌, Option, none, some, ◌==◌,
  if◌then◌else◌,
}

-- RTLP_RUN_ONCE_STATE.
pub data State : Type 0 where
  initializing progress complete async : State

unfoldable pub state_of_bits : ℕ → State
state_of_bits zero = initializing
state_of_bits (suc zero) = progress
state_of_bits (suc (suc zero)) = complete
state_of_bits (suc (suc (suc n))) = async

-- `val & INIT_ONCE_MASK` and `val & ~INIT_ONCE_MASK`.
abbrev pub state_of : ℕ → State
state_of val = state_of_bits (val % 4)

abbrev pub pointer_of : ℕ → ℕ
pointer_of val = val - val % 4

-- How InitOnceBeginInitialize ends, or that it goes round its loop again.
pub data Begun : Type 0 where
  pending : Begun  -- TRUE with *lpPending
  already : (context : ℕ) → Begun  -- TRUE without
  invalid_parameter : Begun
  unsuccessful : Begun
  again : Begun

-- What a round leaves in the word, and in the variable `next` if it is assigned.
pub record Round : Type 0 where
  pub result : Begun
  pub word : ℕ
  pub linked : Option ℕ

abbrev pub round : Begun → ℕ → Option ℕ → Round
round r w l = record { result = r; word = w; linked = l }

-- The part of InitOnceBeginInitialize for RTL_RUN_ONCE_CHECK_ONLY.
unfoldable pub check_only : (is_async : Bool) → (val : ℕ) → Begun
check_only is_async val =
    if is_async
    then invalid_parameter
    else elim (state_of val) [ complete ↦ already (pointer_of val) | _ ↦ unsuccessful ]

-- One round of its loop: `val` is read first, `word` is what the compare-exchange finds, and `cell`
-- is the address of `next`, a multiple of 4, so `|` is a sum.
unfoldable pub begin_round : (is_async : Bool) → (val word cell : ℕ) → Round
unfolding state_of_bits
begin_round is_async val word cell = elim (state_of val) [
  | initializing ↦
      if word == 0 then round pending (if is_async then 3 else 1) none else round again word none
  | progress ↦
      if is_async
      then round invalid_parameter word none
      else round again (if word == val then cell + 1 else word) (some (pointer_of val))
  | complete ↦ round (already (pointer_of val)) word none
  | async ↦ round (if is_async then pending else invalid_parameter) word none
]

-- The word that InitOnceComplete stores, or none if it refuses its arguments.
unfoldable pub complete_word : (init_failed is_async : Bool) → (context : ℕ) → Option ℕ
complete_word init_failed is_async context =
    if not (context % 4 == 0) || (init_failed && (not (context == 0) || is_async))
    then none
    else some (if init_failed then context else context + 2)

-- How a round of InitOnceComplete ends; `stored` hands on the waiters' list.
pub data Ended : Type 0 where
  stored : (waiters : ℕ) → Ended
  stored_async : Ended
  refused : Ended
  not_begun : Ended
  again : Ended

unfoldable pub complete_round : (is_async : Bool) → (new val word : ℕ) → Ended × ℕ
unfolding state_of_bits
complete_round is_async new val word = elim (state_of val) [
  | progress ↦ if word == val then (stored (pointer_of val), new) else (Ended.again, word)
  | async ↦
      if not is_async
      then (refused, word)
      else if word == val
      then (stored_async, new)
      else (Ended.again, word)
  | _ ↦ (not_begun, word)
]

-- The `while (val)` of InitOnceComplete over the waiters' variables, with fuel; `none` means that it
-- has not ended.
unfoldable pub walk : ℕ → (memory : ℕ → ℕ) → (val : ℕ) → Option ℕ
walk zero memory val = none
walk (suc fuel) memory val =
    let rest = walk fuel memory (memory val) in if val == 0 then some fuel else rest
