-- ===== src/RunOnce/Once.antt =====
-- One thread initializes, and the others get what it stored.
use clamav_win.Base.{
  ℕ, ◌-◌, ◌%◌, ◌≡◌, ◌≢◌, ◌⊎◌, inl, inr, refl, Bool, true, false, not, Option, none, some, arith,
  update, update_ind, sym, subst, Bool-cases,
}
use clamav_win.RunOnce.{
  Begun, pending, already, invalid_parameter, Round, begin_round, complete_word, Ended,
  complete_round,
}
use clamav_win.RunOnce.Threads.{
  Pc, begin, saw, running, completing, ready, saw_complete, finished, returned, failed, Once,
  after_begin, after_complete, after_init, success_of, at, Step, call, read, try, run, conclude,
  reread, store, Reach, start, next, initialises,
}
use clamav_win.RunOnce.Fits.{Fits, Stores, Fits-leave, Fits-progress, initialises-progress}

pub record Inv (s : Once) : Type 0 where
  pub one : (i j : ℕ) → initialises (s.pc i) ≡ true → initialises (s.pc j) ≡ true → i ≡ j
  pub fits : (i : ℕ) → Fits s.word (s.pc i)

-- What a round of InitOnceBeginInitialize does, by its result.
abbrev pub BeginCase : (val word : ℕ) → Round → Type 0
BeginCase val word r =
    ((word ≡ 0) × (r.word ≡ 1) × (r.result ≡ pending))
    ⊎ (((r.word ≡ word) ⊎ ((word % 4 ≡ 1) × (r.word % 4 ≡ 1))) × (r.result ≡ Begun.again))
    ⊎ ((val % 4 ≡ 2) × (r.word ≡ word) × (r.result ≡ already (val - 2)))
    ⊎ ((r.word ≡ word) × (r.result ≡ invalid_parameter))

pub begin_round-BeginCase :
    (val word cell : ℕ) → cell % 4 ≡ 0 → BeginCase val word (begin_round false val word cell)
unfolding begin_round
begin_round-BeginCase val word cell h = ground arith

-- What a round of InitOnceComplete does.
abbrev pub CompleteCase : (success : Option ℕ) → (new val word : ℕ) → Ended × ℕ → Type 0
CompleteCase success new val word r =
    ((word ≡ val) × (r.1 ≡ new) × (after_complete success new r.0 ≡ finished success new))
    ⊎ ((r.1 ≡ word)
        × ((after_complete success new r.0 ≡ ready success new)
            ⊎ (after_complete success new r.0 ≡ failed)))

pub complete_round-CompleteCase :
    (success : Option ℕ) (new val word : ℕ)
    → CompleteCase success new val word (complete_round false new val word)
unfolding complete_round after_complete
complete_round-CompleteCase success new val word = ground arith

fits_stored : (new : ℕ) (success : Option ℕ) → Stores success new → Fits new (finished success new)
fits_stored new none h = tt
fits_stored new (some context) h = (h.1, h.0)

module _ {s : Once} (inv : Inv s) (i : ℕ) where
  open inv use {one, fits}

  -- Thread `i` goes to `p` and changes the word, with no other thread initializing beside it.
  change :
      (p : Pc) (word' : ℕ) (memory' : ℕ → ℕ)
      → (initialises p ≡ true → (j : ℕ) → initialises (s.pc j) ≡ true → j ≡ i)
      → Fits word' p
      → ((j : ℕ) → i ≢ j → Fits word' (s.pc j))
      → Inv (record { word = word'; memory = memory'; pc = update s.pc i p })
  change p word' memory' own here there = record {
    one = λ a b ha hb.
        update_ind
          (λ a' x.
            initialises x ≡ true → (b' : ℕ) → initialises (update s.pc i p b') ≡ true → a' ≡ b')
          s.pc i p
          (λ hp.
            update_ind (λ b' y. initialises y ≡ true → i ≡ b') s.pc i p (λ _. refl)
              (λ b' ne hb'. sym (own hp b' hb')))
          (λ a' ne ha'.
            update_ind (λ b' y. initialises y ≡ true → a' ≡ b') s.pc i p (λ hp. own hp a' ha')
              (λ b' ne' hb'. one a' b' ha' hb'))
          a ha b hb;
    fits = update_ind (λ j. Fits word') s.pc i p here there;
  }

  -- A thread that initializes already goes on, or one that does not initialize moves.
  move :
      (p : Pc)
      → (initialises p ≡ true → initialises (s.pc i) ≡ true)
      → Fits s.word p
      → Inv (at s i p)
  move p stays here = change p s.word s.memory (λ e j h. one j i h (stays e)) here (λ j ne. fits j)

  -- Where `i` initializes, no other thread does.
  others_wait : (j : ℕ) → initialises (s.pc i) ≡ true → i ≢ j → initialises (s.pc j) ≡ false
  others_wait j h ne = ground (arith, one i j h)

  nobody-initialises : s.word % 4 ≢ 1 → (j : ℕ) → initialises (s.pc j) ≡ false
  nobody-initialises ne j = elim (Bool-cases (initialises (s.pc j))) [
    | inl h ↦ absurd (ne (initialises-progress s.word (s.pc j) h (fits j)))
    | inr h ↦ h
  ]

  step-try :
      {val : ℕ} (r : Round) (memory' : ℕ → ℕ)
      → s.pc i ≡ saw val
      → BeginCase val s.word r
      → Inv (record { word = r.word; memory = memory'; pc = update s.pc i (after_begin r.result) })
  unfolding after_begin
  step-try {val} r memory' e (inl (zero_word, w, res)) =
      rw (w, res)
        (change running 1 memory' (λ h j hj. cc (nobody-initialises (omega arith) j)) refl
          (λ j ne.
            Fits-leave s.word 1 (s.pc j) (omega arith) (nobody-initialises (omega arith) j)
              (fits j)))
  step-try {val} r memory' e (inr (inl (inl w, res))) =
      rw (w, res) (change begin s.word memory' (λ h. cc) tt (λ j ne. fits j))
  step-try {val} r memory' e (inr (inl (inr (p, w), res))) = rw res (
      change begin r.word memory' (λ h. cc) tt
        (λ j ne. Fits-progress s.word r.word (s.pc j) p w (fits j)))
  step-try {val} r memory' e (inr (inr (inl (c, w, res)))) =
      rw (w, res)
        (change (returned (val - 2)) s.word memory' (λ h. cc)
          (omega arith, omega (arith, subst (Fits s.word) e (fits i) c)) (λ j ne. fits j))
  step-try {val} r memory' e (inr (inr (inr (w, res)))) =
      rw (w, res) (change failed s.word memory' (λ h. cc) tt (λ j ne. fits j))

  step-store :
      {success : Option ℕ} {new val : ℕ} (r : Ended × ℕ)
      → s.pc i ≡ saw_complete success new val
      → CompleteCase success new val s.word r
      → Inv (record s { word = r.1; pc = update s.pc i (after_complete success new r.0) })
  step-store {success} {new} {val} r e (inl (v, w, res)) =
      rw (w, res)
        (change (finished success new) new s.memory (λ h. cc) (fits_stored new success here.1)
          (λ j ne.
            Fits-leave s.word new (s.pc j) (omega (arith, here.0)) (others_wait j busy ne)
              (fits j)))
    where
      here : Fits s.word (saw_complete success new val)
      here = subst (Fits s.word) e (fits i)

      busy : initialises (s.pc i) ≡ true
      busy = rw e refl
  step-store {success} {new} {val} r e (inr (w, inl res)) =
      rw (w, res)
        (change (ready success new) s.word s.memory (λ h j hj. one j i hj (rw e refl))
          (subst (Fits s.word) e (fits i)) (λ j ne. fits j))
  step-store {success} {new} {val} r e (inr (w, inr res)) =
      rw (w, res) (change failed s.word s.memory (λ h. cc) tt (λ j ne. fits j))

  -- The end of pInitFn.
  step-conclude :
      (success o : Option ℕ)
      → initialises (s.pc i) ≡ true
      → s.word % 4 ≡ 1
      → ((new : ℕ) → o ≡ some new → Stores success new)
      → Inv (at s i (after_init success o))
  unfolding after_init
  step-conclude success none busy w ok = move failed (λ h. busy) tt
  step-conclude success (some new) busy w ok = move (ready success new) (λ h. busy) (w, ok new refl)

complete_word-Stores :
    (result : Bool) (context new : ℕ)
    → complete_word (not result) false context ≡ some new
    → Stores (success_of result context) new
unfolding complete_word
complete_word-Stores true context new h = ground arith
complete_word-Stores false context new h = ground arith

step-Inv :
    {cell : ℕ → ℕ} {s : Once} (i : ℕ) {t : Once}
    → ((k : ℕ) → cell k % 4 ≡ 0)
    → Inv s
    → Step cell s i t
    → Inv t
step-Inv i aligned inv (call e) = move inv i begin (λ h. cc) tt
step-Inv {s = s} i aligned inv (read e) = move inv i (saw s.word) (λ h. cc) (λ _. refl)
step-Inv {cell} {s} i aligned inv (try {val} {r} e q) =
    step-try inv i r _ e
      (subst (BeginCase val s.word) q (begin_round-BeginCase val s.word (cell i) (aligned i)))
step-Inv {s = s} i aligned inv (run result context e) =
    move inv i (completing result context) (λ h. rw e refl) (subst (Fits s.word) e (inv.fits i))
step-Inv {s = s} i aligned inv (conclude {result} {context} e) =
    step-conclude inv i (success_of result context) _ (rw e refl)
      (subst (Fits s.word) e (inv.fits i)) (complete_word-Stores result context)
step-Inv {s = s} i aligned inv (reread {success} {new} e) =
    move inv i (saw_complete success new s.word) (λ h. rw e refl)
      (subst (Fits s.word) e (inv.fits i))
step-Inv {s = s} i aligned inv (store {success} {new} {val} {r} e q) = step-store inv i r e (
    subst (CompleteCase success new val s.word) q
      (complete_round-CompleteCase success new val s.word))

pub Reach-Inv : {cell : ℕ → ℕ} {s : Once} → ((k : ℕ) → cell k % 4 ≡ 0) → Reach cell s → Inv s
Reach-Inv aligned (start memory) = record { one = λ i j h. cc; fits = λ i. tt }
Reach-Inv aligned (next r i st) = step-Inv i aligned (Reach-Inv aligned r) st

-- Where the variables of the threads stand at multiples of 4, at no time are two threads told to
-- initialize: from the return with *lpPending until InitOnceComplete has stored its word, a thread
-- is alone.
pub one_initialiser :
    {cell : ℕ → ℕ} {s : Once}
    → ((k : ℕ) → cell k % 4 ≡ 0)
    → Reach cell s
    → (i j : ℕ) → initialises (s.pc i) ≡ true
    → initialises (s.pc j) ≡ true
    → i ≡ j
one_initialiser aligned r = (Reach-Inv aligned r).one
