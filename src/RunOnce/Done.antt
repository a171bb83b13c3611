-- ===== src/RunOnce/Done.antt =====
-- Which thread has completed the initialization of src/legacy/shared/runonce.c with success.
use clamav_win.Base.{
  ℕ, ◌+◌, ◌-◌, ◌%◌, ◌≡◌, ◌≢◌, inl, inr, refl, Bool, true, false, Option, none, some, arith, update,
  update_ind, update_self, update_ne, sym, subst, ap, ◌∙◌, ◌==◌, Bool-cases,
}
use clamav_win.RunOnce.{Round, Ended}
use clamav_win.RunOnce.Threads.{
  Pc, idle, begin, saw, running, completing, ready, saw_complete, finished, returned, failed, Once,
  after_begin, after_complete, after_init, success_of, at, Step, call, read, try, run, conclude,
  reread, store, Reach, start, next,
}
use clamav_win.RunOnce.Fits.{Fits}
use clamav_win.RunOnce.Once.{
  Inv, Reach-Inv, BeginCase, begin_round-BeginCase, CompleteCase, complete_round-CompleteCase,
}

-- The thread's pInitFn succeeded, and its InitOnceComplete as well.
abbrev pub has_initialised : Pc → Bool
has_initialised (finished (some context) new) = true
has_initialised _ = false

-- A complete word was stored by such a thread, and there is one at most.
record Done (s : Once) : Type 0 where
  stored_by : s.word % 4 ≡ 2 → (j : ℕ) × (has_initialised (s.pc j) ≡ true)
  single : (j k : ℕ) → has_initialised (s.pc j) ≡ true → has_initialised (s.pc k) ≡ true → j ≡ k

has_initialised_complete :
    (word : ℕ) (p : Pc) → Fits word p → has_initialised p ≡ true → word % 4 ≡ 2
has_initialised_complete word (finished (some context) new) f h = omega (arith, f.0, f.1)
has_initialised_complete word (finished none new) f h = cc
has_initialised_complete word idle f h = cc
has_initialised_complete word begin f h = cc
has_initialised_complete word (saw val) f h = cc
has_initialised_complete word running f h = cc
has_initialised_complete word (completing result context) f h = cc
has_initialised_complete word (ready success new) f h = cc
has_initialised_complete word (saw_complete success new val) f h = cc
has_initialised_complete word (returned context) f h = cc
has_initialised_complete word failed f h = cc

module _ {s : Once} (done : Done s) (i : ℕ) where
  open done use {stored_by, single}

  -- A thread that has not completed moves, and does not complete with success.
  keep :
      (p : Pc) (word' : ℕ) (memory' : ℕ → ℕ)
      → has_initialised (s.pc i) ≡ false
      → has_initialised p ≡ false
      → (word' % 4 ≡ 2 → s.word % 4 ≡ 2)
      → Done (record { word = word'; memory = memory'; pc = update s.pc i p })
  keep p word' memory' before now back = record {
    stored_by = λ h.
        let (j, d) = stored_by (back h) in
        (
          j,
          subst (λ (q : Pc). has_initialised q ≡ true) (sym (update_ne s.pc i j p (other j d))) d,
        );
    single = λ j k hj hk. single j k (was j hj) (was k hk);
  }
    where
      other : (j : ℕ) → has_initialised (s.pc j) ≡ true → i ≢ j
      other j d e =
          absurd
            (ground (arith, before, subst (λ (k : ℕ). has_initialised (s.pc k) ≡ true) (sym e) d))

      was : (j : ℕ) → has_initialised (update s.pc i p j) ≡ true → has_initialised (s.pc j) ≡ true
      was =
          update_ind (λ j q. has_initialised q ≡ true → has_initialised (s.pc j) ≡ true) s.pc i p
            (λ h. absurd (ground (arith, h, now))) (λ j ne h. h)

  -- The thread completes with success, where none has before.
  complete_first :
      (p : Pc) (word' : ℕ)
      → ((j : ℕ) → has_initialised (s.pc j) ≡ false)
      → has_initialised p ≡ true
      → Done (record s { word = word'; pc = update s.pc i p })
  complete_first p word' none_before now = record {
    stored_by =
        λ h. (i, subst (λ (q : Pc). has_initialised q ≡ true) (sym (update_self s.pc i p)) now);
    single = λ j k hj hk. sym (is_i j hj) ∙ is_i k hk;
  }
    where
      is_i : (j : ℕ) → has_initialised (update s.pc i p j) ≡ true → i ≡ j
      is_i =
          update_ind (λ j q. has_initialised q ≡ true → i ≡ j) s.pc i p (λ h. refl)
            (λ j ne h. absurd (ground (arith, h, none_before j)))

module _ {s : Once} (inv : Inv s) (done : Done s) (i : ℕ) where
  open inv use {fits}

  try-Done :
      {val : ℕ} (r : Round) (memory' : ℕ → ℕ)
      → s.pc i ≡ saw val
      → BeginCase val s.word r
      → Done (record { word = r.word; memory = memory'; pc = update s.pc i (after_begin r.result) })
  unfolding after_begin
  try-Done {val} r memory' e (inl (zero_word, w, res)) =
      rw (w, res) (keep done i running 1 memory' (rw e refl) refl (λ h. absurd (omega (arith, h))))
  try-Done {val} r memory' e (inr (inl (inl w, res))) =
      rw (w, res) (keep done i begin s.word memory' (rw e refl) refl (λ h. h))
  try-Done {val} r memory' e (inr (inl (inr (p, w), res))) =
      rw res (keep done i begin r.word memory' (rw e refl) refl (λ h. absurd (omega (arith, h, w))))
  try-Done {val} r memory' e (inr (inr (inl (c, w, res)))) =
      rw (w, res) (keep done i (returned (val - 2)) s.word memory' (rw e refl) refl (λ h. h))
  try-Done {val} r memory' e (inr (inr (inr (w, res)))) =
      rw (w, res) (keep done i failed s.word memory' (rw e refl) refl (λ h. h))

  -- Where a thread is about to store, none has completed with success.
  none_yet : s.word % 4 ≡ 1 → (j : ℕ) → has_initialised (s.pc j) ≡ false
  none_yet w j = elim (Bool-cases (has_initialised (s.pc j))) [
    | inl h ↦
        let complete = has_initialised_complete s.word (s.pc j) (fits j) h in
        absurd (omega (arith, w, complete))
    | inr h ↦ h
  ]

  store-Done :
      (success : Option ℕ) {new val : ℕ} (r : Ended × ℕ)
      → s.pc i ≡ saw_complete success new val
      → CompleteCase success new val s.word r
      → Done (record s { word = r.1; pc = update s.pc i (after_complete success new r.0) })
  store-Done none {new} {val} r e (inl (v, w, res)) =
      let here : Fits s.word (saw_complete none new val) = subst (Fits s.word) e (fits i) in
      rw (w, res)
        (keep done i (finished none new) new s.memory (rw e refl) refl
          (λ h. absurd (omega (arith, h, here.1))))
  store-Done (some context) {new} {val} r e (inl (v, w, res)) =
      let here : Fits s.word (saw_complete (some context) new val) =
        subst (Fits s.word) e (fits i) in
      rw (w, res) (complete_first done i (finished (some context) new) new (none_yet here.0) refl)
  store-Done success {new} {val} r e (inr (w, inl res)) =
      rw (w, res) (keep done i (ready success new) s.word s.memory (rw e refl) refl (λ h. h))
  store-Done success {new} {val} r e (inr (w, inr res)) =
      rw (w, res) (keep done i failed s.word s.memory (rw e refl) refl (λ h. h))

  conclude-Done :
      (success o : Option ℕ) {result : Bool} {context : ℕ}
      → s.pc i ≡ completing result context
      → Done (at s i (after_init success o))
  unfolding after_init
  conclude-Done success none e = keep done i failed s.word s.memory (rw e refl) refl (λ h. h)
  conclude-Done success (some new) e =
      keep done i (ready success new) s.word s.memory (rw e refl) refl (λ h. h)

step-Done :
    {cell : ℕ → ℕ} {s : Once} (i : ℕ) {t : Once}
    → ((k : ℕ) → cell k % 4 ≡ 0)
    → Inv s
    → Done s
    → Step cell s i t
    → Done t
step-Done {s = s} i aligned inv done (call e) =
    keep done i begin s.word s.memory (rw e refl) refl (λ h. h)
step-Done {s = s} i aligned inv done (read e) =
    keep done i (saw s.word) s.word s.memory (rw e refl) refl (λ h. h)
step-Done {cell} {s} i aligned inv done (try {val} {r} e q) =
    try-Done inv done i r _ e
      (subst (BeginCase val s.word) q (begin_round-BeginCase val s.word (cell i) (aligned i)))
step-Done {s = s} i aligned inv done (run result context e) =
    keep done i (completing result context) s.word s.memory (rw e refl) refl (λ h. h)
step-Done {s = s} i aligned inv done (conclude {result} {context} e) =
    conclude-Done inv done i (success_of result context) _ e
step-Done {s = s} i aligned inv done (reread {success} {new} e) =
    keep done i (saw_complete success new s.word) s.word s.memory (rw e refl) refl (λ h. h)
step-Done {s = s} i aligned inv done (store {success} {new} {val} {r} e q) =
    store-Done inv done i success r e (
      subst (CompleteCase success new val s.word) q
        (complete_round-CompleteCase success new val s.word))

Reach-Done : {cell : ℕ → ℕ} {s : Once} → ((k : ℕ) → cell k % 4 ≡ 0) → Reach cell s → Done s
Reach-Done aligned (start memory) = record {
  stored_by = λ h. absurd (omega (arith, h));
  single = λ j k h. cc;
}
Reach-Done aligned (next r i st) =
    step-Done i aligned (Reach-Inv aligned r) (Reach-Done aligned r) st

-- The context of the thread that has completed is the one in the word.
from_word :
    (word context : ℕ) (p : Pc)
    → word ≡ context + 2
    → Fits word p
    → has_initialised p ≡ true
    → (new : ℕ) × (p ≡ finished (some context) new)
from_word word context (finished (some c) new) w f h =
    (new, ap (λ (n : ℕ). finished (some n) new) (omega (arith, w, f.1)))
from_word word context (finished none new) w f h = cc
from_word word context idle w f h = cc
from_word word context begin w f h = cc
from_word word context (saw val) w f h = cc
from_word word context running w f h = cc
from_word word context (completing result c) w f h = cc
from_word word context (ready success new) w f h = cc
from_word word context (saw_complete success new val) w f h = cc
from_word word context (returned c) w f h = cc
from_word word context failed w f h = cc

-- Where the variables of the threads stand at multiples of 4 and a thread has found the initialization
-- complete, the context that it got is the one with which the pInitFn of a thread succeeded whose
-- InitOnceComplete succeeded too, and this is the only such thread.
pub one_context :
    {cell : ℕ → ℕ} {s : Once}
    → ((k : ℕ) → cell k % 4 ≡ 0)
    → Reach cell s
    → (i context : ℕ) → s.pc i ≡ returned context
    → (j : ℕ) × (new : ℕ) × (s.pc j ≡ finished (some context) new)
      × ((k : ℕ) → has_initialised (s.pc k) ≡ (k == j))
one_context {s = s} aligned r i context p =
    let fits = (Reach-Inv aligned r).fits in
    let done = Reach-Done aligned r in
    let here = subst (Fits s.word) p (fits i) in
    let (j, d) = done.stored_by (omega (arith, here.0, here.1)) in
    let (new, e) = from_word s.word context (s.pc j) here.1 (fits j) d in (j, new, e, only done j d)
  where
    only :
        Done s
        → (j : ℕ) → has_initialised (s.pc j) ≡ true
        → (k : ℕ) → has_initialised (s.pc k) ≡ (k == j)
    only done j d k = elim (Bool-cases (has_initialised (s.pc k))) [
      | inl h ↦ let same = done.single k j h d in ground (arith, same, h)
      | inr h ↦ elim (Bool-cases (k == j)) [
        | inl e ↦
            let same : k ≡ j = ground (arith, e) in
            let also = subst (λ (n : ℕ). has_initialised (s.pc n) ≡ true) (sym same) d in
            absurd (ground (arith, h, also))
        | inr e ↦ h ∙ sym e
      ]
    ]
