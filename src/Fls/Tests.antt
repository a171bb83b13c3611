-- ===== src/Fls/Tests.antt =====
-- Instances of the theorems on src/legacy/shared/fibersapi.c, with a small model of pthread keys.
use clamav_win.Base.{
  ℕ, suc, ◌≡◌, refl, Bool, false, ◌&&◌, ◌==◌, if◌then◌else◌, some, arith, List, [], ◌∷◌, inr, ltb,
}
use clamav_win.Fls.{
  Pthread, Fls, fls_alloc, fls_set_value, fls_free, returned_true, fls_find_key, set_found,
  set_null, set_new, set_old, free_found, free_values, remove,
}
use clamav_win.Fls.Sound.{Documented, Sound}
use clamav_win.Fls.Spec.{
  Event, allocates, sets, frees, SpecRun, Run, start, next, calls_alloc, calls_set, calls_free,
  view,
}
use clamav_win.Fls.Refine.{Run-Sound, Run-SpecRun}

-- The keys below `count` exist.
record Slots : Type 0 where
  count : ℕ
  slot : ℕ → ℕ → ℕ

abbrev written : (ℕ → ℕ → ℕ) → (i t v : ℕ) → ℕ → ℕ → ℕ
written slot i t v j u = if i == j && t == u then v else slot j u

abbrev slots : Pthread Slots
slots = record {
  enomem = 12;
  create = λ s. (
    (0, s.count),
    record { count = suc s.count; slot = λ j t. if s.count == j then 0 else s.slot j t },
  );
  getspecific = λ s i t. s.slot i t;
  setspecific = λ s i t v. (0, record s { slot = written s.slot i t v });
  delete = λ s i. (0, s);
  exits = λ s i t. record s { slot = written s.slot i t 0 };
}

abbrev exists : Slots → ℕ → Bool
exists s i = ltb i s.count

slots-Documented : Documented slots exists
slots-Documented = record {
  create-new = λ s e. (ground arith, (λ j. ground arith), (λ t. ground arith));
  create-others = λ s j h. (ground arith, (λ t. ground arith));
  setspecific-stores = λ s i t v e j u. refl;
  setspecific-fails = λ s i t v e j u. absurd (e refl);
  setspecific-valid = λ s i t v j. refl;
  delete-others = λ s i j n. (refl, λ t. refl);
  delete-fails = λ s i e. absurd (e refl);
  exits-clears = λ s i t j u. refl;
  exits-valid = λ s i t j. refl;
}

abbrev no_keys : Fls Slots
no_keys = record {
  keys = [];
  key = λ k. record { index = 0; callback = 0 };
  values = λ k. [];
  value = λ v. record { owner = 0; value = 0 };
  heap = λ b. false;
  tls = record { count = 0; slot = λ i t. 0 };
  called = [];
}

-- A key in the block 100 with the callback 9; thread 1 stores 5 in the block 200, and the key is freed.
abbrev one_key : Fls Slots
one_key = (fls_alloc slots no_keys 9 (some 100)).0

abbrev one_value : Fls Slots
one_value = (fls_set_value slots one_key 1 0 5 (some 200)).0

abbrev no_key_left : Fls Slots
no_key_left = (fls_free slots one_value 0).0

events : List Event
events = frees 0 returned_true ∷ sets 1 0 5 returned_true ∷ allocates 9 (inr 0) ∷ []

run : Run slots no_key_left events
unfolding events fls_alloc fls_set_value fls_free fls_find_key set_found set_new set_null set_old
    free_found free_values remove
run =
    next
      (next
        (next (start {s = no_keys} refl refl)
          (calls_alloc 9 (some 100) ((λ e. omega (arith, e)), refl)))
        (calls_set 1 0 5 (some 200) ((λ e. omega (arith, e)), refl)))
      (calls_free 0)

Run-Sound_example : Sound slots exists no_key_left
Run-Sound_example = Run-Sound slots-Documented run

Run-SpecRun_example : SpecRun (view slots no_key_left) events
Run-SpecRun_example = Run-SpecRun slots-Documented run

callback_called : no_key_left.called ≡ (9, 5) ∷ []
unfolding fls_alloc fls_set_value fls_free fls_find_key set_found set_new set_null set_old
    free_found free_values remove
callback_called = refl
