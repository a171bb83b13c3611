-- ===== src/Fls/Alloc.antt =====
-- FlsAlloc of src/legacy/shared/fibersapi.c keeps the invariant and does what is promised.
use clamav_win.Base.{
  ℕ, ◌≡◌, refl, Bool, true, false, ◌==◌, if◌then◌else◌, is_in, Option, none, some, arith, subst, ap,
  update, update_self, update_ne, [], ◌∷◌, Bool-cases, inl, inr, ==_iff,
}
use clamav_win.Fls.{Pthread, Fls, Key, fls_find_key, fls_alloc}
use clamav_win.Fls.Lists.{find-listed, find-none, find-new}
use clamav_win.Fls.Sound.{Documented, Sound, FreshBlock}
use clamav_win.Fls.NewKey.{add_key-Sound}
use clamav_win.Fls.Spec.{allocates, callback_at, pointer_in, pointer_at, view}
use clamav_win.Fls.View.{Option-cases, Refines, unchanged, pointers_same}
use clamav_win.Fls.Set.{retls-Sound}

module _ {T : Type 0} {p : Pthread T} {valid : T → ℕ → Bool} (doc : Documented p valid) {s : Fls T}
    (inv : Sound p valid s) where
  -- What is stored stays when pthreads makes a key, or fails to.
  pointers_kept :
      (j t : ℕ)
      → pointer_at s.value (fls_find_key s.key s.keys j) (p.getspecific (p.create s.tls).1 j t)
        ≡ (view p s).pointer j t
  pointers_kept j t =
      pointers_same s.value s.value (fls_find_key s.key s.keys j) (p.getspecific s.tls j t)
        (p.getspecific (p.create s.tls).1 j t)
        (λ x h.
          let (m, e) = find-listed s.key s.keys j h in
          let exists = subst (λ i. valid s.tls i ≡ true) e (inv.each x m).exists in
          ap (pointer_in s.value) ((doc.create-others s.tls j exists).1 t))

  -- A new key.
  added-Refines :
      (k callback : ℕ)
      → (p.create s.tls).0.0 ≡ 0
      → FreshBlock s (some k)
      → Refines p valid s (allocates callback (inr (p.create s.tls).0.1)) (record s {
        keys = k ∷ s.keys;
        key = update s.key k (record { index = (p.create s.tls).0.1; callback = callback });
        values = update s.values k [];
        heap = update s.heap k true;
        tls = (p.create s.tls).1;
      })
  added-Refines k callback ok fresh =
      let (new, valid_after, unset) = doc.create-new s.tls ok in
      (
        add_key-Sound inv k i callback (p.create s.tls).1 fresh.1 new
            (ground (arith, valid_after i)) unset (doc.create-others s.tls),
        (ap (callback_at s.key) (not_found new), callbacks, pointers, refl),
      )
    where
      i : ℕ
      i = (p.create s.tls).0.1

      not_found : valid s.tls i ≡ false → fls_find_key s.key s.keys i ≡ none
      not_found new =
          find-none s.key s.keys i
            (λ j m e. ground (arith, new, (inv.each j m).exists, ap (valid s.tls) e))

      new_key : Key
      new_key = record { index = i; callback = callback }

      not_listed : is_in k s.keys ≡ false
      not_listed = elim (Bool-cases (is_in k s.keys)) [
        | inl e ↦ absurd (ground (arith, fresh.1, (inv.each k e).allocated))
        | inr e ↦ e
      ]

      find-now :
          (j : ℕ)
          → fls_find_key (update s.key k new_key) (k ∷ s.keys) j
            ≡ (if i == j then some k else fls_find_key s.key s.keys j)
      find-now j = find-new s.key k new_key s.keys j not_listed

      old_callback :
          (j : ℕ)
          → callback_at (update s.key k new_key) (fls_find_key s.key s.keys j)
            ≡ callback_at s.key (fls_find_key s.key s.keys j)
      old_callback j = elim (Option-cases (fls_find_key s.key s.keys j)) [
        | inl e ↦ rw e refl
        | inr (x, e) ↦
            let m = (find-listed s.key s.keys j e).0 in
            rw e (
              ap (λ (y : Key). some y.callback)
                (update_ne s.key k x new_key (λ q. ground (arith, m, not_listed, q))))
      ]

      callbacks :
          (j : ℕ)
          → callback_at
              (update s.key k new_key)
              (fls_find_key (update s.key k new_key) (k ∷ s.keys) j)
            ≡ (if i == j then some callback else callback_at s.key (fls_find_key s.key s.keys j))
      callbacks j = elim (Bool-cases (i == j)) [
        | inl e ↦
            rw (find-now j, e) (ap (λ (y : Key). some y.callback) (update_self s.key k new_key))
        | inr e ↦ rw (find-now j, e) (old_callback j)
      ]

      pointers :
          (j t : ℕ)
          → pointer_at s.value
              (fls_find_key (update s.key k new_key) (k ∷ s.keys) j)
              (p.getspecific (p.create s.tls).1 j t)
            ≡ (if i == j then 0 else (view p s).pointer j t)
      pointers j t = elim (Bool-cases (i == j)) [
        | inl e ↦
            let z : p.getspecific (p.create s.tls).1 j t ≡ 0 =
              subst (λ x. p.getspecific (p.create s.tls).1 x t ≡ 0) ((==_iff i j).0 e)
                ((doc.create-new s.tls ok).2 t) in
            rw (find-now j, e, z) refl
        | inr e ↦ rw (find-now j, e) (pointers_kept j t)
      ]

  pub fls_alloc-Refines :
      (callback : ℕ) (block : Option ℕ)
      → FreshBlock s block
      → Refines p valid s
          (allocates callback (fls_alloc p s callback block).1)
          (fls_alloc p s callback block).0
  unfolding fls_alloc
  fls_alloc-Refines callback none fresh = (inv, (unchanged p valid s))
  fls_alloc-Refines callback (some k) fresh = elim (Bool-cases ((p.create s.tls).0.0 == 0)) [
    | inl e ↦ rw e (added-Refines k callback ((==_iff _ 0).0 e) fresh)
    | inr e ↦
        rw e (retls-Sound doc inv _ (doc.create-others s.tls), ((λ j. refl), pointers_kept, refl))
  ]
