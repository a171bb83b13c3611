-- ===== src/Fls/Old.antt =====
-- FlsSetValue of src/legacy/shared/fibersapi.c over another value of the thread.
use clamav_win.Base.{
  ℕ, ◌≡◌, ◌≢◌, refl, Bool, true, ◌==◌, is_in, some, arith, sym, subst, ◌∙◌, ap, update, update_self,
  update_ne, Bool-cases, inl, inr,
}
use native.Mathlib.Decide.{ℕ_discrete}
use clamav_win.Fls.{Pthread, Fls, Value, fls_find_key, set_old}
use clamav_win.Fls.Sound.{Documented, Sound}
use clamav_win.Fls.Grow.{shrink-Sound}
use clamav_win.Fls.Spec.{Stored, pointer_in, view}
use clamav_win.Fls.View.{
  pointers_stored, if_at, if_off, Holds, holds, one_holder, Promised, absent, is_key,
}

module _ {T : Type 0} {p : Pthread T} {valid : T → ℕ → Bool} (doc : Documented p valid) {s : Fls T}
    (inv : Sound p valid s) (k : ℕ) (found : fls_find_key s.key s.keys (s.key k).index ≡ some k)
    (t d v : ℕ) (some_d : d ≢ 0) (nonnull : v ≢ 0)
    (held : p.getspecific s.tls (s.key k).index t ≡ v) where
  abbrev i : ℕ
  i = (s.key k).index

  had : Holds inv i k t
  had = holds inv i k t found (λ q. nonnull (sym held ∙ q))

  had_pointer : (view p s).pointer i t ≢ 0
  had_pointer =
      let q =
        ((inv.each k had.key_listed).owned v
          (subst (λ x. is_in x (s.values k) ≡ true) held had.listed)).5 in
      rw (found, held) (λ e. ground (arith, q, nonnull, e))

  abbrev value' : ℕ → Value
  value' = update s.value v (record (s.value v) { value = d })

  owner_kept : (w : ℕ) → (value' w).owner ≡ (s.value w).owner
  owner_kept w = elim (ℕ_discrete v w) [
    | yes e ↦
        subst (λ x. (value' x).owner ≡ (s.value x).owner) e
          (ap (λ (x : Value). x.owner) (update_self s.value v _))
    | no n ↦ ap (λ (x : Value). x.owner) (update_ne s.value v w _ n)
  ]

  pointer_kept : (w : ℕ) → (s.value w).value ≢ 0 → (value' w).value ≢ 0
  pointer_kept w h = elim (ℕ_discrete v w) [
    | yes e ↦
        subst (λ x. (value' x).value ≢ 0) e
          (subst (λ (x : Value). x.value ≢ 0) (sym (update_self s.value v _)) some_d)
    | no n ↦ subst (λ (x : Value). x.value ≢ 0) (sym (update_ne s.value v w _ n)) h
  ]

  abbrev tls' : T
  tls' = (p.setspecific s.tls i t v).1

  gets : (j u : ℕ) → p.getspecific tls' j u ≡ p.getspecific s.tls j u
  gets j u = elim (ℕ_discrete (p.setspecific s.tls i t v).0 0) [
    | yes z ↦
        let h = doc.setspecific-stores s.tls i t v z j u in
        elim (ℕ_discrete i j) [
          | yes a ↦ elim (ℕ_discrete t u) [
            | yes b ↦
                ground (arith, h, a, b)
                ∙ sym held
                ∙ ap (λ (x : ℕ). p.getspecific s.tls x t) a
                ∙ ap (p.getspecific s.tls j) b
            | no b ↦ if_off i j t u _ _ v h (λ q. b q.1)
          ]
          | no a ↦ if_off i j t u _ _ v h (λ q. a q.0)
        ]
    | no n ↦ doc.setspecific-fails s.tls i t v n j u
  ]

  abbrev changed : Fls T
  changed = record s { value = value'; tls = tls' }

  changed-Sound : Sound p valid changed
  changed-Sound = shrink-Sound inv inv.keys_distinct (λ j m. (
    m,
    record {
      key_same = refl;
      values_same = refl;
      live = (inv.each j m).allocated;
      exists = doc.setspecific-valid s.tls i t v (s.key j).index ∙ (inv.each j m).exists;
      tls_same = λ u. gets (s.key j).index u;
      value_same = λ w mw. (owner_kept w, refl, pointer_kept w);
    },
  ))

  new_pointer : (w : ℕ) → w ≡ v → pointer_in value' w ≡ d
  new_pointer w e = rw e (
      ground (
        arith,
        nonnull,
        ap (λ (x : Value). x.value) (update_self s.value v (record (s.value v) { value = d })),
      ))

  old_pointer : (w : ℕ) → v ≢ w → pointer_in value' w ≡ pointer_in s.value w
  old_pointer w n = ground (
    arith,
    ap (λ (x : Value). x.value) (update_ne s.value v w (record (s.value v) { value = d }) n),
  )

  stored : Stored i t d (view p s) (view p changed)
  stored = (
    (λ j. refl),
    (λ j u.
        pointers_stored s.value value' (fls_find_key s.key s.keys j) (p.getspecific s.tls j u)
          (p.getspecific tls' j u) i j t u d (absent p valid s k found j)
          (λ k' h.
            if_at i j t u _ _ _
              (λ a b. new_pointer _ (
                gets j u
                ∙ sym (ap (λ (x : ℕ). p.getspecific s.tls x t) a ∙ ap (p.getspecific s.tls j) b)
                ∙ held))
              (λ n.
                ap (pointer_in value') (gets j u)
                ∙ old_pointer (p.getspecific s.tls j u) (λ e. n (
                    one_holder inv i k t j k' u found h (held ∙ e)
                      (λ q. nonnull (sym held ∙ q))))))),
    refl,
  )

  pub set_old-Promised : Promised p valid s t k d (set_old p s k t d v)
  unfolding set_old
  set_old-Promised = elim (Bool-cases ((p.setspecific s.tls (s.key k).index t v).0 == 0)) [
    | inl r ↦ rw r (changed-Sound, (is_key p valid s k found, stored))
    | inr r ↦ rw r (changed-Sound, inr (had_pointer, stored))
  ]
