-- ===== src/Fls/New.antt =====
-- FlsSetValue of src/legacy/shared/fibersapi.c where the thread has no value of the key yet.
use clamav_win.Base.{
  ℕ, ◌≡◌, ◌≢◌, refl, Bool, true, false, ◌==◌, some, arith, sym, subst, ◌∙◌, ap, update, update_self,
  update_ne, List, ◌∷◌, Bool-cases, inl, inr, ==_iff,
}
use native.Mathlib.Decide.{ℕ_discrete}
use clamav_win.Fls.{
  Pthread, error_of, Error, Fls, Value, fls_find_key, set_new, returned_false, remove,
  fls_unlink_value,
}
use clamav_win.Fls.Lists.{find-listed}
use clamav_win.Fls.Sound.{Documented, Sound}
use clamav_win.Fls.Grow.{shrink-Sound, add_value-Sound}
use clamav_win.Fls.Spec.{pointer_in}
use clamav_win.Fls.View.{
  pointers_same, pointers_stored, if_at, if_off, holds, Promised, absent, is_key,
}

-- A block that is linked and unlinked again leaves the lists as they were.
remove_first :
    (values : ℕ → List ℕ) (k v j : ℕ)
    → update (update values k (v ∷ values k)) k (remove v (update values k (v ∷ values k) k)) j
      ≡ values j
unfolding remove
remove_first values k v j = elim (ℕ_discrete k j) [
  | yes e ↦ ground (arith, e, ap values e)
  | no n ↦ ground (arith, n)
]

module _ {T : Type 0} {p : Pthread T} {valid : T → ℕ → Bool} (doc : Documented p valid) {s : Fls T}
    (inv : Sound p valid s) where
  -- A block that a thread holds is not a free one.
  held_elsewhere :
      (v j k' u : ℕ) (x : Value)
      → s.heap v ≡ false
      → fls_find_key s.key s.keys j ≡ some k'
      → pointer_in (update s.value v x) (p.getspecific s.tls j u)
        ≡ pointer_in s.value (p.getspecific s.tls j u)
  held_elsewhere v j k' u x dead h = elim (ℕ_discrete (p.getspecific s.tls j u) 0) [
    | yes z ↦ rw z refl
    | no n ↦
        let ne : v ≢ p.getspecific s.tls j u =
          λ e. ground (arith, dead, (holds inv j k' u h n).live, ap s.heap e) in
        ground (arith, update_ne s.value v (p.getspecific s.tls j u) x ne)
  ]

  -- The failure: the block is unlinked and freed.
  set_new_failed :
      (k t d v : ℕ) (error : Error) (tls : T)
      → s.heap v ≡ false
      → ((j : ℕ) → valid tls j ≡ valid s.tls j)
      → ((j u : ℕ) → p.getspecific tls j u ≡ p.getspecific s.tls j u)
      → Promised p valid s t k d (
        record s {
          value = update s.value v (record { owner = k; value = d });
          values =
              update
                (update s.values k (v ∷ s.values k))
                k
                (remove v (update s.values k (v ∷ s.values k) k));
          heap = update (update s.heap v true) v false;
          tls = tls;
        },
        returned_false error,
      )
  set_new_failed k t d v error tls dead same_valid gets = (
    shrink-Sound inv inv.keys_distinct (λ j m. (
      m,
      record {
        key_same = refl;
        values_same = remove_first s.values k v j;
        live = heap_same j ∙ (inv.each j m).allocated;
        exists = same_valid (s.key j).index ∙ (inv.each j m).exists;
        tls_same = λ u. gets (s.key j).index u;
        value_same = λ w mw.
            let same =
              update_ne s.value v w (record { owner = k; value = d })
                (λ e. ground (arith, dead, ap s.heap e, ((inv.each j m).owned w mw).1)) in
            (
              ap (λ (x : Value). x.owner) same,
              heap_same w,
              λ h. subst (λ (x : Value). x.value ≢ 0) (sym same) h,
            );
      },
    )),
    inl (
      (λ j. refl),
      (λ j u.
          pointers_same s.value (update s.value v (record { owner = k; value = d }))
            (fls_find_key s.key s.keys j) _ _
            (λ k' h.
              ap (pointer_in (update s.value v (record { owner = k; value = d }))) (gets j u)
              ∙ held_elsewhere v j k' u (record { owner = k; value = d }) dead h)),
      refl,
    ),
  )
    where
      heap_same : (w : ℕ) → update (update s.heap v true) v false w ≡ s.heap w
      heap_same w = elim (ℕ_discrete v w) [
        | yes e ↦ ground (arith, dead, e, ap s.heap e)
        | no n ↦ ground (arith, n)
      ]

  pub set_new-Promised :
      (k t d v : ℕ)
      → fls_find_key s.key s.keys (s.key k).index ≡ some k
      → d ≢ 0
      → v ≢ 0
      → s.heap v ≡ false
      → p.getspecific s.tls (s.key k).index t ≡ 0
      → Promised p valid s t k d (set_new p s k t d (some v))
  unfolding set_new fls_unlink_value
  set_new-Promised k t d v found some_d nonnull dead unset =
      elim (Bool-cases ((p.setspecific s.tls (s.key k).index t v).0 == 0)) [
        | inl r ↦
            let gets = doc.setspecific-stores s.tls (s.key k).index t v ((==_iff _ 0).0 r) in
            rw r (
              add_value-Sound inv k t v d _ (find-listed s.key s.keys (s.key k).index found).0 unset
                  nonnull some_d dead (doc.setspecific-valid s.tls (s.key k).index t v) gets,
              (
                is_key p valid s k found,
                (
                  (λ j. refl),
                  (λ j u.
                      pointers_stored s.value (update s.value v (record { owner = k; value = d }))
                        (fls_find_key s.key s.keys j) (p.getspecific s.tls j u)
                        (p.getspecific _ j u) (s.key k).index j t u d (absent p valid s k found j)
                        (λ k' h.
                          if_at (s.key k).index j t u _ _ _
                            (λ a b. new_pointer _ (ground (arith, gets j u, a, b)))
                            (λ n.
                              ap (pointer_in (update s.value v (record { owner = k; value = d })))
                                (if_off (s.key k).index j t u _ _ v (gets j u) n)
                              ∙ held_elsewhere v j k' u (record { owner = k; value = d }) dead h))),
                  refl,
                ),
              ),
            )
        | inr r ↦
            let own =
              ap (λ (x : Value). x.owner)
                (update_self s.value v (record { owner = k; value = d })) in
            rw (r, own)
              (set_new_failed k t d v (error_of p (p.setspecific s.tls (s.key k).index t v).0) _
                dead (doc.setspecific-valid s.tls (s.key k).index t v)
                (doc.setspecific-fails s.tls (s.key k).index t v (λ q. ground (arith, q, r))))
      ]
    where
      new_pointer :
          (w : ℕ) → w ≡ v → pointer_in (update s.value v (record { owner = k; value = d })) w ≡ d
      new_pointer w e = rw e (
          ground (
            arith,
            nonnull,
            ap (λ (x : Value). x.value) (update_self s.value v (record { owner = k; value = d })),
          ))
