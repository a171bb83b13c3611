-- ===== src/Fls/Set.antt =====
-- FlsSetValue of src/legacy/shared/fibersapi.c keeps the invariant and does what is promised.
use clamav_win.Base.{
  ℕ, ◌≡◌, ◌≢◌, refl, Bool, true, ◌==◌, some, arith, sym, ◌∙◌, ap, Bool-cases, inl, inr, ==_iff,
}
use clamav_win.Fls.{
  Pthread, error_of, Error, Fls, fls_find_key, set_null, returned_false, fls_unlink_value,
}
use clamav_win.Fls.Lists.{find-listed}
use clamav_win.Fls.Sound.{Documented, Sound}
use clamav_win.Fls.Keep.{drop_value-Sound}
use clamav_win.Fls.Grow.{shrink-Sound}
use clamav_win.Fls.Spec.{pointer_in, pointer_at}
use clamav_win.Fls.View.{pointers_stored, if_at, if_off, holds, Promised, absent, is_key}

module _ {T : Type 0} {p : Pthread T} {valid : T → ℕ → Bool} (doc : Documented p valid) {s : Fls T}
    (inv : Sound p valid s) where
  -- Only the state of pthreads changes, and not in what it holds for keys that exist.
  pub retls-Sound :
      (tls : T)
      → ((j : ℕ)
          → valid s.tls j ≡ true
          → (valid tls j ≡ true) × ((u : ℕ) → p.getspecific tls j u ≡ p.getspecific s.tls j u))
      → Sound p valid (record s { tls = tls })
  retls-Sound tls gets = shrink-Sound inv inv.keys_distinct (λ j m. (
    m,
    record {
      key_same = refl;
      values_same = refl;
      live = (inv.each j m).allocated;
      exists = (gets (s.key j).index (inv.each j m).exists).0;
      tls_same = (gets (s.key j).index (inv.each j m).exists).1;
      value_same = λ v mv. (refl, refl, λ n. n);
    },
  ))

  retls-Promised :
      (t k d : ℕ) (error : Error) (tls : T)
      → ((j : ℕ) → valid tls j ≡ valid s.tls j)
      → ((j u : ℕ) → p.getspecific tls j u ≡ p.getspecific s.tls j u)
      → Promised p valid s t k d (record s { tls = tls }, returned_false error)
  retls-Promised t k d error tls same_valid gets = (
    retls-Sound tls (λ j m. (same_valid j ∙ m, gets j)),
    inl (
      (λ i. refl),
      (λ j u. ap (pointer_at s.value (fls_find_key s.key s.keys j)) (gets j u)),
      refl,
    ),
  )

  module _ (k : ℕ) (found : fls_find_key s.key s.keys (s.key k).index ≡ some k) where
    pub set_null-Promised :
        (t v : ℕ)
        → p.getspecific s.tls (s.key k).index t ≡ v
        → Promised p valid s t k 0 (set_null p s k t v)
    unfolding set_null fls_unlink_value
    set_null-Promised t v held = elim (Bool-cases (v == 0)) [
      | inl e ↦ rw e (
        inv,
        (
          is_key p valid s k found,
          (
            (λ j. refl),
            (λ j u.
                pointers_stored s.value s.value (fls_find_key s.key s.keys j)
                  (p.getspecific s.tls j u) (p.getspecific s.tls j u) (s.key k).index j t u 0
                  (absent p valid s k found j)
                  (λ k' h.
                    if_at (s.key k).index j t u _ _ _
                      (λ a b. no_pointer _ (sym (at_same a b) ∙ held ∙ (==_iff v 0).0 e))
                      (λ n. refl))),
            refl,
          ),
        ),
      )
      | inr e ↦ rw e (elim (Bool-cases ((p.setspecific s.tls (s.key k).index t 0).0 == 0)) [
        | inl r ↦
            let zero_result : (p.setspecific s.tls (s.key k).index t 0).0 ≡ 0 = (==_iff _ 0).0 r in
            let nonnull : v ≢ 0 = ground (arith, e) in
            let gets = doc.setspecific-stores s.tls (s.key k).index t 0 zero_result in
            let own =
              (holds inv (s.key k).index k t found (λ q. nonnull (sym held ∙ q))).owner_is in
            let own_v : (s.value v).owner ≡ k =
              ap (λ (x : ℕ). (s.value x).owner) (sym held) ∙ own in
            rw (r, own_v)
              (
                drop_value-Sound inv k t v _ _ (find-listed s.key s.keys (s.key k).index found).0
                    held nonnull (doc.setspecific-valid s.tls (s.key k).index t 0) gets,
                (
                  is_key p valid s k found,
                  (
                    (λ j. refl),
                    (λ j u.
                        pointers_stored s.value s.value (fls_find_key s.key s.keys j)
                          (p.getspecific s.tls j u) (p.getspecific _ j u) (s.key k).index j t u 0
                          (absent p valid s k found j)
                          (λ k' h.
                            if_at (s.key k).index j t u _ _ _
                              (λ a b. no_pointer _ (ground (arith, gets j u, a, b)))
                              (λ n.
                                ap (pointer_in s.value)
                                  (if_off (s.key k).index j t u _ _ 0 (gets j u) n)))),
                    refl,
                  ),
                ),
              )
        | inr r ↦ rw r (
            retls-Promised t k 0 (error_of p (p.setspecific s.tls (s.key k).index t 0).0) _
              (doc.setspecific-valid s.tls (s.key k).index t 0)
              (doc.setspecific-fails s.tls (s.key k).index t 0 (λ q. ground (arith, q, r))))
      ])
    ]
      where
        no_pointer : (w : ℕ) → w ≡ 0 → pointer_in s.value w ≡ 0
        no_pointer w e = ground (arith, e)

        at_same :
            {j u : ℕ}
            → (s.key k).index ≡ j
            → t ≡ u
            → p.getspecific s.tls (s.key k).index t ≡ p.getspecific s.tls j u
        at_same a b = ap (λ (x : ℕ). p.getspecific s.tls x t) a ∙ ap (p.getspecific s.tls _) b
