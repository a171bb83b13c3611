-- ===== src/Fls/Ends.antt =====
-- The end of a thread with a value of a key of src/legacy/shared/fibersapi.c.
use clamav_win.Base.{
  ℕ, ◌≡◌, ◌≢◌, refl, Bool, ◌&&◌, ◌==◌, if◌then◌else◌, some, arith, sym, ◌∙◌, ap, [], ◌++◌,
  Bool-cases, inl, inr, ==_iff,
}
use mathlib.Core.List.{append-nil}
use native.Mathlib.Decide.{ℕ_discrete}
use clamav_win.Fls.{Pthread, Fls, call, fls_find_key, fls_destroy_value, fls_unlink_value}
use clamav_win.Fls.Lists.{find-listed}
use clamav_win.Fls.Sound.{Documented, Sound}
use clamav_win.Fls.Keep.{drop_value-Sound}
use clamav_win.Fls.Spec.{ends, pointer_in, pointer_at, view}
use clamav_win.Fls.View.{Refines, pointers_stored, if_at, if_off, holds, absent}
use clamav_win.Fls.Set.{retls-Sound}

call-null : (callback : ℕ) → call callback 0 ≡ []
call-null callback = ground arith

module _ {T : Type 0} {p : Pthread T} {valid : T → ℕ → Bool} (doc : Documented p valid) {s : Fls T}
    (inv : Sound p valid s) where
  -- The end of a thread, by the value that it has.
  pub destroyed-Refines :
      (t k v : ℕ)
      → fls_find_key s.key s.keys (s.key k).index ≡ some k
      → p.getspecific s.tls (s.key k).index t ≡ v
      → Refines p valid s
          (ends t (s.key k).index)
          (fls_destroy_value (record s { tls = p.exits s.tls (s.key k).index t }) v)
  unfolding fls_destroy_value fls_unlink_value
  destroyed-Refines t k v found held = elim (Bool-cases (v == 0)) [
    | inl e ↦
        let z = (==_iff v 0).0 e in
        rw e (
          retls-Sound doc inv (p.exits s.tls i t)
              (λ j m. (doc.exits-valid s.tls i t j ∙ m, λ u. same z j u)),
          ((s.key k).callback, rw found refl, (λ j. refl), cleared, no_call z),
        )
    | inr e ↦
        let nonnull : v ≢ 0 = ground (arith, e) in
        let own = (holds inv i k t found (λ q. nonnull (sym held ∙ q))).owner_is in
        let own_v : (s.value v).owner ≡ k = ap (λ (x : ℕ). (s.value x).owner) (sym held) ∙ own in
        rw (e, own_v)
          (
            drop_value-Sound inv k t v _ _ (find-listed s.key s.keys i found).0 held nonnull
                (doc.exits-valid s.tls i t) (doc.exits-clears s.tls i t),
            ((s.key k).callback, rw found refl, (λ j. refl), cleared, one_call nonnull),
          )
  ]
    where
      i : ℕ
      i = (s.key k).index

      same : v ≡ 0 → (j u : ℕ) → p.getspecific (p.exits s.tls i t) j u ≡ p.getspecific s.tls j u
      same z j u = elim (ℕ_discrete i j) [
        | yes a ↦ elim (ℕ_discrete t u) [
          | yes b ↦
              let h = ap (λ (x : ℕ). p.getspecific s.tls x t) a ∙ ap (p.getspecific s.tls j) b in
              ground (arith, doc.exits-clears s.tls i t j u, h, held, z, a, b)
          | no b ↦ if_off i j t u _ _ 0 (doc.exits-clears s.tls i t j u) (λ q. b q.1)
        ]
        | no a ↦ if_off i j t u _ _ 0 (doc.exits-clears s.tls i t j u) (λ q. a q.0)
      ]

      cleared :
          (j u : ℕ)
          → pointer_at s.value (fls_find_key s.key s.keys j) (p.getspecific (p.exits s.tls i t) j u)
            ≡ (if i == j && t == u then 0 else (view p s).pointer j u)
      cleared j u =
          pointers_stored s.value s.value (fls_find_key s.key s.keys j) (p.getspecific s.tls j u)
            (p.getspecific (p.exits s.tls i t) j u) i j t u 0 (absent p valid s k found j)
            (λ k' h.
              if_at i j t u _ _ 0
                (λ a b.
                  let z : p.getspecific (p.exits s.tls i t) j u ≡ 0 =
                    ground (arith, doc.exits-clears s.tls i t j u, a, b) in
                  ap (pointer_in s.value) z)
                (λ n.
                  ap (pointer_in s.value)
                    (if_off i j t u _ _ 0 (doc.exits-clears s.tls i t j u) n)))

      no_call : v ≡ 0 → s.called ≡ s.called ++ call (s.key k).callback ((view p s).pointer i t)
      no_call z =
          rw (found, held, z)
            (sym (ap (◌++◌ s.called) (call-null (s.key k).callback) ∙ append-nil s.called))

      one_call :
          v ≢ 0
          → s.called ++ call (s.key k).callback (s.value v).value
            ≡ s.called ++ call (s.key k).callback ((view p s).pointer i t)
      one_call nonnull = rw (found, held) (ground (arith, nonnull))
