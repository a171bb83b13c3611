-- ===== src/Fls/Free.antt =====
-- FlsFree of src/legacy/shared/fibersapi.c keeps the invariant and calls the callback as promised.
use clamav_win.Base.{
  ℕ, ◌≡◌, ◌≢◌, refl, Bool, true, false, ◌==◌, if◌then◌else◌, is_in, Distinct, Option, none, some,
  arith, sym, subst, ◌∙◌, ap, update, update_ne, List, ◌∷◌, ◌++◌, map, Bool-cases, inl, inr,
}
use native.Mathlib.Decide.{ℕ_discrete}
use clamav_win.Fls.{
  Pthread, Fls, fls_find_key, remove, free_found, invalid_parameter, returned_true, returned_false,
  Error, Outcome,
}
use clamav_win.Fls.Lists.{
  find-listed, find-none, is_in-remove, is_in-remove_self, Distinct-remove, is_in-NotIn,
}
use clamav_win.Fls.Sound.{Documented, KeySound, Sound}
use clamav_win.Fls.Keep.{one_owner}
use clamav_win.Fls.Grow.{shrink-Sound}
use clamav_win.Fls.Spec.{Obeys, frees, callback_at, pointer_at, view}
use clamav_win.Fls.View.{holds}
use clamav_win.Fls.Freed.{
  calls_of, freed, free_values_lem, freed_ne, map-Distinct, is_in-map, calls_same, find-remove,
}

module _ {T : Type 0} {p : Pthread T} {valid : T → ℕ → Bool} (doc : Documented p valid) {s : Fls T}
    (inv : Sound p valid s) (k : ℕ)
    (found : fls_find_key s.key s.keys (s.key k).index ≡ some k) where
  abbrev Promised : Fls T × Outcome → Type 0
  Promised r = Sound p valid r.0 × Obeys (frees (s.key k).index r.1) (view p s) (view p r.0)

  listed : is_in k s.keys ≡ true
  listed = (find-listed s.key s.keys (s.key k).index found).0

  -- A key that is left is another one with another index.
  left :
      (j : ℕ)
      → is_in j (remove k s.keys) ≡ true
      → (is_in j s.keys ≡ true) × (k ≢ j) × ((s.key k).index ≢ (s.key j).index)
  left j m =
      let mj = is_in-remove j k s.keys m in
      let ne : k ≢ j = λ e. ground (arith, m, is_in-remove_self k s.keys inv.keys_distinct, e) in
      (mj, ne, λ e. ne (inv.one_index k j listed mj e))

  find-left :
      (j : ℕ)
      → fls_find_key s.key (remove k s.keys) j
        ≡ (if (s.key k).index == j then none else fls_find_key s.key s.keys j)
  find-left j = elim (ℕ_discrete (s.key k).index j) [
    | yes e ↦
        find-none s.key (remove k s.keys) j (λ x m q. (left x m).2 (e ∙ sym q)) ∙ ground (arith, e)
    | no n ↦ find-remove s.key k s.keys j n ∙ ground (arith, n)
  ]

  find-relinked : (j : ℕ) → fls_find_key s.key (k ∷ remove k s.keys) j ≡ fls_find_key s.key s.keys j
  unfolding fls_find_key
  find-relinked j = elim (ℕ_discrete (s.key k).index j) [
    | yes e ↦ ground (arith, e, found, ap (fls_find_key s.key s.keys) e)
    | no n ↦ ground (arith, n, find-left j)
  ]

  not_deleted-Promised :
      (tls : T)
      → ((j : ℕ) → valid tls j ≡ valid s.tls j)
      → ((j t : ℕ) → p.getspecific tls j t ≡ p.getspecific s.tls j t)
      → (error : Error)
      → Promised (record s { keys = k ∷ remove k s.keys; tls = tls }, returned_false error)
  not_deleted-Promised tls same_valid gets error = (
    shrink-Sound inv
        (
          is_in-NotIn k _ (is_in-remove_self k s.keys inv.keys_distinct),
          Distinct-remove k s.keys inv.keys_distinct,
        )
        (λ j m. (
          was j m,
          record {
            key_same = refl;
            values_same = refl;
            live = (inv.each j (was j m)).allocated;
            exists = same_valid (s.key j).index ∙ (inv.each j (was j m)).exists;
            tls_same = λ t. gets (s.key j).index t;
            value_same = λ v mv. (refl, refl, λ n. n);
          },
        )),
    (
      (λ i. ap (callback_at s.key) (find-relinked i)),
      (λ i t.
          ap (pointer_at s.value _) (gets i t)
          ∙ ap (λ (o : Option ℕ). pointer_at s.value o (p.getspecific s.tls i t))
              (find-relinked i)),
      refl,
    ),
  )
    where
      was : (j : ℕ) → is_in j (k ∷ remove k s.keys) ≡ true → is_in j s.keys ≡ true
      was j m = elim (ℕ_discrete k j) [
        | yes e ↦ subst (λ x. is_in x s.keys ≡ true) e listed
        | no n ↦ is_in-remove j k s.keys (ground (arith, m, n))
      ]

  deleted : T → Fls T
  deleted tls = record s {
    keys = remove k s.keys;
    tls = tls;
    called = s.called ++ calls_of s.value (s.key k).callback (s.values k);
    heap = update (freed s.heap (s.values k)) k false;
  }

  deleted-Sound :
      (tls : T)
      → ((j : ℕ)
          → (s.key k).index ≢ j
          → (valid tls j ≡ valid s.tls j)
            × ((t : ℕ) → p.getspecific tls j t ≡ p.getspecific s.tls j t))
      → Sound p valid (deleted tls)
  unfolding deleted
  deleted-Sound tls others = shrink-Sound inv (Distinct-remove k s.keys inv.keys_distinct) (λ j m.
      let (mj, ne, ni) = left j m in
      (
        mj,
        record {
          key_same = refl;
          values_same = refl;
          live =
              update_ne (freed s.heap (s.values k)) k j false ne
              ∙ freed_ne s.heap (s.values k) j (key_kept j mj)
              ∙ (inv.each j mj).allocated;
          exists = (others (s.key j).index ni).0 ∙ (inv.each j mj).exists;
          tls_same = (others (s.key j).index ni).1;
          value_same = λ v mv. (
            refl,
            update_ne (freed s.heap (s.values k)) k v false
                  (λ e. ground (arith, ((inv.each j mj).owned v mv).2, listed, e))
                ∙ freed_ne s.heap (s.values k) v (value_kept j v mj ne mv),
            λ n. n,
          );
        },
      ))
    where
      key_kept : (j : ℕ) → is_in j s.keys ≡ true → is_in j (s.values k) ≡ false
      key_kept j mj = elim (Bool-cases (is_in j (s.values k))) [
        | inl e ↦ absurd (ground (arith, ((inv.each k listed).owned j e).2, mj))
        | inr e ↦ e
      ]

      value_kept :
          (j v : ℕ)
          → is_in j s.keys ≡ true
          → k ≢ j
          → is_in v (s.values j) ≡ true
          → is_in v (s.values k) ≡ false
      value_kept j v mj ne mv = elim (Bool-cases (is_in v (s.values k))) [
        | inl e ↦ absurd (ne (one_owner inv k j v listed mj e mv))
        | inr e ↦ e
      ]

  -- The threads that hold the values are those that have a pointer, and it is the value's.
  threads : List ℕ
  threads = map inv.thread (s.values k)

  threads-Distinct : Distinct threads
  unfolding threads
  threads-Distinct = map-Distinct inv.thread (s.values k) ik.distinct (λ v w mv mw e.
      sym (ik.owned v mv).4 ∙ ap (p.getspecific s.tls (s.key k).index) e ∙ (ik.owned w mw).4)
    where
      ik : KeySound p valid s inv.thread k
      ik = inv.each k listed

  threads_complete : (t : ℕ) → (view p s).pointer (s.key k).index t ≢ 0 → is_in t threads ≡ true
  unfolding threads
  threads_complete t h = elim (ℕ_discrete (p.getspecific s.tls (s.key k).index t) 0) [
    | yes z ↦ absurd (h (rw (found, z) refl))
    | no n ↦
        let hold = holds inv (s.key k).index k t found n in
        subst (λ x. is_in x (map inv.thread (s.values k)) ≡ true) hold.thread_is
          (is_in-map inv.thread _ (s.values k) hold.listed)
  ]

  pointer_held :
      (v : ℕ)
      → is_in v (s.values k) ≡ true
      → (view p s).pointer (s.key k).index (inv.thread v) ≡ (s.value v).value
  pointer_held v m =
      let (_, _, _, nonnull, held, _) = (inv.each k listed).owned v m in
      rw (found, held) (ground (arith, nonnull))

  deleted-Promised :
      (tls : T)
      → ((j : ℕ)
          → (s.key k).index ≢ j
          → (valid tls j ≡ valid s.tls j)
            × ((t : ℕ) → p.getspecific tls j t ≡ p.getspecific s.tls j t))
      → Promised (deleted tls, returned_true)
  unfolding deleted threads
  deleted-Promised tls others = (
    deleted-Sound tls others,
    (
      (s.key k).callback,
      threads,
      rw found refl,
      threads-Distinct,
      threads_complete,
      (λ j. ap (callback_at s.key) (find-left j) ∙ callback_if ((s.key k).index == j) _),
      (λ j t. elim (ℕ_discrete (s.key k).index j) [
        | yes e ↦ rw (find-left j) (ground (arith, e))
        | no n ↦ rw (find-left j, (others j n).1 t) (ground (arith, n))
      ]),
      ap (λ (c : List (ℕ × ℕ)). s.called ++ c)
          (calls_same s.value (s.key k).callback ((view p s).pointer (s.key k).index) inv.thread
            (s.values k) pointer_held),
    ),
  )
    where
      callback_if :
          (b : Bool) (o : Option ℕ)
          → callback_at s.key (if b then none else o) ≡ (if b then none else callback_at s.key o)
      callback_if true o = refl
      callback_if false o = refl

  pub free_found-Promised : Promised (free_found p s k)
  unfolding free_found deleted
  free_found-Promised = elim (Bool-cases ((p.delete s.tls (s.key k).index).0 == 0)) [
    | inl r ↦
        rw (r, free_values_lem _ (s.key k).callback (s.values k))
          (deleted-Promised _ (λ j n. doc.delete-others s.tls (s.key k).index j n))
    | inr r ↦
        let same = kept (λ z. ground (arith, r, z)) in
        rw r (not_deleted-Promised _ (λ j. (same j).0) (λ j. (same j).1) invalid_parameter)
  ]
    where
      kept :
          (p.delete s.tls (s.key k).index).0 ≢ 0
          → (j : ℕ)
          → (valid (p.delete s.tls (s.key k).index).1 j ≡ valid s.tls j)
            × ((t : ℕ)
                → p.getspecific (p.delete s.tls (s.key k).index).1 j t ≡ p.getspecific s.tls j t)
      kept fails j = elim (ℕ_discrete (s.key k).index j) [
        | yes e ↦
            subst
              (λ (x : ℕ).
                (valid (p.delete s.tls (s.key k).index).1 x ≡ valid s.tls x)
                × ((t : ℕ)
                    → p.getspecific (p.delete s.tls (s.key k).index).1 x t
                      ≡ p.getspecific s.tls x t))
              e (doc.delete-fails s.tls (s.key k).index fails)
        | no n ↦ doc.delete-others s.tls (s.key k).index j n
      ]
