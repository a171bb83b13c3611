-- ===== src/Fls/NewKey.antt =====
-- A new key of src/legacy/shared/fibersapi.c keeps the invariant.
use clamav_win.Base.{
  ℕ, ◌≡◌, ◌≢◌, refl, Bool, true, false, is_in, Distinct, arith, sym, subst, ◌∙◌, ap, update,
  update_self, update_ne, [], ◌∷◌, Bool-cases, inl, inr,
}
use native.Mathlib.Decide.{ℕ_discrete}
use clamav_win.Fls.{Pthread, Fls, Key}
use clamav_win.Fls.Lists.{is_in-NotIn}
use clamav_win.Fls.Sound.{KeySound, Sound}
use clamav_win.Fls.Keep.{keep}

module _ {T : Type 0} {p : Pthread T} {valid : T → ℕ → Bool} where
  -- A key in a fresh block with an index that did not exist, of which no thread has a value.
  pub add_key-Sound :
      {s : Fls T} (inv : Sound p valid s) (k index callback : ℕ) (tls : T)
      → s.heap k ≡ false
      → valid s.tls index ≡ false
      → valid tls index ≡ true
      → ((t : ℕ) → p.getspecific tls index t ≡ 0)
      → ((j : ℕ)
          → valid s.tls j ≡ true
          → (valid tls j ≡ true) × ((t : ℕ) → p.getspecific tls j t ≡ p.getspecific s.tls j t))
      → Sound p valid (record s {
        keys = k ∷ s.keys;
        key = update s.key k (record { index = index; callback = callback });
        values = update s.values k [];
        heap = update s.heap k true;
        tls = tls;
      })
  add_key-Sound {s} inv k index callback tls dead new exists unset others = record {
    thread = inv.thread;
    each = λ j m. elim (ℕ_discrete k j) [
      | yes e ↦ subst (KeySound p valid s' inv.thread) e added
      | no n ↦
          let old = inv.each j (was_listed j n m) in
          let (exists_j, gets) = others (s.key j).index old.exists in
          keep old (ap (λ (x : Key). x.index) (update_ne s.key k j _ n))
            (update_ne s.values k j [] n) (update_ne s.heap k j true n ∙ old.allocated) exists_j
            gets
            (λ v mv.
              let (_, live, not_key, _, _, stored) = old.owned v mv in
              let ne = fresh v live in
              (refl, update_ne s.heap k v true ne, ground (arith, not_key, ne), refl, stored))
    ];
    one_index = λ i j mi mj e. elim (ℕ_discrete k i) [
      | yes ei ↦ elim (ℕ_discrete k j) [
        | yes ej ↦ sym ei ∙ ej
        | no n ↦ absurd (clash j n mj (sym (new_index i ei) ∙ e ∙ old_index j n))
      ]
      | no ni ↦ elim (ℕ_discrete k j) [
        | yes ej ↦ absurd (clash i ni mi (sym (new_index j ej) ∙ sym e ∙ old_index i ni))
        | no n ↦
            inv.one_index i j (was_listed i ni mi) (was_listed j n mj)
              (sym (old_index i ni) ∙ e ∙ old_index j n)
      ]
    ];
    keys_distinct = (is_in-NotIn k s.keys not_listed, inv.keys_distinct);
  }
    where
      s' : Fls T
      s' = record s {
        keys = k ∷ s.keys;
        key = update s.key k (record { index = index; callback = callback });
        values = update s.values k [];
        heap = update s.heap k true;
        tls = tls;
      }

      fresh : (w : ℕ) → s.heap w ≡ true → k ≢ w
      fresh w live e = ground (arith, dead, live, e)

      not_listed : is_in k s.keys ≡ false
      not_listed = elim (Bool-cases (is_in k s.keys)) [
        | inl e ↦ absurd (fresh k (inv.each k e).allocated refl)
        | inr e ↦ e
      ]

      was_listed : (j : ℕ) → k ≢ j → is_in j (k ∷ s.keys) ≡ true → is_in j s.keys ≡ true
      was_listed j n m = ground (arith, m, n)

      new_index : (j : ℕ) → k ≡ j → (s'.key j).index ≡ index
      new_index j e =
          subst (λ x. (s'.key x).index ≡ index) e
            (ap (λ (x : Key). x.index) (update_self s.key k _))

      old_index : (j : ℕ) → k ≢ j → (s'.key j).index ≡ (s.key j).index
      old_index j n = ap (λ (x : Key). x.index) (update_ne s.key k j _ n)

      clash : (j : ℕ) → k ≢ j → is_in j (k ∷ s.keys) ≡ true → index ≡ (s.key j).index → ⊥
      clash j n m e =
          ground (arith, new, (inv.each j (was_listed j n m)).exists, ap (valid s.tls) e)

      added : KeySound p valid s' inv.thread k
      added = record {
        exists = ap (valid tls) (new_index k refl) ∙ exists;
        allocated = update_self s.heap k true;
        distinct = subst Distinct (sym (update_self s.values k [])) tt;
        owned = λ v m.
            absurd (ground (arith, subst (λ l. is_in v l ≡ true) (update_self s.values k []) m));
        found = λ t v h nonnull.
            absurd (
              nonnull (sym h ∙ ap (λ (i : ℕ). p.getspecific tls i t) (new_index k refl) ∙ unset t));
      }
