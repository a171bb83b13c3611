-- ===== src/Fls/Grow.antt =====
-- The other changes to the blocks of src/legacy/shared/fibersapi.c keep the invariant: a new value, and
-- changes that leave the listed keys as they are.
use clamav_win.Base.{
  ℕ, ◌≡◌, ◌≢◌, refl, Bool, true, false, ◌&&◌, ◌==◌, if◌then◌else◌, is_in, Distinct, arith, sym,
  subst, ◌∙◌, ap, update, update_self, update_ne, ◌∷◌, Bool-cases, inl, inr,
}
use native.Mathlib.Decide.{ℕ_discrete}
use clamav_win.Fls.{Pthread, Fls, Value, Key}
use clamav_win.Fls.Lists.{is_in-NotIn}
use clamav_win.Fls.Sound.{KeySound, Sound}
use clamav_win.Fls.Keep.{keep}

module _ {T : Type 0} (p : Pthread T) (valid : T → ℕ → Bool) where
  -- What stays of a key that stays listed.
  pub record Kept (s s' : Fls T) (k : ℕ) : Type 0 where
    pub key_same : s'.key k ≡ s.key k
    pub values_same : s'.values k ≡ s.values k
    pub live : s'.heap k ≡ true
    pub exists : valid s'.tls (s.key k).index ≡ true
    pub tls_same :
        (t : ℕ) → p.getspecific s'.tls (s.key k).index t ≡ p.getspecific s.tls (s.key k).index t
    pub value_same :
        (v : ℕ)
        → is_in v (s.values k) ≡ true
        → ((s'.value v).owner ≡ (s.value v).owner)
          × (s'.heap v ≡ s.heap v)
          × (((s.value v).value ≢ 0) → (s'.value v).value ≢ 0)

module _ {T : Type 0} {p : Pthread T} {valid : T → ℕ → Bool} where
  pub shrink-Sound :
      {s s' : Fls T} (inv : Sound p valid s)
      → Distinct s'.keys
      → ((k : ℕ) → is_in k s'.keys ≡ true → (is_in k s.keys ≡ true) × Kept p valid s s' k)
      → Sound p valid s'
  shrink-Sound {s} {s'} inv distinct kept = record {
    thread = inv.thread;
    each = λ k m.
        let (was, same) = kept k m in
        keep (inv.each k was) (ap (λ (x : Key). x.index) same.key_same) same.values_same same.live
          same.exists same.tls_same
          (λ v mv. (
            (same.value_same v mv).0,
            (same.value_same v mv).1,
            new_not_key k v was mv,
            refl,
            (same.value_same v mv).2 ((inv.each k was).owned v mv).5,
          ));
    one_index = λ j k mj mk e.
        let (wj, sj) = kept j mj in
        let (wk, sk) = kept k mk in
        inv.one_index j k wj wk
          (sym (ap (λ (x : Key). x.index) sj.key_same) ∙ e ∙ ap (λ (x : Key). x.index) sk.key_same);
    keys_distinct = distinct;
  }
    where
      new_not_key :
          (k v : ℕ) → is_in k s.keys ≡ true → is_in v (s.values k) ≡ true → is_in v s'.keys ≡ false
      new_not_key k v was mv =
          let old = ((inv.each k was).owned v mv).2 in
          elim (Bool-cases (is_in v s'.keys)) [
            | inl e ↦ absurd (ground (arith, (kept v e).0, old))
            | inr e ↦ e
          ]

  -- A thread without a value of a key gets one in a fresh block.
  pub add_value-Sound :
      {s : Fls T} (inv : Sound p valid s) (k t v : ℕ) (pointer : ℕ) (tls : T)
      → is_in k s.keys ≡ true
      → p.getspecific s.tls (s.key k).index t ≡ 0
      → v ≢ 0
      → pointer ≢ 0
      → s.heap v ≡ false
      → ((j : ℕ) → valid tls j ≡ valid s.tls j)
      → ((j u : ℕ)
          → p.getspecific tls j u
            ≡ (if (s.key k).index == j && t == u then v else p.getspecific s.tls j u))
      → Sound p valid (record s {
        value = update s.value v (record { owner = k; value = pointer });
        values = update s.values k (v ∷ s.values k);
        heap = update s.heap v true;
        tls = tls;
      })
  add_value-Sound {s} inv k t v pointer tls mk held nonnull some_pointer dead same_valid gets =
      record {
        thread = update inv.thread v t;
        each = λ j mj. elim (ℕ_discrete j k) [
          | yes e ↦ subst (KeySound p valid s' (update inv.thread v t)) (sym e) added
          | no n ↦
              keep (inv.each j mj) refl (update_ne s.values k j _ (λ e. n (sym e)))
                (kept_live j (inv.each j mj).allocated)
                (same_valid (s.key j).index ∙ (inv.each j mj).exists) (λ u. other_index j u mj n)
                (λ w m.
                  let (_, live, not_key, _, _, stored) = (inv.each j mj).owned w m in
                  let ne = fresh w live in
                  (
                    ap (λ (x : Value). x.owner) (update_ne s.value v w _ ne),
                    update_ne s.heap v w true ne,
                    not_key,
                    update_ne inv.thread v w t ne,
                    subst (λ (x : Value). x.value ≢ 0) (sym (update_ne s.value v w _ ne)) stored,
                  ))
        ];
        one_index = inv.one_index;
        keys_distinct = inv.keys_distinct;
      }
    where
      s' : Fls T
      s' = record s {
        value = update s.value v (record { owner = k; value = pointer });
        values = update s.values k (v ∷ s.values k);
        heap = update s.heap v true;
        tls = tls;
      }

      fresh : (w : ℕ) → s.heap w ≡ true → v ≢ w
      fresh w live e = ground (arith, dead, live, e)

      kept_live : (w : ℕ) → s.heap w ≡ true → update s.heap v true w ≡ true
      kept_live w live = update_ne s.heap v w true (fresh w live) ∙ live

      other_index :
          (j u : ℕ)
          → is_in j s.keys ≡ true
          → j ≢ k
          → p.getspecific tls (s.key j).index u ≡ p.getspecific s.tls (s.key j).index u
      other_index j u mj n =
          let ne : (s.key k).index ≢ (s.key j).index = λ e. n (inv.one_index j k mj mk (sym e)) in
          ground (arith, gets (s.key j).index u, ne)

      v_not_key : is_in v s.keys ≡ false
      v_not_key = elim (Bool-cases (is_in v s.keys)) [
        | inl e ↦ absurd (fresh v (inv.each v e).allocated refl)
        | inr e ↦ e
      ]

      v_not_listed : is_in v (s.values k) ≡ false
      v_not_listed = elim (Bool-cases (is_in v (s.values k))) [
        | inl e ↦ absurd (fresh v ((inv.each k mk).owned v e).1 refl)
        | inr e ↦ e
      ]

      added : KeySound p valid s' (update inv.thread v t) k
      added =
          let ik = inv.each k mk in
          let is_now = update_self s.values k (v ∷ s.values k) in
          record {
            exists = same_valid (s.key k).index ∙ ik.exists;
            allocated = kept_live k ik.allocated;
            distinct =
                subst Distinct (sym is_now) (is_in-NotIn v (s.values k) v_not_listed, ik.distinct);
            owned = λ w m. elim (ℕ_discrete v w) [
              | yes e ↦ subst (Owned) e (
                ap (λ (x : Value). x.owner) (update_self s.value v _),
                update_self s.heap v true,
                v_not_key,
                nonnull,
                ap (p.getspecific tls (s.key k).index) (update_self inv.thread v t)
                    ∙ ground (arith, gets (s.key k).index t),
                subst (λ (x : Value). x.value ≢ 0) (sym (update_self s.value v _)) some_pointer,
              )
              | no n ↦
                  let m' : is_in w (s.values k) ≡ true =
                    ground (arith, subst (λ l. is_in w l ≡ true) is_now m, n) in
                  let (own, live, not_key, nonnull_w, holds, stored) = ik.owned w m' in
                  let ne_t : t ≢ inv.thread w = λ e.
                    nonnull_w
                      (sym holds ∙ ap (p.getspecific s.tls (s.key k).index) (sym e) ∙ held) in
                  (
                    ap (λ (x : Value). x.owner) (update_ne s.value v w _ n) ∙ own,
                    kept_live w live,
                    not_key,
                    nonnull_w,
                    ap (p.getspecific tls (s.key k).index) (update_ne inv.thread v w t n)
                        ∙ ground (arith, gets (s.key k).index (inv.thread w), ne_t, holds),
                    subst (λ (x : Value). x.value ≢ 0) (sym (update_ne s.value v w _ n)) stored,
                  )
            ];
            found = λ u w h nonnull_w. elim (ℕ_discrete t u) [
              | yes e ↦
                  let is_v : w ≡ v = ground (arith, gets (s.key k).index u, e, h) in
                  (
                    subst (λ l. is_in w l ≡ true) (sym is_now) (ground (arith, is_v)),
                    ap (update inv.thread v t) is_v ∙ update_self inv.thread v t ∙ e,
                  )
              | no n ↦
                  let h' : p.getspecific s.tls (s.key k).index u ≡ w =
                    ground (arith, gets (s.key k).index u, n, h) in
                  let (m, thread_is) = ik.found u w h' nonnull_w in
                  (
                    subst (λ l. is_in w l ≡ true) (sym is_now) (ground (arith, m)),
                    update_ne inv.thread v w t (fresh w (ik.owned w m).1) ∙ thread_is,
                  )
            ];
          }
        where
          Owned : ℕ → Type 0
          Owned w =
              ((s'.value w).owner ≡ k)
              × (s'.heap w ≡ true)
              × (is_in w s.keys ≡ false)
              × (w ≢ 0)
              × (p.getspecific tls (s.key k).index (update inv.thread v t w) ≡ w)
              × ((s'.value w).value ≢ 0)
