-- ===== src/Fls/Keep.antt =====
-- The operations of src/legacy/shared/fibersapi.c on the values of one key keep the invariant.
use clamav_win.Base.{
  ℕ, ◌≡◌, ◌≢◌, refl, Bool, true, false, ◌&&◌, ◌==◌, if◌then◌else◌, is_in, Distinct, arith, sym,
  subst, ◌∙◌, ap, update, update_self, update_ne, List,
}
use native.Mathlib.Decide.{ℕ_discrete}
use clamav_win.Fls.{Pthread, Fls, remove}
use clamav_win.Fls.Lists.{is_in-remove, is_in-remove_ne, Distinct-remove, is_in-remove_self}
use clamav_win.Fls.Sound.{KeySound, Sound}

module _ {T : Type 0} {p : Pthread T} {valid : T → ℕ → Bool} where
  -- A key of which nothing changes.
  pub keep :
      {s s' : Fls T} {thread thread' : ℕ → ℕ} {k : ℕ}
      → KeySound p valid s thread k
      → (s'.key k).index ≡ (s.key k).index
      → s'.values k ≡ s.values k
      → s'.heap k ≡ true
      → valid s'.tls (s.key k).index ≡ true
      → ((t : ℕ) → p.getspecific s'.tls (s.key k).index t ≡ p.getspecific s.tls (s.key k).index t)
      → ((v : ℕ)
          → is_in v (s.values k) ≡ true
          → ((s'.value v).owner ≡ (s.value v).owner)
            × (s'.heap v ≡ s.heap v)
            × (is_in v s'.keys ≡ false)
            × (thread' v ≡ thread v)
            × ((s'.value v).value ≢ 0))
      → KeySound p valid s' thread' k
  keep {s} {s'} {thread} {thread'} {k} inv same_index same_values allocated exists same_tls same =
      record {
        exists = rw same_index exists;
        allocated = allocated;
        distinct = rw same_values inv.distinct;
        owned = λ v m.
            let m' : is_in v (s.values k) ≡ true = ground (arith, same_values) in
            let (own, live, not_key, nonnull, held, pointer) = inv.owned v m' in
            let (own', live', not_key', thread_same, pointer') = same v m' in
            (
              own' ∙ own,
              live' ∙ live,
              not_key',
              nonnull,
              rw (same_index, thread_same) (same_tls (thread v) ∙ held),
              pointer',
            );
        found = λ t v h nonnull.
            let (m, e) =
              inv.found t v
                (sym (same_tls t) ∙ subst (λ i. p.getspecific s'.tls i t ≡ v) same_index h)
                nonnull in
            let (_, _, _, thread_same, _) = same v m in (rw same_values m, thread_same ∙ e);
      }

  -- Two listed keys with one value are one.
  pub one_owner :
      {s : Fls T} (inv : Sound p valid s) (j k v : ℕ)
      → is_in j s.keys ≡ true
      → is_in k s.keys ≡ true
      → is_in v (s.values j) ≡ true
      → is_in v (s.values k) ≡ true
      → j ≡ k
  one_owner inv j k v mj mk vj vk =
      sym ((inv.each j mj).owned v vj).0 ∙ ((inv.each k mk).owned v vk).0

  -- A thread gives up its value of a key, and the block is freed.
  pub drop_value-Sound :
      {s : Fls T} (inv : Sound p valid s) (k t v : ℕ) (tls : T) (called : List (ℕ × ℕ))
      → is_in k s.keys ≡ true
      → p.getspecific s.tls (s.key k).index t ≡ v
      → v ≢ 0
      → ((j : ℕ) → valid tls j ≡ valid s.tls j)
      → ((j u : ℕ)
          → p.getspecific tls j u
            ≡ (if (s.key k).index == j && t == u then 0 else p.getspecific s.tls j u))
      → Sound p valid (record s {
        values = update s.values k (remove v (s.values k));
        heap = update s.heap v false;
        tls = tls;
        called = called;
      })
  drop_value-Sound {s} inv k t v tls called mk held nonnull same_valid gets = record {
    thread = inv.thread;
    each = λ j mj. elim (ℕ_discrete j k) [
      | yes e ↦ subst (KeySound p valid s' inv.thread) (sym e) dropped
      | no n ↦
          keep (inv.each j mj) refl (update_ne s.values k j _ (λ e. n (sym e))) (others_live j mj)
            (same_valid (s.key j).index ∙ (inv.each j mj).exists) (λ u. other_index j u mj n)
            (λ w m. (
              refl,
              other_value j w mj n m,
              ((inv.each j mj).owned w m).2,
              refl,
              ((inv.each j mj).owned w m).5,
            ))
    ];
    one_index = inv.one_index;
    keys_distinct = inv.keys_distinct;
  }
    where
      vk : is_in v (s.values k) ≡ true
      vk = ((inv.each k mk).found t v held nonnull).0

      s' : Fls T
      s' = record s {
        values = update s.values k (remove v (s.values k));
        heap = update s.heap v false;
        tls = tls;
        called = called;
      }

      others_live : (j : ℕ) → is_in j s.keys ≡ true → update s.heap v false j ≡ true
      others_live j mj =
          update_ne s.heap v j false (λ e. ground (arith, ((inv.each k mk).owned v vk).2, mj, e))
          ∙ (inv.each j mj).allocated

      other_value :
          (j w : ℕ)
          → is_in j s.keys ≡ true
          → j ≢ k
          → is_in w (s.values j) ≡ true
          → update s.heap v false w ≡ s.heap w
      other_value j w mj n m = update_ne s.heap v w false (λ e.
          n (one_owner inv j k v mj mk (subst (λ x. is_in x (s.values j) ≡ true) (sym e) m) vk))

      other_index :
          (j u : ℕ)
          → is_in j s.keys ≡ true
          → j ≢ k
          → p.getspecific tls (s.key j).index u ≡ p.getspecific s.tls (s.key j).index u
      other_index j u mj n =
          let ne : (s.key k).index ≢ (s.key j).index = λ e. n (inv.one_index j k mj mk (sym e)) in
          ground (arith, gets (s.key j).index u, ne)

      dropped : KeySound p valid s' inv.thread k
      dropped =
          let ik = inv.each k mk in
          let is_now = update_self s.values k (remove v (s.values k)) in
          record {
            exists = same_valid (s.key k).index ∙ ik.exists;
            allocated = others_live k mk;
            distinct = subst Distinct (sym is_now) (Distinct-remove v (s.values k) ik.distinct);
            owned = λ w m.
                let m' : is_in w (remove v (s.values k)) ≡ true =
                  subst (λ l. is_in w l ≡ true) is_now m in
                let gone = is_in-remove_self v (s.values k) ik.distinct in
                let ne : v ≢ w = λ e. ground (arith, gone, m', e) in
                let (own, live, not_key, nonnull_w, holds, pointer) =
                  ik.owned w (is_in-remove w v (s.values k) m') in
                let ne_t : t ≢ inv.thread w =
                  λ e. ne (sym held ∙ ap (p.getspecific s.tls (s.key k).index) e ∙ holds) in
                (
                  own,
                  update_ne s.heap v w false ne ∙ live,
                  not_key,
                  nonnull_w,
                  ground (arith, gets (s.key k).index (inv.thread w), ne_t, holds),
                  pointer,
                );
            found = λ u w h nonnull_w.
                let ne_t : t ≢ u = λ e. ground (arith, gets (s.key k).index u, e, h, nonnull_w) in
                let h' : p.getspecific s.tls (s.key k).index u ≡ w =
                  ground (arith, gets (s.key k).index u, ne_t, h) in
                let (m, thread_is) = ik.found u w h' nonnull_w in
                let (_, thread_v) = ik.found t v held nonnull in
                let ne : w ≢ v = λ e. ne_t (sym thread_v ∙ ap inv.thread (sym e) ∙ thread_is) in
                (
                  subst (λ l. is_in w l ≡ true) (sym is_now)
                      (is_in-remove_ne w v (s.values k) ne m),
                  thread_is,
                );
          }
