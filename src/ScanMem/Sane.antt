-- ===== src/ScanMem/Sane.antt =====
-- What one module leaves behind `scanmem_cb` of src/common/scanmem.c: the process holds what it held,
-- the cache gets what may be cached, and an action is called for an infection only.
use clamav_win.Base.{
  ℕ, ◌≡◌, refl, Bool, true, false, not, ◌&&◌, ◌⊎◌, inl, inr, Option, none, some, List, [], ◌∷◌,
  ◌++◌, ap, if◌then◌else◌, arith, take, ◌-◌,
}
use clamav_win.Actions.Source.{Held, Source, action_source_close}
use clamav_win.ScanMem.{ScanStatus, clean, virus, eopen, Scan, Options, Entry, is_virus, max_path}
use clamav_win.ScanMem.Good.{Deferred}
use clamav_win.ScanMem.Module.{
  Replies, cacheable, cleanup, respond, after_unload, act_deferred, finished, has_fd, free_resolved,
  Unloaded, not_implemented, go_on, next_process,
}

-- A clean result may be cached, and an infection while no action is set.
abbrev pub MayCache : Options → ScanStatus → Type 0
MayCache options res = (res ≡ clean) ⊎ ((res ≡ virus) × (options.action ≡ false))

pub cacheable-MayCache :
    (options : Options) (res : ScanStatus) → cacheable options res ≡ true → MayCache options res
cacheable-MayCache options clean h = inl refl
cacheable-MayCache options virus h = inr (refl, ground (arith, h))
cacheable-MayCache options eopen h = absurd (ground (arith, h))

-- Nothing is added to the cache, or the name of the module with its result, which may be cached.
abbrev pub CacheGrows : Options → (name : List ℕ) → List Entry → Scan → Type 0
CacheGrows options name before now =
    (now.cache ≡ before)
    ⊎ ((now.cache ≡ before ++ record { filename = take (max_path - 1) name; res = now.res } ∷ [])
        × MayCache options now.res)

-- No action is called, or one for an infection, with an action set.
abbrev pub ActsOnce : Options → Scan → Scan → Type 0
ActsOnce options before now =
    (now.acted ≡ before.acted)
    ⊎ ((source : Source) × (now.acted ≡ before.acted ++ source ∷ [])
        × (options.action ≡ true)
        × (now.res ≡ virus))

pub record SaneEnd (options : Options) (name : List ℕ) (before now : Scan) : Type 0 where
  pub held_same : now.held ≡ before.held
  pub cache_grows : CacheGrows options name before.cache now
  pub acts_once : ActsOnce options before now

abbrev pub Sane : Options → (name : List ℕ) → Scan → Option (Bool × Scan) → Type 0
Sane options name before none = ⊥
Sane options name before (some (leave, now)) = SaneEnd options name before now

if_true : (b : Bool) (x y z : Option Held) → b ≡ true → x ≡ z → (if b then x else y) ≡ z
if_true true x y z h e = e
if_true false x y z h e = absurd (ground (arith, h))

-- The deferred source is given back at the end.
given_back :
    (before : Held) (source : Source) (now : Held)
    → Deferred before source now
    → (if has_fd source.scan_fd then action_source_close source now else some now) ≡ some before
given_back before source now (inl (e, h)) = rw e (ap some h)
given_back before source now (inr (fd, q, h)) =
    if_true (has_fd source.scan_fd) _ _ _ (ap has_fd q) h

is_virus_iff : (res : ScanStatus) → not (is_virus res) ≡ false → res ≡ virus
is_virus_iff virus h = refl
is_virus_iff clean h = absurd (ground (arith, h))
is_virus_iff eopen h = absurd (ground (arith, h))

module _ (options : Options) (name : List ℕ) (before : Scan) where
  pub if-Sane :
      (b : Bool) (x y : Option (Bool × Scan))
      → (b ≡ true → Sane options name before x)
      → (b ≡ false → Sane options name before y)
      → Sane options name before (if b then x else y)
  if-Sane true x y hx hy = hx refl
  if-Sane false x y hx hy = hy refl

  -- The end of a module, with what is still to be given back.
  module _ (resolved : Option (List ℕ)) (source : Source) (mid : Held)
      (frees : free_resolved resolved mid ≡ some before.held) where
    cleanup-Sane :
        (leave : Bool) (now : Scan)
        → Deferred mid source now.held
        → CacheGrows options name before.cache now
        → ActsOnce options before now
        → Sane options name before (cleanup resolved source leave now)
    unfolding cleanup
    cleanup-Sane leave now deferred grows acts =
        rw (given_back mid source now.held deferred) (by_free (free_resolved resolved mid) frees)
      where
        by_free :
            (o : Option Held)
            → o ≡ some before.held
            → Sane options name before (finished leave now o)
        by_free none e = absurd (ground (arith, e))
        by_free (some held) e = record {
          held_same = ground (arith, e);
          cache_grows = grows;
          acts_once = acts;
        }

    act-Sane :
        (hit leave : Bool) (now : Scan)
        → Deferred mid source now.held
        → CacheGrows options name before.cache now
        → now.acted ≡ before.acted
        → now.res ≡ virus
        → Sane options name before
            (cleanup resolved source leave (act_deferred options hit source now))
    act-Sane hit leave now deferred grows acts infected =
        by_act (options.action && (not hit && has_fd source.scan_fd)) (λ h. ground (arith, h))
      where
        by_act :
            (b : Bool)
            → (b ≡ true → options.action ≡ true)
            → Sane options name before (
                cleanup resolved source leave
                  (if b then record now { acted = now.acted ++ source ∷ [] } else now))
        by_act true h =
            cleanup-Sane leave (record now { acted = now.acted ++ source ∷ [] }) deferred grows
              (inr (source, ap (λ l. l ++ source ∷ []) acts, h refl, infected))
        by_act false h = cleanup-Sane leave now deferred grows (inl acts)

    pub respond-Sane :
        (replies : Replies) (is_process hit : Bool) (now : Scan)
        → Deferred mid source now.held
        → CacheGrows options name before.cache now
        → now.acted ≡ before.acted
        → Sane options name before (respond options replies is_process hit resolved source now)
    unfolding respond
    respond-Sane replies is_process hit now deferred grows acts =
        if-Sane (not (is_virus now.res)) _ _ (λ n. cleanup-Sane false now deferred grows (inl acts))
          (λ v.
            let infected = is_virus_iff now.res v in
            if-Sane (is_process && options.kill) _ _
              (λ k. act-Sane hit true now deferred grows acts infected)
              (λ k.
                if-Sane options.unload _ _ (λ u. by_unload infected replies.unloaded)
                  (λ u. act-Sane hit false now deferred grows acts infected)))
      where
        by_unload :
            now.res ≡ virus
            → (u : Unloaded)
            → Sane options name before (after_unload options u hit resolved source now)
        by_unload infected not_implemented = cleanup-Sane true now deferred grows (inl acts)
        by_unload infected go_on = act-Sane hit false now deferred grows acts infected
        by_unload infected next_process = act-Sane hit true now deferred grows acts infected
