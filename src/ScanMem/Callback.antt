-- ===== src/ScanMem/Callback.antt =====
-- `scanmem_cb` of src/common/scanmem.c on a module that is scanned, and on one in the cache.
use clamav_win.Base.{
  ℕ, suc, ◌≡◌, refl, Bool, true, false, not, ◌&&◌, ◌||◌, inl, inr, Option, none, some, List, [],
  ◌∷◌, ◌++◌, sym, subst, ap, ◌∙◌, if◌then◌else◌, arith, take, ◌-◌,
}
use clamav_win.Actions.Source.{Held, Source, action_source_init, close_fd}
use clamav_win.ScanMem.{
  ScanStatus, clean, virus, eopen, Scan, Options, or_else, chain, is_virus, is_clean, lookup_cache,
  insert_cache, max_path,
}
use clamav_win.ScanMem.File.{Scanned, scanfile}
use clamav_win.ScanMem.Good.{Deferred, Good, GoodScan, scanfile-Good, close-opened}
use clamav_win.ScanMem.Module.{
  Replies, Module, cacheable, respond, free_resolved, remember, job_for, store_result, scan_dump,
  maybe_dump, scan_module, scan_resolved, hold, scan_new, scan_named, scanmem_cb, module_path,
}
use clamav_win.ScanMem.Sane.{cacheable-MayCache, CacheGrows, Sane, respond-Sane, if-Sane}

-- After the scans of a module: a source may be deferred, and nothing else has changed.
abbrev pub PairGood : Scan → Option (Source × Scan) → Type 0
PairGood scan none = ⊥
PairGood scan (some (source, now)) =
    Deferred scan.held source now.held × (now.cache ≡ scan.cache) × (now.acted ≡ scan.acted)

-- With no source there is nothing to give back.
nothing_deferred : (before now : Held) → Deferred before action_source_init now → now ≡ before
nothing_deferred before now (inl (e, h)) = h
nothing_deferred before now (inr (fd, q, h)) = absurd (ground (arith, q))

clean_no_virus : (res : ScanStatus) → is_clean res ≡ true → is_virus res ≡ false
clean_no_virus clean h = refl
clean_no_virus virus h = absurd (ground (arith, h))
clean_no_virus eopen h = absurd (ground (arith, h))

module _ (options : Options) (scan : Scan) where
  if-PairGood :
      (b : Bool) (x y : Option (Source × Scan))
      → (b ≡ true → PairGood scan x)
      → (b ≡ false → PairGood scan y)
      → PairGood scan (if b then x else y)
  if-PairGood true x y hx hy = hx refl
  if-PairGood false x y hx hy = hy refl

  scan_dump-PairGood :
      (replies : Replies) (narrow : List ℕ) (resolved : Option (List ℕ)) (now : Scan)
      → now.held ≡ scan.held
      → now.cache ≡ scan.cache
      → now.acted ≡ scan.acted
      → PairGood scan (scan_dump options replies narrow resolved action_source_init now)
  scan_dump-PairGood replies narrow resolved now h c a = by_dumped replies.dumped
    where
      by_scan :
          (o : Option Scanned)
          → Good now o
          → PairGood scan (chain o (λ (r : Scanned). some (r.deferred, store_result r)))
      by_scan none g = elim g [ ]
      by_scan (some r) g = (
        subst (λ (x : Held). Deferred x r.deferred r.scan.held) h g.source,
        g.cache_same ∙ c,
        g.acted_same ∙ a,
      )

      by_dumped :
          (o : Option ℕ)
          → PairGood scan (elim o as (λ (x : Option ℕ). Option (Source × Scan)) [
            | none ↦ some (action_source_init, now)
            | some fd ↦
                chain
                  (close_fd (some fd) (record now.held { fds = fd ∷ now.held.fds }))
                  (λ (held : Held).
                    chain
                      (scanfile options
                        (job_for options replies.temp replies.temp narrow resolved)
                        replies.second
                        action_source_init
                        (record now { held = held }))
                      (λ (r : Scanned). some (r.deferred, store_result r)))
          ])
      by_dumped none = (inl (refl, h), c, a)
      by_dumped (some fd) =
          subst
            (λ (x : Option Held). PairGood scan (
              chain x (λ (held : Held).
                chain
                  (scanfile options (job_for options replies.temp replies.temp narrow resolved)
                    replies.second action_source_init (record now { held = held }))
                  (λ (r : Scanned). some (r.deferred, store_result r)))))
            (sym (close-opened fd now.held))
            (by_scan _ (
              scanfile-Good options (job_for options replies.temp replies.temp narrow resolved) refl
                now replies.second))

  maybe_dump-PairGood :
      (replies : Replies) (narrow path : List ℕ) (resolved : Option (List ℕ)) (r : Scanned)
      → GoodScan scan r
      → PairGood scan (maybe_dump options replies narrow path resolved r)
  maybe_dump-PairGood replies narrow path resolved r g =
      if-PairGood (is_clean r.status && replies.is_packed path) _ _
        (λ h.
          let none_deferred = g.only_virus (clean_no_virus r.status (ground (arith, h))) in
          let held_same =
            nothing_deferred scan.held r.scan.held
              (subst (λ (s : Source). Deferred scan.held s r.scan.held) none_deferred g.source) in
          subst
            (λ (s : Source).
              PairGood scan (scan_dump options replies narrow resolved s (store_result r)))
            (sym none_deferred)
            (scan_dump-PairGood replies narrow resolved (store_result r) held_same g.cache_same
              g.acted_same))
        (λ h. (g.source, g.cache_same, g.acted_same))

  pub scan_module-PairGood :
      (replies : Replies) (narrow path : List ℕ) (resolved : Option (List ℕ)) (excluded : Bool)
      → PairGood scan (scan_module options replies narrow path resolved excluded scan)
  unfolding scan_module
  scan_module-PairGood replies narrow path resolved true = (inl (refl, refl), refl, refl)
  scan_module-PairGood replies narrow path resolved false =
      by_scan _ (
        scanfile-Good options (job_for options narrow path narrow resolved) refl scan replies.first)
    where
      by_scan :
          (o : Option Scanned)
          → Good scan o
          → PairGood scan (chain o (maybe_dump options replies narrow path resolved))
      by_scan none g = elim g [ ]
      by_scan (some r) g = maybe_dump-PairGood replies narrow path resolved r g

module _ (options : Options) (before : Scan) where
  remember-grows :
      (replies : Replies) (name : List ℕ) (now : Scan)
      → now.cache ≡ before.cache
      → CacheGrows options name before.cache (remember options replies name now)
  unfolding insert_cache
  remember-grows replies name now c = by_cacheable (cacheable options now.res) refl
    where
      by_cacheable :
          (b : Bool)
          → cacheable options now.res ≡ b
          → CacheGrows options name before.cache (
              if b
              then record now { cache = insert_cache replies.cached now.cache name now.res }
              else now)
      by_cacheable false e = inl c
      by_cacheable true e = by_memory replies.cached
        where
          by_memory :
              (m : Bool)
              → CacheGrows options name before.cache
                  (record now { cache = insert_cache m now.cache name now.res })
          by_memory true = inr (
            ap (λ l. l ++ record { filename = take (max_path - 1) name; res = now.res } ∷ []) c,
            cacheable-MayCache options now.res e,
          )
          by_memory false = inl c

  -- What a path that was resolved adds to what is held is given back.
  frees_resolved :
      (resolved : Option (List ℕ)) (now : Scan)
      → now.held ≡ before.held
      → free_resolved resolved (hold resolved now).held ≡ some before.held
  frees_resolved none now h = ap some h
  frees_resolved (some path) now h = ap some h

  scan_resolved-Sane :
      (replies : Replies) (name narrow : List ℕ) (is_process : Bool) (resolved : Option (List ℕ))
      (excluded : Bool) (now : Scan)
      → free_resolved resolved now.held ≡ some before.held
      → now.cache ≡ before.cache
      → now.acted ≡ before.acted
      → Sane options name before
          (scan_resolved options replies name narrow is_process resolved excluded now)
  scan_resolved-Sane replies name narrow is_process resolved excluded now frees c a =
      by_scan _ (
        scan_module-PairGood options now replies narrow (or_else resolved narrow) resolved excluded)
    where
      remembered :
          (r : Scan)
          → (remember options replies name r).held ≡ r.held
            × (remember options replies name r).acted ≡ r.acted
      remembered r = by_cacheable (cacheable options r.res)
        where
          by_cacheable :
              (b : Bool)
              → ((if b
                    then record r { cache = insert_cache replies.cached r.cache name r.res }
                    else r).held
                  ≡ r.held)
                × ((if b
                      then record r { cache = insert_cache replies.cached r.cache name r.res }
                      else r).acted
                    ≡ r.acted)
          by_cacheable true = (refl, refl)
          by_cacheable false = (refl, refl)

      by_scan :
          (o : Option (Source × Scan))
          → PairGood now o
          → Sane options name before (
              chain o (λ (r : Source × Scan).
                respond options replies is_process false resolved r.0
                  (remember options replies name r.1)))
      by_scan none g = elim g [ ]
      by_scan (some (source, r)) (d, cr, ar) =
          respond-Sane options name before resolved source now.held frees replies is_process false
            (remember options replies name r)
            (subst (Deferred now.held source) (sym (remembered r).0) d)
            (remember-grows replies name r (cr ∙ c)) ((remembered r).1 ∙ ar ∙ a)

  -- The hold of a path changes neither the cache nor the actions.
  pub hold_keeps :
      (resolved : Option (List ℕ)) (now : Scan)
      → ((hold resolved now).cache ≡ now.cache) × ((hold resolved now).acted ≡ now.acted)
  hold_keeps none now = (refl, refl)
  hold_keeps (some path) now = (refl, refl)

  scan_new-Sane :
      (replies : Replies) (name narrow : List ℕ) (is_process : Bool) (now : Scan)
      → now.held ≡ before.held
      → now.cache ≡ before.cache
      → now.acted ≡ before.acted
      → Sane options name before (scan_new options replies name narrow is_process now)
  unfolding scan_new
  scan_new-Sane replies name narrow is_process now h c a =
      let filter = options.daemon || options.exclude in
      let excluded = filter && replies.chkpath narrow in
      if-Sane options name before (options.action && not excluded) _ _
        (λ t.
          scan_resolved-Sane replies name narrow is_process replies.resolved _
            (hold replies.resolved counted) (frees_resolved replies.resolved counted h)
            ((hold_keeps replies.resolved counted).0 ∙ c)
            ((hold_keeps replies.resolved counted).1 ∙ a))
        (λ f.
          scan_resolved-Sane replies name narrow is_process none excluded counted (ap some h) c a)
    where
      counted : Scan
      counted = record now {
        processes = if is_process then suc now.processes else now.processes;
        modules = if is_process then now.modules else suc now.modules;
        files = suc now.files;
        res = clean;
      }

-- Whatever the calls return, one module neither leaks nor closes twice a descriptor, handle or string of
-- the ledger; it adds no entry to the cache, or one with the name of the module, cut to fit the entry, and
-- with its result, which is clean, or an infection while no action is set; it calls no action, or one action once, and then one is set and the result is an
-- infection.
pub scanmem_cb-Sane :
    (same : List ℕ → List ℕ → Bool) (options : Options) (replies : Replies) (m : Module)
    (scan : Scan)
    → Sane options
        (module_path replies.expanded m.exe_path)
        scan
        (scanmem_cb same options replies m scan)
unfolding scanmem_cb
scanmem_cb-Sane same options replies m scan = by_narrow (replies.narrow name)
  where
    name : List ℕ
    name = module_path replies.expanded m.exe_path

    by_cache :
        (narrow : List ℕ) (o : Option ScanStatus)
        → Sane options name scan
            (scan_named same options replies m name narrow (record scan { res = clean }) o)
    by_cache narrow none =
        scan_new-Sane options scan replies name narrow _ (record scan { res = clean }) refl refl
          refl
    by_cache narrow (some res) =
        respond-Sane options name scan none action_source_init scan.held refl replies _ true
          (record scan { res = res }) (inl (refl, refl)) (inl refl) refl

    by_narrow :
        (o : Option (List ℕ))
        → Sane options name scan (elim o as (λ (x : Option (List ℕ)). Option (Bool × Scan)) [
          | none ↦ some (false, record scan { res = clean })
          | some narrow ↦
              scan_named same options replies m name narrow
                (record scan { res = clean })
                (lookup_cache same scan.cache name)
        ])
    by_narrow none = record { held_same = refl; cache_grows = inl refl; acts_once = inl refl }
    by_narrow (some narrow) = by_cache narrow (lookup_cache same scan.cache name)
