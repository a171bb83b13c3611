-- ===== src/ScanMem/Once.antt =====
-- A module that src/common/scanmem.c found clean is not scanned again.
use clamav_win.Base.{
  ℕ, suc, ◌-◌, ◌≡◌, refl, Bool, true, false, not, ◌&&◌, ◌||◌, inl, inr, Option, none, some, List,
  [], ◌∷◌, ◌++◌, sym, subst, ap, ◌∙◌, if◌then◌else◌, Bool-cases, arith, take,
}
use clamav_win.Actions.Source.{Held, Source, action_source_init}
use clamav_win.ScanMem.{
  ScanStatus, clean, virus, eopen, Scan, Options, Entry, or_else, chain, is_virus, is_clean,
  lookup_cache, insert_cache, max_path,
}
use clamav_win.ScanMem.Module.{
  Replies, Module, cacheable, respond, cleanup, finished, has_fd, after_unload, act_deferred,
  remember, scan_resolved, hold, excluded_after, scan_new, scan_named, scanmem_cb, module_path,
  Unloaded, not_implemented, go_on, next_process,
}
use clamav_win.ScanMem.Callback.{PairGood, scan_module-PairGood, hold_keeps}

-- The end of a module leaves the cache and the result.
abbrev Leaves : Scan → Option (Bool × Scan) → Type 0
Leaves now none = Unit
Leaves now (some (leave, s)) = (s.cache ≡ now.cache) × (s.res ≡ now.res)

if-Leaves :
    (now : Scan) (b : Bool) (x y : Option (Bool × Scan))
    → Leaves now x
    → Leaves now y
    → Leaves now (if b then x else y)
if-Leaves now true x y hx hy = hx
if-Leaves now false x y hx hy = hy

module _ (options : Options) (resolved : Option (List ℕ)) (source : Source) where
  cleanup-Leaves :
      (now s : Scan) (leave : Bool)
      → s.cache ≡ now.cache
      → s.res ≡ now.res
      → Leaves now (cleanup resolved source leave s)
  unfolding cleanup
  cleanup-Leaves now s leave c r = by_held _
    where
      by_held : (o : Option Held) → Leaves now (finished leave s o)
      by_held none = tt
      by_held (some held) = (c, r)

  acted-Leaves :
      (now : Scan) (hit leave : Bool)
      → Leaves now (cleanup resolved source leave (act_deferred options hit source now))
  acted-Leaves now hit leave = by_act (options.action && (not hit && has_fd source.scan_fd))
    where
      by_act :
          (b : Bool)
          → Leaves now (
              cleanup resolved source leave
                (if b then record now { acted = now.acted ++ source ∷ [] } else now))
      by_act true =
          cleanup-Leaves now (record now { acted = now.acted ++ source ∷ [] }) leave refl refl
      by_act false = cleanup-Leaves now now leave refl refl

  respond-Leaves :
      (replies : Replies) (is_process hit : Bool) (now : Scan)
      → Leaves now (respond options replies is_process hit resolved source now)
  unfolding respond
  respond-Leaves replies is_process hit now =
      if-Leaves now (not (is_virus now.res)) _ _ (cleanup-Leaves now now false refl refl) (
        if-Leaves now (is_process && options.kill) _ _ (acted-Leaves now hit true) (
          if-Leaves now options.unload _ _ (by_unload replies.unloaded)
            (acted-Leaves now hit false)))
    where
      by_unload : (u : Unloaded) → Leaves now (after_unload options u hit resolved source now)
      by_unload not_implemented = cleanup-Leaves now now true refl refl
      by_unload go_on = acted-Leaves now hit false
      by_unload next_process = acted-Leaves now hit true

module _ (same : List ℕ → List ℕ → Bool) (options : Options)
    (same_self : (x : List ℕ) → same x x ≡ true) where
  lookup-insert :
      (l : List Entry) (name : List ℕ) (res : ScanStatus)
      → take (max_path - 1) name ≡ name
      → lookup_cache same l name ≡ none
      → lookup_cache same (insert_cache true l name res) name ≡ some res
  unfolding lookup_cache insert_cache
  lookup-insert [] name res whole h = rw (whole, same_self name) refl
  lookup-insert (e ∷ rest) name res whole h = elim (Bool-cases (same name e.filename)) [
    | inl b ↦ absurd (ground (arith, h, b))
    | inr b ↦ rw b (lookup-insert rest name res whole (ground (arith, h, b)))
  ]

  -- A clean result is found afterwards.
  abbrev Found : List ℕ → Option (Bool × Scan) → Type 0
  Found name none = Unit
  Found name (some (leave, s)) = s.res ≡ clean → lookup_cache same s.cache name ≡ some clean

  remember_clean :
      (replies : Replies) (name : List ℕ) (r : Scan)
      → replies.cached ≡ true
      → take (max_path - 1) name ≡ name
      → lookup_cache same r.cache name ≡ none
      → r.res ≡ clean
      → lookup_cache same (remember options replies name r).cache name ≡ some clean
  remember_clean replies name r cached whole h e = by_result r.res e
    where
      by_result :
          (res : ScanStatus)
          → res ≡ clean
          → lookup_cache same
              (if cacheable options res
                then record r { cache = insert_cache replies.cached r.cache name res }
                else r).cache
              name
            ≡ some clean
      by_result clean e =
          subst (λ b. lookup_cache same (insert_cache b r.cache name clean) name ≡ some clean)
            (sym cached) (lookup-insert r.cache name clean whole h)
      by_result virus e = absurd (ground (arith, e))
      by_result eopen e = absurd (ground (arith, e))

  res-remember :
      (replies : Replies) (name : List ℕ) (r : Scan) → (remember options replies name r).res ≡ r.res
  res-remember replies name r = by_cacheable (cacheable options r.res)
    where
      by_cacheable :
          (b : Bool)
          → (if b
              then record r { cache = insert_cache replies.cached r.cache name r.res }
              else r).res
            ≡ r.res
      by_cacheable true = refl
      by_cacheable false = refl

  module _ (replies : Replies) (name narrow : List ℕ) (cached : replies.cached ≡ true)
      (whole : take (max_path - 1) name ≡ name) where
    scan_resolved-Found :
        (is_process : Bool) (resolved : Option (List ℕ)) (excluded : Bool) (now : Scan)
        → lookup_cache same now.cache name ≡ none
        → Found name (scan_resolved options replies name narrow is_process resolved excluded now)
    scan_resolved-Found is_process resolved excluded now h = by_scan _ (
        scan_module-PairGood options now replies narrow (or_else resolved narrow) resolved excluded)
      where
        by_end :
            (r : Scan)
            → r.cache ≡ now.cache
            → (o : Option (Bool × Scan)) → Leaves (remember options replies name r) o
            → Found name o
        by_end r c none k = tt
        by_end r c (some (leave, s)) k = λ e.
            ap (λ l. lookup_cache same l name) k.0
            ∙ remember_clean replies name r cached whole (ap (λ l. lookup_cache same l name) c ∙ h)
                (sym (k.1 ∙ res-remember replies name r) ∙ e)

        by_scan :
            (o : Option (Source × Scan))
            → PairGood now o
            → Found name (
                chain o (λ (r : Source × Scan).
                  respond options replies is_process false resolved r.0
                    (remember options replies name r.1)))
        by_scan none g = elim g [ ]
        by_scan (some (source, r)) g = by_end r g.1 _ (
            respond-Leaves options resolved source replies is_process false
              (remember options replies name r))

    scan_new-Found :
        (is_process : Bool) (now : Scan)
        → lookup_cache same now.cache name ≡ none
        → Found name (scan_new options replies name narrow is_process now)
    unfolding scan_new
    scan_new-Found is_process now h = by_action (options.action && not excluded)
      where
        excluded : Bool
        excluded = (options.daemon || options.exclude) && replies.chkpath narrow

        counted : Scan
        counted = record now {
          processes = if is_process then suc now.processes else now.processes;
          modules = if is_process then now.modules else suc now.modules;
          files = suc now.files;
          res = clean;
        }

        by_action :
            (b : Bool)
            → Found name (
                if b
                then scan_resolved options replies name narrow is_process replies.resolved
                    (excluded_after
                      (options.daemon || options.exclude)
                      excluded
                      replies
                      replies.resolved)
                    (hold replies.resolved counted)
                else scan_resolved options replies name narrow is_process none excluded counted)
        by_action true =
            scan_resolved-Found is_process replies.resolved _ (hold replies.resolved counted) (
              ap (λ l. lookup_cache same l name) (hold_keeps options now replies.resolved counted).0
              ∙ h)
        by_action false = scan_resolved-Found is_process none excluded counted h

    scan_named-Found :
        (m : Module) (now : Scan) (o : Option ScanStatus)
        → lookup_cache same now.cache name ≡ o
        → Found name (scan_named same options replies m name narrow now o)
    scan_named-Found m now none h = scan_new-Found _ now h
    scan_named-Found m now (some res) h =
        by_end _
          (respond-Leaves options none action_source_init replies _ true (record now { res = res }))
      where
        by_end : (o : Option (Bool × Scan)) → Leaves (record now { res = res }) o → Found name o
        by_end none k = tt
        by_end (some (leave, s)) k =
            λ e. ap (λ l. lookup_cache same l name) k.0 ∙ h ∙ ap some (sym k.1 ∙ e)

  scanmem_cb-narrow :
      (replies : Replies) (m : Module) (scan : Scan) (narrow : List ℕ)
      → replies.narrow (module_path replies.expanded m.exe_path) ≡ some narrow
      → scanmem_cb same options replies m scan
        ≡ scan_named same options replies m
            (module_path replies.expanded m.exe_path)
            narrow
            (record scan { res = clean })
            (lookup_cache same scan.cache (module_path replies.expanded m.exe_path))
  unfolding scanmem_cb
  scanmem_cb-narrow replies m scan narrow n = rw (scanmem_cb, n) refl

  scanmem_cb-named :
      (replies : Replies) (m : Module) (scan : Scan) (name narrow : List ℕ)
      → module_path replies.expanded m.exe_path ≡ name
      → replies.narrow name ≡ some narrow
      → scanmem_cb same options replies m scan
        ≡ scan_named same options replies m name narrow
            (record scan { res = clean })
            (lookup_cache same scan.cache name)
  scanmem_cb-named replies m scan name narrow e n =
      scanmem_cb-narrow replies m scan narrow (ap replies.narrow e ∙ n)
      ∙ ap
          (λ x.
            scan_named same options replies m x narrow (record scan { res = clean })
              (lookup_cache same scan.cache x))
          e

  -- A module in the cache with a clean result changes nothing.
  cached_again :
      (replies : Replies) (is_process : Bool) (scan : Scan)
      → scan.res ≡ clean
      → respond options replies is_process true none action_source_init
          (record scan { res = clean })
        ≡ some (false, scan)
  unfolding respond cleanup
  cached_again replies is_process scan e =
      ap (λ (r : ScanStatus). some (false, record scan { res = r })) (sym e)

-- Where the comparison of names finds a name equal to itself and the name of a module fits an entry of the
-- cache, let a first call of scanmem_cb, with memory for the entry, return without a failure and leave a clean
-- result. A second call that finds the same name, with both names converted, changes nothing and goes on with
-- the walk: no file is opened, scanned or counted.
pub scanmem_cb-twice :
    (same : List ℕ → List ℕ → Bool) (options : Options) (first second : Replies) (m : Module)
    (scan now : Scan) (leave : Bool) (name narrow narrow' : List ℕ)
    → ((x : List ℕ) → same x x ≡ true)
    → take (max_path - 1) name ≡ name
    → first.cached ≡ true
    → module_path first.expanded m.exe_path ≡ name
    → first.narrow name ≡ some narrow
    → module_path second.expanded m.exe_path ≡ name
    → second.narrow name ≡ some narrow'
    → scanmem_cb same options first m scan ≡ some (leave, now)
    → now.res ≡ clean
    → scanmem_cb same options second m now ≡ some (false, now)
scanmem_cb-twice same options first second m scan now leave name narrow narrow' same_self whole
      cached path1 narrow1 path2 narrow2 done is_clean =
    let called =
      sym (scanmem_cb-named same options same_self first m scan name narrow path1 narrow1) ∙ done in
    let found =
      subst (Found same options same_self name) called
        (scan_named-Found same options same_self first name narrow cached whole m
          (record scan { res = clean }) _ refl)
        is_clean in
    scanmem_cb-named same options same_self second m now name narrow' path2 narrow2
    ∙ ap (scan_named same options second m name narrow' (record now { res = clean })) found
    ∙ cached_again same options same_self second _ now is_clean
