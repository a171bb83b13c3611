-- ===== src/ScanMem/Module.antt =====
-- `scanmem_cb` of src/common/scanmem.c, one module of a process, and `walkmodules` over all of them.
use clamav_win.Base.{
  ℕ, suc, ◌+◌, ◌-◌, ◌^◌, Bool, true, false, not, ◌&&◌, ◌||◌, Option, none, some, List, [], ◌∷◌,
  ◌++◌, ltb, if◌then◌else◌, length, take, drop,
}
use clamav_win.Actions.Source.{
  Held, Source, action_source_init, action_source_close, close_fd, free_string, and_then,
  one_more_string,
}
use clamav_win.ScanMem.{
  ScanStatus, clean, Scan, Options, chain, is_clean, is_virus, lookup_cache, insert_cache,
  same_text, max_path, or_else,
}
use clamav_win.ScanMem.File.{Answers, Job, Scanned, scanfile}

-- What FreeLibrary in the process returns to the walk: -1, 0 to go on, 1 for the next process.
pub data Unloaded : Type 0 where
  not_implemented go_on next_process : Unloaded

-- What the calls return for one module. `own_name` is the conversion to the code page, `expanded` what
-- ExpandEnvironmentStrings gives; `resolved` the path that `scanmem_resolve_action_path` gives in a
-- new string, with CL_SUCCESS; `dumped` the descriptor of a dump that is above 0; `cached` is
-- whether `insert_cache` gets its memory.
pub record Replies : Type 0 where
  pub expanded : List ℕ → List ℕ
  pub narrow : List ℕ → Option (List ℕ)
  pub resolved : Option (List ℕ)
  pub chkpath : List ℕ → Bool
  pub is_packed : List ℕ → Bool
  pub temp : List ℕ
  pub dumped : Option ℕ
  pub first : Answers
  pub second : Answers
  pub cached : Bool
  pub unloaded : Unloaded

-- The module: `szExePath`, `szModule`, and `szExeFile` of its process.
pub record Module : Type 0 where
  pub exe_path : List ℕ
  pub module_name : List ℕ
  pub exe_file : List ℕ

abbrev pub object_prefix : List ℕ
object_prefix = b'\\' ∷ b'?' ∷ b'?' ∷ b'\\' ∷ []

abbrev pub root_prefix : List ℕ
root_prefix =
    b'\\' ∷ b'S' ∷ b'y' ∷ b's' ∷ b't' ∷ b'e' ∷ b'm' ∷ b'R' ∷ b'o' ∷ b'o' ∷ b't' ∷ b'\\' ∷ []

abbrev pub root_variable : List ℕ
root_variable =
    b'%' ∷ b'S' ∷ b'y' ∷ b's' ∷ b't' ∷ b'e' ∷ b'm' ∷ b'R' ∷ b'o' ∷ b'o' ∷ b't' ∷ b'%' ∷ b'\\' ∷ []

-- `MAX_PATH - len - 4` as a size_t.
unfoldable pub object_count : (len : ℕ) → ℕ
object_count len =
    if ltb max_path (len + 4) then 2 ^ 64 + max_path - (len + 4) else max_path - (len + 4)

-- The name of a module, `modulename`.
unfoldable pub module_path : (expanded : List ℕ → List ℕ) → List ℕ → List ℕ
unfolding object_count
module_path expanded path =
    if same_text (take 4 path) object_prefix
    then take (object_count (length path)) (drop 4 path)
    else if same_text (take 12 path) root_prefix
    then expanded (take (max_path - 1) (root_variable ++ drop 12 path))
    else take max_path path

-- How a module ends: whether the walk leaves the process, and the state.
abbrev pub Left : Type 0
Left = Bool × Scan

abbrev pub finished : Bool → Scan → Option Held → Option Left
finished leave scan none = none
finished leave scan (some held) = some (leave, record scan { held = held })

abbrev pub has_fd : Option ℕ → Bool
has_fd none = false
has_fd (some fd) = true

abbrev pub free_resolved : Option (List ℕ) → Held → Option Held
free_resolved none held = some held
free_resolved (some path) held = free_string held.strings held

-- `done:`: the deferred source is closed if it has a descriptor, and the path is freed.
unfoldable pub cleanup : (resolved : Option (List ℕ)) → Source → Bool → Scan → Option Left
cleanup resolved deferred leave scan = finished leave scan (
    and_then
      (if has_fd deferred.scan_fd then action_source_close deferred scan.held else some scan.held)
      (free_resolved resolved))

abbrev pub excluded_after : (filter excluded : Bool) → Replies → Option (List ℕ) → Bool
excluded_after filter excluded replies none = excluded
excluded_after filter excluded replies (some path) =
    if filter then replies.chkpath path else excluded

abbrev pub hold : Option (List ℕ) → Scan → Scan
hold none scan = scan
hold (some path) scan = record scan { held = one_more_string scan.held }

abbrev pub store_result : Scanned → Scan
store_result r = record r.scan { res = r.status }

module _ (options : Options) where
  -- The end of scanmem_cb: killing, unloading and the action on a module that was not cached.
  abbrev pub act_deferred : (cache_hit : Bool) → Source → Scan → Scan
  act_deferred cache_hit deferred scan =
      if options.action && (not cache_hit && has_fd deferred.scan_fd)
      then record scan { acted = scan.acted ++ deferred ∷ [] }
      else scan

  abbrev pub after_unload :
      Unloaded → (cache_hit : Bool) → (resolved : Option (List ℕ)) → Source → Scan → Option Left
  after_unload not_implemented cache_hit resolved deferred scan =
      cleanup resolved deferred true scan
  after_unload go_on cache_hit resolved deferred scan =
      cleanup resolved deferred false (act_deferred cache_hit deferred scan)
  after_unload next_process cache_hit resolved deferred scan =
      cleanup resolved deferred true (act_deferred cache_hit deferred scan)

  unfoldable pub respond :
      Replies
      → (is_process cache_hit : Bool) → (resolved : Option (List ℕ)) → Source
      → Scan
      → Option Left
  unfolding cleanup
  respond replies is_process cache_hit resolved deferred scan =
      if not (is_virus scan.res)
      then cleanup resolved deferred false scan
      else if is_process && options.kill
      then cleanup resolved deferred true (act_deferred cache_hit deferred scan)
      else if options.unload
      then after_unload replies.unloaded cache_hit resolved deferred scan
      else cleanup resolved deferred false (act_deferred cache_hit deferred scan)

  -- Clean results are cached, infections only where there is no action.
  abbrev pub cacheable : ScanStatus → Bool
  cacheable res = is_clean res || (is_virus res && not options.action)

  abbrev pub remember : Replies → (name : List ℕ) → Scan → Scan
  remember replies name scan =
      if cacheable scan.res
      then record scan { cache = insert_cache replies.cached scan.cache name scan.res }
      else scan

  -- A job for `scanfile` on the module or on a dump of it.
  abbrev pub job_for : (filename path target : List ℕ) → (resolved : Option (List ℕ)) → Job
  job_for filename path target resolved = record {
    filename = filename;
    scan_open_path = some path;
    action_target = some target;
    action_open_path = resolved;
    required = options.action;
    deferring = true;
  }

  -- The dump of a packed module is scanned; its descriptor is closed first.
  abbrev pub scan_dump :
      Replies
      → (narrow : List ℕ) → (resolved : Option (List ℕ)) → Source
      → Scan
      → Option (Source × Scan)
  scan_dump replies narrow resolved deferred scan = elim replies.dumped [
    | none ↦ some (deferred, scan)
    | some fd ↦
        chain (close_fd (some fd) (record scan.held { fds = fd ∷ scan.held.fds })) (λ (held : Held).
          chain
            (scanfile options (job_for replies.temp replies.temp narrow resolved) replies.second
              deferred (record scan { held = held }))
            (λ (r : Scanned). some (r.deferred, store_result r)))
  ]

  abbrev pub maybe_dump :
      Replies
      → (narrow path : List ℕ) → (resolved : Option (List ℕ)) → Scanned
      → Option (Source × Scan)
  maybe_dump replies narrow path resolved r =
      if is_clean r.status && replies.is_packed path
      then scan_dump replies narrow resolved r.deferred (store_result r)
      else some (r.deferred, store_result r)

  -- The two scans, unless the module is excluded.
  unfoldable pub scan_module :
      Replies
      → (narrow path : List ℕ) → (resolved : Option (List ℕ)) → (excluded : Bool) → Scan
      → Option (Source × Scan)
  scan_module replies narrow path resolved excluded scan =
      if excluded
      then some (action_source_init, scan)
      else chain
          (scanfile options (job_for narrow path narrow resolved) replies.first action_source_init
            scan)
          (maybe_dump replies narrow path resolved)

  -- Behind the path that an action would open.
  abbrev pub scan_resolved :
      Replies
      → (name narrow : List ℕ) → (is_process : Bool) → (resolved : Option (List ℕ))
      → (excluded : Bool) → Scan
      → Option Left
  scan_resolved replies name narrow is_process resolved excluded scan =
      chain (scan_module replies narrow (or_else resolved narrow) resolved excluded scan)
        (λ (r : Source × Scan).
          respond replies is_process false resolved r.0 (remember replies name r.1))

  -- A module that is not in the cache.
  unfoldable pub scan_new :
      Replies → (name narrow : List ℕ) → (is_process : Bool) → Scan → Option Left
  unfolding scan_module respond
  scan_new replies name narrow is_process scan =
      let counted = record scan {
        processes = if is_process then suc scan.processes else scan.processes;
        modules = if is_process then scan.modules else suc scan.modules;
        files = suc scan.files;
        res = clean;
      } in
      let filter = options.daemon || options.exclude in
      let excluded = filter && replies.chkpath narrow in
      if options.action && not excluded
      then scan_resolved replies name narrow is_process replies.resolved
          (excluded_after filter excluded replies replies.resolved) (hold replies.resolved counted)
      else scan_resolved replies name narrow is_process none excluded counted

module _ (same : List ℕ → List ℕ → Bool) (options : Options) where
  abbrev pub scan_named :
      Replies → Module → (name narrow : List ℕ) → Scan → Option ScanStatus → Option Left
  scan_named replies m name narrow scan none =
      scan_new options replies name narrow (same m.exe_file name || same m.exe_file m.module_name)
        scan
  scan_named replies m name narrow scan (some res) =
      respond options replies (same m.exe_file name || same m.exe_file m.module_name) true none
        action_source_init (record scan { res = res })

  -- `scanmem_cb`.
  unfoldable pub scanmem_cb : Replies → Module → Scan → Option Left
  unfolding scan_new module_path
  scanmem_cb replies m scan =
      let name = module_path replies.expanded m.exe_path in
      let cleared = record scan { res = clean } in
      elim (replies.narrow name) [
        | none ↦ some (false, cleared)
        | some narrow ↦
            scan_named replies m name narrow cleared (lookup_cache same cleared.cache name)
      ]
