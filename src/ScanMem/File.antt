-- ===== src/ScanMem/File.antt =====
-- `scanfile` of src/common/scanmem.c.
use clamav_win.Base.{
  ℕ, suc, ◌+◌, Bool, true, false, not, ◌&&◌, Option, none, some, List, [], ◌∷◌, ◌++◌, ltb,
  if◌then◌else◌,
}
use clamav_win.Actions.Source.{
  Held, Source, Status, success, Calls, action_source_init, action_source_close, close_fd, and_then,
  action_source_open_path,
}
use clamav_win.ScanMem.{ScanStatus, clean, virus, eopen, Scan, Options, same_text, or_else, chain}

pub data Verdict : Type 0 where
  nothing_found trusted strong_indicator potentially_unwanted : Verdict

-- The result of `dsresult`: greater than 0, 0 or less.
pub data Sent : Type 0 where
  positive zero_found negative : Sent

-- What the calls of one scan return: those of opening the source, `safe_open`, `dconnect`, `dsresult`
-- with the errors it counts, and the verdict of `cl_scandesc_ex`.
pub record Answers : Type 0 where
  pub source : Calls
  pub opened : Option ℕ
  pub connected : Bool
  pub sent : Sent
  pub sent_errors : ℕ
  pub verdict : Verdict

-- The arguments; `required` is `action_open_path_required`, and `deferring` is whether
-- `infected_action_source` is given.
pub record Job : Type 0 where
  pub filename : List ℕ
  pub scan_open_path : Option (List ℕ)
  pub action_target : Option (List ℕ)
  pub action_open_path : Option (List ℕ)
  pub required : Bool
  pub deferring : Bool

-- `action_target_is_scan_target`.
abbrev pub absent_or_same : Option (List ℕ) → List ℕ → Bool
absent_or_same none path = true
absent_or_same (some text) path = same_text text path

unfoldable pub target_is_scan_target : Job → Bool
target_is_scan_target job =
    absent_or_same job.action_target job.filename
    && absent_or_same job.action_open_path (or_else job.scan_open_path job.filename)

abbrev pub open_at :
    Calls
    → (display : List ℕ) → Option (List ℕ)
    → (required : Bool) → Held
    → Option (Status × Source × Held)
open_at calls display none true held = some (Status.eopen, action_source_init, held)
open_at calls display none false held =
    action_source_open_path calls true display display action_source_init held
open_at calls display (some path) required held =
    action_source_open_path calls true display path action_source_init held

-- The source for an action: `have_action_source`, `action_source_open_failed` and the source.
pub record Prepared : Type 0 where
  pub have : Bool
  pub failed : Bool
  pub source : Source
  pub held : Held

abbrev pub prepared : Status × Source × Held → Prepared
prepared (success, source, held) = record {
  have = true;
  failed = false;
  source = source;
  held = held;
}
prepared (status, source, held) = record {
  have = false;
  failed = true;
  source = source;
  held = held;
}

abbrev pub prepare : (action : Bool) → Answers → Job → Held → Option Prepared
prepare false answers job held =
    some (record { have = false; failed = false; source = action_source_init; held = held })
prepare true answers job held =
    chain
      (open_at answers.source (or_else job.action_target job.filename) job.action_open_path
        job.required held)
      (λ (r : Status × Source × Held). some (prepared r))

-- `close(fd)` unless the descriptor is the source's.
abbrev pub close_own : (uses : Bool) → (fd : Option ℕ) → Held → Option Held
close_own true fd held = some held
close_own false fd held = close_fd fd held

abbrev pub close_source : (have : Bool) → Source → Held → Option Held
close_source true source held = action_source_close source held
close_source false source held = some held

-- The status, and whether it is an infection.
abbrev pub judge : Verdict → ScanStatus
judge nothing_found = clean
judge trusted = clean
judge strong_indicator = virus
judge potentially_unwanted = virus

abbrev pub judge_sent : Sent → (errors : ℕ) → ScanStatus
judge_sent positive errors = virus
judge_sent zero_found errors = if ltb 0 errors then eopen else clean
judge_sent negative errors = eopen

-- What a scan returns, the source that `infected_action_source` holds then, and the state.
pub record Scanned : Type 0 where
  pub status : ScanStatus
  pub deferred : Source
  pub scan : Scan

abbrev pub ended : ScanStatus → Source → Scan → Option Held → Option Scanned
ended status deferred scan none = none
ended status deferred scan (some held) =
    some (record { status = status; deferred = deferred; scan = record scan { held = held } })

module _ (options : Options) (job : Job) where
  -- After an infection with an action: the source is passed on, acted on, or was not to be had.
  unfoldable pub infection : Prepared → (deferred : Source) → Scan → Held → Option Scanned
  infection p deferred scan held =
      if not options.action
      then ended virus deferred scan (close_source p.have p.source held)
      else if p.have
      then if job.deferring
        then ended virus p.source scan (some held)
        else ended virus deferred (record scan { acted = scan.acted ++ p.source ∷ [] })
            (action_source_close p.source held)
      else if p.failed
      then ended virus deferred
          (if options.remove
            then record scan { notremoved = suc scan.notremoved }
            else record scan { notmoved = suc scan.notmoved })
          (some held)
      else ended virus deferred scan (some held)

  -- The scan is over: the descriptor is closed, then the source.
  abbrev pub conclude :
      (uses : Bool)
      → (fd : Option ℕ) → Prepared
      → (deferred : Source) → Scan
      → Held
      → ScanStatus
      → Option Scanned
  conclude uses fd p deferred scan held virus =
      chain (close_own uses fd held)
        (infection p deferred (record scan { ifiles = suc scan.ifiles }))
  conclude uses fd p deferred scan held status =
      ended status deferred scan (and_then (close_own uses fd held) (close_source p.have p.source))

  -- The scan of an open descriptor, by clamd or in the process.
  unfoldable pub scan_fd :
      Answers
      → (uses : Bool) → (fd : Option ℕ) → Prepared
      → (deferred : Source) → Scan
      → Held
      → Option Scanned
  unfolding infection
  scan_fd answers uses fd p deferred scan held =
      let sent = record scan { errors = scan.errors + answers.sent_errors } in
      if options.daemon
      then if answers.connected
        then conclude uses fd p deferred sent held (judge_sent answers.sent answers.sent_errors)
        else ended eopen deferred (record scan { errors = suc scan.errors })
            (and_then (close_own uses fd held) (close_source p.have p.source))
      else conclude uses fd p deferred scan held (judge answers.verdict)

  abbrev pub open_scan : Answers → Prepared → (deferred : Source) → Scan → Option ℕ → Option Scanned
  open_scan answers p deferred scan none =
      ended eopen deferred scan (close_source p.have p.source p.held)
  open_scan answers p deferred scan (some fd) =
      scan_fd answers false (some fd) p deferred scan (record p.held { fds = fd ∷ p.held.fds })

  abbrev pub after_prepare : Answers → (deferred : Source) → Scan → Prepared → Option Scanned
  after_prepare answers deferred scan p =
      if p.have && target_is_scan_target job
      then scan_fd answers true p.source.scan_fd p deferred scan p.held
      else open_scan answers p deferred scan answers.opened

  -- `scanfile`; `deferred` is what `infected_action_source` holds before.
  unfoldable pub scanfile : Answers → (deferred : Source) → Scan → Option Scanned
  unfolding scan_fd target_is_scan_target
  scanfile answers deferred scan =
      chain (prepare options.action answers job scan.held) (after_prepare answers deferred scan)
