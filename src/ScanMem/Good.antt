-- ===== src/ScanMem/Good.antt =====
-- What a call of `scanfile` of src/common/scanmem.c leaves, for a caller that defers the action.
use clamav_win.Base.{
  ℕ, suc, ◌+◌, ◌≡◌, refl, Bool, true, false, not, ◌&&◌, ◌⊎◌, inl, inr, Option, none, some, ◌∷◌, sym,
  subst, ap, if◌then◌else◌, arith,
}
use clamav_win.Actions.Source.{
  Held, Source, action_source_init, action_source_close, close_fd, and_then,
}
use clamav_win.Actions.Source.Balance.{give_back-head}
use clamav_win.ScanMem.{ScanStatus, clean, virus, eopen, Scan, Options, chain, is_virus}
use clamav_win.ScanMem.File.{
  Answers, Job, Prepared, prepare, close_own, close_source, Scanned, ended, infection, conclude,
  scan_fd, open_scan, after_prepare, scanfile, target_is_scan_target, judge, judge_sent,
}
use clamav_win.ScanMem.Ready.{Ready, ReadyIf, prepare-Ready, closed}

-- A deferred source can be given back, or there is none and the process holds what it held.
abbrev pub Deferred : Held → Source → Held → Type 0
Deferred before source now =
    ((source ≡ action_source_init) × (now ≡ before))
    ⊎ ((fd : ℕ) × (source.scan_fd ≡ some fd) × (action_source_close source now ≡ some before))

-- Only an infection defers a source, and no action is called.
pub record GoodScan (scan : Scan) (r : Scanned) : Type 0 where
  pub source : Deferred scan.held r.deferred r.scan.held
  pub only_virus : is_virus r.status ≡ false → r.deferred ≡ action_source_init
  pub cache_same : r.scan.cache ≡ scan.cache
  pub acted_same : r.scan.acted ≡ scan.acted

abbrev pub Good : Scan → Option Scanned → Type 0
Good scan none = ⊥
Good scan (some r) = GoodScan scan r

ended-Good :
    (scan now : Scan) (status : ScanStatus) (o : Option Held)
    → o ≡ some scan.held
    → now.cache ≡ scan.cache
    → now.acted ≡ scan.acted
    → Good scan (ended status action_source_init now o)
ended-Good scan now status o e c a =
    subst (λ x. Good scan (ended status action_source_init now x)) (sym e)
      (record { source = inl (refl, refl); only_virus = λ v. refl; cache_same = c; acted_same = a })

pub close-opened :
    (fd : ℕ) (held : Held) → close_fd (some fd) (record held { fds = fd ∷ held.fds }) ≡ some held
close-opened fd held = ground (arith, give_back-head fd held.fds)

if-Good :
    (scan : Scan) (b : Bool) (x y : Option Scanned)
    → (b ≡ true → Good scan x)
    → (b ≡ false → Good scan y)
    → Good scan (if b then x else y)
if-Good scan true x y hx hy = hx refl
if-Good scan false x y hx hy = hy refl

module _ (options : Options) (job : Job) (defers : job.deferring ≡ true) (scan : Scan) where
  -- The cache and the actions are left alone.
  abbrev Kept : Scan → Type 0
  Kept now = (now.cache ≡ scan.cache) × (now.acted ≡ scan.acted)

  counted :
      (now : Scan) (b : Bool)
      → Kept now
      → Kept (
          if b
          then record now { notremoved = suc now.notremoved }
          else record now { notmoved = suc now.notmoved })
  counted now true k = k
  counted now false k = k

  infection-Good :
      (p : Prepared) (now : Scan)
      → Ready scan.held p
      → Kept now
      → Good scan (infection options job p action_source_init now p.held)
  unfolding infection
  infection-Good p now (inl (e, h)) k =
      if-Good scan (not options.action) _ _
        (λ n. ended-Good scan now virus _ (closed scan.held p (inl (e, h))) k.0 k.1)
        (λ n.
          if-Good scan p.have _ _ (λ t. absurd (ground (arith, e, t)))
            (λ f.
              if-Good scan p.failed _ _
                (λ g.
                  ended-Good scan
                    (if options.remove
                      then record now { notremoved = suc now.notremoved }
                      else record now { notmoved = suc now.notmoved })
                    virus _ (ap some h) (counted now options.remove k).0
                    (counted now options.remove k).1)
                (λ g. ended-Good scan now virus _ (ap some h) k.0 k.1)))
  infection-Good p now (inr (e, h, fd, q)) k =
      if-Good scan (not options.action) _ _
        (λ n. ended-Good scan now virus _ (closed scan.held p (inr (e, h, fd, q))) k.0 k.1)
        (λ n.
          if-Good scan p.have _ _
            (λ t.
              if-Good scan job.deferring _ _
                (λ d. record {
                  source = inr (fd, q, h);
                  only_virus = λ v. absurd (ground (arith, v));
                  cache_same = k.0;
                  acted_same = k.1;
                })
                (λ d. absurd (ground (arith, defers, d))))
            (λ f. absurd (ground (arith, e, f))))

  module _ (uses : Bool) (fd : Option ℕ) (p : Prepared) (held : Held) (ready : Ready scan.held p)
      (own : close_own uses fd held ≡ some p.held) where
    both_closed : and_then (close_own uses fd held) (close_source p.have p.source) ≡ some scan.held
    both_closed = rw own (closed scan.held p ready)

    conclude-Good :
        (now : Scan) (status : ScanStatus)
        → Kept now
        → Good scan (conclude options job uses fd p action_source_init now held status)
    conclude-Good now clean k = ended-Good scan now clean _ both_closed k.0 k.1
    conclude-Good now eopen k = ended-Good scan now eopen _ both_closed k.0 k.1
    conclude-Good now virus k =
        rw own (infection-Good p (record now { ifiles = suc now.ifiles }) ready k)

    scan_fd-Good :
        (answers : Answers)
        → Good scan (scan_fd options job answers uses fd p action_source_init scan held)
    unfolding scan_fd
    scan_fd-Good answers =
        if-Good scan options.daemon _ _
          (λ d.
            if-Good scan answers.connected _ _
              (λ y.
                conclude-Good (record scan { errors = scan.errors + answers.sent_errors })
                  (judge_sent answers.sent answers.sent_errors) (refl, refl))
              (λ y.
                ended-Good scan (record scan { errors = suc scan.errors }) eopen _ both_closed refl
                  refl))
          (λ d. conclude-Good scan (judge answers.verdict) (refl, refl))

  after_prepare-Good :
      (answers : Answers) (p : Prepared)
      → Ready scan.held p
      → Good scan (after_prepare options job answers action_source_init scan p)
  after_prepare-Good answers p ready =
      if-Good scan (p.have && target_is_scan_target job) _ _
        (λ u. scan_fd-Good true p.source.scan_fd p p.held ready refl answers)
        (λ u. by_opened answers.opened)
    where
      by_opened :
          (o : Option ℕ) → Good scan (open_scan options job answers p action_source_init scan o)
      by_opened none = ended-Good scan scan eopen _ (closed scan.held p ready) refl refl
      by_opened (some fd) =
          scan_fd-Good false (some fd) p (record p.held { fds = fd ∷ p.held.fds }) ready
            (close-opened fd p.held) answers

  pub scanfile-Good :
      (answers : Answers) → Good scan (scanfile options job answers action_source_init scan)
  unfolding scanfile
  scanfile-Good answers =
      by_prepared (prepare options.action answers job scan.held)
        (prepare-Ready options.action answers job scan.held)
    where
      by_prepared :
          (o : Option Prepared)
          → ReadyIf scan.held o
          → Good scan (chain o (after_prepare options job answers action_source_init scan))
      by_prepared none h = elim h [ ]
      by_prepared (some p) h = after_prepare-Good answers p h
