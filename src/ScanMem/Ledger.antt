-- ===== src/ScanMem/Ledger.antt =====
-- The scan of all processes of src/common/scanmem.c gives back what it takes, and calls no action unless one is set.
use clamav_win.Base.{
  ℕ, ◌≡◌, refl, Bool, true, false, ◌&&◌, inl, inr, Option, none, some, List, [], ◌∷◌, ap, ◌∙◌,
  if◌then◌else◌, ◌==◌, arith,
}
use clamav_win.Actions.Source.{Held, close_handle}
use clamav_win.Actions.Source.Balance.{give_back-head}
use clamav_win.ScanMem.{Scan, Options, chain}
use clamav_win.ScanMem.Module.{Replies, Module, module_path, scanmem_cb}
use clamav_win.ScanMem.Sane.{SaneEnd, Sane, ActsOnce}
use clamav_win.ScanMem.Callback.{scanmem_cb-Sane}
use clamav_win.ScanMem.Walk.{
  Process, go_unless, walk_modules, close_process, walk_opened, walk_process, walkmodules,
}

-- What the walk keeps: what is held, and that no action is called unless one is set.
pub record KeptBy (options : Options) (before now : Scan) : Type 0 where
  pub held_same : now.held ≡ before.held
  pub no_action : options.action ≡ false → now.acted ≡ before.acted

abbrev pub Keeps : Options → Scan → Option Scan → Type 0
Keeps options before none = ⊥
Keeps options before (some now) = KeptBy options before now

module _ (same : List ℕ → List ℕ → Bool) (options : Options) where
  kept_here : (scan : Scan) → KeptBy options scan scan
  kept_here scan = record { held_same = refl; no_action = λ h. refl }

  kept_twice :
      (a b : Scan) (o : Option Scan) → KeptBy options a b → Keeps options b o → Keeps options a o
  kept_twice a b none k h = h
  kept_twice a b (some c) k h = record {
    held_same = h.held_same ∙ k.held_same;
    no_action = λ q. h.no_action q ∙ k.no_action q;
  }

  sane_kept : (name : List ℕ) (a b : Scan) → SaneEnd options name a b → KeptBy options a b
  sane_kept name a b s = record { held_same = s.held_same; no_action = by_act s.acts_once }
    where
      by_act : ActsOnce options a b → options.action ≡ false → b.acted ≡ a.acted
      by_act (inl e) n = e
      by_act (inr (x, e, set, v)) n = absurd (ground (arith, set, n))

  walk_modules-Keeps :
      (ms : List (Option (Module × Replies))) (scan : Scan)
      → Keeps options scan (walk_modules same options ms scan)
  unfolding walk_modules
  walk_modules-Keeps [] scan = kept_here scan
  walk_modules-Keeps (none ∷ rest) scan = walk_modules-Keeps rest scan
  walk_modules-Keeps (some (m, replies) ∷ rest) scan =
      by_end (scanmem_cb same options replies m scan) (scanmem_cb-Sane same options replies m scan)
        (walk_modules-Keeps rest)
    where
      by_end :
          (o : Option (Bool × Scan))
          → Sane options (module_path replies.expanded m.exe_path) scan o
          → ((s : Scan) → Keeps options s (walk_modules same options rest s))
          → Keeps options scan (chain o (go_unless same options (walk_modules same options rest)))
      by_end none h ih = elim h [ ]
      by_end (some (true, s)) h ih = sane_kept _ scan s h
      by_end (some (false, s)) h ih = kept_twice scan s _ (sane_kept _ scan s h) (ih s)

  -- The handle of a process is closed behind its modules.
  close_process-Keeps :
      (handle : ℕ) (scan : Scan) (o : Option Scan)
      → Keeps options
          (record scan { held = record scan.held { handles = handle ∷ scan.held.handles } })
          o
      → Keeps options scan (chain o (close_process same options handle))
  close_process-Keeps handle scan none h = h
  close_process-Keeps handle scan (some now) h = by_close (close_handle (some handle) now.held) (
      ap (close_handle (some handle)) h.held_same
      ∙ ground (arith, give_back-head handle scan.held.handles))
    where
      by_close :
          (o : Option Held)
          → o ≡ some scan.held
          → Keeps options scan (chain o (λ (held : Held). some (record now { held = held })))
      by_close none e = absurd (ground (arith, e))
      by_close (some held) e = record { held_same = ground (arith, e); no_action = h.no_action }

  if-Keeps :
      (scan : Scan) (b : Bool) (x y : Option Scan)
      → Keeps options scan x
      → Keeps options scan y
      → Keeps options scan (if b then x else y)
  if-Keeps scan true x y hx hy = hx
  if-Keeps scan false x y hx hy = hy

  walk_process-Keeps :
      (p : Process) (scan : Scan) → Keeps options scan (walk_process same options p scan)
  unfolding walk_process
  walk_process-Keeps p scan = if-Keeps scan (p.pid == 0) _ _ (kept_here scan) (by_opened p.opened)
    where
      by_opened : (o : Option ℕ) → Keeps options scan (walk_opened same options p o scan)
      by_opened none = kept_here scan
      by_opened (some handle) =
          let opened = record scan {
            held = record scan.held { handles = handle ∷ scan.held.handles };
          } in
          if-Keeps scan (p.enumerated && p.named) _ _
            (close_process-Keeps handle scan _ (walk_modules-Keeps p.modules opened))
            (close_process-Keeps handle scan (some opened) (kept_here opened))

  -- Whatever the calls return, the walk over all modules of all processes never closes or frees what it
  -- does not hold and ends with what the process held before; with no action set none is called.
  pub walkmodules-Keeps :
      (ps : List Process) (scan : Scan) → Keeps options scan (walkmodules same options ps scan)
  unfolding walkmodules
  walkmodules-Keeps [] scan = kept_here scan
  walkmodules-Keeps (p ∷ rest) scan =
      by_process _ (walk_process-Keeps p scan) (walkmodules-Keeps rest)
    where
      by_process :
          (o : Option Scan)
          → Keeps options scan o
          → ((s : Scan) → Keeps options s (walkmodules same options rest s))
          → Keeps options scan (chain o (walkmodules same options rest))
      by_process none h ih = elim h [ ]
      by_process (some s) h ih = kept_twice scan s _ h (ih s)
