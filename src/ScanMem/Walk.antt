-- ===== src/ScanMem/Walk.antt =====
-- `walkmodules` and `scanmem` of src/common/scanmem.c: the modules of all processes.
use clamav_win.Base.{
  ℕ, suc, Bool, true, false, not, ◌&&◌, Option, none, some, List, [], ◌∷◌, if◌then◌else◌, ◌==◌,
}
use clamav_win.Actions.Source.{Held, close_handle}
use clamav_win.ScanMem.{ScanStatus, clean, Scan, Options, chain}
use clamav_win.ScanMem.Module.{Replies, Module, scanmem_cb}

-- A process: its number, the handle of OpenProcess, whether its modules and its name are read, and
-- the modules with what the calls for each return; a module that cannot be read is none.
pub record Process : Type 0 where
  pub pid : ℕ
  pub opened : Option ℕ
  pub enumerated : Bool
  pub named : Bool
  pub modules : List (Option (Module × Replies))

module _ (same : List ℕ → List ℕ → Bool) (options : Options) where
  -- A callback that does not return 0 ends the loop.
  abbrev pub go_unless : (again : Scan → Option Scan) → Bool × Scan → Option Scan
  go_unless again (true, scan) = some scan
  go_unless again (false, scan) = again scan

  -- The loop over the modules of a process.
  unfoldable pub walk_modules : List (Option (Module × Replies)) → Scan → Option Scan
  walk_modules [] scan = some scan
  walk_modules (none ∷ rest) scan = walk_modules rest scan
  walk_modules (some (m, replies) ∷ rest) scan =
      chain (scanmem_cb same options replies m scan) (go_unless (walk_modules rest))

  abbrev pub close_process : ℕ → Scan → Option Scan
  close_process handle scan =
      chain (close_handle (some handle) scan.held)
        (λ (held : Held). some (record scan { held = held }))

  -- One process.
  abbrev pub walk_opened : Process → Option ℕ → Scan → Option Scan
  walk_opened p none scan = some scan
  walk_opened p (some handle) scan =
      let opened = record scan {
        held = record scan.held { handles = handle ∷ scan.held.handles };
      } in
      if p.enumerated && p.named
      then chain (walk_modules p.modules opened) (close_process handle)
      else close_process handle opened

  unfoldable pub walk_process : Process → Scan → Option Scan
  unfolding walk_modules
  walk_process p scan = if p.pid == 0 then some scan else walk_opened p p.opened scan

  -- `walkmodules`, where EnumProcesses succeeds.
  unfoldable pub walkmodules : List Process → Scan → Option Scan
  unfolding walk_process
  walkmodules [] scan = some scan
  walkmodules (p ∷ rest) scan = chain (walk_process p scan) (walkmodules rest)

  -- `scanmem`: -1 if clamd cannot be reached, else the result, with the cache freed; `processes` is
  -- none if EnumProcesses fails.
  unfoldable pub scanmem :
      (connected : Bool)
      → (processes : Option (List Process)) → Scan
      → Option (Option ScanStatus × Scan)
  unfolding walkmodules
  scanmem connected processes scan =
      let begin = record scan { cache = []; processes = 0; modules = 0; res = clean } in
      if options.daemon && not connected
      then some (none, record begin { errors = suc scan.errors })
      else chain (elim processes [ none ↦ some begin | some list ↦ walkmodules list begin ])
          (λ (s : Scan). some (some s.res, record s { cache = [] }))
