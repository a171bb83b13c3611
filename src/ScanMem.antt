-- ===== src/ScanMem.antt =====
-- src/common/scanmem.c: the scan of the modules of running processes. The cache of results and the
-- state are here, one scan in File, one module in Module, the walk over the processes in Walk, and the
-- realignment of a dumped module in Align.
pub mod File
pub mod Module
pub mod Ready
pub mod Good
pub mod Sane
pub mod Callback
pub mod Walk
pub mod Once
pub mod Align
pub mod Realigned
pub mod Image
pub mod Ledger
mod Tests
use clamav_win.Base.{
  ℕ, suc, ◌+◌, ◌-◌, Bool, true, false, ◌&&◌, ◌||◌, Option, none, some, List, [], ◌∷◌, ◌++◌, ltb,
  ◌==◌, if◌then◌else◌, length, take, drop,
}
use clamav_win.Actions.Source.{Held, Source}

-- The values of cl_error_t that a scan ends with.
pub data ScanStatus : Type 0 where
  clean virus eopen : ScanStatus

abbrev pub is_clean : ScanStatus → Bool
is_clean clean = true
is_clean _ = false

abbrev pub is_virus : ScanStatus → Bool
is_virus virus = true
is_virus _ = false

-- `tc_filelist_t`; the field `next` is the tail of the list.
pub record Entry : Type 0 where
  pub filename : List ℕ
  pub res : ScanStatus

abbrev pub max_path : ℕ
max_path = 260

-- `lookup_cache`; `same` is the comparison _tcsicmp.
unfoldable pub lookup_cache :
    (same : List ℕ → List ℕ → Bool) → List Entry → (filename : List ℕ) → Option ScanStatus
lookup_cache same [] filename = none
lookup_cache same (e ∷ rest) filename =
    if same filename e.filename then some e.res else lookup_cache same rest filename

-- `insert_cache`, whose malloc may fail.
unfoldable pub insert_cache :
    (allocated : Bool) → List Entry → (filename : List ℕ) → ScanStatus → List Entry
insert_cache allocated list filename res =
    if allocated
    then list ++ record { filename = take (max_path - 1) filename; res = res } ∷ []
    else list

-- What the process holds, the counters of `struct mem_info` and `tc_scanmem_data`, the counters of
-- failed actions, the cache, the sources that `action` was called with, the oldest first, and `res`.
pub record Scan : Type 0 where
  pub held : Held
  pub files : ℕ
  pub ifiles : ℕ
  pub errors : ℕ
  pub processes : ℕ
  pub modules : ℕ
  pub notmoved : ℕ
  pub notremoved : ℕ
  pub cache : List Entry
  pub acted : List Source
  pub res : ScanStatus

-- The options that are read, and whether `action` is set and clamd does the scan (`info->d`).
pub record Options : Type 0 where
  pub action : Bool
  pub daemon : Bool
  pub kill : Bool
  pub unload : Bool
  pub exclude : Bool
  pub remove : Bool

abbrev pub same_text : List ℕ → List ℕ → Bool
same_text [] [] = true
same_text [] (b ∷ bs) = false
same_text (a ∷ as') [] = false
same_text (a ∷ as') (b ∷ bs) = a == b && same_text as' bs

abbrev pub or_else : Option (List ℕ) → List ℕ → List ℕ
or_else none path = path
or_else (some text) path = text

-- One step after another; `none` is a close or a free of what is not held.
abbrev pub chain {ℓ κ} : {A : Type ℓ} {B : Type κ} → Option A → (A → Option B) → Option B
chain none f = none
chain (some a) f = f a
