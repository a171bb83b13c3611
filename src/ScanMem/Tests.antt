-- ===== src/ScanMem/Tests.antt =====
-- Instances of the theorems on src/common/scanmem.c.
use clamav_win.Base.{
  arith, ℕ, ◌==◌, Bool, if◌then◌else◌, some, ◌≡◌, refl, true, false, none, List, [], ◌∷◌,
}
use clamav_win.ScanMem.{lookup_cache, insert_cache, clean, Scan, Options, same_text}
use clamav_win.ScanMem.File.{
  nothing_found, scanfile, scan_fd, infection, target_is_scan_target, Answers, strong_indicator,
  positive,
}
use clamav_win.ScanMem.Module.{
  scan_new, scan_module, respond, cleanup, module_path, object_count, Replies, Module, next_process,
  scanmem_cb,
}
use clamav_win.ScanMem.Sane.{Sane}
use clamav_win.ScanMem.Callback.{scanmem_cb-Sane}
use clamav_win.ScanMem.Walk.{Process, walkmodules}
use clamav_win.ScanMem.Once.{scanmem_cb-twice}
use clamav_win.ScanMem.Align.{Memory, align_pe}
use clamav_win.ScanMem.Realigned.{Changes}
use clamav_win.ScanMem.Image.{IsImage, Writable, align_pe-IsImage}
use clamav_win.ScanMem.Ledger.{Keeps, walkmodules-Keeps}

abbrev nothing : Scan
nothing = record {
  held = record { fds = []; handles = []; strings = 0 };
  files = 0;
  ifiles = 0;
  errors = 0;
  processes = 0;
  modules = 0;
  notmoved = 0;
  notremoved = 0;
  cache = [];
  acted = [];
  res = clean;
}

-- An action is set.
abbrev with_action : Options
with_action = record {
  action = true;
  daemon = false;
  kill = false;
  unload = false;
  exclude = false;
  remove = false;
}

-- The source opens with the descriptor 3, and the module is infected.
abbrev infected : Answers
infected = record {
  source = record {
    display_copied = true;
    action_copied = true;
    opened = some 3;
    has_status = true;
    is_regular = true;
    os_handle = some 7;
    duplicated = some 8;
  };
  opened = some 4;
  connected = true;
  sent = positive;
  sent_errors = 0;
  verdict = strong_indicator;
}

abbrev replies : Replies
replies = record {
  expanded = λ path. path;
  narrow = λ path. some path;
  resolved = some (b'C' ∷ b':' ∷ []);
  chkpath = λ path. false;
  is_packed = λ path. false;
  temp = b't' ∷ [];
  dumped = none;
  first = infected;
  second = infected;
  cached = true;
  unloaded = next_process;
}

abbrev module_c : Module
module_c = record { exe_path = b'C' ∷ b':' ∷ []; module_name = b'C' ∷ []; exe_file = b'D' ∷ [] }

scanmem_cb-Sane_example :
    Sane with_action
      (module_path replies.expanded module_c.exe_path)
      nothing
      (scanmem_cb same_text with_action replies module_c nothing)
scanmem_cb-Sane_example = scanmem_cb-Sane same_text with_action replies module_c nothing

abbrev processes : List Process
processes =
    record {
      pid = 5;
      opened = some 9;
      enumerated = true;
      named = true;
      modules = none ∷ some (module_c, replies) ∷ [];
    }
    ∷ []

walkmodules-Keeps_example :
    Keeps with_action nothing (walkmodules same_text with_action processes nothing)
walkmodules-Keeps_example = walkmodules-Keeps same_text with_action processes nothing

-- No action is set, and the module is clean.
abbrev without_action : Options
without_action = record with_action { action = false }

abbrev clean_replies : Replies
clean_replies = record replies { first = record infected { verdict = nothing_found } }

abbrev after_clean : Scan
after_clean = record nothing {
  files = 1;
  modules = 1;
  cache = record { filename = module_c.exe_path; res = clean } ∷ [];
}

same_text_self : (x : List ℕ) → same_text x x ≡ true
same_text_self [] = refl
same_text_self (a ∷ x) = ground (arith, same_text_self x)

first_call :
    scanmem_cb same_text without_action clean_replies module_c nothing ≡ some (false, after_clean)
unfolding scanmem_cb scan_new scan_module respond cleanup module_path object_count scanfile scan_fd
    infection target_is_scan_target lookup_cache insert_cache
first_call = refl

module_c_name : module_path clean_replies.expanded module_c.exe_path ≡ module_c.exe_path
unfolding module_path object_count
module_c_name = refl

scanmem_cb-twice_example :
    scanmem_cb same_text without_action replies module_c after_clean ≡ some (false, after_clean)
scanmem_cb-twice_example =
    scanmem_cb-twice same_text without_action clean_replies replies module_c nothing after_clean
      false module_c.exe_path module_c.exe_path module_c.exe_path same_text_self refl refl
      module_c_name refl module_c_name refl first_call refl

-- An image at the address 100, its signature at 164, with one section, whose header is at 412.
abbrev image : Memory
image x =
    if x == 100
    then 77
    else if x == 101
    then 90
    else if x == 160
    then 64
    else if x == 164
    then 80
    else if x == 165
    then 69
    else if x == 170
    then 1
    else if x == 425
    then 16
    else 0

abbrev anywhere : ℕ → ℕ → Bool
anywhere at size = true

image-IsImage : IsImage anywhere 100 image
image-IsImage = record {
  dos_readable = refl;
  dos = refl;
  offset_readable = refl;
  offset = refl;
  pe_readable = refl;
  pe = refl;
  file_readable = refl;
  optional_readable = refl;
  some_sections = omega arith;
  few_sections = omega arith;
}

image-Writable : Writable anywhere 1 412
image-Writable i below = refl

align_pe-IsImage_example :
    ((align_pe anywhere anywhere 100 image).returned ≡ 1)
    × ((align_pe anywhere anywhere 100 image).memory 433 ≡ 16)
    × Changes anywhere image (align_pe anywhere anywhere 100 image).memory 428 1 412
align_pe-IsImage_example =
    align_pe-IsImage anywhere anywhere 100 image 0 433 428 image-IsImage image-Writable
      (omega arith) (omega arith) (omega arith)
