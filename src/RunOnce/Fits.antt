-- ===== src/RunOnce/Fits.antt =====
-- What the position of a thread in src/legacy/shared/runonce.c says of the word.
use clamav_win.Base.{ℕ, ◌+◌, ◌%◌, ◌≡◌, ◌≢◌, Option, none, some, true, false, arith}
use clamav_win.RunOnce.Threads.{
  Pc, idle, begin, saw, running, completing, ready, saw_complete, finished, returned, failed,
  initialises,
}

-- The word that InitOnceComplete is to store, by what pInitFn returned.
abbrev pub Stores : (success : Option ℕ) → (new : ℕ) → Type 0
Stores none new = new ≡ 0
Stores (some context) new = (new ≡ context + 2) × (context % 4 ≡ 0)

-- What the position of a thread says of the word.
abbrev pub Fits : ℕ → Pc → Type 0
Fits word running = word % 4 ≡ 1
Fits word (completing result context) = word % 4 ≡ 1
Fits word (ready success new) = (word % 4 ≡ 1) × Stores success new
Fits word (saw_complete success new val) = (word % 4 ≡ 1) × Stores success new
Fits word (saw val) = val % 4 ≡ 2 → word ≡ val
Fits word (finished none new) = Unit
Fits word (finished (some context) new) = (context % 4 ≡ 0) × (word ≡ context + 2)
Fits word (returned context) = (context % 4 ≡ 0) × (word ≡ context + 2)
Fits word _ = Unit

-- A word that is not complete fits a thread that does not initialize, whatever follows it.
pub Fits-leave :
    (word word' : ℕ) (p : Pc) → word % 4 ≢ 2 → initialises p ≡ false → Fits word p → Fits word' p
Fits-leave word word' (saw val) h n f = λ e. absurd (ground (arith, f e))
Fits-leave word word' (finished none new) h n f = tt
Fits-leave word word' (finished (some context) new) h n f = absurd (omega arith)
Fits-leave word word' (returned context) h n f = absurd (omega arith)
Fits-leave word word' idle h n f = tt
Fits-leave word word' begin h n f = tt
Fits-leave word word' failed h n f = tt
Fits-leave word word' running h n f = cc
Fits-leave word word' (completing result context) h n f = cc
Fits-leave word word' (ready success new) h n f = cc
Fits-leave word word' (saw_complete success new val) h n f = cc

-- A word in progress may be changed to another one in progress.
pub Fits-progress :
    (word word' : ℕ) (p : Pc) → word % 4 ≡ 1 → word' % 4 ≡ 1 → Fits word p → Fits word' p
Fits-progress word word' running h n f = n
Fits-progress word word' (completing result context) h n f = n
Fits-progress word word' (ready success new) h n f = (n, f.1)
Fits-progress word word' (saw_complete success new val) h n f = (n, f.1)
Fits-progress word word' (saw val) h n f = λ e. absurd (ground (arith, f e))
Fits-progress word word' (finished none new) h n f = tt
Fits-progress word word' (finished (some context) new) h n f = absurd (omega arith)
Fits-progress word word' (returned context) h n f = absurd (omega arith)
Fits-progress word word' idle h n f = tt
Fits-progress word word' begin h n f = tt
Fits-progress word word' failed h n f = tt

pub initialises-progress : (word : ℕ) (p : Pc) → initialises p ≡ true → Fits word p → word % 4 ≡ 1
initialises-progress word running h f = f
initialises-progress word (completing result context) h f = f
initialises-progress word (ready success new) h f = f.0
initialises-progress word (saw_complete success new val) h f = f.0
initialises-progress word idle h f = cc
initialises-progress word begin h f = cc
initialises-progress word (saw val) h f = cc
initialises-progress word (finished success new) h f = cc
initialises-progress word (returned context) h f = cc
initialises-progress word failed h f = cc
