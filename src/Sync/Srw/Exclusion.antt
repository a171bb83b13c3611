-- ===== src/Sync/Srw/Exclusion.antt =====
-- Mutual exclusion of the slim lock, in the runs that keep it.
use clamav_win.Base.{ℕ, ◌≡◌, ◌≢◌, Bool, false, arith}
use clamav_win.Sync.Srw.{
  idle, enter, saw, owner, Lock, Step, call, take, taken, mark, release, release_contended,
  CleanReach, start, next,
}

-- One owner at most, and the word of an owned lock is not NULL.
pub record Exclusive (s : Lock) : Type 0 where
  pub one : (i j : ℕ) → s.pc i ≡ owner → s.pc j ≡ owner → i ≡ j
  pub held : (i : ℕ) → s.pc i ≡ owner → s.word ≢ 0
  pub seen : (i t : ℕ) → s.pc i ≡ saw t → t ≢ 0

-- What a step that keeps exclusion was allowed by, for the proofs that treat all steps alike.
abbrev Guard : {s : Lock} {i : ℕ} {t : Lock} {b : Bool} → Step s i b t → Type 0
Guard {s} {i = i} (call e) = s.pc i ≡ idle
Guard {s} {i = i} (take e z) = (s.pc i ≡ enter) × (s.word ≡ 0)
Guard {s} {i = i} (taken e z w) = (s.pc i ≡ enter) × (s.word ≢ 0)
Guard {s} {i = i} (mark {t} e w) = (s.pc i ≡ saw t) × (s.word ≡ t)
Guard {s} {i = i} (release e w) = s.pc i ≡ owner
Guard {s} {i = i} (release_contended e w) = s.pc i ≡ owner
Guard _ = Unit

guard : {s : Lock} {i : ℕ} {t : Lock} {b : Bool} (st : Step s i b t) → Guard st
guard (call e) = e
guard (take e z) = (e, z)
guard (taken e z w) = (e, z)
guard (mark e w) = (e, w)
guard (release e w) = e
guard (release_contended e w) = e
guard _ = tt

module _ {s : Lock} (inv : Exclusive s) (i : ℕ) where
  open inv use {one, held, seen}

  step-one : {t : Lock} → Step s i false t → (a b : ℕ) → t.pc a ≡ owner → t.pc b ≡ owner → a ≡ b
  step-one (call e) a b p q = ground (arith, one a b)
  step-one st a b p q = ground (arith, guard st, one a b, held a, held b)

  step-held : {t : Lock} → Step s i false t → (a : ℕ) → t.pc a ≡ owner → t.word ≢ 0
  step-held (call e) a p = ground (arith, held a)
  step-held st a p = ground (arith, guard st, held a, one a i)

  step-seen : {t : Lock} → Step s i false t → (a t' : ℕ) → t.pc a ≡ saw t' → t' ≢ 0
  step-seen (call e) a t' p = ground (arith, seen a t')
  step-seen st a t' p = ground (arith, guard st, seen a t')

  step-Exclusive : {t : Lock} → Step s i false t → Exclusive t
  step-Exclusive st = record { one = step-one st; held = step-held st; seen = step-seen st }

pub CleanReach-Exclusive : {s : Lock} → CleanReach s → Exclusive s
CleanReach-Exclusive start = record { one = λ i j. cc; held = λ i. cc; seen = λ i t. cc }
CleanReach-Exclusive (next r i st) = step-Exclusive (CleanReach-Exclusive r) i st

-- In a run in which no thread returns after its second compare-exchange, two threads never own the
-- lock together, and the word of an owned lock is not NULL.
pub mutual_exclusion :
    {s : Lock} → CleanReach s → (i j : ℕ) → s.pc i ≡ owner → s.pc j ≡ owner → (i ≡ j) × (s.word ≢ 0)
mutual_exclusion r i j p q = let inv = CleanReach-Exclusive r in (inv.one i j p q, inv.held i p)
