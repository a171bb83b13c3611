-- ===== src/Sync/Srw/Races.antt =====
-- Two runs of the slim lock that its users do not expect.
use clamav_win.Base.{ℕ, if◌then◌else◌, ◌==◌, ◌≡◌, ◌≢◌, refl, [], ◌∷◌, arith, update}
use clamav_win.Sync.Srw.{
  idle, enter, saw, waiting, parked, owner, waking, Lock, at, put, call, take, taken, contended,
  mark, mark_free, park, release, release_contended, wake, fresh, Reach, start, next,
}

module _ (i j k : ℕ) (ij : i ≢ j) (ik : i ≢ k) (jk : j ≢ k) where
  -- Thread `i` takes the lock.
  taken_by_i : Lock
  taken_by_i = put (at fresh i enter) 1 i owner

  Reach-taken : Reach taken_by_i
  unfolding taken_by_i
  Reach-taken = next (next start i (call refl)) i (take (ground arith) refl)

  -- Thread `j` finds it taken, and `i` releases it before `j` marks it as contended.
  free_again : Lock
  unfolding taken_by_i
  free_again = put (at (at taken_by_i j enter) j (saw 1)) 0 i idle

  Reach-free : Reach free_again
  unfolding free_again
  Reach-free =
      next
        (next (next Reach-taken j (call (ground arith))) j
          (taken (ground arith) (ground arith) (ground arith)))
        i (release (ground arith) (ground arith))

  -- `j` returns with the lock still free, and `k` takes it.
  both_own : Lock
  unfolding free_again
  both_own = put (at (at free_again j owner) k enter) 1 k owner

  Reach-both : Reach both_own
  unfolding both_own
  Reach-both =
      next
        (next (next Reach-free j (mark_free {t = 1} (ground arith) (ground arith) refl)) k
          (call (ground arith)))
        k (take (ground arith) refl)

  -- `i` owns the lock, and `j` and `k` are parked.
  queued_j : Lock
  unfolding taken_by_i
  queued_j = record (put (at (at taken_by_i j enter) j (saw 1)) 2 j waiting) {
    queue = j ∷ [];
    pc = update (put (at (at taken_by_i j enter) j (saw 1)) 2 j waiting).pc j parked;
  }

  Reach-queued_j : Reach queued_j
  unfolding queued_j
  Reach-queued_j =
      next
        (next
          (next (next Reach-taken j (call (ground arith))) j
            (taken (ground arith) (ground arith) (ground arith)))
          j (mark {t = 1} (ground arith) refl))
        j (park (ground arith) refl)

  queued_k : Lock
  unfolding queued_j
  queued_k = record (at (at queued_j k enter) k waiting) {
    queue = j ∷ k ∷ [];
    pc = update (at (at queued_j k enter) k waiting).pc k parked;
  }

  Reach-queued_k : Reach queued_k
  unfolding queued_k
  Reach-queued_k =
      next (next (next Reach-queued_j k (call (ground arith))) k (contended (ground arith) refl)) k
        (park (ground arith) refl)

  -- `i` releases it and wakes `j`, which takes it with the word of an uncontended lock.
  handed_on : Lock
  unfolding queued_k
  handed_on = record {
    word = 1;
    queue = k ∷ [];
    pc = update (update (update (update queued_k.pc i waking) j enter) i idle) j owner;
  }

  Reach-handed_on : Reach handed_on
  unfolding handed_on
  Reach-handed_on =
      next
        (next (next Reach-queued_k i (release_contended (ground arith) refl)) i
          (wake {j = j} {rest = k ∷ []} (ground arith) refl))
        j (take (ground arith) refl)

  forgotten : Lock
  unfolding handed_on
  forgotten = put handed_on 0 j idle

  Reach-forgotten : Reach forgotten
  unfolding forgotten
  Reach-forgotten = next Reach-handed_on j (release (ground arith) (ground arith))

-- For any three threads there is a run after which two of them own the lock: the second
-- compare-exchange of AcquireSRWLockExclusive returns NULL when the lock was released in between, and
-- the function then returns without having taken it.
pub two_owners :
    (i j k : ℕ) → i ≢ j → i ≢ k → j ≢ k → (s : Lock) × Reach s × (s.pc j ≡ owner) × (s.pc k ≡ owner)
unfolding both_own
two_owners i j k ij ik jk =
    (both_own i j k ij ik jk, Reach-both i j k ij ik jk, ground arith, ground arith)

-- For any three threads there is a run after which the lock is free and no other thread is in
-- either function, but the third is parked, with no thread left that will wake it: the woken thread
-- takes the lock with the word 1, and its release wakes nobody.
pub lost_wakeup :
    (i j k : ℕ)
    → i ≢ j
    → i ≢ k
    → j ≢ k
    → (s : Lock) × Reach s × (s.word ≡ 0) × ((m : ℕ) → s.pc m ≡ (if m == k then parked else idle))
unfolding forgotten
lost_wakeup i j k ij ik jk =
    (forgotten i j k ij ik jk, Reach-forgotten i j k ij ik jk, refl, λ m. ground arith)
