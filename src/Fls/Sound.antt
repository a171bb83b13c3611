-- ===== src/Fls/Sound.antt =====
-- The invariant of the blocks of src/legacy/shared/fibersapi.c, and what is relied on of pthreads.
use clamav_win.Base.{
  ℕ, ◌≡◌, ◌≢◌, Bool, true, false, ◌&&◌, ◌||◌, ◌==◌, if◌then◌else◌, is_in, Distinct, Option, none,
  some,
}
use clamav_win.Fls.{Pthread, Fls}

-- The documented behaviour: `valid` tells the keys that exist. A new key is one that did not exist,
-- and no thread has a value of it; a value that is set is read back in its thread only; a
-- call that fails changes nothing.
pub record Documented {T : Type 0} (p : Pthread T) (valid : T → ℕ → Bool) : Type 0 where
  pub create-new :
      (s : T)
      → (p.create s).0.0 ≡ 0
      → let i = (p.create s).0.1 in
        (valid s i ≡ false)
        × ((j : ℕ) → valid (p.create s).1 j ≡ (i == j || valid s j))
        × ((t : ℕ) → p.getspecific (p.create s).1 i t ≡ 0)
  pub create-others :
      (s : T) (j : ℕ)
      → valid s j ≡ true
      → (valid (p.create s).1 j ≡ true)
        × ((t : ℕ) → p.getspecific (p.create s).1 j t ≡ p.getspecific s j t)
  pub setspecific-stores :
      (s : T) (i t v : ℕ)
      → (p.setspecific s i t v).0 ≡ 0
      → (j u : ℕ)
      → p.getspecific (p.setspecific s i t v).1 j u
        ≡ (if i == j && t == u then v else p.getspecific s j u)
  pub setspecific-fails :
      (s : T) (i t v : ℕ)
      → (p.setspecific s i t v).0 ≢ 0
      → (j u : ℕ) → p.getspecific (p.setspecific s i t v).1 j u ≡ p.getspecific s j u
  pub setspecific-valid : (s : T) (i t v j : ℕ) → valid (p.setspecific s i t v).1 j ≡ valid s j
  pub delete-others :
      (s : T) (i j : ℕ)
      → i ≢ j
      → (valid (p.delete s i).1 j ≡ valid s j)
        × ((t : ℕ) → p.getspecific (p.delete s i).1 j t ≡ p.getspecific s j t)
  pub delete-fails :
      (s : T) (i : ℕ)
      → (p.delete s i).0 ≢ 0
      → (valid (p.delete s i).1 i ≡ valid s i)
        × ((t : ℕ) → p.getspecific (p.delete s i).1 i t ≡ p.getspecific s i t)
  pub exits-clears :
      (s : T) (i t j u : ℕ)
      → p.getspecific (p.exits s i t) j u ≡ (if i == j && t == u then 0 else p.getspecific s j u)
  pub exits-valid : (s : T) (i t j : ℕ) → valid (p.exits s i t) j ≡ valid s j

module _ {T : Type 0} (p : Pthread T) (valid : T → ℕ → Bool) where
  -- A listed key: its index exists, its values are allocated blocks that it owns and that
  -- are no keys, each with a pointer and held by the thread that `thread` names, and every value that a thread holds is one of them.
  pub record KeySound (s : Fls T) (thread : ℕ → ℕ) (k : ℕ) : Type 0 where
    pub exists : valid s.tls (s.key k).index ≡ true
    pub allocated : s.heap k ≡ true
    pub distinct : Distinct (s.values k)
    pub owned :
        (v : ℕ)
        → is_in v (s.values k) ≡ true
        → ((s.value v).owner ≡ k)
          × (s.heap v ≡ true)
          × (is_in v s.keys ≡ false)
          × (v ≢ 0)
          × (p.getspecific s.tls (s.key k).index (thread v) ≡ v)
          × ((s.value v).value ≢ 0)
    pub found :
        (t v : ℕ)
        → p.getspecific s.tls (s.key k).index t ≡ v
        → v ≢ 0
        → (is_in v (s.values k) ≡ true) × (thread v ≡ t)

  pub record Sound (s : Fls T) : Type 0 where
    pub thread : ℕ → ℕ
    pub each : (k : ℕ) → is_in k s.keys ≡ true → KeySound s thread k
    pub one_index :
        (j k : ℕ)
        → is_in j s.keys ≡ true
        → is_in k s.keys ≡ true
        → (s.key j).index ≡ (s.key k).index
        → j ≡ k
    pub keys_distinct : Distinct s.keys

-- A block that HeapAlloc returns is not NULL and was free.
abbrev pub FreshBlock : {T : Type 0} → Fls T → Option ℕ → Type 0
FreshBlock s none = Unit
FreshBlock s (some a) = (a ≢ 0) × (s.heap a ≡ false)
