-- ===== src/Actions/Dest.antt =====
-- `getdest` of src/common/win32actions.c: a new file in the target directory.
use clamav_win.Base.{
  ℕ, zero, suc, ◌+◌, ◌/◌, ◌%◌, ◌≤◌, ◌<◌, ◌≡◌, ◌⊎◌, inl, inr, refl, Bool, true, ◌&&◌, Option, none,
  some, List, [], ◌∷◌, ◌++◌, arith, if◌then◌else◌, length, leb, ltb, false, length-append,
}

-- Contents by path.
abbrev pub Store : Type 0
Store = List ℕ → Option (List ℕ)

-- An `open` with O_CREAT | O_EXCL: a descriptor and the files after it, EEXIST, or another error.
pub data Created : Type 0 where
  made : (fd : ℕ) → Store → Created
  exists : Created
  refused : Created

abbrev pub separator : ℕ
separator = 92

-- `%s.%03u`, for a number below 1000.
unfoldable pub numbered : List ℕ → ℕ → List ℕ
numbered base i = base ++ (46 ∷ (48 + i / 100 % 10) ∷ (48 + i / 10 % 10) ∷ (48 + i % 10) ∷ [])

-- The loop, with the rounds left, `i` and the name that it tries.
unfoldable pub getdest_loop :
    (create : List ℕ → Created) → List ℕ → ℕ → (i : ℕ) → List ℕ → Option (ℕ × List ℕ × Store)
getdest_loop create base zero i name = none
getdest_loop create base (suc rounds) i name = elim (create name) [
  | made fd files ↦ some (fd, name, files)
  | exists ↦ getdest_loop create base rounds (suc i) (numbered base i)
  | refused ↦ none
]

abbrev pub plain_name : (target filename : List ℕ) → List ℕ
plain_name target filename = target ++ (separator ∷ filename)

-- What `malloc` is asked for; `targlen` is the length of the target directory.
abbrev pub name_size : (target filename : List ℕ) → ℕ
name_size target filename = length target + length filename + 6

-- `getdest`: the descriptor, the name and the files with the new one. `copied` and `allocated` say
-- whether `strdup` and `malloc`, for a size, succeed, and `basename` is the C runtime's.
unfoldable pub getdest :
    (create : List ℕ → Created)
    → (basename : List ℕ → List ℕ) → (target path : List ℕ) → (copied : Bool)
    → (allocated : ℕ → Bool) → Option (ℕ × List ℕ × Store)
unfolding getdest_loop
getdest create basename target path copied allocated =
    if copied && allocated (name_size target (basename path))
    then getdest_loop create (plain_name target (basename path)) 999 1
        (plain_name target (basename path))
    else none

-- The names in the order in which they are tried.
abbrev pub candidate : List ℕ → ℕ → List ℕ
candidate base zero = base
candidate base (suc k) = numbered base (suc k)

abbrev pub AllExist : (List ℕ → Created) → List ℕ → ℕ → Type 0
AllExist create base zero = Unit
AllExist create base (suc k) = AllExist create base k × (create (candidate base k) ≡ exists)

abbrev pub Chosen : (List ℕ → Created) → List ℕ → (room : ℕ) → Option (ℕ × List ℕ × Store) → Type 0
Chosen create base room none =
    (k : ℕ) × (k ≤ 999)
    × AllExist create base k
    × ((k ≡ 999) ⊎ (create (candidate base k) ≡ refused))
Chosen create base room (some (fd, name, files)) =
    (k : ℕ) × (k < 999)
    × AllExist create base k
    × (name ≡ candidate base k)
    × (create name ≡ made fd files)
    × (length name < room)

candidate-lt : (base : List ℕ) (k : ℕ) → length (candidate base k) < length base + 5
unfolding numbered
candidate-lt base zero = omega arith
candidate-lt base (suc k) = omega (arith, length-append base (candidate [] (suc k)))

loop-Chosen :
    (create : List ℕ → Created) (base : List ℕ) (room rounds k : ℕ)
    → length base + 5 ≤ room
    → k + rounds ≡ 999
    → AllExist create base k
    → Chosen create base room (getdest_loop create base rounds (suc k) (candidate base k))
unfolding getdest_loop
loop-Chosen create base room zero k size e all = (k, omega arith, all, inl (omega arith))
loop-Chosen create base room (suc rounds) k size e all =
    on_result (λ q. loop-Chosen create base room rounds (suc k) size (omega arith) (all, q))
      (create (candidate base k)) refl
  where
    on_result :
        (create (candidate base k) ≡ exists
          → Chosen create base room
              (getdest_loop create base rounds (suc (suc k)) (numbered base (suc k))))
        → (c : Created) → create (candidate base k) ≡ c
        → Chosen create base room (elim c [
          | made fd files ↦ some (fd, candidate base k, files)
          | exists ↦ getdest_loop create base rounds (suc (suc k)) (numbered base (suc k))
          | refused ↦ none
        ])
    on_result later (made fd files) q =
        (k, omega arith, all, refl, q, omega (arith, candidate-lt base k, size))
    on_result later exists q = later q
    on_result later refused q = (k, omega arith, all, inr q)

-- Where memory is left, `getdest` takes the first of the file's own name in the target directory and the
-- names with .001 to .998 behind it that can be created, if all before it exist already, and gives up at the first
-- error of another kind or after 999 names; the name with its NUL fits the size that malloc was asked for,
-- and where malloc gives no memory of that size, there is no name.
pub getdest-Chosen :
    (create : List ℕ → Created) (basename : List ℕ → List ℕ) (target path : List ℕ)
    → Chosen create
        (target ++ (separator ∷ basename path))
        (length target + length (basename path) + 6)
        (getdest create basename target path true
          (λ (size : ℕ). leb size (length target + length (basename path) + 6)))
      × (getdest create basename target path true
            (λ (size : ℕ). ltb size (length target + length (basename path) + 6))
          ≡ none)
unfolding getdest
getdest-Chosen create basename target path =
    let n = length target + length (basename path) + 6 in
    let enough : leb n n ≡ true = ground arith in
    let short : ltb n n ≡ false = ground arith in
    (
      rw enough (
          loop-Chosen create (target ++ (separator ∷ basename path)) n 999 0
            (omega (arith, length-append target (separator ∷ basename path))) refl tt),
      rw short refl,
    )
