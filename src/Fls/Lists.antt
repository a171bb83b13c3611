-- ===== src/Fls/Lists.antt =====
-- Lists of blocks: what `remove` and the search for a key leave in them.
use clamav_win.Base.{
  update_ne, update_self, if◌then◌else◌, ℕ, ◌≡◌, ◌≢◌, refl, true, false, none, some, List, [], ◌∷◌,
  arith, ◌==◌, Bool-cases, inl, inr, is_in, NotIn, Distinct, update,
}
use clamav_win.Fls.{Key, fls_find_key, remove}

pub is_in-remove : (x y : ℕ) (l : List ℕ) → is_in x (remove y l) ≡ true → is_in x l ≡ true
unfolding remove
is_in-remove x y [] h = h
is_in-remove x y (z ∷ rest) h = ground (arith, is_in-remove x y rest)

pub is_in-remove_ne :
    (x y : ℕ) (l : List ℕ) → x ≢ y → is_in x l ≡ true → is_in x (remove y l) ≡ true
unfolding remove
is_in-remove_ne x y [] n h = h
is_in-remove_ne x y (z ∷ rest) n h = ground (arith, is_in-remove_ne x y rest n)

pub NotIn-is_in : (x : ℕ) (l : List ℕ) → NotIn x l → is_in x l ≡ false
NotIn-is_in x [] h = refl
NotIn-is_in x (z ∷ rest) h = ground (arith, NotIn-is_in x rest h.1)

pub is_in-NotIn : (x : ℕ) (l : List ℕ) → is_in x l ≡ false → NotIn x l
is_in-NotIn x [] h = tt
is_in-NotIn x (z ∷ rest) h = ((λ e. ground arith), is_in-NotIn x rest (ground arith))

pub NotIn-remove : (x y : ℕ) (l : List ℕ) → NotIn x l → NotIn x (remove y l)
unfolding remove
NotIn-remove x y [] h = tt
NotIn-remove x y (z ∷ rest) h = ground (arith, NotIn-remove x y rest h.1)

pub Distinct-remove : (y : ℕ) (l : List ℕ) → Distinct l → Distinct (remove y l)
unfolding remove
Distinct-remove y [] h = tt
Distinct-remove y (z ∷ rest) h = elim (Bool-cases (z == y)) [
  | inl e ↦ rw e h.1
  | inr e ↦ rw e (NotIn-remove z y rest h.0, Distinct-remove y rest h.1)
]

pub is_in-remove_self : (y : ℕ) (l : List ℕ) → Distinct l → is_in y (remove y l) ≡ false
unfolding remove
is_in-remove_self y [] h = refl
is_in-remove_self y (z ∷ rest) h =
    ground (arith, is_in-remove_self y rest h.1, NotIn-is_in z rest h.0)

-- The key that is found is listed and has the index.
pub find-listed :
    (key : ℕ → Key) (ks : List ℕ) (i : ℕ) {k : ℕ}
    → fls_find_key key ks i ≡ some k
    → (is_in k ks ≡ true) × ((key k).index ≡ i)
unfolding fls_find_key
find-listed key [] i h = absurd (ground arith)
find-listed key (j ∷ rest) i {k} h = elim (Bool-cases ((key j).index == i)) [
  | inl e ↦ ground arith
  | inr e ↦ let ih = find-listed key rest i {k = k} (ground arith) in ground (arith, ih)
]

-- Nothing is found where no listed key has the index.
pub find-none :
    (key : ℕ → Key) (ks : List ℕ) (i : ℕ)
    → ((j : ℕ) → is_in j ks ≡ true → (key j).index ≢ i)
    → fls_find_key key ks i ≡ none
unfolding fls_find_key
find-none key [] i h = refl
find-none key (j ∷ rest) i h =
    let hj = h j in ground (arith, hj, find-none key rest i (λ x m. h x (ground arith)))

-- A key that is put in front.
find-update :
    (key : ℕ → Key) (k : ℕ) (x : Key) (ks : List ℕ) (j : ℕ)
    → is_in k ks ≡ false
    → fls_find_key (update key k x) ks j ≡ fls_find_key key ks j
unfolding fls_find_key
find-update key k x [] j h = refl
find-update key k x (y ∷ rest) j h =
    rw
      (
        update_ne key k y x (λ e. ground (arith, h, e)),
        find-update key k x rest j (ground (arith, h)),
      )
      refl

pub find-new :
    (key : ℕ → Key) (k : ℕ) (x : Key) (ks : List ℕ) (j : ℕ)
    → is_in k ks ≡ false
    → fls_find_key (update key k x) (k ∷ ks) j
      ≡ (if x.index == j then some k else fls_find_key key ks j)
unfolding fls_find_key
find-new key k x ks j h = rw (update_self key k x, find-update key k x ks j h) refl
