-- ===== src/Dns/Names.antt =====
-- Names between `dn_comp` and `dn_expand` of src/helpers/resolver.c: their labels, and their text from the
-- labels.
use clamav_win.Base.{
  ℕ, Bool, not, ◌&&◌, ◌*◌, ◌≤◌, ◌<◌, ◌≡◌, refl, sym, ap, ◌∙◌, true, false, List, [], ◌∷◌, ◌++◌,
  arith, ◌==◌, if◌then◌else◌, length, length-append, Bool-cases, inl, inr,
}
use clamav_win.Dns.Compress.{is_empty, dot}
use clamav_win.Dns.Labels.{labels, with_char, wire, all_short}

-- A name as `dn_expand` writes it: a dot before each label but the first.
abbrev pub with_label : List ℕ → List ℕ → List ℕ
with_label name l = (if is_empty name then name else name ++ dot ∷ []) ++ l

abbrev pub joined : List ℕ → List (List ℕ) → List ℕ
joined name [] = name
joined name (l ∷ ls) = joined (with_label name l) ls

abbrev pub AllLabels : List (List ℕ) → Type 0
AllLabels [] = Unit
AllLabels (l ∷ ls) = (1 ≤ length l) × (length l ≤ 63) × AllLabels ls

append_nil : (xs : List ℕ) → xs ++ [] ≡ xs
append_nil [] = refl
append_nil (x ∷ xs) = ap (◌∷◌ x) (append_nil xs)

pub append_assoc : (xs ys zs : List ℕ) → (xs ++ ys) ++ zs ≡ xs ++ (ys ++ zs)
append_assoc [] ys zs = refl
append_assoc (x ∷ xs) ys zs = ap (◌∷◌ x) (append_assoc xs ys zs)

-- No label of the name is empty.
abbrev pub all_full : List (List ℕ) → Bool
all_full [] = true
all_full (l ∷ ls) = not (is_empty l) && all_full ls

abbrev pub ends_dot : List ℕ → Bool
ends_dot [] = false
ends_dot (c ∷ []) = c == dot
ends_dot (c ∷ d ∷ rest) = ends_dot (d ∷ rest)

pub AllLabels-all_full :
    (ls : List (List ℕ)) → all_full ls ≡ true → all_short ls ≡ true → AllLabels ls
AllLabels-all_full [] f s = tt
AllLabels-all_full ([] ∷ ls) f s = absurd (cc)
AllLabels-all_full ((c ∷ l) ∷ ls) f s =
    (omega arith, ground arith, AllLabels-all_full ls f (ground arith))

behind : List (List ℕ) → List ℕ
behind [] = []
behind (l ∷ ls) = dot ∷ (l ++ behind ls)

flat : List (List ℕ) → List ℕ
flat [] = []
flat (l ∷ ls) = l ++ behind ls

joined-behind :
    (c : ℕ) (name : List ℕ) (ls : List (List ℕ)) → joined (c ∷ name) ls ≡ (c ∷ name) ++ behind ls
unfolding behind
joined-behind c name [] = ap (◌∷◌ c) (sym (append_nil name))
joined-behind c name (l ∷ ls) =
    joined-behind c (name ++ dot ∷ [] ++ l) ls
    ∙ ap (◌∷◌ c) (
        append_assoc (name ++ dot ∷ []) l (behind ls)
        ∙ append_assoc name (dot ∷ []) (l ++ behind ls))

behind-char : (d : ℕ) (ls : List (List ℕ)) → behind (with_char d ls) ≡ dot ∷ flat (with_char d ls)
unfolding behind flat
behind-char d [] = refl
behind-char d (l ∷ ls) = refl

behind-labels :
    (d : ℕ) (rest : List ℕ) → behind (labels (d ∷ rest)) ≡ dot ∷ flat (labels (d ∷ rest))
unfolding behind flat labels
behind-labels d rest = elim (Bool-cases (d == dot)) [
  | inl e ↦ rw e refl
  | inr e ↦ rw e (behind-char d (labels rest))
]

flat-with_char : (c : ℕ) (ls : List (List ℕ)) → flat (with_char c ls) ≡ c ∷ flat ls
unfolding behind flat
flat-with_char c [] = refl
flat-with_char c (l ∷ ls) = refl

flat-dot :
    (c d : ℕ) (rest : List ℕ)
    → (c == dot) ≡ true
    → flat (labels (c ∷ d ∷ rest)) ≡ behind (labels (d ∷ rest))
unfolding flat labels
flat-dot c d rest e = rw e refl

flat-other :
    (c d : ℕ) (rest : List ℕ)
    → (c == dot) ≡ false
    → flat (labels (c ∷ d ∷ rest)) ≡ flat (with_char c (labels (d ∷ rest)))
unfolding labels
flat-other c d rest e = rw e refl

flat-char :
    (c d : ℕ) (rest : List ℕ)
    → flat (labels (d ∷ rest)) ≡ d ∷ rest
    → flat (labels (c ∷ d ∷ rest)) ≡ c ∷ d ∷ rest
flat-char c d rest h = elim (Bool-cases (c == dot)) [
  | inl e ↦ flat-dot c d rest e ∙ (behind-labels d rest ∙ ground (arith, h))
  | inr e ↦ flat-other c d rest e ∙ (flat-with_char c (labels (d ∷ rest)) ∙ ap (◌∷◌ c) h)
]

flat-labels : (src : List ℕ) → ends_dot src ≡ false → flat (labels src) ≡ src
unfolding flat behind labels
flat-labels [] e = refl
flat-labels (c ∷ []) e = ground arith
flat-labels (c ∷ d ∷ rest) e = flat-char c d rest (flat-labels (d ∷ rest) e)

pub two_bytes : (ls : List (List ℕ)) → AllLabels ls → 2 * length ls < length (wire ls)
unfolding wire
two_bytes [] ok = omega arith
two_bytes (l ∷ ls) (lo, hi, ok) = omega (arith, length-append l (wire ls), two_bytes ls ok)

joined-flat : (ls : List (List ℕ)) → AllLabels ls → joined [] ls ≡ flat ls
unfolding flat behind
joined-flat [] ok = refl
joined-flat ([] ∷ ls) (lo, hi, ok) = absurd (omega arith)
joined-flat ((c ∷ l) ∷ ls) ok = joined-behind c l ls

pub joined-labels :
    (src : List ℕ) → AllLabels (labels src) → ends_dot src ≡ false → joined [] (labels src) ≡ src
joined-labels src ok e = joined-flat (labels src) ok ∙ flat-labels src e
