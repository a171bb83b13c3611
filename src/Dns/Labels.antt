-- ===== src/Dns/Labels.antt =====
-- Names as lists of labels, and `dn_comp` against them.
use clamav_win.Base.{
  ℕ, zero, suc, ◌+◌, ◌-◌, ◌≤◌, ◌<◌, ◌≡◌, ap, sym, ◌∙◌, Bool, true, ◌&&◌, List, [], ◌∷◌, ◌++◌, arith,
  ltb, leb, ◌==◌, if◌then◌else◌, length, length-append,
}
use clamav_win.Dns.Compress.{
  dot, label, after_label, skip_dot, Written, written, error, before, dn_comp_loop, dn_comp,
}

-- The labels between the dots. A dot at the end closes its label and opens none.
abbrev pub with_char : ℕ → List (List ℕ) → List (List ℕ)
with_char c [] = (c ∷ []) ∷ []
with_char c (l ∷ ls) = (c ∷ l) ∷ ls

unfoldable pub labels : List ℕ → List (List ℕ)
labels [] = []
labels (c ∷ rest) = if c == dot then [] ∷ labels rest else with_char c (labels rest)

-- The form of a name in a packet.
unfoldable pub wire : List (List ℕ) → List ℕ
wire [] = 0 ∷ []
wire (l ∷ ls) = (length l ∷ l) ++ wire ls

abbrev pub all_short : List (List ℕ) → Bool
all_short [] = true
all_short (l ∷ ls) = leb (length l) 63 && all_short ls

-- The first label and the labels of what is left of a name.
labels-first :
    (c : ℕ) (rest : List ℕ)
    → labels (c ∷ rest) ≡ label (c ∷ rest) ∷ labels (skip_dot (after_label (c ∷ rest)))
unfolding labels label after_label skip_dot
labels-first c [] = ground arith
labels-first c (d ∷ rest) = ground (arith, labels-first d rest)

length-skip : (c : ℕ) (rest : List ℕ) → length (skip_dot (after_label (c ∷ rest))) ≤ length rest
unfolding after_label skip_dot
length-skip c [] = ground arith
length-skip c (d ∷ rest) = ground (arith, length-skip d rest)

pub length-wire :
    (l : List ℕ) (ls : List (List ℕ)) → length (wire (l ∷ ls)) ≡ suc (length l) + length (wire ls)
unfolding wire
length-wire l ls = length-append (length l ∷ l) (wire ls)

pub wire-pos : (ls : List (List ℕ)) → 1 ≤ length (wire ls)
unfolding wire
wire-pos [] = omega arith
wire-pos (l ∷ ls) = omega arith

-- The encoded name, if every label is short and there is room.
abbrev pub encoded : List (List ℕ) → ℕ → Written
encoded ls space = if all_short ls && leb (length (wire ls)) space then written (wire ls) else error

encoded-first :
    (l : List ℕ) (ls : List (List ℕ)) (space : ℕ)
    → (if ltb 63 (length l)
        then error
        else if ltb space (length l + 1)
        then error
        else before (length l ∷ l) (encoded ls (space - (length l + 1))))
      ≡ encoded (l ∷ ls) space
unfolding wire
encoded-first l ls space = ground (arith, length-wire l ls, wire-pos ls)

loop-encoded :
    (fuel : ℕ) (src : List ℕ) (space : ℕ)
    → length src < fuel
    → dn_comp_loop fuel src space ≡ encoded (labels src) space
unfolding dn_comp_loop labels wire
loop-encoded zero src space h = elim h [ ]
loop-encoded (suc fuel) [] space h = ground arith
loop-encoded (suc fuel) (c ∷ rest) space h =
    let l = label (c ∷ rest) in
    let left = skip_dot (after_label (c ∷ rest)) in
    rw (loop-encoded fuel left (space - (length l + 1)) (omega (arith, length-skip c rest))) (
      encoded-first l (labels left) space ∙ ap (λ ls. encoded ls space) (sym (labels-first c rest)))

-- `dn_comp` succeeds just where no label of the name is longer than 63 and the encoding fits in
-- `space`, and then it writes the labels, each behind its length, and a 0 at the end; it never runs out
-- of its rounds.
pub dn_comp-encoded :
    (src : List ℕ) (space : ℕ)
    → dn_comp src space ≡ (
        if all_short (labels src) && leb (length (wire (labels src))) space
        then written (wire (labels src))
        else error)
unfolding dn_comp
dn_comp-encoded src space = loop-encoded (suc (length src)) src space (omega arith)
