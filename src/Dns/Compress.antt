-- ===== src/Dns/Compress.antt =====
-- `dn_comp` of src/helpers/resolver.c.
use clamav_win.Base.{
  ℕ, zero, suc, ◌+◌, ◌-◌, Bool, true, false, List, [], ◌∷◌, ◌++◌, ltb, ◌==◌, if◌then◌else◌, length,
}

abbrev pub dot : ℕ
dot = 46

-- The characters before the first dot or the end, and the rest from there.
unfoldable pub label : List ℕ → List ℕ
label [] = []
label (c ∷ rest) = if c == dot then [] else c ∷ label rest

unfoldable pub after_label : List ℕ → List ℕ
after_label [] = []
after_label (c ∷ rest) = if c == dot then c ∷ rest else after_label rest

-- `if (*src == '.') src++`.
unfoldable pub skip_dot : List ℕ → List ℕ
skip_dot [] = []
skip_dot (c ∷ rest) = if c == dot then rest else c ∷ rest

-- The bytes written, the error -1, or a loop that has not ended on its fuel.
pub data Written : Type 0 where
  written : List ℕ → Written
  error : Written
  stuck : Written

abbrev pub before : List ℕ → Written → Written
before bytes (written out) = written (bytes ++ out)
before bytes error = error
before bytes stuck = stuck

abbrev pub is_empty : List ℕ → Bool
is_empty [] = true
is_empty (c ∷ rest) = false

-- The loop and what follows it, for a name that is not a NULL pointer and `space` not negative.
unfoldable pub dn_comp_loop : ℕ → List ℕ → ℕ → Written
dn_comp_loop zero src space = stuck
dn_comp_loop (suc fuel) src space =
    let l = label src in
    let rest = dn_comp_loop fuel (skip_dot (after_label src)) (space - (length l + 1)) in
    if is_empty src
    then (if ltb space 1 then error else written (0 ∷ []))
    else if ltb 63 (length l)
    then error
    else if ltb space (length l + 1)
    then error
    else before (length l ∷ l) rest

-- `dn_comp`; each round takes a character at least.
unfoldable pub dn_comp : List ℕ → ℕ → Written
dn_comp src space = dn_comp_loop (suc (length src)) src space

-- What `dn_comp` has written to `dest` when it returns, -1 included.
unfoldable pub dn_comp_left : (fuel : ℕ) → List ℕ → (space : ℕ) → List ℕ
dn_comp_left zero src space = []
dn_comp_left (suc fuel) src space =
    let l = label src in
    let rest = dn_comp_left fuel (skip_dot (after_label src)) (space - (length l + 1)) in
    if is_empty src
    then (if ltb space 1 then [] else 0 ∷ [])
    else if ltb 63 (length l)
    then []
    else if ltb space (length l + 1)
    then []
    else length l ∷ (l ++ rest)
