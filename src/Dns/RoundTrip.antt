-- ===== src/Dns/RoundTrip.antt =====
-- `dn_expand` reads back what `dn_comp` writes.
use clamav_win.Base.{
  ℕ, zero, suc, ◌+◌, ◌-◌, ◌/◌, ◌≤◌, ◌<◌, ◌≡◌, refl, sym, ap, ◌∙◌, true, false, Option, none, some,
  List, [], ◌∷◌, ◌++◌, min, arith, if◌then◌else◌, length, get_elem?, take, drop, length-append,
  subst,
}
use native.Mathlib.Numerals.{add-one}
use clamav_win.Dns.Compress.{is_empty, dot, written, dn_comp}
use clamav_win.Dns.Labels.{labels, wire, all_short, wire-pos, dn_comp-encoded}
use clamav_win.Dns.Expand.{
  Expanded, expanded, Cursor, Move, go, stop, len_or, copy_label, expand_byte, expand_loop,
  dn_expand,
}
use clamav_win.Dns.Names.{
  with_label, joined, AllLabels, append_assoc, joined-labels, two_bytes, all_full,
  AllLabels-all_full, ends_dot,
}

get_elem?-append : (xs ys : List ℕ) → get_elem? (xs ++ ys) (length xs) ≡ get_elem? ys 0
get_elem?-append [] ys = refl
get_elem?-append (x ∷ xs) ys = get_elem?-append xs ys

drop-append : (xs ys : List ℕ) → drop (length xs) (xs ++ ys) ≡ ys
drop-append [] ys = refl
drop-append (x ∷ xs) ys = drop-append xs ys

drop-after : (pre : List ℕ) (x : ℕ) (ys : List ℕ) → drop (length pre + 1) (pre ++ (x ∷ ys)) ≡ ys
drop-after [] x ys = refl
drop-after (p ∷ pre) x ys = simp add-one (simp add-one at (drop-after pre x ys))

append_snoc :
    (pre : List ℕ) (x : ℕ) (ys zs : List ℕ) → pre ++ (x ∷ (ys ++ zs)) ≡ (pre ++ (x ∷ ys)) ++ zs
append_snoc [] x ys zs = refl
append_snoc (p ∷ pre) x ys zs = ap (◌∷◌ p) (append_snoc pre x ys zs)

label_room :
    (name l : List ℕ) (room : ℕ)
    → length (with_label name l) < room
    → length (if is_empty name then name else name ++ dot ∷ []) + length l < room
label_room name l room h =
    omega (arith, length-append (if is_empty name then name else name ++ dot ∷ []) l)

cursor_eq :
    {p q : ℕ} {a b : List ℕ} {len : Option ℕ}
    → p ≡ q
    → a ≡ b
    → ◌≡◌ {A = Move}
        (go (record { position = p; name = a; len = len }))
        (go (record { position = q; name = b; len = len }))
cursor_eq {len} e f = λ i. go (record { position = e i; name = f i; len = len })

take-append : (xs ys : List ℕ) → take (length xs) (xs ++ ys) ≡ xs
take-append [] ys = refl
take-append (x ∷ xs) ys = ap (◌∷◌ x) (take-append xs ys)

length-joined : (name : List ℕ) (ls : List (List ℕ)) → length name ≤ length (joined name ls)
length-joined name [] = omega arith
length-joined name (l ∷ ls) = ground (
  arith,
  length-joined (with_label name l) ls,
  length-append name l,
  length-append (name ++ dot ∷ []) l,
  length-append name (dot ∷ []),
)

module _ (message : List ℕ) (start room : ℕ) where
  -- A label that is there and fits is copied.
  copy_label-go :
      (c : Cursor) (j : ℕ)
      → c.position + 1 + j < length message
      → length (if is_empty c.name then c.name else c.name ++ dot ∷ []) + j < room
      → copy_label message room c j
        ≡ go (record {
          position = c.position + 1 + j;
          name = with_label c.name (take j (drop (c.position + 1) message));
          len = c.len;
        })
  unfolding copy_label
  copy_label-go c j inside fits = ground arith

  expand-label :
      (c : Cursor) (j : ℕ)
      → 1 ≤ j
      → j ≤ 63
      → expand_byte message start room c (some j) ≡ copy_label message room c j
  unfolding expand_byte
  expand-label c j lo hi = ground arith

  expand-end :
      (c : Cursor)
      → expand_byte message start room c (some 0)
        ≡ stop (expanded (len_or c.len (c.position + 1 - start)) c.name)
  unfolding expand_byte
  expand-end c = refl

  loop-stop :
      (rounds : ℕ) (c : Cursor) (b : ℕ) (r : Expanded)
      → get_elem? message c.position ≡ some b
      → expand_byte message start room c (some b) ≡ stop r
      → expand_loop (suc rounds) message start room c ≡ r
  unfolding expand_loop
  loop-stop rounds c b r at_b e =
      let e' = subst (λ (o : Option ℕ). expand_byte message start room c o ≡ stop r) (sym at_b) e in
      ground (arith, e')

  pub loop-go :
      (rounds : ℕ) (c : Cursor) (b : ℕ) (c' : Cursor)
      → get_elem? message c.position ≡ some b
      → expand_byte message start room c (some b) ≡ go c'
      → expand_loop (suc rounds) message start room c ≡ expand_loop rounds message start room c'
  unfolding expand_loop
  loop-go rounds c b c' at_b e =
      let e' = subst (λ (o : Option ℕ). expand_byte message start room c o ≡ go c') (sym at_b) e in
      ground (arith, e')

  -- The cursor behind one label of the message.
  label-step :
      (pre l rest name : List ℕ) (len : Option ℕ)
      → 1 ≤ length l
      → length l ≤ 63
      → 1 ≤ length rest
      → message ≡ pre ++ (length l ∷ (l ++ rest))
      → length (with_label name l) < room
      → expand_byte message start room
          (record { position = length pre; name = name; len = len })
          (some (length l))
        ≡ go (record {
          position = length (pre ++ (length l ∷ l));
          name = with_label name l;
          len = len;
        })
  label-step pre l rest name len lo hi more e fits =
      let after : drop (length pre + 1) message ≡ l ++ rest =
        rw e (drop-after pre (length l) (l ++ rest)) in
      let taken : take (length l) (drop (length pre + 1) message) ≡ l =
        rw after (take-append l rest) in
      let size : length message ≡ length pre + suc (length l + length rest) =
        rw e (omega (arith, length-append pre (length l ∷ (l ++ rest)), length-append l rest)) in
      let c : Cursor = record { position = length pre; name = name; len = len } in
      expand-label c (length l) lo hi
      ∙ copy_label-go c (length l) (omega (arith, size, more)) (label_room name l room fits)
      ∙ cursor_eq (omega (arith, length-append pre (length l ∷ l))) (ap (with_label name) taken)

  -- The rest of a name behind `pre`.
  pub expand_loop-wire :
      (ls : List (List ℕ)) (rounds : ℕ) (pre post name : List ℕ) (len : Option ℕ)
      → AllLabels ls
      → length ls < rounds
      → message ≡ pre ++ (wire ls ++ post)
      → length (joined name ls) < room
      → expand_loop rounds message start room
          (record { position = length pre; name = name; len = len })
        ≡ expanded (len_or len (length pre + length (wire ls) - start)) (joined name ls)
  unfolding wire
  expand_loop-wire ls zero pre post name len ok h e fits = elim h [ ]
  expand_loop-wire [] (suc rounds) pre post name len ok h e fits =
      loop-stop rounds _ 0 _ (rw e (get_elem?-append pre _)) (expand-end _)
  expand_loop-wire (l ∷ ls) (suc rounds) pre post name len (lo, hi, ok) h e fits =
      let e' : message ≡ pre ++ (length l ∷ (l ++ (wire ls ++ post))) =
        e ∙ ap (λ t. pre ++ (length l ∷ t)) (append_assoc l (wire ls) post) in
      let fit : length (with_label name l) < room =
        omega (arith, length-joined (with_label name l) ls) in
      loop-go rounds _ (length l) _ (rw e' (get_elem?-append pre _)) (
        label-step pre l (wire ls ++ post) name len lo hi
          (omega (arith, wire-pos ls, length-append (wire ls) post)) e' fit)
      ∙ expand_loop-wire ls rounds (pre ++ (length l ∷ l)) post (with_label name l) len ok
          (omega arith) (e' ∙ append_snoc pre (length l) l (wire ls ++ post)) fits
      ∙ ap (λ n. expanded (len_or len (n - start)) (joined (with_label name l) ls))
          (omega (arith, length-append pre (length l ∷ l), length-append l (wire ls)))

expanded_eq :
    {m n : ℕ} {a b : List ℕ} → m ≡ n → a ≡ b → ◌≡◌ {A = Expanded} (expanded m a) (expanded n b)
expanded_eq e f = λ i. expanded (e i) (f i)

-- The message of a name that stands behind `pre` and before `post`.
pub expand-wire :
    (src pre post : List ℕ) (space : ℕ)
    → AllLabels (labels src)
    → ends_dot src ≡ false
    → length src < min 254 space
    → dn_expand (pre ++ (wire (labels src) ++ post)) (length pre) space
      ≡ expanded (length (wire (labels src))) src
unfolding dn_expand
expand-wire src pre post space ok plain fits =
    let ls = labels src in
    let message = pre ++ (wire ls ++ post) in
    let size : length message ≡ length pre + (length (wire ls) + length post) =
      omega (arith, length-append pre (wire ls ++ post), length-append (wire ls) post) in
    let name : joined [] ls ≡ src = joined-labels src ok plain in
    let loop =
      expand_loop-wire message (length pre) (min 254 space) ls ((length message + 1) / 2) pre post
        [] none ok (omega (arith, size, two_bytes ls ok)) refl (rw name fits) in
    let back : length pre + length (wire ls) - length pre ≡ length (wire ls) = omega arith in
    let value = expanded_eq back name in ground (arith, size, wire-pos ls, loop, value)

pub written-wire :
    (src bytes : List ℕ) (room : ℕ)
    → dn_comp src room ≡ written bytes
    → (wire (labels src) ≡ bytes) × (all_short (labels src) ≡ true)
written-wire src bytes room e = ground (arith, dn_comp-encoded src room)

-- What `dn_comp` writes for a name with no empty label and no dot at its end, `dn_expand` reads back from
-- any place of a message, as the same name and with the length written, if the name and its end fit in
-- both the caller's space and the 254 bytes that `dn_expand` uses of it.
pub dn_comp-dn_expand :
    (src bytes pre post : List ℕ) (room space : ℕ)
    → dn_comp src room ≡ written bytes
    → all_full (labels src) ≡ true
    → ends_dot src ≡ false
    → length src < min 254 space
    → dn_expand (pre ++ (bytes ++ post)) (length pre) space ≡ expanded (length bytes) src
dn_comp-dn_expand src bytes pre post room space e full plain fits =
    let parts = written-wire src bytes room e in
    let ok = AllLabels-all_full (labels src) full parts.1 in
    subst
      (λ (b : List ℕ). dn_expand (pre ++ (b ++ post)) (length pre) space ≡ expanded (length b) src)
      parts.0 (expand-wire src pre post space ok plain fits)
