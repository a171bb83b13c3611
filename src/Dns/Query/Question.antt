-- ===== src/Dns/Query/Question.antt =====
-- The question of `res_query_compat` of src/helpers/resolver.c against the encoding of `dn_comp`.
use clamav_win.Base.{
  ◌⊎◌, ℕ, ◌+◌, ◌%◌, ◌≡◌, refl, ap, ◌∙◌, true, false, Bool-cases, inl, inr, List, [], ◌∷◌, ◌++◌,
  arith, ◌==◌, length, leb,
}
use clamav_win.Dns.Compress.{dot, written, dn_comp}
use clamav_win.Dns.Labels.{labels, with_char, wire, all_short}
use clamav_win.Dns.RoundTrip.{written-wire}
use clamav_win.Dns.Names.{ends_dot}
use clamav_win.Dns.Query.{string_ize, with_length, question}

-- The labels of a name that is read from its end.
abbrev FirstLabel : List (List ℕ) → ℕ × List ℕ → Type 0
FirstLabel [] r = ⊥
FirstLabel (l ∷ ls) r = (r.0 ≡ length l) × (r.1 ≡ l ++ wire ls)

at_dot :
    (ls : List (List ℕ)) (r : ℕ × List ℕ)
    → all_short ls ≡ true
    → FirstLabel ls r
    → FirstLabel ([] ∷ ls) (0, r.0 % 256 ∷ r.1)
unfolding wire
at_dot [] r short h = elim h [ ]
at_dot (l ∷ ls) r short h =
    let first : leb (length l) 63 ≡ true = ground arith in
    let n : r.0 % 256 ≡ length l = ground (arith, first, h.0) in (refl, λ i. n i ∷ h.1 i)

at_char :
    (c : ℕ) (ls : List (List ℕ)) (r : ℕ × List ℕ)
    → FirstLabel ls r
    → FirstLabel (with_char c ls) (r.0 + 1, c ∷ r.1)
at_char c [] r h = elim h [ ]
at_char c (l ∷ ls) r h = (omega (arith, h.0), ap (◌∷◌ c) h.1)

short-rest : (c : ℕ) (ls : List (List ℕ)) → all_short (with_char c ls) ≡ true → all_short ls ≡ true
short-rest c [] h = refl
short-rest c (l ∷ ls) h = ground arith

string_ize-FirstLabel :
    (c : ℕ) (rest : List ℕ)
    → ends_dot (c ∷ rest) ≡ false
    → all_short (labels (c ∷ rest)) ≡ true
    → FirstLabel (labels (c ∷ rest)) (string_ize (c ∷ rest))
unfolding string_ize labels wire
string_ize-FirstLabel c [] plain short = rw plain (refl, refl)
string_ize-FirstLabel c (d ∷ rest) plain short =
    step (string_ize-FirstLabel d rest plain) (Bool-cases (c == dot))
  where
    step :
        (all_short (labels (d ∷ rest)) ≡ true
          → FirstLabel (labels (d ∷ rest)) (string_ize (d ∷ rest)))
        → ((c == dot) ≡ true) ⊎ ((c == dot) ≡ false)
        → FirstLabel (labels (c ∷ d ∷ rest)) (string_ize (c ∷ d ∷ rest))
    step later (inl e) =
        let s : all_short (labels (d ∷ rest)) ≡ true = ground (arith, short, e) in
        rw e (at_dot (labels (d ∷ rest)) (string_ize (d ∷ rest)) s (later s))
    step later (inr e) =
        let s : all_short (labels (d ∷ rest)) ≡ true =
          short-rest c (labels (d ∷ rest)) (ground (arith, short, e)) in
        rw e (at_char c (labels (d ∷ rest)) (string_ize (d ∷ rest)) (later s))

FirstLabel-wire :
    (ls : List (List ℕ)) (r : ℕ × List ℕ)
    → all_short ls ≡ true
    → FirstLabel ls r
    → with_length r ≡ wire ls
unfolding wire
FirstLabel-wire [] r short h = elim h [ ]
FirstLabel-wire (l ∷ ls) r short h =
    let first : leb (length l) 63 ≡ true = ground arith in
    let n : r.0 % 256 ≡ length l = ground (arith, first, h.0) in λ i. n i ∷ h.1 i

-- For a name that is not empty and does not end with a dot, the loop of `res_query_compat`, which goes
-- over the name from its end, writes the very bytes that `dn_comp` writes, wherever `dn_comp`
-- accepts the name.
pub question-dn_comp :
    (c : ℕ) (rest bytes : List ℕ) (room : ℕ)
    → ends_dot (c ∷ rest) ≡ false
    → dn_comp (c ∷ rest) room ≡ written bytes
    → question (c ∷ rest) ≡ bytes
unfolding question
question-dn_comp c rest bytes room plain e =
    let (same, short) = written-wire (c ∷ rest) bytes room e in
    FirstLabel-wire (labels (c ∷ rest)) (string_ize (c ∷ rest)) short
      (string_ize-FirstLabel c rest plain short)
    ∙ same
