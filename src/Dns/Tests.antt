-- ===== src/Dns/Tests.antt =====
-- Instances of the theorems on src/helpers/resolver.c.
use clamav_win.Base.{
  ℕ, ◌≡◌, refl, ◌&&◌, List, [], ◌∷◌, ◌++◌, arith, replicate, min, length, leb, if◌then◌else◌,
}
use clamav_win.Dns.Compress.{label, after_label, skip_dot, written, error, dn_comp_loop, dn_comp}
use clamav_win.Dns.Labels.{labels, wire, all_short, dn_comp-encoded}
use clamav_win.Dns.Expand.{expanded, dn_expand}
use clamav_win.Dns.Safety.{Fits, dn_expand-Fits}
use clamav_win.Dns.RoundTrip.{dn_comp-dn_expand}
use clamav_win.Dns.Query.{DnsRecord, question, make_reply}
use clamav_win.Dns.Query.Question.{question-dn_comp}

-- ab.c
abbrev name : List ℕ
name = 97 ∷ 98 ∷ 46 ∷ 99 ∷ []

abbrev encoded_name : List ℕ
encoded_name = 2 ∷ 97 ∷ 98 ∷ 1 ∷ 99 ∷ 0 ∷ []

dn_comp_name : dn_comp name 10 ≡ written encoded_name
unfolding dn_comp dn_comp_loop label after_label skip_dot
dn_comp_name = refl

dn_comp-encoded_example : dn_comp name 10 ≡ (
    if all_short (labels name) && leb (length (wire (labels name))) 10
    then written (wire (labels name))
    else error)
dn_comp-encoded_example = dn_comp-encoded name 10

-- A message with a pointer at 7 to the name at 1.
abbrev message : List ℕ
message = 9 ∷ 2 ∷ 97 ∷ 98 ∷ 1 ∷ 99 ∷ 0 ∷ 192 ∷ 1 ∷ []

dn_expand-Fits_example : Fits message 7 (min 254 20) (dn_expand message 7 20)
dn_expand-Fits_example = dn_expand-Fits message 7 20 (omega arith)

dn_comp-dn_expand_example :
    dn_expand ((9 ∷ []) ++ (encoded_name ++ (192 ∷ 1 ∷ []))) 1 20 ≡ expanded 6 name
unfolding labels
dn_comp-dn_expand_example =
    dn_comp-dn_expand name encoded_name (9 ∷ []) (192 ∷ 1 ∷ []) 10 20 dn_comp_name refl refl
      (omega arith)

question-dn_comp_example : question name ≡ encoded_name
question-dn_comp_example = question-dn_comp 97 (98 ∷ 46 ∷ 99 ∷ []) encoded_name 10 refl dn_comp_name

abbrev buffer : List ℕ
buffer = replicate 64 7

abbrev records : List DnsRecord
records =
    record { rtype = 5; ttl = 0; text = [] }
    ∷ record { rtype = 16; ttl = 300; text = 48 ∷ 46 ∷ 49 ∷ [] }
    ∷ []

abbrev reply : List ℕ
reply = (make_reply buffer name 16 1 records).bytes
