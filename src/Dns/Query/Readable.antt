-- ===== src/Dns/Query/Readable.antt =====
-- The response that `res_query_dnsapi` of src/helpers/resolver.c makes up can be read back.
use clamav_win.Base.{ℕ, ◌+◌, ◌-◌, ◌≡◌, true, some, List, ◌∷◌, ◌++◌, length}
use clamav_win.Dns.Compress.{written, dn_comp}
use clamav_win.Dns.Labels.{labels, wire}
use clamav_win.Dns.Expand.{expanded, dn_expand}
use clamav_win.Dns.Query.{be16, header_size, Response, reply_header, check_reply}

-- A returned response goes on behind `front` with a pointer to the question.
abbrev pub Points : List ℕ → Response → Type 0
Points front r = r.succeeded ≡ true → (post : List ℕ) × (r.bytes ≡ front ++ (192 ∷ 12 ∷ post))

-- How a response that is returned is made up.
abbrev Built : (old dname : List ℕ) → (type class : ℕ) → Response → Type 0
Built old dname type class r =
    r.succeeded ≡ true
    → (name : List ℕ) × (post : List ℕ) × (dn_comp dname (length old - header_size) ≡ written name)
      × (r.bytes ≡ (reply_header old 1 ++ (name ++ (be16 type ++ be16 class))) ++ (192 ∷ 12 ∷ post))

-- The three readings of a message of that form.
abbrev Readable : (dname bytes : List ℕ) → Type 0
Readable dname bytes =
    let size = length (wire (labels dname)) in
    (dn_expand bytes 12 254 ≡ expanded size dname)
    × (dn_expand bytes (12 + (size + 4)) 254 ≡ expanded 2 dname)
    × (check_reply 256 bytes ≡ some (length bytes))

module _ (old dname : List ℕ) (type class : ℕ) (post : List ℕ) where
  abbrev message : List ℕ
  message =
      reply_header old 1
      ++ (wire (labels dname) ++ ((be16 type ++ be16 class) ++ (192 ∷ 12 ∷ post)))
