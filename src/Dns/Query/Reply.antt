-- ===== src/Dns/Query/Reply.antt =====
-- The bounds of the response that `res_query_dnsapi` of src/helpers/resolver.c makes up.
use clamav_win.Base.{ℕ, ◌≡◌, refl, List, length}
use clamav_win.Dns.Query.{reply_header}

pub length-reply_header : (old : List ℕ) (n : ℕ) → length (reply_header old n) ≡ 12
unfolding reply_header
length-reply_header old n = refl
