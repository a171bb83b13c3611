-- ===== src/Dns/Query.antt =====
-- `res_query` of src/helpers/resolver.c and its two resolvers. The calls of Windows, and what the
-- network answers, are parameters.
pub mod Question
pub mod Reply
pub mod Readable
use Prim.Native.String.{String}
use clamav_win.Base.{
  ℕ, suc, ◌+◌, ◌-◌, ◌*◌, ◌/◌, ◌%◌, Bool, ◌&&◌, Option, none, some, List, [], ◌∷◌, ◌++◌, ltb, leb,
  ◌==◌, if◌then◌else◌, length, get_elem?, get_or, take, drop,
}
use clamav_win.Dns.Compress.{dot, Written, written, error, stuck, dn_comp, dn_comp_left}

-- A REG_SZ value or another one; `size` is `datalen`.
pub record RegValue : Type 0 where
  pub size : ℕ
  pub is_string : Bool
  pub text : List ℕ

-- Up to the first space.
abbrev pub before_space : List ℕ → List ℕ
before_space [] = []
before_space (c ∷ rest) = if c == 32 then [] else c ∷ before_space rest

abbrev pub usable : Option RegValue → Option (List ℕ)
usable none = none
usable (some v) = if ltb 1 v.size && v.is_string then some (before_space v.text) else none

abbrev pub if_address : (is_address : List ℕ → Bool) → List ℕ → Option (List ℕ)
if_address is_address text = if is_address text then some text else none

abbrev pub first_usable :
    (query : String → Option RegValue)
    → (is_address : List ℕ → Bool) → List String
    → Option (List ℕ)
first_usable query is_address [] = none
first_usable query is_address (key ∷ keys) =
    let later = first_usable query is_address keys in
    elim (usable (query key)) [ none ↦ later | some text ↦ if_address is_address text ]

-- `get_dns_fromreg`; `is_address` says that `inet_addr` does not return INADDR_NONE.
unfoldable pub get_dns_fromreg :
    (opened : Bool)
    → (query : String → Option RegValue) → (is_address : List ℕ → Bool) → Option (List ℕ)
get_dns_fromreg opened query is_address =
    if opened
    then first_usable query is_address ("ClamWinNameServer" ∷ "NameServer" ∷ "DhcpNameServer" ∷ [])
    else none

-- What the first call of GetNetworkParams returns.
pub data NetStatus : Type 0 where
  no_error buffer_overflow not_supported other_error : NetStatus

-- `get_dns`; `second` is the primary server that the second call gives, if it succeeds.
unfoldable pub get_dns : NetStatus → (second from_registry : Option (List ℕ)) → Option (List ℕ)
get_dns no_error second from_registry = second
get_dns buffer_overflow second from_registry = second
get_dns not_supported second from_registry = from_registry
get_dns other_error second from_registry = none

-- `rcode_to_string`.
unfoldable pub rcode_to_string : ℕ → String
rcode_to_string rcode =
    get_or
      ("No error" ∷ "Format error" ∷ "Server failure" ∷ "Non-Existent Domain" ∷ "Not Implemented"
        ∷ "Query Refused" ∷ "Name Exists when it should not" ∷ "RR Set Exists when it should not"
        ∷ "RR Set that should exist does not" ∷ "Server Not Authoritative for zone"
        ∷ "Name not contained in zone" ∷ "DSO-TYPE Not Implemented" ∷ [])
      rcode "Unassigned"

abbrev pub be16 : ℕ → List ℕ
be16 n = (n / 256 % 256) ∷ (n % 256) ∷ []

abbrev pub be32 : ℕ → List ℕ
be32 n = (n / 16777216 % 256) ∷ (n / 65536 % 256) ∷ (n / 256 % 256) ∷ (n % 256) ∷ []

-- The loop of `res_query_compat` over the name from its end: the characters since the last dot that it
-- met, and the bytes that it has written.
unfoldable pub string_ize : List ℕ → ℕ × List ℕ
string_ize [] = (0, 0 ∷ [])
string_ize (c ∷ rest) =
    let (n, bytes) = string_ize rest in
    if c == dot then (0, n % 256 ∷ bytes) else (n + 1, c ∷ bytes)

abbrev pub with_length : ℕ × List ℕ → List ℕ
with_length (n, bytes) = n % 256 ∷ bytes

unfoldable pub question : List ℕ → List ℕ
unfolding string_ize
question dname = with_length (string_ize dname)

-- The packet that `res_query_compat` sends.
unfoldable pub query_packet : (id : ℕ) → List ℕ → List ℕ
unfolding question
query_packet id dname =
    be16 id
    ++ ((1 ∷ 0 ∷ 0 ∷ 1 ∷ 0 ∷ 0 ∷ 0 ∷ 0 ∷ 0 ∷ 0 ∷ []) ++ (question dname ++ (be16 16 ++ be16 1)))

abbrev pub header_size : ℕ
header_size = 12

-- What `res_query_compat` does with a packet that it received: its length, or none for -1.
unfoldable pub check_reply : (id : ℕ) → List ℕ → Option ℕ
check_reply id answer =
    let byte = get_or answer in
    if ltb (length answer) header_size
    then none
    else if byte 0 0 * 256 + byte 1 0 == id
    then (if byte 2 0 / 128 % 2 == 0
        then none
        else if byte 3 0 % 16 == 0
        then (if ltb (byte 6 0 * 256 + byte 7 0) 1 then none else some (length answer))
        else none)
    else none

-- The calls of `res_query_compat`: whether `gethostbyname`, `socket` and `sendto` succeed, and the
-- packet of `recvfrom`.
pub record Network : Type 0 where
  pub resolves : Bool
  pub has_socket : Bool
  pub sends : List ℕ → Bool
  pub receives : Option (List ℕ)

abbrev pub checked : ℕ → Option (List ℕ) → Option (List ℕ × ℕ)
checked id none = none
checked id (some answer) = elim (check_reply id answer) [ none ↦ none | some n ↦ some (answer, n) ]

abbrev pub ask : Network → (id : ℕ) → List ℕ → Option (List ℕ) → Option (List ℕ × ℕ)
ask net id dname none = none
ask net id dname (some nameserver) =
    if net.resolves && (net.has_socket && net.sends (query_packet id dname))
    then checked id net.receives
    else none

-- `res_query_compat`: the packet and the result, or none for -1.
unfoldable pub res_query_compat :
    Network → (nameserver : Option (List ℕ)) → (id : ℕ) → List ℕ → Option (List ℕ × ℕ)
unfolding check_reply query_packet
res_query_compat net nameserver id dname = ask net id dname nameserver

-- A DNS_RECORD: its type, and `pStringArray[0]` of a TXT record.
pub record DnsRecord : Type 0 where
  pub rtype : ℕ
  pub ttl : ℕ
  pub text : List ℕ

-- The bytes that `res_query_dnsapi` has written, and whether it returns their number or -1.
pub record Response : Type 0 where
  pub succeeded : Bool
  pub bytes : List ℕ

-- The header; the bits `cd` and `ad` and the last two counts keep what the buffer held.
unfoldable pub reply_header : (old : List ℕ) → (answers : ℕ) → List ℕ
reply_header old answers =
    (1 ∷ 0 ∷ 129 ∷ (128 + get_or old 3 0 / 16 % 4 * 16) ∷ be16 1)
    ++ (be16 answers ++ (get_or old 8 0 ∷ get_or old 9 0 ∷ get_or old 10 0 ∷ get_or old 11 0 ∷ []))

abbrev pub give_up : List ℕ → Response
give_up bytes = record { succeeded = Bool.false; bytes = bytes }

-- The resource record behind `bytes`.
unfoldable pub answer_record : (anslen type class : ℕ) → DnsRecord → List ℕ → Response
answer_record anslen type class rr bytes =
    let offset = length bytes in
    let name : List ℕ = bytes ++ (192 ∷ header_size ∷ []) in
    let fixed : List ℕ = name ++ (be16 type ++ (be16 class ++ be32 rr.ttl)) in
    let txtlen = length rr.text in
    let rdata_len = txtlen + 1 in
    if ltb anslen (offset + 2)
    then give_up bytes
    else if ltb anslen (offset + 2 + 10)
    then give_up name
    else if ltb anslen (offset + 2 + 10 + 2 + rdata_len)
    then give_up fixed
    else record {
      succeeded = Bool.true;
      bytes = fixed ++ (be16 rdata_len ++ (txtlen % 256 ∷ rr.text));
    }

-- The loop over the records; `body` is what stands behind the header.
unfoldable pub answer_records :
    (old : List ℕ) → (anslen type class : ℕ) → (body : List ℕ) → List DnsRecord → Response
unfolding answer_record reply_header
answer_records old anslen type class body [] = give_up (reply_header old 0 ++ body)
answer_records old anslen type class body (rr ∷ rest) =
    if rr.rtype == type % 65536
    then answer_record anslen type class rr (reply_header old 1 ++ body)
    else answer_records old anslen type class body rest

-- From the result of `dn_comp` on; `left` is what it has written if it fails.
unfoldable pub after_question :
    (old : List ℕ) → (anslen type class : ℕ) → List DnsRecord → (left : List ℕ) → Written → Response
unfolding answer_records
after_question old anslen type class records left (written name) =
    if ltb anslen (header_size + length name + 4)
    then give_up (reply_header old 0 ++ name)
    else answer_records old anslen type class (name ++ (be16 type ++ be16 class)) records
after_question old anslen type class records left error = give_up (reply_header old 0 ++ left)
after_question old anslen type class records left stuck = give_up (reply_header old 0 ++ left)

-- `res_query_dnsapi` on a buffer that holds `old`, where DnsQuery_A succeeds with `records`.
unfoldable pub make_reply : (old : List ℕ) → List ℕ → (type class : ℕ) → List DnsRecord → Response
unfolding after_question
make_reply old dname type class records =
    let anslen = length old in
    if leb anslen header_size
    then give_up []
    else after_question old anslen type class records
        (dn_comp_left (suc (length dname)) dname (anslen - header_size))
        (dn_comp dname (anslen - header_size))

abbrev pub response_of : Response → Option (List ℕ × ℕ)
response_of r = if r.succeeded then some (r.bytes, length r.bytes) else none

-- `res_query_dnsapi`; `records` is none where DnsQuery_A fails, and `compat` the result of the fallback.
unfoldable pub res_query_dnsapi :
    (old dname : List ℕ)
    → (type class : ℕ) → (compat : Option (List ℕ × ℕ)) → Option (List DnsRecord)
    → Option (List ℕ × ℕ)
unfolding make_reply
res_query_dnsapi old dname type class compat none =
    if leb (length old) header_size then none else compat
res_query_dnsapi old dname type class compat (some records) =
    response_of (make_reply old dname type class records)

-- `res_query`: `has_dnsapi` says that both functions of dnsapi.dll were found, and `records` is none
-- where DnsQuery_A fails; `compat` is the result of `res_query_compat`.
unfoldable pub res_query :
    (has_dnsapi : Bool)
    → (old dname : List ℕ) → (type class : ℕ) → (records : Option (List DnsRecord))
    → (compat : Option (List ℕ × ℕ)) → Option (List ℕ × ℕ)
unfolding res_query_dnsapi
res_query has_dnsapi old dname type class records compat =
    if has_dnsapi then res_query_dnsapi old dname type class compat records else compat
