-- ===== src/Dns/Expand.antt =====
-- `dn_expand` of src/helpers/resolver.c, on a message from `base` to `end` and an offset in it.
use clamav_win.Base.{
  ℕ, zero, suc, ◌+◌, ◌-◌, ◌*◌, ◌/◌, ◌%◌, Option, none, some, List, [], ◌∷◌, ◌++◌, min, ◌||◌, leb,
  ◌==◌, if◌then◌else◌, length, get_elem?, take, drop,
}
use clamav_win.Dns.Compress.{dot, is_empty}

-- The length in the message and the name, the error -1, or a read outside of the message.
pub data Expanded : Type 0 where
  expanded : (len : ℕ) → (name : List ℕ) → Expanded
  bad : Expanded
  fault : Expanded

-- The variables of the loop: `p` as an offset, what is written to `dest`, and `len` once it is set.
pub record Cursor : Type 0 where
  pub position : ℕ
  pub name : List ℕ
  pub len : Option ℕ

pub data Move : Type 0 where
  go : Cursor → Move
  stop : Expanded → Move

abbrev pub len_or : Option ℕ → ℕ → ℕ
len_or none n = n
len_or (some l) n = l

-- A pointer: its first byte is `b`, and `size` is the length of the message.
unfoldable pub follow : (size start : ℕ) → Cursor → ℕ → Option ℕ → Move
follow size start c b none = stop fault
follow size start c b (some low) =
    let j = b % 64 * 256 + low in
    if leb size j
    then stop bad
    else go
        (record { position = j; name = c.name; len = some (len_or c.len (c.position + 2 - start)) })

-- A label of `j` bytes. `room` is `dend - dest` at the start.
unfoldable pub copy_label : (message : List ℕ) → (room : ℕ) → Cursor → ℕ → Move
copy_label message room c j =
    let name = if is_empty c.name then c.name else c.name ++ dot ∷ [] in
    let p = c.position + 1 in
    if leb (length message - p) j || leb (room - length name) j
    then stop bad
    else go (record { position = p + j; name = name ++ take j (drop p message); len = c.len })

-- One round; `b & 0xc0` is not 0 for the bytes from 64 on.
unfoldable pub expand_byte : (message : List ℕ) → (start room : ℕ) → Cursor → Option ℕ → Move
unfolding follow copy_label
expand_byte message start room c none = stop fault
expand_byte message start room c (some b) =
    if leb 64 b
    then (if c.position + 1 == length message
        then stop bad
        else follow (length message) start c b (get_elem? message (c.position + 1)))
    else if b == 0
    then stop (expanded (len_or c.len (c.position + 1 - start)) c.name)
    else copy_label message room c b

-- The loop, with the rounds left: its counter goes up by 2 until the size of the message.
unfoldable pub expand_loop : ℕ → (message : List ℕ) → (start room : ℕ) → Cursor → Expanded
expand_loop zero message start room c = bad
expand_loop (suc rounds) message start room c =
    elim (expand_byte message start room c (get_elem? message c.position)) [
      | go c' ↦ expand_loop rounds message start room c'
      | stop r ↦ r
    ]

abbrev pub start_at : ℕ → Cursor
start_at start = record { position = start; name = []; len = none }

-- `dn_expand`; a `space` that is not positive is 0 here.
unfoldable pub dn_expand : (message : List ℕ) → (start space : ℕ) → Expanded
dn_expand message start space =
    if start == length message || space == 0
    then bad
    else expand_loop ((length message + 1) / 2) message start (min 254 space) (start_at start)
