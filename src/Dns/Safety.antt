-- ===== src/Dns/Safety.antt =====
-- `dn_expand` stays inside its two buffers.
use clamav_win.Base.{
  ℕ, zero, suc, ◌+◌, ◌-◌, ◌/◌, ◌≤◌, ◌<◌, ◌≡◌, ◌≢◌, inl, inr, refl, Option, none, some, List, [],
  ◌∷◌, ◌++◌, min, arith, leb, ◌==◌, if◌then◌else◌, length, get_elem?, get_elem?-lt, take, drop,
  length-append, length-take, Bool-cases, ◌||◌, ◌*◌, ◌%◌,
}
use clamav_win.Dns.Compress.{is_empty, dot}
use clamav_win.Dns.Expand.{
  Expanded, expanded, bad, fault, Cursor, Move, go, stop, len_or, follow, copy_label, expand_byte,
  expand_loop, start_at, dn_expand,
}

module _ (message : List ℕ) (start room : ℕ) where
  -- What is known of `len` at a position.
  abbrev LenFits : ℕ → Option ℕ → Type 0
  LenFits position none = start ≤ position
  LenFits position (some l) = start + l ≤ length message

  -- The invariant that the comment in the loop states, and the bound on `len`.
  record Inside (c : Cursor) : Type 0 where
    in_message : c.position < length message
    in_dest : length c.name < room
    len_fits : LenFits c.position c.len

  -- A result in bounds: the name with its NUL fits, and `len` bytes from the start are in the message.
  abbrev pub Fits : Expanded → Type 0
  Fits (expanded len name) = (length name < room) × (start + len ≤ length message)
  Fits bad = Unit
  Fits fault = ⊥

  abbrev Keeps : Move → Type 0
  Keeps (go c) = Inside c
  Keeps (stop r) = Fits r

  no_fault : (i : ℕ) (o : Option ℕ) → i < length message → get_elem? message i ≡ o → o ≢ none
  no_fault i o h e q = let (x, found) = get_elem?-lt message i h in cc

  len-fits :
      (p k : ℕ) (len : Option ℕ)
      → LenFits p len
      → p + k ≤ length message
      → start + len_or len (p + k - start) ≤ length message
  len-fits p k none h b = omega arith
  len-fits p k (some l) h b = h

  follow-Keeps :
      (c : Cursor) (b : ℕ)
      → Inside c
      → c.position + 1 < length message
      → (o : Option ℕ) → get_elem? message (c.position + 1) ≡ o
      → Keeps (follow (length message) start c b o)
  unfolding follow
  follow-Keeps c b inv next none e = absurd (no_fault (c.position + 1) none next e refl)
  follow-Keeps c b inv next (some low) e =
      elim (Bool-cases (leb (length message) (b % 64 * 256 + low))) [
        | inl t ↦ rw t tt
        | inr f ↦ rw f (record {
          in_message = ground arith;
          in_dest = inv.in_dest;
          len_fits = len-fits c.position 2 c.len inv.len_fits (omega arith);
        })
      ]

  LenFits-mono : (p q : ℕ) (len : Option ℕ) → p ≤ q → LenFits p len → LenFits q len
  LenFits-mono p q none h l = omega arith
  LenFits-mono p q (some n) h l = l

  copy-Keeps : (c : Cursor) (j : ℕ) → Inside c → Keeps (copy_label message room c j)
  unfolding copy_label
  copy-Keeps c j inv =
      let name : List ℕ = if is_empty c.name then c.name else c.name ++ dot ∷ [] in
      let p = c.position + 1 in
      elim (Bool-cases (leb (length message - p) j || leb (room - length name) j)) [
        | inl t ↦ rw t tt
        | inr f ↦ rw f (record {
          in_message = ground arith;
          in_dest =
              ground (
                arith,
                length-append name (take j (drop p message)),
                length-take j (drop p message),
              );
          len_fits = LenFits-mono c.position (p + j) c.len (omega arith) inv.len_fits;
        })
      ]

  expand_byte-Keeps :
      (c : Cursor)
      → Inside c
      → (o : Option ℕ) → get_elem? message c.position ≡ o
      → Keeps (expand_byte message start room c o)
  unfolding expand_byte
  expand_byte-Keeps c inv none e = absurd (no_fault c.position none inv.in_message e refl)
  expand_byte-Keeps c inv (some b) e = elim (Bool-cases (leb 64 b)) [
    | inl t ↦ rw t (elim (Bool-cases (c.position + 1 == length message)) [
      | inl last ↦ rw last tt
      | inr more ↦ rw more (
          follow-Keeps c b inv (ground (arith, inv.in_message)) (get_elem? message (c.position + 1))
            refl)
    ])
    | inr f ↦ rw f (elim (Bool-cases (b == 0)) [
      | inl z ↦
          rw z
            (inv.in_dest, len-fits c.position 1 c.len inv.len_fits (omega (arith, inv.in_message)))
      | inr n ↦ rw n (copy-Keeps c b inv)
    ])
  ]

  loop-Fits : (rounds : ℕ) (c : Cursor) → Inside c → Fits (expand_loop rounds message start room c)
  unfolding expand_loop
  loop-Fits zero c inv = tt
  loop-Fits (suc rounds) c inv =
      after (loop-Fits rounds) _ (expand_byte-Keeps c inv (get_elem? message c.position) refl)
    where
      after :
          ((c' : Cursor) → Inside c' → Fits (expand_loop rounds message start room c'))
          → (m : Move) → Keeps m
          → Fits (elim m [ go c' ↦ expand_loop rounds message start room c' | stop r ↦ r ])
      after rest (go c') k = rest c' k
      after rest (stop r) k = k

-- On a message with the start in it, `dn_expand` never reads outside of the message; a name that it
-- returns is shorter than `space` and than 254, so that its NUL fits, and the length that it
-- returns stays in the message.
pub dn_expand-Fits :
    (message : List ℕ) (start space : ℕ)
    → start ≤ length message
    → Fits message start (min 254 space) (dn_expand message start space)
unfolding dn_expand
dn_expand-Fits message start space h = elim (Bool-cases (start == length message || space == 0)) [
  | inl t ↦ rw t tt
  | inr f ↦ rw f (
      loop-Fits message start (min 254 space) ((length message + 1) / 2) (start_at start)
        (record { in_message = ground arith; in_dest = ground arith; len_fits = omega arith }))
]
