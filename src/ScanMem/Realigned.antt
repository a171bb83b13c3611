-- ===== src/ScanMem/Realigned.antt =====
-- What align_pe of src/common/scanmem.c changes in memory.
use clamav_win.Base.{
  ℕ, zero, suc, ◌+◌, ◌-◌, ◌*◌, ◌≤◌, ◌<◌, ◌≡◌, ◌⊎◌, inl, inr, refl, ap, ◌∙◌, Bool, true, false, not,
  ◌&&◌, if◌then◌else◌, arith, Bool-cases, ltb, leb, ◌==◌,
}
use clamav_win.ScanMem.Align.{
  Memory, word_at, dword_at, section_size, copy_dword, align_header, Aligned, align_sections,
  align_headers, align_image, align_offset, align_pe,
}

-- A byte of SizeOfRawData or PointerToRawData of the header at `s`, and the copy of the byte 8 before it.
abbrev pub Rewritten : (can_write : ℕ → ℕ → Bool) (before after : Memory) (x s : ℕ) → Type 0
Rewritten can_write before after x s =
    (can_write s section_size ≡ true) × (s + 16 ≤ x) × (x < s + 24) × (after x ≡ before (x - 8))

copy_dword_out :
    (to from : ℕ) (memory : Memory) (x : ℕ)
    → (x < to) ⊎ (to + 4 ≤ x)
    → copy_dword to from memory x ≡ memory x
copy_dword_out to from memory x away = ground (arith, away)

copy_dword_in :
    (to from : ℕ) (memory : Memory) (x : ℕ)
    → to ≤ x
    → x < to + 4
    → copy_dword to from memory x ≡ memory (x - to + from)
copy_dword_in to from memory x low high = ground (arith, low, high)

pub header_keeps :
    (seek : ℕ) (memory : Memory) (x : ℕ)
    → (x < seek + 16) ⊎ (seek + 24 ≤ x)
    → align_header seek memory x ≡ memory x
unfolding align_header
header_keeps seek memory x away =
    copy_dword_out (seek + 16) (seek + 8) (copy_dword (seek + 20) (seek + 12) memory) x
      (elim away [ inl l ↦ inl l | inr r ↦ inr (omega (arith, r)) ])
    ∙ copy_dword_out (seek + 20) (seek + 12) memory x
        (elim away [ inl l ↦ inl (omega (arith, l)) | inr r ↦ inr (omega (arith, r)) ])

pub header_copies :
    (seek : ℕ) (memory : Memory) (x : ℕ)
    → seek + 16 ≤ x
    → x < seek + 24
    → align_header seek memory x ≡ memory (x - 8)
unfolding align_header
header_copies seek memory x low high = elim (Bool-cases (ltb x (seek + 20))) [
  | inl t ↦
      let before : x < seek + 20 = ground (arith, t) in
      let shift : x - (seek + 16) + (seek + 8) ≡ x - 8 = omega (arith, low) in
      copy_dword_in (seek + 16) (seek + 8) (copy_dword (seek + 20) (seek + 12) memory) x low
        (omega (arith, before))
      ∙ copy_dword_out (seek + 20) (seek + 12) memory _ (inl (omega (arith, before, low)))
      ∙ ap memory shift
  | inr f ↦
      let behind : seek + 20 ≤ x = ground (arith, f) in
      let shift : x - (seek + 20) + (seek + 12) ≡ x - 8 = omega (arith, behind) in
      copy_dword_out (seek + 16) (seek + 8) (copy_dword (seek + 20) (seek + 12) memory) x
        (inr (omega (arith, behind)))
      ∙ copy_dword_in (seek + 20) (seek + 12) memory x behind (omega (arith, high))
      ∙ ap memory shift
]

-- What a loop over `n` headers from `seek` on changes.
abbrev pub Changes : (can_write : ℕ → ℕ → Bool) (before after : Memory) (x n seek : ℕ) → Type 0
Changes can_write before after x n seek =
    (after x ≡ before x)
    ⊎ ((s : ℕ) × (i : ℕ) × (i < n)
        × (s ≡ seek + section_size * i)
        × Rewritten can_write before after x s)

module _ (can_write : ℕ → ℕ → Bool) where
  section_first :
      (n seek : ℕ) (memory after : Memory) (x : ℕ)
      → can_write seek section_size ≡ true
      → after x ≡ align_header seek memory x
      → Changes can_write memory after x (suc n) seek
  section_first n seek memory after x w e =
      elim (Bool-cases (leb (seek + 16) x && ltb x (seek + 24))) [
        | inl t ↦
            let low : seek + 16 ≤ x = ground (arith, t) in
            let high : x < seek + 24 = ground (arith, t) in
            inr (
              seek,
              0,
              omega arith,
              omega arith,
              (w, low, high, e ∙ header_copies seek memory x low high),
            )
        | inr f ↦
            let away : (x < seek + 16) ⊎ (seek + 24 ≤ x) = ground (arith, f) in
            inl (e ∙ header_keeps seek memory x away)
      ]

  pub sections-Changes :
      (n seek : ℕ) (memory : Memory) (x : ℕ)
      → Changes can_write memory (align_sections can_write n seek memory).memory x n seek
  unfolding align_sections
  sections-Changes zero seek memory x = inl refl
  sections-Changes (suc n) seek memory x =
      let next = align_header seek memory in
      elim (Bool-cases (can_write seek section_size)) [
        | inl w ↦ rw w (elim (sections-Changes n (seek + section_size) next x) [
          | inl same ↦
              section_first n seek memory
                (align_sections can_write n (seek + section_size) next).memory x w same
          | inr (s, i, below, at, (writable, low, high, copied)) ↦ inr (
            s,
            suc i,
            omega (arith, below),
            omega (arith, at),
            (
              writable,
              low,
              high,
              copied ∙ header_keeps seek memory (x - 8) (inr (omega (arith, at, low))),
            ),
          )
        ])
        | inr w ↦ rw w (inl refl)
      ]

  -- An early return, or what goes on.
  stop-Changes :
      (b : Bool) (code : ℕ) (memory : Memory) (next : Aligned) (x n seek : ℕ)
      → Changes can_write memory next.memory x n seek
      → Changes can_write memory
          (if b then record { returned = code; memory = memory } else next).memory
          x
          n
          seek
  stop-Changes true code memory next x n seek h = inl refl
  stop-Changes false code memory next x n seek h = h

  go-Changes :
      (b : Bool) (memory : Memory) (next : Aligned) (x n seek : ℕ)
      → Changes can_write memory next.memory x n seek
      → Changes can_write memory
          (if b then next else record { returned = 0; memory = memory }).memory
          x
          n
          seek
  go-Changes true memory next x n seek h = h
  go-Changes false memory next x n seek h = inl refl

module _ (can_read can_write : ℕ → ℕ → Bool) (memory : Memory) (x : ℕ) where
  headers-Changes :
      (pehdr : ℕ)
      → Changes can_write memory
          (align_headers can_read can_write pehdr memory).memory
          x
          (word_at memory (pehdr + 2))
          (pehdr + 20 + 224)
  unfolding align_headers
  headers-Changes pehdr =
      let n = word_at memory (pehdr + 2) in
      go-Changes can_write (can_read pehdr 20 && can_read (pehdr + 20) 224 && leb 1 n && leb n 32)
        memory (align_sections can_write n (pehdr + 20 + 224) memory) x n (pehdr + 20 + 224)
        (sections-Changes can_write n (pehdr + 20 + 224) memory x)

  image-Changes :
      (seek : ℕ)
      → Changes can_write memory
          (align_image can_read can_write seek memory).memory
          x
          (word_at memory (seek + 4 + 2))
          (seek + 4 + 20 + 224)
  unfolding align_image
  image-Changes seek =
      let n = word_at memory (seek + 4 + 2) in
      let next = align_headers can_read can_write (seek + 4) memory in
      stop-Changes can_write (not (can_read seek 4)) 1 memory
        (if dword_at memory seek == 17744 then next else record { returned = 0; memory = memory }) x
        n (seek + 4 + 20 + 224)
        (go-Changes can_write (dword_at memory seek == 17744) memory next x n (seek + 4 + 20 + 224)
          (headers-Changes (seek + 4)))

  offset-Changes :
      (buffer : ℕ)
      → Changes can_write memory
          (align_offset can_read can_write buffer memory).memory
          x
          (word_at memory (buffer + dword_at memory (buffer + 60) + 4 + 2))
          (buffer + dword_at memory (buffer + 60) + 4 + 20 + 224)
  unfolding align_offset
  offset-Changes buffer =
      let e_lfanew = dword_at memory (buffer + 60) in
      let first = buffer + e_lfanew + 4 + 20 + 224 in
      let n = word_at memory (buffer + e_lfanew + 4 + 2) in
      let next = align_image can_read can_write (buffer + e_lfanew) memory in
      stop-Changes can_write (not (can_read (buffer + 60) 4)) 1 memory
        (if e_lfanew == 0 then record { returned = 0; memory = memory } else next) x n first
        (stop-Changes can_write (e_lfanew == 0) 0 memory next x n first
          (image-Changes (buffer + e_lfanew)))

-- Whatever the memory and the two tests of pointers, align_pe leaves each byte as it was, or the byte is one
-- of the 8 of SizeOfRawData and PointerToRawData of one of the NumberOfSections section headers, which passed
-- IsBadWritePtr, and becomes the byte of VirtualSize or VirtualAddress 8 before it.
pub align_pe-Changes :
    (can_read can_write : ℕ → ℕ → Bool) (buffer : ℕ) (memory : Memory) (x : ℕ)
    → Changes can_write memory
        (align_pe can_read can_write buffer memory).memory
        x
        (word_at memory (buffer + dword_at memory (buffer + 60) + 4 + 2))
        (buffer + dword_at memory (buffer + 60) + 4 + 20 + 224)
unfolding align_pe
align_pe-Changes can_read can_write buffer memory x =
    let first = buffer + dword_at memory (buffer + 60) + 4 + 20 + 224 in
    let n = word_at memory (buffer + dword_at memory (buffer + 60) + 4 + 2) in
    let next = align_offset can_read can_write buffer memory in
    stop-Changes can_write (not (can_read buffer 2)) 1 memory
      (if word_at memory buffer == 23117 then next else record { returned = 0; memory = memory }) x
      n first
      (go-Changes can_write (word_at memory buffer == 23117) memory next x n first
        (offset-Changes can_read can_write memory x buffer))
