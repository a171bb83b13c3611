-- ===== src/ScanMem/Image.antt =====
-- align_pe of src/common/scanmem.c on an image that it accepts.
use clamav_win.Base.{
  ℕ, zero, suc, ◌+◌, ◌-◌, ◌*◌, ◌≤◌, ◌<◌, ◌≡◌, inl, inr, refl, ap, subst, ◌∙◌, Bool, true, false,
  arith, ◌==◌, leb,
}
use clamav_win.ScanMem.Align.{
  Memory, word_at, dword_at, section_size, Aligned, align_header, align_sections, align_headers,
  align_image, align_offset, align_pe,
}
use clamav_win.ScanMem.Realigned.{
  Changes, header_keeps, header_copies, sections-Changes, align_pe-Changes,
}

-- All of the first `n` section headers from `first` on pass IsBadWritePtr.
abbrev pub Writable : (can_write : ℕ → ℕ → Bool) (n first : ℕ) → Type 0
Writable can_write n first =
    (i : ℕ) → i < n → can_write (first + section_size * i) section_size ≡ true

module _ (can_write : ℕ → ℕ → Bool) where
  Writable-first :
      (n seek : ℕ) → Writable can_write (suc n) seek → can_write seek section_size ≡ true
  Writable-first n seek all =
      let start : seek + section_size * 0 ≡ seek = omega arith in
      subst (λ (at : ℕ). can_write at section_size ≡ true) start (all 0 (omega arith))

  Writable-rest :
      (n seek : ℕ) → Writable can_write (suc n) seek → Writable can_write n (seek + section_size)
  Writable-rest n seek all i below =
      let shift : seek + section_size * suc i ≡ seek + section_size + section_size * i =
        omega arith in
      subst (λ (at : ℕ). can_write at section_size ≡ true) shift
        (all (suc i) (omega (arith, below)))

  sections-returned :
      (n seek : ℕ) (memory : Memory)
      → Writable can_write n seek
      → (align_sections can_write n seek memory).returned ≡ 1
  unfolding align_sections
  sections-returned zero seek memory all = refl
  sections-returned (suc n) seek memory all = rw (Writable-first n seek all) (
      sections-returned n (seek + section_size) (align_header seek memory)
        (Writable-rest n seek all))

  -- What comes after a header leaves it alone.
  sections_keep :
      (n seek : ℕ) (memory : Memory) (x : ℕ)
      → x < seek
      → (align_sections can_write n seek memory).memory x ≡ memory x
  sections_keep n seek memory x below = elim (sections-Changes can_write n seek memory x) [
    | inl same ↦ same
    | inr (s, i, lt, at, (writable, low, high, copied)) ↦ omega (arith, at, low, below)
  ]

  sections_copy :
      (n seek : ℕ) (memory : Memory) (i x : ℕ)
      → Writable can_write n seek
      → i < n
      → seek + section_size * i + 16 ≤ x
      → x < seek + section_size * i + 24
      → (align_sections can_write n seek memory).memory x ≡ memory (x - 8)
  unfolding align_sections
  sections_copy zero seek memory i x all below low high = omega (arith, below)
  sections_copy (suc n) seek memory zero x all below low high = rw (Writable-first n seek all) (
      sections_keep n (seek + section_size) (align_header seek memory) x (omega (arith, high))
      ∙ header_copies seek memory x (omega (arith, low)) (omega (arith, high)))
  sections_copy (suc n) seek memory (suc i) x all below low high = rw (Writable-first n seek all) (
      sections_copy n (seek + section_size) (align_header seek memory) i x
        (Writable-rest n seek all) (omega (arith, below)) (omega (arith, low)) (omega (arith, high))
      ∙ header_keeps seek memory (x - 8) (inr (omega (arith, low))))

-- An image in readable memory, with a legal number of sections, as align_pe looks at it.
pub record IsImage (can_read : ℕ → ℕ → Bool) (buffer : ℕ) (memory : Memory) : Type 0 where
  pub dos_readable : can_read buffer 2 ≡ true
  pub dos : word_at memory buffer ≡ 23117
  pub offset_readable : can_read (buffer + 60) 4 ≡ true
  pub offset : (dword_at memory (buffer + 60) == 0) ≡ false
  pub pe_readable : can_read (buffer + dword_at memory (buffer + 60)) 4 ≡ true
  pub pe : dword_at memory (buffer + dword_at memory (buffer + 60)) ≡ 17744
  pub file_readable : can_read (buffer + dword_at memory (buffer + 60) + 4) 20 ≡ true
  pub optional_readable : can_read (buffer + dword_at memory (buffer + 60) + 4 + 20) 224 ≡ true
  pub some_sections : 1 ≤ word_at memory (buffer + dword_at memory (buffer + 60) + 4 + 2)
  pub few_sections : word_at memory (buffer + dword_at memory (buffer + 60) + 4 + 2) ≤ 32

abbrev pub file_header : (buffer : ℕ) → Memory → ℕ
file_header buffer memory = buffer + dword_at memory (buffer + 60) + 4

abbrev pub sections : (buffer : ℕ) → Memory → ℕ
sections buffer memory = word_at memory (file_header buffer memory + 2)

module _ (can_read can_write : ℕ → ℕ → Bool) (buffer : ℕ) (memory : Memory) where
  -- align_pe reaches the loop over the sections.
  reaches :
      IsImage can_read buffer memory
      → align_pe can_read can_write buffer memory
        ≡ align_sections can_write
            (sections buffer memory)
            (file_header buffer memory + 20 + 224)
            memory
  unfolding align_pe align_offset align_image align_headers
  reaches h =
      let e_dos : (word_at memory buffer == 23117) ≡ true = ground (arith, h.dos) in
      let e_pe : (dword_at memory (buffer + dword_at memory (buffer + 60)) == 17744) ≡ true =
        ground (arith, h.pe) in
      let e_some : leb 1 (sections buffer memory) ≡ true = ground (arith, h.some_sections) in
      let e_few : leb (sections buffer memory) 32 ≡ true = ground (arith, h.few_sections) in
      rw
        (
          h.dos_readable, e_dos, h.offset_readable, h.offset, h.pe_readable, e_pe, h.file_readable,
          h.optional_readable, e_some, e_few,
        )
        refl

-- Where the buffer holds an image that align_pe accepts and all its section headers pass IsBadWritePtr,
-- align_pe returns 1, and the 8 bytes of SizeOfRawData and PointerToRawData of each of its section headers
-- become those of VirtualSize and VirtualAddress; any byte stays as it was, or it is one of these 8 of one
-- of these headers, NumberOfSections in number, and gets the byte 8 before it.
pub align_pe-IsImage :
    (can_read can_write : ℕ → ℕ → Bool) (buffer : ℕ) (memory : Memory) (i x y : ℕ)
    → IsImage can_read buffer memory
    → Writable can_write (sections buffer memory) (file_header buffer memory + 20 + 224)
    → i < sections buffer memory
    → file_header buffer memory + 20 + 224 + section_size * i + 16 ≤ x
    → x < file_header buffer memory + 20 + 224 + section_size * i + 24
    → ((align_pe can_read can_write buffer memory).returned ≡ 1)
      × ((align_pe can_read can_write buffer memory).memory x ≡ memory (x - 8))
      × Changes can_write memory
          (align_pe can_read can_write buffer memory).memory
          y
          (sections buffer memory)
          (file_header buffer memory + 20 + 224)
align_pe-IsImage can_read can_write buffer memory i x y h all below low high =
    let first = file_header buffer memory + 20 + 224 in
    let n = sections buffer memory in
    let e = reaches can_read can_write buffer memory h in
    (
      ap (λ (a : Aligned). a.returned) e ∙ sections-returned can_write n first memory all,
      ap (λ (a : Aligned). a.memory x) e
          ∙ sections_copy can_write n first memory i x all below low high,
      align_pe-Changes can_read can_write buffer memory y,
    )
