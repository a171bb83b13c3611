-- ===== src/ScanMem/Align.antt =====
-- `align_pe` of src/common/scanmem.c: the realignment of a module that was dumped from memory. A pointer
-- is a number that does not wrap around, memory is a function from addresses to bytes, and IsBadReadPtr and
-- IsBadWritePtr are the parameters `can_read` and `can_write` (of an address and a size). The count of the
-- sections is read once: the headers that the loop changes stand behind it.
use clamav_win.Base.{ℕ, zero, suc, ◌+◌, ◌-◌, ◌*◌, Bool, not, ◌&&◌, if◌then◌else◌, ◌==◌, ltb, leb}

abbrev pub Memory : Type 0
Memory = ℕ → ℕ

abbrev pub word_at : Memory → ℕ → ℕ
word_at memory at = memory at + 256 * memory (at + 1)

abbrev pub dword_at : Memory → ℕ → ℕ
dword_at memory at = word_at memory at + 65536 * word_at memory (at + 2)

-- sizeof(IMAGE_SECTION_HEADER)
abbrev pub section_size : ℕ
section_size = 40

-- The assignment of one DWORD to another.
abbrev pub copy_dword : (to from : ℕ) → Memory → Memory
copy_dword to from memory x =
    if leb to x && ltb x (to + 4) then memory (x - to + from) else memory x

-- PointerToRawData (20) = VirtualAddress (12), then SizeOfRawData (16) = Misc.VirtualSize (8).
unfoldable pub align_header : (seek : ℕ) → Memory → Memory
align_header seek memory =
    copy_dword (seek + 16) (seek + 8) (copy_dword (seek + 20) (seek + 12) memory)

pub record Aligned : Type 0 where
  pub returned : ℕ
  pub memory : Memory

unfoldable pub align_sections : (can_write : ℕ → ℕ → Bool) (n seek : ℕ) → Memory → Aligned
align_sections can_write zero seek memory = record { returned = 1; memory = memory }
align_sections can_write (suc n) seek memory =
    let rest = align_sections can_write n (seek + section_size) (align_header seek memory) in
    if can_write seek section_size then rest else record { returned = 0; memory = memory }

-- From the file header on, which starts behind the signature.
unfoldable pub align_headers : (can_read can_write : ℕ → ℕ → Bool) (pehdr : ℕ) → Memory → Aligned
align_headers can_read can_write pehdr memory =
    let sections = word_at memory (pehdr + 2) in
    if can_read pehdr 20 && can_read (pehdr + 20) 224 && leb 1 sections && leb sections 32
    then align_sections can_write sections (pehdr + 20 + 224) memory
    else record { returned = 0; memory = memory }

-- From the signature of the image on, IMAGE_NT_SIGNATURE.
unfoldable pub align_image : (can_read can_write : ℕ → ℕ → Bool) (seek : ℕ) → Memory → Aligned
align_image can_read can_write seek memory =
    if not (can_read seek 4)
    then record { returned = 1; memory = memory }
    else if dword_at memory seek == 17744
    then align_headers can_read can_write (seek + 4) memory
    else record { returned = 0; memory = memory }

-- From `e_lfanew` on, at 0x3c.
unfoldable pub align_offset : (can_read can_write : ℕ → ℕ → Bool) (buffer : ℕ) → Memory → Aligned
align_offset can_read can_write buffer memory =
    let e_lfanew = dword_at memory (buffer + 60) in
    if not (can_read (buffer + 60) 4)
    then record { returned = 1; memory = memory }
    else if e_lfanew == 0
    then record { returned = 0; memory = memory }
    else align_image can_read can_write (buffer + e_lfanew) memory

-- `align_pe`, which never reads its argument `size`; IMAGE_DOS_SIGNATURE is 0x5A4D.
unfoldable pub align_pe : (can_read can_write : ℕ → ℕ → Bool) (buffer : ℕ) → Memory → Aligned
align_pe can_read can_write buffer memory =
    if not (can_read buffer 2)
    then record { returned = 1; memory = memory }
    else if word_at memory buffer == 23117
    then align_offset can_read can_write buffer memory
    else record { returned = 0; memory = memory }
