-- ===== src/Elf.antt =====
-- src/elf.h and src/elf.c: the ELF structures and the ELF loader.
pub mod Ranges
pub mod Bounds
pub mod Decode
pub mod Header
pub mod Image
pub mod Segment
pub mod Sections
pub mod Block
use djstub.Base.{
  ℕ, zero, suc, ◌%◌, Bool, ◌&&◌, ◌||◌, not, Option, none, some, List, [], ◌∷◌, Bytes, first,
  from_index, word16, word32, add32, sub32, mul32, ◌==◌, ltb, if◌then◌else◌,
}
use djstub.Run.{Host, Cmd, pure, exit, when, assert, ◌>>=◌, ◌>>◌, read, seek_set, seek_cur}
use djstub.Util.FarMem.{FarPtr, farmemset}
use djstub.Util.LongRead.{long_read}

-- `Elf32_Ehdr`
pub record Ehdr : Type 0 where
  pub e_ident : Bytes
  pub e_type : ℕ
  pub e_machine : ℕ
  pub e_version : ℕ
  pub e_entry : ℕ
  pub e_phoff : ℕ
  pub e_shoff : ℕ
  pub e_flags : ℕ
  pub e_ehsize : ℕ
  pub e_phentsize : ℕ
  pub e_phnum : ℕ
  pub e_shentsize : ℕ
  pub e_shnum : ℕ
  pub e_shstrndx : ℕ

-- `EI_NIDENT`
abbrev pub ei_nident : ℕ
ei_nident = 16

abbrev pub sizeof_ehdr : ℕ
sizeof_ehdr = 52

unfoldable pub decode_ehdr : Bytes → Ehdr
decode_ehdr b = record {
  e_ident = first ei_nident b;
  e_type = word16 b 16;
  e_machine = word16 b 18;
  e_version = word32 b 20;
  e_entry = word32 b 24;
  e_phoff = word32 b 28;
  e_shoff = word32 b 32;
  e_flags = word32 b 36;
  e_ehsize = word16 b 40;
  e_phentsize = word16 b 42;
  e_phnum = word16 b 44;
  e_shentsize = word16 b 46;
  e_shnum = word16 b 48;
  e_shstrndx = word16 b 50;
}

-- `Elf32_Phdr`
pub record Phdr : Type 0 where
  pub p_type : ℕ
  pub p_offset : ℕ
  pub p_vaddr : ℕ
  pub p_paddr : ℕ
  pub p_filesz : ℕ
  pub p_memsz : ℕ
  pub p_flags : ℕ
  pub p_align : ℕ

abbrev pub sizeof_phdr : ℕ
sizeof_phdr = 32

unfoldable pub decode_phdr : Bytes → Phdr
decode_phdr b = record {
  p_type = word32 b 0;
  p_offset = word32 b 4;
  p_vaddr = word32 b 8;
  p_paddr = word32 b 12;
  p_filesz = word32 b 16;
  p_memsz = word32 b 20;
  p_flags = word32 b 24;
  p_align = word32 b 28;
}

-- The array `h->phdr` of `n` entries.
unfoldable pub decode_phdrs : ℕ → Bytes → List Phdr
unfolding decode_phdr
decode_phdrs zero b = []
decode_phdrs (suc n) b = decode_phdr b ∷ decode_phdrs n (from_index sizeof_phdr b)

-- `ELFMAG`, `EI_CLASS`, `ELFCLASS32`, `PT_LOAD`
unfoldable pub has_elfmag : Bytes → Bool
has_elfmag b = b 0 == 0x7f && b 1 == b'E' && b 2 == b'L' && b 3 == b'F'

abbrev pub ei_class : ℕ
ei_class = 4

abbrev pub elfclass32 : ℕ
elfclass32 = 1

abbrev pub pt_load : ℕ
pt_load = 1

-- `struct elf_h`; `phnum` is the length of `phdr`, which holds one entry more than it counts.
pub record ElfH : Type 0 where
  pub va : ℕ
  pub length : ℕ
  pub entry : ℕ
  pub phdr : List Phdr

abbrev pub sizeof_elf_h : ℕ
sizeof_elf_h = 48

-- `if (phdr->p_vaddr < beg || !beg) beg = phdr->p_vaddr;` and the like for `end`. The comparisons
-- are unsigned, since one side is a `uint32_t`.
unfoldable pub grow_bounds : Phdr → ℕ × ℕ → ℕ × ℕ
grow_bounds p (beg, end) =
    let top = add32 p.p_vaddr p.p_memsz in
    (if ltb p.p_vaddr beg || beg == 0 then p.p_vaddr else beg, if ltb end top then top else end)

-- The loop over the program headers; `none` is the return of NULL at an alignment.
unfoldable pub scan_phdrs : List Phdr → ℕ × ℕ → Option (ℕ × ℕ)
unfolding grow_bounds
scan_phdrs [] bounds = some bounds
scan_phdrs (p ∷ ps) bounds =
    let rest = scan_phdrs ps bounds in
    let next = scan_phdrs ps (grow_bounds p bounds) in
    if not (p.p_type == pt_load) then rest else if not (p.p_align == 4096) then none else next

-- What the program headers make of the header block.
unfoldable pub make_handle : Ehdr → List Phdr → Option ElfH
unfolding scan_phdrs
make_handle ehdr phdrs = elim (scan_phdrs phdrs (0, 0)) [
  | none ↦ none
  | some (beg, end) ↦
      some (record { va = beg; length = sub32 end beg; entry = ehdr.e_entry; phdr = phdrs })
]

module _ (host : Host) where
  -- From the seek to the program headers on.
  unfoldable pub read_phdrs : Ehdr → Cmd (Option ElfH)
  unfolding make_handle
  read_phdrs ehdr = do
    let size = mul32 sizeof_phdr ehdr.e_phnum
    when (ltb sizeof_ehdr ehdr.e_phoff) (seek_cur (sub32 ehdr.e_phoff sizeof_ehdr))
    assert (host.malloc_ok (add32 sizeof_elf_h size))
    (rc, phdr) ← read host.stack size
    if not (rc == size) then pure none else pure (make_handle ehdr (decode_phdrs ehdr.e_phnum phdr))

  -- `none` is NULL.
  unfoldable pub read_elf_headers : Cmd (Option ElfH)
  unfolding read_phdrs
  read_elf_headers = do
    (rc, buf) ← read host.stack sizeof_ehdr
    let ehdr = decode_ehdr buf
    if not (rc == sizeof_ehdr)
        then pure none
        else if not (has_elfmag ehdr.e_ident)
        then pure none
        else if not (ehdr.e_ident ei_class == elfclass32)
        then pure none
        else if not (ehdr.e_ehsize == sizeof_ehdr) || not (ehdr.e_phentsize == sizeof_phdr)
        then pure none
        else read_phdrs ehdr

  -- `get_elf_va`, `get_elf_length`, `get_elf_entry`
  unfoldable pub get_elf_va : ElfH → ℕ
  get_elf_va h = h.va

  unfoldable pub get_elf_length : ElfH → ℕ
  get_elf_length h = h.length

  unfoldable pub get_elf_entry : ElfH → ℕ
  get_elf_entry h = h.entry

  -- The body of the loop of `read_elf_sections` at a PT_LOAD entry.
  unfoldable pub load_segment : Phdr → FarPtr → (offset : ℕ) → Cmd (Unit {0})
  load_segment p ptr offset = do
    seek_set (add32 offset p.p_offset)
    bytes ← long_read host ptr p.p_vaddr p.p_filesz
    when (not (bytes == p.p_filesz)) exit
    let len = sub32 p.p_memsz p.p_filesz
    when (ltb p.p_filesz p.p_memsz)
        (farmemset host ptr (add32 p.p_vaddr p.p_filesz) 0 (add32 len (len % 2)))

  -- The loop of `read_elf_sections`.
  unfoldable pub load_segments : List Phdr → FarPtr → (offset : ℕ) → Cmd (Unit {0})
  unfolding load_segment
  load_segments [] ptr offset = pure tt
  load_segments (p ∷ ps) ptr offset = do
    when (p.p_type == pt_load) (load_segment p ptr offset)
    load_segments ps ptr offset

  -- `free(h)` changes nothing that is modelled.
  unfoldable pub read_elf_sections : ElfH → FarPtr → (offset : ℕ) → Cmd (Unit {0})
  unfolding load_segments
  read_elf_sections h ptr offset = load_segments h.phdr ptr offset
