-- ===== src/Tests/Elf.antt =====
-- The ELF loader of src/elf.c at concrete inputs.
use djstub.Base.{◌≡◌, refl, some, none, ◌+◌, List, [], ◌∷◌, word16, word32, from_index, arith}
use djstub.Run.{File, World, Run, ok, set_pos, read, seek_set, seek_cur, memcpy, memset}
use djstub.Run.Returns.{Returns}
use djstub.Util.FarMem.{farmemcpy, farmemset}
use djstub.Util.LongRead.{long_read}
use djstub.Elf.{
  Ehdr, Phdr, ElfH, has_elfmag, decode_ehdr, decode_phdrs, make_handle, read_elf_headers,
  read_elf_sections,
}
use djstub.Elf.Bounds.{IsHull, make_handle-IsHull, make_handle-drops_zero}
use djstub.Elf.Image.{AllLoaded, Placed, load, done}
use djstub.Elf.Header.{
  IsElf32, header, file_phdrs, phdr_pos, phdr_size, read_elf_headers-valid,
  read_elf_headers-foreign,
}
use djstub.Util.Block.{OutsideBlock}
use djstub.Elf.Block.{read_elf_sections-InBlock}
use djstub.Elf.Sections.{HasImage, read_elf_sections-HasImage}
use djstub.Tests.Sample.{sound_file, host, ptr, world, elf_bytes, elf_file, coff_file, peek, result}

abbrev phdr₁ : Phdr
phdr₁ = record {
  p_type = 1;
  p_offset = 0x80;
  p_vaddr = 0x1000;
  p_paddr = 0;
  p_filesz = 3;
  p_memsz = 7;
  p_flags = 0;
  p_align = 4096;
}

abbrev phdr₂ : Phdr
phdr₂ = record {
  p_type = 1;
  p_offset = 0x83;
  p_vaddr = 0x2000;
  p_paddr = 0;
  p_filesz = 5;
  p_memsz = 5;
  p_flags = 0;
  p_align = 4096;
}

abbrev phdrs : List Phdr
phdrs = phdr₁ ∷ phdr₂ ∷ []

-- The program headers of the sample, from its bytes.
decode_sample : decode_phdrs 2 (from_index 52 elf_bytes) ≡ phdrs
unfolding decode_phdrs word32
decode_sample = refl

abbrev handle : ElfH
handle = record { va = 0x1000; length = 0x1005; entry = 0x1010; phdr = phdrs }

header_runs : result (read_elf_headers host (world elf_file)) ≡ some (some handle)
unfolding read_elf_headers read seek_cur has_elfmag decode_ehdr decode_phdrs word16 word32
header_runs = refl

-- The last byte of the first segment's tail, at the linear address 0x6 past the wrap.
abbrev loaded : Run (Unit {0})
loaded = read_elf_sections host handle ptr 0 (world elf_file)

second_segment_runs : peek loaded 0x1002 ≡ some 0xb2
unfolding read_elf_sections long_read farmemcpy farmemset read seek_set memcpy memset
second_segment_runs = refl

tail_runs : peek loaded 0x4 ≡ some 0
unfolding read_elf_sections long_read farmemcpy farmemset read seek_set memcpy memset
tail_runs = refl

-- The fifth byte is padded by one of the garbage on the stack.
padding_runs : peek loaded 0x1005 ≡ some 0xcc
unfolding read_elf_sections long_read farmemcpy farmemset read seek_set memcpy memset
padding_runs = refl

placed : Placed elf_file 0 0x2010 0x1000 phdrs
placed = load refl (omega arith) (omega arith) (load refl (omega arith) (omega arith) done)

read_elf_sections-HasImage_example :
    Returns (λ _ w'. HasImage elf_file 0 0xffff_f000 0x1000 0x2010 phdrs (world elf_file) w') loaded
read_elf_sections-HasImage_example =
    read_elf_sections-HasImage host ptr 0 0xffff_f000 refl elf_file (λ p. refl) 0x2010 handle 0x1000
      (world elf_file) placed refl

abbrev ehdr : Ehdr
ehdr = decode_ehdr elf_bytes

make_handle-IsHull_example :
    (h : ElfH) × (make_handle ehdr phdrs ≡ some h)
    × (h.entry ≡ ehdr.e_entry)
    × (h.phdr ≡ phdrs)
    × IsHull h phdrs
make_handle-IsHull_example =
    make_handle-IsHull ehdr phdrs ((λ _. (omega arith, refl)), ((λ _. (omega arith, refl)), tt))

handle_runs : make_handle ehdr phdrs ≡ some handle
unfolding make_handle decode_ehdr word16 word32
handle_runs = refl

-- The selector of the sample shows the block at address 0 from 0x1000 on.
read_elf_sections-InBlock_example :
    Returns
      (λ _ w'.
        AllLoaded elf_file 0 0xffff_f000 w'.mem phdrs
        × OutsideBlock 0 0x1006 (world elf_file).mem w'.mem)
      loaded
read_elf_sections-InBlock_example =
    read_elf_sections-InBlock host elf_file (λ p. refl) ptr 0 0xffff_f000 0 refl ehdr phdrs handle
      0x2010 (world elf_file) ((λ _. (omega arith, refl)), ((λ _. (omega arith, refl)), tt))
      (load refl (omega arith) (omega arith) (load refl (omega arith) (omega arith) done))
      handle_runs (omega arith) (omega arith) refl refl

-- The first segment moved to address 0.
abbrev phdr₀ : Phdr
phdr₀ = record phdr₁ { p_vaddr = 0 }

make_handle-drops_zero_example :
    (h : ElfH) × (make_handle ehdr (phdr₀ ∷ phdr₂ ∷ []) ≡ some h) × (h.va ≡ 0x2000)
make_handle-drops_zero_example =
    make_handle-drops_zero ehdr phdr₀ phdr₂ refl refl refl refl refl (omega arith)

sample_IsElf32 : IsElf32 (header host (world elf_file) (λ p. refl))
unfolding has_elfmag decode_ehdr word16
sample_IsElf32 = record { magic = refl; class_32 = refl; header_size = refl; entry_size = refl }

abbrev sample_header : Ehdr
sample_header = header host (world elf_file) (λ p. refl)

sample_phoff : sample_header.e_phoff ≡ 52
unfolding decode_ehdr word32
sample_phoff = refl

sample_phnum : sample_header.e_phnum ≡ 2
unfolding decode_ehdr word16
sample_phnum = refl

read_elf_headers-valid_example :
    read_elf_headers host (world elf_file)
    ≡ ok (make_handle sample_header (file_phdrs host (world elf_file) (λ p. refl))) (
        set_pos
          (phdr_pos host (world elf_file) (λ p. refl) + phdr_size host (world elf_file) (λ p. refl))
          (world elf_file))
read_elf_headers-valid_example =
    read_elf_headers-valid host (world elf_file) (λ p. refl) sample_IsElf32 (omega arith)
      (omega (arith, sample_phoff)) (omega (arith, sample_phnum))
      (omega (arith, sample_phoff, sample_phnum)) refl

-- A COFF header is no ELF header.
coff_foreign : ¬ IsElf32 (header host (world coff_file) (λ p. refl))
unfolding has_elfmag decode_ehdr
coff_foreign is = cc is.magic

read_elf_headers-foreign_example :
    (w' : World) × (read_elf_headers host (world coff_file) ≡ ok none w')
read_elf_headers-foreign_example =
    read_elf_headers-foreign host (world coff_file) (λ p. refl) coff_foreign

-- The sample without its second program header.
abbrev cut_file : File
cut_file = sound_file elf_bytes 100 0

abbrev cut_header : Ehdr
cut_header = header host (world cut_file) (λ p. refl)

cut_IsElf32 : IsElf32 cut_header
unfolding has_elfmag decode_ehdr word16
cut_IsElf32 = record { magic = refl; class_32 = refl; header_size = refl; entry_size = refl }

cut_phoff : cut_header.e_phoff ≡ 52
unfolding decode_ehdr word32
cut_phoff = refl

cut_phnum : cut_header.e_phnum ≡ 2
unfolding decode_ehdr word16
cut_phnum = refl
