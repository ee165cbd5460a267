-- ===== src/Tests/Coff.antt =====
-- The COFF loader of src/coff.c at concrete inputs.
use djstub.Base.{◌≡◌, refl, some, none, inl, add32, word16, word32, from_index, fill, arith}
use djstub.Run.{World, Host, ok, read, seek_set, memcpy, memset}
use djstub.Run.Returns.{Returns}
use djstub.Util.FarMem.{farmemcpy, farmemset}
use djstub.Util.LongRead.{long_read}
use djstub.Coff.{
  CoffH, CoffHeader, text, dat, bss, scn, decode_coff_header, decode_opt_header, read_coff_headers,
  read_coff_sections,
}
use djstub.Coff.Header.{
  header, handle_after, world_after, read_coff_headers-valid, read_coff_headers-invalid,
}
use djstub.Coff.Sections.{InFile, IsLaidOut, HasImage, read_coff_sections-HasImage}
use djstub.Coff.Block.{read_coff_sections-InBlock}
use djstub.Util.Block.{OutsideBlock}
use djstub.Tests.Sample.{host, ptr, world, coff_bytes, coff_file, elf_file, peek, result}

header_runs :
    result (read_coff_headers host (world coff_file))
    ≡ some (some (record { length = 0x2008; entry = 0x1234 }))
unfolding read_coff_headers read decode_coff_header decode_opt_header word16 word32
header_runs = refl

abbrev w : World
w = record (world coff_file) { scns = fill (λ i. 0) 120 (from_index 48 coff_bytes) }

abbrev handle : CoffH
handle = record { length = 0x2008; entry = 0x1234 }

-- The last byte of data, whose padding bss clears.
data_runs : peek (read_coff_sections host handle ptr 0 w) 0x1002 ≡ some 0xd2
unfolding read_coff_sections long_read farmemcpy farmemset read seek_set memcpy memset word32
data_runs = refl

bss_runs : peek (read_coff_sections host handle ptr 0 w) 0x1003 ≡ some 0
unfolding read_coff_sections long_read farmemcpy farmemset read seek_set memcpy memset word32
bss_runs = refl

text_InFile : InFile coff_file 0 (scn w.scns text)
unfolding scn word32
text_InFile = omega arith

data_InFile : InFile coff_file 0 (scn w.scns dat)
unfolding scn word32
data_InFile = omega arith

sample_IsLaidOut : IsLaidOut w.scns
unfolding scn word32
sample_IsLaidOut = omega arith

read_coff_sections-HasImage_example :
    Returns
      (λ _ w'. HasImage coff_file 0 0xffff_f000 w.scns w'.mem w.mem)
      (read_coff_sections host handle ptr 0 w)
read_coff_sections-HasImage_example =
    read_coff_sections-HasImage host ptr 0 0xffff_f000 refl coff_file (λ p. refl) handle w
      text_InFile data_InFile sample_IsLaidOut refl

abbrev sample_header : CoffHeader
sample_header = header host (world coff_file) (λ p. refl)

sample_opthdr : sample_header.f_opthdr ≡ 28
unfolding decode_coff_header word16
sample_opthdr = refl

read_coff_headers-valid_example :
    read_coff_headers host (world coff_file)
    ≡ ok
        (some (handle_after host (world coff_file) (λ p. refl)))
        (world_after host (world coff_file) (λ p. refl))
read_coff_headers-valid_example =
    read_coff_headers-valid host (world coff_file) (λ p. refl) refl (omega arith)
      (omega (arith, sample_opthdr)) (omega (arith, sample_opthdr))

-- The bytes of the ELF sample, read as a COFF header, have no optional header.
elf_opthdr : (header host (world elf_file) (λ p. refl)).f_opthdr ≡ 0
unfolding decode_coff_header word16
elf_opthdr = refl

read_coff_headers-invalid_example :
    (w' : World) × (read_coff_headers host (world elf_file) ≡ ok none w')
read_coff_headers-invalid_example =
    read_coff_headers-invalid host (world elf_file) (λ p. refl) (omega arith)
      (omega (arith, elf_opthdr)) (inl (omega (arith, elf_opthdr)))

sample_length : handle.length ≡ add32 (scn w.scns bss).s_vaddr (scn w.scns bss).s_size
unfolding scn word32
sample_length = refl

-- A selector with its base at the start of the block.
abbrev low_host : Host
low_host = record host { segment_base = λ sel. some 0x40_0000 }

read_coff_sections-InBlock_example :
    Returns
      (λ _ w'.
        HasImage coff_file 0 0x40_0000 w.scns w'.mem w.mem
        × OutsideBlock 0x40_0000 0x2009 w.mem w'.mem)
      (read_coff_sections low_host handle ptr 0 w)
unfolding scn word32
read_coff_sections-InBlock_example =
    read_coff_sections-InBlock low_host ptr 0 0x40_0000 0x40_0000 refl coff_file (λ p. refl) handle
      w text_InFile data_InFile sample_IsLaidOut sample_length (omega arith) refl refl
