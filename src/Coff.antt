-- ===== src/Coff.antt =====
-- src/coff.c and src/coff.h: the COFF structures and the COFF loader.
pub mod Header
pub mod Sections
pub mod Block
use djstub.Base.{
  ℕ, ◌*◌, ◌%◌, not, Option, none, some, Bytes, first, from_index, word16, word32, add32, sub32,
  ◌==◌, ltb, if◌then◌else◌,
}
use djstub.Run.{Host, Cmd, ok, pure, exit, when, assert, ◌>>=◌, ◌>>◌, read, seek_set, seek_cur}
use djstub.Util.FarMem.{FarPtr, farmemset}
use djstub.Util.LongRead.{long_read}

-- `struct coff_header`
pub record CoffHeader : Type 0 where
  pub f_magic : ℕ
  pub f_nscns : ℕ
  pub f_timdat : ℕ
  pub f_symptr : ℕ
  pub f_nsyms : ℕ
  pub f_opthdr : ℕ
  pub f_flags : ℕ

abbrev pub sizeof_coff_header : ℕ
sizeof_coff_header = 20

unfoldable pub decode_coff_header : Bytes → CoffHeader
decode_coff_header b = record {
  f_magic = word16 b 0;
  f_nscns = word16 b 2;
  f_timdat = word32 b 4;
  f_symptr = word32 b 8;
  f_nsyms = word32 b 12;
  f_opthdr = word16 b 16;
  f_flags = word16 b 18;
}

-- `struct opt_header`
pub record OptHeader : Type 0 where
  pub magic : ℕ
  pub vstamp : ℕ
  pub tsize : ℕ
  pub dsize : ℕ
  pub bsize : ℕ
  pub entry : ℕ
  pub text_start : ℕ
  pub data_start : ℕ

abbrev pub sizeof_opt_header : ℕ
sizeof_opt_header = 28

unfoldable pub decode_opt_header : Bytes → OptHeader
decode_opt_header b = record {
  magic = word16 b 0;
  vstamp = word16 b 2;
  tsize = word32 b 4;
  dsize = word32 b 8;
  bsize = word32 b 12;
  entry = word32 b 16;
  text_start = word32 b 20;
  data_start = word32 b 24;
}

-- `struct scn_header`, its `int32_t` fields as 32-bit patterns.
pub record ScnHeader : Type 0 where
  pub s_name : Bytes
  pub s_paddr : ℕ
  pub s_vaddr : ℕ
  pub s_size : ℕ
  pub s_scnptr : ℕ
  pub s_relptr : ℕ
  pub s_lnnoptr : ℕ
  pub s_nreloc : ℕ
  pub s_nlnno : ℕ
  pub s_flags : ℕ

abbrev pub sizeof_scn_header : ℕ
sizeof_scn_header = 40

unfoldable pub decode_scn_header : Bytes → ScnHeader
decode_scn_header b = record {
  s_name = first 8 b;
  s_paddr = word32 b 8;
  s_vaddr = word32 b 12;
  s_size = word32 b 16;
  s_scnptr = word32 b 20;
  s_relptr = word32 b 24;
  s_lnnoptr = word32 b 28;
  s_nreloc = word16 b 32;
  s_nlnno = word16 b 34;
  s_flags = word32 b 36;
}

-- `enum { SCT_TEXT, SCT_DATA, SCT_BSS, SCT_MAX }`
pub data Sct : Type 0 where
  text dat bss : Sct

abbrev pub sct_index : Sct → ℕ
sct_index text = 0
sct_index dat = 1
sct_index bss = 2

abbrev pub sct_max : ℕ
sct_max = 3

-- `scns[sc]`
unfoldable pub scn : Bytes → Sct → ScnHeader
unfolding decode_scn_header
scn scns sc = decode_scn_header (from_index (sizeof_scn_header * sct_index sc) scns)

-- `struct coff_h`
pub record CoffH : Type 0 where
  pub length : ℕ
  pub entry : ℕ

abbrev pub sizeof_coff_h : ℕ
sizeof_coff_h = 8

abbrev pub get_scns : Cmd Bytes
get_scns w = ok w.scns w

abbrev pub set_scns : Bytes → Cmd (Unit {0})
set_scns b w = ok tt (record w { scns = b })

module _ (host : Host) where
  unfoldable pub read_section : FarPtr → (coffset : ℕ) → Sct → Cmd (Unit {0})
  unfolding scn
  read_section buf coffset sc = do
    scns ← get_scns
    let s = scn scns sc
    seek_set (add32 coffset s.s_scnptr)
    bytes ← long_read host buf s.s_vaddr s.s_size
    when (not (bytes == s.s_size)) exit

  -- From the section table on; `none` is NULL.
  unfoldable pub read_scns : OptHeader → Cmd (Option CoffH)
  unfolding scn
  read_scns ohdr = do
    old ← get_scns
    (rc, scns) ← read old (sizeof_scn_header * sct_max)
    set_scns scns
    let s = scn scns bss
    if not (rc == sizeof_scn_header * sct_max) then pure none else do
      assert (host.malloc_ok sizeof_coff_h)
      pure (some (record { length = add32 s.s_vaddr s.s_size; entry = ohdr.entry }))

  -- From the optional header on.
  unfoldable pub read_opt_header : CoffHeader → Cmd (Option CoffH)
  unfolding read_scns
  read_opt_header chdr = do
    (rc, obuf) ← read host.stack sizeof_opt_header
    if not (rc == sizeof_opt_header) then pure none else do
      when (ltb sizeof_opt_header chdr.f_opthdr) (seek_cur (sub32 chdr.f_opthdr sizeof_opt_header))
      read_scns (decode_opt_header obuf)

  unfoldable pub read_coff_headers : Cmd (Option CoffH)
  unfolding read_opt_header
  read_coff_headers = do
    (rc, cbuf) ← read host.stack sizeof_coff_header
    let chdr = decode_coff_header cbuf
    if not (rc == sizeof_coff_header)
        then pure none
        else if ltb chdr.f_opthdr sizeof_opt_header
        then pure none
        else read_opt_header chdr

  unfoldable pub get_coff_va : CoffH → ℕ
  get_coff_va h = 0

  unfoldable pub get_coff_length : CoffH → ℕ
  get_coff_length h = h.length

  unfoldable pub get_coff_entry : CoffH → ℕ
  get_coff_entry h = h.entry

  -- `free(h)` changes nothing that is modelled.
  unfoldable pub read_coff_sections : CoffH → FarPtr → (offset : ℕ) → Cmd (Unit {0})
  unfolding read_section
  read_coff_sections h ptr offset = do
    read_section ptr offset text
    read_section ptr offset dat
    scns ← get_scns
    let s = scn scns bss
    farmemset host ptr s.s_vaddr 0 (add32 s.s_size (s.s_size % 2))
