-- ===== src/Stub/Scan.antt =====
-- The search for the executable in `fullstub` of src/stub.c, and `_GO32_StubInfo` of
-- src/stubinfo.h, which it fills in part.
pub mod Chain
pub mod Ends
use Prim.Native.Nat.{bit_or}
use djstub.Base.{
  ℕ, zero, suc, ◌+◌, ◌*◌, ◌/◌, Bool, ◌&&◌, not, Bytes, from_index, word16, word32, add32, ◌==◌,
  if◌then◌else◌,
}
use djstub.Run.{Host, Cmd, out_of_fuel, pure, exit, ◌>>=◌, ◌>>◌, read, seek_set}
use djstub.Libc.{strncpy, store}

-- `_GO32_StubInfo`
pub record StubInfo : Type 0 where
  pub magic : Bytes
  pub size : ℕ
  pub minstack : ℕ
  pub memory_handle : ℕ
  pub initial_size : ℕ
  pub minkeep : ℕ
  pub ds_selector : ℕ
  pub ds_segment : ℕ
  pub psp_selector : ℕ
  pub cs_selector : ℕ
  pub env_size : ℕ
  pub reserved : Bytes
  pub argv0 : Bytes
  pub dpmi_server : Bytes
  pub stubinfo_ver : ℕ
  pub self_fd : ℕ
  pub self_offs : ℕ
  pub self_size : ℕ
  pub payload_offs : ℕ
  pub payload_size : ℕ
  pub payload2_offs : ℕ
  pub payload2_size : ℕ
  pub payload2_name : Bytes
  pub mem_base : ℕ
  pub flags : ℕ
  pub uentry : ℕ
  pub cpl_fd : ℕ
  pub upl_base : ℕ
  pub upl_size : ℕ
  pub elfload_arg : ℕ

-- The loader that `ops` points to.
pub data Format : Type 0 where
  coff elf : Format

-- The variables of the search, and the static `stubinfo`.
pub record Search : Type 0 where
  pub coffset : ℕ
  pub coffsize : ℕ
  pub noffset : ℕ
  pub nsize : ℕ
  pub noffset2 : ℕ
  pub nsize2 : ℕ
  pub info : StubInfo

-- `BUF_SIZE`
abbrev pub buf_size : ℕ
buf_size = 0x40

unfoldable pub is_mz : Bytes → Bool
is_mz buf = buf 0 == b'M' && buf 1 == b'Z' && buf 8 == 4 && buf 9 == 0

unfoldable pub is_coff : Bytes → Bool
is_coff buf = buf 0 == 0x4c && buf 1 == 0x01

unfoldable pub is_elf : Bytes → Bool
is_elf buf = buf 0 == 0x7f && buf 1 == 0x45 && buf 2 == 0x4c && buf 3 == 0x46

-- `memcpy(&flags, &buf[0x38], 2)` on a little-endian word.
unfoldable pub set_low_flags : ℕ → ℕ → ℕ
set_low_flags flags low = flags / 0x1_0000 * 0x1_0000 + low

unfoldable pub parse_info : Bytes → StubInfo → StubInfo
unfolding set_low_flags
parse_info buf info = record info {
  payload2_name = store (strncpy info.payload2_name (from_index 0x30 buf) 12) 12 0;
  stubinfo_ver = bit_or info.stubinfo_ver (buf 0x3b * 0x1_0000);
  flags = set_low_flags info.flags (word16 buf 0x38);
}

-- The branch of an MZ header.
unfoldable pub parse_mz : Bytes → Search → Search
unfolding parse_info
parse_mz buf s =
    let coffset = word32 buf 0x3c in
    let coffsize = word32 buf 0x1c in
    let noffset = if coffsize == 0 then s.noffset else add32 coffset coffsize in
    let nsize = word32 buf 0x20 in
    record {
      coffset = coffset;
      coffsize = coffsize;
      noffset = noffset;
      nsize = nsize;
      noffset2 = if nsize == 0 then s.noffset2 else add32 noffset nsize;
      nsize2 = word32 buf 0x24;
      info = parse_info buf s.info;
    }

module _ (host : Host) where
  -- `while (!done)` on fuel (every round fills the whole of `buf` or exits), with the seek that
  -- ends each round.
  unfoldable pub search_loop : ℕ → Search → Cmd (Format × Search)
  search_loop zero s = λ _. out_of_fuel
  search_loop (suc k) s = do
    (rc, buf) ← read host.stack buf_size
    if not (rc == buf_size)
        then exit
        else if is_mz buf
        then (do seek_set (parse_mz buf s).coffset; search_loop k (parse_mz buf s))
        else if is_coff buf
        then (do seek_set s.coffset; pure (coff, s))
        else if is_elf buf
        then (do seek_set s.coffset; pure (elf, s))
        else exit
