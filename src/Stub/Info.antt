-- ===== src/Stub/Info.antt =====
-- What `fullstub` of src/stub.c writes to `stubinfo` behind the search for the executable, up to
-- the services of the DPMI server, and behind the load.
pub mod Layout
pub mod Names
pub mod EnvSize
use Prim.Native.Nat.{bit_or, max}
use djstub.Base.{
  ℕ, ◌+◌, ◌%◌, Option, none, some, List, [], ◌∷◌, Bytes, byte_at, length, u16_mod, add32, ◌==◌,
  if◌then◌else◌,
}
use djstub.Run.{Cmd, pure, ◌>>◌, ◌>>=◌, seek_set}
use djstub.Libc.{strncpy, store, strcat, strrchr}
use djstub.Stub.Scan.{StubInfo, Search}

-- `p++` behind a `strrchr` that found something.
abbrev pub skip_first : List ℕ → List ℕ
skip_first [] = []
skip_first (x ∷ s) = s

-- `_basename`
unfoldable pub basename : List ℕ → List ℕ
basename name = elim (strrchr name b'\\') [ none ↦ name | some p ↦ skip_first p ]

-- `sizeof(_GO32_StubInfo)`
abbrev pub sizeof_stubinfo : ℕ
sizeof_stubinfo = 0xa4

-- The room that the texts take, with a NUL behind each, on top of `i`.
unfoldable pub texts_size : List (List ℕ) → ℕ → ℕ
texts_size [] i = i
texts_size (s ∷ envp) i = texts_size envp (i + length s + 1)

abbrev pub text_magic : List ℕ
text_magic =
    b'd' ∷ b'j' ∷ b'3' ∷ b'2' ∷ b'l' ∷ b'd' ∷ b'r' ∷ b' ' ∷ b'(' ∷ b'C' ∷ b')' ∷ b' ' ∷ b's' ∷ b't'
    ∷ b's' ∷ b'p' ∷ []

abbrev pub text_server : List ℕ
text_server = b'C' ∷ b'W' ∷ b'S' ∷ b'D' ∷ b'P' ∷ b'M' ∷ b'I' ∷ b'.' ∷ b'E' ∷ b'X' ∷ b'E' ∷ []

abbrev pub text_dbg : List ℕ
text_dbg = b'.' ∷ b'd' ∷ b'b' ∷ b'g' ∷ []

-- From `strncpy(stubinfo.magic, ...)` to `stubinfo.initial_size`, for an environment, the program's
-- name and the size of the image.
unfoldable pub image_info : List (List ℕ) → List ℕ → (va_size : ℕ) → StubInfo → StubInfo
unfolding basename texts_size
image_info envp argv0 va_size info = record info {
  magic = strncpy info.magic (byte_at text_magic) 16;
  size = sizeof_stubinfo;
  env_size = (texts_size envp 3 + length argv0 + 1) % u16_mod;
  minstack = 0x8_0000;
  minkeep = 0x4000;
  argv0 = store (strncpy info.argv0 (byte_at (basename argv0)) 16) 15 0;
  dpmi_server = strncpy info.dpmi_server (byte_at text_server) 16;
  initial_size = max va_size 0x1_0000;
}

-- `LOADER_VER`
abbrev pub loader_ver : ℕ
loader_ver = 3

-- From `stubinfo.self_fd` to `stubinfo.stubinfo_ver`. The name has 20 bytes of room.
unfoldable pub payload_info : (ifile : ℕ) → Search → StubInfo → StubInfo
payload_info ifile s info = record info {
  self_fd = ifile;
  self_offs = s.coffset;
  self_size = s.coffsize;
  payload_offs = s.noffset;
  payload_size = s.nsize;
  payload2_offs = s.noffset2;
  payload2_size = s.nsize2;
  payload2_name =
      if info.payload2_name 0 == 0
      then info.payload2_name
      else strcat 20 info.payload2_name text_dbg;
  stubinfo_ver = bit_or info.stubinfo_ver loader_ver;
}

-- The same with the seek to the payload.
unfoldable pub store_payload : (ifile : ℕ) → Search → StubInfo → Cmd StubInfo
unfolding payload_info
store_payload ifile s info = do seek_set s.noffset; pure (payload_info ifile s info)
