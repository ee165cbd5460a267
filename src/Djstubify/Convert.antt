-- ===== src/Djstubify/Convert.antt =====
-- `coff2exe` of djstubify2.py without -i: the walk over the headers of the input, and the output.
-- `none` is an exception, a failed assertion or the result -1.
pub mod Bare
pub mod Copy
pub mod Walked
pub mod Table
pub mod Restub
pub mod Twice
pub mod Unstub
pub mod Strip
pub mod Stripped
use Prim.Native.Nat.{min, bit_and}
use djstub.Base.{
  ℕ, zero, suc, ◌+◌, ◌-◌, ◌*◌, ◌/◌, ◌%◌, Bool, ◌&&◌, ◌||◌, not, Option, none, some, Bytes,
  from_index, word16, word32, ltb, leb, ◌==◌, if◌then◌else◌,
}
use djstub.Base.Options.{◌>>=◌}
use djstub.Djstubify.{Blob, append, size_at, find_size, find_offs, write_u32, write_byte}

-- The variables of the walk.
pub record Walk : Type 0 where
  pub coffset : ℕ
  pub mzhdr_buf : Blob
  pub coff_file_size : ℕ
  pub rmoverlay : ℕ
  pub can_copy_ovl : ℕ
  pub stub_v : ℕ
  pub flags : ℕ

-- The options -r and -s.
pub record Mode : Type 0 where
  pub rmstub : Bool
  pub strip : Bool

-- `again` is the next round of the loop, `leave` its `break`.
pub data Round : Type 0 where
  again leave : Walk → Round

-- `type_val`, `sz`, `i` and `offs` of the loop over the types.
pub record Last : Type 0 where
  pub type_val : ℕ
  pub sz : ℕ
  pub i : ℕ
  pub offs : ℕ

-- `while type_map > 0` on the table in `mv`, on fuel as in `find_idx`.
unfoldable pub last_loop : ℕ → (type_map : ℕ) → Bytes → Last → Option Last
last_loop zero type_map mv l = none
last_loop (suc k) type_map mv l =
    let sz = size_at mv l.i in
    let entry : Last = record { type_val = type_map % 0x10; sz = sz; i = l.i; offs = l.offs } in
    let next : Last = record entry { i = l.i + 1; offs = l.offs + sz } in
    let rest = last_loop k (type_map / 0x10) mv next in
    if type_map == 0 then some l else if sz == 0 then some entry else rest

-- The last overlay of the table, from `type_map` on.
unfoldable pub last_overlay : Bytes → ℕ → Option Last
last_overlay mv offs =
    let type_map = word16 mv 0x36 in
    if type_map == 0
    then some (record { type_val = 0; sz = word32 mv 0x1c; i = 0; offs = offs })
    else last_loop 5 type_map mv (record { type_val = 0; sz = 0; i = 0; offs = offs })

-- A bit of the flags.
abbrev pub has_flag : ℕ → ℕ → Bool
has_flag flags bit = not (bit_and flags bit == 0)

-- `tp` of `if rmstub`.
unfoldable pub main_type : ℕ → ℕ
main_type flags = if has_flag flags 0x80 then (if has_flag flags 0x2000 then 1 else 3) else 0

-- `if rmstub`
unfoldable pub take_overlay : Bytes → Walk → Option Round
take_overlay buf w = do
  off ← find_offs (main_type w.flags) buf
  sz ← find_size (main_type w.flags) buf
  some (leave (record w { coffset = w.coffset + off; coff_file_size = sz }))

-- `elif strip and ...`
unfoldable pub strip_overlay : Bytes → Walk → Option Round
strip_overlay buf w = do
  l ← last_overlay buf w.coffset
  if l.type_val == 4 || l.type_val == 5
      then (if leb l.i 1 then none else do
        hdr ← write_u32 (0x1c + (l.i - 1) * 4) 0 w.mzhdr_buf
        some (again (record w { mzhdr_buf = hdr; coff_file_size = l.offs - l.sz - w.coffset })))
      else some (again w)

-- A header with lfanew.
unfoldable pub walk_stub : Mode → Bytes → Walk → Option Round
walk_stub m buf w =
    let next : Walk = record w {
      coffset = word32 buf 0x3c;
      mzhdr_buf = record { content = buf; size = 0x40 };
      rmoverlay = w.rmoverlay + (if m.rmstub || m.strip then 1 else 0);
      can_copy_ovl = w.can_copy_ovl + 1;
      stub_v = buf 0x3b;
      flags = word16 buf 0x38;
    } in
    if ltb (buf 0x3b) 8
    then none
    else if m.rmstub
    then take_overlay buf next
    else if m.strip
    then strip_overlay buf next
    else some (again next)

-- An MZ header without lfanew: `coffset` behind the blocks. A negative offset is an exception at
-- the next `seek`.
unfoldable pub walk_exe : Bytes → Walk → Option Round
walk_exe buf w =
    let blocks = buf 4 + buf 5 * 256 in
    let partial = buf 2 + buf 3 * 256 in
    let after = w.coffset + blocks * 512 in
    if partial == 0
    then some (again (record w { coffset = after }))
    else if ltb (after + partial) 512
    then none
    else some (again (record w { coffset = after + partial - 512 }))

-- A round of `while True` on the header that is read.
unfoldable pub walk_round : Mode → Bytes → Walk → Option Round
walk_round m buf w =
    if buf 0 == b'M' && buf 1 == b'Z'
    then (if buf 8 == 4 && buf 9 == 0 then walk_stub m buf w else walk_exe buf w)
    else if buf 0 == 0x4c && buf 1 == 0x01
    then (if not (w.stub_v == 0) && has_flag w.flags 0x80 then none else some (leave w))
    else if buf 0 == 0x7f && buf 1 == 0x45 && buf 2 == 0x4c && buf 3 == 0x46
    then (if not (w.stub_v == 0) && not (has_flag w.flags 0x80) then none else some (leave w))
    else some (leave w)

-- `while True`, on fuel.
unfoldable pub walk : ℕ → Mode → Blob → Walk → Option Walk
walk zero m f w = none
walk (suc k) m f w = if ltb f.size (w.coffset + 0x40) then none else do
  r ← walk_round m (from_index w.coffset f.content) w
  elim r [ again w' ↦ walk k m f w' | leave w' ↦ some w' ]

-- `size` bytes of a file from `pos` on.
abbrev pub slice : Blob → (pos size : ℕ) → Blob
slice f pos size = record { content = from_index pos f.content; size = size }

-- The loop that copies the payload, on fuel; `left` is `coff_file_size`.
unfoldable pub copy_loop : ℕ → (rmoverlay left pos : ℕ) → Blob → Blob → Option Blob
copy_loop zero rmoverlay left pos f out = none
copy_loop (suc k) rmoverlay left pos f out =
    let chunk = if rmoverlay == 0 then 4096 else min 4096 left in
    let n = min chunk (f.size - pos) in
    let left' = if rmoverlay == 0 then left else left - n in
    let rest = copy_loop k rmoverlay left' (pos + n) f (append out (slice f pos n)) in
    if left == 0 || n == 0 then some out else rest

-- The variables before the walk.
abbrev pub no_walk : Walk
no_walk = record {
  coffset = 0;
  mzhdr_buf = record { content = λ i. 0; size = 0x40 };
  coff_file_size = 0;
  rmoverlay = 0;
  can_copy_ovl = 0;
  stub_v = 0;
  flags = 0;
}

-- The header of the new stub, from `if stub_v` to the size of the stub.
unfoldable pub new_header : (stub_ver : ℕ) → Walk → (left : ℕ) → Blob → Option Blob
new_header stub_ver w left stub = do
  s ←
      if w.can_copy_ovl == 0
      then write_u32 0x1c left stub
      else some (record stub {
        content = λ i. if leb 0x1c i && ltb i 0x3c then w.mzhdr_buf.content i else stub.content i;
      })
  s ← write_byte 0x3b (if w.stub_v == 0 then stub_ver else w.stub_v) s
  write_u32 0x3c stub.size s

-- Up to `if info`: the walk, `coff_file_size` and the stub with its header.
unfoldable pub prepare_output :
    (k : ℕ) → Mode → (stub_ver : ℕ) → (stub ifile : Blob) → Option (Walk × ℕ × Blob)
prepare_output k m stub_ver stub ifile = do
  w ← walk k m ifile no_walk
  let left = if w.coff_file_size == 0 then ifile.size - w.coffset else w.coff_file_size
  s ← new_header stub_ver w left stub
  some (w, left, s)

-- With fuel for the walk and for the copy.
unfoldable pub coff2exe : (k n : ℕ) → Mode → (stub_ver : ℕ) → (stub ifile : Blob) → Option Blob
coff2exe k n m stub_ver stub ifile = do
  (w, left, s) ← prepare_output k m stub_ver stub ifile
  copy_loop n w.rmoverlay left w.coffset ifile
      (if m.rmstub then record { content = λ i. 0; size = 0 } else s)
