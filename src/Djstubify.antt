-- ===== src/Djstubify.antt =====
-- djstubify2.py: the table of the overlays in the header of a stub, and `main` with -g, which links
-- a stub with its overlays. `none` is an exception or a failure.
pub mod Linked
pub mod Options
pub mod Parts
pub mod Convert
pub mod Find
pub mod Header
pub mod Started
pub mod Written
use djstub.Base.{
  ℕ, zero, suc, ◌+◌, ◌-◌, ◌*◌, ◌/◌, ◌%◌, ◌&&◌, Option, none, some, List, [], ◌∷◌, Bytes, word16,
  word32, u16_mod, u32_mod, ltb, leb, ◌==◌, if◌then◌else◌,
}
use djstub.Base.Options.{◌>>=◌}
use djstub.Libc.{store}
use djstub.Asm.Memory.{store16, store32}

-- A `bytes`, a `bytearray` or a file.
pub record Blob : Type 0 where
  pub content : Bytes
  pub size : ℕ

-- `while type_map` of `find_idx`. A map of 16 bits is 0 after 4 rounds; the fuel is 5.
unfoldable pub find_idx_loop : ℕ → (type_map type_val cnt : ℕ) → Option ℕ
find_idx_loop zero type_map type_val cnt = none
find_idx_loop (suc k) type_map type_val cnt =
    let rest = find_idx_loop k (type_map / 0x10) type_val (cnt + 1) in
    if type_map == 0 then none else if type_map % 0x10 == type_val then some cnt else rest

-- `none` is -1.
unfoldable pub find_idx : (type_val : ℕ) → Bytes → Option ℕ
unfolding find_idx_loop
find_idx type_val buf =
    let type_map = word16 buf 0x36 in
    if type_val == 0 && type_map == 0 then some 0 else find_idx_loop 5 type_map type_val 0

-- The size in the table at an index.
unfoldable pub size_at : Bytes → ℕ → ℕ
size_at buf idx = word32 buf (0x1c + idx * 4)

unfoldable pub find_size : (type_val : ℕ) → Bytes → Option ℕ
unfolding find_idx size_at
find_size type_val buf = do idx ← find_idx type_val buf; some (size_at buf idx)

unfoldable pub find_offs_loop : ℕ → (type_map type_val cnt offs : ℕ) → Bytes → Option ℕ
unfolding size_at
find_offs_loop zero type_map type_val cnt offs buf = none
find_offs_loop (suc k) type_map type_val cnt offs buf =
    let rest = find_offs_loop k (type_map / 0x10) type_val (cnt + 1) (offs + size_at buf cnt) buf in
    if type_map == 0 then none else if type_map % 0x10 == type_val then some offs else rest

unfoldable pub find_offs : (type_val : ℕ) → Bytes → Option ℕ
unfolding find_offs_loop
find_offs type_val buf =
    let type_map = word16 buf 0x36 in
    if type_val == 0 && type_map == 0 then some 0 else find_offs_loop 5 type_map type_val 0 0 buf

-- `to_bytes` refuses a value that is too large, and the assignment to the slice one that is cut.
unfoldable pub write_u16 : (offset value : ℕ) → Blob → Option Blob
write_u16 offset value buf =
    if ltb value u16_mod && leb (offset + 2) buf.size
    then some (record buf { content = store16 offset value buf.content })
    else none

unfoldable pub write_u32 : (offset value : ℕ) → Blob → Option Blob
write_u32 offset value buf =
    if ltb value u32_mod && leb (offset + 4) buf.size
    then some (record buf { content = store32 offset value buf.content })
    else none

-- `buf[offset] = value`
unfoldable pub write_byte : (offset value : ℕ) → Blob → Option Blob
write_byte offset value buf =
    if ltb value 0x100 && ltb offset buf.size
    then some (record buf { content = store buf.content offset value })
    else none

-- One file behind the other.
-- The bytes of some files together.
abbrev pub total : List Blob → ℕ
total [] = 0
total (b ∷ bs) = b.size + total bs

unfoldable pub append : Blob → Blob → Blob
append a b = record {
  content = λ i. if ltb i a.size then a.content i else b.content (i - a.size);
  size = a.size + b.size;
}

unfoldable pub append_all : Blob → List Blob → Blob
unfolding append
append_all a [] = a
append_all a (b ∷ bs) = append_all (append a b) bs

-- The loop over the overlays that writes their sizes.
unfoldable pub write_sizes : List Blob → (i : ℕ) → Blob → Option Blob
unfolding write_u32
write_sizes [] i stub = some stub
write_sizes (o ∷ overlays) i stub = do
  stub ← write_u32 (0x1c + i * 4) o.size stub
  write_sizes overlays (i + 1) stub

-- What the options of the command line give: -l (the files), -t, -n, -f and -V.
pub record Link : Type 0 where
  pub overlays : List Blob
  pub type_map : ℕ
  pub nmoffs : ℕ
  pub stub_flags : ℕ
  pub stub_ver : ℕ

-- The header of the output, from `if noverlay` to the size of the stub.
unfoldable pub write_header : Link → Blob → Option Blob
unfolding write_sizes write_u16 write_u32 write_byte
write_header l stub = do
  s ← write_sizes l.overlays 0 stub
  s ← write_u32 0x28 l.nmoffs s
  s ← write_u16 0x36 l.type_map s
  s ← write_u16 0x38 l.stub_flags s
  s ← write_byte 0x3b l.stub_ver s
  write_u32 0x3c stub.size s

-- The branch of -g.
unfoldable pub generate : Link → Blob → Option Blob
unfolding write_header append_all
generate l stub = do s ← write_header l stub; some (append_all s l.overlays)
