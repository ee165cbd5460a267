-- ===== src/Stub/Client/Block.antt =====
-- The client's image within the block of memory that is allocated for it (src/stub.c).
use Prim.Native.Nat.{max}
use djstub.Base.{ℕ, ◌+◌, ◌-◌, ◌≤◌, ◌<◌, ◌≡◌, List, add32, sub32, u32_mod, arith}
use djstub.Stub.Scan.{StubInfo}
use djstub.Stub.Info.{image_info}
use djstub.Stub.Client.{page_align}

page_align-le : (n : ℕ) → n ≤ 0xffff_f000 → n ≤ page_align n
unfolding page_align
page_align-le n h = omega arith

-- The size of the block for an image.
abbrev pub block_size : List (List ℕ) → List ℕ → ℕ → StubInfo → ℕ
block_size envp argv0 va_size info = page_align (image_info envp argv0 va_size info).initial_size

block_size-le :
    (envp : List (List ℕ)) (argv0 : List ℕ) (va_size : ℕ) (info : StubInfo)
    → va_size ≤ 0xffff_f000
    → va_size ≤ block_size envp argv0 va_size info
unfolding image_info
block_size-le envp argv0 va_size info h =
    omega (arith, page_align-le (max va_size 0x1_0000) (omega arith))

-- Let the image have at most 2^32 - 4096 bytes, and let neither it nor the block, of the initial
-- size aligned to a page, go beyond the address space. Then an offset of the client within the
-- image, with the base that the selectors have, is the address in the block at the same distance
-- from its start.
pub client_address-InBlock :
    (envp : List (List ℕ)) (argv0 : List ℕ) (va va_size mem_lin o : ℕ) (info : StubInfo)
    → let n = block_size envp argv0 va_size info in
      va_size ≤ 0xffff_f000
      → mem_lin + n ≤ u32_mod
      → va + va_size ≤ u32_mod
      → va ≤ o
      → o < va + va_size
      → let address = add32 (sub32 mem_lin va) o in
        (address ≡ mem_lin + (o - va)) × (address < mem_lin + n)
client_address-InBlock envp argv0 va va_size mem_lin o info small room fits low high =
    let le = block_size-le envp argv0 va_size info small in (omega arith, omega arith)
