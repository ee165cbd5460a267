-- ===== src/Stub/Info/Layout.antt =====
-- How the C compiler lays `_GO32_StubInfo` (src/stubinfo.h) out in memory, and the offsets that
-- the header gives for assembly.
pub mod Offsets
use djstub.Base.{
  ℕ, ◌+◌, ◌-◌, ◌*◌, ◌/◌, ◌%◌, ◌<◌, ◌≡◌, List, [], ◌∷◌, Bytes, word16, word32, u16_mod, u32_mod, ltb,
  leb, ◌&&◌, if◌then◌else◌,
}
use djstub.Asm.Memory.{store16, store32}
use djstub.Stub.Scan.{StubInfo}

-- A member of a structure: an array of characters, or an integer of 16 or 32 bits.
pub data Field : Type 0 where
  chars : ℕ → Bytes → Field
  half word : ℕ → Field

abbrev pub size_of : Field → ℕ
size_of (chars n b) = n
size_of (half v) = 2
size_of (word v) = 4

-- The first offset from `off` on at which a member may stand: an integer is aligned to its size.
unfoldable pub place : ℕ → Field → ℕ
place off (chars n b) = off
place off (half v) = (off + 1) / 2 * 2
place off (word v) = (off + 3) / 4 * 4

abbrev pub store_field : Field → ℕ → Bytes → Bytes
store_field (chars n b) p mem i = if leb p i && ltb i (p + n) then b (i - p) else mem i
store_field (half v) p mem i = store16 p v mem i
store_field (word v) p mem i = store32 p v mem i

-- Members from an offset in the structure at `base` on.
unfoldable pub store_fields : List Field → (base off : ℕ) → Bytes → Bytes
store_fields [] base off mem = mem
store_fields (f ∷ fs) base off mem =
    let at = place off f in store_fields fs base (at + size_of f) (store_field f (base + at) mem)

-- A member stands in memory at an address.
abbrev pub Holds : Bytes → ℕ → Field → Type 0
Holds mem p (chars n b) = (i : ℕ) → i < n → mem (p + i) ≡ b i
Holds mem p (half v) = word16 mem p ≡ v % u16_mod
Holds mem p (word v) = word32 mem p ≡ v % u32_mod

-- The members, in their order.
pub data Member : Type 0 where
  stubinfo_magic stubinfo_size stubinfo_minstack stubinfo_memory_handle stubinfo_initial_size
        stubinfo_minkeep stubinfo_ds_selector stubinfo_ds_segment stubinfo_psp_selector
        stubinfo_cs_selector stubinfo_env_size stubinfo_reserved stubinfo_argv0 stubinfo_dpmi_server
        stubinfo_stubinfo_ver stubinfo_self_fd stubinfo_self_offs stubinfo_self_size
        stubinfo_payload_offs stubinfo_payload_size stubinfo_payload2_offs stubinfo_payload2_size
        stubinfo_payload2_name stubinfo_mem_base stubinfo_flags stubinfo_uentry stubinfo_cpl_fd
        stubinfo_upl_base stubinfo_upl_size stubinfo_elfload_arg :
      Member

-- The constants of the header.
unfoldable pub offset : Member → ℕ
offset stubinfo_magic = 0
offset stubinfo_size = 0x10
offset stubinfo_minstack = 0x14
offset stubinfo_memory_handle = 0x18
offset stubinfo_initial_size = 0x1c
offset stubinfo_minkeep = 0x20
offset stubinfo_ds_selector = 0x22
offset stubinfo_ds_segment = 0x24
offset stubinfo_psp_selector = 0x26
offset stubinfo_cs_selector = 0x28
offset stubinfo_env_size = 0x2a
offset stubinfo_reserved = 0x2c
offset stubinfo_argv0 = 0x34
offset stubinfo_dpmi_server = 0x44
offset stubinfo_stubinfo_ver = 0x54
offset stubinfo_self_fd = 0x58
offset stubinfo_self_offs = 0x5c
offset stubinfo_self_size = 0x60
offset stubinfo_payload_offs = 0x64
offset stubinfo_payload_size = 0x68
offset stubinfo_payload2_offs = 0x6c
offset stubinfo_payload2_size = 0x70
offset stubinfo_payload2_name = 0x74
offset stubinfo_mem_base = 0x88
offset stubinfo_flags = 0x8c
offset stubinfo_uentry = 0x90
offset stubinfo_cpl_fd = 0x94
offset stubinfo_upl_base = 0x98
offset stubinfo_upl_size = 0x9c
offset stubinfo_elfload_arg = 0xa0

unfoldable pub member : Member → StubInfo → Field
member stubinfo_magic s = chars 16 s.magic
member stubinfo_size s = word s.size
member stubinfo_minstack s = word s.minstack
member stubinfo_memory_handle s = word s.memory_handle
member stubinfo_initial_size s = word s.initial_size
member stubinfo_minkeep s = half s.minkeep
member stubinfo_ds_selector s = half s.ds_selector
member stubinfo_ds_segment s = half s.ds_segment
member stubinfo_psp_selector s = half s.psp_selector
member stubinfo_cs_selector s = half s.cs_selector
member stubinfo_env_size s = half s.env_size
member stubinfo_reserved s = chars 8 s.reserved
member stubinfo_argv0 s = chars 16 s.argv0
member stubinfo_dpmi_server s = chars 16 s.dpmi_server
member stubinfo_stubinfo_ver s = word s.stubinfo_ver
member stubinfo_self_fd s = word s.self_fd
member stubinfo_self_offs s = word s.self_offs
member stubinfo_self_size s = word s.self_size
member stubinfo_payload_offs s = word s.payload_offs
member stubinfo_payload_size s = word s.payload_size
member stubinfo_payload2_offs s = word s.payload2_offs
member stubinfo_payload2_size s = word s.payload2_size
member stubinfo_payload2_name s = chars 20 s.payload2_name
member stubinfo_mem_base s = word s.mem_base
member stubinfo_flags s = word s.flags
member stubinfo_uentry s = word s.uentry
member stubinfo_cpl_fd s = word s.cpl_fd
member stubinfo_upl_base s = word s.upl_base
member stubinfo_upl_size s = word s.upl_size
member stubinfo_elfload_arg s = word s.elfload_arg

abbrev pub members : StubInfo → List Field
members s =
    member stubinfo_magic s
    ∷ member stubinfo_size s
    ∷ member stubinfo_minstack s
    ∷ member stubinfo_memory_handle s
    ∷ member stubinfo_initial_size s
    ∷ member stubinfo_minkeep s
    ∷ member stubinfo_ds_selector s
    ∷ member stubinfo_ds_segment s
    ∷ member stubinfo_psp_selector s
    ∷ member stubinfo_cs_selector s
    ∷ member stubinfo_env_size s
    ∷ member stubinfo_reserved s
    ∷ member stubinfo_argv0 s
    ∷ member stubinfo_dpmi_server s
    ∷ member stubinfo_stubinfo_ver s
    ∷ member stubinfo_self_fd s
    ∷ member stubinfo_self_offs s
    ∷ member stubinfo_self_size s
    ∷ member stubinfo_payload_offs s
    ∷ member stubinfo_payload_size s
    ∷ member stubinfo_payload2_offs s
    ∷ member stubinfo_payload2_size s
    ∷ member stubinfo_payload2_name s
    ∷ member stubinfo_mem_base s
    ∷ member stubinfo_flags s
    ∷ member stubinfo_uentry s
    ∷ member stubinfo_cpl_fd s
    ∷ member stubinfo_upl_base s
    ∷ member stubinfo_upl_size s
    ∷ member stubinfo_elfload_arg s
    ∷ []

-- The structure at an address.
unfoldable pub store_info : StubInfo → (base : ℕ) → Bytes → Bytes
store_info s base mem = store_fields (members s) base 0 mem
