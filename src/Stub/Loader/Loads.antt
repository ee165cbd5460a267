-- ===== src/Stub/Loader/Loads.antt =====
-- What `fullstub` of src/stub.c relies on a loader for, and that the loaders of src/elf.c and
-- src/coff.c do it.
use djstub.Base.{ℕ, ◌+◌, ◌≤◌, ◌<◌, ◌≡◌, refl, List, Bytes, some, u32_mod, add32, sub32, arith}
use djstub.Run.{File, World, Host}
use djstub.Run.Returns.{Returns, mono}
use djstub.Run.Reads.{Sound}
use djstub.Util.FarMem.{FarPtr}
use djstub.Util.FilePart.{IsOpen}
use djstub.Util.Block.{OutsideBlock, OutsideBlock-mono}
use djstub.Elf.{Phdr, Ehdr, ElfH, make_handle, get_elf_va, get_elf_length}
use djstub.Elf.Ranges.{AllHigh}
use djstub.Elf.Image.{Placed, AllLoaded, padding-le}
use djstub.Elf.Block.{read_elf_sections-InBlock}
use djstub.Coff.{text, dat, bss, scn, CoffH, get_coff_va, get_coff_length}
use djstub.Coff.Sections.{InFile, IsLaidOut, HasImage}
use djstub.Coff.Block.{padding-le as coff-padding-le, read_coff_sections-InBlock}
use djstub.Stub.Loader.{Ldops, elf_ops, coff_ops}

-- In a state `w`, and through any selector whose base lets the image's `start` be at an address
-- `mem_lin` with room for `len` bytes and one more, the sections of the handle are read: the image
-- is in memory, and nothing but those bytes has changed.
pub record Loads {H : Type 0} (ops : Host → Ldops H) (offset start len : ℕ) (h : H) (w : World)
    (Image : (base : ℕ) → Bytes → Type 0) : Type 0 where
  pub is_start : (host : Host) → (ops host).get_va h ≡ start
  pub is_length : (host : Host) → (ops host).get_length h ≡ len
  pub in_block :
      (host : Host) (ptr : FarPtr) (base mem_lin : ℕ)
      → host.segment_base ptr.seg ≡ some base
      → mem_lin + len + 1 ≤ u32_mod
      → add32 base ptr.off ≡ sub32 mem_lin start
      → Returns
          (λ _ w'. Image (sub32 mem_lin start) w'.mem × OutsideBlock mem_lin (len + 1) w.mem w'.mem)
          ((ops host).read_sections h ptr offset w)

module _ (f : File) (sound : Sound f) (offset : ℕ) (w : World) (opened : IsOpen f w) where
  -- The ELF loader, for ordered segments that fit.
  pub elf_ops-Loads :
      (ehdr : Ehdr) (ps : List Phdr) (h : ElfH) (hi : ℕ)
      → AllHigh ps
      → Placed f offset hi 0 ps
      → make_handle ehdr ps ≡ some h
      → h.va + h.length + 1 < u32_mod
      → Loads elf_ops offset h.va h.length h w (λ base mem. AllLoaded f offset base mem ps)
  unfolding get_elf_va get_elf_length
  elf_ops-Loads ehdr ps h hi high placed made small = record {
    is_start = λ host. refl;
    is_length = λ host. refl;
    in_block = λ host ptr base mem_lin answer room at.
        mono
          (read_elf_sections-InBlock host f sound ptr offset base mem_lin answer ehdr ps h hi w high
            placed made small room at opened)
          λ _ w' r. (r.0, OutsideBlock-mono (omega (arith, padding-le ps)) r.1);
  }

  -- The COFF loader, for sections that follow one another.
  pub coff_ops-Loads :
      (h : CoffH)
      → InFile f offset (scn w.scns text)
      → InFile f offset (scn w.scns dat)
      → IsLaidOut w.scns
      → h.length ≡ add32 (scn w.scns bss).s_vaddr (scn w.scns bss).s_size
      → Loads coff_ops offset 0 h.length h w (λ base mem. HasImage f offset base w.scns mem w.mem)
  unfolding get_coff_va get_coff_length
  coff_ops-Loads h in_text in_data laid length = record {
    is_start = λ host. refl;
    is_length = λ host. refl;
    in_block = λ host ptr base mem_lin answer room at.
        mono
          (read_coff_sections-InBlock host ptr offset base mem_lin answer f sound h w in_text
            in_data laid length room at opened)
          λ _ w' r. (r.0, OutsideBlock-mono (omega (arith, coff-padding-le w.scns)) r.1);
  }
