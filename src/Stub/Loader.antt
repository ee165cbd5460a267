-- ===== src/Stub/Loader.antt =====
-- `struct ldops` of src/stub.h, which `fullstub` calls the loaders of src/elf.c and src/coff.c
-- through.
pub mod Loads
use djstub.Base.{ℕ, Option}
use djstub.Run.{Host, Cmd}
use djstub.Util.FarMem.{FarPtr}
use djstub.Elf.{
  ElfH, read_elf_headers, get_elf_va, get_elf_length, get_elf_entry, read_elf_sections,
}
use djstub.Coff.{
  CoffH, read_coff_headers, get_coff_va, get_coff_length, get_coff_entry, read_coff_sections,
}

-- `struct ldops`, for handles of type `H`.
pub record Ldops (H : Type 0) : Type 0 where
  pub read_headers : Cmd (Option H)
  pub get_va : H → ℕ
  pub get_length : H → ℕ
  pub get_entry : H → ℕ
  pub read_sections : H → FarPtr → (offset : ℕ) → Cmd (Unit {0})

module _ (host : Host) where
  abbrev pub elf_ops : Ldops ElfH
  elf_ops = record {
    read_headers = read_elf_headers host;
    get_va = get_elf_va host;
    get_length = get_elf_length host;
    get_entry = get_elf_entry host;
    read_sections = read_elf_sections host;
  }

  abbrev pub coff_ops : Ldops CoffH
  coff_ops = record {
    read_headers = read_coff_headers host;
    get_va = get_coff_va host;
    get_length = get_coff_length host;
    get_entry = get_coff_entry host;
    read_sections = read_coff_sections host;
  }
