-- ===== src/Stub/Main/Refuses.antt =====
-- `fullstub` of src/stub.c on a file whose executable is not whole or not of the right kind.
use djstub.Base.{ℕ, ◌+◌, ◌<◌, ◌≡◌, refl, ap, ◌∙◌, ◌⊎◌, none, some, List, ◌∷◌, Bytes, arith}
use djstub.Run.{File, World, exit_failure, and_then, off_limit}
use djstub.Run.Reads.{Sound}
use djstub.Elf.Header.{IsElf32, header, read_elf_headers-foreign}
use djstub.Coff.{sizeof_opt_header}
use djstub.Coff.Header.{scns_size, table_pos, header as coff_header, read_coff_headers-invalid}
use djstub.Stub.Scan.{StubInfo, Search, Format, coff, elf}
use djstub.Stub.Scan.Chain.{Chain, moved, search_loop-Chain}
use djstub.Stub.Source.{choose_file}
use djstub.Stub.Main.{
  System, no_search, prepare, prepare_format, start_client, find_format, fullstub,
}
use djstub.Stub.Main.Starts.{chosen, opened, started, first_world, fullstub-chosen}

module _ {S : Type 0} (sys : System S) (envp : List (List ℕ)) (argv0 : List ℕ) (f : File)
    (sound : Sound f) (mem scns : Bytes) (s : S) where
  -- The state in which the loader reads the headers of the executable at an offset.
  abbrev pub at_headers : ℕ → World
  at_headers o = moved sys.host f (first_world f mem scns) o

  -- What the search takes for an ELF file is none for 32 bits (magic number, class, and the sizes
  -- of the two kinds of headers), or what it takes for a COFF file has a short optional header or
  -- ends before its section table does.
  pub data Refused (o : ℕ) : Format → Type 0 where
    foreign : ¬ IsElf32 (header sys.host (at_headers o) sound) → Refused o elf
    incomplete :
        (coff_header sys.host (at_headers o) sound).f_opthdr < 0x1_0000
        → ((coff_header sys.host (at_headers o) sound).f_opthdr < sizeof_opt_header)
          ⊎ (f.size < table_pos sys.host (at_headers o) sound + scns_size)
        → Refused o coff

  prepare-refuses :
      (ifile : ℕ) (search : Search) (format : Format)
      → f.size + 0x1_0000 < off_limit
      → Refused search.coffset format
      → prepare_format sys envp argv0 ifile format search s (at_headers search.coffset)
        ≡ exit_failure
  unfolding prepare_format prepare
  prepare-refuses ifile search elf small (foreign other) =
      let (w', e) = read_elf_headers-foreign sys.host (at_headers search.coffset) sound other in
      rw e refl
  prepare-refuses ifile search coff small (incomplete short bad) =
      let (w', e) =
        read_coff_headers-invalid sys.host (at_headers search.coffset) sound small short bad in
      rw e refl

  -- Let the environment not name a file in ELFEXEC, let the program's file open, let no read of
  -- it fail, let it be smaller than 2 GiB by 64 KiB, and let a chain of MZ headers lead to what
  -- the search takes for an executable. If this is taken for an ELF file and is none for 32 bits,
  -- or for a COFF file whose optional header is shorter than 28 bytes or whose section table does
  -- not end within the file, then there is a fuel with which `fullstub` exits with EXIT_FAILURE.
  pub fullstub-refuses :
      (argv : List (List ℕ)) (info found : StubInfo) (fname : List ℕ) (ifile : ℕ) (format : Format)
      (search : Search)
      → choose_file envp argv0 info ≡ (fname, none, found)
      → sys.open_file fname ≡ some (ifile, record f { pos = 0 })
      → f.size + 0x1_0000 < off_limit
      → Chain sys.host f (no_search sys found) format search
      → Refused search.coffset format
      → (k : ℕ) × (fullstub sys k (argv0 ∷ argv) envp mem scns info s ≡ exit_failure)
  unfolding find_format
  fullstub-refuses argv info found fname ifile format search chosen_file opened_file small chain
        refused =
      let (k, e) =
        search_loop-Chain sys.host f sound (no_search sys found) search format
          (first_world f mem scns) (omega arith) chain refl in
      (
        k,
        fullstub-chosen sys k argv0 envp mem scns s argv info
            ∙ ap (chosen sys k argv0 envp mem scns s) chosen_file
            ∙ ap (opened sys k argv0 envp mem scns s none found) opened_file
            ∙ ap (λ r. and_then r (started sys k argv0 envp mem scns s ifile)) e
            ∙ ap (λ r. and_then r (start_client sys))
                (prepare-refuses ifile search format small refused),
      )
