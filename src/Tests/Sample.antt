-- ===== src/Tests/Sample.antt =====
-- A host, a far pointer and executables to run the model of src/*.c on.
use djstub.Base.{ℕ, ◌%◌, true, false, Option, none, some, List, [], ◌∷◌, Bytes, ◌==◌, if◌then◌else◌}
use djstub.Run.{File, World, Host, Run, ok}
use djstub.Util.FarMem.{FarPtr}

-- The buffer with the given bytes at the given offsets.
abbrev pub at_offsets : List (ℕ × ℕ) → Bytes
at_offsets [] i = 0
at_offsets ((o, v) ∷ r) i = if i == o then v else at_offsets r i

-- Memory is there, selector 7 has its base just below 4 GiB, so that addresses wrap, and the
-- stack holds garbage.
abbrev pub host : Host
host = record {
  malloc_ok = λ n. true;
  segment_base = λ sel. if sel == 7 then some 0xffff_f000 else none;
  stack = λ i. 0xcc;
}

abbrev pub ptr : FarPtr
ptr = record { off = 0; seg = 7 }

abbrev pub sound_file : Bytes → ℕ → ℕ → File
sound_file content size pos = record {
  content = content;
  size = size;
  pos = pos;
  faulty = λ p. false;
}

abbrev pub world : File → World
world f = record { file = f; mem = λ a. 0xee; scns = λ i. 0 }

-- A file whose bytes count up.
abbrev pub counting : ℕ → ℕ → File
counting size pos = sound_file (λ i. i % 0x100) size pos

-- A file whose reads all fail.
abbrev pub broken : File
broken = record { content = λ i. 0; size = 100; pos = 0; faulty = λ p. true }

-- A 32-bit ELF file: entry point 0x1010, and two loadable segments, of 3 bytes and 4 zeros at
-- 0x1000, and of 5 bytes at 0x2000.
abbrev pub elf_bytes : Bytes
elf_bytes = at_offsets (
    (0, 0x7f)
    ∷ (1, b'E')
    ∷ (2, b'L')
    ∷ (3, b'F')
    ∷ (4, 1)
    ∷ (24, 0x10)
    ∷ (25, 0x10)
    ∷ (28, 52)
    ∷ (40, 52)
    ∷ (42, 32)
    ∷ (44, 2)
    ∷ (52, 1)
    ∷ (56, 0x80)
    ∷ (61, 0x10)
    ∷ (68, 3)
    ∷ (72, 7)
    ∷ (81, 0x10)
    ∷ (84, 1)
    ∷ (88, 0x83)
    ∷ (93, 0x20)
    ∷ (100, 5)
    ∷ (104, 5)
    ∷ (113, 0x10)
    ∷ (128, 0xa0)
    ∷ (129, 0xa1)
    ∷ (130, 0xa2)
    ∷ (131, 0xb0)
    ∷ (132, 0xb1)
    ∷ (133, 0xb2)
    ∷ (134, 0xb3)
    ∷ (135, 0xb4)
    ∷ [])

abbrev pub elf_file : File
elf_file = sound_file elf_bytes 136 0

-- A COFF file with an optional header of 28 bytes: text of 4 bytes at 0x1000, data of 3 at 0x2000
-- and bss of 5 at 0x2003.
abbrev pub coff_bytes : Bytes
coff_bytes = at_offsets (
    (0, 0x4c)
    ∷ (1, 1)
    ∷ (2, 3)
    ∷ (16, 28)
    ∷ (36, 0x34)
    ∷ (37, 0x12)
    ∷ (61, 0x10)
    ∷ (64, 4)
    ∷ (68, 0xa8)
    ∷ (101, 0x20)
    ∷ (104, 3)
    ∷ (108, 0xac)
    ∷ (140, 3)
    ∷ (141, 0x20)
    ∷ (144, 5)
    ∷ (168, 0xc0)
    ∷ (169, 0xc1)
    ∷ (170, 0xc2)
    ∷ (171, 0xc3)
    ∷ (172, 0xd0)
    ∷ (173, 0xd1)
    ∷ (174, 0xd2)
    ∷ [])

abbrev pub coff_file : File
coff_file = sound_file coff_bytes 175 0

-- A stub whose MZ header leads to a COFF header at 64, of size 100 and followed by a payload of
-- size 9.
abbrev pub stub_bytes : Bytes
stub_bytes = at_offsets (
    (0, b'M')
    ∷ (1, b'Z')
    ∷ (8, 4)
    ∷ (0x1c, 100)
    ∷ (0x20, 9)
    ∷ (0x38, 0x80)
    ∷ (0x3b, 8)
    ∷ (0x3c, 64)
    ∷ (64, 0x4c)
    ∷ (65, 1)
    ∷ [])

abbrev pub stub_file : File
stub_file = sound_file stub_bytes 200 0

-- The byte of memory at an address after a run that returns.
abbrev pub peek : {A : Type 0} → Run A → ℕ → Option ℕ
peek (ok a w) x = some (w.mem x)
peek _ x = none

abbrev pub result : {A : Type 0} → Run A → Option A
result (ok a w) = some a
result _ = none
