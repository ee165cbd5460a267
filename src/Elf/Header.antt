-- ===== src/Elf/Header.antt =====
-- What `read_elf_headers` of src/elf.c makes of a file whose reads do not fail.
use native.Mathlib.Decide.{dec_lt, ℕ_discrete}
use djstub.Base.{
  ℕ, ◌+◌, ◌-◌, ◌*◌, ◌≤◌, ◌<◌, ◌≡◌, refl, ap, ◌∙◌, inl, inr, true, none, List, Bytes, fill-Agree,
  from_index, add32, mul32, u32_mod, Bool-cases, eq→==, ne→==, arith,
}
use djstub.Run.{World, Host, ok, off_limit, set_pos, read}
use djstub.Run.Reads.{Sound, read-full, read-short, skip-run}
use djstub.Elf.{
  Ehdr, Phdr, decode_ehdr, decode_phdrs, sizeof_ehdr, sizeof_phdr, sizeof_elf_h, has_elfmag,
  ei_class, elfclass32, make_handle, read_phdrs, read_elf_headers,
}
use djstub.Elf.Decode.{decode_ehdr-fill, decode_phdrs-cong}

module _ (host : Host) (ehdr : Ehdr) (w : World) (sound : Sound w.file) where
  -- Where the program headers are looked for, and their size.
  abbrev table_pos : ℕ
  table_pos = w.file.pos + (ehdr.e_phoff - sizeof_ehdr)

  abbrev table_size : ℕ
  table_size = sizeof_phdr * ehdr.e_phnum

  abbrev phdrs : List Phdr
  phdrs = decode_phdrs ehdr.e_phnum (from_index table_pos w.file.content)

  read_phdrs-full :
      ehdr.e_phoff < u32_mod
      → ehdr.e_phnum < 0x1_0000
      → table_pos < off_limit
      → host.malloc_ok (sizeof_elf_h + table_size) ≡ true
      → table_pos + table_size ≤ w.file.size
      → read_phdrs host ehdr w ≡ ok (make_handle ehdr phdrs) (set_pos (table_pos + table_size) w)
  unfolding read_phdrs
  read_phdrs-full small few room memory complete =
      let size : mul32 sizeof_phdr ehdr.e_phnum ≡ table_size = omega arith in
      let block : add32 sizeof_elf_h table_size ≡ sizeof_elf_h + table_size = omega arith in
      rw (skip-run sizeof_ehdr ehdr.e_phoff w small room) (
        rw size (
          rw block (
            rw memory (
              rw (read-full host.stack table_size (set_pos table_pos w) sound complete) (
                rw (eq→== table_size table_size refl) (
                  ap (λ ps. ok (make_handle ehdr ps) (set_pos (table_pos + table_size) w))
                    (decode_phdrs-cong ehdr.e_phnum _ _ (
                      fill-Agree host.stack (from_index table_pos w.file.content) table_size))))))))

  read_phdrs-partial :
      (m : ℕ) (buf : Bytes) (w' : World)
      → ehdr.e_phoff < u32_mod
      → ehdr.e_phnum < 0x1_0000
      → table_pos < off_limit
      → host.malloc_ok (sizeof_elf_h + table_size) ≡ true
      → m < table_size
      → read host.stack table_size (set_pos table_pos w) ≡ ok (m, buf) w'
      → read_phdrs host ehdr w ≡ ok none w'
  unfolding read_phdrs
  read_phdrs-partial m buf w' small few room memory less e =
      let size : mul32 sizeof_phdr ehdr.e_phnum ≡ table_size = omega arith in
      let block : add32 sizeof_elf_h table_size ≡ sizeof_elf_h + table_size = omega arith in
      rw (skip-run sizeof_ehdr ehdr.e_phoff w small room)
        (rw (size, block) (rw memory (rw e (rw (ne→== m table_size (omega arith))))))

  read_phdrs-short :
      ehdr.e_phoff < u32_mod
      → ehdr.e_phnum < 0x1_0000
      → table_pos < off_limit
      → host.malloc_ok (sizeof_elf_h + table_size) ≡ true
      → w.file.size < table_pos + table_size
      → 0 < ehdr.e_phnum
      → (w' : World) × (read_phdrs host ehdr w ≡ ok none w')
  read_phdrs-short small few room memory cut has_headers =
      let (m, less, e) =
        read-short host.stack table_size (set_pos table_pos w) sound (omega arith) cut in
      (set_pos (table_pos + m) w, read_phdrs-partial m _ _ small few room memory less e)

-- The header checks of the loader.
pub record IsElf32 (ehdr : Ehdr) : Type 0 where
  pub magic : has_elfmag ehdr.e_ident ≡ true
  pub class_32 : ehdr.e_ident ei_class ≡ elfclass32
  pub header_size : ehdr.e_ehsize ≡ sizeof_ehdr
  pub entry_size : ehdr.e_phentsize ≡ sizeof_phdr

module _ (host : Host) (w : World) (sound : Sound w.file) where
  abbrev pub header : Ehdr
  header = decode_ehdr (from_index w.file.pos w.file.content)

  abbrev after_header : World
  after_header = set_pos (w.file.pos + sizeof_ehdr) w

  read_elf_headers-step :
      w.file.pos + sizeof_ehdr ≤ w.file.size
      → IsElf32 header
      → read_elf_headers host w ≡ read_phdrs host header after_header
  unfolding read_elf_headers
  read_elf_headers-step h is = rw (read-full host.stack sizeof_ehdr w sound h) (
      rw (decode_ehdr-fill host.stack (from_index w.file.pos w.file.content))
        (rw (is.magic, eq→== _ _ is.class_32, eq→== _ _ is.header_size, eq→== _ _ is.entry_size)))

  -- Where the program headers stand: at `e_phoff` from the start of the ELF file, or right behind
  -- its header where that is less.
  abbrev pub phdr_pos : ℕ
  phdr_pos = w.file.pos + sizeof_ehdr + (header.e_phoff - sizeof_ehdr)

  abbrev pub phdr_size : ℕ
  phdr_size = sizeof_phdr * header.e_phnum

  abbrev pub file_phdrs : List Phdr
  file_phdrs = decode_phdrs header.e_phnum (from_index phdr_pos w.file.content)

  -- Let no read of a file smaller than 2 GiB fail, let a 32-bit ELF header stand at its position,
  -- let the file hold the program headers that the header announces, and let the allocation
  -- succeed. Then `read_elf_headers` returns what `make_handle` makes of the header and the
  -- program headers of the file, and leaves the position behind them.
  pub read_elf_headers-valid :
      IsElf32 header
      → w.file.size < off_limit
      → header.e_phoff < u32_mod
      → header.e_phnum < 0x1_0000
      → phdr_pos + phdr_size ≤ w.file.size
      → host.malloc_ok (sizeof_elf_h + phdr_size) ≡ true
      → read_elf_headers host w
        ≡ ok (make_handle header file_phdrs) (set_pos (phdr_pos + phdr_size) w)
  read_elf_headers-valid is small off few complete memory =
      read_elf_headers-step (omega arith) is
      ∙ read_phdrs-full host header after_header sound off few (omega arith) memory complete

  read_elf_headers-short :
      w.file.size < w.file.pos + sizeof_ehdr → (w' : World) × (read_elf_headers host w ≡ ok none w')
  unfolding read_elf_headers
  read_elf_headers-short h =
      let (m, less, e) = read-short host.stack sizeof_ehdr w sound (omega arith) h in
      (set_pos (w.file.pos + m) w, rw e (rw (ne→== m sizeof_ehdr (omega arith))))

  -- The checks, in the order of the code.
  read_elf_headers-checks :
      w.file.pos + sizeof_ehdr ≤ w.file.size
      → ¬ IsElf32 header
      → read_elf_headers host w ≡ ok none after_header
  unfolding read_elf_headers
  read_elf_headers-checks start other = rw (read-full host.stack sizeof_ehdr w sound start) (
      rw (decode_ehdr-fill host.stack (from_index w.file.pos w.file.content))
        (elim (Bool-cases (has_elfmag header.e_ident)) [
          | inr bad ↦ rw bad
          | inl magic ↦ rw magic (elim (ℕ_discrete (header.e_ident ei_class) elfclass32) [
            | no bad ↦ rw (ne→== (header.e_ident ei_class) elfclass32 bad)
            | yes class ↦
                rw (eq→== (header.e_ident ei_class) elfclass32 class)
                  (elim (ℕ_discrete header.e_ehsize sizeof_ehdr) [
                    | no bad ↦ rw (ne→== header.e_ehsize sizeof_ehdr bad)
                    | yes size ↦
                        rw (eq→== header.e_ehsize sizeof_ehdr size)
                          (elim (ℕ_discrete header.e_phentsize sizeof_phdr) [
                            | no bad ↦ rw (ne→== header.e_phentsize sizeof_phdr bad)
                            | yes entry ↦ absurd (
                                other (record {
                                  magic = magic;
                                  class_32 = class;
                                  header_size = size;
                                  entry_size = entry;
                                }))
                          ])
                  ])
          ])
        ]))

  -- Where no read fails and the bytes at the position are not the header of a 32-bit ELF file
  -- (magic number, class, and the sizes of the header and of a program header), `read_elf_headers`
  -- returns NULL.
  pub read_elf_headers-foreign :
      ¬ IsElf32 header → (w' : World) × (read_elf_headers host w ≡ ok none w')
  read_elf_headers-foreign other = elim (dec_lt w.file.size (w.file.pos + sizeof_ehdr)) [
    | yes cut ↦ read_elf_headers-short cut
    | no start ↦ (after_header, read_elf_headers-checks (omega arith) other)
  ]

  -- Where no read fails and a 32-bit ELF header announces program headers, of which the file ends
  -- before the last, `read_elf_headers` returns NULL, if the allocation succeeds and the headers
  -- are looked for below 2 GiB.
  pub read_elf_headers-cut :
      IsElf32 header
      → w.file.size < off_limit
      → phdr_pos < off_limit
      → header.e_phoff < u32_mod
      → header.e_phnum < 0x1_0000
      → 0 < header.e_phnum
      → w.file.size < phdr_pos + phdr_size
      → host.malloc_ok (sizeof_elf_h + phdr_size) ≡ true
      → (w' : World) × (read_elf_headers host w ≡ ok none w')
  read_elf_headers-cut is small room off few has_headers cut memory =
      elim (dec_lt w.file.size (w.file.pos + sizeof_ehdr)) [
        | yes short ↦ read_elf_headers-short short
        | no start ↦
            let (w', e) =
              read_phdrs-short host header after_header sound off few room memory cut has_headers in
            (w', read_elf_headers-step (omega arith) is ∙ e)
      ]
