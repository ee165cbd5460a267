-- ===== src/Coff/Header.antt =====
-- What `read_coff_headers` of src/coff.c makes of a file whose reads do not fail.
use native.Mathlib.Decide.{dec_lt}
use djstub.Base.{
  ℕ, ◌+◌, ◌-◌, ◌≤◌, ◌<◌, ◌≡◌, refl, sym, ap, ◌∙◌, ◌⊎◌, true, none, some, Bytes, fill, from_index,
  word16, word32, add32, u32_mod, ne→==, lt→ltb, le→ltb, arith,
}
use djstub.Run.{World, Host, ok, off_limit, set_pos}
use djstub.Run.Reads.{Sound, read-full, read-short, skip-run}
use djstub.Coff.{
  CoffHeader, OptHeader, CoffH, bss, scn, decode_coff_header, decode_opt_header, sizeof_coff_header,
  sizeof_opt_header, sizeof_coff_h, read_scns, read_opt_header, read_coff_headers,
}

-- A structure read in full does not depend on what the buffer held.
decode_coff_header-fill :
    (old b : Bytes) → decode_coff_header (fill old sizeof_coff_header b) ≡ decode_coff_header b
unfolding decode_coff_header word16 word32
decode_coff_header-fill old b = refl

decode_opt_header-fill :
    (old b : Bytes) → decode_opt_header (fill old sizeof_opt_header b) ≡ decode_opt_header b
unfolding decode_opt_header word16 word32
decode_opt_header-fill old b = refl

-- The size of the section table.
abbrev pub scns_size : ℕ
scns_size = 120

module _ (host : Host) where
  -- The static table after the read, and the handle from it.
  abbrev table : World → Bytes
  table w = fill w.scns scns_size (from_index w.file.pos w.file.content)

  abbrev handle : Bytes → OptHeader → CoffH
  handle scns ohdr = record {
    length = add32 (scn scns bss).s_vaddr (scn scns bss).s_size;
    entry = ohdr.entry;
  }

  abbrev after_scns : World → World
  after_scns w = record (set_pos (w.file.pos + scns_size) w) { scns = table w }

  module _ (ohdr : OptHeader) (w : World) (sound : Sound w.file) where
    read_scns-full :
        host.malloc_ok sizeof_coff_h ≡ true
        → w.file.pos + scns_size ≤ w.file.size
        → read_scns host ohdr w ≡ ok (some (handle (table w) ohdr)) (after_scns w)
    unfolding read_scns
    read_scns-full memory h = rw (read-full w.scns scns_size w sound h) (rw memory)

    read_scns-short :
        w.file.size < w.file.pos + scns_size → (w' : World) × (read_scns host ohdr w ≡ ok none w')
    unfolding read_scns
    read_scns-short h =
        let (m, less, e) = read-short w.scns scns_size w sound (omega arith) h in
        (
          record (set_pos (w.file.pos + m) w) {
            scns = fill w.scns m (from_index w.file.pos w.file.content);
          },
          rw e (rw (ne→== m scns_size (omega arith))),
        )

  module _ (chdr : CoffHeader) (w : World) (sound : Sound w.file) where
    abbrev ohdr : OptHeader
    ohdr = decode_opt_header (from_index w.file.pos w.file.content)

    -- Where the section table is looked for.
    abbrev scns_pos : ℕ
    scns_pos = w.file.pos + sizeof_opt_header + (chdr.f_opthdr - sizeof_opt_header)

    read_opt_header-step :
        chdr.f_opthdr < u32_mod
        → w.file.pos + sizeof_opt_header ≤ w.file.size
        → scns_pos < off_limit
        → read_opt_header host chdr w ≡ read_scns host ohdr (set_pos scns_pos w)
    unfolding read_opt_header
    read_opt_header-step small h room = rw (read-full host.stack sizeof_opt_header w sound h) (
        rw
          (skip-run sizeof_opt_header chdr.f_opthdr (set_pos (w.file.pos + sizeof_opt_header) w)
            small room)
          (ap (λ o. read_scns host o (set_pos scns_pos w))
            (decode_opt_header-fill host.stack (from_index w.file.pos w.file.content))))

    read_opt_header-short :
        w.file.size < w.file.pos + sizeof_opt_header
        → (w' : World) × (read_opt_header host chdr w ≡ ok none w')
    unfolding read_opt_header
    read_opt_header-short h =
        let (m, less, e) = read-short host.stack sizeof_opt_header w sound (omega arith) h in
        (set_pos (w.file.pos + m) w, rw e (rw (ne→== m sizeof_opt_header (omega arith))))

  module _ (w : World) (sound : Sound w.file) where
    abbrev pub header : CoffHeader
    header = decode_coff_header (from_index w.file.pos w.file.content)

    abbrev pub opt_pos : ℕ
    opt_pos = w.file.pos + sizeof_coff_header

    read_coff_headers-step :
        w.file.pos + sizeof_coff_header ≤ w.file.size
        → sizeof_opt_header ≤ header.f_opthdr
        → read_coff_headers host w ≡ read_opt_header host header (set_pos opt_pos w)
    unfolding read_coff_headers
    read_coff_headers-step h enough = rw (read-full host.stack sizeof_coff_header w sound h) (
        rw (decode_coff_header-fill host.stack (from_index w.file.pos w.file.content))
          (rw (le→ltb header.f_opthdr sizeof_opt_header enough)))

    read_coff_headers-short :
        w.file.size < w.file.pos + sizeof_coff_header
        → (w' : World) × (read_coff_headers host w ≡ ok none w')
    unfolding read_coff_headers
    read_coff_headers-short h =
        let (m, less, e) = read-short host.stack sizeof_coff_header w sound (omega arith) h in
        (set_pos (w.file.pos + m) w, rw e (rw (ne→== m sizeof_coff_header (omega arith))))

    read_coff_headers-small :
        w.file.pos + sizeof_coff_header ≤ w.file.size
        → header.f_opthdr < sizeof_opt_header
        → (w' : World) × (read_coff_headers host w ≡ ok none w')
    unfolding read_coff_headers
    read_coff_headers-small h less = (
      set_pos opt_pos w,
      rw (read-full host.stack sizeof_coff_header w sound h) (
          rw (decode_coff_header-fill host.stack (from_index w.file.pos w.file.content))
            (rw (lt→ltb header.f_opthdr sizeof_opt_header less))),
    )

    abbrev pub entry_header : OptHeader
    entry_header = decode_opt_header (from_index opt_pos w.file.content)

    -- Where the section table stands, and what the loader leaves after it.
    abbrev pub table_pos : ℕ
    table_pos = w.file.pos + sizeof_coff_header + header.f_opthdr

    abbrev pub scns_after : Bytes
    scns_after = fill w.scns scns_size (from_index table_pos w.file.content)

    abbrev pub world_after : World
    world_after = record (set_pos (table_pos + scns_size) w) { scns = scns_after }

    abbrev pub handle_after : CoffH
    handle_after = record {
      length = add32 (scn scns_after bss).s_vaddr (scn scns_after bss).s_size;
      entry = entry_header.entry;
    }

    -- Let no read of a file smaller than 2 GiB fail, let the COFF header at its position announce
    -- an optional header of at least 28 bytes, let the file hold that and the table of three
    -- sections, and let the allocation succeed. Then `read_coff_headers` returns a handle with the
    -- entry point of the optional header and, for its length, the end of bss; the static table
    -- then holds that of the file, and the position is behind it.
    pub read_coff_headers-valid :
        host.malloc_ok sizeof_coff_h ≡ true
        → w.file.size < off_limit
        → sizeof_opt_header ≤ header.f_opthdr
        → table_pos + scns_size ≤ w.file.size
        → read_coff_headers host w ≡ ok (some handle_after) world_after
    read_coff_headers-valid memory small enough complete =
        let pos : table_pos ≡ scns_pos header (set_pos opt_pos w) sound = omega arith in
        read_coff_headers-step (omega arith) enough
        ∙ read_opt_header-step header (set_pos opt_pos w) sound (omega arith) (omega arith)
            (omega arith)
        ∙ ap (λ q. read_scns host entry_header (set_pos q w)) (sym pos)
        ∙ read_scns-full entry_header (set_pos table_pos w) sound memory complete

    -- The same file without the whole table.
    read_coff_headers-cut :
        w.file.size + 0x1_0000 < off_limit
        → header.f_opthdr < 0x1_0000
        → w.file.pos + sizeof_coff_header ≤ w.file.size
        → sizeof_opt_header ≤ header.f_opthdr
        → w.file.size < table_pos + scns_size
        → (w' : World) × (read_coff_headers host w ≡ ok none w')
    read_coff_headers-cut small short start enough h =
        elim (dec_lt w.file.size (opt_pos + sizeof_opt_header)) [
          | yes l ↦
              let (w', e) = read_opt_header-short header (set_pos opt_pos w) sound l in
              (w', read_coff_headers-step start enough ∙ e)
          | no l ↦
              let pos : table_pos ≡ scns_pos header (set_pos opt_pos w) sound = omega arith in
              let (w', e) = read_scns-short entry_header (set_pos table_pos w) sound h in
              (
                w',
                read_coff_headers-step start enough
                    ∙ read_opt_header-step header (set_pos opt_pos w) sound (omega arith)
                        (omega arith) (omega arith)
                    ∙ ap (λ q. read_scns host entry_header (set_pos q w)) (sym pos)
                    ∙ e,
              )
        ]

    -- Where no read fails, and the optional header that the COFF header announces is shorter than
    -- 28 bytes or the file ends before the end of the section table, `read_coff_headers` returns
    -- NULL (the file is smaller than 2 GiB by 64 KiB, and the announced size is a 16-bit number).
    pub read_coff_headers-invalid :
        w.file.size + 0x1_0000 < off_limit
        → header.f_opthdr < 0x1_0000
        → (header.f_opthdr < sizeof_opt_header) ⊎ (w.file.size < table_pos + scns_size)
        → (w' : World) × (read_coff_headers host w ≡ ok none w')
    read_coff_headers-invalid small short bad = elim (dec_lt w.file.size opt_pos) [
      | yes cut ↦ read_coff_headers-short cut
      | no start ↦ elim (dec_lt header.f_opthdr sizeof_opt_header) [
        | yes less ↦ read_coff_headers-small (omega arith) less
        | no enough ↦ read_coff_headers-cut small short (omega arith) (omega arith) (omega arith)
      ]
    ]
