-- ===== src/Stub/Scan/Chain.antt =====
-- The search of `fullstub` (src/stub.c) against the chain of headers that the file holds.
use djstub.Base.{
  ℕ, suc, ◌+◌, ◌≤◌, ◌<◌, ◌≡◌, refl, ap, ◌∙◌, true, false, Bytes, fill, from_index, ne→==, arith,
}
use djstub.Run.{File, World, Host, ok, exit_failure, off_limit, read}
use djstub.Run.Reads.{Sound, read-full, read-short}
use djstub.Util.FilePart.{seek_set-run}
use djstub.Stub.Scan.{
  Format, coff, elf, Search, buf_size, is_mz, is_coff, is_elf, parse_mz, search_loop,
}

module _ (host : Host) (f : File) where
  -- The buffer after the header at an offset is read.
  abbrev pub header_at : ℕ → Bytes
  header_at o = fill host.stack buf_size (from_index o f.content)

  -- From the header at `s.coffset` the chain of MZ headers leads to an executable.
  pub data Chain : Search → Format → Search → Type 0 where
    at_coff :
        {s : Search}
        → s.coffset + buf_size ≤ f.size
        → is_mz (header_at s.coffset) ≡ false
        → is_coff (header_at s.coffset) ≡ true
        → Chain s coff s
    at_elf :
        {s : Search}
        → s.coffset + buf_size ≤ f.size
        → is_mz (header_at s.coffset) ≡ false
        → is_coff (header_at s.coffset) ≡ false
        → is_elf (header_at s.coffset) ≡ true
        → Chain s elf s
    at_mz :
        {s r : Search} {format : Format}
        → s.coffset + buf_size ≤ f.size
        → is_mz (header_at s.coffset) ≡ true
        → (parse_mz (header_at s.coffset) s).coffset < off_limit
        → Chain (parse_mz (header_at s.coffset) s) format r
        → Chain s format r

  -- The file's position.
  abbrev pub At : ℕ → World → Type 0
  At o w = w.file ≡ record f { pos = o }

  -- The state with the file at an offset.
  abbrev pub moved : World → ℕ → World
  moved w o = record w { file = record f { pos = o } }

module _ (host : Host) (f : File) (sound : Sound f) where
  read-header_at :
      (o : ℕ) (w : World)
      → At host f o w
      → o + buf_size ≤ f.size
      → read host.stack buf_size w
        ≡ ok (buf_size, header_at host f o) (moved host f w (o + buf_size))
  read-header_at o w at h =
      let size : w.file.size ≡ f.size = ap (λ (g : File). g.size) at in
      let pos : w.file.pos ≡ o = ap (λ (g : File). g.pos) at in
      read-full host.stack buf_size w (λ q. ap (λ (g : File). g.faulty q) at ∙ sound q)
        (omega arith)
      ∙ ap
          (λ (g : File).
            ok (buf_size, fill host.stack buf_size (from_index g.pos g.content))
              (record w { file = record g { pos = g.pos + buf_size } }))
          at

  module _ (k : ℕ) (s : Search) (w : World) (at : At host f s.coffset w) where
    abbrev buf : Bytes
    buf = header_at host f s.coffset

    pub round_mz :
        s.coffset + buf_size ≤ f.size
        → is_mz buf ≡ true
        → (parse_mz buf s).coffset < off_limit
        → search_loop host (suc k) s w
          ≡ search_loop host k (parse_mz buf s) (moved host f w (parse_mz buf s).coffset)
    unfolding search_loop
    round_mz room mz low = rw (read-header_at s.coffset w at room) (
        rw mz
          (rw (seek_set-run (parse_mz buf s).coffset (moved host f w (s.coffset + buf_size)) low)))

    pub round_coff :
        s.coffset + buf_size ≤ f.size
        → s.coffset < off_limit
        → is_mz buf ≡ false
        → is_coff buf ≡ true
        → search_loop host (suc k) s w ≡ ok (coff, s) (moved host f w s.coffset)
    unfolding search_loop
    round_coff room low mz is =
        rw (read-header_at s.coffset w at room)
          (rw (mz, is) (rw (seek_set-run s.coffset (moved host f w (s.coffset + buf_size)) low)))

    pub round_elf :
        s.coffset + buf_size ≤ f.size
        → s.coffset < off_limit
        → is_mz buf ≡ false
        → is_coff buf ≡ false
        → is_elf buf ≡ true
        → search_loop host (suc k) s w ≡ ok (elf, s) (moved host f w s.coffset)
    unfolding search_loop
    round_elf room low mz other is = rw (read-header_at s.coffset w at room) (
        rw (mz, other, is)
          (rw (seek_set-run s.coffset (moved host f w (s.coffset + buf_size)) low)))

    pub round_other :
        s.coffset + buf_size ≤ f.size
        → is_mz buf ≡ false
        → is_coff buf ≡ false
        → is_elf buf ≡ false
        → search_loop host (suc k) s w ≡ exit_failure
    unfolding search_loop
    round_other room mz other none = rw (read-header_at s.coffset w at room) (rw (mz, other, none))

    pub round_short : f.size < s.coffset + buf_size → search_loop host (suc k) s w ≡ exit_failure
    unfolding search_loop
    round_short short =
        let size : w.file.size ≡ f.size = ap (λ (g : File). g.size) at in
        let pos : w.file.pos ≡ s.coffset = ap (λ (g : File). g.pos) at in
        let (m, less, e) =
          read-short host.stack buf_size w (λ q. ap (λ (g : File). g.faulty q) at ∙ sound q)
            (omega arith) (omega arith) in
        rw e (rw (ne→== m buf_size (omega arith)))

  -- Let the file be smaller than 2 GiB and let no read fail. If a chain of MZ headers leads from
  -- the offset of the search to a COFF or ELF header, then there is a fuel with which the search
  -- returns that format and the variables at the end of the chain, and leaves the file at the
  -- offset of that header.
  pub search_loop-Chain :
      (s r : Search) (format : Format) (w : World)
      → f.size < off_limit
      → Chain host f s format r
      → At host f s.coffset w
      → (k : ℕ) × (search_loop host k s w ≡ ok (format, r) (moved host f w r.coffset))
  search_loop-Chain s r format w small (at_coff room mz is) at =
      (1, round_coff 0 s w at room (omega arith) mz is)
  search_loop-Chain s r format w small (at_elf room mz other is) at =
      (1, round_elf 0 s w at room (omega arith) mz other is)
  search_loop-Chain s r format w small (at_mz room mz low c) at =
      let next = parse_mz (header_at host f s.coffset) s in
      let (k, e) = search_loop-Chain next r format (moved host f w next.coffset) small c refl in
      (suc k, round_mz k s w at room mz low ∙ e)
