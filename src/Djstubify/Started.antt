-- ===== src/Djstubify/Started.antt =====
-- The search of `fullstub` (src/stub.c) over a file that djstubify2.py has linked with -g.
use djstub.Base.{
  ℕ, ◌+◌, ◌≤◌, ◌<◌, ◌≡◌, refl, sym, ap, subst, ◌∙◌, true, false, some, [], ◌∷◌, Bytes, word32,
  add32, if◌then◌else◌, lt→ltb, if◌then◌else◌, arith, ne→==,
}
use djstub.Run.{File, World, Host, ok, off_limit}
use djstub.Djstubify.{Blob, Link, total, size_at, generate}
use djstub.Djstubify.Written.{IsLinkable}
use djstub.Djstubify.Linked.{IsLinked, generate-IsLinked}
use djstub.Stub.Scan.{Format, coff, elf, Search, is_mz, is_coff, is_elf, parse_mz, search_loop}
use djstub.Stub.Scan.Chain.{Chain, at_coff, at_elf, at_mz, moved, header_at, search_loop-Chain}

-- A file begins with the header of a format.
pub data Begins (b : Bytes) : Format → Type 0 where
  begins_coff : is_mz b ≡ false → is_coff b ≡ true → Begins b coff
  begins_elf : is_mz b ≡ false → is_coff b ≡ false → is_elf b ≡ true → Begins b elf

-- A file as it is opened.
abbrev pub opened : Blob → File
opened f = record { content = f.content; size = f.size; pos = 0; faulty = λ q. false }

-- The search has found three files behind one another.
pub record Finds (a b c : Blob) (f : Blob) (r : Search) : Type 0 where
  pub coffsize : r.coffsize ≡ a.size
  pub nsize : r.nsize ≡ b.size
  pub nsize2 : r.nsize2 ≡ c.size
  pub executable : (j : ℕ) → j < a.size → f.content (r.coffset + j) ≡ a.content j
  pub payload : (j : ℕ) → j < b.size → f.content (r.noffset + j) ≡ b.content j
  pub payload2 : (j : ℕ) → j < c.size → f.content (r.noffset2 + j) ≡ c.content j

module _ (host : Host) (stub f a b c : Blob) (l : Link) (s : Search) (h : IsLinked l stub f)
    (three : l.overlays ≡ a ∷ b ∷ c ∷ []) (mz : is_mz stub.content ≡ true) (room : 0x40 ≤ stub.size)
    (head : 0x40 ≤ a.size) (some_b : 0 < b.size) (small : f.size < off_limit) where
  abbrev r : Search
  r = parse_mz (header_at host (opened f) 0) s

  r_coffset : r.coffset ≡ stub.size
  unfolding parse_mz word32
  r_coffset = h.stub_size

  r_coffsize : r.coffsize ≡ a.size
  unfolding parse_mz word32 size_at
  r_coffsize = h.entry [] a (b ∷ c ∷ []) three

  r_nsize : r.nsize ≡ b.size
  unfolding parse_mz word32 size_at
  r_nsize = h.entry (a ∷ []) b (c ∷ []) three

  r_nsize2 : r.nsize2 ≡ c.size
  unfolding parse_mz word32 size_at
  r_nsize2 = h.entry (a ∷ b ∷ []) c [] three

  sum : f.size ≡ stub.size + (a.size + (b.size + (c.size + 0)))
  sum = h.size ∙ ap (λ os. stub.size + total os) three

  r_noffset : r.noffset ≡ stub.size + a.size
  unfolding parse_mz
  r_noffset =
      ap (λ t. if t then s.noffset else add32 r.coffset r.coffsize)
        (ne→== r.coffsize 0 (omega (arith, r_coffsize)))
      ∙ omega (arith, r_coffset, r_coffsize, sum)

  r_noffset2 : r.noffset2 ≡ stub.size + a.size + b.size
  unfolding parse_mz
  r_noffset2 =
      ap (λ t. if t then s.noffset2 else add32 r.noffset r.nsize)
        (ne→== r.nsize 0 (omega (arith, r_nsize)))
      ∙ omega (arith, r_noffset, r_nsize, sum)

  r-Finds : Finds a b c f r
  r-Finds = record {
    coffsize = r_coffsize;
    nsize = r_nsize;
    nsize2 = r_nsize2;
    executable =
        λ j p. ap f.content (omega (arith, r_coffset)) ∙ h.part [] a (b ∷ c ∷ []) j three p;
    payload = λ j p. ap f.content (omega (arith, r_noffset)) ∙ h.part (a ∷ []) b (c ∷ []) j three p;
    payload2 = λ j p. ap f.content (omega (arith, r_noffset2)) ∙ h.part (a ∷ b ∷ []) c [] j three p;
  }

  -- The header behind the stub is that of the first file.
  payload_at : (q : ℕ) → q < 0x40 → header_at host (opened f) r.coffset q ≡ a.content q
  payload_at q p =
      ap (λ t. if t then f.content (r.coffset + q) else host.stack q) (lt→ltb q 0x40 p)
      ∙ (r-Finds).executable q (omega arith)

  r-Chain : (format : Format) → Begins a.content format → Chain host (opened f) r format r
  unfolding is_mz is_coff is_elf
  r-Chain coff (begins_coff m i) =
      at_coff (omega (arith, r_coffset, sum))
        (rw
          (
            payload_at 0 (omega arith),
            payload_at 1 (omega arith),
            payload_at 8 (omega arith),
            payload_at 9 (omega arith),
          )
          m)
        (rw (payload_at 0 (omega arith), payload_at 1 (omega arith)) i)
  r-Chain elf (begins_elf m i j) =
      at_elf (omega (arith, r_coffset, sum))
        (rw
          (
            payload_at 0 (omega arith),
            payload_at 1 (omega arith),
            payload_at 8 (omega arith),
            payload_at 9 (omega arith),
          )
          m)
        (rw (payload_at 0 (omega arith), payload_at 1 (omega arith)) i)
        (rw
          (
            payload_at 0 (omega arith),
            payload_at 1 (omega arith),
            payload_at 2 (omega arith),
            payload_at 3 (omega arith),
          )
          j)

  stub_is_mz : is_mz (header_at host (opened f) 0) ≡ true
  unfolding is_mz
  stub_is_mz =
      rw
        (
          h.front 0 (omega arith),
          h.front 1 (omega arith),
          h.front 8 (omega arith),
          h.front 9 (omega arith),
        )
        mz

  s-Chain :
      (format : Format)
      → Begins a.content format
      → Chain host (opened f) (record s { coffset = 0 }) format r
  unfolding parse_mz
  s-Chain format begins =
      at_mz (omega (arith, sum)) stub_is_mz (omega (arith, r_coffset, sum)) (r-Chain format begins)

  pub search_loop-linked :
      (format : Format) (w : World)
      → Begins a.content format
      → s.coffset ≡ 0
      → w.file ≡ opened f
      → (k : ℕ) × (search_loop host k s w ≡ ok (format, r) (moved host (opened f) w r.coffset))
  search_loop-linked format w begins start file =
      search_loop-Chain host (opened f) (λ q. refl) s r format w small
        (subst (λ n. Chain host (opened f) (record s { coffset = n }) format r) (sym start)
          (s-Chain format begins))
        (file ∙ ap (λ p. record (opened f) { pos = p }) (sym start))

-- Let djstubify2.py link a stub of at least 64 bytes, which begins with the signature that
-- `fullstub` looks for, with three overlays: let all sizes and fields fit in the header and the
-- whole be smaller than 2 GiB, let the first overlay have at least 64 bytes and begin with the
-- header of a COFF or ELF file, and let the second not be empty. Then -g makes a file in which
-- the search of `fullstub`, from the start of the file, returns the format of the first overlay
-- and leaves the file at its start, for some fuel; the sizes that it returns are those of the
-- three overlays, and the bytes of each overlay stand at the offset that it returns for it.
pub generate-Finds :
    (host : Host) (stub a b c : Blob) (l : Link) (s : Search) (format : Format) (w : World)
    → IsLinkable l stub
    → l.overlays ≡ a ∷ b ∷ c ∷ []
    → is_mz stub.content ≡ true
    → Begins a.content format
    → 0x40 ≤ a.size
    → 0 < b.size
    → stub.size + total l.overlays < off_limit
    → s.coffset ≡ 0
    → (f : Blob) × (generate l stub ≡ some f)
      × (k : ℕ) × (r : Search) × (search_loop host k s (record w { file = opened f })
          ≡ ok (format, r) (record w { file = record (opened f) { pos = r.coffset } }))
      × Finds a b c f r
generate-Finds host stub a b c l s format w k three mz begins head some_b small start =
    let (f, run, h) = generate-IsLinked l stub k in
    let lim : f.size < off_limit = omega (arith, h.size) in
    let (n, e) =
      search_loop-linked host stub f a b c l s h three mz k.room head some_b lim format
        (record w { file = opened f }) begins start refl in
    (f, run, n, _, e, r-Finds host stub f a b c l s h three mz k.room head some_b lim)
