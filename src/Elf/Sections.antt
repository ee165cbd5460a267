-- ===== src/Elf/Sections.antt =====
-- What `read_elf_sections` of src/elf.c leaves in client memory.
use djstub.Base.{
  ℕ, ◌+◌, ◌≤◌, ◌<◌, ◌≡◌, refl, ◌∙◌, inl, inr, some, List, [], ◌∷◌, u32_mod, add32, eq→==, ne→==,
  arith,
}
use djstub.Run.{File, World, Host}
use djstub.Run.Returns.{Returns, returns, bind, mono}
use djstub.Util.FarMem.{FarPtr, lin}
use djstub.Run.Reads.{Sound}
use djstub.Elf.{Phdr, ElfH, pt_load, load_segments, read_elf_sections}
use djstub.Util.FilePart.{IsOpen, Outside, Holds-Outside}
use djstub.Elf.Image.{Fits, IsLoaded, Placed, done, skip, load, AllLoaded, AllApart, pad-le}
use djstub.Elf.Segment.{HasSegment, load_segment-HasSegment}

-- The state after the loop over `ps` whose segments stand from `lo` to `hi`.
pub record HasImage (f : File) (offset b lo hi : ℕ) (ps : List Phdr) (w w' : World) : Type 0 where
  pub is_open : IsOpen f w'
  pub scns : w'.scns ≡ w.scns
  pub loaded : AllLoaded f offset b w'.mem ps
  pub outside : Outside b lo hi w.mem w'.mem
  pub untouched : (x : ℕ) → x < u32_mod → AllApart x ps → w'.mem (lin b x) ≡ w.mem (lin b x)

module _ (f : File) (offset b hi : ℕ) (small : hi < u32_mod) where
  -- What is loaded stays so under writes behind it.
  IsLoaded-Outside :
      (p : Phdr) (w w' : World)
      → p.p_vaddr + p.p_memsz < hi
      → Outside b (p.p_vaddr + p.p_memsz) hi w.mem w'.mem
      → p.p_filesz ≤ p.p_memsz
      → IsLoaded f offset b w.mem p
      → IsLoaded f offset b w'.mem p
  IsLoaded-Outside p w w' room o le h = record {
    file_part =
        Holds-Outside f b (offset + p.p_offset) p.p_vaddr p.p_filesz (p.p_vaddr + p.p_memsz) hi
          w.mem w'.mem (omega arith) (omega arith) o h.file_part;
    zero_part = λ x l m. o x (omega arith) (inl m) ∙ h.zero_part x l m;
  }

module _ (host : Host) (ptr : FarPtr) (offset base : ℕ)
    (answer : host.segment_base ptr.seg ≡ some base) (f : File) (sound : Sound f) (hi : ℕ) where
  abbrev b : ℕ
  b = add32 base ptr.off

  -- One segment, and then those behind it.
  HasImage-load :
      (p : Phdr) (ps : List Phdr) (lo : ℕ) (w w₁ w' : World)
      → p.p_type ≡ pt_load
      → Fits f offset hi p
      → lo ≤ p.p_vaddr
      → HasSegment host ptr offset base answer f sound p w w₁
      → HasImage f offset b (p.p_vaddr + p.p_memsz) hi ps w₁ w'
      → HasImage f offset b lo hi (p ∷ ps) w w'
  HasImage-load p ps lo w w₁ w' is fits le s r = record {
    is_open = r.is_open;
    scns = r.scns ∙ s.scns;
    loaded = (
      λ _.
          IsLoaded-Outside f offset b hi fits.hi_small p w₁ w' (omega arith) r.outside fits.size_le
            s.loaded,
      r.loaded,
    );
    outside = outside;
    untouched = λ x hx a. r.untouched x hx a.1 ∙ s.outside x hx (a.0 is);
  }
    where
      outside : Outside b lo hi w.mem w'.mem
      outside x hx (inl l) = r.outside x hx (inl (omega arith)) ∙ s.outside x hx (inl (omega arith))
      outside x hx (inr l) = r.outside x hx (inr l) ∙ s.outside x hx (inr (omega (arith, pad-le p)))

  -- The loop, by induction on the segments.
  load_segments-HasImage :
      (ps : List Phdr) (lo : ℕ) (w : World)
      → Placed f offset hi lo ps
      → IsOpen f w
      → Returns (λ _ w'. HasImage f offset b lo hi ps w w') (load_segments host ps ptr offset w)
  unfolding load_segments
  load_segments-HasImage [] lo w done opened = returns (record {
    is_open = opened;
    scns = refl;
    loaded = tt;
    outside = λ x hx o. refl;
    untouched = λ x hx a. refl;
  })
  load_segments-HasImage (p ∷ ps) lo w (skip other placed) opened =
      rw (ne→== p.p_type pt_load other) (
        mono (load_segments-HasImage ps lo w placed opened) λ _ w' r. record {
          is_open = r.is_open;
          scns = r.scns;
          loaded = (λ e. absurd (other e), r.loaded);
          outside = r.outside;
          untouched = λ x hx a. r.untouched x hx a.1;
        })
  load_segments-HasImage (p ∷ ps) lo w (load is fits le placed) opened =
      rw (eq→== p.p_type pt_load is) (
        bind (load_segment-HasSegment host ptr offset base answer f sound hi p w fits opened)
          λ _ w₁ s.
            mono (load_segments-HasImage ps (p.p_vaddr + p.p_memsz) w₁ placed s.is_open)
              λ _ w' r. HasImage-load p ps lo w w₁ w' is fits le s r)

  -- Let no read of the open file fail, let the far pointer's selector have a base, and let the
  -- loadable segments of the handle fit (their bytes stand in the file, which is smaller than 2
  -- GiB, the file size of a segment is at most its memory size, and its image ends below `hi`, an
  -- address) and stand in the order of their addresses from `lo` on with no overlap. Then
  -- `read_elf_sections` returns; every loadable segment has its bytes of the file at its virtual
  -- address and zeros behind them up to its memory size; no offset has changed that is in no
  -- loadable segment but for a byte behind a segment that pads, to an even size, its zeros or,
  -- where it has none, its bytes of the file; no offset below `lo` or from `hi` on has changed;
  -- the file and the section table of the COFF loader are as before, but for the file's position.
  pub read_elf_sections-HasImage :
      (h : ElfH) (lo : ℕ) (w : World)
      → Placed f offset hi lo h.phdr
      → IsOpen f w
      → Returns
          (λ _ w'. HasImage f offset b lo hi h.phdr w w')
          (read_elf_sections host h ptr offset w)
  unfolding read_elf_sections
  read_elf_sections-HasImage h lo w placed opened = load_segments-HasImage h.phdr lo w placed opened
