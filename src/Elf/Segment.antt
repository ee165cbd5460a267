-- ===== src/Elf/Segment.antt =====
-- What the loop body of `read_elf_sections` of src/elf.c leaves in client memory.
use native.Mathlib.Decide.{dec_lt}
use djstub.Base.{
  ℕ, ◌+◌, ◌-◌, ◌%◌, ◌<◌, ◌≡◌, refl, ◌∙◌, inl, inr, some, add32, sub32, arith, eq→==, lt→ltb, le→ltb,
}
use djstub.Run.{File, World, Host, ok, memset}
use djstub.Run.Returns.{Returns, returns, bind}
use djstub.Util.FarMem.{
  FarPtr, lin, farmemset, farmemset-run, memset-inside, memset-below, memset-above,
}
use djstub.Run.Reads.{Sound}
use djstub.Util.FilePart.{IsOpen, Outside, HasPart, seek_set-run, long_read-HasPart}
use djstub.Elf.{Phdr, load_segment}
use djstub.Elf.Image.{Fits, IsLoaded, pad}

module _ (host : Host) (ptr : FarPtr) (offset base : ℕ)
    (answer : host.segment_base ptr.seg ≡ some base) (f : File) (sound : Sound f) where
  abbrev pub b : ℕ
  b = add32 base ptr.off

  -- After the file's part of a segment.
  abbrev HasFilePart : Phdr → World → World → Type 0
  HasFilePart p = HasPart f b (offset + p.p_offset) p.p_vaddr p.p_filesz

  pub record HasSegment (p : Phdr) (w w' : World) : Type 0 where
    pub is_open : IsOpen f w'
    pub scns : w'.scns ≡ w.scns
    pub loaded : IsLoaded f offset b w'.mem p
    pub outside : Outside b p.p_vaddr (p.p_vaddr + p.p_memsz + pad p) w.mem w'.mem

  pad-full : (p : Phdr) → p.p_filesz ≡ p.p_memsz → pad p ≡ p.p_filesz % 2
  pad-full p same = rw (le→ltb p.p_filesz p.p_memsz (omega arith)) refl

  pad-tail : (p : Phdr) → p.p_filesz < p.p_memsz → pad p ≡ (p.p_memsz - p.p_filesz) % 2
  pad-tail p more = rw (lt→ltb p.p_filesz p.p_memsz more) refl

  -- Without a tail of zeros the file's part is the segment.
  segment_of_part :
      (p : Phdr) (w w' : World) → p.p_filesz ≡ p.p_memsz → HasFilePart p w w' → HasSegment p w w'
  segment_of_part p w w' same h = record {
    is_open = h.is_open;
    scns = h.scns;
    loaded = record { file_part = h.holds; zero_part = λ x l m. absurd (omega arith) };
    outside = λ x hx o. h.outside x hx (omega (arith, pad-full p same));
  }

  -- The state after the tail of zeros, whose length is rounded up to an even number.
  abbrev after_tail : Phdr → World → World
  after_tail p w =
      let len = p.p_memsz - p.p_filesz in
      record w { mem = memset (lin b (p.p_vaddr + p.p_filesz)) 0 (len + len % 2) w.mem }

  segment_of_tail :
      (hi : ℕ) (p : Phdr) (w w' : World)
      → Fits f offset hi p
      → p.p_filesz < p.p_memsz
      → HasFilePart p w w'
      → HasSegment p w (after_tail p w')
  segment_of_tail hi p w w' fits more h = record {
    is_open = h.is_open;
    scns = h.scns;
    loaded = record {
      file_part = λ i l. below (p.p_vaddr + i) (omega arith) ∙ h.holds i l;
      zero_part = λ x l m.
          memset-inside b (p.p_vaddr + p.p_filesz) tail w'.mem x 0 (omega arith) l (omega arith);
    };
    outside = outside;
  }
    where
      tail : ℕ
      tail = p.p_memsz - p.p_filesz + (p.p_memsz - p.p_filesz) % 2

      below :
          (x : ℕ) → x < p.p_vaddr + p.p_filesz → (after_tail p w').mem (lin b x) ≡ w'.mem (lin b x)
      below x l = memset-below b (p.p_vaddr + p.p_filesz) tail w'.mem x 0 (omega arith) l

      outside : Outside b p.p_vaddr (p.p_vaddr + p.p_memsz + pad p) w.mem (after_tail p w').mem
      outside x hx (inl l) = below x (omega arith) ∙ h.outside x hx (inl l)
      outside x hx (inr l) =
          memset-above b (p.p_vaddr + p.p_filesz) tail w'.mem x 0 hx
            (omega (arith, pad-tail p more))
          ∙ h.outside x hx (inr (omega (arith, pad-tail p more)))

  -- What follows the transfer.
  tail_run :
      (hi : ℕ) (p : Phdr) (w : World)
      → Fits f offset hi p
      → p.p_filesz < p.p_memsz
      → farmemset host ptr
          (add32 p.p_vaddr p.p_filesz)
          0
          (add32 (sub32 p.p_memsz p.p_filesz) (sub32 p.p_memsz p.p_filesz % 2))
          w
        ≡ ok tt (after_tail p w)
  tail_run hi p w fits more =
      let place : add32 p.p_vaddr p.p_filesz ≡ p.p_vaddr + p.p_filesz = omega arith in
      let len : sub32 p.p_memsz p.p_filesz ≡ p.p_memsz - p.p_filesz = omega arith in
      let d : ℕ = p.p_memsz - p.p_filesz in
      let even : add32 d (d % 2) ≡ d + d % 2 = omega arith in
      rw (place, len, even)
        (farmemset-run host ptr base answer (p.p_vaddr + p.p_filesz) 0 (d + d % 2) w (omega arith))

  pub load_segment-HasSegment :
      (hi : ℕ) (p : Phdr) (w : World)
      → Fits f offset hi p
      → IsOpen f w
      → Returns (λ _ w'. HasSegment p w w') (load_segment host p ptr offset w)
  unfolding load_segment
  load_segment-HasSegment hi p w fits opened =
      let place : add32 offset p.p_offset ≡ offset + p.p_offset = omega arith in
      rw place (
        rw (seek_set-run (offset + p.p_offset) w (omega arith)) (
          bind
            (long_read-HasPart host ptr base answer f sound (offset + p.p_offset) p.p_vaddr
              p.p_filesz w (omega arith) (omega arith) opened)
            λ n w' h.
              rw (h.0, eq→== p.p_filesz p.p_filesz refl)
                (elim (dec_lt p.p_filesz p.p_memsz) [
                  | yes l ↦ rw (lt→ltb p.p_filesz p.p_memsz l) (
                      rw (tail_run hi p w' fits l) (returns (segment_of_tail hi p w w' fits l h.1)))
                  | no l ↦
                      rw (le→ltb p.p_filesz p.p_memsz (omega arith))
                        (returns (segment_of_part p w w' (omega arith) h.1))
                ])))
