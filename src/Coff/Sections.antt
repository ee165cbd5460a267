-- ===== src/Coff/Sections.antt =====
-- What `read_coff_sections` of src/coff.c leaves in client memory.
use djstub.Base.{
  ℕ, ◌+◌, ◌%◌, ◌≤◌, ◌<◌, ◌≡◌, ◌⊎◌, refl, sym, subst, ◌∙◌, inl, inr, some, Bytes, add32, u32_mod,
  eq→==, arith,
}
use djstub.Run.{File, World, Host, ok, off_limit, memset}
use djstub.Run.Returns.{Returns, returns, bind}
use djstub.Util.FarMem.{
  FarPtr, lin, farmemset, farmemset-run, memset-inside, memset-below, memset-above,
}
use djstub.Run.Reads.{Sound}
use djstub.Util.FilePart.{IsOpen, Holds, Zeros, HasPart, seek_set-run, long_read-HasPart}
use djstub.Coff.{Sct, text, dat, bss, ScnHeader, scn, CoffH, read_section, read_coff_sections}

-- A section's bytes stand in the file.
pub record InFile (f : File) (offset : ℕ) (s : ScnHeader) : Type 0 where
  pub in_file : offset + s.s_scnptr + s.s_size ≤ f.size
  pub file_small : f.size < off_limit

-- Text, data and bss follow one another without overlap, and end within the address space.
pub record IsLaidOut (scns : Bytes) : Type 0 where
  pub text_data : (scn scns text).s_vaddr + (scn scns text).s_size ≤ (scn scns dat).s_vaddr
  pub data_bss : (scn scns dat).s_vaddr + (scn scns dat).s_size ≤ (scn scns bss).s_vaddr
  pub no_wrap : (scn scns bss).s_vaddr + (scn scns bss).s_size + 1 < u32_mod

-- The offset is not in the section, nor in the byte that pads it to an even size.
abbrev IsApart : ℕ → ScnHeader → Type 0
IsApart x s = (x < s.s_vaddr) ⊎ (s.s_vaddr + s.s_size + s.s_size % 2 ≤ x)

-- The offset is in none of the three.
pub record Apart (scns : Bytes) (x : ℕ) : Type 0 where
  pub of_text : IsApart x (scn scns text)
  pub of_data : IsApart x (scn scns dat)
  pub of_bss : IsApart x (scn scns bss)

module _ (f : File) (offset b : ℕ) (scns mem : Bytes) where
  -- The section is at its virtual address.
  abbrev pub HoldsSection : Sct → Type 0
  HoldsSection sc =
      Holds f b (offset + (scn scns sc).s_scnptr) (scn scns sc).s_vaddr (scn scns sc).s_size mem

  -- The image of the three sections.
  pub record HasImage (mem₀ : Bytes) : Type 0 where
    pub text_part : HoldsSection text
    pub data_part : HoldsSection dat
    pub bss_part :
        Zeros b (scn scns bss).s_vaddr ((scn scns bss).s_vaddr + (scn scns bss).s_size) mem
    pub untouched : (x : ℕ) → x < u32_mod → Apart scns x → mem (lin b x) ≡ mem₀ (lin b x)

module _ (host : Host) (ptr : FarPtr) (offset base : ℕ)
    (answer : host.segment_base ptr.seg ≡ some base) (f : File) (sound : Sound f) where
  abbrev b : ℕ
  b = add32 base ptr.off

  -- The part of a section of the table `scns`.
  abbrev HasSection : Bytes → Sct → World → World → Type 0
  HasSection scns sc = let s = scn scns sc in HasPart f b (offset + s.s_scnptr) s.s_vaddr s.s_size

  read_section-HasSection :
      (sc : Sct) (w : World)
      → InFile f offset (scn w.scns sc)
      → (scn w.scns sc).s_vaddr + (scn w.scns sc).s_size + 1 < u32_mod
      → IsOpen f w
      → Returns (λ _ w'. HasSection w.scns sc w w') (read_section host ptr offset sc w)
  unfolding read_section
  read_section-HasSection sc w inf room opened =
      let s = scn w.scns sc in
      let place : add32 offset s.s_scnptr ≡ offset + s.s_scnptr = omega arith in
      rw place (
        rw (seek_set-run (offset + s.s_scnptr) w (omega arith)) (
          bind
            (long_read-HasPart host ptr base answer f sound (offset + s.s_scnptr) s.s_vaddr s.s_size
              w (omega arith) room opened)
            λ n w' h. rw (h.0, eq→== s.s_size s.s_size refl) (returns h.1)))

  -- The same for a state whose table is known by an equation.
  section_at :
      (scns : Bytes) (sc : Sct) (w : World)
      → w.scns ≡ scns
      → InFile f offset (scn scns sc)
      → (scn scns sc).s_vaddr + (scn scns sc).s_size + 1 < u32_mod
      → IsOpen f w
      → Returns (λ _ w'. HasSection scns sc w w') (read_section host ptr offset sc w)
  section_at scns sc w e inf room opened =
      subst
        (λ c.
          InFile f offset (scn c sc)
          → (scn c sc).s_vaddr + (scn c sc).s_size + 1 < u32_mod
          → Returns (λ _ w'. HasSection c sc w w') (read_section host ptr offset sc w))
        e (λ i r. read_section-HasSection sc w i r opened) inf room

  abbrev after_bss : Bytes → World → World
  after_bss scns w =
      let s = scn scns bss in
      record w { mem = memset (lin b s.s_vaddr) 0 (s.s_size + s.s_size % 2) w.mem }

  bss-run :
      (scns : Bytes) (w : World)
      → (scn scns bss).s_vaddr + (scn scns bss).s_size + 1 < u32_mod
      → farmemset host ptr
          (scn scns bss).s_vaddr
          0
          (add32 (scn scns bss).s_size ((scn scns bss).s_size % 2))
          w
        ≡ ok tt (after_bss scns w)
  bss-run scns w room =
      let s = scn scns bss in
      let even : add32 s.s_size (s.s_size % 2) ≡ s.s_size + s.s_size % 2 = omega arith in
      rw even
        (farmemset-run host ptr base answer s.s_vaddr 0 (s.s_size + s.s_size % 2) w (omega arith))

  bss_at :
      (scns : Bytes) (w : World)
      → w.scns ≡ scns
      → (scn scns bss).s_vaddr + (scn scns bss).s_size + 1 < u32_mod
      → farmemset host ptr
          (scn w.scns bss).s_vaddr
          0
          (add32 (scn w.scns bss).s_size ((scn w.scns bss).s_size % 2))
          w
        ≡ ok tt (after_bss scns w)
  bss_at scns w e room =
      subst
        (λ c.
          farmemset host ptr (scn c bss).s_vaddr 0
            (add32 (scn c bss).s_size ((scn c bss).s_size % 2)) w
          ≡ ok tt (after_bss scns w))
        (sym e) (bss-run scns w room)

  module _ (scns : Bytes) (laid : IsLaidOut scns) (w w₁ w₂ : World) (p : HasSection scns text w w₁)
      (q : HasSection scns dat w₁ w₂) where
    -- Below the bss section its clearing changes nothing.
    below_bss :
        (x : ℕ) → x < (scn scns bss).s_vaddr → (after_bss scns w₂).mem (lin b x) ≡ w₂.mem (lin b x)
    below_bss x h =
        let s = scn scns bss in
        memset-below b s.s_vaddr (s.s_size + s.s_size % 2) w₂.mem x 0 (omega arith) h

    bss-untouched :
        (x : ℕ)
        → x < u32_mod
        → IsApart x (scn scns bss)
        → (after_bss scns w₂).mem (lin b x) ≡ w₂.mem (lin b x)
    bss-untouched x hx (inl h) = below_bss x h
    bss-untouched x hx (inr h) =
        let s = scn scns bss in
        memset-above b s.s_vaddr (s.s_size + s.s_size % 2) w₂.mem x 0 hx (omega arith)

    image : HasImage f offset b scns (after_bss scns w₂).mem w.mem
    image = record {
      text_part = λ i h.
          below_bss ((scn scns text).s_vaddr + i) (omega arith)
          ∙ q.outside ((scn scns text).s_vaddr + i) (omega arith) (inl (omega arith))
          ∙ p.holds i h;
      data_part = λ i h. below_bss ((scn scns dat).s_vaddr + i) (omega arith) ∙ q.holds i h;
      bss_part = λ x l h.
          let s = scn scns bss in
          memset-inside b s.s_vaddr (s.s_size + s.s_size % 2) w₂.mem x 0 (omega arith) l
            (omega arith);
      untouched = λ x hx a.
          bss-untouched x hx a.of_bss ∙ q.outside x hx a.of_data ∙ p.outside x hx a.of_text;
    }

  -- Let no read of the open file fail, let the far pointer's selector have a base, let the bytes
  -- of text and data stand in the file, which is smaller than 2 GiB, and let text, data and bss
  -- follow one another in memory with no overlap and end below the end of the address space. Then
  -- `read_coff_sections` returns, text and data have their bytes of the file at their virtual
  -- addresses, bss is zero, and no offset has changed that is in none of the three sections but for
  -- a byte behind a section of odd size.
  pub read_coff_sections-HasImage :
      (h : CoffH) (w : World)
      → InFile f offset (scn w.scns text)
      → InFile f offset (scn w.scns dat)
      → IsLaidOut w.scns
      → IsOpen f w
      → Returns
          (λ _ w'. HasImage f offset b w.scns w'.mem w.mem)
          (read_coff_sections host h ptr offset w)
  unfolding read_coff_sections
  read_coff_sections-HasImage h w in_text in_data laid opened =
      let scns = w.scns in
      bind (read_section-HasSection text w in_text (omega arith) opened) λ _ w₁ p.
        bind (section_at scns dat w₁ p.scns in_data (omega arith) p.is_open) λ _ w₂ q.
          subst (λ r. Returns (λ _ w'. HasImage f offset b scns w'.mem w.mem) r)
            (sym (bss_at scns w₂ (q.scns ∙ p.scns) (omega arith)))
            (returns (image scns laid w w₁ w₂ p q))
