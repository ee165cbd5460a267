-- ===== src/Djstubify/Convert/Bare.antt =====
-- `coff2exe` of djstubify2.py on an executable that has no stub.
use djstub.Base.{
  ℕ, suc, ◌+◌, ◌-◌, ◌≤◌, ◌<◌, ◌≡◌, refl, ap, subst, ◌∙◌, some, List, ◌∷◌, [], ◌++◌, length, le→ltb,
  Bytes, word16, word32, u32_mod, arith,
}
use djstub.Libc.{store}
use djstub.Asm.Memory.{store32, store16, word16-agree, word32-agree}
use djstub.Stub.Scan.{Format, coff, elf, is_coff, is_elf}
use djstub.Djstubify.{Blob, Link, total, size_at}
use djstub.Djstubify.Parts.{write_u32-run}
use djstub.Djstubify.Written.{write_byte-run}
use djstub.Djstubify.Linked.{IsLinked}
use djstub.Djstubify.Started.{Begins, begins_coff, begins_elf}
use djstub.Djstubify.Convert.{
  Mode, leave, no_walk, walk_round, walk, new_header, prepare_output, coff2exe,
}
use djstub.Djstubify.Convert.Copy.{IsCopied, copy_loop-rest}
use djstub.Djstubify.Convert.Walked.{plain, from_index-zero}

bare_round :
    (m : Mode) (b : Bytes) (format : Format)
    → Begins b format
    → walk_round m b no_walk ≡ some (leave no_walk)
unfolding walk_round is_coff is_elf
bare_round m b coff (begins_coff _ e) =
    let c0 : b 0 ≡ 0x4c = ground (arith, e) in
    let c1 : b 1 ≡ 1 = ground (arith, e) in rw (c0, c1) refl
bare_round m b elf (begins_elf _ _ e) =
    let c0 : b 0 ≡ 0x7f = ground (arith, e) in
    let c1 : b 1 ≡ 0x45 = ground (arith, e) in
    let c2 : b 2 ≡ 0x4c = ground (arith, e) in
    let c3 : b 3 ≡ 0x46 = ground (arith, e) in rw (c0, c1, c2, c3) refl

-- The stub alone, with its own fields but for the version, and the file as its only overlay.
abbrev pub alone : Blob → ℕ → Blob → Link
alone stub ver f = record {
  overlays = f ∷ [];
  type_map = word16 stub.content 0x36;
  nmoffs = word32 stub.content 0x28;
  stub_flags = word16 stub.content 0x38;
  stub_ver = ver;
}

module _ (stub f : Blob) (ver : ℕ) (room : 0x40 ≤ stub.size) (small : stub.size < u32_mod)
    (low : ver < 0x100) (fits : f.size < u32_mod) where
  abbrev sized : Bytes
  sized = store32 0x1c f.size stub.content

  abbrev new : Blob
  new = record stub { content = store32 0x3c stub.size (store sized 0x3b ver) }

  new-run : new_header ver no_walk f.size stub ≡ some new
  unfolding new_header
  new-run = rw (write_u32-run 0x1c f.size stub fits (omega arith)) (
      rw (write_byte-run 0x3b ver (record stub { content = sized }) low (omega arith))
        (write_u32-run 0x3c stub.size (record stub { content = store sized 0x3b ver }) small room))

  module _ (g : Blob) (c : IsCopied new f 0 f.size g) where
    same_word32 : (q : ℕ) → q + 4 ≤ 0x40 → word32 g.content q ≡ word32 new.content q
    same_word32 q r = word32-agree q new.content g.content λ i a b. c.below i (omega arith)

    same_word16 : (q : ℕ) → q + 2 ≤ 0x40 → word16 g.content q ≡ word16 new.content q
    same_word16 q r = word16-agree q new.content g.content λ i a b. c.below i (omega arith)

    only :
        (before : List Blob) (o : Blob) (after : List Blob)
        → ◌≡◌ {A = List Blob} (f ∷ []) (before ++ (o ∷ after))
        → (before ≡ []) × (f ≡ o)
    only [] o after e = (refl, cc)
    only (x ∷ []) o after e = absurd cc
    only (x ∷ y ∷ before) o after e = absurd cc

    first-size : size_at g.content 0 ≡ f.size
    unfolding size_at store32 store16 store
    first-size = same_word32 0x1c (omega arith) ∙ unfold word32 in omega (arith, fits)

    new-IsLinked : IsLinked (alone stub ver f) stub g
    unfolding store32 store16 store
    new-IsLinked = record {
      size = c.size ∙ omega arith;
      front = λ q p. c.below q (omega arith) ∙ ground arith;
      body = λ q p r. c.below q r ∙ ground arith;
      entry = λ before o after e.
          let (nil, same) = only before o after e in
          ap (λ (b : List Blob). size_at g.content (length b)) nil
          ∙ first-size
          ∙ ap (λ (x : Blob). x.size) same;
      nmoffs = same_word32 0x28 (omega arith) ∙ unfold word32 in refl;
      type_map = same_word16 0x36 (omega arith) ∙ unfold word16 in refl;
      flags = same_word16 0x38 (omega arith) ∙ unfold word16 in refl;
      ver = c.below 0x3b (omega arith);
      stub_size = same_word32 0x3c (omega arith) ∙ unfold word32 in omega (arith, small);
      part = λ before o after j e p.
          let (nil, same) = only before o after e in
          ap (λ (b : List Blob). g.content (stub.size + total b + j)) nil
          ∙ ap g.content (omega arith)
          ∙ c.copied j (omega (arith, ap (λ (x : Blob). x.size) same))
          ∙ ap f.content (omega arith)
          ∙ ap (λ (x : Blob). x.content j) same;
    }

walk-bare :
    (f : Blob) (format : Format)
    → 0x40 ≤ f.size
    → Begins f.content format
    → walk 1 plain f no_walk ≡ some no_walk
unfolding walk
walk-bare f format head begins =
    rw (le→ltb f.size 0x40 head)
      (rw (from_index-zero f.content) (rw (bare_round plain f.content format begins) refl))

bare-prepared :
    (stub f : Blob) (ver : ℕ) (format : Format) (room : 0x40 ≤ stub.size)
    (small : stub.size < u32_mod) (low : ver < 0x100) (fits : f.size < u32_mod)
    → 0x40 ≤ f.size
    → Begins f.content format
    → prepare_output 1 plain ver stub f ≡ some (no_walk, f.size, new stub f ver room small low fits)
unfolding prepare_output
bare-prepared stub f ver format room small low fits head begins =
    let whole : f.size - 0 ≡ f.size = omega arith in
    rw (walk-bare f format head begins)
      (rw whole (rw (new-run stub f ver room small low fits) refl))

-- Let a stub have at least 64 bytes, let a file of at least 64 bytes begin with the header of a
-- COFF or ELF file, and let both sizes fit in 32 bits and the version in 8. Then `coff2exe`
-- without -r and -s makes, with enough fuel, the file of the stub, byte for byte but for the
-- fields of its header from 0x1c to 0x3f, and of that file behind it. In this header the first
-- size is that of the file, the size of the stub and the version are set, and the type
-- map, the flags and the offset of the name are those of the stub.
pub coff2exe-alone :
    (stub f : Blob) (ver : ℕ) (format : Format)
    → 0x40 ≤ stub.size
    → stub.size < u32_mod
    → ver < 0x100
    → f.size < u32_mod
    → 0x40 ≤ f.size
    → Begins f.content format
    → (g : Blob) × (k : ℕ) × (n : ℕ) × (coff2exe k n plain ver stub f ≡ some g)
      × IsLinked (alone stub ver f) stub g
unfolding coff2exe
coff2exe-alone stub f ver format room small low fits head begins =
    let out = new stub f ver room small low fits in
    let (g, copy, c) = copy_loop-rest f (suc f.size) f.size 0 out (omega arith) (omega arith) in
    (
      g,
      1,
      suc f.size,
      rw (bare-prepared stub f ver format room small low fits head begins) copy,
      new-IsLinked stub f ver room small low fits g
          (subst (λ m. IsCopied out f 0 m g) (omega arith) c),
    )
