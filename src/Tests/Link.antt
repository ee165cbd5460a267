-- ===== src/Tests/Link.antt =====
-- djstubify2.py, at concrete inputs.
use djstub.Base.{ℕ, ◌≡◌, inl, refl, true, some, List, [], ◌∷◌, Agree, arith}
use djstub.Stub.Scan.{Search, elf, is_mz, is_coff, is_elf, search_loop}
use djstub.Run.{ok}
use djstub.Djstubify.{Blob, Link, generate}
use djstub.Djstubify.Parts.{Fit, fit_none, fit_more}
use djstub.Djstubify.Find.{none_yet, other}
use djstub.Djstubify.Written.{IsLinkable}
use djstub.Djstubify.Linked.{IsLinked, IsFound}
use djstub.Djstubify.Started.{Begins, begins_elf, opened, Finds, generate-Finds}
use djstub.Djstubify.Convert.{main_type, coff2exe}
use djstub.Djstubify.Convert.Walked.{plain, removing}
use djstub.Djstubify.Convert.Strip.{stripping, IsStripped}
use djstub.Djstubify.Convert.Bare.{alone, coff2exe-alone}
use djstub.Djstubify.Convert.Unstub.{coff2exe-removes}
use djstub.Djstubify.Convert.Twice.{without_debug, coff2exe-strips}
use djstub.Djstubify.Options.{djstubify, writes}
use djstub.Djstubify.Options.Links.{Part, are_none, are_more, link_line, link_of}
use djstub.Djstubify.Options.Found.{djstubify-IsFound}
use djstub.Tests.Sample.{host, world, at_offsets, elf_bytes, sound_file}
use djstub.Tests.Scan.{start}

-- A stub of 64 bytes and one of 80, an executable, a second payload and its debug information.
abbrev stub : Blob
stub = record { content = at_offsets ((0, b'M') ∷ (1, b'Z') ∷ (8, 4) ∷ []); size = 64 }

abbrev longer : Blob
longer = record stub { size = 80 }

abbrev program : Blob
program = record { content = elf_bytes; size = 136 }

abbrev payload : Blob
payload = record { content = at_offsets ((0, 7) ∷ (1, 8) ∷ (2, 9) ∷ []); size = 3 }

abbrev debug : Blob
debug = record { content = at_offsets ((0, 1) ∷ []); size = 5 }

abbrev parts : List Part
parts = (3, program) ∷ (2, payload) ∷ (4, debug) ∷ []

abbrev link : Link
link = link_of 0x80 0 parts

sample_Fit : Fit link.overlays
sample_Fit = fit_more (omega arith) (fit_more (omega arith) (fit_more (omega arith) fit_none))

sample_IsLinkable : IsLinkable link stub
sample_IsLinkable = record {
  fit = sample_Fit;
  overlays = omega arith;
  nmoffs = omega arith;
  type_map = omega arith;
  flags = omega arith;
  ver = omega arith;
  small = omega arith;
  room = omega arith;
}

longer-IsLinkable : IsLinkable link longer
longer-IsLinkable = record {
  fit = sample_Fit;
  overlays = omega arith;
  nmoffs = omega arith;
  type_map = omega arith;
  flags = omega arith;
  ver = omega arith;
  small = omega arith;
  room = omega arith;
}

stub_mz : is_mz stub.content ≡ true
unfolding is_mz
stub_mz = refl

program_Begins : Begins elf_bytes elf
unfolding is_mz is_coff is_elf
program_Begins = begins_elf refl refl refl

djstubify-IsFound_example :
    (out : Blob) × (djstubify 0 0 (link_line stub 0x80 0 parts) [] ≡ writes out)
    × IsFound 2 (program ∷ []) payload out
djstubify-IsFound_example =
    djstubify-IsFound stub 0x80 0 ((3, program) ∷ []) ((4, debug) ∷ []) 2 payload sample_IsLinkable
      stub_mz
      (are_more (omega arith) (omega arith)
        (are_more (omega arith) (omega arith) (are_more (omega arith) (omega arith) are_none)))
      (other (omega arith) (omega arith) (λ e. absurd (omega (arith, e))) none_yet)

generate-Finds_example :
    (f : Blob) × (generate link stub ≡ some f)
    × (k : ℕ) × (r : Search) × (search_loop host k start
          (record (world (sound_file (λ i. 0) 0 0)) { file = opened f })
        ≡ ok
            (elf, r)
            (record (world (sound_file (λ i. 0) 0 0)) {
              file = record (opened f) { pos = r.coffset };
            }))
    × Finds program payload debug f r
generate-Finds_example =
    generate-Finds host stub program payload debug link start elf (world (sound_file (λ i. 0) 0 0))
      sample_IsLinkable refl stub_mz program_Begins (omega arith) (omega arith) (omega arith) refl

coff2exe-removes_example :
    (f : Blob) × (g : Blob) × (k : ℕ) × (n : ℕ) × (generate link stub ≡ some f)
    × (coff2exe k n removing 8 longer f ≡ some g)
    × (g.size ≡ 136)
    × Agree 136 g.content elf_bytes
unfolding main_type
coff2exe-removes_example =
    coff2exe-removes link stub longer [] (2 ∷ 4 ∷ []) [] (payload ∷ debug ∷ []) program 8
      sample_IsLinkable longer-IsLinkable stub_mz refl refl (omega arith) none_yet refl
      (omega arith) (omega arith)

longer_mz : is_mz longer.content ≡ true
unfolding is_mz
longer_mz = refl

coff2exe-strips_example :
    (f : Blob) × (generate link stub ≡ some f)
    × (g : Blob) × (k : ℕ) × (n : ℕ) × (coff2exe k n stripping 8 longer f ≡ some g)
    × IsLinked (without_debug link program payload) longer g
    × (g' : Blob) × (k' : ℕ) × (n' : ℕ) × (coff2exe k' n' stripping 8 longer g ≡ some g')
    × IsStripped (without_debug link program payload) longer program payload 0 g'
coff2exe-strips_example =
    coff2exe-strips link stub longer program payload debug 3 2 4 elf 8 sample_IsLinkable
      longer-IsLinkable stub_mz longer_mz refl refl (omega arith) (omega arith) (omega arith)
      (omega arith) (inl refl) (omega arith) (omega arith) (omega arith) program_Begins refl
      (omega arith)

coff2exe-alone_example :
    (g : Blob) × (k : ℕ) × (n : ℕ) × (coff2exe k n plain 8 stub program ≡ some g)
    × IsLinked (alone stub 8 program) stub g
coff2exe-alone_example =
    coff2exe-alone stub program 8 elf (omega arith) (omega arith) (omega arith) (omega arith)
      (omega arith) program_Begins
