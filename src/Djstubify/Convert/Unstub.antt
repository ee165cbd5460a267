-- ===== src/Djstubify/Convert/Unstub.antt =====
-- `coff2exe` of djstubify2.py with -r on a file that -g has linked.
use djstub.Base.{
  ℕ, suc, true, false, if◌then◌else◌, ◌+◌, ◌≤◌, ◌<◌, ◌≡◌, refl, ap, ◌∙◌, some, List, ◌∷◌, ◌++◌,
  length, Agree, ne→==, word32, arith,
}
use djstub.Stub.Scan.{is_mz}
use djstub.Djstubify.{Blob, Link, total, generate}
use djstub.Djstubify.Convert.{Walk, has_flag, main_type, coff2exe, prepare_output}
use djstub.Djstubify.Convert.Copy.{copy_loop-part}
use djstub.Djstubify.Find.{map_of, Others}
use djstub.Djstubify.Written.{IsLinkable}
use djstub.Djstubify.Linked.{generate-IsLinked, linked-IsFound}
use djstub.Djstubify.Convert.Walked.{removing, behind_stub, walk-removing}
use djstub.Djstubify.Convert.Restub.{total-split}
use djstub.Djstubify.Convert.Table.{new_header-run}

main_type-lt : (flags : ℕ) → main_type flags < 0x10
unfolding main_type
main_type-lt flags =
    elim (has_flag flags 0x80)
      as (λ b. (if b then (if has_flag flags 0x2000 then 1 else 3) else 0) < 0x10) [
        | true ↦ elim (has_flag flags 0x2000) as (λ b. (if b then 1 else 3) < 0x10) [
          | true ↦ omega arith
          | false ↦ omega arith
        ]
        | false ↦ omega arith
      ]

-- Let a stub of at least 64 bytes with the signature of a stub be linked with at most three
-- overlays, with stub version 8 or above, where all sizes and fields fit in the header, and let
-- the map of types have, at the place of an overlay that is not empty, the type that the flags
-- tell for the executable, and other types before it. Then for the linked file `coff2exe` with -r
-- makes a file of the size and with the bytes of that overlay, with enough fuel.
pub coff2exe-removes :
    (l : Link) (stub stub' : Blob) (types types' : List ℕ) (before after : List Blob) (o : Blob)
    (ver : ℕ)
    → IsLinkable l stub
    → IsLinkable l stub'
    → is_mz stub.content ≡ true
    → l.overlays ≡ before ++ (o ∷ after)
    → l.type_map ≡ map_of (types ++ (main_type l.stub_flags ∷ types'))
    → 0 < main_type l.stub_flags
    → Others (main_type l.stub_flags) types
    → length types ≡ length before
    → 0 < o.size
    → 8 ≤ l.stub_ver
    → (f : Blob) × (g : Blob) × (k : ℕ) × (n : ℕ) × (generate l stub ≡ some f)
      × (coff2exe k n removing ver stub' f ≡ some g)
      × (g.size ≡ o.size)
      × Agree o.size g.content o.content
unfolding coff2exe prepare_output
coff2exe-removes l stub stub' types types' before after o ver k k' mz e m pos others same some_o
      new =
    let (f, run, h) = generate-IsLinked l stub k in
    let found =
      linked-IsFound l stub f (main_type l.stub_flags) types types' before after o k h e m pos
        (main_type-lt l.stub_flags) others same in
    let v : Walk = record (behind_stub removing f) {
      coffset = word32 f.content 0x3c + total before;
      coff_file_size = o.size;
    } in
    let (g, copy, c) =
      copy_loop-part f (suc o.size) 1 o.size v.coffset (record { content = λ i. 0; size = 0 })
        (omega arith) (omega arith)
        (omega (arith, h.size, h.stub_size, ap total e, total-split before o after)) in
    (
      f,
      g,
      1,
      suc o.size,
      run,
      rw (walk-removing l stub f h mz k.room new (total before) o.size found.offs found.size) (
          rw (ne→== o.size 0 (omega arith)) (
            rw
              (new_header-run v stub' k'.room k'.small ver o.size refl (omega (arith, h.ver))
                (omega (arith, h.ver, k.ver)))
              copy)),
      c.size ∙ omega arith,
      λ j p. ap g.content (omega arith) ∙ c.copied j p ∙ found.content j p,
    )
