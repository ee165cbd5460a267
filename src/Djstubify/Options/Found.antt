-- ===== src/Djstubify/Options/Found.antt =====
-- What the command line of djstubify2.py links, as `find_idx`, `find_size` and `find_offs` find it.
use djstub.Base.{ℕ, suc, ◌<◌, ◌≡◌, refl, ap, ◌∙◌, true, List, [], ◌∷◌, ◌++◌, length}
use djstub.Stub.Scan.{is_mz}
use djstub.Djstubify.{Blob}
use djstub.Djstubify.Find.{map_of, Others}
use djstub.Djstubify.Written.{IsLinkable}
use djstub.Djstubify.Linked.{IsFound, generate-IsFound}
use djstub.Djstubify.Options.{djstubify, written, writes}
use djstub.Djstubify.Options.Links.{
  Part, types, files, AreTypes, are_more, link_line, link_of, djstubify-links,
}

types-append : (ps qs : List Part) → types (ps ++ qs) ≡ types ps ++ types qs
types-append [] qs = refl
types-append ((t, f) ∷ ps) qs = ap (λ ts. t ∷ ts) (types-append ps qs)

files-append : (ps qs : List Part) → files (ps ++ qs) ≡ files ps ++ files qs
files-append [] qs = refl
files-append ((t, f) ∷ ps) qs = ap (λ fs. f ∷ fs) (files-append ps qs)

length-types : (ps : List Part) → length (types ps) ≡ length (files ps)
length-types [] = refl
length-types ((t, f) ∷ ps) = ap suc (length-types ps)

-- The bounds of a type in the list.
AreTypes-part :
    (before : List Part) (t : ℕ) (f : Blob) (after : List Part)
    → AreTypes (before ++ ((t, f) ∷ after))
    → (0 < t) × (t < 0x10)
AreTypes-part [] t f after (are_more pos lim are) = (pos, lim)
AreTypes-part ((u, g) ∷ before) t f after (are_more pos lim are) =
    AreTypes-part before t f after are

-- Let djstubify2.py be called with -S and a stub of at least 64 bytes with the signature of a
-- stub, with -g, -o, -V 8, -f and -n, and with at most three files, each as -t and -l, whose types
-- are from 1 to 15, and let all sizes and fields fit in the header. Then it writes a file in which
-- `find_idx`, `find_size` and `find_offs` find, for the type of any of the files with which no
-- earlier one is linked, the place, the size and the offset of that file, and its bytes stand at
-- this offset behind the stub.
pub djstubify-IsFound :
    (stub : Blob) (flags nmoffs : ℕ) (before after : List Part) (t : ℕ) (f : Blob)
    → IsLinkable (link_of flags nmoffs (before ++ ((t, f) ∷ after))) stub
    → is_mz stub.content ≡ true
    → AreTypes (before ++ ((t, f) ∷ after))
    → Others t (types before)
    → (out : Blob) × (djstubify 0 0 (link_line stub flags nmoffs (before ++ ((t, f) ∷ after))) []
        ≡ writes out)
      × IsFound t (files before) f out
djstubify-IsFound stub flags nmoffs before after t f k mz are others =
    let ps = before ++ ((t, f) ∷ after) in
    let (pos, lim) = AreTypes-part before t f after are in
    let (out, run, found) =
      generate-IsFound (link_of flags nmoffs ps) stub t (types before) (types after) (files before)
        (files after) f k (files-append before ((t, f) ∷ after))
        (ap map_of (types-append before ((t, f) ∷ after))) pos lim others (length-types before) in
    (out, djstubify-links 0 0 stub flags nmoffs ps [] are k.room mz ∙ ap written run, found)
