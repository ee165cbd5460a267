-- ===== src/Djstubify/Convert/Twice.antt =====
-- djstubify2.py with -s, and with -s again on what that has made.
use djstub.Base.{
  ℕ, ◌+◌, ◌≤◌, ◌<◌, ◌≡◌, ◌⊎◌, inl, inr, true, if◌then◌else◌, refl, ap, subst, ◌∙◌, some, List, ◌∷◌,
  [], ◌++◌, length, ne→==, ◌==◌, arith,
}
use djstub.Stub.Scan.{Format, is_mz}
use djstub.Djstubify.{Blob, Link, total, size_at, generate}
use djstub.Djstubify.Convert.{coff2exe}
use djstub.Djstubify.Find.{map_of}
use djstub.Djstubify.Written.{IsLinkable, length-split}
use djstub.Djstubify.Linked.{IsLinked, generate-IsLinked}
use djstub.Djstubify.Started.{Begins}
use djstub.Djstubify.Convert.Walked.{announces}
use djstub.Djstubify.Convert.Strip.{IsStripped, stripping}
use djstub.Djstubify.Convert.Stripped.{strip-linked}

-- A file of size 0.
abbrev pub nothing : Blob
nothing = record { content = λ i. 0; size = 0 }

-- The link without its debug information.
abbrev pub without_debug : Link → Blob → Blob → Link
without_debug l a b = record l { overlays = a ∷ b ∷ nothing ∷ [] }

-- The places in a list of three.
split-three :
    (x y z p : Blob) (before after : List Blob)
    → ◌≡◌ {A = List Blob} (x ∷ y ∷ z ∷ []) (before ++ (p ∷ after))
    → ((before ≡ []) × (x ≡ p))
      ⊎ (((before ≡ x ∷ []) × (y ≡ p)) ⊎ ((before ≡ x ∷ y ∷ []) × (z ≡ p)))
split-three x y z p [] after e = inl (refl, cc)
split-three x y z p (b ∷ []) after e = inr (inl (cc, cc))
split-three x y z p (b ∷ c ∷ []) after e = inr (inr (cc, cc))
split-three x y z p (b ∷ c ∷ d ∷ before) after e =
    absurd (omega (arith, ap (length {A = Blob}) e, length-split before p after))

module _ (l : Link) (stub a b g : Blob) (o : IsStripped l stub a b b.size g) where
  entry :
      (before : List Blob) (p : Blob) (after : List Blob)
      → (without_debug l a b).overlays ≡ before ++ (p ∷ after)
      → size_at g.content (length before) ≡ p.size
  entry before p after e = elim (split-three a b nothing p before after e) [
    | inl (q, same) ↦
        ap (λ (x : List Blob). size_at g.content (length x)) q
        ∙ o.size0
        ∙ ap (λ (x : Blob). x.size) same
    | inr (inl (q, same)) ↦
        ap (λ (x : List Blob). size_at g.content (length x)) q
        ∙ o.size1
        ∙ ap (λ (x : Blob). x.size) same
    | inr (inr (q, same)) ↦
        ap (λ (x : List Blob). size_at g.content (length x)) q
        ∙ o.size2
        ∙ ap (λ (x : Blob). x.size) same
  ]

  part :
      (before : List Blob) (p : Blob) (after : List Blob) (j : ℕ)
      → (without_debug l a b).overlays ≡ before ++ (p ∷ after)
      → j < p.size
      → g.content (stub.size + total before + j) ≡ p.content j
  part before p after j e lim = elim (split-three a b nothing p before after e) [
    | inl (q, same) ↦
        ap (λ (x : List Blob). g.content (stub.size + total x + j)) q
        ∙ ap g.content (omega arith)
        ∙ o.part0 j (omega (arith, ap (λ (x : Blob). x.size) same))
        ∙ ap (λ (x : Blob). x.content j) same
    | inr (inl (q, same)) ↦
        ap (λ (x : List Blob). g.content (stub.size + total x + j)) q
        ∙ ap g.content (omega arith)
        ∙ o.part1 j (omega (arith, ap (λ (x : Blob). x.size) same))
        ∙ ap (λ (x : Blob). x.content j) same
    | inr (inr (q, same)) ↦ absurd (omega (arith, ap (λ (x : Blob). x.size) same))
  ]

  IsStripped-IsLinked : IsLinked (without_debug l a b) stub g
  IsStripped-IsLinked = record {
    size = o.size ∙ omega arith;
    front = o.front;
    body = o.body;
    entry = entry;
    nmoffs = o.nmoffs;
    type_map = o.type_map;
    flags = o.flags;
    ver = o.ver;
    stub_size = o.stub_size;
    part = part;
  }

-- Let a stub of at least 64 bytes with the signature of a stub be linked with three overlays
-- whose types are from 1 to 15, the third the type of debug information (4 or 5), with stub
-- version 8 or above, where all sizes and fields fit in the header. Let the first have at least
-- 64 bytes and begin with the header of the format that the flags announce, and the two others
-- not be empty. Then for the linked file, with -s, `coff2exe` with another such stub makes a file,
-- with enough fuel, that is linked with that stub in the same way, but with nothing as its third
-- overlay. For this file, with -s again, it makes one with the same first two overlays behind the
-- stub, in whose table not only the size of the third is 0, but also that of the second.
pub coff2exe-strips :
    (l : Link) (stub stub' a b c : Blob) (t u d : ℕ) (format : Format) (ver : ℕ)
    → IsLinkable l stub
    → IsLinkable l stub'
    → is_mz stub.content ≡ true
    → is_mz stub'.content ≡ true
    → l.overlays ≡ a ∷ b ∷ c ∷ []
    → l.type_map ≡ map_of (t ∷ u ∷ d ∷ [])
    → 0 < t
    → t < 0x10
    → 0 < u
    → u < 0x10
    → (d ≡ 4) ⊎ (d ≡ 5)
    → 0x40 ≤ a.size
    → 0 < b.size
    → 0 < c.size
    → Begins a.content format
    → announces l.stub_flags format ≡ true
    → 8 ≤ l.stub_ver
    → (f : Blob) × (generate l stub ≡ some f)
      × (g : Blob) × (k : ℕ) × (n : ℕ) × (coff2exe k n stripping ver stub' f ≡ some g)
      × IsLinked (without_debug l a b) stub' g
      × (g' : Blob) × (k' : ℕ) × (n' : ℕ) × (coff2exe k' n' stripping ver stub' g ≡ some g')
      × IsStripped (without_debug l a b) stub' a b 0 g'
coff2exe-strips l stub stub' a b c t u d format ver k k' mz mz' three map pt lt pu lu debug head
      some_b some_c begins flag new =
    let (f, run, h) = generate-IsLinked l stub k in
    let (g, k₁, n₁, e, o) =
      strip-linked l stub stub' f a b c t u d format ver h k.room mz k'.room k'.small three head
        some_b begins flag new k.ver map pt pu lt lu debug in
    let kept : (if c.size == 0 then 0 else b.size) ≡ b.size =
      ap (λ x. if x then 0 else b.size) (ne→== c.size 0 (omega arith)) in
    let linked =
      IsStripped-IsLinked l stub' a b g (subst (λ s. IsStripped l stub' a b s g) kept o) in
    let (g', k₂, n₂, e', o') =
      strip-linked (without_debug l a b) stub' stub' g a b nothing t u d format ver linked k'.room
        mz' k'.room k'.small refl head some_b begins flag new k.ver map pt pu lt lu debug in
    (f, run, g, k₁, n₁, e, linked, g', k₂, n₂, e', o')
