-- ===== src/Djstubify/Linked.antt =====
-- A file that djstubify2.py has linked with -g, as djstubify2.py and the stub look at it.
use djstub.Base.{
  ℕ, ◌+◌, ◌*◌, ◌≤◌, ◌<◌, ◌≡◌, refl, ap, ◌∙◌, some, List, ◌∷◌, ◌++◌, length, word16, word32, arith,
}
use djstub.Asm.Memory.{word16-agree, word32-agree}
use djstub.Djstubify.{
  Blob, Link, total, append_all, size_at, find_idx, find_size, find_offs, generate,
}
use djstub.Djstubify.Parts.{append_all-low, append_all-part, append_all-size}
use djstub.Djstubify.Find.{
  map_of, Others, HasTable, find_idx-found, find_size-found, find_offs-found,
}
use djstub.Djstubify.Written.{IsLinkable, HasHeader, length-split, write_header-HasHeader}

-- A linked file: the whole stub, but for the fields of the header from 0x1c to 0x3f, and the
-- overlays behind it.
pub record IsLinked (l : Link) (stub f : Blob) : Type 0 where
  pub size : f.size ≡ stub.size + total l.overlays
  pub front : (q : ℕ) → q < 0x1c → f.content q ≡ stub.content q
  pub body : (q : ℕ) → 0x40 ≤ q → q < stub.size → f.content q ≡ stub.content q
  pub entry :
      (before : List Blob) (o : Blob) (after : List Blob)
      → l.overlays ≡ before ++ (o ∷ after)
      → size_at f.content (length before) ≡ o.size
  pub nmoffs : word32 f.content 0x28 ≡ l.nmoffs
  pub type_map : word16 f.content 0x36 ≡ l.type_map
  pub flags : word16 f.content 0x38 ≡ l.stub_flags
  pub ver : f.content 0x3b ≡ l.stub_ver
  pub stub_size : word32 f.content 0x3c ≡ stub.size
  pub part :
      (before : List Blob) (o : Blob) (after : List Blob) (j : ℕ)
      → l.overlays ≡ before ++ (o ∷ after)
      → j < o.size
      → f.content (stub.size + total before + j) ≡ o.content j

module _ (l : Link) (stub s : Blob) (k : IsLinkable l stub) (h : HasHeader l stub s) where
  abbrev linked : Blob
  linked = append_all s l.overlays

  low : (q : ℕ) → q < 0x40 → linked.content q ≡ s.content q
  low q p = append_all-low s l.overlays q (omega (arith, h.size, k.room))

  low_word32 : (q : ℕ) → q + 4 ≤ 0x40 → word32 linked.content q ≡ word32 s.content q
  low_word32 q p = word32-agree q s.content linked.content λ i a b. low i (omega arith)

  low_word16 : (q : ℕ) → q + 2 ≤ 0x40 → word16 linked.content q ≡ word16 s.content q
  low_word16 q p = word16-agree q s.content linked.content λ i a b. low i (omega arith)

  linked-IsLinked : IsLinked l stub linked
  linked-IsLinked = record {
    size = append_all-size s l.overlays ∙ ap (λ n. n + total l.overlays) h.size;
    front = λ q p. low q (omega arith) ∙ h.front q p;
    body = λ q p r. append_all-low s l.overlays q (omega (arith, h.size)) ∙ h.behind q p;
    entry = λ before o after e.
        unfold size_at in
        low_word32 (0x1c + length before * 4)
          (omega (arith, k.overlays, ap (length {A = Blob}) e, length-split before o after))
        ∙ h.entry before o after e;
    nmoffs = low_word32 0x28 (omega arith) ∙ h.nmoffs;
    type_map = low_word16 0x36 (omega arith) ∙ h.type_map;
    flags = low_word16 0x38 (omega arith) ∙ h.flags;
    ver = low 0x3b (omega arith) ∙ h.ver;
    stub_size = low_word32 0x3c (omega arith) ∙ h.stub_size;
    part = λ before o after j e p.
        ap (λ os. (append_all s os).content (stub.size + total before + j)) e
        ∙ ap (append_all s (before ++ (o ∷ after))).content (omega (arith, h.size))
        ∙ append_all-part before s o after j p;
  }

-- Where all values fit, -g makes a linked file.
pub generate-IsLinked :
    (l : Link) (stub : Blob)
    → IsLinkable l stub
    → (f : Blob) × (generate l stub ≡ some f) × IsLinked l stub f
unfolding generate
generate-IsLinked l stub k =
    let (s, run, h) = write_header-HasHeader l stub k in
    (linked l stub s k h, rw run refl, linked-IsLinked l stub s k h)

-- What `find_idx`, `find_size` and `find_offs` are to find of the overlay `o` of type `t`.
pub record IsFound (t : ℕ) (before : List Blob) (o : Blob) (f : Blob) : Type 0 where
  pub index : find_idx t f.content ≡ some (length before)
  pub size : find_size t f.content ≡ some o.size
  pub offs : find_offs t f.content ≡ some (total before)
  pub content :
      (j : ℕ) → j < o.size → f.content (word32 f.content 0x3c + total before + j) ≡ o.content j

pub linked-IsFound :
    (l : Link) (stub f : Blob) (t : ℕ) (types types' : List ℕ) (before after : List Blob) (o : Blob)
    → IsLinkable l stub
    → IsLinked l stub f
    → l.overlays ≡ before ++ (o ∷ after)
    → l.type_map ≡ map_of (types ++ (t ∷ types'))
    → 0 < t
    → t < 0x10
    → Others t types
    → length types ≡ length before
    → IsFound t before o f
unfolding size_at
linked-IsFound l stub f t types types' before after o k h e m pos lim others same =
    let few : length types < 4 =
      omega (arith, k.overlays, ap (length {A = Blob}) e, length-split before o after) in
    let map : word16 f.content 0x36 ≡ map_of (types ++ (t ∷ types')) = h.type_map ∙ m in
    let table : HasTable f.content 0 (before ++ (o ∷ after)) =
      λ b p a q. ap (λ i. word32 f.content (0x1c + i * 4)) (omega arith) ∙ h.entry b p a (e ∙ q) in
    record {
      index =
          find_idx-found t pos lim types' types before o after f.content others same few map table;
      size =
          find_size-found t pos lim types' types before o after f.content others same few map table;
      offs =
          find_offs-found t pos lim types' types before o after f.content others same few map table;
      content = λ j p. ap f.content (omega (arith, h.stub_size)) ∙ h.part before o after j e p;
    }

-- Let a stub of at least 64 bytes be linked with at most three overlays, let all sizes and fields
-- fit in the header, and let the map of types have types from 1 to 15, `t` behind types other than
-- `t`. Then -g makes a file in which `find_idx`, `find_size` and `find_offs` find, for `t`, the
-- index, the size and the offset of the overlay that is as many places behind the first, and
-- the bytes of that overlay stand at this offset behind the stub.
pub generate-IsFound :
    (l : Link) (stub : Blob) (t : ℕ) (types types' : List ℕ) (before after : List Blob) (o : Blob)
    → IsLinkable l stub
    → l.overlays ≡ before ++ (o ∷ after)
    → l.type_map ≡ map_of (types ++ (t ∷ types'))
    → 0 < t
    → t < 0x10
    → Others t types
    → length types ≡ length before
    → (f : Blob) × (generate l stub ≡ some f) × IsFound t before o f
generate-IsFound l stub t types types' before after o k e m pos lim others same =
    let (f, run, h) = generate-IsLinked l stub k in
    (f, run, linked-IsFound l stub f t types types' before after o k h e m pos lim others same)
