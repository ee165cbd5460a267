-- ===== src/Djstubify/Written.antt =====
-- What djstubify2.py writes to the header of the stub with -g.
use djstub.Base.{
  ℕ, ◌+◌, ◌*◌, ◌≤◌, ◌<◌, ◌≡◌, ◌⊎◌, refl, ap, ◌∙◌, some, List, [], ◌∷◌, ◌++◌, length, Bytes, word16,
  word32, u16_mod, u32_mod, lt→ltb, le→leb, arith,
}
use djstub.Base.Options.{◌>>=◌}
use djstub.Libc.{store}
use djstub.Asm.Memory.{store16, store32, word32-agree}
use djstub.Djstubify.{Blob, Link, size_at, write_u16, write_u32, write_byte, write_header}
use djstub.Djstubify.Parts.{Fit, HasSizes, write_u32-run}
use djstub.Djstubify.Header.{write_sizes-run}

-- All values fit in their fields, and the table has room for the sizes.
pub record IsLinkable (l : Link) (stub : Blob) : Type 0 where
  pub fit : Fit l.overlays
  pub overlays : length l.overlays ≤ 3
  pub nmoffs : l.nmoffs < u32_mod
  pub type_map : l.type_map < u16_mod
  pub flags : l.stub_flags < u16_mod
  pub ver : l.stub_ver < 0x100
  pub small : stub.size < u32_mod
  pub room : 0x40 ≤ stub.size

-- The header that is written.
pub record HasHeader (l : Link) (stub s : Blob) : Type 0 where
  pub size : s.size ≡ stub.size
  pub front : (q : ℕ) → q < 0x1c → s.content q ≡ stub.content q
  pub behind : (q : ℕ) → 0x40 ≤ q → s.content q ≡ stub.content q
  pub entry :
      (before : List Blob) (o : Blob) (after : List Blob)
      → l.overlays ≡ before ++ (o ∷ after)
      → size_at s.content (length before) ≡ o.size
  pub nmoffs : word32 s.content 0x28 ≡ l.nmoffs
  pub type_map : word16 s.content 0x36 ≡ l.type_map
  pub flags : word16 s.content 0x38 ≡ l.stub_flags
  pub ver : s.content 0x3b ≡ l.stub_ver
  pub stub_size : word32 s.content 0x3c ≡ stub.size

-- The stores behind the table.
abbrev fields : Link → ℕ → Bytes → Bytes
fields l size b = store32 0x3c size (
    store (store16 0x38 l.stub_flags (store16 0x36 l.type_map (store32 0x28 l.nmoffs b))) 0x3b
      l.stub_ver)

fields-apart :
    (l : Link) (size : ℕ) (b : Bytes) (q : ℕ) → (q < 0x28) ⊎ (0x40 ≤ q) → fields l size b q ≡ b q
unfolding store32 store16 store
fields-apart l size b q h = ground arith

pub length-split :
    (before : List Blob) (o : Blob) (after : List Blob)
    → length (before ++ (o ∷ after)) ≡ length before + 1 + length after
length-split [] o after = omega arith
length-split (x ∷ before) o after = omega (arith, length-split before o after)

write_u16-run :
    (offset value : ℕ) (b : Blob)
    → value < u16_mod
    → offset + 2 ≤ b.size
    → write_u16 offset value b ≡ some (record b { content = store16 offset value b.content })
unfolding write_u16
write_u16-run offset value b v l = rw (lt→ltb value u16_mod v, le→leb (offset + 2) b.size l) refl

pub write_byte-run :
    (offset value : ℕ) (b : Blob)
    → value < 0x100
    → offset < b.size
    → write_byte offset value b ≡ some (record b { content = store b.content offset value })
unfolding write_byte
write_byte-run offset value b v l = rw (lt→ltb value 0x100 v, lt→ltb offset b.size l) refl

module _ (l : Link) (stub c : Blob) (k : IsLinkable l stub) (h : HasSizes l.overlays 0 stub c) where
  abbrev out : Blob
  out = record c { content = fields l stub.size c.content }

  fields-run :
      (do
        s ← write_u32 0x28 l.nmoffs c
        s ← write_u16 0x36 l.type_map s
        s ← write_u16 0x38 l.stub_flags s
        s ← write_byte 0x3b l.stub_ver s
        write_u32 0x3c stub.size s)
      ≡ some out
  fields-run =
      let b1 : Bytes = store32 0x28 l.nmoffs c.content in
      let b2 : Bytes = store16 0x36 l.type_map b1 in
      let b3 : Bytes = store16 0x38 l.stub_flags b2 in
      let b4 : Bytes = store b3 0x3b l.stub_ver in
      let room : 0x40 ≤ c.size = omega (arith, h.size, k.room) in
      rw (write_u32-run 0x28 l.nmoffs c k.nmoffs (omega arith)) (
        rw (write_u16-run 0x36 l.type_map (record c { content = b1 }) k.type_map (omega arith)) (
          rw (write_u16-run 0x38 l.stub_flags (record c { content = b2 }) k.flags (omega arith)) (
            rw (write_byte-run 0x3b l.stub_ver (record c { content = b3 }) k.ver (omega arith))
              (write_u32-run 0x3c stub.size (record c { content = b4 }) k.small (omega arith)))))

  out-HasHeader : HasHeader l stub out
  unfolding store32 store16 store size_at
  out-HasHeader = record {
    size = h.size;
    front = λ q p. fields-apart l stub.size c.content q (omega arith) ∙ h.below q (omega arith);
    behind = λ q p.
        fields-apart l stub.size c.content q (omega arith) ∙ h.above q (omega (arith, k.overlays));
    entry = λ before o after e.
        word32-agree (0x1c + length before * 4) c.content out.content (λ q a b.
          fields-apart l stub.size c.content q
            (omega (arith, k.overlays, ap (length {A = Blob}) e, length-split before o after)))
        ∙ ap (λ i. word32 c.content (0x1c + i * 4)) (omega arith)
        ∙ h.entry before o after e;
    nmoffs = unfold word32 in omega (arith, k.nmoffs);
    type_map = unfold word16 in omega (arith, k.type_map);
    flags = unfold word16 in omega (arith, k.flags);
    ver = refl;
    stub_size = unfold word32 in omega (arith, k.small);
  }

-- Where all values fit, `write_header` makes that header.
pub write_header-HasHeader :
    (l : Link) (stub : Blob)
    → IsLinkable l stub
    → (s : Blob) × (write_header l stub ≡ some s) × HasHeader l stub s
unfolding write_header
write_header-HasHeader l stub k =
    let (c, run, h) = write_sizes-run l.overlays 0 stub k.fit (omega (arith, k.overlays, k.room)) in
    (out l stub c k h, rw run (fields-run l stub c k h), out-HasHeader l stub c k h)
