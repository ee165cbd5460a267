-- ===== src/Djstubify/Convert/Table.antt =====
-- The header of the new stub in `coff2exe` of djstubify2.py.
use djstub.Base.{
  ℕ, ◌+◌, ◌≤◌, ◌<◌, ◌≡◌, ◌⊎◌, ◌∙◌, some, ◌&&◌, ne→==, ltb, leb, if◌then◌else◌, Bytes, word16,
  word32, u32_mod, arith,
}
use djstub.Libc.{store}
use djstub.Asm.Memory.{store32, store16, word16-agree, word32-agree, word32-store32}
use djstub.Djstubify.{Blob}
use djstub.Djstubify.Parts.{write_u32-run}
use djstub.Djstubify.Convert.{Walk, new_header}
use djstub.Djstubify.Convert.Copy.{IsCopied}
use djstub.Djstubify.Written.{write_byte-run}

-- The header of a stub with the table of another header.
module _ (w : Walk) (stub : Blob) (room : 0x40 ≤ stub.size) (small : stub.size < u32_mod) where
  abbrev pub with_table : Bytes
  with_table i = if leb 0x1c i && ltb i 0x3c then w.mzhdr_buf.content i else stub.content i

  abbrev pub new_stub : Blob
  new_stub = record stub { content = store32 0x3c stub.size (store with_table 0x3b w.stub_v) }

  pub new_header-run :
      (ver left : ℕ)
      → w.can_copy_ovl ≡ 1
      → 0 < w.stub_v
      → w.stub_v < 0x100
      → new_header ver w left stub ≡ some new_stub
  unfolding new_header
  new_header-run ver left copy pos low = rw copy (
      rw (ne→== w.stub_v 0 (omega arith)) (
        rw (write_byte-run 0x3b w.stub_v (record stub { content = with_table }) low (omega arith)) (
          write_u32-run 0x3c stub.size (record stub { content = store with_table 0x3b w.stub_v })
            small room)))

  pub new_stub-outside : (q : ℕ) → (q < 0x1c) ⊎ (0x40 ≤ q) → new_stub.content q ≡ stub.content q
  unfolding store32 store16 store
  new_stub-outside q p = ground arith

  new_stub-table : (q : ℕ) → 0x1c ≤ q → q < 0x3b → new_stub.content q ≡ w.mzhdr_buf.content q
  unfolding store32 store16 store
  new_stub-table q p l = ground arith

-- The table of a file that begins with that stub.
module _ (w : Walk) (stub f g : Blob) (pos n : ℕ) (room : 0x40 ≤ stub.size)
    (small : stub.size < u32_mod) (c : IsCopied (new_stub w stub room small) f pos n g) where
  pub table : (q : ℕ) → 0x1c ≤ q → q < 0x3b → g.content q ≡ w.mzhdr_buf.content q
  table q p r = c.below q (omega (arith, room)) ∙ new_stub-table w stub room small q p r

  pub table_word32 :
      (q : ℕ) → 0x1c ≤ q → q + 4 ≤ 0x3b → word32 g.content q ≡ word32 w.mzhdr_buf.content q
  table_word32 q p r =
      word32-agree q w.mzhdr_buf.content g.content λ i a b. table i (omega arith) (omega arith)

  pub table_word16 :
      (q : ℕ) → 0x1c ≤ q → q + 2 ≤ 0x3b → word16 g.content q ≡ word16 w.mzhdr_buf.content q
  table_word16 q p r =
      word16-agree q w.mzhdr_buf.content g.content λ i a b. table i (omega arith) (omega arith)

  pub table_stub_size : word32 g.content 0x3c ≡ stub.size
  table_stub_size =
      word32-agree 0x3c (new_stub w stub room small).content g.content
        (λ i a b. c.below i (omega (arith, room)))
      ∙ word32-store32 0x3c stub.size (store (with_table w stub room small) 0x3b w.stub_v)
      ∙ omega (arith, small)
