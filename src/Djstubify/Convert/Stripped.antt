-- ===== src/Djstubify/Convert/Stripped.antt =====
-- What `coff2exe` of djstubify2.py makes with -s of a file that -g has linked with three overlays.
use djstub.Base.{
  ℕ, suc, ◌+◌, ◌-◌, ◌≤◌, ◌<◌, ◌≡◌, ◌≢◌, ◌⊎◌, true, if◌then◌else◌, refl, sym, ap, subst, ◌∙◌, some,
  ◌∷◌, [], Bytes, from_index, word16, word32, ne→==, eq→==, ◌==◌, u32_mod, arith,
}
use native.Mathlib.Decide.{ℕ_discrete}
use djstub.Asm.Memory.{word32-store32, word32-store32_apart}
use djstub.Stub.Scan.{Format, is_mz}
use djstub.Djstubify.{Blob, Link, total, size_at}
use djstub.Djstubify.Convert.{Last, last_overlay, coff2exe, prepare_output}
use djstub.Djstubify.Convert.Copy.{IsCopied, copy_loop-part}
use djstub.Djstubify.Find.{map_of}
use djstub.Djstubify.Linked.{IsLinked}
use djstub.Djstubify.Started.{Begins}
use djstub.Djstubify.Convert.Walked.{announces}
use djstub.Djstubify.Convert.Table.{new_stub, new_header-run}
use djstub.Djstubify.Convert.Strip.{
  IsStripped, out-IsStripped, stripping, stripped, walk-stripping, last_overlay-full,
  last_overlay-bare,
}

-- What -s makes of a linked file with three overlays, the last one with debug information.
module _ (l : Link) (stub stub' f a b c : Blob) (t u d : ℕ) (format : Format) (ver : ℕ)
    (h : IsLinked l stub f) (room : 0x40 ≤ stub.size) (mz : is_mz stub.content ≡ true)
    (room' : 0x40 ≤ stub'.size) (small : stub'.size < u32_mod) (three : l.overlays ≡ a ∷ b ∷ c ∷ [])
    (head : 0x40 ≤ a.size) (some_b : 0 < b.size) (begins : Begins a.content format)
    (flag : announces l.stub_flags format ≡ true) (new : 8 ≤ l.stub_ver) (byte : l.stub_ver < 0x100)
    (map : l.type_map ≡ map_of (t ∷ u ∷ d ∷ [])) (pt : 0 < t) (pu : 0 < u) (lt : t < 0x10)
    (lu : u < 0x10) (debug : (d ≡ 4) ⊎ (d ≡ 5)) where
  abbrev hdr : Bytes
  hdr = from_index 0 f.content

  entry0 : size_at hdr 0 ≡ a.size
  unfolding size_at word32
  entry0 = h.entry [] a (b ∷ c ∷ []) three

  entry1 : size_at hdr 1 ≡ b.size
  unfolding size_at word32
  entry1 = h.entry (a ∷ []) b (c ∷ []) three

  entry2 : size_at hdr 2 ≡ c.size
  unfolding size_at word32
  entry2 = h.entry (a ∷ b ∷ []) c [] three

  hdr_map : word16 hdr 0x36 ≡ map_of (t ∷ u ∷ d ∷ [])
  unfolding word16
  hdr_map = h.type_map ∙ map

  some0 : size_at hdr 0 ≢ 0
  some0 e = absurd (omega (arith, entry0))

  some1 : size_at hdr 1 ≢ 0
  some1 e = absurd (omega (arith, entry1))

  strip-run :
      (e : Last) (second : ℕ)
      → last_overlay (from_index 0 f.content) (word32 f.content 0x3c) ≡ some e
      → e.type_val ≡ d
      → 1 < e.i
      → e.i ≤ 3
      → e.offs - e.sz - word32 f.content 0x3c ≡ a.size + b.size
      → word32 (stripped f e).mzhdr_buf.content 0x20 ≡ second
      → word32 (stripped f e).mzhdr_buf.content 0x24 ≡ 0
      → (g : Blob) × (k : ℕ) × (n : ℕ) × (coff2exe k n stripping ver stub' f ≡ some g)
        × IsStripped l stub' a b second g
  unfolding coff2exe prepare_output
  strip-run e second last type low high left size1 size2 =
      let w = stripped f e in
      let kept = e.offs - e.sz - word32 f.content 0x3c in
      let total_size : f.size ≡ stub.size + (a.size + (b.size + (c.size + 0))) =
        h.size ∙ ap (λ os. stub.size + total os) three in
      let (g, copy, k) =
        copy_loop-part f (suc kept) 1 kept w.coffset (new_stub w stub' room' small) (omega arith)
          (omega arith) (omega (arith, total_size, h.stub_size, left)) in
      (
        g,
        2,
        suc kept,
        rw
            (walk-stripping l stub f a (b ∷ c ∷ []) h mz room new three head format begins flag e
              last (subst (λ x. (x ≡ 4) ⊎ (x ≡ 5)) (sym type) debug) low high)
            (rw (ne→== kept 0 (omega (arith, left))) (
              rw
                (new_header-run w stub' room' small ver kept refl (omega (arith, h.ver))
                  (omega (arith, h.ver)))
                copy)),
        out-IsStripped l stub stub' f g a b c h room' small three e
            (subst (λ p. IsCopied (new_stub w stub' room' small) f p (a.size + b.size) g)
              h.stub_size
              (subst (λ m. IsCopied (new_stub w stub' room' small) f w.coffset m g) left k))
            second low high size1 size2,
      )

  -- Where the third overlay is not empty its size is cleared, and otherwise that of the second.
  abbrev second_size : ℕ
  second_size = if c.size == 0 then 0 else b.size

  pub strip-linked :
      (g : Blob) × (k : ℕ) × (n : ℕ) × (coff2exe k n stripping ver stub' f ≡ some g)
      × IsStripped l stub' a b second_size g
  unfolding size_at
  strip-linked =
      let offs = word32 f.content 0x3c in
      elim (ℕ_discrete c.size 0) [
        | yes z ↦
            strip-run _ second_size
              (last_overlay-bare hdr t u d offs hdr_map pt pu (omega arith) lt lu (omega arith)
                some0 some1 (entry2 ∙ z))
              refl (omega arith) (omega arith) (omega (arith, entry0, entry1))
              (word32-store32 0x20 0 hdr
                ∙ sym (ap (λ t. if t then 0 else b.size) (eq→== c.size 0 z)))
              (word32-store32_apart 0x20 0 0x24 hdr (omega arith) ∙ entry2 ∙ z)
        | no z ↦
            strip-run _ second_size
              (last_overlay-full hdr t u d offs hdr_map pt pu (omega arith) lt lu (omega arith)
                some0 some1 (λ e. z (sym entry2 ∙ e)))
              refl (omega arith) (omega arith) (omega (arith, entry0, entry1))
              (word32-store32_apart 0x24 0 0x20 hdr (omega arith)
                ∙ entry1
                ∙ sym (ap (λ t. if t then 0 else b.size) (ne→== c.size 0 z)))
              (word32-store32 0x24 0 hdr)
      ]
