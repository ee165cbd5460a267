-- ===== src/Util/RegsBlock.antt =====
-- A block of `__dpmi_int_regs` (src/util.h) as `int2f` of src/util.c writes it.
use djstub.Base.{
  ℕ, Bytes, ◌+◌, ◌%◌, ◌≤◌, ◌≡◌, ◌∙◌, ◌⊎◌, inl, inr, word16, word32, u16_mod, u32_mod, arith,
}
use djstub.Asm.{Machine}
use djstub.Asm.Memory.{
  store16, store32, word16-store16, word32-store32, word32-store32_apart, word16-store32_apart,
  word16-store16_apart, word32-store16_apart,
}
use djstub.Util.Init.{Regs}

-- The members of a block of `__dpmi_int_regs` that `dpmi_init` looks at.
abbrev pub regs_at : (b : ℕ) → Bytes → Regs
regs_at b mem = record {
  edi = word32 mem b;
  esi = word32 mem (b + 4);
  ebx = word32 mem (b + 16);
  eax = word32 mem (b + 28);
  flags = word16 mem (b + 32);
  es = word16 mem (b + 34);
}

-- The members in the order in which the code stores them.
module _ {H : Type 0} (b f : ℕ) (r : Machine H) (mem : Bytes) where
  abbrev store_first : Bytes
  store_first = store32 (b + 4) r.esi (store32 b r.edi (store16 (b + 32) f mem))

  abbrev store_words : Bytes
  store_words = store32 (b + 28) r.eax (store32 (b + 24) r.ecx (store32 (b + 20) r.edx store_first))

  abbrev pub store_block : Bytes
  store_block =
      store16 (b + 40) r.gs
        (store16 (b + 38) r.fs (store16 (b + 36) r.ds (store16 (b + 34) r.es store_words)))

  -- A word below the segment registers, and one that the first stores have written.
  word32-segs : (q : ℕ) → q + 4 ≤ b + 34 → word32 store_block q ≡ word32 store_words q
  word32-segs q h =
      word32-store16_apart (b + 40) r.gs q
        (store16 (b + 38) r.fs (store16 (b + 36) r.ds (store16 (b + 34) r.es store_words)))
        (inl (omega arith))
      ∙ word32-store16_apart (b + 38) r.fs q
          (store16 (b + 36) r.ds (store16 (b + 34) r.es store_words)) (inl (omega arith))
      ∙ word32-store16_apart (b + 36) r.ds q (store16 (b + 34) r.es store_words) (inl (omega arith))
      ∙ word32-store16_apart (b + 34) r.es q store_words (inl (omega arith))

  word32-words : (q : ℕ) → q + 4 ≤ b + 20 → word32 store_block q ≡ word32 store_first q
  word32-words q h =
      word32-segs q (omega arith)
      ∙ word32-store32_apart (b + 28) r.eax q
          (store32 (b + 24) r.ecx (store32 (b + 20) r.edx store_first)) (inl (omega arith))
      ∙ word32-store32_apart (b + 24) r.ecx q (store32 (b + 20) r.edx store_first)
          (inl (omega arith))
      ∙ word32-store32_apart (b + 20) r.edx q store_first (inl (omega arith))

  word16-segs :
      (q : ℕ) → q + 2 ≤ b + 36 → word16 store_block q ≡ word16 (store16 (b + 34) r.es store_words) q
  word16-segs q h =
      word16-store16_apart (b + 40) r.gs q
        (store16 (b + 38) r.fs (store16 (b + 36) r.ds (store16 (b + 34) r.es store_words)))
        (inl (omega arith))
      ∙ word16-store16_apart (b + 38) r.fs q
          (store16 (b + 36) r.ds (store16 (b + 34) r.es store_words)) (inl (omega arith))
      ∙ word16-store16_apart (b + 36) r.ds q (store16 (b + 34) r.es store_words) (inl (omega arith))

  word16-flags : word16 store_block (b + 32) ≡ f % u16_mod
  word16-flags =
      word16-segs (b + 32) (omega arith)
      ∙ word16-store16_apart (b + 34) r.es (b + 32) store_words (inl (omega arith))
      ∙ word16-store32_apart (b + 28) r.eax (b + 32)
          (store32 (b + 24) r.ecx (store32 (b + 20) r.edx store_first)) (inr (omega arith))
      ∙ word16-store32_apart (b + 24) r.ecx (b + 32) (store32 (b + 20) r.edx store_first)
          (inr (omega arith))
      ∙ word16-store32_apart (b + 20) r.edx (b + 32) store_first (inr (omega arith))
      ∙ word16-store32_apart (b + 4) r.esi (b + 32) (store32 b r.edi (store16 (b + 32) f mem))
          (inr (omega arith))
      ∙ word16-store32_apart b r.edi (b + 32) (store16 (b + 32) f mem) (inr (omega arith))
      ∙ word16-store16 (b + 32) f mem

  -- The block, for a memory with ebx in its place.
  pub regs_at-store_block :
      (v : ℕ)
      → word32 mem (b + 16) ≡ v
      → regs_at b store_block ≡ record {
        edi = r.edi % u32_mod;
        esi = r.esi % u32_mod;
        ebx = v;
        eax = r.eax % u32_mod;
        flags = f % u16_mod;
        es = r.es % u16_mod;
      }
  regs_at-store_block v e =
      let at_edi =
        word32-words b (omega arith)
        ∙ word32-store32_apart (b + 4) r.esi b (store32 b r.edi (store16 (b + 32) f mem))
            (inl (omega arith))
        ∙ word32-store32 b r.edi (store16 (b + 32) f mem) in
      let at_esi =
        word32-words (b + 4) (omega arith)
        ∙ word32-store32 (b + 4) r.esi (store32 b r.edi (store16 (b + 32) f mem)) in
      let at_ebx =
        word32-words (b + 16) (omega arith)
        ∙ word32-store32_apart (b + 4) r.esi (b + 16) (store32 b r.edi (store16 (b + 32) f mem))
            (inr (omega arith))
        ∙ word32-store32_apart b r.edi (b + 16) (store16 (b + 32) f mem) (inr (omega arith))
        ∙ word32-store16_apart (b + 32) f (b + 16) mem (inl (omega arith))
        ∙ e in
      let at_eax =
        word32-segs (b + 28) (omega arith)
        ∙ word32-store32 (b + 28) r.eax
            (store32 (b + 24) r.ecx (store32 (b + 20) r.edx store_first)) in
      let at_es = word16-segs (b + 34) (omega arith) ∙ word16-store16 (b + 34) r.es store_words in
      λ i. record {
        edi = at_edi i;
        esi = at_esi i;
        ebx = at_ebx i;
        eax = at_eax i;
        flags = word16-flags i;
        es = at_es i;
      }

  -- A word apart from the block.
  pub word16-store_block_apart :
      (q : ℕ) → (q + 2 ≤ b) ⊎ (b + 42 ≤ q) → word16 store_block q ≡ word16 mem q
  word16-store_block_apart q h =
      word16-store16_apart (b + 40) r.gs q
        (store16 (b + 38) r.fs (store16 (b + 36) r.ds (store16 (b + 34) r.es store_words)))
        (ground arith)
      ∙ word16-store16_apart (b + 38) r.fs q
          (store16 (b + 36) r.ds (store16 (b + 34) r.es store_words)) (ground arith)
      ∙ word16-store16_apart (b + 36) r.ds q (store16 (b + 34) r.es store_words) (ground arith)
      ∙ word16-store16_apart (b + 34) r.es q store_words (ground arith)
      ∙ word16-store32_apart (b + 28) r.eax q
          (store32 (b + 24) r.ecx (store32 (b + 20) r.edx store_first)) (ground arith)
      ∙ word16-store32_apart (b + 24) r.ecx q (store32 (b + 20) r.edx store_first) (ground arith)
      ∙ word16-store32_apart (b + 20) r.edx q store_first (ground arith)
      ∙ word16-store32_apart (b + 4) r.esi q (store32 b r.edi (store16 (b + 32) f mem))
          (ground arith)
      ∙ word16-store32_apart b r.edi q (store16 (b + 32) f mem) (ground arith)
      ∙ word16-store16_apart (b + 32) f q mem (ground arith)
