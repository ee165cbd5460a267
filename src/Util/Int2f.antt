-- ===== src/Util/Int2f.antt =====
-- What `int2f` of src/util.c passes to interrupt 0x2f, and what it writes to its block of
-- registers.
use djstub.Base.{
  ℕ, Bytes, ◌+◌, ◌-◌, ◌%◌, ◌≤◌, ◌<◌, ◌≡◌, refl, ap, ◌∙◌, ◌⊎◌, inl, inr, true, word16, word32, add32,
  sub32, u16_mod, u32_mod, none, [], ◌∷◌, arith,
}
use djstub.Asm.{
  Machine, Interrupts, run, run_from, arg, flags, load, store, store_seg, push, pop_mem,
  pop_mem_word, pushfw, pop_seg, eax, ebx, ecx, edx, esi, edi, ebp, es, ds, fs, gs,
}
use djstub.Asm.Memory.{
  store16, store32, word16-store16, word16-store32, word32-store32, word32-store32_apart,
  word16-store32_apart, word16-store16_apart, word32-store16_apart,
}
use djstub.Dpmi.Descriptors.{Code}
use djstub.Util.RegsBlock.{regs_at, store_block, regs_at-store_block, word16-store_block_apart}
use djstub.Util.Assembly.{int2f}

module _ {H : Type 0} (h : Interrupts H) (m : Machine H) where
  -- The address of the block, and the state at the interrupt: the registers of the block, with
  -- carry set.
  abbrev pub block_at : ℕ
  block_at = arg 8 m

  abbrev pushed : Bytes
  pushed = store32 (m.ebp - 4) m.es m.mem

  abbrev pub asked : Machine H
  asked = record m {
    edi = word32 pushed block_at;
    esi = word32 pushed (block_at + 4);
    edx = word32 pushed (block_at + 20);
    ecx = word32 pushed (block_at + 24);
    eax = word32 pushed (block_at + 28);
    ebx = word32 pushed (block_at + 16);
    cf = true;
    esp = m.ebp - 4;
    mem = pushed;
  }

  -- The interrupt gets the registers of the block, with carry set.
  pub record IsAsked : Type 0 where
    pub in_edi : asked.edi ≡ word32 m.mem block_at
    pub in_esi : asked.esi ≡ word32 m.mem (block_at + 4)
    pub in_ebx : asked.ebx ≡ word32 m.mem (block_at + 16)
    pub in_eax : asked.eax ≡ word32 m.mem (block_at + 28)
    pub carry_set : asked.cf ≡ true

  abbrev pub answer : Machine H
  answer = h.call 0x2f asked

  abbrev pub result : Machine H
  result = run h int2f m

  -- The function is entered in a frame with room, the block is apart from it, and the interrupt
  -- keeps the stack and the memory.
  pub record IsCalled : Type 0 where
    pub at_frame : m.esp ≡ m.ebp
    pub room : 8 ≤ m.ebp
    pub no_wrap : m.ebp + 12 < u32_mod
    pub block_small : block_at + 42 ≤ u32_mod
    pub apart : (block_at + 42 ≤ m.ebp - 8) ⊎ (m.ebp + 12 ≤ block_at)
    pub keeps_frame : answer.ebp ≡ m.ebp
    pub keeps_stack : answer.esp ≡ m.ebp - 4
    pub keeps_mem : answer.mem ≡ pushed

  abbrev store_regs : Code
  store_regs =
      push ebx
      ∷ load ebx ebp 8
      ∷ pop_mem ebx 16
      ∷ pushfw
      ∷ pop_mem_word ebx 32
      ∷ store ebx 0 edi
      ∷ store ebx 4 esi
      ∷ store ebx 20 edx
      ∷ store ebx 24 ecx
      ∷ store ebx 28 eax
      ∷ store_seg ebx 34 es
      ∷ store_seg ebx 36 ds
      ∷ store_seg ebx 38 fs
      ∷ store_seg ebx 40 gs
      ∷ pop_seg es
      ∷ []

  module _ (c : IsCalled) where
    -- A displacement in the block.
    at : (d : ℕ) → d ≤ 40 → add32 block_at d ≡ block_at + d
    at d l = omega (arith, c.block_small)

    ask-run : result ≡ run_from h none store_regs answer
    unfolding run run_from int2f
    ask-run =
        let top : sub32 m.esp 4 ≡ m.ebp - 4 = omega (arith, c.at_frame, c.room, c.no_wrap) in
        let block : word32 pushed (add32 m.ebp 8) ≡ block_at =
          word32-store32_apart (m.ebp - 4) m.es (add32 m.ebp 8) m.mem
            (inr (omega (arith, c.room, c.no_wrap))) in
        let first : add32 block_at 0 ≡ block_at = omega (arith, c.block_small) in
        rw
          (
            top,
            block,
            first,
            at 4 (omega arith),
            at 20 (omega arith),
            at 24 (omega arith),
            at 28 (omega arith),
            at 16 (omega arith),
          )
          refl

    abbrev with_ebx : Bytes
    with_ebx = store32 (m.ebp - 8) answer.ebx pushed

    abbrev with_flags : Bytes
    with_flags =
        store16 (m.ebp - 6) (flags answer) (store32 (block_at + 16) (answer.ebx % u32_mod) with_ebx)

    abbrev stored : Bytes
    stored = store_block block_at (flags answer % u16_mod) answer with_flags

    saved : word16 stored (m.ebp - 4) ≡ m.es % u16_mod
    saved =
        word16-store_block_apart block_at (flags answer % u16_mod) answer with_flags (m.ebp - 4)
          (elim c.apart [ inl l ↦ inr (omega arith) | inr l ↦ inl (omega arith) ])
        ∙ word16-store16_apart (m.ebp - 6) (flags answer) (m.ebp - 4)
            (store32 (block_at + 16) (answer.ebx % u32_mod) with_ebx) (inr (omega (arith, c.room)))
        ∙ word16-store32_apart (block_at + 16) (answer.ebx % u32_mod) (m.ebp - 4) with_ebx
            (elim c.apart [ inl l ↦ inr (omega arith) | inr l ↦ inl (omega arith) ])
        ∙ word16-store32_apart (m.ebp - 8) answer.ebx (m.ebp - 4) pushed
            (inr (omega (arith, c.room)))
        ∙ word16-store32 (m.ebp - 4) m.es m.mem

    store-run :
        run_from h none store_regs answer
        ≡ record answer { ebx = block_at; es = m.es % u16_mod; esp = m.ebp; mem = stored }
    unfolding run_from
    store-run =
        let down : sub32 (m.ebp - 4) 4 ≡ m.ebp - 8 = omega (arith, c.room, c.no_wrap) in
        let back : add32 (m.ebp - 8) 4 ≡ m.ebp - 4 = omega (arith, c.room, c.no_wrap) in
        let down₂ : sub32 (m.ebp - 4) 2 ≡ m.ebp - 6 = omega (arith, c.room, c.no_wrap) in
        let back₂ : add32 (m.ebp - 6) 2 ≡ m.ebp - 4 = omega (arith, c.room, c.no_wrap) in
        let top : add32 (m.ebp - 4) 4 ≡ m.ebp = omega (arith, c.room, c.no_wrap) in
        let block : word32 with_ebx (add32 m.ebp 8) ≡ block_at =
          word32-store32_apart (m.ebp - 8) answer.ebx (add32 m.ebp 8) pushed
            (inr (omega (arith, c.room, c.no_wrap)))
          ∙ word32-store32_apart (m.ebp - 4) m.es (add32 m.ebp 8) m.mem
              (inr (omega (arith, c.room, c.no_wrap))) in
        let first : add32 block_at 0 ≡ block_at = omega (arith, c.block_small) in
        rw
          (
            c.keeps_frame,
            c.keeps_stack,
            c.keeps_mem,
            down,
            block,
            at 16 (omega arith),
            word32-store32 (m.ebp - 8) answer.ebx pushed,
            back,
            down₂,
            at 32 (omega arith),
            word16-store16 (m.ebp - 6) (flags answer)
                (store32 (block_at + 16) (answer.ebx % u32_mod) with_ebx),
            back₂,
            first,
            at 4 (omega arith),
            at 20 (omega arith),
            at 24 (omega arith),
            at 28 (omega arith),
            at 34 (omega arith),
            at 36 (omega arith),
            at 38 (omega arith),
            at 40 (omega arith),
            saved,
            top,
          )
          refl

    with_flags-ebx : word32 with_flags (block_at + 16) ≡ answer.ebx % u32_mod
    with_flags-ebx =
        let mem = store32 (block_at + 16) (answer.ebx % u32_mod) with_ebx in
        word32-store16_apart (m.ebp - 6) (flags answer) (block_at + 16) mem
          (elim c.apart [ inl l ↦ inl (omega arith) | inr l ↦ inr (omega (arith, c.room)) ])
        ∙ word32-store32 (block_at + 16) (answer.ebx % u32_mod) with_ebx
        ∙ omega arith

    -- A register of the block is where the caller has put it.
    pushed-word : (d : ℕ) → d + 4 ≤ 42 → word32 pushed (block_at + d) ≡ word32 m.mem (block_at + d)
    pushed-word d below =
        word32-store32_apart (m.ebp - 4) m.es (block_at + d) m.mem (elim c.apart [
          | inl l ↦ inl (omega (arith, c.room))
          | inr l ↦ inr (omega (arith, c.room))
        ])

    pub asked-IsAsked : IsAsked
    asked-IsAsked = record {
      in_edi = word32-store32_apart (m.ebp - 4) m.es block_at m.mem (elim c.apart [
        | inl l ↦ inl (omega (arith, c.room))
        | inr l ↦ inr (omega (arith, c.room))
      ]);
      in_esi = pushed-word 4 (omega arith);
      in_ebx = pushed-word 16 (omega arith);
      in_eax = pushed-word 28 (omega arith);
      carry_set = refl;
    }

    pub int2f-host : result.host ≡ answer.host
    int2f-host = ap (λ (r : Machine H). r.host) (ask-run ∙ store-run)

    -- Let interrupt 0x2f keep the stack and the memory, and let the block of registers be apart
    -- from the frame. Then the interrupt gets edi, esi, ebx and eax of the block with carry set,
    -- `int2f` leaves in the block the edi, esi, ebx, eax, flags and es of its answer, and es and
    -- the stack pointer are restored.
    pub int2f-regs_at :
        IsAsked
        × (regs_at block_at result.mem ≡ record {
          edi = answer.edi % u32_mod;
          esi = answer.esi % u32_mod;
          ebx = answer.ebx % u32_mod;
          eax = answer.eax % u32_mod;
          flags = flags answer % u16_mod;
          es = answer.es % u16_mod;
        })
        × (result.es ≡ m.es % u16_mod)
        × (result.esp ≡ m.ebp)
    int2f-regs_at =
        let run = ask-run ∙ store-run in
        let same : flags answer % u16_mod % u16_mod ≡ flags answer % u16_mod = omega arith in
        (
          asked-IsAsked,
          ap (λ (r : Machine H). regs_at block_at r.mem) run
              ∙ regs_at-store_block block_at (flags answer % u16_mod) answer with_flags
                  (answer.ebx % u32_mod) with_flags-ebx
              ∙ ap
                  (λ f. record {
                    edi = answer.edi % u32_mod;
                    esi = answer.esi % u32_mod;
                    ebx = answer.ebx % u32_mod;
                    eax = answer.eax % u32_mod;
                    flags = f;
                    es = answer.es % u16_mod;
                  })
                  same,
          ap (λ (r : Machine H). r.es) run,
          ap (λ (r : Machine H). r.esp) run,
        )
