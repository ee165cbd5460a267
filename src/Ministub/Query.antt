-- ===== src/Ministub/Query.antt =====
-- What `DPMIQueryExtension` of src/ministub.c makes of the answer of interrupt 0x2f.
use native.Mathlib.Decide.{ℕ_discrete}
use djstub.Base.{
  ℕ, Bytes, ◌+◌, ◌-◌, ◌*◌, ◌/◌, ◌%◌, ◌≤◌, ◌<◌, ◌≡◌, ◌≢◌, refl, ap, ◌∙◌, ◌⊎◌, inl, inr, false, true,
  none, some, [], ◌∷◌, if◌then◌else◌, word16, word32, add32, sub32, u16_mod, u32_mod, ◌==◌, eq→==,
  ne→==, arith,
}
use djstub.Asm.{
  Machine, Interrupts, run, run_from, arg, set_flags, load, store, store_seg, pop_seg, clear_ah,
  label, fail, ebx, ebp, es, edi,
}
use djstub.Dpmi.Descriptors.{Code}
use djstub.Asm.Memory.{
  store16, store32, word16-store16, word16-store32, word32-store32, word32-store32_apart,
  word16-store32_apart, word32-store16_apart, word16-store16_apart,
}
use djstub.Ministub.Assembly.{dpmi_query_extension}

module _ {H : Type 0} (h : Interrupts H) (m : Machine H) where
  -- The state at the interrupt: es is saved, and esi has the name.
  abbrev pub query : Machine H
  query = record m {
    eax = 0x168a;
    esi = arg 16 m;
    esp = m.ebp - 4;
    mem = store32 (m.ebp - 4) m.es m.mem;
  }

  abbrev pub answer : Machine H
  answer = h.call 0x2f query

  abbrev pub queried : Machine H
  queried = run h dpmi_query_extension m

  -- The interrupt keeps the stack and the memory, and is entered from a frame with room.
  pub record IsCalled : Type 0 where
    pub at_frame : m.esp ≡ m.ebp
    pub room : 4 ≤ m.ebp
    pub no_wrap : m.ebp + 20 < u32_mod
    pub keeps_frame : answer.ebp ≡ m.ebp
    pub keeps_stack : answer.esp ≡ m.ebp - 4
    pub keeps_mem : answer.mem ≡ query.mem

  abbrev pub sel_at : ℕ
  sel_at = arg 8 m

  abbrev pub off_at : ℕ
  off_at = arg 12 m

  -- The variables are apart from one another and from the frame; the store to `off` has 32 bits.
  pub record AreApart : Type 0 where
    pub sel_small : sel_at + 2 ≤ u32_mod
    pub off_small : off_at + 4 ≤ u32_mod
    pub sel_frame : (sel_at + 2 ≤ m.ebp - 4) ⊎ (m.ebp + 20 ≤ sel_at)
    pub off_frame : (off_at + 4 ≤ m.ebp - 4) ⊎ (m.ebp + 20 ≤ off_at)
    pub sel_off : (sel_at + 2 ≤ off_at) ⊎ (off_at + 4 ≤ sel_at)

  -- Either the host does not know the extension: then al is not 0, which the caller takes for an
  -- error, and `sel` and `off` are as before. Or the two are stored, and es is restored.
  pub data Answered : Type 0 where
    unknown :
        answer.eax % 0x100 ≢ 0
        → queried.eax ≡ answer.eax
        → word16 queried.mem sel_at ≡ word16 m.mem sel_at
        → word32 queried.mem off_at ≡ word32 m.mem off_at
        → Answered
    known :
        answer.eax % 0x100 ≡ 0
        → queried.eax ≡ answer.eax / u16_mod * u16_mod
        → word16 queried.mem sel_at ≡ answer.es % u16_mod
        → word32 queried.mem off_at ≡ answer.edi % u32_mod
        → queried.es ≡ m.es % u16_mod
        → Answered

  -- The query as the code makes it, and the code behind the test of the answer.
  abbrev pushed : Machine H
  pushed =
      let top = sub32 m.esp 4 in
      let mem = store32 top m.es m.mem in
      record m { eax = 0x168a; esi = word32 mem (add32 m.ebp 16); esp = top; mem = mem }

  abbrev store_answer : Code
  store_answer =
      load ebx ebp 8
      ∷ store_seg ebx 0 es
      ∷ load ebx ebp 12
      ∷ store ebx 0 edi
      ∷ pop_seg es
      ∷ clear_ah
      ∷ label fail
      ∷ []

  abbrev tested : Machine H → Machine H
  tested r =
      run_from h (if r.eax % 0x100 == 0 then none else some fail) store_answer
        (set_flags false (r.eax % 0x100) r)

  pushed-run : queried ≡ tested (h.call 0x2f pushed)
  unfolding run run_from dpmi_query_extension
  pushed-run = refl

  module _ (called : IsCalled) where
    -- An argument behind the push.
    query-arg : (d : ℕ) → 8 ≤ d → d ≤ 16 → word32 query.mem (add32 m.ebp d) ≡ arg d m
    query-arg d low high =
        word32-store32_apart (m.ebp - 4) m.es (add32 m.ebp d) m.mem
          (inr (omega (arith, called.room, called.no_wrap)))

    top : sub32 m.esp 4 ≡ m.ebp - 4
    top = omega (arith, called.at_frame, called.room, called.no_wrap)

    query-is : pushed ≡ query
    query-is = rw (top, query-arg 16 (omega arith) (omega arith)) refl

    queried-run :
        queried
        ≡ run_from h
            (if answer.eax % 0x100 == 0 then none else some fail)
            store_answer
            (set_flags false (answer.eax % 0x100) answer)
    queried-run = pushed-run ∙ ap (λ q. tested (h.call 0x2f q)) query-is

    refused-run : answer.eax % 0x100 ≢ 0 → queried ≡ set_flags false (answer.eax % 0x100) answer
    unfolding run_from
    refused-run ne =
        queried-run
        ∙ ap
            (λ b.
              run_from h (if b then none else some fail) store_answer
                (set_flags false (answer.eax % 0x100) answer))
            (ne→== (answer.eax % 0x100) 0 ne)

    module _ (apart : AreApart) where
      abbrev with_sel : Bytes
      with_sel = store16 sel_at answer.es query.mem

      abbrev with_off : Bytes
      with_off = store32 off_at answer.edi with_sel

      granted : Machine H
      granted = record answer {
        ebx = off_at;
        mem = with_off;
        es = m.es % u16_mod;
        esp = m.ebp;
        cf = false;
        zf = true;
        eax = answer.eax / u16_mod * u16_mod + answer.eax % 0x100;
      }

      granted-run : answer.eax % 0x100 ≡ 0 → queried ≡ granted
      unfolding run_from granted
      granted-run e =
          let arg_off : word32 with_sel (add32 m.ebp 12) ≡ off_at =
            word32-store16_apart sel_at answer.es (add32 m.ebp 12) query.mem (elim apart.sel_frame [
              | inl l ↦ inr (omega arith)
              | inr l ↦ inl (omega (arith, called.no_wrap))
            ])
            ∙ query-arg 12 (omega arith) (omega arith) in
          let saved : word16 with_off (m.ebp - 4) ≡ m.es % u16_mod =
            word16-store32_apart off_at answer.edi (m.ebp - 4) with_sel
              (elim apart.off_frame [ inl l ↦ inr (omega arith) | inr l ↦ inl (omega arith) ])
            ∙ word16-store16_apart sel_at answer.es (m.ebp - 4) query.mem
                (elim apart.sel_frame [ inl l ↦ inr (omega arith) | inr l ↦ inl (omega arith) ])
            ∙ word16-store32 (m.ebp - 4) m.es m.mem in
          let back : add32 (m.ebp - 4) 4 ≡ m.ebp = omega (arith, called.room, called.no_wrap) in
          let sel₀ : add32 sel_at 0 ≡ sel_at = omega (arith, apart.sel_small) in
          let off₀ : add32 off_at 0 ≡ off_at = omega (arith, apart.off_small) in
          queried-run
          ∙ rw
              (
                eq→== (answer.eax % 0x100) 0 e,
                called.keeps_frame,
                called.keeps_stack,
                called.keeps_mem,
                query-arg 8 (omega arith) (omega arith),
                sel₀,
                arg_off,
                off₀,
                saved,
                back,
              )
              refl

      granted-sel : word16 with_off sel_at ≡ answer.es % u16_mod
      granted-sel =
          word16-store32_apart off_at answer.edi sel_at with_sel apart.sel_off
          ∙ word16-store16 sel_at answer.es query.mem

    -- Let the interrupt keep the stack and the memory, and let `sel`, the 32 bits at `off` and the
    -- frame be apart. Either al of the answer is not 0: then `DPMIQueryExtension` returns eax of
    -- the answer, and `sel` and the word at `off` are as before. Or it is 0: then it returns the
    -- upper half of eax with a lower half of 0, `sel` has the selector of the answer, the 32 bits
    -- at `off` have edi of the answer, and es is restored.
    pub dpmi_query_extension-Answered : AreApart → Answered
    unfolding granted
    dpmi_query_extension-Answered apart = elim (ℕ_discrete (answer.eax % 0x100) 0) [
      | yes e ↦
          let run = granted-run apart e in
          known e (ap (λ (r : Machine H). r.eax) run ∙ omega (arith, e))
            (ap (λ (r : Machine H). word16 r.mem sel_at) run ∙ granted-sel apart)
            (ap (λ (r : Machine H). word32 r.mem off_at) run
              ∙ word32-store32 off_at answer.edi (with_sel apart))
            (ap (λ (r : Machine H). r.es) run)
      | no ne ↦
          let run = refused-run ne in
          unknown ne (ap (λ (r : Machine H). r.eax) run)
            (ap (λ (r : Machine H). word16 r.mem sel_at) run
              ∙ ap (λ mem. word16 mem sel_at) called.keeps_mem
              ∙ word16-store32_apart (m.ebp - 4) m.es sel_at m.mem
                  (elim apart.sel_frame [ inl l ↦ inl (omega arith) | inr l ↦ inr (omega arith) ]))
            (ap (λ (r : Machine H). word32 r.mem off_at) run
              ∙ ap (λ mem. word32 mem off_at) called.keeps_mem
              ∙ word32-store32_apart (m.ebp - 4) m.es off_at m.mem
                  (elim apart.off_frame [ inl l ↦ inl (omega arith) | inr l ↦ inr (omega arith) ]))
    ]
