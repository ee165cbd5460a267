-- ===== src/Util/Lcall.antt =====
-- What `lcall` of src/util.c passes to a far procedure, and what it returns.
use djstub.Base.{
  ℕ, Bytes, ◌+◌, ◌-◌, ◌%◌, ◌≤◌, ◌<◌, ◌≡◌, refl, ap, ◌∙◌, ◌⊎◌, inl, inr, not, word16, word32, add32,
  sub32, u16_mod, u32_mod, if◌then◌else◌, eq→==, ne→==, Bool-cases, arith, none, [], ◌∷◌,
}
use djstub.Asm.{
  Machine, Interrupts, run, run_from, arg, flags, pop, pushf, store_static, pop_seg, eax, es,
}
use djstub.Asm.Memory.{
  store16, store32, word16-store16, word16-store32, word32-store32, word32-store32_apart,
  word16-store32_apart, word16-store16_apart,
}
use djstub.Dpmi.Descriptors.{Code}
use djstub.Util.Init.{carry}
use djstub.Util.Assembly.{lcall}

-- The pushes below a frame do not reach its arguments.
module _ {H : Type 0} (m : Machine H) where
  abbrev pushed_es : Bytes
  pushed_es = store32 (m.ebp - 4) m.es m.mem

  abbrev pushed_sel : Bytes
  pushed_sel = store32 (m.ebp - 8) (arg 8 m) pushed_es

  -- The state at the far call.
  abbrev pub passed : Machine H
  passed = record m {
    eax = arg 16 m;
    ebx = arg 20 m;
    esp = m.ebp - 12;
    mem = store32 (m.ebp - 12) (arg 12 m) pushed_sel;
  }

module _ {H : Type 0} (h : Interrupts H) (psp_sel_at : ℕ) (m : Machine H) where
  abbrev pub called : Machine H
  called = h.far (arg 8 m % u16_mod) (arg 12 m % u32_mod) (passed m)

  -- The function is entered in a frame with room, `_psp_sel` is apart from it, and the procedure
  -- keeps the stack and the memory.
  pub record IsCalled : Type 0 where
    pub at_frame : m.esp ≡ m.ebp
    pub room : 12 ≤ m.ebp
    pub no_wrap : m.ebp + 24 < u32_mod
    pub apart : (psp_sel_at + 2 ≤ m.ebp - 12) ⊎ (m.ebp + 24 ≤ psp_sel_at)
    pub keeps_frame : called.ebp ≡ m.ebp
    pub keeps_stack : called.esp ≡ m.ebp - 12
    pub keeps_mem : called.mem ≡ (passed m).mem

  abbrev pub result : Machine H
  result = run h (lcall psp_sel_at) m

  abbrev finish : Code
  finish = pop eax ∷ pop eax ∷ pushf ∷ pop eax ∷ store_static psp_sel_at es ∷ pop_seg es ∷ []

  module _ (c : IsCalled) where
    arg-es : (d : ℕ) → 8 ≤ d → d ≤ 20 → word32 (pushed_es m) (add32 m.ebp d) ≡ arg d m
    arg-es d low high =
        word32-store32_apart (m.ebp - 4) m.es (add32 m.ebp d) m.mem
          (inr (omega (arith, c.room, c.no_wrap)))

    arg-sel : (d : ℕ) → 8 ≤ d → d ≤ 20 → word32 (pushed_sel m) (add32 m.ebp d) ≡ arg d m
    arg-sel d low high =
        word32-store32_apart (m.ebp - 8) (arg 8 m) (add32 m.ebp d) (pushed_es m)
          (inr (omega (arith, c.room, c.no_wrap)))
        ∙ arg-es d low high

    arg-off : (d : ℕ) → 8 ≤ d → d ≤ 20 → word32 (passed m).mem (add32 m.ebp d) ≡ arg d m
    arg-off d low high =
        word32-store32_apart (m.ebp - 12) (arg 12 m) (add32 m.ebp d) (pushed_sel m)
          (inr (omega (arith, c.room, c.no_wrap)))
        ∙ arg-sel d low high

    call-run : result ≡ run_from h none finish called
    unfolding run run_from lcall
    call-run =
        let top : sub32 m.esp 4 ≡ m.ebp - 4 = omega (arith, c.at_frame, c.room, c.no_wrap) in
        let next : sub32 (m.ebp - 4) 4 ≡ m.ebp - 8 = omega (arith, c.room, c.no_wrap) in
        let last : sub32 (m.ebp - 8) 4 ≡ m.ebp - 12 = omega (arith, c.room, c.no_wrap) in
        let up : add32 (m.ebp - 12) 4 ≡ m.ebp - 8 = omega (arith, c.room, c.no_wrap) in
        let sel : word16 (passed m).mem (m.ebp - 8) ≡ arg 8 m % u16_mod =
          word16-store32_apart (m.ebp - 12) (arg 12 m) (m.ebp - 8) (pushed_sel m)
            (inr (omega (arith, c.room)))
          ∙ word16-store32 (m.ebp - 8) (arg 8 m) (pushed_es m) in
        rw
          (
            top,
            arg-es 8 (omega arith) (omega arith),
            next,
            arg-sel 12 (omega arith) (omega arith),
            last,
            arg-off 16 (omega arith) (omega arith),
            arg-off 20 (omega arith) (omega arith),
            up,
            sel,
            word32-store32 (m.ebp - 12) (arg 12 m) (pushed_sel m),
          )
          refl

    abbrev with_flags : Bytes
    with_flags = store32 (m.ebp - 8) (flags called) (passed m).mem

    finish-run : run_from h none finish called ≡ record called {
      eax = flags called % u32_mod;
      es = m.es % u16_mod;
      esp = m.ebp;
      mem = store16 psp_sel_at called.es with_flags;
    }
    unfolding run_from
    finish-run =
        let up : add32 (m.ebp - 12) 4 ≡ m.ebp - 8 = omega (arith, c.room, c.no_wrap) in
        let back : add32 (m.ebp - 8) 4 ≡ m.ebp - 4 = omega (arith, c.room, c.no_wrap) in
        let down : sub32 (m.ebp - 4) 4 ≡ m.ebp - 8 = omega (arith, c.room, c.no_wrap) in
        let top : add32 (m.ebp - 4) 4 ≡ m.ebp = omega (arith, c.room, c.no_wrap) in
        let saved : word16 (store16 psp_sel_at called.es with_flags) (m.ebp - 4) ≡ m.es % u16_mod =
          word16-store16_apart psp_sel_at called.es (m.ebp - 4) with_flags
            (elim c.apart [ inl l ↦ inr (omega arith) | inr l ↦ inl (omega arith) ])
          ∙ word16-store32_apart (m.ebp - 8) (flags called) (m.ebp - 4) (passed m).mem
              (inr (omega (arith, c.room)))
          ∙ word16-store32_apart (m.ebp - 12) (arg 12 m) (m.ebp - 4) (pushed_sel m)
              (inr (omega (arith, c.room)))
          ∙ word16-store32_apart (m.ebp - 8) (arg 8 m) (m.ebp - 4) (pushed_es m)
              (inr (omega (arith, c.room)))
          ∙ word16-store32 (m.ebp - 4) m.es m.mem in
        rw
          (
            c.keeps_stack,
            up,
            back,
            down,
            back,
            c.keeps_mem,
            word32-store32 (m.ebp - 8) (flags called) (passed m).mem,
            saved,
            top,
          )
          refl

    -- The flags and the selector that the procedure has returned.
    pub lcall-run :
        (result.eax ≡ flags called % u32_mod)
        × (word16 result.mem psp_sel_at ≡ called.es % u16_mod)
        × (result.host ≡ called.host)
    lcall-run =
        let run = call-run ∙ finish-run in
        (
          ap (λ (r : Machine H). r.eax) run,
          ap (λ (r : Machine H). word16 r.mem psp_sel_at) run
              ∙ word16-store16 psp_sel_at called.es with_flags,
          ap (λ (r : Machine H). r.host) run,
        )

    carry-flags : (r : Machine H) → r.other_flags % 2 ≡ 0 → carry (flags r % u32_mod) ≡ r.cf
    carry-flags r even = elim (Bool-cases r.cf) [
      | inl e ↦ rw e (
          ap not (
            ne→== ((1 + (if r.zf then 0x40 else 0) + r.other_flags) % u32_mod % 2) 0
              (ground arith)))
      | inr e ↦ rw e (
          ap not (
            eq→== ((0 + (if r.zf then 0x40 else 0) + r.other_flags) % u32_mod % 2) 0
              (ground arith)))
    ]

    -- Let the far procedure keep the stack and the memory, let the function have a frame with room
    -- and `_psp_sel` be apart from it, and let bit 0 of the other flags be clear. Then `lcall`
    -- returns flags whose `CF` is the carry flag of the procedure, `_psp_sel` has the es of the
    -- procedure, and es and the stack pointer are restored.
    pub lcall-returned :
        called.other_flags % 2 ≡ 0
        → (carry result.eax ≡ called.cf)
          × (word16 result.mem psp_sel_at ≡ called.es % u16_mod)
          × (result.es ≡ m.es % u16_mod)
          × (result.esp ≡ m.ebp)
    lcall-returned even =
        let run = call-run ∙ finish-run in
        (
          ap (λ (r : Machine H). carry r.eax) run ∙ carry-flags called even,
          ap (λ (r : Machine H). word16 r.mem psp_sel_at) run
              ∙ word16-store16 psp_sel_at called.es with_flags,
          ap (λ (r : Machine H). r.es) run,
          ap (λ (r : Machine H). r.esp) run,
        )
