-- ===== src/Ministub/Main/Coded.antt =====
-- `main` of src/ministub.c on its own assembly: what asks for the extension and what enters the
-- loader of the host are C calls of the code of `DPMIQueryExtension` and `enter_stub`.
use djstub.Base.{
  ℕ, ◌+◌, ◌*◌, ◌%◌, ◌≤◌, ◌<◌, ◌≡◌, refl, ap, ◌∙◌, Bool, false, Option, some, [], ◌∷◌, byte_at,
  Bytes, to_u16, u16_mod, u32_mod, word16, word32, not, ◌==◌, if◌then◌else◌, arith,
}
use djstub.Asm.{Machine, Interrupts, arg}
use djstub.Asm.Frame.{arg-frame}
use djstub.Asm.Call.{state, result, before, entered, left}
use djstub.Util.Init.{Outcome, returned, dpmi_init}
use djstub.Ministub.Assembly.{dpmi_query_extension, enter_stub}
use djstub.Ministub.Query.{
  IsCalled, AreApart, Answered, known, unknown, answer, dpmi_query_extension-Answered,
}
use djstub.Ministub.Enter.{StubCall, IsPassed, words, leave, enter_stub-IsPassed}
use djstub.Ministub.Main.{
  Launcher, choose_loader, run_fullstub, call_opened, call_stub, stub_version,
}

-- The registers at a call, the address that it returns to, and the addresses of the two variables
-- and of the extension's name. What else `main` runs on is that of `l`.
module _ {H : Type 0} (h : Interrupts H) (regs : Machine H) (ret sel_at off_at name_at : ℕ)
    (l : Launcher (H × Bytes)) where
  -- The state in which the code of `DPMIQueryExtension` starts.
  abbrev pub asking : H × Bytes → Machine H
  asking s = entered h regs ret (sel_at ∷ off_at ∷ name_at ∷ []) s

  abbrev asked : H × Bytes → Machine H
  asked s = left h regs ret dpmi_query_extension (sel_at ∷ off_at ∷ name_at ∷ []) s

  -- For `off` the 32 bits at its address, of which `main` reads the low 16.
  abbrev pub coded_launcher : Launcher (H × Bytes)
  coded_launcher = record l {
    query = λ s. (
      ((asked s).eax, word16 (asked s).mem sel_at, word32 (asked s).mem off_at),
      state (asked s),
    );
    enter_stub = λ c envp s. result (left h regs ret enter_stub (words c) s);
  }

  module _ (argc envc fd psp : ℕ) (envp : ℕ → ℕ) (s : H × Bytes) where
    abbrev told : Machine H
    told = answer h (asking s)

    -- What `main` passes to the loader of the host.
    abbrev pub passed_on : StubCall
    passed_on = record {
      sel = to_u16 (told.es % u16_mod);
      off = to_u16 (told.edi % u32_mod);
      argc = argc;
      argv = l.argv_at;
      envc = envc;
      envp = l.envp_at;
      psp = psp;
      fd = fd;
      ver = stub_version;
    }

    -- The host knows the extension, the executable opens, and the switch is made.
    pub record Serves (s₁ s₂ : H × Bytes) : Type 0 where
      pub called : IsCalled h (asking s)
      pub apart : AreApart h (asking s)
      pub known : told.eax ≡ 0
      pub sel_small : sel_at < u32_mod
      pub off_small : off_at < u32_mod
      pub no_fullstub : l.wants_fullstub ≡ false
      pub opened : l.open_argv (state (asked s)) ≡ (some fd, s₁)
      pub switched : dpmi_init l.low 0 l.psp_garbage s₁ ≡ returned (0, psp) s₂

    -- The addresses of the variables, as the code finds them in its frame.
    at_arg :
        (i d : ℕ)
        → i < 3
        → d ≡ 8 + 4 * i
        → 52 ≤ regs.esp
        → regs.esp < u32_mod
        → arg d (asking s) ≡ byte_at (sel_at ∷ off_at ∷ name_at ∷ []) i % u32_mod
    at_arg i d l e room small =
        arg-frame ret (sel_at ∷ off_at ∷ name_at ∷ []) (before h regs ret s) (omega arith) small i d
          l e

    query-told :
        sel_at < u32_mod
        → off_at < u32_mod
        → 52 ≤ regs.esp
        → regs.esp < u32_mod
        → told.eax ≡ 0
        → Answered h (asking s)
        → coded_launcher.query s ≡ ((0, told.es % u16_mod, told.edi % u32_mod), state (asked s))
    query-told at_sel at_off room small zero (unknown ne run sel off) = absurd (ne (omega arith))
    query-told at_sel at_off room small zero (known e run sel off es) =
        let err : (asked s).eax ≡ 0 = omega (arith, run) in
        let sel_arg : sel_at ≡ arg 8 (asking s) =
          omega (arith, at_arg 0 8 (omega arith) refl room small) in
        let off_arg : off_at ≡ arg 12 (asking s) =
          omega (arith, at_arg 1 12 (omega arith) refl room small) in
        let sel' : word16 (asked s).mem sel_at ≡ told.es % u16_mod =
          ap (word16 (asked s).mem) sel_arg ∙ sel in
        let off' : word32 (asked s).mem off_at ≡ told.edi % u32_mod =
          ap (word32 (asked s).mem) off_arg ∙ off in
        λ i. ((err i, sel' i, off' i), state (asked s))

    -- The choice, for the wish and the answer of the host.
    abbrev chosen : Bool → (ℕ × ℕ × ℕ) × (H × Bytes) → Outcome ℕ (H × Bytes)
    chosen wish ((err, sel, off), s') =
        if wish
        then run_fullstub coded_launcher argc envc envp s
        else if not (err == 0)
        then run_fullstub coded_launcher argc envc envp s'
        else call_opened coded_launcher argc envc envp (to_u16 sel) (to_u16 off) (l.open_argv s')

    abbrev on_told : Option ℕ × (H × Bytes) → Outcome ℕ (H × Bytes)
    on_told r =
        call_opened coded_launcher argc envc envp (to_u16 (told.es % u16_mod))
          (to_u16 (told.edi % u32_mod)) r

    abbrev on_init : Outcome (ℕ × ℕ) (H × Bytes) → Outcome ℕ (H × Bytes)
    on_init r =
        call_stub coded_launcher argc envc envp (to_u16 (told.es % u16_mod))
          (to_u16 (told.edi % u32_mod)) fd r

    choose_loader-run :
        (s₁ s₂ : H × Bytes)
        → Serves s₁ s₂
        → 52 ≤ regs.esp
        → regs.esp < u32_mod
        → choose_loader coded_launcher argc envc envp s
          ≡ returned
              (coded_launcher.enter_stub passed_on envp s₂).0
              (coded_launcher.enter_stub passed_on envp s₂).1
    unfolding choose_loader call_opened call_stub
    choose_loader-run s₁ s₂ k room small =
        let start : choose_loader coded_launcher argc envc envp s
            ≡ chosen l.wants_fullstub (coded_launcher.query s) =
          refl in
        start
        ∙ ap (λ wish. chosen wish (coded_launcher.query s)) k.no_fullstub
        ∙ ap (chosen false) (
            query-told k.sel_small k.off_small room small k.known
              (dpmi_query_extension-Answered h (asking s) k.called k.apart))
        ∙ ap on_told k.opened
        ∙ ap on_init k.switched

    -- Let COMCOM_FULLSTUB not be set, let the interrupt of `DPMIQueryExtension` keep the stack and
    -- memory and return 0 in eax, with the two variables apart from one another and from the frame,
    -- let the executable open and the switch to protected mode succeed, and let there be 52 bytes
    -- of stack. Then `main`, from `getenv` on, makes one far call, of the selector that the
    -- interrupt has given in es and of the low 16 bits of the offset that it has given in edi, with
    -- the arguments of `enter_stub` in their registers, and returns what it leaves in eax.
    pub choose_loader-far :
        (s₁ s₂ : H × Bytes)
        → Serves s₁ s₂
        → 52 ≤ regs.esp
        → regs.esp < u32_mod
        → (r : Machine H) × IsPassed passed_on r
          × (let m = leave h (h.far (told.es % u16_mod) (told.edi % u16_mod) r) in
              choose_loader coded_launcher argc envc envp s ≡ returned m.eax (state m))
    choose_loader-far s₁ s₂ k room small =
        let (r, passed, same, run) =
          enter_stub-IsPassed h passed_on ret (before h regs ret s₂) room small in
        let sel : passed_on.sel % u16_mod ≡ told.es % u16_mod = omega arith in
        let off : passed_on.off % u32_mod ≡ told.edi % u16_mod = omega arith in
        (
          r,
          passed,
          choose_loader-run s₁ s₂ k room small
              ∙ ap (λ (m : Machine H). returned m.eax (state m))
                  (run ∙ λ i. leave h (h.far (sel i) (off i) r)),
        )
