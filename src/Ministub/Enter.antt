-- ===== src/Ministub/Enter.antt =====
-- What `enter_stub` of src/ministub.c passes to the loader of the DPMI host.
use Prim.Native.Nat.{bit_or}
use djstub.Base.{
  ℕ, ◌+◌, ◌-◌, ◌*◌, ◌%◌, ◌≤◌, ◌<◌, ◌≡◌, refl, sym, ap, ◌∙◌, inr, not, false, List, [], ◌∷◌, byte_at,
  add32, sub32, mul32, u16_mod, u32_mod, ltb, arith,
}
use djstub.Asm.{Machine, Interrupts, run, run_from, arg, set_flags, drop}
use djstub.Asm.Memory.{
  store32, word16-store32, word32-store32, word32-store32_apart, word16-store32_apart,
}
use djstub.Asm.Frame.{frame, arg-frame, frame-ebp, frame-esp}
use djstub.Ministub.Assembly.{enter_stub}

-- The arguments of `enter_stub`.
pub record StubCall : Type 0 where
  pub sel : ℕ
  pub off : ℕ
  pub argc : ℕ
  pub argv : ℕ
  pub envc : ℕ
  pub envp : ℕ
  pub psp : ℕ
  pub fd : ℕ
  pub ver : ℕ

abbrev pub words : StubCall → List ℕ
words c = c.sel ∷ c.off ∷ c.argc ∷ c.argv ∷ c.envc ∷ c.envp ∷ c.psp ∷ c.fd ∷ c.ver ∷ []

-- The registers that the loader of the DPMI host takes, each a 32-bit word.
pub record IsPassed {H : Type 0} (c : StubCall) (r : Machine H) : Type 0 where
  pub psp_and_version : r.eax ≡ bit_or (c.psp % u32_mod) (mul32 c.ver u16_mod)
  pub argc : r.ecx ≡ c.argc % u32_mod
  pub argv : r.edx ≡ c.argv % u32_mod
  pub envc : r.ebx ≡ c.envc % u32_mod
  pub envp : r.esi ≡ c.envp % u32_mod
  pub fd : r.edi ≡ c.fd % u32_mod

module _ {H : Type 0} (h : Interrupts H) where
  -- The state at the far call, for the code that is entered in the state `m`.
  abbrev passed : Machine H → Machine H
  passed m = record (set_flags false (bit_or (arg 32 m) (mul32 (arg 40 m) u16_mod)) m) {
    eax = bit_or (arg 32 m) (mul32 (arg 40 m) u16_mod);
    ecx = arg 16 m;
    edx = arg 20 m;
    ebx = arg 24 m;
    esi = arg 28 m;
    edi = arg 36 m;
    esp = m.ebp - 8;
    mem = store32 (m.ebp - 8) (arg 12 m) (store32 (m.ebp - 4) (arg 8 m) m.mem);
  }

  -- `add esp, 8`
  abbrev pub leave : Machine H → Machine H
  leave r = drop 8 (set_flags (not (ltb (r.esp + 8) u32_mod)) (add32 r.esp 8) r)

  enter_stub-run :
      (m : Machine H)
      → m.esp ≡ m.ebp
      → 8 ≤ m.ebp
      → m.ebp + 44 < u32_mod
      → run h enter_stub m ≡ leave (h.far (arg 8 m % u16_mod) (arg 12 m % u32_mod) (passed m))
  unfolding run run_from enter_stub
  enter_stub-run m e l u =
      let top : sub32 m.esp 4 ≡ m.ebp - 4 = omega (arith, e) in
      let next : sub32 (m.ebp - 4) 4 ≡ m.ebp - 8 = omega arith in
      let up : add32 (m.ebp - 8) 4 ≡ m.ebp - 4 = omega arith in
      let at : add32 m.ebp 12 ≡ m.ebp + 12 = omega arith in
      let kept =
        word32-store32_apart (m.ebp - 4) (arg 8 m) (add32 m.ebp 12) m.mem (inr (omega arith)) in
      let mem₁ = store32 (m.ebp - 4) (arg 8 m) m.mem in
      let sel =
        word16-store32_apart (m.ebp - 8) (arg 12 m) (m.ebp - 4) mem₁ (inr (omega arith))
        ∙ word16-store32 (m.ebp - 4) (arg 8 m) m.mem in
      rw (top, next, up, kept, sel, word32-store32 (m.ebp - 8) (arg 12 m) mem₁) refl

  -- Let a C call of `enter_stub` have 52 bytes of stack. Then the code makes one far call, of the
  -- low 16 bits of `sel` and the 32 bits of `off`, in a state that has `psp` joined by a bitwise
  -- or with `ver` shifted by 16 in eax, argc in ecx, argv in edx, envc in ebx, envp in esi and the
  -- file's descriptor in edi; and it ends in the state that the far procedure leaves, with the two
  -- words taken off the stack.
  pub enter_stub-IsPassed :
      (c : StubCall) (ret : ℕ) (m : Machine H)
      → 52 ≤ m.esp
      → m.esp < u32_mod
      → (r : Machine H) × IsPassed c r
        × (r.host ≡ m.host)
        × (run h enter_stub (frame ret (words c) m)
            ≡ leave (h.far (c.sel % u16_mod) (c.off % u32_mod) r))
  unfolding frame
  enter_stub-IsPassed c ret m room small =
      let f = frame ret (words c) m in
      let at : (i d : ℕ) → i < 9 → d ≡ 8 + 4 * i → arg d f ≡ byte_at (words c) i % u32_mod =
        λ i d l e. arg-frame ret (words c) m (omega arith) small i d l e in
      let ebp = frame-ebp ret (words c) m (omega arith) small in
      let esp = frame-esp ret (words c) m (omega arith) small in
      let shifted : mul32 (arg 40 f) u16_mod ≡ mul32 c.ver u16_mod =
        omega (arith, at 8 40 (omega arith) refl) in
      (
        passed f,
        record {
          psp_and_version =
              ap (λ a. bit_or a (mul32 (arg 40 f) u16_mod)) (at 6 32 (omega arith) refl)
              ∙ ap (bit_or (c.psp % u32_mod)) shifted;
          argc = at 2 16 (omega arith) refl;
          argv = at 3 20 (omega arith) refl;
          envc = at 4 24 (omega arith) refl;
          envp = at 5 28 (omega arith) refl;
          fd = at 7 36 (omega arith) refl;
        },
        refl,
        enter_stub-run f (esp ∙ sym ebp) (omega (arith, ebp)) (omega (arith, ebp))
            ∙ ap (λ sel. leave (h.far sel (arg 12 f % u32_mod) (passed f)))
                (omega (arith, at 0 8 (omega arith) refl))
            ∙ ap (λ off. leave (h.far (c.sel % u16_mod) off (passed f)))
                (omega (arith, at 1 12 (omega arith) refl)),
      )
