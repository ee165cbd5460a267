-- ===== src/Util/Init/Simulates.antt =====
-- `dpmi_init` of src/util.c over two descriptions of low memory, one of which forgets part of the
-- state of the other.
use djstub.Base.{
  ℕ, ◌+◌, ◌%◌, ◌/◌, ◌≡◌, refl, sym, ap, ◌∙◌, Bool, true, false, if◌then◌else◌, ◌==◌, ◌&&◌, not, ltb,
  mul32, to_u16, add32, minus_one,
}
use djstub.Util.Init.{
  Regs, zero_regs, Lowmem, Outcome, returned, exit_failure, abort, and_then, carry, no_pool,
  get_low_pool, psp_segment, shrink_low, free_low, move_pool, enter, dpmi_init,
}

module _ {S T : Type 0} (f : S → T) where
  abbrev pub forget : {A : Type 0} → Outcome A S → Outcome A T
  forget (returned a s) = returned a (f s)
  forget exit_failure = exit_failure
  forget abort = abort

  forget-and_then :
      {A B : Type 0} (o : Outcome A S) (k : A → S → Outcome B S) (k' : A → T → Outcome B T)
      → ((a : A) (s : S) → forget (k a s) ≡ k' a (f s))
      → forget (and_then o k) ≡ and_then (forget o) k'
  forget-and_then (returned a s) k k' h = h a s
  forget-and_then exit_failure k k' h = refl
  forget-and_then abort k k' h = refl

  forget-if :
      {A : Type 0} (b : Bool) (o p : Outcome A S)
      → forget (if b then o else p) ≡ (if b then forget o else forget p)
  forget-if true o p = refl
  forget-if false o p = refl

  move-if : (b : Bool) (s s' : S) → f (if b then s else s') ≡ (if b then f s else f s')
  move-if true s s' = refl
  move-if false s s' = refl

-- What the second description is to say of the first.
pub record Simulates {S T : Type 0} (f : S → T) (low : Lowmem S) (low' : Lowmem T) : Type 0 where
  pub dpmi_int :
      (n : ℕ) (r : Regs) (s : S)
      → low'.dpmi_int n r (f s) ≡ ((low.dpmi_int n r s).0, f (low.dpmi_int n r s).1)
  pub int2f : (r : Regs) (s : S) → low'.int2f r (f s) ≡ ((low.int2f r s).0, f (low.int2f r s).1)
  pub lcall :
      (sel off ax bx : ℕ) (s : S)
      → low'.lcall sel off ax bx (f s)
        ≡ ((low.lcall sel off ax bx s).0, f (low.lcall sel off ax bx s).1)
  pub memmove : (dst src n : ℕ) (s : S) → low'.memmove dst src n (f s) ≡ f (low.memmove dst src n s)
  pub psp : low'.psp ≡ low.psp
  pub esp : low'.esp ≡ low.esp

module _ {S T : Type 0} (f : S → T) (low : Lowmem S) (low' : Lowmem T)
    (sim : Simulates f low low') where
  same_segment : psp_segment low' ≡ psp_segment low
  same_segment = ap (λ p. p / 0x10) sim.psp

  shrink_low-forget :
      (para : ℕ) (s : S) → forget f (shrink_low low para s) ≡ shrink_low low' para (f s)
  unfolding shrink_low
  shrink_low-forget para s =
      let regs = record zero_regs {
        eax = 0x4a00;
        ebx = 0x10 + para;
        es = to_u16 (psp_segment low);
      } in
      let (r, s') = low.dpmi_int 0x21 regs s in
      forget-if f (not (ltb 0x11_0000 low.esp)) abort
        (if carry r.flags then exit_failure else returned tt s')
      ∙ rw (sim.psp, sim.esp)
          (rw (sim.dpmi_int 0x21 regs s) (
            ap (λ o. if not (ltb 0x11_0000 low.esp) then abort else o)
              (forget-if f (carry r.flags) exit_failure (returned tt s'))))

  free_low-forget : (seg : ℕ) (s : S) → forget f (free_low low seg s) ≡ free_low low' seg (f s)
  unfolding free_low
  free_low-forget seg s =
      let regs = record zero_regs { eax = 0x4900; es = seg } in
      let (r, s') = low.dpmi_int 0x21 regs s in
      rw (sim.dpmi_int 0x21 regs s) (forget-if f (carry r.flags) exit_failure (returned tt s'))

  move_pool-forget :
      (r : Regs) (newseg : ℕ) (s : S) → f (move_pool low r newseg s) ≡ move_pool low' r newseg (f s)
  unfolding move_pool
  move_pool-forget r newseg s =
      rw (sim.memmove (mul32 newseg 0x10) (mul32 r.eax 0x10) (mul32 r.esi 0x10) s) (
        move-if f (r.esi == 0) s
          (low.memmove (mul32 newseg 0x10) (mul32 r.eax 0x10) (mul32 r.esi 0x10) s))

  get_low_pool-same : get_low_pool low' ≡ get_low_pool low
  unfolding get_low_pool
  get_low_pool-same = ap (λ p. to_u16 (p / 0x10 + 0x10)) sim.psp

  -- `enter` behind the call of the entry point.
  abbrev entered : {U : Type 0} → Lowmem U → Regs → (ℕ × ℕ) → U → Outcome ℕ U
  entered l r (flags, psp_sel) s =
      if carry flags
      then exit_failure
      else if r.esi == 0
      then returned psp_sel s
      else and_then (free_low l (to_u16 r.eax) s) (λ _. returned psp_sel)

  entered-forget :
      (r : Regs) (answer : ℕ × ℕ) (s : S)
      → forget f (entered low r answer s) ≡ entered low' r answer (f s)
  entered-forget r (flags, psp_sel) s =
      let freed = and_then (free_low low (to_u16 r.eax) s) (λ _. returned psp_sel) in
      forget-if f (carry flags) exit_failure (if r.esi == 0 then returned psp_sel s else freed)
      ∙ ap (λ o. if carry flags then exit_failure else o)
          (forget-if f (r.esi == 0) (returned psp_sel s) freed
            ∙ ap (λ o. if r.esi == 0 then returned psp_sel (f s) else o)
                (forget-and_then f (free_low low (to_u16 r.eax) s) (λ _. returned psp_sel)
                    (λ _. returned psp_sel) (λ _ _. refl)
                  ∙ ap (λ o. and_then o (λ _. returned psp_sel))
                      (free_low-forget (to_u16 r.eax) s)))

  -- `enter` behind `shrink_low`.
  abbrev shrunk : {U : Type 0} → Lowmem U → (para : ℕ) → Regs → U → Outcome ℕ U
  shrunk l para r s =
      let newseg = get_low_pool l + para in
      let (answer, s') =
        l.lcall r.es r.edi (if r.esi == 0 then 1 else 0x1001) newseg (move_pool l r newseg s) in
      entered l r answer s'

  shrunk-forget :
      (para : ℕ) (r : Regs) (s : S) → forget f (shrunk low para r s) ≡ shrunk low' para r (f s)
  shrunk-forget para r s =
      let newseg = get_low_pool low + para in
      let ax : ℕ = if r.esi == 0 then 1 else 0x1001 in
      let moved = move_pool low r newseg s in
      rw (get_low_pool-same, sym (move_pool-forget r newseg s))
        (rw (sim.lcall r.es r.edi ax newseg moved) (
          entered-forget r (low.lcall r.es r.edi ax newseg moved).0
            (low.lcall r.es r.edi ax newseg moved).1))

  enter-forget :
      (para : ℕ) (r : Regs) (s : S) → forget f (enter low para r s) ≡ enter low' para r (f s)
  unfolding enter
  enter-forget para r s =
      forget-and_then f (shrink_low low (to_u16 (add32 para r.esi)) s) (λ _. shrunk low para r)
        (λ _. shrunk low' para r) (λ _. shrunk-forget para r)
      ∙ ap (λ o. and_then o (λ _. shrunk low' para r))
          (shrink_low-forget (to_u16 (add32 para r.esi)) s)

  -- `dpmi_init` behind the query.
  abbrev answered : {U : Type 0} → Lowmem U → (para psp_sel : ℕ) → Regs → U → Outcome (ℕ × ℕ) U
  answered l para psp_sel r s =
      if carry r.flags
      then returned (minus_one, psp_sel) s
      else if r.ebx % 2 == 0
      then exit_failure
      else if no_pool r.ebx && not (r.eax == 0 && r.esi == 0)
      then exit_failure
      else and_then (enter l para r s) (λ sel. returned (0, sel))

  answered-forget :
      (para psp_sel : ℕ) (r : Regs) (s : S)
      → forget f (answered low para psp_sel r s) ≡ answered low' para psp_sel r (f s)
  answered-forget para psp_sel r s =
      let last = and_then (enter low para r s) (λ sel. returned (0, sel)) in
      let odd = no_pool r.ebx && not (r.eax == 0 && r.esi == 0) in
      forget-if f (carry r.flags) (returned (minus_one, psp_sel) s)
        (if r.ebx % 2 == 0 then exit_failure else if odd then exit_failure else last)
      ∙ ap (λ o. if carry r.flags then returned (minus_one, psp_sel) (f s) else o)
          (forget-if f (r.ebx % 2 == 0) exit_failure (if odd then exit_failure else last)
            ∙ ap (λ o. if r.ebx % 2 == 0 then exit_failure else o)
                (forget-if f odd exit_failure last
                  ∙ ap (λ o. if odd then exit_failure else o)
                      (forget-and_then f (enter low para r s) (λ sel. returned (0, sel))
                          (λ sel. returned (0, sel)) (λ _ _. refl)
                        ∙ ap (λ o. and_then o (λ sel. returned (0, sel))) (enter-forget para r s))))

  pub dpmi_init-forget :
      (para psp_sel : ℕ) (s : S)
      → forget f (dpmi_init low para psp_sel s) ≡ dpmi_init low' para psp_sel (f s)
  unfolding dpmi_init
  dpmi_init-forget para psp_sel s =
      let query = record zero_regs { eax = 0x1687; ebx = 0x1000 } in
      rw (sim.int2f query s)
        (answered-forget para psp_sel (low.int2f query s).0 (low.int2f query s).1)
