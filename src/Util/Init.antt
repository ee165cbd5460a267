-- ===== src/Util/Init.antt =====
-- The switch to protected mode and the low memory of src/util.c (`dpmi_init`, `shrink_low`,
-- `free_low`, `get_low_pool`; the build without __GNUC__).
pub mod Coded
pub mod Pool
pub mod Refines
pub mod Simulates
use Prim.Native.Nat.{bit_or}
use djstub.Base.{
  ℕ, ◌+◌, ◌*◌, ◌/◌, ◌%◌, Bool, true, false, ◌&&◌, ◌||◌, not, add32, mul32, minus_one, to_u16, ltb,
  ◌==◌, if◌then◌else◌,
}

-- The members of `__dpmi_int_regs` that are looked at.
pub record Regs : Type 0 where
  pub edi : ℕ
  pub esi : ℕ
  pub ebx : ℕ
  pub eax : ℕ
  pub flags : ℕ
  pub es : ℕ

-- `__dpmi_int_regs r = {0};`
abbrev pub zero_regs : Regs
zero_regs = record { edi = 0; esi = 0; ebx = 0; eax = 0; flags = 0; es = 0 }

-- What DOS, the extender and the DPMI host do to a state `S`: an interrupt in real mode, interrupt
-- 0x2f, the call of the entry point for a selector, an offset, ax and bx, which gives the flags and
-- `_psp_sel`, and a move of `n` bytes of low memory.
pub record Lowmem (S : Type 0) : Type 0 where
  pub dpmi_int : ℕ → Regs → S → Regs × S
  pub int2f : Regs → S → Regs × S
  pub lcall : (sel off ax bx : ℕ) → S → (ℕ × ℕ) × S
  pub memmove : (dst src n : ℕ) → S → S
  -- `__dpmi_psp` and the stack pointer.
  pub psp : ℕ
  pub esp : ℕ

-- `exit_failure` is `exit(EXIT_FAILURE)`, `abort` a failed `assert`.
pub data Outcome (A : Type 0) (S : Type 0) : Type 0 where
  returned : A → S → Outcome A S
  exit_failure abort : Outcome A S

-- `flags & CF`
abbrev pub carry : ℕ → Bool
carry flags = not (flags % 2 == 0)

-- `(ebx & 0x1402) != 0x402`: not that bits 1 and 10 are set and bit 12 is clear.
abbrev pub no_pool : ℕ → Bool
no_pool ebx = not (ebx / 0x2 % 2 == 1 && ebx / 0x400 % 2 == 1 && ebx / 0x1000 % 2 == 0)

module _ {A B S : Type 0} where
  abbrev pub and_then : Outcome A S → (A → S → Outcome B S) → Outcome B S
  and_then (returned a s) k = k a s
  and_then exit_failure k = exit_failure
  and_then abort k = abort

  infixl 5 ◌>>=◌
  abbrev ◌>>=◌ : (S → Outcome A S) → (A → S → Outcome B S) → S → Outcome B S
  m >>= k = λ s. and_then (m s) k

module _ {S : Type 0} (low : Lowmem S) where
  -- `(unsigned)__dpmi_psp >> 4`
  abbrev pub psp_segment : ℕ
  psp_segment = low.psp / 0x10

  unfoldable pub get_low_pool : ℕ
  get_low_pool = to_u16 (psp_segment + 0x10)

  unfoldable pub shrink_low : (para : ℕ) → S → Outcome (Unit {0}) S
  shrink_low para s =
      let regs = record zero_regs { eax = 0x4a00; ebx = 0x10 + para; es = to_u16 psp_segment } in
      let (r, s') = low.dpmi_int 0x21 regs s in
      if not (ltb 0x11_0000 low.esp)
      then abort
      else if carry r.flags
      then exit_failure
      else returned tt s'

  unfoldable pub free_low : (seg : ℕ) → S → Outcome (Unit {0}) S
  free_low seg s =
      let (r, s') = low.dpmi_int 0x21 (record zero_regs { eax = 0x4900; es = seg }) s in
      if carry r.flags then exit_failure else returned tt s'

  -- `if (r.esi) memmove(...)`
  unfoldable pub move_pool : (r : Regs) → (newseg : ℕ) → S → S
  move_pool r newseg s =
      if r.esi == 0
      then s
      else low.memmove (mul32 newseg 0x10) (mul32 r.eax 0x10) (mul32 r.esi 0x10) s

  -- From `shrink_low` on, for what interrupt 0x2f has returned. The result is `*psp_sel`.
  unfoldable pub enter : (para : ℕ) → Regs → S → Outcome ℕ S
  unfolding get_low_pool shrink_low free_low move_pool
  enter para r = shrink_low (to_u16 (add32 para r.esi)) >>= λ _ s.
      let newseg = get_low_pool + para in
      let s = move_pool r newseg s in
      let ((f, psp_sel), s) = low.lcall r.es r.edi (if r.esi == 0 then 1 else 0x1001) newseg s in
      if carry f
      then exit_failure
      else if r.esi == 0
      then returned psp_sel s
      else (free_low (to_u16 r.eax) >>= λ _. returned psp_sel) s

  -- The return code and `*psp_sel`, which a failure leaves as it was.
  unfoldable pub dpmi_init : (para psp_sel : ℕ) → S → Outcome (ℕ × ℕ) S
  unfolding enter
  dpmi_init para psp_sel s =
      let (r, s) = low.int2f (record zero_regs { eax = 0x1687; ebx = 0x1000 }) s in
      if carry r.flags
      then returned (minus_one, psp_sel) s
      else if r.ebx % 2 == 0
      then exit_failure
      else if no_pool r.ebx && not (r.eax == 0 && r.esi == 0)
      then exit_failure
      else (enter para r >>= λ psp_sel. returned (0, psp_sel)) s
