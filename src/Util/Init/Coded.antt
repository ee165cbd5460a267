-- ===== src/Util/Init/Coded.antt =====
-- `dpmi_init` of src/util.c on its own assembly: low memory whose `int2f` and `lcall` are C calls
-- of the code of these functions, on a state of the host and memory.
use djstub.Base.{ℕ, ◌+◌, ◌-◌, [], ◌∷◌, Bytes, word16, ltb, leb, ◌&&◌, if◌then◌else◌}
use djstub.Asm.{Machine, Interrupts}
use djstub.Asm.Memory.{store16, store32}
use djstub.Asm.Call.{state, left}
use djstub.Util.Init.{Regs, Lowmem}
use djstub.Util.RegsBlock.{regs_at}
use djstub.Util.Assembly.{int2f, lcall}

-- A `__dpmi_int_regs` at an address. The members that `dpmi_init` leaves at 0 are 0.
unfoldable pub store_regs : (b : ℕ) → Regs → Bytes → Bytes
store_regs b r mem =
    let cleared : Bytes = λ i. if leb b i && ltb i (b + 50) then 0 else mem i in
    store16 (b + 34) r.es (
      store16 (b + 32) r.flags (
        store32 (b + 28) r.eax
          (store32 (b + 16) r.ebx (store32 (b + 4) r.esi (store32 b r.edi cleared)))))

-- `memmove`
unfoldable pub memmove : (dst src n : ℕ) → Bytes → Bytes
memmove dst src n mem i = if leb dst i && ltb i (dst + n) then mem (src + (i - dst)) else mem i

-- What is not in the repository: `__dpmi_int`, and `__dpmi_psp`.
pub record Outside (H : Type 0) : Type 0 where
  pub dpmi_int : ℕ → Regs → H → Regs × H
  pub psp : ℕ

-- The registers at a call, the address that it returns to, and the addresses of `r` and `_psp_sel`.
module _ {H : Type 0} (h : Interrupts H) (out : Outside H) (regs : Machine H)
    (ret block_at psp_sel_at : ℕ) where
  abbrev pub coded : Lowmem (H × Bytes)
  coded = record {
    dpmi_int = λ n r s. let (r', host) = out.dpmi_int n r s.0 in (r', (host, s.1));
    int2f = λ r s.
        let m = left h regs ret int2f (block_at ∷ []) (s.0, store_regs block_at r s.1) in
        (regs_at block_at m.mem, state m);
    lcall = λ sel off ax bx s.
        let m = left h regs ret (lcall psp_sel_at) (sel ∷ off ∷ ax ∷ bx ∷ []) s in
        ((m.eax, word16 m.mem psp_sel_at), state m);
    memmove = λ dst src n s. (s.0, memmove dst src n s.1);
    psp = out.psp;
    esp = regs.esp;
  }
