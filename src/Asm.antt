-- ===== src/Asm.antt =====
-- The 32-bit instructions that the inline assembly of src/*.c is written in.
pub mod Memory
pub mod Frame
pub mod Call
use djstub.Base.{
  ℕ, ◌+◌, ◌-◌, ◌*◌, ◌/◌, ◌%◌, ◌^◌, Bool, true, false, not, Option, none, some, List, [], ◌∷◌, Bytes,
  word16, word32, add32, sub32, mul32, u16_mod, u32_mod, ltb, ◌==◌, if◌then◌else◌,
}
use Prim.Native.Nat.{bit_or}
use djstub.Asm.Memory.{store16, store32}

pub data Reg : Type 0 where
  eax ebx ecx edx esi edi ebp esp : Reg

pub data Seg : Type 0 where
  es ds fs gs : Seg

pub data Label : Type 0 where
  ok done fail : Label

-- `mem` is the flat data segment, `cf` and `zf` the carry and the zero flag, `other_flags` the
-- flags register without them, and `host` what the code cannot reach: the DPMI server and DOS.
pub record Machine (H : Type 0) : Type 0 where
  pub eax : ℕ
  pub ebx : ℕ
  pub ecx : ℕ
  pub edx : ℕ
  pub esi : ℕ
  pub edi : ℕ
  pub ebp : ℕ
  pub esp : ℕ
  pub es : ℕ
  pub ds : ℕ
  pub fs : ℕ
  pub gs : ℕ
  pub cf : Bool
  pub zf : Bool
  pub other_flags : ℕ
  pub mem : Bytes
  pub host : H

-- A displacement stands behind its base register: `load r b d` is `mov r, [b + d]`, `load_word`
-- is `movzx r, word [b + d]`, `store b d r` is `mov [b + d], r`, and `store_word` stores the low
-- half of the register, as `mov [b + d], dx` does. `store_static a s` is `mov [a], s` at the
-- address `a` of a static variable, `call_far` is `call far [ss:esp]`, `test_al` and `clear_ah`
-- are `test al, al` and `xor ah, ah`.
pub data Instr : Type 0 where
  mov : Reg → ℕ → Instr
  load load_word : Reg → Reg → ℕ → Instr
  store store_word : Reg → ℕ → Reg → Instr
  store_seg : Reg → ℕ → Seg → Instr
  store_static : ℕ → Seg → Instr
  load_seg : Seg → Reg → ℕ → Instr
  mov_seg : Reg → Seg → Instr
  push pop : Reg → Instr
  push_seg pop_seg : Seg → Instr
  push_mem pop_mem pop_mem_word : Reg → ℕ → Instr
  pushf pushfw : Instr
  add shl : Reg → ℕ → Instr
  or : Reg → Reg → Instr
  test_al clear_ah stc call_far : Instr
  int : ℕ → Instr
  lsl lar : Reg → Reg → ℕ → Instr
  jnc jnz jmp label : Label → Instr

-- What an interrupt and a far procedure do (the state when they have returned), and what `lsl` and
-- `lar` read of a selector (`none` where it is not valid, and the register then stays).
pub record Interrupts (H : Type 0) : Type 0 where
  pub call : ℕ → Machine H → Machine H
  pub far : (selector offset : ℕ) → Machine H → Machine H
  pub segment_limit : ℕ → Option ℕ
  pub access_rights : ℕ → Option ℕ

-- Whether a jump to the label is still under way behind the instruction. All jumps are forward.
abbrev pub landing : Label → Instr → Option Label
landing ok (label ok) = none
landing done (label done) = none
landing fail (label fail) = none
landing l i = some l

module _ {H : Type 0} where
  abbrev pub get : Reg → Machine H → ℕ
  get eax m = m.eax
  get ebx m = m.ebx
  get ecx m = m.ecx
  get edx m = m.edx
  get esi m = m.esi
  get edi m = m.edi
  get ebp m = m.ebp
  get esp m = m.esp

  abbrev pub set : Reg → ℕ → Machine H → Machine H
  set eax v m = record m { eax = v }
  set ebx v m = record m { ebx = v }
  set ecx v m = record m { ecx = v }
  set edx v m = record m { edx = v }
  set esi v m = record m { esi = v }
  set edi v m = record m { edi = v }
  set ebp v m = record m { ebp = v }
  set esp v m = record m { esp = v }

  abbrev pub get_seg : Seg → Machine H → ℕ
  get_seg es m = m.es
  get_seg ds m = m.ds
  get_seg fs m = m.fs
  get_seg gs m = m.gs

  abbrev pub set_seg : Seg → ℕ → Machine H → Machine H
  set_seg es v m = record m { es = v }
  set_seg ds v m = record m { ds = v }
  set_seg fs v m = record m { fs = v }
  set_seg gs v m = record m { gs = v }

  -- The effective address of a base register and a displacement.
  abbrev pub address : Reg → ℕ → Machine H → ℕ
  address b d m = add32 (get b m) d

  abbrev pub set_some : Reg → Option ℕ → Machine H → Machine H
  set_some r none m = m
  set_some r (some v) m = set r v m

  -- The flags register as `pushf` pushes it: carry is bit 0, zero bit 6.
  abbrev pub flags : Machine H → ℕ
  flags m = (if m.cf then 1 else 0) + (if m.zf then 0x40 else 0) + m.other_flags

  -- `push` of 4 and of 2 bytes, and the `pop` of 4 bytes.
  abbrev pub push32 : ℕ → Machine H → Machine H
  push32 v m = let top = sub32 m.esp 4 in record m { esp = top; mem = store32 top v m.mem }

  abbrev pub push16 : ℕ → Machine H → Machine H
  push16 v m = let top = sub32 m.esp 2 in record m { esp = top; mem = store16 top v m.mem }

  abbrev pub drop : ℕ → Machine H → Machine H
  drop n m = record m { esp = add32 m.esp n }

  -- Carry and zero for a result; the other flags of arithmetic are not followed.
  abbrev pub set_flags : Bool → ℕ → Machine H → Machine H
  set_flags carry v m = record m { cf = carry; zf = v == 0 }

  -- One instruction; the label is that of a jump that is taken.
  abbrev pub exec : Interrupts H → Instr → Machine H → Option Label × Machine H
  exec h (mov r v) m = (none, set r v m)
  exec h (load r b d) m = (none, set r (word32 m.mem (address b d m)) m)
  exec h (load_word r b d) m = (none, set r (word16 m.mem (address b d m)) m)
  exec h (store b d r) m = (none, record m { mem = store32 (address b d m) (get r m) m.mem })
  exec h (store_word b d r) m = (none, record m { mem = store16 (address b d m) (get r m) m.mem })
  exec h (store_seg b d s) m =
      (none, record m { mem = store16 (address b d m) (get_seg s m) m.mem })
  exec h (store_static a s) m = (none, record m { mem = store16 a (get_seg s m) m.mem })
  exec h (load_seg s b d) m = (none, set_seg s (word16 m.mem (address b d m)) m)
  exec h (mov_seg r s) m = (none, set r (get r m / u16_mod * u16_mod + get_seg s m) m)
  exec h (push r) m = (none, push32 (get r m) m)
  exec h (pop r) m = (none, set r (word32 m.mem m.esp) (drop 4 m))
  exec h (push_seg s) m = (none, push32 (get_seg s m) m)
  exec h (pop_seg s) m = (none, set_seg s (word16 m.mem m.esp) (drop 4 m))
  exec h (push_mem b d) m = (none, push32 (word32 m.mem (address b d m)) m)
  exec h (pop_mem b d) m =
      (none, drop 4 (record m { mem = store32 (address b d m) (word32 m.mem m.esp) m.mem }))
  exec h (pop_mem_word b d) m =
      (none, drop 2 (record m { mem = store16 (address b d m) (word16 m.mem m.esp) m.mem }))
  exec h pushf m = (none, push32 (flags m) m)
  exec h pushfw m = (none, push16 (flags m) m)
  exec h (add r n) m = (
    none,
    set r (add32 (get r m) n) (set_flags (not (ltb (get r m + n) u32_mod)) (add32 (get r m) n) m),
  )
  exec h (shl r n) m = (
    none,
    set r (mul32 (get r m) (2 ^ n))
        (set_flags (get r m / 2 ^ (32 - n) % 2 == 1) (mul32 (get r m) (2 ^ n)) m),
  )
  exec h (or r r') m = let v = bit_or (get r m) (get r' m) in (none, set r v (set_flags false v m))
  exec h test_al m = (none, set_flags false (m.eax % 0x100) m)
  exec h clear_ah m =
      (none, record m { cf = false; zf = true; eax = m.eax / u16_mod * u16_mod + m.eax % 0x100 })
  exec h stc m = (none, record m { cf = true })
  exec h call_far m = (none, h.far (word16 m.mem (add32 m.esp 4)) (word32 m.mem m.esp) m)
  exec h (int n) m = (none, h.call n m)
  exec h (lsl r b d) m = (none, set_some r (h.segment_limit (word16 m.mem (address b d m))) m)
  exec h (lar r b d) m = (none, set_some r (h.access_rights (word16 m.mem (address b d m))) m)
  exec h (jnc l) m = (if m.cf then none else some l, m)
  exec h (jnz l) m = (if m.zf then none else some l, m)
  exec h (jmp l) m = (some l, m)
  exec h (label l) m = (none, m)

  unfoldable pub run_from : Interrupts H → Option Label → List Instr → Machine H → Machine H
  run_from h jump [] m = m
  run_from h (some l) (i ∷ code) m = run_from h (landing l i) code m
  run_from h none (i ∷ code) m = let (jump, m') = exec h i m in run_from h jump code m'

  unfoldable pub run : Interrupts H → List Instr → Machine H → Machine H
  unfolding run_from
  run h code m = run_from h none code m

  -- The argument at `[ebp + d]` of a C function.
  abbrev pub arg : ℕ → Machine H → ℕ
  arg d m = word32 m.mem (add32 m.ebp d)

  -- The low and the high half of an argument, as `movzx` reads them.
  abbrev pub arg_word : ℕ → Machine H → ℕ
  arg_word d m = word16 m.mem (add32 m.ebp d)
