-- ===== src/Util/Assembly.antt =====
-- The assembly functions of src/util.c.
use djstub.Base.{ℕ, [], ◌∷◌}
use djstub.Asm.{
  load, store, store_seg, store_static, push, pop, push_seg, pop_seg, push_mem, pop_mem,
  pop_mem_word, pushf, pushfw, stc, call_far, int, eax, ebx, ecx, edx, esi, edi, ebp, es, ds, fs,
  gs,
}
use djstub.Dpmi.Descriptors.{Code}

-- `_psp_sel` is at the address `psp_sel_at`.
unfoldable pub lcall : (psp_sel_at : ℕ) → Code
lcall psp_sel_at =
    push_seg es
    ∷ push_mem ebp 8
    ∷ push_mem ebp 12
    ∷ load eax ebp 16
    ∷ load ebx ebp 20
    ∷ call_far
    ∷ pop eax
    ∷ pop eax
    ∷ pushf
    ∷ pop eax
    ∷ store_static psp_sel_at es
    ∷ pop_seg es
    ∷ []

unfoldable pub int2f : Code
int2f =
    push_seg es
    ∷ load ebx ebp 8
    ∷ load edi ebx 0
    ∷ load esi ebx 4
    ∷ load edx ebx 20
    ∷ load ecx ebx 24
    ∷ load eax ebx 28
    ∷ load ebx ebx 16
    ∷ stc
    ∷ int 0x2f
    ∷ push ebx
    ∷ load ebx ebp 8
    ∷ pop_mem ebx 16
    ∷ pushfw
    ∷ pop_mem_word ebx 32
    ∷ store ebx 0 edi
    ∷ store ebx 4 esi
    ∷ store ebx 20 edx
    ∷ store ebx 24 ecx
    ∷ store ebx 28 eax
    ∷ store_seg ebx 34 es
    ∷ store_seg ebx 36 ds
    ∷ store_seg ebx 38 fs
    ∷ store_seg ebx 40 gs
    ∷ pop_seg es
    ∷ []
