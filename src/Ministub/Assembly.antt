-- ===== src/Ministub/Assembly.antt =====
-- The assembly functions of src/ministub.c.
use djstub.Base.{[], ◌∷◌}
use djstub.Asm.{
  mov, load, store, store_seg, push_seg, pop_seg, push_mem, add, shl, or, test_al, clear_ah,
  call_far, int, jnz, label, eax, ebx, ecx, edx, esi, edi, ebp, esp, es, fail,
}
use djstub.Dpmi.Descriptors.{Code}

-- `DPMIQueryExtension`
unfoldable pub dpmi_query_extension : Code
dpmi_query_extension =
    push_seg es
    ∷ mov eax 0x168a
    ∷ load esi ebp 16
    ∷ int 0x2f
    ∷ test_al
    ∷ jnz fail
    ∷ load ebx ebp 8
    ∷ store_seg ebx 0 es
    ∷ load ebx ebp 12
    ∷ store ebx 0 edi
    ∷ pop_seg es
    ∷ clear_ah
    ∷ label fail
    ∷ []

unfoldable pub enter_stub : Code
enter_stub =
    load eax ebp 32
    ∷ load ecx ebp 40
    ∷ shl ecx 16
    ∷ or eax ecx
    ∷ load ecx ebp 16
    ∷ load edx ebp 20
    ∷ load ebx ebp 24
    ∷ load esi ebp 28
    ∷ load edi ebp 36
    ∷ push_mem ebp 8
    ∷ push_mem ebp 12
    ∷ call_far
    ∷ add esp 8
    ∷ []
