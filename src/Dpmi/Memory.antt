-- ===== src/Dpmi/Memory.antt =====
-- The memory services of src/dpmi.c (interrupt 0x31, functions 0x0100 to 0x0102, 0x0501 to 0x0503
-- and 0x0604).
use djstub.Base.{[], ◌∷◌, ◌++◌, minus_one}
use djstub.Asm.{
  mov, load, load_word, store, store_word, int, jnc, jmp, label, eax, ebx, ecx, edx, esi, edi, ebp,
  ok, done,
}
use djstub.Dpmi.Descriptors.{Code, int31}

unfoldable pub dpmi_allocate_dos_memory : Code
dpmi_allocate_dos_memory =
    mov eax 0x100
    ∷ load ebx ebp 8
    ∷ int 0x31
    ∷ load edi ebp 12
    ∷ jnc ok
    ∷ mov eax minus_one
    ∷ store edi 0 ebx
    ∷ jmp done
    ∷ label ok
    ∷ store edi 0 edx
    ∷ label done
    ∷ []

unfoldable pub dpmi_free_dos_memory : Code
dpmi_free_dos_memory = mov eax 0x101 ∷ load edx ebp 8 ∷ int31

unfoldable pub dpmi_resize_dos_memory : Code
dpmi_resize_dos_memory =
    mov eax 0x102
    ∷ load ebx ebp 12
    ∷ load edx ebp 8
    ∷ int 0x31
    ∷ load edi ebp 16
    ∷ jnc ok
    ∷ mov eax minus_one
    ∷ store edi 0 ebx
    ∷ label ok
    ∷ []

unfoldable pub dpmi_allocate_memory : Code
dpmi_allocate_memory =
    mov eax 0x501 ∷ load_word ebx ebp 10 ∷ load_word ecx ebp 8 ∷ int31
    ++ load edx ebp 12
      ∷ store_word edx 2 ebx
      ∷ store_word edx 0 ecx
      ∷ load edx ebp 16
      ∷ store_word edx 2 esi
      ∷ store_word edx 0 edi
      ∷ []

unfoldable pub dpmi_free_memory : Code
dpmi_free_memory = mov eax 0x502 ∷ load_word esi ebp 10 ∷ load_word edi ebp 8 ∷ int31

unfoldable pub dpmi_resize_memory : Code
dpmi_resize_memory =
    mov eax 0x503
      ∷ load_word ebx ebp 10
      ∷ load_word ecx ebp 8
      ∷ load_word esi ebp 14
      ∷ load_word edi ebp 12
      ∷ int31
    ++ load edx ebp 16
      ∷ store_word edx 2 ebx
      ∷ store_word edx 0 ecx
      ∷ load edx ebp 20
      ∷ store_word edx 2 esi
      ∷ store_word edx 0 edi
      ∷ []

unfoldable pub dpmi_get_page_size : Code
dpmi_get_page_size =
    mov eax 0x604 ∷ int31 ++ load edi ebp 8 ∷ store_word edi 2 ebx ∷ store_word edi 0 ecx ∷ []
