-- ===== src/Dpmi/Descriptors.antt =====
-- The descriptor services of src/dpmi.c (interrupt 0x31, functions 0x0000 to 0x000f), and
-- `dpmi_yield`.
use djstub.Base.{List, [], ◌∷◌, ◌++◌, minus_one}
use djstub.Asm.{
  Instr, mov, load, load_word, store_word, int, lsl, lar, jnc, label, eax, ebx, ecx, edx, edi, ebp,
  ok,
}

abbrev pub Code : Type 0
Code = List Instr

-- `int 0x31`, and -1 for the result if it fails.
abbrev pub int31 : Code
int31 = int 0x31 ∷ jnc ok ∷ mov eax minus_one ∷ label ok ∷ []

unfoldable pub dpmi_yield : Code
dpmi_yield = mov eax 0x1680 ∷ int 0x2f ∷ []

unfoldable pub dpmi_allocate_ldt_descriptors : Code
dpmi_allocate_ldt_descriptors = mov eax 0 ∷ load ecx ebp 8 ∷ int31

unfoldable pub dpmi_free_ldt_descriptor : Code
dpmi_free_ldt_descriptor = mov eax 1 ∷ load ebx ebp 8 ∷ int31

unfoldable pub dpmi_segment_to_descriptor : Code
dpmi_segment_to_descriptor = mov eax 2 ∷ load ebx ebp 8 ∷ int31

unfoldable pub dpmi_get_selector_increment_value : Code
dpmi_get_selector_increment_value = mov eax 3 ∷ int31

unfoldable pub dpmi_get_segment_base_address : Code
dpmi_get_segment_base_address =
    mov eax 6 ∷ load ebx ebp 8 ∷ int31
    ++ load edi ebp 12 ∷ store_word edi 0 edx ∷ store_word edi 2 ecx ∷ []

unfoldable pub dpmi_set_segment_base_address : Code
dpmi_set_segment_base_address =
    mov eax 7 ∷ load ebx ebp 8 ∷ load_word ecx ebp 14 ∷ load_word edx ebp 12 ∷ int31

unfoldable pub dpmi_get_segment_limit : Code
dpmi_get_segment_limit = lsl eax ebp 8 ∷ []

unfoldable pub dpmi_set_segment_limit : Code
dpmi_set_segment_limit =
    mov eax 8 ∷ load ebx ebp 8 ∷ load_word ecx ebp 14 ∷ load_word edx ebp 12 ∷ int31

unfoldable pub dpmi_get_descriptor_access_rights : Code
dpmi_get_descriptor_access_rights = lar eax ebp 8 ∷ []

unfoldable pub dpmi_set_descriptor_access_rights : Code
dpmi_set_descriptor_access_rights = mov eax 9 ∷ load ebx ebp 8 ∷ load ecx ebp 12 ∷ int31

unfoldable pub dpmi_create_alias_descriptor : Code
dpmi_create_alias_descriptor = mov eax 0xa ∷ load ebx ebp 8 ∷ int31

unfoldable pub dpmi_get_descriptor : Code
dpmi_get_descriptor = mov eax 0xb ∷ load ebx ebp 8 ∷ load edi ebp 12 ∷ int31

unfoldable pub dpmi_set_descriptor : Code
dpmi_set_descriptor = mov eax 0xc ∷ load ebx ebp 8 ∷ load edi ebp 12 ∷ int31

unfoldable pub dpmi_allocate_specific_ldt_descriptor : Code
dpmi_allocate_specific_ldt_descriptor = mov eax 0xd ∷ load ebx ebp 8 ∷ int31

unfoldable pub dpmi_get_multiple_descriptors : Code
dpmi_get_multiple_descriptors = mov eax 0xe ∷ load ecx ebp 8 ∷ load edi ebp 12 ∷ int31

unfoldable pub dpmi_set_multiple_descriptors : Code
dpmi_set_multiple_descriptors = mov eax 0xf ∷ load ecx ebp 8 ∷ load edi ebp 12 ∷ int31
