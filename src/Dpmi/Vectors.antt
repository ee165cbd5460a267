-- ===== src/Dpmi/Vectors.antt =====
-- The interrupt vector services of src/dpmi.c (interrupt 0x31, functions 0x0200 to 0x0213), the
-- virtual interrupt flag (0x0900 to 0x0902) and the vendor API (0x0a00).
use djstub.Base.{[], ◌∷◌, ◌++◌}
use djstub.Asm.{
  mov, load, load_word, store, store_word, store_seg, push_seg, pop_seg, es, int, eax, ebx, ecx,
  edx, esi, edi, ebp,
}
use djstub.Dpmi.Descriptors.{Code, int31}

-- `return 0;` behind the assembly.
abbrev return_zero : Code
return_zero = mov eax 0 ∷ []

unfoldable pub dpmi_get_real_mode_interrupt_vector : Code
dpmi_get_real_mode_interrupt_vector =
    mov eax 0x200
    ∷ load ebx ebp 8
    ∷ int 0x31
    ∷ load edi ebp 12
    ∷ store_word edi 0 edx
    ∷ store_word edi 2 ecx
    ∷ return_zero

unfoldable pub dpmi_set_real_mode_interrupt_vector : Code
dpmi_set_real_mode_interrupt_vector =
    mov eax 0x201
    ∷ load ebx ebp 8
    ∷ load esi ebp 12
    ∷ load_word ecx esi 2
    ∷ load_word edx esi 0
    ∷ int 0x31
    ∷ return_zero

-- `mov edi, [ebp + 12]`, and the 48-bit far pointer `ecx:edx` goes there.
abbrev store_far : Code
store_far = load edi ebp 12 ∷ store edi 0 edx ∷ store_word edi 4 ecx ∷ []

-- The far pointer at `[ebp + 12]` is read into `ecx:edx`.
abbrev load_far : Code
load_far = load esi ebp 12 ∷ load_word ecx esi 4 ∷ load edx esi 0 ∷ []

unfoldable pub dpmi_get_processor_exception_handler_vector : Code
dpmi_get_processor_exception_handler_vector = mov eax 0x202 ∷ load ebx ebp 8 ∷ int31 ++ store_far

unfoldable pub dpmi_set_processor_exception_handler_vector : Code
dpmi_set_processor_exception_handler_vector = mov eax 0x203 ∷ load ebx ebp 8 ∷ load_far ++ int31

unfoldable pub dpmi_get_protected_mode_interrupt_vector : Code
dpmi_get_protected_mode_interrupt_vector =
    mov eax 0x204 ∷ load ebx ebp 8 ∷ int 0x31 ∷ store_far ++ return_zero

unfoldable pub dpmi_set_protected_mode_interrupt_vector : Code
dpmi_set_protected_mode_interrupt_vector = mov eax 0x205 ∷ load ebx ebp 8 ∷ load_far ++ int31

unfoldable pub dpmi_get_extended_exception_handler_vector_pm : Code
dpmi_get_extended_exception_handler_vector_pm = mov eax 0x210 ∷ load ebx ebp 8 ∷ int31 ++ store_far

unfoldable pub dpmi_get_extended_exception_handler_vector_rm : Code
dpmi_get_extended_exception_handler_vector_rm = mov eax 0x211 ∷ load ebx ebp 8 ∷ int31 ++ store_far

unfoldable pub dpmi_set_extended_exception_handler_vector_pm : Code
dpmi_set_extended_exception_handler_vector_pm = mov eax 0x212 ∷ load ebx ebp 8 ∷ load_far ++ int31

unfoldable pub dpmi_set_extended_exception_handler_vector_rm : Code
dpmi_set_extended_exception_handler_vector_rm = mov eax 0x213 ∷ load ebx ebp 8 ∷ load_far ++ int31

unfoldable pub dpmi_get_and_disable_virtual_interrupt_state : Code
dpmi_get_and_disable_virtual_interrupt_state = mov eax 0x900 ∷ int31

unfoldable pub dpmi_get_and_enable_virtual_interrupt_state : Code
dpmi_get_and_enable_virtual_interrupt_state = mov eax 0x901 ∷ int31

unfoldable pub dpmi_get_virtual_interrupt_state : Code
dpmi_get_virtual_interrupt_state = mov eax 0x902 ∷ int31

unfoldable pub dpmi_get_vendor_specific_api_entry_point : Code
dpmi_get_vendor_specific_api_entry_point =
    push_seg es ∷ mov eax 0xa00 ∷ load esi ebp 8 ∷ int31
    ++ load edx ebp 12 ∷ store edx 0 edi ∷ store_seg edx 4 es ∷ pop_seg es ∷ []
