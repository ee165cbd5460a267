-- ===== src/Dpmi/Calls.antt =====
-- The wrappers of src/dpmi.c that pass their arguments in registers, against a table of the
-- services (the numbers and registers of the DPMI specification).
use djstub.Base.{
  ℕ, ◌+◌, ◌/◌, ◌%◌, ◌<◌, ◌≡◌, sym, ap, ◌∙◌, inl, inr, none, [], ◌++◌, AreBytes, word16, add32,
  u32_mod, minus_one, if◌then◌else◌, Bool-cases, arith,
}
use djstub.Asm.{Machine, Interrupts, run, run_from, arg, arg_word}
use djstub.Asm.Memory.{word16-low, word16-high}
use djstub.Dpmi.Descriptors.{
  Code, int31, dpmi_allocate_ldt_descriptors, dpmi_free_ldt_descriptor, dpmi_segment_to_descriptor,
  dpmi_get_selector_increment_value, dpmi_set_segment_base_address, dpmi_set_segment_limit,
  dpmi_set_descriptor_access_rights, dpmi_create_alias_descriptor, dpmi_get_descriptor,
  dpmi_set_descriptor, dpmi_allocate_specific_ldt_descriptor, dpmi_get_multiple_descriptors,
  dpmi_set_multiple_descriptors,
}
use djstub.Dpmi.Memory.{dpmi_free_dos_memory, dpmi_free_memory}
use djstub.Dpmi.Vectors.{
  dpmi_get_and_disable_virtual_interrupt_state, dpmi_get_and_enable_virtual_interrupt_state,
  dpmi_get_virtual_interrupt_state,
}

-- What a wrapper makes of the state that the interrupt leaves.
abbrev pub finish : {H : Type 0} → Machine H → Machine H
finish r = if r.cf then record r { eax = minus_one } else r

pub run-int31 :
    {H : Type 0} (h : Interrupts H) (rest : Code) (m : Machine H)
    → run_from h none (int31 ++ rest) m ≡ run_from h none rest (finish (h.call 0x31 m))
unfolding run_from
run-int31 h rest m = elim (Bool-cases (h.call 0x31 m).cf) [ inl c ↦ rw c | inr c ↦ rw c ]

pub finish-result :
    {H : Type 0} (r : Machine H) → finish r ≡ record r { eax = if r.cf then minus_one else r.eax }
finish-result r = elim (Bool-cases r.cf) [
  | inl c ↦
      ap (λ b. if b then record r { eax = minus_one } else r) c
      ∙ ap (λ b. record r { eax = if b then minus_one else r.eax }) (sym c)
  | inr c ↦
      ap (λ b. if b then record r { eax = minus_one } else r) c
      ∙ ap (λ b. record r { eax = if b then minus_one else r.eax }) (sym c)
]

-- The services, under the names of their wrappers.
pub data Service : Type 0 where
  allocate_ldt_descriptors free_ldt_descriptor segment_to_descriptor : Service
  get_selector_increment_value set_segment_base_address set_segment_limit : Service
  set_descriptor_access_rights create_alias_descriptor get_descriptor set_descriptor : Service
  allocate_specific_ldt_descriptor get_multiple_descriptors set_multiple_descriptors : Service
  free_dos_memory free_memory : Service
  get_and_disable_virtual_interrupt_state get_and_enable_virtual_interrupt_state : Service
  get_virtual_interrupt_state : Service

unfoldable pub code_of : Service → Code
unfolding dpmi_allocate_ldt_descriptors dpmi_free_ldt_descriptor dpmi_segment_to_descriptor
    dpmi_get_selector_increment_value dpmi_set_segment_base_address dpmi_set_segment_limit
    dpmi_set_descriptor_access_rights dpmi_create_alias_descriptor dpmi_get_descriptor
    dpmi_set_descriptor dpmi_allocate_specific_ldt_descriptor dpmi_get_multiple_descriptors
    dpmi_set_multiple_descriptors dpmi_free_dos_memory dpmi_free_memory
    dpmi_get_and_disable_virtual_interrupt_state dpmi_get_and_enable_virtual_interrupt_state
    dpmi_get_virtual_interrupt_state
code_of allocate_ldt_descriptors = dpmi_allocate_ldt_descriptors
code_of free_ldt_descriptor = dpmi_free_ldt_descriptor
code_of segment_to_descriptor = dpmi_segment_to_descriptor
code_of get_selector_increment_value = dpmi_get_selector_increment_value
code_of set_segment_base_address = dpmi_set_segment_base_address
code_of set_segment_limit = dpmi_set_segment_limit
code_of set_descriptor_access_rights = dpmi_set_descriptor_access_rights
code_of create_alias_descriptor = dpmi_create_alias_descriptor
code_of get_descriptor = dpmi_get_descriptor
code_of set_descriptor = dpmi_set_descriptor
code_of allocate_specific_ldt_descriptor = dpmi_allocate_specific_ldt_descriptor
code_of get_multiple_descriptors = dpmi_get_multiple_descriptors
code_of set_multiple_descriptors = dpmi_set_multiple_descriptors
code_of free_dos_memory = dpmi_free_dos_memory
code_of free_memory = dpmi_free_memory
code_of get_and_disable_virtual_interrupt_state = dpmi_get_and_disable_virtual_interrupt_state
code_of get_and_enable_virtual_interrupt_state = dpmi_get_and_enable_virtual_interrupt_state
code_of get_virtual_interrupt_state = dpmi_get_virtual_interrupt_state

-- A 32-bit argument goes to a pair of registers as its high and its low half.
abbrev hi : ℕ → ℕ
hi v = v / 0x1_0000

abbrev lo : ℕ → ℕ
lo v = v % 0x1_0000

-- The registers at the interrupt, for the first and the second argument.
abbrev pub request : {H : Type 0} → Service → ℕ → ℕ → Machine H → Machine H
request allocate_ldt_descriptors a b m = record m { eax = 0x0000; ecx = a }
request free_ldt_descriptor a b m = record m { eax = 0x0001; ebx = a }
request segment_to_descriptor a b m = record m { eax = 0x0002; ebx = a }
request get_selector_increment_value a b m = record m { eax = 0x0003 }
request set_segment_base_address a b m = record m { eax = 0x0007; ebx = a; ecx = hi b; edx = lo b }
request set_segment_limit a b m = record m { eax = 0x0008; ebx = a; ecx = hi b; edx = lo b }
request set_descriptor_access_rights a b m = record m { eax = 0x0009; ebx = a; ecx = b }
request create_alias_descriptor a b m = record m { eax = 0x000a; ebx = a }
request get_descriptor a b m = record m { eax = 0x000b; ebx = a; edi = b }
request set_descriptor a b m = record m { eax = 0x000c; ebx = a; edi = b }
request allocate_specific_ldt_descriptor a b m = record m { eax = 0x000d; ebx = a }
request get_multiple_descriptors a b m = record m { eax = 0x000e; ecx = a; edi = b }
request set_multiple_descriptors a b m = record m { eax = 0x000f; ecx = a; edi = b }
request free_dos_memory a b m = record m { eax = 0x0101; edx = a }
request free_memory a b m = record m { eax = 0x0502; esi = hi a; edi = lo a }
request get_and_disable_virtual_interrupt_state a b m = record m { eax = 0x0900 }
request get_and_enable_virtual_interrupt_state a b m = record m { eax = 0x0901 }
request get_virtual_interrupt_state a b m = record m { eax = 0x0902 }

module _ {H : Type 0} (h : Interrupts H) (m : Machine H) (bytes : AreBytes m.mem)
    (frame : m.ebp + 16 < u32_mod) where
  -- The halves of the argument at an even displacement.
  arg-low : (d : ℕ) → d < 13 → word16 m.mem (add32 m.ebp d) ≡ lo (arg d m)
  arg-low d l = word16-low (add32 m.ebp d) m.mem bytes

  arg-high : (d : ℕ) → d < 13 → word16 m.mem (add32 m.ebp (d + 2)) ≡ hi (arg d m)
  arg-high d l =
      let e : add32 m.ebp (d + 2) ≡ add32 m.ebp d + 2 = omega arith in
      rw e (word16-high (add32 m.ebp d) m.mem bytes)

  -- The registers with a pair of halves.
  pair :
      (eax ebx c d c' d' : ℕ)
      → c ≡ c'
      → d ≡ d'
      → finish (h.call 0x31 (record m { eax = eax; ebx = ebx; ecx = c; edx = d }))
        ≡ finish (h.call 0x31 (record m { eax = eax; ebx = ebx; ecx = c'; edx = d' }))
  pair a b c d c' d' p q =
      λ i. finish (h.call 0x31 (record m { eax = a; ebx = b; ecx = p i; edx = q i }))

  -- Where memory holds bytes and the arguments of the call lie within the address space, the code
  -- of each service whose arguments are in registers makes interrupt 0x31 with the registers of
  -- the table `request` filled from its first and second argument, the other registers and memory
  -- as they were, and ends in the state that the interrupt leaves, but for eax, which is -1 if the
  -- carry flag is set.
  pub code_of-request :
      (s : Service) → run h (code_of s) m ≡ finish (h.call 0x31 (request s (arg 8 m) (arg 12 m) m))
  unfolding run run_from code_of
  code_of-request set_segment_base_address =
      run-int31 h [] (record m { eax = 7; ebx = arg 8 m; ecx = arg_word 14 m; edx = arg_word 12 m })
      ∙ pair 7 (arg 8 m) _ _ _ _ (arg-high 12 (omega arith)) (arg-low 12 (omega arith))
  code_of-request set_segment_limit =
      run-int31 h [] (record m { eax = 8; ebx = arg 8 m; ecx = arg_word 14 m; edx = arg_word 12 m })
      ∙ pair 8 (arg 8 m) _ _ _ _ (arg-high 12 (omega arith)) (arg-low 12 (omega arith))
  code_of-request free_memory =
      run-int31 h [] (record m { eax = 0x502; esi = arg_word 10 m; edi = arg_word 8 m }) ∙ λ i.
      finish (
        h.call 0x31 (record m {
          eax = 0x502;
          esi = arg-high 8 (omega arith) i;
          edi = arg-low 8 (omega arith) i;
        }))
  code_of-request s = run-int31 h [] (request s (arg 8 m) (arg 12 m) m)
