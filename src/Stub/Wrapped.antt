-- ===== src/Stub/Wrapped.antt =====
-- The services of Stub.Client as `fullstub` of src/stub.c calls them: C calls of the wrappers of
-- src/dpmi.c. The state is that of the DPMI server and memory.
pub mod Specification
pub mod Laws
pub mod RoundTrip
use djstub.Base.{ℕ, List, [], ◌∷◌, Bytes, word32}
use djstub.Asm.{Machine, Interrupts, run}
use djstub.Asm.Call.{state, result, left}
use djstub.Dpmi.Descriptors.{
  Code, dpmi_allocate_ldt_descriptors, dpmi_segment_to_descriptor, dpmi_get_segment_base_address,
  dpmi_set_segment_base_address, dpmi_set_segment_limit, dpmi_set_descriptor_access_rights,
  dpmi_create_alias_descriptor,
}
use djstub.Dpmi.Memory.{dpmi_allocate_memory}
use djstub.Stub.Client.{Services}

-- The registers at a call and the address that it returns to.
module _ {H : Type 0} (h : Interrupts H) (regs : Machine H) (ret : ℕ) where
  -- The variables `stubinfo_mem`, `mem_lin` and `stubinfo.memory_handle`, whose addresses are
  -- passed.
  module _ (base_at lin_at handle_at : ℕ) where
    abbrev pub wrapped : Services (H × Bytes)
    wrapped = record {
      segment_to_descriptor = λ p s. result (left h regs ret dpmi_segment_to_descriptor (p ∷ []) s);
      create_alias_descriptor =
          λ sel s. result (left h regs ret dpmi_create_alias_descriptor (sel ∷ []) s);
      allocate_ldt_descriptors =
          λ n s. result (left h regs ret dpmi_allocate_ldt_descriptors (n ∷ []) s);
      set_segment_base_address =
          λ sel b s. state (left h regs ret dpmi_set_segment_base_address (sel ∷ b ∷ []) s);
      set_segment_limit =
          λ sel l s. state (left h regs ret dpmi_set_segment_limit (sel ∷ l ∷ []) s);
      set_descriptor_access_rights =
          λ sel r s. state (left h regs ret dpmi_set_descriptor_access_rights (sel ∷ r ∷ []) s);
      get_segment_base_address = λ sel s.
          let r = left h regs ret dpmi_get_segment_base_address (sel ∷ base_at ∷ []) s in
          (word32 r.mem base_at, state r);
      allocate_memory = λ n s.
          let r = left h regs ret dpmi_allocate_memory (n ∷ lin_at ∷ handle_at ∷ []) s in
          ((r.eax, word32 r.mem lin_at, word32 r.mem handle_at), state r);
    }
