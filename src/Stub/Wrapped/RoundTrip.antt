-- ===== src/Stub/Wrapped/RoundTrip.antt =====
-- The base address of a descriptor, written and read through the wrappers of src/dpmi.c.
use djstub.Base.{ℕ, ◌+◌, ◌≤◌, ◌<◌, ◌≡◌, refl, ap, ◌∙◌, some, Bytes, u16_mod, u32_mod, eq→==}
use djstub.Asm.{Machine, Interrupts}
use djstub.Stub.Client.Selectors.{Descriptor}
use djstub.Stub.Wrapped.{wrapped}
use djstub.Stub.Wrapped.Specification.{IsDpmi}
use djstub.Stub.Wrapped.Laws.{wrapped-IsServer}

-- Let interrupt 0x31 keep to `IsDpmi`, let there be 64 bytes of stack and 4 bytes for the result,
-- and let a selector be in use. Then `dpmi_get_segment_base_address` gives the base address that
-- `dpmi_set_segment_base_address` has set for the selector.
pub get_segment_base_address-set_segment_base_address :
    {H : Type 0} (h : Interrupts H) (regs : Machine H) (ret base_at lin_at handle_at : ℕ)
    (dpmi : IsDpmi h) (sel b : ℕ) (s : H × Bytes) (d : Descriptor)
    → 0x40 ≤ regs.esp
    → regs.esp < u32_mod
    → base_at + 4 ≤ u32_mod
    → sel < u16_mod
    → b < u32_mod
    → dpmi.view s.0 sel ≡ some d
    → let services = wrapped h regs ret base_at lin_at handle_at in
      (services.get_segment_base_address sel (services.set_segment_base_address sel b s)).0 ≡ b
get_segment_base_address-set_segment_base_address h regs ret base_at lin_at handle_at dpmi sel b s d
      stack small room l m used =
    let services = wrapped h regs ret base_at lin_at handle_at in
    let server = wrapped-IsServer h regs ret dpmi stack small base_at lin_at handle_at room in
    let written : dpmi.view (services.set_segment_base_address sel b s).0 sel
        ≡ some (record d { base = b }) =
      ap (λ v. v sel) (server.set_base sel b s l m) ∙ rw (eq→== sel sel refl, used) refl in
    server.get_base sel (services.set_segment_base_address sel b s) (record d { base = b }) l m
      written
