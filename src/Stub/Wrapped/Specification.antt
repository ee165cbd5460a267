-- ===== src/Stub/Wrapped/Specification.antt =====
-- What the wrappers of src/dpmi.c rely on interrupt 0x31 for.
use djstub.Base.{ℕ, ◌%◌, ◌<◌, ◌≡◌, refl, ◌⊎◌, inl, inr, Option, some, u16_mod, u32_mod, Bool-cases}
use djstub.Asm.{Machine, Interrupts}
use djstub.Dpmi.Calls.{finish}
use djstub.Dpmi.Results.{joined}
use djstub.Stub.Client.Selectors.{Descriptor, adjust}

-- What the specification says of the calls that `fullstub` makes, by the number in ax.
pub record IsDpmi {H : Type 0} (h : Interrupts H) : Type 0 where
  pub view : H → ℕ → Option Descriptor
  pub set_base :
      (m : Machine H)
      → m.eax ≡ 7
      → view (h.call 0x31 m).host
        ≡ adjust (m.ebx % u16_mod) (λ d. record d { base = joined m.ecx m.edx }) (view m.host)
  pub set_limit :
      (m : Machine H)
      → m.eax ≡ 8
      → view (h.call 0x31 m).host
        ≡ adjust (m.ebx % u16_mod) (λ d. record d { limit = joined m.ecx m.edx }) (view m.host)
  pub set_rights :
      (m : Machine H)
      → m.eax ≡ 9
      → view (h.call 0x31 m).host
        ≡ adjust (m.ebx % u16_mod) (λ d. record d { rights = m.ecx % u16_mod }) (view m.host)
  pub get_base :
      (m : Machine H) (d : Descriptor)
      → m.eax ≡ 6
      → d.base < u32_mod
      → view m.host (m.ebx % u16_mod) ≡ some d
      → joined (h.call 0x31 m).ecx (h.call 0x31 m).edx ≡ d.base
  pub get_base_keeps : (m : Machine H) → m.eax ≡ 6 → view (h.call 0x31 m).host ≡ view m.host
  pub get_base_frame :
      (m : Machine H) → m.eax ≡ 6 → ((h.call 0x31 m).ebp ≡ m.ebp) × ((h.call 0x31 m).mem ≡ m.mem)
  pub memory : (m : Machine H) → m.eax ≡ 0x501 → view (h.call 0x31 m).host ≡ view m.host
  pub allocate_keeps :
      (m : Machine H) (i : ℕ) (d : Descriptor)
      → (m.eax ≡ 0) ⊎ (m.eax ≡ 0xa)
      → view m.host i ≡ some d
      → view (h.call 0x31 m).host i ≡ some d

pub finish-host : {H : Type 0} (r : Machine H) → (finish r).host ≡ r.host
finish-host r = elim (Bool-cases r.cf) [ inl c ↦ rw c refl | inr c ↦ rw c refl ]
