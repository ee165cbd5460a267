-- ===== src/Tests/Server.antt =====
-- A small DPMI server, for runs of the part of the model of src/stub.c that prepares the client.
use djstub.Base.{
  ℕ, ◌+◌, ◌*◌, ◌≡◌, refl, sym, ap, ◌∙◌, Option, none, some, minus_one, ◌==◌, ne→==, if◌then◌else◌,
}
use mathlib.Core.Option.{none-ne-some}
use djstub.Stub.Client.{Services}
use djstub.Stub.Client.Selectors.{Descriptor, IsServer, adjust}

-- A server with the descriptors in use and the next selector that it gives.
pub record State : Type 0 where
  pub descriptors : ℕ → Option Descriptor
  pub next : ℕ

abbrev pub give : Descriptor → Option Descriptor → State → ℕ × State
give d (some e) s = (minus_one, s)
give d none s = (
  s.next,
  record { descriptors = λ i. if i == s.next then some d else s.descriptors i; next = s.next + 8 },
)

abbrev pub new : Descriptor → State → ℕ × State
new d s = give d (s.descriptors s.next) s

pub give-keeps :
    (d e : Descriptor) (o : Option Descriptor) (s : State) (i : ℕ)
    → s.descriptors s.next ≡ o
    → s.descriptors i ≡ some e
    → (give d o s).1.descriptors i ≡ some e
give-keeps d e (some x) s i free used = used
give-keeps d e none s i free used =
    rw (ne→== i s.next (λ same. none-ne-some e (sym free ∙ ap s.descriptors (sym same) ∙ used)))
      used

-- The descriptor that stands for a selector, or zeros.
abbrev pub shown : Option Descriptor → Descriptor
shown none = record { base = 0; limit = 0; rights = 0 }
shown (some d) = d

abbrev pub change_view : ((ℕ → Option Descriptor) → ℕ → Option Descriptor) → State → State
change_view f s = record s { descriptors = f s.descriptors }

abbrev pub services : Services State
services = record {
  segment_to_descriptor = λ p s. new (record { base = p * 0x10; limit = 0xffff; rights = 0xf2 }) s;
  create_alias_descriptor = λ sel s. new (shown (s.descriptors sel)) s;
  allocate_ldt_descriptors = λ n s. new (shown none) s;
  set_segment_base_address = λ sel b s. change_view (adjust sel (λ d. record d { base = b })) s;
  set_segment_limit = λ sel l s. change_view (adjust sel (λ d. record d { limit = l })) s;
  set_descriptor_access_rights =
      λ sel r s. change_view (adjust sel (λ d. record d { rights = r })) s;
  get_segment_base_address = λ sel s. ((shown (s.descriptors sel)).base, s);
  allocate_memory = λ n s. ((0, 0x40_0000, 0x77), s);
}

abbrev pub server : IsServer services (λ s. s.descriptors)
server = record {
  set_base = λ sel b s l m. refl;
  set_limit = λ sel b s l m. refl;
  set_rights = λ sel b s l m. refl;
  get_base_keeps = λ sel s. refl;
  get_base = λ sel s d l low e. ap (λ o. (shown o).base) e;
  memory = λ n s. refl;
  allocate_keeps = λ n i s d e. give-keeps (shown none) d (s.descriptors s.next) s i refl e;
  alias_keeps =
      λ sel i s d e. give-keeps (shown (s.descriptors sel)) d (s.descriptors s.next) s i refl e;
}
