-- ===== src/Tests/Host.antt =====
-- A DPMI host behind interrupt 0x31, and the client that the wrappers of src/dpmi.c set up on it.
use djstub.Base.{
  ℕ, ◌*◌, ◌/◌, ◌%◌, ◌≡◌, ◌<◌, u32_mod, ◌⊎◌, inl, inr, refl, sym, ap, subst, true, false, Option,
  none, some, u16_mod, ◌==◌, if◌then◌else◌, arith,
}
use djstub.Asm.{Machine, Interrupts}
use djstub.Dpmi.Results.{joined}
use djstub.Stub.Client.Selectors.{Descriptor, IsServer, adjust}
use djstub.Stub.Wrapped.{wrapped}
use djstub.Stub.Wrapped.RoundTrip.{get_segment_base_address-set_segment_base_address}
use djstub.Stub.Wrapped.Specification.{IsDpmi}
use djstub.Stub.Wrapped.Laws.{wrapped-IsServer}
use djstub.Tests.Server.{State, give-keeps, new, shown, change_view}

abbrev with_host : Machine State → State → Machine State
with_host m s = record m { host = s }

abbrev with_result : Machine State → ℕ × State → Machine State
with_result m (v, s) = record m { host = s; eax = v; cf = false }

abbrev base_of : Machine State → ℕ
base_of m = (shown (m.host.descriptors (m.ebx % u16_mod))).base

-- The service with the number.
abbrev serve : ℕ → Machine State → Machine State
serve n m =
    if n == 0
    then with_result m (new (shown none) m.host)
    else if n == 2
    then with_result m (new (record { base = m.ebx * 0x10; limit = 0xffff; rights = 0xf2 }) m.host)
    else if n == 6
    then record m { ecx = base_of m / 0x1_0000; edx = base_of m % 0x1_0000; cf = false }
    else if n == 7
    then with_host m (
        change_view (adjust (m.ebx % u16_mod) (λ d. record d { base = joined m.ecx m.edx })) m.host)
    else if n == 8
    then with_host m (
        change_view (adjust (m.ebx % u16_mod) (λ d. record d { limit = joined m.ecx m.edx }))
          m.host)
    else if n == 9
    then with_host m
        (change_view (adjust (m.ebx % u16_mod) (λ d. record d { rights = m.ecx % u16_mod })) m.host)
    else if n == 0xa
    then with_result m (new (shown (m.host.descriptors (m.ebx % u16_mod))) m.host)
    else record m { eax = 0; ebx = 0x40; ecx = 0; esi = 0; edi = 0x77; cf = false }

abbrev host : Interrupts State
host = record {
  call = λ n m. serve m.eax m;
  far = λ sel off m. m;
  segment_limit = λ sel. none;
  access_rights = λ sel. none;
}

abbrev seen : State → ℕ → Option Descriptor
seen s = s.descriptors

-- A fact about a service holds where ax has its number.
at_number :
    (P : Machine State → Type 0) (m : Machine State) (n : ℕ)
    → P (serve n m)
    → m.eax ≡ n
    → P (host.call 0x31 m)
at_number P m n p e = subst (λ n. P (serve n m)) (sym e) p

get_base-host :
    (m : Machine State) (d : Descriptor)
    → d.base < u32_mod
    → seen m.host (m.ebx % u16_mod) ≡ some d
    → joined (serve 6 m).ecx (serve 6 m).edx ≡ d.base
get_base-host m d low e =
    let same : base_of m ≡ d.base = ap (λ o. (shown o).base) e in omega (arith, same)

new-keeps :
    (d e : Descriptor) (m : Machine State) (i : ℕ)
    → seen m.host i ≡ some e
    → seen (with_result m (new d m.host)).host i ≡ some e
new-keeps d e m i used = give-keeps d e (m.host.descriptors m.host.next) m.host i refl used

host-keeps :
    (m : Machine State) (i : ℕ) (d : Descriptor)
    → (m.eax ≡ 0) ⊎ (m.eax ≡ 0xa)
    → seen m.host i ≡ some d
    → seen (host.call 0x31 m).host i ≡ some d
host-keeps m i d (inl e) used =
    at_number (λ r. seen r.host i ≡ some d) m 0 (new-keeps (shown none) d m i used) e
host-keeps m i d (inr e) used =
    at_number (λ r. seen r.host i ≡ some d) m 0xa
      (new-keeps (shown (m.host.descriptors (m.ebx % u16_mod))) d m i used) e

abbrev host_dpmi : IsDpmi host
host_dpmi = record {
  view = seen;
  set_base = λ m e.
      at_number
        (λ r.
          seen r.host
          ≡ adjust (m.ebx % u16_mod) (λ d. record d { base = joined m.ecx m.edx }) (seen m.host))
        m 7 refl e;
  set_limit = λ m e.
      at_number
        (λ r.
          seen r.host
          ≡ adjust (m.ebx % u16_mod) (λ d. record d { limit = joined m.ecx m.edx }) (seen m.host))
        m 8 refl e;
  set_rights = λ m e.
      at_number
        (λ r.
          seen r.host
          ≡ adjust (m.ebx % u16_mod) (λ d. record d { rights = m.ecx % u16_mod }) (seen m.host))
        m 9 refl e;
  get_base = λ m d e low used.
      at_number (λ r. joined r.ecx r.edx ≡ d.base) m 6 (get_base-host m d low used) e;
  get_base_keeps = λ m e. at_number (λ r. seen r.host ≡ seen m.host) m 6 refl e;
  get_base_frame = λ m e. at_number (λ r. (r.ebp ≡ m.ebp) × (r.mem ≡ m.mem)) m 6 (refl, refl) e;
  memory = λ m e. at_number (λ r. seen r.host ≡ seen m.host) m 0x501 refl e;
  allocate_keeps = λ m i d. host-keeps m i d;
}

-- The registers at a call.
abbrev regs : Machine State
regs = record {
  eax = 0xaa;
  ebx = 0xbb;
  ecx = 0xcc;
  edx = 0xdd;
  esi = 0xee;
  edi = 0xff;
  ebp = 0x1_1000;
  esp = 0x1_0ff0;
  es = 15;
  ds = 15;
  fs = 0;
  gs = 0;
  cf = true;
  zf = false;
  other_flags = 0x3202;
  mem = λ i. 0x5a;
  host = record { descriptors = λ i. none; next = 0 };
}

wrapped-IsServer_example :
    IsServer (wrapped host regs 0x8_1234 0x2_0000 0x2_0010 0x2_0020) (λ s. seen s.0)
wrapped-IsServer_example =
    wrapped-IsServer host regs 0x8_1234 host_dpmi (omega arith) (omega arith) 0x2_0000 0x2_0010
      0x2_0020 (omega arith)

-- Selector 0x8f is in use.
abbrev in_use : State
in_use = record { descriptors = λ i. if i == 0x8f then some (shown none) else none; next = 0x97 }

get_segment_base_address-set_segment_base_address_example :
    let services = wrapped host regs 0x8_1234 0x2_0000 0x2_0010 0x2_0020 in
    (services.get_segment_base_address 0x8f
      (services.set_segment_base_address 0x8f 0x12_3456 (in_use, λ i. 0))).0
    ≡ 0x12_3456
get_segment_base_address-set_segment_base_address_example =
    get_segment_base_address-set_segment_base_address host regs 0x8_1234 0x2_0000 0x2_0010 0x2_0020
      host_dpmi 0x8f 0x12_3456 (in_use, λ i. 0) (shown none) (omega arith) (omega arith)
      (omega arith) (omega arith) (omega arith) refl
