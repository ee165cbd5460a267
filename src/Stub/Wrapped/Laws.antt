-- ===== src/Stub/Wrapped/Laws.antt =====
-- The wrappers keep to the laws of Stub.Client.Selectors on a host that keeps to the DPMI
-- specification.
use djstub.Base.{
  ℕ, ◌+◌, ◌%◌, ◌≤◌, ◌<◌, ◌≡◌, refl, sym, ap, ◌∙◌, inl, inr, some, [], ◌∷◌, Bytes, word32, u16_mod,
  u32_mod, arith,
}
use djstub.Asm.{Machine, Interrupts, run, run_from, arg, arg_word}
use djstub.Asm.Frame.{frame, arg-frame, arg_word-frame_low, arg_word-frame_high}
use djstub.Dpmi.Descriptors.{
  dpmi_allocate_ldt_descriptors, dpmi_set_segment_base_address, dpmi_set_segment_limit,
  dpmi_set_descriptor_access_rights, dpmi_create_alias_descriptor,
}
use djstub.Dpmi.Calls.{run-int31}
use djstub.Dpmi.Results.{joined, block_request, dpmi_allocate_memory-host}
use djstub.Dpmi.SegmentBase.{
  base_request, dpmi_get_segment_base_address-word, dpmi_get_segment_base_address-host,
}
use djstub.Stub.Client.{Services}
use djstub.Stub.Client.Selectors.{Descriptor, IsServer, adjust}
use djstub.Stub.Wrapped.Specification.{IsDpmi, finish-host}
use djstub.Asm.Call.{before, entered, left}
use djstub.Stub.Wrapped.{wrapped}

module _ {H : Type 0} (h : Interrupts H) (regs : Machine H) (ret : ℕ) (dpmi : IsDpmi h)
    (stack : 0x40 ≤ regs.esp) (small : regs.esp < u32_mod) where
  -- A call with two arguments: the first is a selector.
  module _ (sel b : ℕ) (s : H × Bytes) where
    abbrev F : Machine H
    F = entered h regs ret (sel ∷ b ∷ []) s

    F-host : F.host ≡ s.0
    unfolding frame
    F-host = refl

    F-selector : sel < u16_mod → arg 8 F % u16_mod ≡ sel
    F-selector l = omega (
      arith,
      arg-frame ret (sel ∷ b ∷ []) (before h regs ret s) (omega arith) small 0 8 (omega arith)
          (omega arith),
    )

    -- The halves of the second argument make it whole.
    F-value : b < u32_mod → joined (arg_word 14 F) (arg_word 12 F) ≡ b
    F-value l = omega (
      arith,
      arg_word-frame_low ret (sel ∷ b ∷ []) (before h regs ret s) (omega arith) small 1 12
          (omega arith) (omega arith),
      arg_word-frame_high ret (sel ∷ b ∷ []) (before h regs ret s) (omega arith) small 1 14
          (omega arith) (omega arith),
    )

    F-low : b < u16_mod → arg 12 F % u16_mod ≡ b
    F-low l = omega (
      arith,
      arg-frame ret (sel ∷ b ∷ []) (before h regs ret s) (omega arith) small 1 12 (omega arith)
          (omega arith),
    )

    F-pointer : arg 12 F ≡ b % u32_mod
    F-pointer =
        arg-frame ret (sel ∷ b ∷ []) (before h regs ret s) (omega arith) small 1 12 (omega arith)
          (omega arith)

    set_base-left :
        sel < u16_mod
        → b < u32_mod
        → dpmi.view (left h regs ret dpmi_set_segment_base_address (sel ∷ b ∷ []) s).host
          ≡ adjust sel (λ d. record d { base = b }) (dpmi.view s.0)
    unfolding run run_from dpmi_set_segment_base_address
    set_base-left l m =
        let q = record F { eax = 7; ebx = arg 8 F; ecx = arg_word 14 F; edx = arg_word 12 F } in
        ap (λ (m : Machine H). dpmi.view m.host) (run-int31 h [] q)
        ∙ ap dpmi.view (finish-host (h.call 0x31 q))
        ∙ dpmi.set_base q refl
        ∙ λ i. adjust (F-selector l i) (λ d. record d { base = F-value m i }) (dpmi.view (F-host i))

    set_limit-left :
        sel < u16_mod
        → b < u32_mod
        → dpmi.view (left h regs ret dpmi_set_segment_limit (sel ∷ b ∷ []) s).host
          ≡ adjust sel (λ d. record d { limit = b }) (dpmi.view s.0)
    unfolding run run_from dpmi_set_segment_limit
    set_limit-left l m =
        let q = record F { eax = 8; ebx = arg 8 F; ecx = arg_word 14 F; edx = arg_word 12 F } in
        ap (λ (m : Machine H). dpmi.view m.host) (run-int31 h [] q)
        ∙ ap dpmi.view (finish-host (h.call 0x31 q))
        ∙ dpmi.set_limit q refl
        ∙ λ i.
            adjust (F-selector l i) (λ d. record d { limit = F-value m i }) (dpmi.view (F-host i))

    set_rights-left :
        sel < u16_mod
        → b < u16_mod
        → dpmi.view (left h regs ret dpmi_set_descriptor_access_rights (sel ∷ b ∷ []) s).host
          ≡ adjust sel (λ d. record d { rights = b }) (dpmi.view s.0)
    unfolding run run_from dpmi_set_descriptor_access_rights
    set_rights-left l m =
        let q = record F { eax = 9; ebx = arg 8 F; ecx = arg 12 F } in
        ap (λ (m : Machine H). dpmi.view m.host) (run-int31 h [] q)
        ∙ ap dpmi.view (finish-host (h.call 0x31 q))
        ∙ dpmi.set_rights q refl
        ∙ λ i. adjust (F-selector l i) (λ d. record d { rights = F-low m i }) (dpmi.view (F-host i))

  -- A call with one argument keeps the descriptors that are in use.
  module _ (n i : ℕ) (s : H × Bytes) (d : Descriptor) (used : dpmi.view s.0 i ≡ some d) where
    abbrev G : Machine H
    G = entered h regs ret (n ∷ []) s

    G-used : dpmi.view G.host i ≡ some d
    unfolding frame
    G-used = used

    allocate-left :
        dpmi.view (left h regs ret dpmi_allocate_ldt_descriptors (n ∷ []) s).host i ≡ some d
    unfolding run run_from dpmi_allocate_ldt_descriptors
    allocate-left =
        let q = record G { eax = 0; ecx = arg 8 G } in
        ap (λ (m : Machine H). dpmi.view m.host i) (run-int31 h [] q)
        ∙ ap (λ x. dpmi.view x i) (finish-host (h.call 0x31 q))
        ∙ dpmi.allocate_keeps q i d (inl refl) G-used

    alias-left : dpmi.view (left h regs ret dpmi_create_alias_descriptor (n ∷ []) s).host i ≡ some d
    unfolding run run_from dpmi_create_alias_descriptor
    alias-left =
        let q = record G { eax = 0xa; ebx = arg 8 G } in
        ap (λ (m : Machine H). dpmi.view m.host i) (run-int31 h [] q)
        ∙ ap (λ x. dpmi.view x i) (finish-host (h.call 0x31 q))
        ∙ dpmi.allocate_keeps q i d (inr refl) G-used

  -- The calls with pointers to variables of the caller.
  module _ (base_at lin_at handle_at : ℕ) (room : base_at + 4 ≤ u32_mod) where
    abbrev pub services : Services (H × Bytes)
    services = wrapped h regs ret base_at lin_at handle_at

    get_base-left :
        (sel : ℕ) (s : H × Bytes) (d : Descriptor)
        → sel < u16_mod
        → d.base < u32_mod
        → dpmi.view s.0 sel ≡ some d
        → (services.get_segment_base_address sel s).0 ≡ d.base
    get_base-left sel s d l low used =
        let m = F sel base_at s in
        let at : arg 12 m ≡ base_at = omega (arith, F-pointer sel base_at s) in
        let (kept_ebp, kept_mem) = dpmi.get_base_frame (base_request h m) refl in
        let (_, word) =
          dpmi_get_segment_base_address-word h m kept_ebp kept_mem (omega (arith, at)) in
        ap (word32 _) (sym at)
        ∙ word
        ∙ dpmi.get_base (base_request h m) d refl low
            ((λ i. dpmi.view (F-host sel base_at s i) (F-selector sel base_at s l i)) ∙ used)

    get_base_keeps-left :
        (sel : ℕ) (s : H × Bytes)
        → dpmi.view (services.get_segment_base_address sel s).1.0 ≡ dpmi.view s.0
    get_base_keeps-left sel s =
        let m = F sel base_at s in
        ap dpmi.view (dpmi_get_segment_base_address-host h m)
        ∙ dpmi.get_base_keeps (base_request h m) refl
        ∙ ap dpmi.view (F-host sel base_at s)

    memory-left :
        (n : ℕ) (s : H × Bytes) → dpmi.view (services.allocate_memory n s).1.0 ≡ dpmi.view s.0
    memory-left n s =
        let m = entered h regs ret (n ∷ lin_at ∷ handle_at ∷ []) s in
        ap dpmi.view (dpmi_allocate_memory-host h m)
        ∙ dpmi.memory (block_request m) refl
        ∙ ap dpmi.view (unfold frame in refl)

    -- Let interrupt 0x31 do what the DPMI specification says of the calls that `fullstub` makes
    -- (`IsDpmi`), let there be 64 bytes of stack, and let the variable for the base address lie
    -- within the address space. Then the services, as C calls of the wrappers of src/dpmi.c, keep
    -- to the laws that the set-up of the client relies on.
    pub wrapped-IsServer : IsServer services (λ s. dpmi.view s.0)
    wrapped-IsServer = record {
      set_base = λ sel b s l m. set_base-left sel b s l m;
      set_limit = λ sel b s l m. set_limit-left sel b s l m;
      set_rights = λ sel b s l m. set_rights-left sel b s l m;
      get_base = get_base-left;
      get_base_keeps = get_base_keeps-left;
      memory = memory-left;
      allocate_keeps = λ n i s d used. allocate-left n i s d used;
      alias_keeps = λ n i s d used. alias-left n i s d used;
    }
