-- ===== src/Stub/Main/Switch.antt =====
-- The switch to protected mode in `fullstub` of src/stub.c (from `dpmi_init` on, with `alloc_psp`),
-- and the descriptors that it leaves to the client.
use djstub.Base.{
  ℕ, ◌+◌, ◌*◌, ◌/◌, ◌%◌, ◌<◌, ◌≡◌, refl, Bool, true, false, ◌&&◌, not, some, Option, to_u16, add32,
  mul32, minus_one, word16, ◌==◌, eq→==, ne→==, lt→ltb, if◌then◌else◌, arith,
}
use djstub.Run.{World, ok}
use djstub.Util.Init.{
  Regs, returned, exit_failure, and_then, zero_regs, carry, no_pool, psp_segment, get_low_pool,
  shrink_low, free_low, move_pool, enter, dpmi_init,
}
use djstub.Stub.Client.Selectors.{Descriptor, IsServer, adjust, IsNew, IsNew-other}
use djstub.Stub.Main.{System, switch_mode, alloc_psp}

module _ {S : Type 0} (sys : System S) {view : S → ℕ → Option Descriptor}
    (server : IsServer sys.services view) where
  -- What shows a descriptor in `s` shows it in `s'`.
  abbrev pub Keeps : S → S → Type 0
  Keeps s s' = (i : ℕ) (d : Descriptor) → view s i ≡ some d → view s' i ≡ some d

  -- The calls of DOS and of the host leave the descriptors in use alone, and so does a new one.
  pub record KeepsDescriptors : Type 0 where
    pub dpmi_int : (n : ℕ) (r : Regs) (s : S) → Keeps s (sys.low.dpmi_int n r s).1
    pub int2f : (r : Regs) (s : S) → Keeps s (sys.low.int2f r s).1
    pub lcall : (sel off ax bx : ℕ) (s : S) → Keeps s (sys.low.lcall sel off ax bx s).1
    pub memmove : (dst src n : ℕ) (s : S) → Keeps s (sys.low.memmove dst src n s)
    pub to_descriptor : (p : ℕ) (s : S) → Keeps s (sys.services.segment_to_descriptor p s).1

  module _ (para : ℕ) (s : S) where
    -- The answer of interrupt 0x2f, and that of DOS to the new size of the program's block.
    abbrev pub asked : Regs × S
    asked = sys.low.int2f (record zero_regs { eax = 0x1687; ebx = 0x1000 }) s

    abbrev pub resized : ℕ → Regs × S
    resized n =
        sys.low.dpmi_int 0x21
          (record zero_regs { eax = 0x4a00; ebx = 0x10 + n; es = to_u16 (psp_segment sys.low) })
          asked.1

    abbrev to_psp : ℕ × S
    to_psp = sys.services.segment_to_descriptor (psp_segment sys.low) (resized para).1

    -- No host is found, DOS resizes the block, and the server has a descriptor for the PSP.
    pub record NoHost (d : Descriptor) : Type 0 where
      pub missing : carry asked.0.flags ≡ true
      pub agreed : carry (resized para).0.flags ≡ false
      pub new : IsNew sys.services server (resized para).1 to_psp d
      pub of_psp : d.base ≡ psp_segment sys.low * 0x10

    abbrev kept : ℕ
    kept = to_u16 (add32 para asked.0.esi)

    abbrev newseg : ℕ
    newseg = get_low_pool sys.low + para

    abbrev moved : S
    moved = move_pool sys.low asked.0 newseg (resized kept).1

    abbrev pub called : (ℕ × ℕ) × S
    called =
        sys.low.lcall asked.0.es asked.0.edi (if asked.0.esi == 0 then 1 else 0x1001) newseg moved

    abbrev freed : Regs × S
    freed =
        sys.low.dpmi_int 0x21 (record zero_regs { eax = 0x4900; es = to_u16 asked.0.eax }) called.1

    -- A host for 32 bits is found, and it and DOS agree to what `dpmi_init` asks.
    pub record HasHost : Type 0 where
      pub found : carry asked.0.flags ≡ false
      pub for_32_bits : (asked.0.ebx % 2 == 0) ≡ false
      pub pool : (no_pool asked.0.ebx && not (asked.0.eax == 0 && asked.0.esi == 0)) ≡ false
      pub agreed : carry (resized kept).0.flags ≡ false
      pub entered : carry called.0.0 ≡ false
      pub old_freed : (asked.0.esi == 0) ≡ false → carry freed.0.flags ≡ false

    -- What DOS and the host answer to the switch.
    pub data Answered (d : Descriptor) : Type 0 where
      no_host : NoHost d → Answered d
      has_host : HasHost → Answered d

    -- The selector of the PSP in the end: one for the PSP's 256 bytes, or the host's.
    pub data HasPsp (d : Descriptor) (psp : ℕ) (s' : S) : Type 0 where
      own :
          d.base ≡ psp_segment sys.low * 0x10
          → view s' psp ≡ some (record d { limit = 0xff })
          → HasPsp d psp s'
      of_host : psp ≡ called.0.1 → HasPsp d psp s'

    shrink_low-run :
        (n : ℕ)
        → 0x11_0000 < sys.low.esp
        → carry (resized n).0.flags ≡ false
        → shrink_low sys.low n asked.1 ≡ returned tt (resized n).1
    unfolding shrink_low
    shrink_low-run n stack e = rw (lt→ltb 0x11_0000 sys.low.esp stack) (rw e)

    dpmi_init-missing :
        (garbage : ℕ)
        → carry asked.0.flags ≡ true
        → dpmi_init sys.low para garbage s ≡ returned (minus_one, garbage) asked.1
    unfolding dpmi_init
    dpmi_init-missing garbage e = rw e

    -- The state behind a switch that the host has made.
    abbrev entered_state : S
    entered_state = if asked.0.esi == 0 then called.1 else freed.1

    -- What follows the call of the host's entry point, where there is no pool and where there is.
    free_old :
        (b : Bool)
        → (b ≡ false → carry freed.0.flags ≡ false)
        → (if b
            then returned called.0.1 called.1
            else and_then
                (if carry freed.0.flags then exit_failure else returned tt freed.1)
                (λ _ s'. returned called.0.1 s'))
          ≡ returned called.0.1 (if b then called.1 else freed.1)
    free_old true h = refl
    free_old false h = rw (h refl) refl

    enter-run :
        0x11_0000 < sys.low.esp
        → HasHost
        → enter sys.low para asked.0 asked.1 ≡ returned called.0.1 entered_state
    unfolding enter free_low
    enter-run stack h =
        rw (shrink_low-run kept stack h.agreed)
          (rw h.entered (free_old (asked.0.esi == 0) h.old_freed))

    dpmi_init-entered :
        (garbage : ℕ)
        → 0x11_0000 < sys.low.esp
        → HasHost
        → dpmi_init sys.low para garbage s ≡ returned (0, called.0.1) entered_state
    unfolding dpmi_init
    dpmi_init-entered garbage stack h =
        rw (h.found, h.for_32_bits, h.pool) (rw (enter-run stack h) refl)

    -- The descriptors that are in use stay behind each of the calls.
    module _ (keeps : KeepsDescriptors) where
      resized-Keeps : (n : ℕ) → Keeps s (resized n).1
      resized-Keeps n i d used = keeps.dpmi_int 0x21 _ asked.1 i d (keeps.int2f _ s i d used)

      moved-Keeps : Keeps s moved
      unfolding move_pool
      moved-Keeps i d used =
          let dst = mul32 newseg 0x10 in
          let src = mul32 asked.0.eax 0x10 in
          let n = mul32 asked.0.esi 0x10 in
          let there = resized-Keeps kept i d used in
          elim (asked.0.esi == 0)
            as (λ b.
              view (if b then (resized kept).1 else sys.low.memmove dst src n (resized kept).1) i
              ≡ some d) [
                | true ↦ there
                | false ↦ keeps.memmove dst src n (resized kept).1 i d there
              ]

      entered-Keeps : Keeps s entered_state
      entered-Keeps i d used =
          let there = keeps.lcall _ _ _ _ moved i d (moved-Keeps i d used) in
          elim (asked.0.esi == 0) as (λ b. view (if b then called.1 else freed.1) i ≡ some d) [
            | true ↦ there
            | false ↦ keeps.dpmi_int 0x21 _ called.1 i d there
          ]

      -- The descriptor of the PSP, and the others behind the call that sets its limit.
      module _ (d : Descriptor) (h : NoHost d) where
        abbrev sel : ℕ
        sel = to_u16 to_psp.0

        abbrev limited : S
        limited = sys.services.set_segment_limit sel 0xff to_psp.1

        view-limited : view limited ≡ adjust sel (λ d. record d { limit = 0xff }) (view to_psp.1)
        view-limited = server.set_limit sel 0xff to_psp.1 (omega arith) (omega arith)

        limited-Keeps : Keeps s limited
        limited-Keeps i e used =
            let there = resized-Keeps para i e used in
            rw (view-limited, ne→== i sel (IsNew-other sys.services server h.new there))
              (keeps.to_descriptor (psp_segment sys.low) (resized para).1 i e there)

        limited-here : view limited sel ≡ some (record d { limit = 0xff })
        limited-here = rw (view-limited, eq→== sel sel refl, h.new.used) refl

      -- Let the calls of DOS and of the DPMI host leave the descriptors in use alone, and let the
      -- stack be above the program's block. Let either no further host be found, DOS resize the
      -- block, and the server give a new descriptor for the PSP, or a host for 32 bits be found
      -- that, with DOS, agrees to what `dpmi_init` asks. Then the switch comes to an end with every
      -- descriptor in use as it was, and with a selector of the PSP: without a host it shows the
      -- 256 bytes of the PSP, and otherwise it is the one that the host gave.
      pub switch-Keeps :
          (minkeep : ℕ) (d : Descriptor) (w : World)
          → minkeep / 0x10 ≡ para
          → 0x11_0000 < sys.low.esp
          → Answered d
          → (psp : ℕ) × (s' : S) × (switch_mode sys minkeep s w ≡ ok (psp, s') w)
            × Keeps s s'
            × HasPsp d psp s'
      unfolding switch_mode alloc_psp
      switch-Keeps minkeep d w e stack (no_host h) = (
        sel d h,
        limited d h,
        rw e (
            rw (dpmi_init-missing (word16 sys.host.stack 0) h.missing)
              (rw (shrink_low-run para stack h.agreed) refl)),
        limited-Keeps d h,
        own h.of_psp (limited-here d h),
      )
      switch-Keeps minkeep d w e stack (has_host h) = (
        called.0.1,
        entered_state,
        rw e (rw (dpmi_init-entered (word16 sys.host.stack 0) stack h) refl),
        entered-Keeps,
        of_host refl,
      )
