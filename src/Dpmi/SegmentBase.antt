-- ===== src/Dpmi/SegmentBase.antt =====
-- The wrapper of src/dpmi.c that returns the base address of a segment through a pointer.
use djstub.Base.{
  ◌+◌, ◌≤◌, ◌≡◌, refl, sym, ap, ◌∙◌, none, [], ◌∷◌, word32, add32, u32_mod, minus_one,
  if◌then◌else◌, arith,
}
use djstub.Asm.{Machine, Interrupts, load, store_word, run, run_from, arg, edx, ecx, edi, ebp}
use djstub.Asm.Memory.{store16, word32-store_halves_up}
use djstub.Dpmi.Descriptors.{Code, dpmi_get_segment_base_address}
use djstub.Dpmi.Calls.{finish-result, run-int31}
use djstub.Dpmi.Results.{joined}

-- The code behind the interrupt.
abbrev store_base : Code
store_base = load edi ebp 12 ∷ store_word edi 0 edx ∷ store_word edi 2 ecx ∷ []

module _ {H : Type 0} (h : Interrupts H) where
  -- The registers at the interrupt, and the state that it leaves.
  abbrev pub base_request : Machine H → Machine H
  base_request m = record m { eax = 6; ebx = arg 8 m }

  abbrev pub base_reply : Machine H → Machine H
  base_reply m = h.call 0x31 (base_request m)

  module _ (r : Machine H) (room : arg 12 r + 4 ≤ u32_mod) where
    store_base-mem :
        (run_from h none store_base r).mem
        ≡ store16 (arg 12 r + 2) r.ecx (store16 (arg 12 r) r.edx r.mem)
    unfolding run_from
    store_base-mem =
        let a₀ : add32 (arg 12 r) 0 ≡ arg 12 r = omega arith in
        let a₂ : add32 (arg 12 r) 2 ≡ arg 12 r + 2 = omega arith in rw (a₀, a₂)

    store_base-word : word32 (run_from h none store_base r).mem (arg 12 r) ≡ joined r.ecx r.edx
    store_base-word =
        ap (λ mem. word32 mem (arg 12 r)) store_base-mem
        ∙ word32-store_halves_up (arg 12 r) r.ecx r.edx r.mem

  store_base-host : (r : Machine H) → (run_from h none store_base r).host ≡ r.host
  unfolding run_from
  store_base-host r = refl

  run-reply :
      (m : Machine H)
      → run h dpmi_get_segment_base_address m
        ≡ run_from h none store_base (record (base_reply m) {
          eax = if (base_reply m).cf then minus_one else (base_reply m).eax;
        })
  unfolding run run_from dpmi_get_segment_base_address
  run-reply m =
      run-int31 h store_base (base_request m)
      ∙ ap (run_from h none store_base) (finish-result (base_reply m))

  pub dpmi_get_segment_base_address-host :
      (m : Machine H) → (run h dpmi_get_segment_base_address m).host ≡ (base_reply m).host
  dpmi_get_segment_base_address-host m =
      ap (λ (r : Machine H). r.host) (run-reply m) ∙ store_base-host _

  store_base-eax : (r : Machine H) → (run_from h none store_base r).eax ≡ r.eax
  unfolding run_from
  store_base-eax r = refl

  -- Let the interrupt keep the frame and the memory, and let the pointer have 4 bytes of room.
  -- Then `dpmi_get_segment_base_address` returns -1 where the reply has carry set and eax of the
  -- reply otherwise, and in both cases the word at the pointer is the low half of cx of the reply
  -- joined with that of dx.
  pub dpmi_get_segment_base_address-word :
      (m : Machine H)
      → (base_reply m).ebp ≡ m.ebp
      → (base_reply m).mem ≡ m.mem
      → arg 12 m + 4 ≤ u32_mod
      → ((run h dpmi_get_segment_base_address m).eax
          ≡ (if (base_reply m).cf then minus_one else (base_reply m).eax))
        × (word32 (run h dpmi_get_segment_base_address m).mem (arg 12 m)
            ≡ joined (base_reply m).ecx (base_reply m).edx)
  dpmi_get_segment_base_address-word m f e room =
      let place : arg 12 (base_reply m) ≡ arg 12 m = λ i. word32 (e i) (add32 (f i) 12) in
      (
        ap (λ (r : Machine H). r.eax) (run-reply m) ∙ store_base-eax _,
        ap (λ (r : Machine H). word32 r.mem (arg 12 m)) (run-reply m)
            ∙ ap (word32 _) (sym place)
            ∙ store_base-word _ (omega (arith, place)),
      )
