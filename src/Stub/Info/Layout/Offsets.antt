-- ===== src/Stub/Info/Layout/Offsets.antt =====
-- Each member of `_GO32_StubInfo` (src/stubinfo.h) is at its constant of the header.
use djstub.Base.{
  ℕ, zero, suc, ◌+◌, ◌≤◌, ◌<◌, ◌≡◌, inl, refl, ap, ◌∙◌, List, [], ◌∷◌, Bytes, lt→ltb, le→leb, arith,
}
use djstub.Asm.Memory.{
  word16-store16, word32-store32, word16-agree, word32-agree, store16-apart, store32-apart,
}
use djstub.Stub.Scan.{StubInfo}
use djstub.Stub.Info.Layout.{
  Field, chars, half, word, size_of, place, store_field, store_fields, Holds, Member,
  stubinfo_magic, stubinfo_size, stubinfo_minstack, stubinfo_memory_handle, stubinfo_initial_size,
  stubinfo_minkeep, stubinfo_ds_selector, stubinfo_ds_segment, stubinfo_psp_selector,
  stubinfo_cs_selector, stubinfo_env_size, stubinfo_reserved, stubinfo_argv0, stubinfo_dpmi_server,
  stubinfo_stubinfo_ver, stubinfo_self_fd, stubinfo_self_offs, stubinfo_self_size,
  stubinfo_payload_offs, stubinfo_payload_size, stubinfo_payload2_offs, stubinfo_payload2_size,
  stubinfo_payload2_name, stubinfo_mem_base, stubinfo_flags, stubinfo_uentry, stubinfo_cpl_fd,
  stubinfo_upl_base, stubinfo_upl_size, stubinfo_elfload_arg, offset, member, members, store_info,
}

place-le : (off : ℕ) (f : Field) → off ≤ place off f
unfolding place
place-le off (chars n b) = omega arith
place-le off (half v) = omega arith
place-le off (word v) = omega arith

store_field-below : (f : Field) (p i : ℕ) (mem : Bytes) → i < p → store_field f p mem i ≡ mem i
store_field-below (chars n b) p i mem l = ground arith
store_field-below (half v) p i mem l = store16-apart p v i mem (omega arith) (omega arith)
store_field-below (word v) p i mem l = store32-apart p v i mem (inl l)

store_fields-below :
    (fs : List Field) (base off i : ℕ) (mem : Bytes)
    → i < base + off
    → store_fields fs base off mem i ≡ mem i
unfolding store_fields
store_fields-below [] base off i mem l = refl
store_fields-below (f ∷ fs) base off i mem l =
    let at = place off f in
    store_fields-below fs base (at + size_of f) i (store_field f (base + at) mem)
      (omega (arith, place-le off f))
    ∙ store_field-below f (base + at) i mem (omega (arith, place-le off f))

store_field-Holds : (f : Field) (p : ℕ) (mem : Bytes) → Holds (store_field f p mem) p f
store_field-Holds (chars n b) p mem = λ i l.
    rw (le→leb p (p + i) (omega arith), lt→ltb (p + i) (p + n) (omega arith)) (ap b (omega arith))
store_field-Holds (half v) p mem = word16-store16 p v mem
store_field-Holds (word v) p mem = word32-store32 p v mem

-- A member stays where its bytes do.
Holds-agree :
    (f : Field) (p : ℕ) (mem mem' : Bytes)
    → ((i : ℕ) → p ≤ i → i < p + size_of f → mem' i ≡ mem i)
    → Holds mem p f
    → Holds mem' p f
Holds-agree (chars n b) p mem mem' same h = λ i l. same (p + i) (omega arith) (omega arith) ∙ h i l
Holds-agree (half v) p mem mem' same h = word16-agree p mem mem' same ∙ h
Holds-agree (word v) p mem mem' same h = word32-agree p mem mem' same ∙ h

-- All members, one behind the other.
abbrev HoldAll : List Field → (base off : ℕ) → Bytes → Type 0
HoldAll [] base off mem = Unit
HoldAll (f ∷ fs) base off mem =
    Holds mem (base + place off f) f × HoldAll fs base (place off f + size_of f) mem

store_fields-HoldAll :
    (fs : List Field) (base off : ℕ) (mem : Bytes)
    → HoldAll fs base off (store_fields fs base off mem)
unfolding store_fields
store_fields-HoldAll [] base off mem = tt
store_fields-HoldAll (f ∷ fs) base off mem =
    let at = place off f in
    let mem' = store_field f (base + at) mem in
    let rest = store_fields fs base (at + size_of f) mem' in
    (
      Holds-agree f (base + at) mem' rest
          (λ i a b. store_fields-below fs base (at + size_of f) i mem' (omega arith))
          (store_field-Holds f (base + at) mem),
      store_fields-HoldAll fs base (at + size_of f) mem',
    )

-- The member at a place in the list.
abbrev HoldsNth : ℕ → List Field → (base off : ℕ) → Bytes → Type 0
HoldsNth k [] base off mem = Unit
HoldsNth zero (f ∷ fs) base off mem = Holds mem (base + place off f) f
HoldsNth (suc k) (f ∷ fs) base off mem = HoldsNth k fs base (place off f + size_of f) mem

HoldAll-HoldsNth :
    (k : ℕ) (fs : List Field) (base off : ℕ) (mem : Bytes)
    → HoldAll fs base off mem
    → HoldsNth k fs base off mem
HoldAll-HoldsNth k [] base off mem h = tt
HoldAll-HoldsNth zero (f ∷ fs) base off mem h = h.0
HoldAll-HoldsNth (suc k) (f ∷ fs) base off mem h =
    HoldAll-HoldsNth k fs base (place off f + size_of f) mem h.1

stored-HoldsNth :
    (k : ℕ) (s : StubInfo) (base : ℕ) (mem : Bytes)
    → HoldsNth k (members s) base 0 (store_info s base mem)
unfolding store_info
stored-HoldsNth k s base mem =
    HoldAll-HoldsNth k (members s) base 0 (store_info s base mem)
      (store_fields-HoldAll (members s) base 0 mem)

-- Wherever `_GO32_StubInfo` is stored, with its integers aligned as C aligns them, each member
-- is at the offset that the constant of the header for it says: an array of characters byte by
-- byte, an integer as its low 16 or 32 bits.
pub store_info-Holds :
    (m : Member) (info : StubInfo) (base : ℕ) (mem : Bytes)
    → Holds (store_info info base mem) (base + offset m) (member m info)
unfolding offset member place
store_info-Holds stubinfo_magic s base mem = stored-HoldsNth 0 s base mem
store_info-Holds stubinfo_size s base mem = stored-HoldsNth 1 s base mem
store_info-Holds stubinfo_minstack s base mem = stored-HoldsNth 2 s base mem
store_info-Holds stubinfo_memory_handle s base mem = stored-HoldsNth 3 s base mem
store_info-Holds stubinfo_initial_size s base mem = stored-HoldsNth 4 s base mem
store_info-Holds stubinfo_minkeep s base mem = stored-HoldsNth 5 s base mem
store_info-Holds stubinfo_ds_selector s base mem = stored-HoldsNth 6 s base mem
store_info-Holds stubinfo_ds_segment s base mem = stored-HoldsNth 7 s base mem
store_info-Holds stubinfo_psp_selector s base mem = stored-HoldsNth 8 s base mem
store_info-Holds stubinfo_cs_selector s base mem = stored-HoldsNth 9 s base mem
store_info-Holds stubinfo_env_size s base mem = stored-HoldsNth 10 s base mem
store_info-Holds stubinfo_reserved s base mem = stored-HoldsNth 11 s base mem
store_info-Holds stubinfo_argv0 s base mem = stored-HoldsNth 12 s base mem
store_info-Holds stubinfo_dpmi_server s base mem = stored-HoldsNth 13 s base mem
store_info-Holds stubinfo_stubinfo_ver s base mem = stored-HoldsNth 14 s base mem
store_info-Holds stubinfo_self_fd s base mem = stored-HoldsNth 15 s base mem
store_info-Holds stubinfo_self_offs s base mem = stored-HoldsNth 16 s base mem
store_info-Holds stubinfo_self_size s base mem = stored-HoldsNth 17 s base mem
store_info-Holds stubinfo_payload_offs s base mem = stored-HoldsNth 18 s base mem
store_info-Holds stubinfo_payload_size s base mem = stored-HoldsNth 19 s base mem
store_info-Holds stubinfo_payload2_offs s base mem = stored-HoldsNth 20 s base mem
store_info-Holds stubinfo_payload2_size s base mem = stored-HoldsNth 21 s base mem
store_info-Holds stubinfo_payload2_name s base mem = stored-HoldsNth 22 s base mem
store_info-Holds stubinfo_mem_base s base mem = stored-HoldsNth 23 s base mem
store_info-Holds stubinfo_flags s base mem = stored-HoldsNth 24 s base mem
store_info-Holds stubinfo_uentry s base mem = stored-HoldsNth 25 s base mem
store_info-Holds stubinfo_cpl_fd s base mem = stored-HoldsNth 26 s base mem
store_info-Holds stubinfo_upl_base s base mem = stored-HoldsNth 27 s base mem
store_info-Holds stubinfo_upl_size s base mem = stored-HoldsNth 28 s base mem
store_info-Holds stubinfo_elfload_arg s base mem = stored-HoldsNth 29 s base mem
