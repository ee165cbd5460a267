-- ===== src/Dpmi/Results.antt =====
-- The wrapper of src/dpmi.c that returns an address and a handle through pointers.
use djstub.Base.{
  ℕ, ◌+◌, ◌*◌, ◌%◌, ◌≤◌, ◌<◌, ◌≡◌, refl, sym, ap, subst, transport, Bool, ◌∙◌, ◌⊎◌, inl, inr, none,
  [], ◌∷◌, Bytes, word32, add32, u32_mod, minus_one, if◌then◌else◌, Bool-cases, arith,
}
use djstub.Asm.{
  Machine, Interrupts, load, store_word, run, run_from, arg, arg_word, ebx, ecx, edx, esi, edi, ebp,
}
use djstub.Asm.Memory.{
  store_halves, word32-store_halves, store_halves-apart, word32-store_halves_apart, word32-store32,
}
use djstub.Dpmi.Descriptors.{Code}
use djstub.Dpmi.Memory.{dpmi_allocate_memory, dpmi_allocate_dos_memory}
use djstub.Dpmi.Calls.{finish, finish-result, run-int31}

-- Two words of memory that do not overlap.
abbrev pub Apart : ℕ → ℕ → Type 0
Apart a b = (a + 4 ≤ b) ⊎ (b + 4 ≤ a)

-- What a register pair stands for.
abbrev pub joined : ℕ → ℕ → ℕ
joined hi lo = lo % 0x1_0000 + 0x1_0000 * (hi % 0x1_0000)

-- The code behind the interrupt in `dpmi_allocate_memory`.
abbrev store_block : Code
store_block =
    load edx ebp 12
    ∷ store_word edx 2 ebx
    ∷ store_word edx 0 ecx
    ∷ load edx ebp 16
    ∷ store_word edx 2 esi
    ∷ store_word edx 0 edi
    ∷ []

-- The frame pointer and the memory of the call.
module _ (frame : ℕ) (mem : Bytes) where
  -- The pointers for the address and the handle.
  abbrev pub addr_ptr : ℕ
  addr_ptr = word32 mem (add32 frame 12)

  abbrev pub handle_ptr : ℕ
  handle_ptr = word32 mem (add32 frame 16)

  -- The pointers are to words that overlap neither one another nor the second pointer.
  pub record HasPlaces : Type 0 where
    pub frame_room : frame + 24 < u32_mod
    pub addr_room : addr_ptr + 4 ≤ u32_mod
    pub handle_room : handle_ptr + 4 ≤ u32_mod
    pub apart : Apart addr_ptr handle_ptr
    pub addr_apart : Apart addr_ptr (frame + 16)

  -- What the caller finds in `m'` when the service has replied.
  pub record HasBlock {H : Type 0} (reply m' : Machine H) : Type 0 where
    pub result : m'.eax ≡ (if reply.cf then minus_one else reply.eax)
    pub addr : word32 m'.mem addr_ptr ≡ joined reply.ebx reply.ecx
    pub handle : word32 m'.mem handle_ptr ≡ joined reply.esi reply.edi
    pub outside :
        (i : ℕ)
        → (i < addr_ptr) ⊎ (addr_ptr + 4 ≤ i)
        → (i < handle_ptr) ⊎ (handle_ptr + 4 ≤ i)
        → m'.mem i ≡ mem i

module _ {H : Type 0} (h : Interrupts H) (r : Machine H) where
  -- The pointers of the call whose frame and memory `r` has.
  abbrev place : ℕ
  place = addr_ptr r.ebp r.mem

  abbrev place' : ℕ
  place' = handle_ptr r.ebp r.mem

  -- Memory behind the first and behind the second pair of stores.
  abbrev inner : Bytes
  inner = store_halves place r.ebx r.ecx r.mem

  abbrev outer : Bytes
  outer = store_halves place' r.esi r.edi inner

  store_block-mem : HasPlaces r.ebp r.mem → (run_from h none store_block r).mem ≡ outer
  unfolding run_from
  store_block-mem p =
      let a₀ : add32 place 0 ≡ place = omega arith in
      let a₂ : add32 place 2 ≡ place + 2 = omega arith in
      let at : add32 r.ebp 16 ≡ r.ebp + 16 = omega arith in
      let kept : word32 inner (add32 r.ebp 16) ≡ place' =
        rw at (word32-store_halves_apart place r.ebx r.ecx (r.ebp + 16) r.mem (omega arith)) in
      let h₀ : add32 place' 0 ≡ place' = omega arith in
      let h₂ : add32 place' 2 ≡ place' + 2 = omega arith in rw (a₀, a₂) (rw kept (rw (h₀, h₂)))

  outer-addr : HasPlaces r.ebp r.mem → word32 outer place ≡ joined r.ebx r.ecx
  outer-addr p =
      word32-store_halves_apart place' r.esi r.edi place inner (omega arith)
      ∙ word32-store_halves place r.ecx r.ebx r.mem

  store_block-HasBlock :
      (reply : Machine H)
      → HasPlaces r.ebp r.mem
      → r.eax ≡ (if reply.cf then minus_one else reply.eax)
      → joined r.ebx r.ecx ≡ joined reply.ebx reply.ecx
      → joined r.esi r.edi ≡ joined reply.esi reply.edi
      → HasBlock r.ebp r.mem reply (run_from h none store_block r)
  unfolding run_from
  store_block-HasBlock reply p a b d = record {
    result = a;
    addr = ap (λ mem. word32 mem place) (store_block-mem p) ∙ outer-addr p ∙ b;
    handle =
        ap (λ mem. word32 mem place') (store_block-mem p)
        ∙ word32-store_halves place' r.edi r.esi inner
        ∙ d;
    outside = λ i q q'.
        ap (λ mem. mem i) (store_block-mem p)
        ∙ store_halves-apart place' r.esi r.edi i inner q'
        ∙ store_halves-apart place r.ebx r.ecx i r.mem q;
  }

finish-HasBlock :
    {H : Type 0} (h : Interrupts H) (reply : Machine H)
    → HasPlaces reply.ebp reply.mem
    → HasBlock reply.ebp reply.mem reply (run_from h none store_block (finish reply))
finish-HasBlock {H = H} h reply p =
    let failed = record reply { eax = minus_one } in
    let HasIt =
      λ (r : Machine H). HasBlock reply.ebp reply.mem reply (run_from h none store_block r) in
    let result : Bool → ℕ = λ c. if c then minus_one else reply.eax in
    elim (Bool-cases reply.cf) [
      | inl c ↦
          subst HasIt (sym (ap (λ c. if c then failed else reply) c))
            (store_block-HasBlock h failed reply p (sym (ap result c)) refl refl)
      | inr c ↦
          subst HasIt (sym (ap (λ c. if c then failed else reply) c))
            (store_block-HasBlock h reply reply p (sym (ap result c)) refl refl)
    ]

-- The registers at the interrupt, and the state that it leaves.
abbrev pub block_request : {H : Type 0} → Machine H → Machine H
block_request m = record m { eax = 0x501; ebx = arg_word 10 m; ecx = arg_word 8 m }

abbrev pub block_reply : {H : Type 0} → Interrupts H → Machine H → Machine H
block_reply h m = h.call 0x31 (block_request m)

-- Let the frame of the call lie within the address space, let the two pointer arguments be to
-- words within it that overlap neither one another nor, for the first word, the second pointer,
-- and let the service leave the frame pointer and memory alone. Then `dpmi_allocate_memory`
-- returns -1 if the carry flag was set and the service's eax if not, and either way BX:CX stands
-- at the first pointer and SI:DI at the second, and no other byte of memory has changed.
pub dpmi_allocate_memory-HasBlock :
    {H : Type 0} (h : Interrupts H) (m : Machine H)
    → HasPlaces m.ebp m.mem
    → (block_reply h m).ebp ≡ m.ebp
    → (block_reply h m).mem ≡ m.mem
    → HasBlock m.ebp m.mem (block_reply h m) (run h dpmi_allocate_memory m)
unfolding run run_from dpmi_allocate_memory
dpmi_allocate_memory-HasBlock h m p f e =
    let reply = block_reply h m in
    subst (λ r. HasBlock m.ebp m.mem reply r) (sym (run-int31 h store_block (block_request m)))
      (transport (λ i. HasBlock (f i) (e i) reply (run_from h none store_block (finish reply)))
        (finish-HasBlock h reply (transport (λ i. HasPlaces (sym f i) (sym e i)) p)))

store_block-host :
    {H : Type 0} (h : Interrupts H) (r : Machine H) → (run_from h none store_block r).host ≡ r.host
unfolding run_from
store_block-host h r = refl

pub dpmi_allocate_memory-host :
    {H : Type 0} (h : Interrupts H) (m : Machine H)
    → (run h dpmi_allocate_memory m).host ≡ (block_reply h m).host
unfolding run run_from dpmi_allocate_memory
dpmi_allocate_memory-host {H = H} h m =
    ap (λ (r : Machine H). r.host) (run-int31 h store_block (block_request m))
    ∙ store_block-host h (finish (block_reply h m))
    ∙ ap (λ (r : Machine H). r.host) (finish-result (block_reply h m))

-- The pointer of `dpmi_allocate_dos_memory` behind the interrupt.
abbrev pub dos_reply : {H : Type 0} → Interrupts H → Machine H → Machine H
dos_reply h m = h.call 0x31 (record m { eax = 0x100; ebx = arg 8 m })

-- Whether the service succeeds or not, `dpmi_allocate_dos_memory` has stored all 32 bits of edx,
-- or of ebx if it failed, at its second argument, an address (which the C prototype makes a
-- pointer to 16 bits).
pub dpmi_allocate_dos_memory-word :
    {H : Type 0} (h : Interrupts H) (m : Machine H)
    → let r = dos_reply h m in
      arg 12 r < u32_mod
      → word32 (run h dpmi_allocate_dos_memory m).mem (arg 12 r)
        ≡ (if r.cf then r.ebx else r.edx) % u32_mod
unfolding run run_from dpmi_allocate_dos_memory
dpmi_allocate_dos_memory-word h m l =
    let r = dos_reply h m in
    let at : add32 (arg 12 r) 0 ≡ arg 12 r = omega arith in
    elim (Bool-cases r.cf) [
      | inl c ↦ rw c (rw at (word32-store32 (arg 12 r) r.ebx r.mem))
      | inr c ↦ rw c (rw at (word32-store32 (arg 12 r) r.edx r.mem))
    ]
