-- ===== src/Util/Init/Pool.antt =====
-- The pool of the DPMI host in low memory, which `dpmi_init` of src/util.c moves.
use djstub.Base.{
  ℕ, ◌+◌, ◌*◌, ◌/◌, ◌%◌, ◌≤◌, ◌<◌, ◌≡◌, ◌≢◌, false, List, ◌∷◌, add32, mul32, to_u16, ◌==◌, ne→==,
  lt→ltb, arith,
}
use djstub.Util.Init.{
  Regs, Lowmem, returned, carry, no_pool, get_low_pool, shrink_low, free_low, move_pool, enter,
  dpmi_init,
}

-- What `dpmi_init` asks of DOS and of the DPMI host.
pub data Event : Type 0 where
  query : Event
  interrupt : (eax ebx es : ℕ) → Event
  move : (dst src n : ℕ) → Event
  call : (sel off ax bx : ℕ) → Event

-- The answers of DOS and of the host, the segment of the program's PSP and the stack pointer.
pub record Answers : Type 0 where
  pub to_query : Regs
  pub to_interrupt : ℕ → Regs
  pub to_call : ℕ × ℕ
  pub psp : ℕ
  pub esp : ℕ

-- Low memory that keeps a log, the last event first.
abbrev pub logged : Answers → Lowmem (List Event)
logged a = record {
  dpmi_int = λ n r log. (a.to_interrupt r.eax, interrupt r.eax r.ebx r.es ∷ log);
  int2f = λ r log. (a.to_query, query ∷ log);
  lcall = λ sel off ax bx log. (a.to_call, call sel off ax bx ∷ log);
  memmove = λ dst src n log. move dst src n ∷ log;
  psp = a.psp;
  esp = a.esp;
}

-- DOS and the host agree to everything, and the host has a pool in low memory.
pub record Agree (a : Answers) : Type 0 where
  pub found : carry a.to_query.flags ≡ false
  pub for_32_bits : (a.to_query.ebx % 2 == 0) ≡ false
  pub has_pool : no_pool a.to_query.ebx ≡ false
  pub resized : carry (a.to_interrupt 0x4a00).flags ≡ false
  pub entered : carry a.to_call.0 ≡ false
  pub freed : carry (a.to_interrupt 0x4900).flags ≡ false
  pub stack : 0x11_0000 < a.esp

module _ (a : Answers) (para : ℕ) where
  abbrev r : Regs
  r = a.to_query

  -- The program's block after the call that resizes it, in paragraphs.
  abbrev pub seg : ℕ
  seg = a.psp / 0x10

  abbrev pub size : ℕ
  size = 0x10 + (para + r.esi)

  abbrev pub newseg : ℕ
  newseg = seg + 0x10 + para

  -- Everything that is asked for, in its order from the end on.
  abbrev pub asked : List Event → List Event
  asked log =
      interrupt 0x4900 0 (to_u16 r.eax)
      ∷ call r.es r.edi 0x1001 newseg
      ∷ move (newseg * 0x10) (mul32 r.eax 0x10) (r.esi * 0x10)
      ∷ interrupt 0x4a00 size seg
      ∷ query
      ∷ log

  shrink_low-run :
      (log : List Event)
      → Agree a
      → seg + size ≤ 0x1_0000
      → shrink_low (logged a) (to_u16 (add32 para r.esi)) log
        ≡ returned tt (interrupt 0x4a00 size seg ∷ log)
  unfolding shrink_low
  shrink_low-run log h room =
      let p : to_u16 (add32 para r.esi) ≡ para + r.esi = omega arith in
      let s : to_u16 seg ≡ seg = omega arith in
      rw (p, s) (rw (lt→ltb 0x11_0000 a.esp h.stack) (rw h.resized))

  move_pool-run :
      (log : List Event)
      → r.esi ≢ 0
      → seg + size ≤ 0x1_0000
      → move_pool (logged a) r (get_low_pool (logged a) + para) log
        ≡ move (newseg * 0x10) (mul32 r.eax 0x10) (r.esi * 0x10) ∷ log
  unfolding move_pool get_low_pool
  move_pool-run log pool room =
      let n : to_u16 (seg + 0x10) + para ≡ newseg = omega arith in
      let d : mul32 newseg 0x10 ≡ newseg * 0x10 = omega arith in
      let c : mul32 r.esi 0x10 ≡ r.esi * 0x10 = omega arith in
      rw (ne→== r.esi 0 pool) (rw n (rw (d, c)))

  enter-asked :
      (log : List Event)
      → Agree a
      → r.esi ≢ 0
      → seg + size ≤ 0x1_0000
      → enter (logged a) para r (query ∷ log) ≡ returned a.to_call.1 (asked log)
  unfolding enter free_low
  enter-asked log h pool room =
      let n : get_low_pool (logged a) + para ≡ newseg = unfold get_low_pool in omega arith in
      rw (shrink_low-run (query ∷ log) h room) (
        rw (move_pool-run (interrupt 0x4a00 size seg ∷ query ∷ log) pool room)
          (rw (h.entered, ne→== r.esi 0 pool) (rw (h.freed, n))))

  -- Let DOS and the host agree to every call, let the host have a pool in low memory, let the
  -- stack be above it, and let the program's block, of 16 paragraphs, `para` and the pool, end
  -- within the first MiB. Then `dpmi_init` returns 0 with the selector of the PSP, and has asked
  -- in this order: for the host; for the program's block to have that size; to move the pool; to
  -- enter protected mode, with the place of the moved pool; and to free the old pool. The pool has
  -- moved to within the program's block, and ends where the block does.
  pub dpmi_init-asked :
      (psp_sel : ℕ) (log : List Event)
      → Agree a
      → r.esi ≢ 0
      → seg + size ≤ 0x1_0000
      → (dpmi_init (logged a) para psp_sel log ≡ returned (0, a.to_call.1) (asked log))
        × (seg * 0x10 ≤ newseg * 0x10)
        × (newseg * 0x10 + r.esi * 0x10 ≡ (seg + size) * 0x10)
  unfolding dpmi_init
  dpmi_init-asked psp_sel log h pool room = (
    rw (h.found, h.for_32_bits, h.has_pool) (rw (enter-asked log h pool room)),
    omega arith,
    omega arith,
  )
