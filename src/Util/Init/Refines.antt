-- ===== src/Util/Init/Refines.antt =====
-- `dpmi_init` of src/util.c on its own assembly against what DOS and the DPMI host answer.
use djstub.Base.{
  ℕ, ◌+◌, ◌-◌, ◌*◌, ◌%◌, ◌≤◌, ◌<◌, ◌≡◌, ◌⊎◌, inl, refl, sym, ap, ◌∙◌, List, [], ◌∷◌, Bytes, byte_at,
  word32, u16_mod, u32_mod, arith,
}
use djstub.Asm.{Machine, Interrupts, flags, arg}
use djstub.Asm.Memory.{word32-agree, word32-store32, word32-store32_apart, word32-store16_apart}
use djstub.Asm.Frame.{frame, frame-ebp, frame-esp, frame-apart, arg-frame}
use djstub.Asm.Call.{before, entered}
use djstub.Util.Init.{Regs, Lowmem, dpmi_init}
use djstub.Util.Init.Simulates.{Simulates, forget, dpmi_init-forget}
use djstub.Util.Init.Coded.{store_regs, Outside, coded}
use djstub.Util.RegsBlock.{regs_at}
use djstub.Util.Int2f
use djstub.Util.Lcall

-- The members of a block that it is filled with.
module _ (b : ℕ) (r : Regs) (mem : Bytes) where
  abbrev regs_block : Bytes
  regs_block = store_regs b r mem

  block-edi : word32 regs_block b ≡ r.edi % u32_mod
  unfolding store_regs
  block-edi =
      word32-store16_apart (b + 34) r.es b _ (inl (omega arith))
      ∙ word32-store16_apart (b + 32) r.flags b _ (inl (omega arith))
      ∙ word32-store32_apart (b + 28) r.eax b _ (inl (omega arith))
      ∙ word32-store32_apart (b + 16) r.ebx b _ (inl (omega arith))
      ∙ word32-store32_apart (b + 4) r.esi b _ (inl (omega arith))
      ∙ word32-store32 b r.edi _

  block-esi : word32 regs_block (b + 4) ≡ r.esi % u32_mod
  unfolding store_regs
  block-esi =
      word32-store16_apart (b + 34) r.es (b + 4) _ (inl (omega arith))
      ∙ word32-store16_apart (b + 32) r.flags (b + 4) _ (inl (omega arith))
      ∙ word32-store32_apart (b + 28) r.eax (b + 4) _ (inl (omega arith))
      ∙ word32-store32_apart (b + 16) r.ebx (b + 4) _ (inl (omega arith))
      ∙ word32-store32 (b + 4) r.esi _

  block-ebx : word32 regs_block (b + 16) ≡ r.ebx % u32_mod
  unfolding store_regs
  block-ebx =
      word32-store16_apart (b + 34) r.es (b + 16) _ (inl (omega arith))
      ∙ word32-store16_apart (b + 32) r.flags (b + 16) _ (inl (omega arith))
      ∙ word32-store32_apart (b + 28) r.eax (b + 16) _ (inl (omega arith))
      ∙ word32-store32 (b + 16) r.ebx _

  block-eax : word32 regs_block (b + 28) ≡ r.eax % u32_mod
  unfolding store_regs
  block-eax =
      word32-store16_apart (b + 34) r.es (b + 28) _ (inl (omega arith))
      ∙ word32-store16_apart (b + 32) r.flags (b + 28) _ (inl (omega arith))
      ∙ word32-store32 (b + 28) r.eax _

-- The registers of a question, and those of an answer.
abbrev pub asked_regs : {H : Type 0} → Machine H → Regs
asked_regs m = record { edi = m.edi; esi = m.esi; ebx = m.ebx; eax = m.eax; flags = 0; es = 0 }

abbrev pub answer_regs : {H : Type 0} → Machine H → Regs
answer_regs m = record {
  edi = m.edi % u32_mod;
  esi = m.esi % u32_mod;
  ebx = m.ebx % u32_mod;
  eax = m.eax % u32_mod;
  flags = flags m % u16_mod;
  es = m.es % u16_mod;
}

-- What the host answers to interrupt 0x2f, and what its entry point returns: the flags and es.
pub record Answering (H : Type 0) : Type 0 where
  pub query : Regs → H → Regs × H
  pub enter : (sel off ax bx : ℕ) → H → (ℕ × ℕ) × H

-- The host keeps the stack and memory, and its answers depend on nothing but the registers.
pub record IsAnswering {H : Type 0} (h : Interrupts H) (a : Answering H) : Type 0 where
  pub query :
      (m : Machine H)
      → a.query (asked_regs m) m.host ≡ (answer_regs (h.call 0x2f m), (h.call 0x2f m).host)
  pub query_frame : (m : Machine H) → (h.call 0x2f m).ebp ≡ m.ebp
  pub query_stack : (m : Machine H) → (h.call 0x2f m).esp ≡ m.esp
  pub query_mem : (m : Machine H) → (h.call 0x2f m).mem ≡ m.mem
  pub enter :
      (sel off : ℕ) (m : Machine H)
      → a.enter sel off m.eax m.ebx m.host ≡ (
        (flags (h.far sel off m) % u32_mod, (h.far sel off m).es % u16_mod),
        (h.far sel off m).host,
      )
  pub enter_frame : (sel off : ℕ) (m : Machine H) → (h.far sel off m).ebp ≡ m.ebp
  pub enter_stack : (sel off : ℕ) (m : Machine H) → (h.far sel off m).esp ≡ m.esp
  pub enter_mem : (sel off : ℕ) (m : Machine H) → (h.far sel off m).mem ≡ m.mem

-- Low memory that asks the host straight away.
abbrev pub answering : {H : Type 0} → Outside H → Answering H → (esp : ℕ) → Lowmem H
answering out a esp = record {
  dpmi_int = out.dpmi_int;
  int2f = λ r s.
      a.query
        (record {
          edi = r.edi % u32_mod;
          esi = r.esi % u32_mod;
          ebx = r.ebx % u32_mod;
          eax = r.eax % u32_mod;
          flags = 0;
          es = 0;
        })
        s;
  lcall =
      λ sel off ax bx s. a.enter (sel % u16_mod) (off % u32_mod) (ax % u32_mod) (bx % u32_mod) s;
  memmove = λ dst src n s. s;
  psp = out.psp;
  esp = esp;
}

module _ {H : Type 0} (h : Interrupts H) (out : Outside H) (a : Answering H) (regs : Machine H)
    (ret block_at psp_sel_at : ℕ) (answers : IsAnswering h a) (room : 36 ≤ regs.esp)
    (small : regs.esp < u32_mod) (block : block_at + 50 ≤ u32_mod)
    (apart : (block_at + 50 ≤ regs.esp - 36) ⊎ (regs.esp ≤ block_at))
    (static : (psp_sel_at + 2 ≤ regs.esp - 36) ⊎ (regs.esp ≤ psp_sel_at)) where
  module _ (r : Regs) (s : H × Bytes) where
    abbrev question : H × Bytes
    question = (s.0, store_regs block_at r s.1)

    abbrev m : Machine H
    m = entered h regs ret (block_at ∷ []) question

    m_ebp : m.ebp ≡ regs.esp - 12
    m_ebp =
        frame-ebp ret (block_at ∷ []) (before h regs ret question) (omega arith) small ∙ omega arith

    m_esp : m.esp ≡ m.ebp
    m_esp =
        frame-esp ret (block_at ∷ []) (before h regs ret question) (omega arith) small
        ∙ sym (frame-ebp ret (block_at ∷ []) (before h regs ret question) (omega arith) small)

    m_block : arg 8 m ≡ block_at
    m_block =
        arg-frame ret (block_at ∷ []) (before h regs ret question) (omega arith) small 0 8
          (omega arith) (omega arith)
        ∙ omega arith

    m-IsCalled : Int2f.IsCalled h m
    m-IsCalled = record {
      at_frame = m_esp;
      room = omega (arith, m_ebp);
      no_wrap = omega (arith, m_ebp);
      block_small = omega (arith, m_block);
      apart = ground (arith, m_block, m_ebp);
      keeps_frame = answers.query_frame _;
      keeps_stack = answers.query_stack _;
      keeps_mem = answers.query_mem _;
    }

    -- A register of the block as the function finds it.
    m-word : (d : ℕ) → d + 4 ≤ 50 → word32 m.mem (block_at + d) ≡ word32 question.1 (block_at + d)
    m-word d l =
        word32-agree (block_at + d) question.1 m.mem
          (λ i b c. frame-apart ret (block_at ∷ []) (before h regs ret question) i (ground arith))

    m_regs : asked_regs (Int2f.asked h m) ≡ record {
      edi = r.edi % u32_mod;
      esi = r.esi % u32_mod;
      ebx = r.ebx % u32_mod;
      eax = r.eax % u32_mod;
      flags = 0;
      es = 0;
    }
    m_regs =
        let is = Int2f.asked-IsAsked h m m-IsCalled in
        let word : (d : ℕ)
            → d + 4 ≤ 50
            → word32 m.mem (Int2f.block_at h m + d) ≡ word32 question.1 (block_at + d) =
          λ d l. ap (λ b. word32 m.mem (b + d)) m_block ∙ m-word d l in
        let edi =
          is.in_edi
          ∙ ap (word32 m.mem) (omega (arith))
          ∙ word 0 (omega arith)
          ∙ ap (word32 question.1) (omega arith)
          ∙ block-edi block_at r s.1 in
        let esi = is.in_esi ∙ word 4 (omega arith) ∙ block-esi block_at r s.1 in
        let ebx = is.in_ebx ∙ word 16 (omega arith) ∙ block-ebx block_at r s.1 in
        let eax = is.in_eax ∙ word 28 (omega arith) ∙ block-eax block_at r s.1 in
        λ i. record { edi = edi i; esi = esi i; ebx = ebx i; eax = eax i; flags = 0; es = 0 }

    abbrev low : Lowmem (H × Bytes)
    low = coded h out regs ret block_at psp_sel_at

    coded-int2f : (answering out a regs.esp).int2f r s.0 ≡ ((low.int2f r s).0, (low.int2f r s).1.0)
    unfolding frame
    coded-int2f =
        let out_regs =
          ap (λ b. regs_at b (Int2f.result h m).mem) (sym m_block)
          ∙ (Int2f.int2f-regs_at h m m-IsCalled).1 in
        let host = Int2f.int2f-host h m m-IsCalled in
        ap (λ q. a.query q s.0) (sym m_regs) ∙ answers.query (Int2f.asked h m) ∙ λ i.
        (sym out_regs i, sym host i)

  module _ (sel off ax bx : ℕ) (s : H × Bytes) where
    abbrev args : List ℕ
    args = sel ∷ off ∷ ax ∷ bx ∷ []

    abbrev n : Machine H
    n = entered h regs ret args s

    n_ebp : n.ebp ≡ regs.esp - 24
    n_ebp = frame-ebp ret args (before h regs ret s) (omega arith) small ∙ omega arith

    n-arg : (i d : ℕ) → i < 4 → d ≡ 8 + 4 * i → arg d n ≡ byte_at args i % u32_mod
    n-arg i d l e = arg-frame ret args (before h regs ret s) (omega arith) small i d (omega arith) e

    n-IsCalled : Lcall.IsCalled h psp_sel_at n
    n-IsCalled = record {
      at_frame =
          frame-esp ret args (before h regs ret s) (omega arith) small
          ∙ sym (frame-ebp ret args (before h regs ret s) (omega arith) small);
      room = omega (arith, n_ebp);
      no_wrap = omega (arith, n_ebp);
      apart = ground (arith, n_ebp);
      keeps_frame = answers.enter_frame _ _ _;
      keeps_stack = answers.enter_stack _ _ _;
      keeps_mem = answers.enter_mem _ _ _;
    }

    coded-lcall : (answering out a regs.esp).lcall sel off ax bx s.0 ≡ (
      ((coded h out regs ret block_at psp_sel_at).lcall sel off ax bx s).0,
      ((coded h out regs ret block_at psp_sel_at).lcall sel off ax bx s).1.0,
    )
    unfolding frame
    coded-lcall =
        let (eax, psp_sel, host) = Lcall.lcall-run h psp_sel_at n n-IsCalled in
        let p8 : sel % u16_mod ≡ arg 8 n % u16_mod =
          omega (arith, n-arg 0 8 (omega arith) (omega arith)) in
        let p12 : off % u32_mod ≡ arg 12 n % u32_mod =
          omega (arith, n-arg 1 12 (omega arith) (omega arith)) in
        let p16 : ax % u32_mod ≡ arg 16 n = sym (n-arg 2 16 (omega arith) (omega arith)) in
        let p20 : bx % u32_mod ≡ arg 20 n = sym (n-arg 3 20 (omega arith) (omega arith)) in
        (λ i. a.enter (p8 i) (p12 i) (p16 i) (p20 i) s.0)
        ∙ answers.enter (arg 8 n % u16_mod) (arg 12 n % u32_mod) (Lcall.passed n)
        ∙ λ i. ((sym eax i, sym psp_sel i), sym host i)

  coded-Simulates :
      Simulates (λ s. s.0) (coded h out regs ret block_at psp_sel_at) (answering out a regs.esp)
  coded-Simulates = record {
    dpmi_int = λ n r s. refl;
    int2f = coded-int2f;
    lcall = coded-lcall;
    memmove = λ dst src n s. refl;
    psp = refl;
    esp = refl;
  }

  -- Let the host answer interrupt 0x2f and the call of its entry point as `a` says, and keep the
  -- stack and memory; let the stack have room for the frames of `int2f` and `lcall`, with the
  -- block of registers and `_psp_sel` apart from it. Then `dpmi_init` with the assembly of `int2f`
  -- and `lcall`, called through the stack, returns the same, and leaves the host in the same
  -- state, as `dpmi_init` that asks the host straight away, for every state of memory.
  pub dpmi_init-answers :
      (para psp_sel : ℕ) (host : H) (mem : Bytes)
      → forget
          (λ s. s.0)
          (dpmi_init (coded h out regs ret block_at psp_sel_at) para psp_sel (host, mem))
        ≡ dpmi_init (answering out a regs.esp) para psp_sel host
  dpmi_init-answers para psp_sel host mem =
      dpmi_init-forget (λ s. s.0) (coded h out regs ret block_at psp_sel_at)
        (answering out a regs.esp) coded-Simulates para psp_sel (host, mem)
