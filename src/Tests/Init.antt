-- ===== src/Tests/Init.antt =====
-- A run of `dpmi_init` of src/util.c.
use djstub.Base.{◌+◌, ◌≤◌, ◌≡◌, refl, ◌∷◌, [], arith}
use djstub.Util.Init.{returned, exit_failure, zero_regs, dpmi_init}
use djstub.Util.Init.Pool.{query, interrupt, move, call, Answers, Agree, logged, dpmi_init-asked}

-- A host whose pool of 0x120 paragraphs is at segment 0x2000; the PSP is at segment 0x800.
abbrev pub answers : Answers
answers = record {
  to_query = record zero_regs { edi = 0x30; esi = 0x120; ebx = 0x403; eax = 0x2000; es = 0x1f0 };
  to_interrupt = λ ax. zero_regs;
  to_call = (2, 0xa7);
  psp = 0x8000;
  esp = 0x20_0000;
}

-- The host without 32 bits.
abbrev host16 : Answers
host16 = record answers { to_query = record zero_regs { ebx = 0x402 } }

host16_runs : dpmi_init (logged host16) 0x400 0 [] ≡ exit_failure
unfolding dpmi_init
host16_runs = refl

pub answers-Agree : Agree answers
answers-Agree = record {
  found = refl;
  for_32_bits = refl;
  has_pool = refl;
  resized = refl;
  entered = refl;
  freed = refl;
  stack = omega arith;
}

dpmi_init-asked_example :
    (dpmi_init (logged answers) 0x400 0 []
      ≡ returned
          (0, 0xa7)
          (interrupt 0x4900 0 0x2000
            ∷ call 0x1f0 0x30 0x1001 0xc10
            ∷ move 0xc100 0x2_0000 0x1200
            ∷ interrupt 0x4a00 0x530 0x800
            ∷ query
            ∷ []))
    × (0x8000 ≤ 0xc100)
    × (0xc100 + 0x1200 ≡ 0xd300)
dpmi_init-asked_example =
    dpmi_init-asked answers 0x400 0 [] answers-Agree (omega arith) (omega arith)
