-- ===== src/Tests/Coded.antt =====
-- A run of `dpmi_init` of src/util.c on the assembly of `int2f` and `lcall`.
use djstub.Base.{ℕ, ◌+◌, ◌≡◌, refl, inr, false, none, arith}
use djstub.Asm.{Machine, Interrupts}
use djstub.Util.Init.{zero_regs, dpmi_init}
use djstub.Util.Init.Simulates.{forget}
use djstub.Util.Init.Coded.{Outside, coded}
use djstub.Util.Init.Refines.{Answering, IsAnswering, answering, dpmi_init-answers}

-- The registers at a call, for a host that counts the interrupts of DOS.
abbrev registers : Machine ℕ
registers = record {
  eax = 0;
  ebx = 0;
  ecx = 0;
  edx = 0;
  esi = 0;
  edi = 0;
  ebp = 0x20_0000;
  esp = 0x20_0000;
  es = 0x87;
  ds = 0x87;
  fs = 0x13;
  gs = 0x1b;
  cf = false;
  zf = false;
  other_flags = 0x3202;
  mem = λ i. 0xee;
  host = 0;
}

-- The host of 32 bits has a pool of 0x120 paragraphs at segment 0x2000.
abbrev pool_host : Interrupts ℕ
pool_host = record {
  call = λ n m. record m {
    edi = 0x30;
    esi = 0x120;
    ebx = 0x403;
    eax = 0x2000;
    es = 0x1f0;
    cf = false;
    zf = false;
    other_flags = 2;
  };
  far = λ sel off m. record m { es = 0xa7; cf = false; zf = false; other_flags = 2 };
  segment_limit = λ sel. none;
  access_rights = λ sel. none;
}

abbrev pool_answers : Answering ℕ
pool_answers = record {
  query = λ r s. (
    record zero_regs { edi = 0x30; esi = 0x120; ebx = 0x403; eax = 0x2000; flags = 2; es = 0x1f0 },
    s,
  );
  enter = λ sel off ax bx s. ((2, 0xa7), s);
}

abbrev dos : Outside ℕ
dos = record { dpmi_int = λ n r s. (zero_regs, s + 1); psp = 0x8000 }

pool_answers-IsAnswering : IsAnswering pool_host pool_answers
pool_answers-IsAnswering = record {
  query = λ m. refl;
  query_frame = λ m. refl;
  query_stack = λ m. refl;
  query_mem = λ m. refl;
  enter = λ sel off m. refl;
  enter_frame = λ sel off m. refl;
  enter_stack = λ sel off m. refl;
  enter_mem = λ sel off m. refl;
}

dpmi_init-answers_example :
    forget
      (λ s. s.0)
      (dpmi_init
        (coded pool_host dos registers 0x8_0000 0x20_0100 0x30_0000)
        0x400
        0
        (0, λ i. 0xee))
    ≡ dpmi_init (answering dos pool_answers 0x20_0000) 0x400 0 0
dpmi_init-answers_example =
    dpmi_init-answers pool_host dos pool_answers registers 0x8_0000 0x20_0100 0x30_0000
      pool_answers-IsAnswering (omega arith) (omega arith) (omega arith) (inr (omega arith))
      (inr (omega arith)) 0x400 0 0 (λ i. 0xee)
