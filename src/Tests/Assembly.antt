-- ===== src/Tests/Assembly.antt =====
-- Runs of the assembly of src/util.c and src/ministub.c.
use djstub.Base.{◌≡◌, refl, inl, inr, false, none, [], ◌∷◌, Bytes, word16, word32, arith}
use djstub.Asm.{Machine, Interrupts, run}
use djstub.Asm.Frame.{frame}
use djstub.Asm.Memory.{store16, store32}
use djstub.Util.Lcall as Lcall
use djstub.Util.Int2f as Int2f
use djstub.Ministub.Assembly.{dpmi_query_extension, enter_stub}
use djstub.Ministub.Enter.{StubCall, IsPassed, words, leave, enter_stub-IsPassed}
use djstub.Ministub.Query as Query
use djstub.Ministub.Query.{dpmi_query_extension-Answered}
use djstub.Tests.Sample.{at_offsets}

-- A frame at 0x11000 with the three arguments 0x20000, 0x20010 and 0x20020, or 0x97, 0x1230, 0x1001
-- and 0x200.
abbrev machine : Bytes → Machine (Unit {0})
machine mem = record {
  eax = 0;
  ebx = 0;
  ecx = 0;
  edx = 0;
  esi = 0;
  edi = 0;
  ebp = 0x1_1000;
  esp = 0x1_1000;
  es = 0x87;
  ds = 0x87;
  fs = 0x13;
  gs = 0x1b;
  cf = false;
  zf = false;
  other_flags = 0x3202;
  mem = mem;
  host = tt;
}

abbrev pointers : Machine (Unit {0})
pointers = machine (
    at_offsets
      ((0x1_100a, 2) ∷ (0x1_100e, 2) ∷ (0x1_100c, 0x10) ∷ (0x1_1012, 2) ∷ (0x1_1010, 0x20) ∷ []))

abbrev numbers : Machine (Unit {0})
numbers = machine (
    at_offsets (
      (0x1_1008, 0x97)
      ∷ (0x1_100c, 0x30)
      ∷ (0x1_100d, 0x12)
      ∷ (0x1_1010, 1)
      ∷ (0x1_1011, 0x10)
      ∷ (0x1_1015, 2)
      ∷ []))

-- Interrupts and far procedures that change registers only.
abbrev helpful : Interrupts (Unit {0})
helpful = record {
  call = λ n m. record m { eax = 0x1600; es = 0xaf; edi = 0x1_2345; cf = false };
  far = λ sel off m. record m { eax = 0; es = 0xaf; cf = false };
  segment_limit = λ sel. none;
  access_rights = λ sel. none;
}

abbrev unhelpful : Interrupts (Unit {0})
unhelpful = record helpful { call = λ n m. record m { eax = 0x168a } }

unknown_runs : (run unhelpful dpmi_query_extension pointers).eax ≡ 0x168a
unfolding run dpmi_query_extension word32 word16 store16 store32
unknown_runs = refl

query-IsCalled : Query.IsCalled helpful pointers
unfolding word32
query-IsCalled = record {
  at_frame = refl;
  room = omega arith;
  no_wrap = omega arith;
  keeps_frame = refl;
  keeps_stack = refl;
  keeps_mem = refl;
}

query-AreApart : Query.AreApart helpful pointers
unfolding word32
query-AreApart = record {
  sel_small = omega arith;
  off_small = omega arith;
  sel_frame = inr (omega arith);
  off_frame = inr (omega arith);
  sel_off = inl (omega arith);
}

dpmi_query_extension-Answered_example : Query.Answered helpful pointers
dpmi_query_extension-Answered_example =
    dpmi_query_extension-Answered helpful pointers query-IsCalled query-AreApart

-- A call of the loader.
abbrev sample_call : StubCall
sample_call = record {
  sel = 0x97;
  off = 0x1230;
  argc = 1;
  argv = 0x3_0000;
  envc = 2;
  envp = 0x3_0010;
  psp = 0xa7;
  fd = 5;
  ver = 0x905;
}

enter_stub-IsPassed_example :
    (r : Machine (Unit {0})) × IsPassed sample_call r
    × (r.host ≡ tt)
    × (run helpful enter_stub (frame 0x8_0000 (words sample_call) pointers)
        ≡ leave helpful (helpful.far 0x97 0x1230 r))
enter_stub-IsPassed_example =
    enter_stub-IsPassed helpful sample_call 0x8_0000 pointers (omega arith) (omega arith)

lcall-IsCalled : Lcall.IsCalled helpful 0x4_0000 numbers
unfolding word32
lcall-IsCalled = record {
  at_frame = refl;
  room = omega arith;
  no_wrap = omega arith;
  apart = inr (omega arith);
  keeps_frame = refl;
  keeps_stack = refl;
  keeps_mem = refl;
}

int2f-IsCalled : Int2f.IsCalled helpful pointers
unfolding word32
int2f-IsCalled = record {
  at_frame = refl;
  room = omega arith;
  no_wrap = omega arith;
  block_small = omega arith;
  apart = inr (omega arith);
  keeps_frame = refl;
  keeps_stack = refl;
  keeps_mem = refl;
}
