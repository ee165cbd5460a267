-- ===== src/Tests/Dpmi.antt =====
-- Runs of the wrappers of src/dpmi.c.
use djstub.Base.{◌%◌, ◌≡◌, refl, true, false, none, ◌∷◌, [], Bytes, AreBytes, word32, arith}
use djstub.Asm.{Machine, Interrupts, run, arg}
use djstub.Asm.Memory.{store16}
use djstub.Dpmi.Calls.{code_of, request, finish, free_memory, set_segment_limit, code_of-request}
use djstub.Dpmi.Memory.{dpmi_allocate_memory, dpmi_allocate_dos_memory}
use djstub.Dpmi.Results.{dpmi_allocate_dos_memory-word}
use djstub.Tests.Sample.{at_offsets}

abbrev machine : Bytes → Machine (Unit {0})
machine mem = record {
  eax = 0;
  ebx = 0;
  ecx = 0;
  edx = 0;
  esi = 0;
  edi = 0;
  ebp = 0x1000;
  esp = 0xff0;
  es = 0x87;
  ds = 0x87;
  fs = 0;
  gs = 0;
  cf = false;
  zf = false;
  other_flags = 0x3202;
  host = tt;
  mem = mem;
}

-- A service that answers in registers, with the upper half of edx left over.
abbrev services : Interrupts (Unit {0})
services = record {
  call = λ n m. record m {
    eax = 0;
    ebx = 0x12;
    ecx = 0x3400;
    edx = 0xabcd_0097;
    esi = 1;
    edi = 2;
    cf = false;
  };
  far = λ sel off m. m;
  segment_limit = λ sel. none;
  access_rights = λ sel. none;
}

-- A service that fails.
abbrev failing : Interrupts (Unit {0})
failing = record services { call = λ n m. record m { eax = 0x8011; cf = true } }

abbrev counting_mem : Bytes
counting_mem i = i % 0x100

counting-AreBytes : AreBytes counting_mem
counting-AreBytes i = omega arith

-- The pointers at 0x100c and 0x1010 are to 0x2000 and 0x3000.
abbrev pointers : Machine (Unit {0})
pointers = machine (at_offsets ((0x100d, 0x20) ∷ (0x1011, 0x30) ∷ []))

free_memory-failed : (run failing (code_of free_memory) (machine counting_mem)).eax ≡ 0xffff_ffff
unfolding run code_of
free_memory-failed = refl

allocate_memory-address : word32 (run services dpmi_allocate_memory pointers).mem 0x2000 ≡ 0x12_3400
unfolding run dpmi_allocate_memory word32 store16
allocate_memory-address = refl

code_of-request_example :
    run services (code_of set_segment_limit) (machine counting_mem)
    ≡ finish (
        services.call 0x31
          (request set_segment_limit 0x0b0a_0908 0x0f0e_0d0c (machine counting_mem)))
code_of-request_example =
    code_of-request services (machine counting_mem) counting-AreBytes (omega arith)
      set_segment_limit

dpmi_allocate_dos_memory-word_example :
    word32 (run services dpmi_allocate_dos_memory pointers).mem 0x2000 ≡ 0xabcd_0097
unfolding word32
dpmi_allocate_dos_memory-word_example =
    dpmi_allocate_dos_memory-word services pointers (omega arith)

-- The arguments of a call whose second is the address 0x20000 of the result.
abbrev base_call : Machine (Unit {0})
base_call = machine (at_offsets ((0x1008, 0x97) ∷ (0x100e, 2) ∷ []))

base_call-pointer : arg 12 base_call ≡ 0x2_0000
unfolding word32
base_call-pointer = refl
