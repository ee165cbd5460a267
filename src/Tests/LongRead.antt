-- ===== src/Tests/LongRead.antt =====
-- `_long_read` of src/util.c at concrete inputs.
use djstub.Base.{◌≡◌, refl, ◌+◌, ◌-◌, u32_mod, arith}
use djstub.Run.{ok}
use djstub.Run.Returns.{Returns}
use djstub.Util.Transfer.{Transfer}
use djstub.Util.LongRead.{long_read, long_read_loop}
use djstub.Util.LongRead.Complete.{long_read-Transfer}
use djstub.Util.LongRead.Failing.{long_read_loop-wraps}
use djstub.Tests.Sample.{host, ptr, world, counting, broken}

-- Two rounds, the second of an odd count.
long_read-Transfer_example :
    Returns
      (λ n w'. (n ≡ 5001) × Transfer 0xffff_f000 0x800 5001 (world (counting 6000 10)) w')
      (long_read host ptr 0x800 5001 (world (counting 6000 10)))
long_read-Transfer_example =
    long_read-Transfer host ptr 0x800 0xffff_f000 refl 5001 (world (counting 6000 10)) (omega arith)
      (λ p. refl) (omega arith)

long_read_loop-wraps_example :
    long_read_loop host ptr 0x800 (u32_mod - 5 + 1) host.stack 5 0 (world broken)
    ≡ ok 5 (world broken)
long_read_loop-wraps_example =
    long_read_loop-wraps host ptr 0x800 0xffff_f000 refl (world broken) refl 5 host.stack
      (omega arith) (omega arith)
