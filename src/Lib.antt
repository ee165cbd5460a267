-- ===== src/Lib.antt =====
-- A verification library for djstub, the go32-compatible loader stub that finds a COFF or ELF
-- executable behind its own header, loads it into DPMI memory and starts it.
--
-- The program's parts and their modules:
--
--   src/util.c, src/util.h         Util: far memory (Util.FarMem) and the chunked read of the
--                                  executable into client memory (Util.LongRead); the switch to
--                                  protected mode and the low memory (Util.Init), with the
--                                  assembly that it calls (Util.Assembly, Util.Lcall, Util.Int2f)
--   src/elf.c, src/elf.h           Elf: the ELF structures, `read_elf_headers` and
--                                  `read_elf_sections`
--   src/coff.c                     Coff: the COFF structures, `read_coff_headers` and
--                                  `read_coff_sections`
--   src/stub.c, src/stub.h,        Stub: `fullstub`: the choice of the file (Stub.Source), the
--   src/stubinfo.h                 search for the executable in it (Stub.Scan), what it
--                                  writes to `stubinfo` (Stub.Info, with its layout in memory in
--                                  Stub.Info.Layout), the descriptors and
--                                  memory of the client (Stub.Client), the interface of the
--                                  loaders (Stub.Loader), the switch behind the set-up
--                                  (Stub.Main.Switch), and all of it together (Stub.Main)
--   src/dpmi.c                     Dpmi: each wrapper of a DPMI service as the list of its
--                                  instructions, over the register machine of Asm
--   src/ministub.c                 Ministub: the table of the environment that `main` makes, which
--                                  loader it starts (Ministub.Main), and the assembly that asks
--                                  for and enters that of the DPMI host (Ministub.Assembly)
--   djstubify2.py                  Djstubify: the header and the files that -g writes, the table of
--                                  types (Djstubify.Find), `coff2exe` (Djstubify.Convert) and the
--                                  options of `main` (Djstubify.Options)
--
-- Base has the shared notation, machine words and byte buffers, Run the state and the commands
-- over it, Libc the C text functions, Tests the runs at concrete inputs.
--
-- State. A `World` is the open executable (content, size, position), the linear memory and the
-- static section table of coff.c. A command takes a world to a `Run`: it returns, it exits with
-- EXIT_FAILURE, an assertion aborts it, or its fuel is used up. `Host` holds what the stub does
-- not decide: whether `malloc` succeeds, the base of a selector, the garbage on the stack. Words
-- are native numbers with their wrap-around written out, and a signed integer is its bit pattern;
-- `int`, `long` and pointers have 32 bits, as in the compiler that src/Makefile calls.
--
-- Fuel. `_long_read` is given a round for every page and two more, which Util.LongRead.Complete
-- shows to be enough where no read fails. The search of `fullstub` has its fuel as an argument;
-- Stub.Scan.Ends says how much is enough, and when no amount is. So have the loops over the
-- environment in src/ministub.c, for which the offset of the end of the block is enough
-- (Ministub.Table). The loops over the type map in djstubify2.py have a fuel of 5: the map has 16
-- bits, of which a round takes 4. The walk and the copy of `coff2exe` have theirs as arguments.
--
-- The interrupts and far procedures of Asm, the low memory of Util.Init, the services of
-- Stub.Client and the system of Stub.Main are parameters: what DOS and the DPMI server do is not in
-- the repository. Stub.Client.Selectors says which laws of the services the set-up of the client
-- relies on. Stub.Wrapped makes these services of the code of src/dpmi.c, called with its arguments
-- on the stack (Asm.Frame), and Stub.Wrapped.Specification has what the wrappers rely on interrupt
-- 0x31 for; the tests have a host that does it. In the same way Stub.Loader.Loads says what
-- `fullstub` relies on a loader for.
--
-- Not modelled: the branches for __GNUC__, which src/Makefile does not build; messages; what
-- djstubify2.py shows with -i; elf.py and the shell scripts beside the stub; the functions of
-- src/dpmi.c under `#if 0`; the copy of argv[0] in src/ministub.c. The loaders take what
-- `dpmi_get_segment_base_address` finds from `Host`. `dpmi_init` takes `int2f` and `lcall` from
-- its parameter, which Util.Init.Coded makes of their code; there the host is to leave memory as
-- it is. In the same way `main` of src/ministub.c takes `DPMIQueryExtension` and `enter_stub` from a
-- `Launcher`, which Ministub.Main.Coded makes of their code, and `fullstub`, which is modelled in
-- Stub.Main on a state of its own. In Stub.Main the stack and the low memory are part of the state of the system, apart from
-- the memory that the image is loaded into. Of the flags that arithmetic sets, Asm follows carry
-- and zero.
pub mod Base
pub mod Djstubify
pub mod Run
pub mod Util
pub mod Elf
pub mod Coff
pub mod Libc
pub mod Stub
mod Tests
pub mod Asm
pub mod Dpmi
pub mod Ministub
