-- ===== src/Util/LongRead.antt =====
-- `_long_read` of src/util.c: the chunked read from the executable into client memory.
pub mod Complete
pub mod Failing
use Prim.Native.Nat.{min}
use djstub.Base.{ℕ, zero, suc, ◌+◌, ◌/◌, ◌%◌, Bytes, add32, sub32, ◌==◌, ltb, if◌then◌else◌}
use djstub.Run.{Host, Cmd, out_of_fuel, pure, ◌>>=◌, ◌>>◌, read}
use djstub.Util.FarMem.{FarPtr, farmemcpy}

-- `PAGE_SIZE`, the size of the buffer on the stack.
abbrev pub page_size : ℕ
page_size = 4096

module _ (host : Host) (buf : FarPtr) (offset : ℕ) where
  -- `if (rd) { ... }`: the size that is left and the count that is done. A failed read has
  -- `rd` = (size_t)-1.
  unfoldable pub copy_chunk : (rd : ℕ) → Bytes → (size done : ℕ) → Cmd (ℕ × ℕ)
  copy_chunk rd tmp size done = if rd == 0 then pure (size, done) else do
    farmemcpy host buf (add32 offset done) tmp (add32 rd (rd % 2))
    pure (sub32 size rd, add32 done rd)

  -- `while (size)`; the bytes of `tmp` past a short read stay as they were.
  unfoldable pub long_read_loop : ℕ → Bytes → (size done : ℕ) → Cmd ℕ
  long_read_loop zero tmp size done = λ _. out_of_fuel
  long_read_loop (suc k) tmp size done = if size == 0 then pure done else do
    let todo = min size page_size
    (rd, tmp') ← read tmp todo
    (size', done') ← copy_chunk rd tmp' size done
    if ltb rd todo then pure done' else long_read_loop k tmp' size' done'

  -- A round moves a full page, or is the last.
  unfoldable pub long_read : ℕ → Cmd ℕ
  unfolding long_read_loop copy_chunk
  long_read size = long_read_loop (size / page_size + 2) host.stack size 0
