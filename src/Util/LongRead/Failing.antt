-- ===== src/Util/LongRead/Failing.antt =====
-- `_long_read` of src/util.c over a read that fails: `rd` is then (size_t)-1, which the loop takes
-- for a count.
use mathlib.Core.Path.{fun_ext}
use Prim.Native.Nat.{min}
use djstub.Base.{
  ℕ, zero, suc, ◌+◌, ◌-◌, ◌<◌, ◌≤◌, ◌≡◌, refl, sym, ap, ◌∙◌, true, some, Bytes, add32, sub32,
  u32_mod, minus_one, pos→==, le→ltb, arith,
}
use djstub.Run.{World, Host, ok, out_of_fuel, read, memcpy}
use djstub.Util.FarMem.{FarPtr, farmemcpy-run}
use djstub.Util.LongRead.{page_size, copy_chunk, long_read_loop}

memcpy-zero : (addr : ℕ) (src mem : Bytes) → memcpy addr src 0 mem ≡ mem
unfolding memcpy
memcpy-zero addr src mem = fun_ext λ a. rw (le→ltb (sub32 a addr) 0 (omega arith))

module _ (host : Host) (buf : FarPtr) (offset base : ℕ)
    (answer : host.segment_base buf.seg ≡ some base) (w : World)
    (fails : w.file.faulty w.file.pos ≡ true) where
  read-fails : (tmp : Bytes) (n : ℕ) → read tmp n w ≡ ok (minus_one, tmp) w
  unfolding read
  read-fails tmp n = rw fails

  -- A failing round leaves the state, adds 1 to the size and takes 1 from the count.
  failing_round :
      (k size done : ℕ) (tmp : Bytes)
      → 0 < size
      → size < u32_mod
      → long_read_loop host buf offset (suc k) tmp size done w
        ≡ long_read_loop host buf offset k tmp (add32 size 1) (add32 done minus_one) w
  unfolding long_read_loop copy_chunk
  failing_round k size done tmp pos small =
      let left : sub32 size minus_one ≡ add32 size 1 = omega arith in
      rw (pos→== size pos) (
        rw (read-fails tmp (min size page_size)) (
          rw left (
            rw (farmemcpy-run host buf base answer (add32 offset done) 0 tmp w refl)
              (rw (memcpy-zero _ tmp w.mem, le→ltb minus_one (min size page_size) (omega arith))))))

  -- Under the same conditions the loop uses up any fuel of at most that many rounds.
  pub long_read_loop-spins :
      (k size done : ℕ) (tmp : Bytes)
      → 0 < size
      → size + k ≤ u32_mod
      → long_read_loop host buf offset k tmp size done w ≡ out_of_fuel
  long_read_loop-spins zero size done tmp pos room = unfold long_read_loop in refl
  long_read_loop-spins (suc zero) size done tmp pos room =
      failing_round 0 size done tmp pos (omega arith) ∙ unfold long_read_loop in refl
  long_read_loop-spins (suc (suc k)) size done tmp pos room =
      let next : add32 size 1 ≡ size + 1 = omega arith in
      failing_round (suc k) size done tmp pos (omega arith)
      ∙ rw next (
          long_read_loop-spins (suc k) (size + 1) (add32 done minus_one) tmp (omega arith)
            (omega arith))

  stops :
      (k done : ℕ) (tmp : Bytes) → long_read_loop host buf offset (suc k) tmp 0 done w ≡ ok done w
  unfolding long_read_loop
  stops k done tmp = refl

  -- When it has, the loop returns, and the count has gone down by the number of rounds.
  wraps :
      (k size done : ℕ) (tmp : Bytes)
      → 0 < size
      → size + suc k ≡ u32_mod
      → long_read_loop host buf offset (suc (suc k)) tmp size done w ≡ ok (sub32 done (suc k)) w
  wraps zero size done tmp pos total =
      let zero_left : add32 size 1 ≡ 0 = omega arith in
      let count : add32 done minus_one ≡ sub32 done 1 = omega arith in
      failing_round 1 size done tmp pos (omega arith)
      ∙ rw (zero_left, count) (stops 0 (sub32 done 1) tmp)
  wraps (suc k) size done tmp pos total =
      let next : add32 size 1 ≡ size + 1 = omega arith in
      let count : sub32 (add32 done minus_one) (suc k) ≡ sub32 done (suc (suc k)) = omega arith in
      failing_round (suc (suc k)) size done tmp pos (omega arith)
      ∙ rw (next, ← count)
          (wraps k (size + 1) (add32 done minus_one) tmp (omega arith) (omega arith))

  -- Let the buffer's selector have a base and let the read at the file's position fail. Then the
  -- loop of `_long_read` for a positive size below 4 GiB returns that size as read after 2^32 less
  -- the size rounds, with one more for its end, and the state is as before.
  pub long_read_loop-wraps :
      (size : ℕ) (tmp : Bytes)
      → 0 < size
      → size < u32_mod
      → long_read_loop host buf offset (u32_mod - size + 1) tmp size 0 w ≡ ok size w
  long_read_loop-wraps size tmp pos small =
      let k : ℕ = u32_mod - size - 1 in
      let rounds : u32_mod - size + 1 ≡ suc (suc k) = omega arith in
      let count : size ≡ sub32 0 (suc k) = omega arith in
      rw rounds (wraps k size 0 tmp pos (omega arith) ∙ ap (λ n. ok n w) (sym count))
