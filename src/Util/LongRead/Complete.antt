-- ===== src/Util/LongRead/Complete.antt =====
-- Where the file has the bytes and no read fails, `_long_read` of src/util.c transfers them all.
use Prim.Native.Nat.{min}
use djstub.Base.{
  ℕ, zero, suc, ◌+◌, ◌-◌, ◌*◌, ◌/◌, ◌%◌, ◌≤◌, ◌<◌, ◌≡◌, refl, subst, ◌∙◌, inl, inr, some, ◌⊎◌,
  Bytes, fill, from_index, add32, sub32, u32_mod, pos→==, arith, le→ltb,
}
use djstub.Run.{World, Host, ok, set_pos, memcpy}
use djstub.Run.Reads.{Sound, read-full}
use djstub.Run.Returns.{Returns, returns, mono}
use djstub.Util.FarMem.{FarPtr, lin, farmemcpy-run, memcpy-inside, memcpy-below, memcpy-above}
use djstub.Util.LongRead.{page_size, copy_chunk, long_read_loop, long_read}
use djstub.Util.Transfer.{Transfer, Transfer-append, Transfer-zero}

module _ (host : Host) (buf : FarPtr) (offset base : ℕ)
    (answer : host.segment_base buf.seg ≡ some base) where
  -- The linear address of the far pointer, and the state after a chunk.
  abbrev b : ℕ
  b = add32 base buf.off

  abbrev chunk_buffer : Bytes → ℕ → World → Bytes
  chunk_buffer tmp n w = fill tmp n (from_index w.file.pos w.file.content)

  abbrev after_chunk : Bytes → ℕ → ℕ → World → World
  after_chunk tmp n done w = record (set_pos (w.file.pos + n) w) {
    mem = memcpy (lin b (offset + done)) (chunk_buffer tmp n w) (n + n % 2) w.mem;
  }

  copy_chunk-run :
      (n size done : ℕ) (tmp : Bytes) (w : World)
      → 0 < n
      → n ≤ size
      → offset + done + size + 1 < u32_mod
      → copy_chunk host buf offset n tmp size done w
        ≡ ok
            (size - n, done + n)
            (record w { mem = memcpy (lin b (offset + done)) tmp (n + n % 2) w.mem })
  unfolding copy_chunk
  copy_chunk-run n size done tmp w pos fits room =
      let padded : add32 n (n % 2) ≡ n + n % 2 = omega arith in
      let dest : add32 offset done ≡ offset + done = omega arith in
      let left : sub32 size n ≡ size - n = omega arith in
      let total : add32 done n ≡ done + n = omega arith in
      rw (pos→== n pos, padded, dest, left, total)
        (rw (farmemcpy-run host buf base answer (offset + done) (n + n % 2) tmp w (omega arith)))

  -- A round that the file can serve in full, and that is not the last.
  round :
      (k n size done : ℕ) (tmp : Bytes) (w : World)
      → 0 < size
      → offset + done + size + 1 < u32_mod
      → n ≡ min size page_size
      → Sound w.file
      → w.file.pos + n ≤ w.file.size
      → long_read_loop host buf offset (suc k) tmp size done w
        ≡ long_read_loop host buf offset k
            (chunk_buffer tmp n w)
            (size - n)
            (done + n)
            (after_chunk tmp n done w)
  unfolding long_read_loop
  round k n size done tmp w pos room e sound avail =
      rw (pos→== size pos, ← e)
        (rw (read-full tmp n w sound avail) (
          rw (
            copy_chunk-run n size done (chunk_buffer tmp n w) (set_pos (w.file.pos + n) w)
                (omega arith) (omega arith) room,
            le→ltb n n (omega arith),
          )))

  after_chunk-Transfer :
      (n done : ℕ) (tmp : Bytes) (w : World)
      → offset + done + n + n % 2 ≤ u32_mod
      → Transfer b (offset + done) n w (after_chunk tmp n done w)
  after_chunk-Transfer n done tmp w fits = record {
    file = refl;
    scns = refl;
    inside = λ i h.
        memcpy-inside b (offset + done) (n + n % 2) w.mem (offset + done + i) (chunk_buffer tmp n w)
          (omega arith) (omega arith) (omega arith)
        ∙ ground arith;
    outside = outside;
  }
    where
      outside :
          (x : ℕ)
          → x < u32_mod
          → (x < offset + done) ⊎ (offset + done + n + n % 2 ≤ x)
          → (after_chunk tmp n done w).mem (lin b x) ≡ w.mem (lin b x)
      outside x hx (inl h) =
          memcpy-below b (offset + done) (n + n % 2) w.mem x (chunk_buffer tmp n w) (omega arith) h
      outside x hx (inr h) =
          memcpy-above b (offset + done) (n + n % 2) w.mem x (chunk_buffer tmp n w) hx (omega arith)

  -- A chunk and what follows it make one transfer.
  chunk-then :
      (n rest done : ℕ) (tmp : Bytes) (w w' : World)
      → (n % 2 ≡ 0) ⊎ (rest ≡ 0)
      → offset + done + (n + rest) + 1 < u32_mod
      → Transfer b (offset + (done + n)) rest (after_chunk tmp n done w) w'
      → Transfer b (offset + done) (n + rest) w w'
  chunk-then n rest done tmp w w' even room t =
      Transfer-append b (offset + done) n rest (after_chunk-Transfer n done tmp w (omega arith))
        (subst (λ o. Transfer b o rest (after_chunk tmp n done w) w') (omega arith) t) even
        (omega arith)

  -- All rounds: `k` of them are enough for `size` bytes.
  abbrev Moved : ℕ → ℕ → World → ℕ → World → Type 0
  Moved size done w n w' = (n ≡ done + size) × Transfer b (offset + done) size w w'

  long_read_loop-Moved :
      (k size done : ℕ) (tmp : Bytes) (w : World)
      → size ≤ page_size * k
      → offset + done + size + 1 < u32_mod
      → Sound w.file
      → w.file.pos + size ≤ w.file.size
      → Returns (Moved size done w) (long_read_loop host buf offset (suc k) tmp size done w)
  unfolding long_read_loop
  long_read_loop-Moved k zero done tmp w fuel room sound avail =
      returns (omega arith, Transfer-zero b (offset + done) w)
  long_read_loop-Moved zero (suc size) done tmp w fuel room sound avail = absurd (omega arith)
  long_read_loop-Moved (suc k) (suc size) done tmp w fuel room sound avail =
      let n : ℕ = min (suc size) page_size in
      let w₁ : World = after_chunk tmp n done w in
      let rest =
        long_read_loop-Moved k (suc size - n) (done + n) (chunk_buffer tmp n w) w₁ (omega arith)
          (omega arith) sound (omega arith) in
      let whole : n + (suc size - n) ≡ suc size = omega arith in
      rw (round (suc k) n (suc size) done tmp w (omega arith) room refl sound (omega arith)) (
        mono rest λ a w' p. (
          omega (arith, p.0),
          subst (λ m. Transfer b (offset + done) m w w') whole
              (chunk-then n (suc size - n) done tmp w w' (omega arith) (omega arith) p.1),
        ))

  -- Let no read fail, let the file hold `size` bytes from its position on, let the buffer's
  -- selector have a base and let the offset plus the size and a byte of padding stay below 4 GiB.
  -- Then `_long_read` returns the size within its fuel; the bytes of the file stand at the offset
  -- behind the far pointer, no other offset has changed but the one that pads an odd size, and the
  -- position has moved by the size.
  pub long_read-Transfer :
      (size : ℕ) (w : World)
      → offset + size + 1 < u32_mod
      → Sound w.file
      → w.file.pos + size ≤ w.file.size
      → Returns
          (λ n w'. (n ≡ size) × Transfer b offset size w w')
          (long_read host buf offset size w)
  unfolding long_read
  long_read-Transfer size w room sound avail =
      let fuel : size / page_size + 2 ≡ suc (size / page_size + 1) = omega arith in
      let start : offset + 0 ≡ offset = omega arith in
      rw fuel (
        mono
          (long_read_loop-Moved (size / page_size + 1) size 0 host.stack w (omega arith)
            (omega arith) sound avail)
          λ n w' p. (omega (arith, p.0), subst (λ o. Transfer b o size w w') start p.1))
