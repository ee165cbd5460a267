-- ===== src/Run/Reads.antt =====
-- How `read` and `lseek(…, SEEK_CUR)` behave on a file whose reads do not fail.
use Prim.Native.Nat.{min}
use native.Mathlib.Decide.{dec_lt}
use djstub.Base.{
  ℕ, ◌+◌, ◌-◌, ◌≤◌, ◌<◌, ◌≡◌, ap, false, Bytes, fill, from_index, ltb, arith, sub32, u32_mod,
  lt→ltb, le→ltb,
}
use djstub.Run.{File, World, ok, off_limit, set_pos, when, read, seek_cur}

-- No read of the file fails.
abbrev pub Sound : File → Type 0
Sound f = (p : ℕ) → f.faulty p ≡ false

module _ (buf : Bytes) (n : ℕ) (w : World) (sound : Sound w.file) where
  -- The buffer after `m` bytes.
  abbrev filled : ℕ → Bytes
  filled m = fill buf m (from_index w.file.pos w.file.content)

  read-run :
      let m = min n (w.file.size - w.file.pos) in
      read buf n w ≡ ok (m, filled m) (set_pos (w.file.pos + m) w)
  unfolding read
  read-run = rw (sound w.file.pos)

  -- A read that the file can serve in full.
  pub read-full :
      w.file.pos + n ≤ w.file.size → read buf n w ≡ ok (n, filled n) (set_pos (w.file.pos + n) w)
  read-full h =
      let m : min n (w.file.size - w.file.pos) ≡ n = omega arith in
      rw read-run (ap (λ (k : ℕ). ok (k, filled k) (set_pos (w.file.pos + k) w)) m)

  -- A read past the end gives fewer bytes.
  pub read-short :
      0 < n
      → w.file.size < w.file.pos + n
      → (m : ℕ) × (m < n) × (read buf n w ≡ ok (m, filled m) (set_pos (w.file.pos + m) w))
  read-short pos h = (min n (w.file.size - w.file.pos), omega arith, read-run)

seek_cur-run :
    (d : ℕ) (w : World)
    → w.file.pos + d < off_limit
    → seek_cur d w ≡ ok tt (set_pos (w.file.pos + d) w)
unfolding seek_cur
seek_cur-run d w h = rw (lt→ltb d off_limit (omega arith), lt→ltb (w.file.pos + d) off_limit h)

-- `if (from > base) lseek(ifile, from - base, SEEK_CUR);`
pub skip-run :
    (base from : ℕ) (w : World)
    → from < u32_mod
    → w.file.pos + (from - base) < off_limit
    → when (ltb base from) (seek_cur (sub32 from base)) w
      ≡ ok tt (set_pos (w.file.pos + (from - base)) w)
skip-run base from w small h = elim (dec_lt base from) [
  | yes l ↦
      let d : sub32 from base ≡ from - base = omega arith in
      rw (lt→ltb base from l, d) (seek_cur-run (from - base) w h)
  | no l ↦
      let e : w.file.pos ≡ w.file.pos + (from - base) = omega arith in
      rw (le→ltb base from (omega arith)) (ap (λ p. ok tt (set_pos p w)) e)
]
