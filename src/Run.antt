-- ===== src/Run.antt =====
-- The state of the stub while it loads an image, and commands over it: what src/*.c and the C
-- library calls in it (`read`, `lseek`, `malloc`, `memcpy`, `memset`, `exit`, `assert`) do.
pub mod Reads
pub mod Returns
use Prim.Native.Nat.{min}
use djstub.Base.{
  ℕ, ◌+◌, ◌-◌, ◌<◌, ◌≡◌, Bool, true, false, Option, Bytes, fill, from_index, ltb, leb, u32_mod,
  minus_one, sub32, if◌then◌else◌,
}

-- The open executable. A read that starts at a faulty position fails.
pub record File : Type 0 where
  pub content : Bytes
  pub size : ℕ
  pub pos : ℕ
  pub faulty : ℕ → Bool

-- `mem` is the linear memory, `scns` the static section table of coff.c as its bytes.
pub record World : Type 0 where
  pub file : File
  pub mem : Bytes
  pub scns : Bytes

-- What the stub does not decide: whether `malloc` of a size succeeds, the base address of a
-- selector (`none` where `dpmi_get_segment_base_address` returns -1), and what an automatic
-- buffer holds before it is written.
pub record Host : Type 0 where
  pub malloc_ok : ℕ → Bool
  pub segment_base : ℕ → Option ℕ
  pub stack : Bytes

-- `exit_failure` is `exit(EXIT_FAILURE)`, `abort` a failed `assert`.
pub data Run (A : Type 0) : Type 0 where
  ok : A → World → Run A
  exit_failure : Run A
  abort : Run A
  out_of_fuel : Run A

abbrev pub Cmd : Type 0 → Type 0
Cmd A = World → Run A

abbrev pub pure : {A : Type 0} → A → Cmd A
pure = ok

module _ {A B : Type 0} where
  abbrev pub and_then : Run A → (A → Cmd B) → Run B
  and_then (ok a w) k = k a w
  and_then exit_failure k = exit_failure
  and_then abort k = abort
  and_then out_of_fuel k = out_of_fuel

  infixl 5 ◌>>=◌ ◌>>◌
  abbrev pub ◌>>=◌ : Cmd A → (A → Cmd B) → Cmd B
  m >>= k = λ w. and_then (m w) k

  abbrev pub ◌>>◌ : Cmd A → Cmd B → Cmd B
  m >> n = m >>= λ _. n

abbrev pub exit : {A : Type 0} → Cmd A
exit w = exit_failure

-- `if (b) m;`
abbrev pub when : Bool → Cmd (Unit {0}) → Cmd (Unit {0})
when true m = m
when false m = pure tt

-- `assert(b)`
abbrev pub assert : Bool → Cmd (Unit {0})
assert true w = ok tt w
assert false w = abort

abbrev pub set_pos : ℕ → World → World
set_pos p w = record w { file = record w.file { pos = p } }

-- `read(ifile, buf, n)`: the count, -1 on an error, and the buffer after it.
unfoldable pub read : Bytes → ℕ → Cmd (ℕ × Bytes)
read buf n w =
    let f = w.file in
    let rd = min n (f.size - f.pos) in
    if f.faulty f.pos
    then ok (minus_one, buf) w
    else ok (rd, fill buf rd (from_index f.pos f.content)) (set_pos (f.pos + rd) w)

-- The largest offset that `off_t` holds is below this.
abbrev pub off_limit : ℕ
off_limit = 0x8000_0000

-- `lseek(ifile, x, SEEK_SET)`: a negative offset is refused, and the position stays.
unfoldable pub seek_set : ℕ → Cmd (Unit {0})
seek_set x w = ok tt (if ltb x off_limit then set_pos x w else w)

-- `lseek(ifile, d, SEEK_CUR)`, refused where the new position is no `off_t`.
unfoldable pub seek_cur : ℕ → Cmd (Unit {0})
seek_cur d w =
    let p = w.file.pos in
    ok tt (
      if ltb d off_limit
      then if ltb (p + d) off_limit then set_pos (p + d) w else w
      else if leb (u32_mod - d) p
      then set_pos (p - (u32_mod - d)) w
      else w)

-- `memcpy(addr, src, n)` and `memset(addr, val, n)` on the linear memory, whose addresses wrap.
unfoldable pub memcpy : ℕ → Bytes → ℕ → Bytes → Bytes
memcpy addr src n mem a = if ltb (sub32 a addr) n then src (sub32 a addr) else mem a

unfoldable pub memset : ℕ → ℕ → ℕ → Bytes → Bytes
memset addr val n mem a = if ltb (sub32 a addr) n then val else mem a
