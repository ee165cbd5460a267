-- ===== src/Util/FarMem.antt =====
-- `farmemcpy` and `farmemset` of src/util.c (the build without __GNUC__, which the Makefile makes),
-- and the far pointers of src/util.h.
use djstub.Base.{
  ℕ, ◌+◌, ◌-◌, ◌%◌, ◌≤◌, ◌<◌, ◌≡◌, refl, none, some, Bytes, add32, u32_mod, sub32, ◌==◌, arith,
  lt→ltb, le→ltb,
}
use djstub.Run.{World, Host, Cmd, ok, abort, assert, ◌>>=◌, ◌>>◌, memcpy, memset}

-- `char_far`
pub record FarPtr : Type 0 where
  pub off : ℕ
  pub seg : ℕ

-- `rc = dpmi_get_segment_base_address(seg, &base); assert(rc != -1);`
unfoldable pub get_base : Host → ℕ → Cmd ℕ
get_base host seg w = elim (host.segment_base seg) [ none ↦ abort | some b ↦ ok b w ]

-- `length & 1` is the lowest bit.
unfoldable pub farmemcpy : Host → FarPtr → ℕ → Bytes → ℕ → Cmd (Unit {0})
unfolding get_base
farmemcpy host ptr offset src length = do
  assert (length % 2 == 0)
  base ← get_base host ptr.seg
  let dest = add32 (add32 base ptr.off) offset
  λ w. ok tt (record w { mem = memcpy dest src length w.mem })

unfoldable pub farmemset : Host → FarPtr → ℕ → ℕ → ℕ → Cmd (Unit {0})
unfolding get_base
farmemset host ptr offset val size = do
  assert (size % 2 == 0)
  base ← get_base host ptr.seg
  let dest = add32 (add32 base ptr.off) offset
  λ w. ok tt (record w { mem = memset dest val size w.mem })

-- The linear address of offset `x` behind a far pointer with linear address `b`.
abbrev pub lin : ℕ → ℕ → ℕ
lin b x = (b + x) % u32_mod

-- How far apart two linear addresses are, whatever their common base.
sub32-lin_below : (b o n x : ℕ) → o + n ≤ u32_mod → x < o → n ≤ sub32 (lin b x) (lin b o)
sub32-lin_below b o n x fits h = omega arith

sub32-lin_of_le : (b o x : ℕ) → x < u32_mod → o ≤ x → sub32 (lin b x) (lin b o) ≡ x - o
sub32-lin_of_le b o x hx h = omega arith

-- What a copy leaves at an offset, read in order of the offset.
module _ (b o n : ℕ) (mem : Bytes) (x : ℕ) where
  pub memcpy-inside :
      (src : Bytes)
      → x < u32_mod
      → o ≤ x
      → x < o + n
      → memcpy (lin b o) src n mem (lin b x) ≡ src (x - o)
  unfolding memcpy
  memcpy-inside src hx h k = rw (sub32-lin_of_le b o x hx h, lt→ltb (x - o) n (omega arith))

  pub memcpy-below :
      (src : Bytes) → o + n ≤ u32_mod → x < o → memcpy (lin b o) src n mem (lin b x) ≡ mem (lin b x)
  unfolding memcpy
  memcpy-below src fits h =
      rw (le→ltb (sub32 (lin b x) (lin b o)) n (sub32-lin_below b o n x fits h))

  pub memcpy-above :
      (src : Bytes) → x < u32_mod → o + n ≤ x → memcpy (lin b o) src n mem (lin b x) ≡ mem (lin b x)
  unfolding memcpy
  memcpy-above src hx h =
      rw (sub32-lin_of_le b o x hx (omega arith), le→ltb (x - o) n (omega arith))

memset-eq-memcpy :
    (addr val n : ℕ) (mem : Bytes) → memset addr val n mem ≡ memcpy addr (λ _. val) n mem
unfolding memset memcpy
memset-eq-memcpy addr val n mem = refl

module _ (b o n : ℕ) (mem : Bytes) (x val : ℕ) where
  pub memset-inside : x < u32_mod → o ≤ x → x < o + n → memset (lin b o) val n mem (lin b x) ≡ val
  memset-inside hx h k = rw memset-eq-memcpy (memcpy-inside b o n mem x (λ _. val) hx h k)

  pub memset-below : o + n ≤ u32_mod → x < o → memset (lin b o) val n mem (lin b x) ≡ mem (lin b x)
  memset-below fits h = rw memset-eq-memcpy (memcpy-below b o n mem x (λ _. val) fits h)

  pub memset-above : x < u32_mod → o + n ≤ x → memset (lin b o) val n mem (lin b x) ≡ mem (lin b x)
  memset-above hx h = rw memset-eq-memcpy (memcpy-above b o n mem x (λ _. val) hx h)

-- Both commands on an even count, where the host knows the selector.
module _ (host : Host) (ptr : FarPtr) (base : ℕ)
    (answer : host.segment_base ptr.seg ≡ some base) where
  pub farmemcpy-run :
      (offset n : ℕ) (src : Bytes) (w : World)
      → n % 2 ≡ 0
      → farmemcpy host ptr offset src n w
        ≡ ok tt (record w { mem = memcpy (lin (add32 base ptr.off) offset) src n w.mem })
  unfolding farmemcpy
  farmemcpy-run offset n src w even = ground arith

  pub farmemset-run :
      (offset val n : ℕ) (w : World)
      → n % 2 ≡ 0
      → farmemset host ptr offset val n w
        ≡ ok tt (record w { mem = memset (lin (add32 base ptr.off) offset) val n w.mem })
  unfolding farmemset
  farmemset-run offset val n w even = ground arith
