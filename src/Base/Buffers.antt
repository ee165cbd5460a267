-- ===== src/Base/Buffers.antt =====
-- A `char` buffer is the function from an index to the byte there; a structure that the source
-- reads by `read(fd, &s, sizeof(s))` is decoded from such a buffer, lowest byte first.
use Prim.Native.Nat.{ℕ, zero, suc, ◌+◌, ◌*◌, ◌<◌, ◌≤◌}
use mathlib.Core.List.{List, [], ◌∷◌}
use native.Mathlib.Omega.{arith}
use native.Mathlib.Decide.{dec_lt}
use mathlib.Core.Path.{◌≡◌, fun_ext}
use djstub.Base.Tests.{ltb, lt→ltb, le→ltb, if◌then◌else◌}

abbrev pub Bytes : Type 0
Bytes = ℕ → ℕ

abbrev pub byte_at : List ℕ → Bytes
byte_at [] i = 0
byte_at (x ∷ xs) zero = x
byte_at (x ∷ xs) (suc i) = byte_at xs i

abbrev pub length {ℓ} : {A : Type ℓ} → List A → ℕ
length [] = 0
length (x ∷ xs) = suc (length xs)

-- The buffer whose first `n` bytes are replaced by those of `src`.
abbrev pub fill : Bytes → ℕ → Bytes → Bytes
fill buf n src i = if ltb i n then src i else buf i

-- The array of the first `n` bytes.
abbrev pub first : ℕ → Bytes → Bytes
first n buf i = if ltb i n then buf i else 0

-- The buffer as seen from an index on.
abbrev pub from_index : ℕ → Bytes → Bytes
from_index k buf i = buf (k + i)

unfoldable pub word16 : Bytes → ℕ → ℕ
word16 buf i = buf i + 0x100 * buf (i + 1)

unfoldable pub word32 : Bytes → ℕ → ℕ
word32 buf i = buf i + 0x100 * buf (i + 1) + 0x1_0000 * buf (i + 2) + 0x100_0000 * buf (i + 3)

-- Every entry is a byte.
abbrev pub AreBytes : Bytes → Type 0
AreBytes buf = (i : ℕ) → buf i < 0x100

pub word32-lt : (buf : Bytes) (i : ℕ) → AreBytes buf → word32 buf i < 0x1_0000_0000
unfolding word32
word32-lt buf i h = omega (arith, h i, h (i + 1), h (i + 2), h (i + 3))

pub word16-lt : (buf : Bytes) (i : ℕ) → AreBytes buf → word16 buf i < 0x1_0000
unfolding word16
word16-lt buf i h = omega (arith, h i, h (i + 1))

-- Two buffers that agree below a bound.
abbrev pub Agree : ℕ → Bytes → Bytes → Type 0
Agree n b c = (i : ℕ) → i < n → b i ≡ c i

pub word32-cong : {n : ℕ} (b c : Bytes) (i : ℕ) → Agree n b c → i + 3 < n → word32 b i ≡ word32 c i
unfolding word32
word32-cong b c i h l = omega (
  arith,
  h i (omega arith),
  h (i + 1) (omega arith),
  h (i + 2) (omega arith),
  h (i + 3) (omega arith),
)

pub fill-Agree : (old b : Bytes) (n : ℕ) → Agree n (fill old n b) b
fill-Agree old b n i h = rw (lt→ltb i n h)

pub first-fill : (old b : Bytes) (n m : ℕ) → n ≤ m → first n (fill old m b) ≡ first n b
first-fill old b n m le = fun_ext λ i. elim (dec_lt i n) [
  | yes l ↦ rw (lt→ltb i n l, lt→ltb i m (omega arith))
  | no l ↦ rw (le→ltb i n (omega arith))
]
