-- ===== src/Asm/Memory.antt =====
-- Stores of 16 and 32 bits by the assembly of src/*.c, lowest byte first.
use djstub.Base.{
  ℕ, ◌+◌, ◌*◌, ◌/◌, ◌%◌, ◌≤◌, ◌<◌, ◌≡◌, ◌≢◌, ap, ◌∙◌, ◌⊎◌, Bytes, AreBytes, word16, word32, ◌==◌,
  if◌then◌else◌, arith,
}

unfoldable pub store16 : ℕ → ℕ → Bytes → Bytes
store16 a v mem i = if i == a then v % 0x100 else if i == a + 1 then v / 0x100 % 0x100 else mem i

unfoldable pub store32 : ℕ → ℕ → Bytes → Bytes
unfolding store16
store32 a v mem = store16 (a + 2) (v / 0x1_0000) (store16 a v mem)

-- The stores of a word as two halves, the high half first.
abbrev pub store_halves : ℕ → ℕ → ℕ → Bytes → Bytes
store_halves a hi lo mem = store16 a lo (store16 (a + 2) hi mem)

-- A word stored in two halves reads back whole.
pub word32-store_halves :
    (a lo hi : ℕ) (mem : Bytes)
    → word32 (store_halves a hi lo mem) a ≡ lo % 0x1_0000 + 0x1_0000 * (hi % 0x1_0000)
unfolding word32 store16
word32-store_halves a lo hi mem = ground arith

pub store16-apart : (a v i : ℕ) (mem : Bytes) → i ≢ a → i ≢ a + 1 → store16 a v mem i ≡ mem i
unfolding store16
store16-apart a v i mem p q = ground arith

-- A byte outside the word keeps its value.
pub store_halves-apart :
    (a hi lo i : ℕ) (mem : Bytes) → (i < a) ⊎ (a + 4 ≤ i) → store_halves a hi lo mem i ≡ mem i
store_halves-apart a hi lo i mem h =
    store16-apart a lo i (store16 (a + 2) hi mem) (omega arith) (omega arith)
    ∙ store16-apart (a + 2) hi i mem (omega arith) (omega arith)

-- And so does another word.
pub word32-store_halves_apart :
    (a hi lo q : ℕ) (mem : Bytes)
    → (q + 4 ≤ a) ⊎ (a + 4 ≤ q)
    → word32 (store_halves a hi lo mem) q ≡ word32 mem q
unfolding word32
word32-store_halves_apart a hi lo q mem h = omega (
  arith,
  store_halves-apart a hi lo q mem (omega arith),
  store_halves-apart a hi lo (q + 1) mem (omega arith),
  store_halves-apart a hi lo (q + 2) mem (omega arith),
  store_halves-apart a hi lo (q + 3) mem (omega arith),
)

-- The halves of a word.
pub word16-low : (a : ℕ) (mem : Bytes) → AreBytes mem → word16 mem a ≡ word32 mem a % 0x1_0000
unfolding word16 word32
word16-low a mem h = omega (arith, h a, h (a + 1))

pub word16-high :
    (a : ℕ) (mem : Bytes) → AreBytes mem → word16 mem (a + 2) ≡ word32 mem a / 0x1_0000
unfolding word16 word32
word16-high a mem h =
    let third : mem (a + 2 + 1) ≡ mem (a + 3) = ap mem (omega arith) in
    omega (arith, third, h a, h (a + 1), h (a + 2), h (a + 3))

-- A word stored whole reads back.
pub word32-store32 : (a v : ℕ) (mem : Bytes) → word32 (store32 a v mem) a ≡ v % 0x1_0000_0000
unfolding word32 store16 store32
word32-store32 a v mem = ground arith

-- A word stored in two halves, the low half first.
pub word32-store_halves_up :
    (a hi lo : ℕ) (mem : Bytes)
    → word32 (store16 (a + 2) hi (store16 a lo mem)) a ≡ lo % 0x1_0000 + 0x1_0000 * (hi % 0x1_0000)
unfolding word32 store16
word32-store_halves_up a hi lo mem = ground arith

-- A byte outside a word that is stored whole keeps its value.
pub store32-apart : (p v i : ℕ) (mem : Bytes) → (i < p) ⊎ (p + 4 ≤ i) → store32 p v mem i ≡ mem i
unfolding store32 store16
store32-apart p v i mem h = ground arith

-- Words of memories that agree on their bytes.
pub word32-agree :
    (q : ℕ) (mem mem' : Bytes)
    → ((i : ℕ) → q ≤ i → i < q + 4 → mem' i ≡ mem i)
    → word32 mem' q ≡ word32 mem q
unfolding word32
word32-agree q mem mem' h = omega (
  arith,
  h q (omega arith) (omega arith),
  h (q + 1) (omega arith) (omega arith),
  h (q + 2) (omega arith) (omega arith),
  h (q + 3) (omega arith) (omega arith),
)

pub word16-agree :
    (q : ℕ) (mem mem' : Bytes)
    → ((i : ℕ) → q ≤ i → i < q + 2 → mem' i ≡ mem i)
    → word16 mem' q ≡ word16 mem q
unfolding word16
word16-agree q mem mem' h =
    omega (arith, h q (omega arith) (omega arith), h (q + 1) (omega arith) (omega arith))

-- A word apart from a store, and the low half of a word that is stored.
module _ (p v q : ℕ) (mem : Bytes) where
  pub word32-store32_apart : (q + 4 ≤ p) ⊎ (p + 4 ≤ q) → word32 (store32 p v mem) q ≡ word32 mem q
  word32-store32_apart h =
      word32-agree q mem (store32 p v mem) λ i l r. store32-apart p v i mem (ground arith)

  pub word16-store32_apart : (q + 2 ≤ p) ⊎ (p + 4 ≤ q) → word16 (store32 p v mem) q ≡ word16 mem q
  word16-store32_apart h =
      word16-agree q mem (store32 p v mem) λ i l r. store32-apart p v i mem (ground arith)

  pub word32-store16_apart : (q + 4 ≤ p) ⊎ (p + 2 ≤ q) → word32 (store16 p v mem) q ≡ word32 mem q
  word32-store16_apart h =
      word32-agree q mem (store16 p v mem)
        λ i l r. store16-apart p v i mem (omega arith) (omega arith)

  pub word16-store16_apart : (q + 2 ≤ p) ⊎ (p + 2 ≤ q) → word16 (store16 p v mem) q ≡ word16 mem q
  word16-store16_apart h =
      word16-agree q mem (store16 p v mem)
        λ i l r. store16-apart p v i mem (omega arith) (omega arith)

pub word16-store16 : (a v : ℕ) (mem : Bytes) → word16 (store16 a v mem) a ≡ v % 0x1_0000
unfolding word16 store16
word16-store16 a v mem = ground arith

pub word16-store32 : (a v : ℕ) (mem : Bytes) → word16 (store32 a v mem) a ≡ v % 0x1_0000
unfolding word16 store32 store16
word16-store32 a v mem = ground arith
