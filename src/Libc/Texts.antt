-- ===== src/Libc/Texts.antt =====
-- Lemmas on the text functions of the C library.
use djstub.Base.{
  ℕ, zero, suc, ◌+◌, ◌≤◌, ◌<◌, ◌≡◌, ◌≢◌, refl, sym, ap, subst, ◌∙◌, ◌⊎◌, inl, inr, List, [], ◌∷◌,
  Bytes, byte_at, length, eq→==, ne→==, lt→ltb, le→ltb, arith,
}
use native.Mathlib.Decide.{ℕ_discrete, dec_lt}
use djstub.Libc.{store, find_nul, strcat}

pub store-here : (t : ℕ → ℕ) (c v : ℕ) → store t c v c ≡ v
unfolding store
store-here t c v = rw (eq→== c c refl)

pub store-apart : (t : ℕ → ℕ) (c v j : ℕ) → j ≢ c → store t c v j ≡ t j
unfolding store
store-apart t c v j h = rw (ne→== j c h)

-- The index that `find_nul` comes to.
pub record IsEnd (n : ℕ) (b : Bytes) (i k : ℕ) : Type 0 where
  pub above : i ≤ k
  pub below : k ≤ i + n
  pub no_nul : (j : ℕ) → i ≤ j → j < k → b j ≢ 0
  pub nul : k < i + n → b k ≡ 0

find_nul-here : (n : ℕ) (b : Bytes) (i : ℕ) → b i ≡ 0 → find_nul (suc n) b i ≡ i
unfolding find_nul
find_nul-here n b i e = rw e

find_nul-on : (n : ℕ) (b : Bytes) (i : ℕ) → b i ≢ 0 → find_nul (suc n) b i ≡ find_nul n b (suc i)
unfolding find_nul
find_nul-on n b i e = rw (ne→== _ 0 e)

IsEnd-on : (n : ℕ) (b : Bytes) (i k : ℕ) → b i ≢ 0 → IsEnd n b (suc i) k → IsEnd (suc n) b i k
IsEnd-on n b i k e h = record {
  above = omega (arith, h.above);
  below = omega (arith, h.below);
  no_nul = λ j p q z. elim (ℕ_discrete i j) [
    | yes same ↦ e (ap b same ∙ z)
    | no other ↦ h.no_nul j (omega arith) q z
  ];
  nul = λ p. h.nul (omega arith);
}

pub find_nul-IsEnd : (n : ℕ) (b : Bytes) (i : ℕ) → IsEnd n b i (find_nul n b i)
find_nul-IsEnd zero b i =
    unfold find_nul in
    record {
      above = omega arith;
      below = omega arith;
      no_nul = λ j p q e. absurd (omega arith);
      nul = λ p. absurd (omega arith);
    }
find_nul-IsEnd (suc n) b i = elim (ℕ_discrete (b i) 0) [
  | yes e ↦ subst (IsEnd (suc n) b i) (sym (find_nul-here n b i e)) (record {
    above = omega arith;
    below = omega arith;
    no_nul = λ j p q z. absurd (omega arith);
    nul = λ p. e;
  })
  | no e ↦
      subst (IsEnd (suc n) b i) (sym (find_nul-on n b i e))
        (IsEnd-on n b i (find_nul n b (suc i)) e (find_nul-IsEnd n b (suc i)))
]

-- Only the first index that holds a NUL is an end.
pub IsEnd-unique : (n : ℕ) (b : Bytes) (i k k' : ℕ) → IsEnd n b i k → b k' ≡ 0 → i ≤ k' → k ≤ k'
IsEnd-unique n b i k k' h z l = elim (dec_lt k' k) [
  | yes p ↦ absurd (h.no_nul k' l p z)
  | no p ↦ omega arith
]

-- `strcat` puts the text at the end of the text that is there, and a NUL behind it.
pub strcat-at :
    (n : ℕ) (dst : Bytes) (s : List ℕ) (j : ℕ)
    → j < length s
    → strcat n dst s (find_nul n dst 0 + j) ≡ byte_at s j
unfolding strcat
strcat-at n dst s j l = rw (le→ltb (find_nul n dst 0 + j) (find_nul n dst 0) (omega arith)) (
    rw (lt→ltb (find_nul n dst 0 + j) (find_nul n dst 0 + length s + 1) (omega arith))
      (ap (byte_at s) (omega arith)))

byte_at-length : (s : List ℕ) → byte_at s (length s) ≡ 0
byte_at-length [] = refl
byte_at-length (x ∷ s) = byte_at-length s

pub strcat-nul :
    (n : ℕ) (dst : Bytes) (s : List ℕ) → strcat n dst s (find_nul n dst 0 + length s) ≡ 0
unfolding strcat
strcat-nul n dst s =
    let k = find_nul n dst 0 in
    rw
      (
        le→ltb (k + length s) k (omega arith),
        lt→ltb (k + length s) (k + length s + 1) (omega arith),
      )
      (ap (byte_at s) (omega arith) ∙ byte_at-length s)

pub strcat-apart :
    (n : ℕ) (dst : Bytes) (s : List ℕ) (i : ℕ)
    → (i < find_nul n dst 0) ⊎ (find_nul n dst 0 + length s < i)
    → strcat n dst s i ≡ dst i
unfolding strcat
strcat-apart n dst s i (inl h) = rw (lt→ltb i (find_nul n dst 0) h)
strcat-apart n dst s i (inr h) =
    let k = find_nul n dst 0 in
    rw (le→ltb i k (omega arith), le→ltb i (k + length s + 1) (omega arith))
