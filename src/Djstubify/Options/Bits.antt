-- ===== src/Djstubify/Options/Bits.antt =====
-- `|=` with a number that is shifted above the other one, as in the type map of djstubify2.py.
use Prim.Native.Nat.{digits, bit_or, bit_or-bitwise, max}
use native.Mathlib.Nat.{mul_assoc, mul_comm}
use djstub.Base.{ℕ, zero, suc, ◌+◌, ◌*◌, ◌/◌, ◌%◌, ◌^◌, ◌≤◌, ◌<◌, ◌≡◌, sym, ap, ◌∙◌, arith}

double : (s c : ℕ) → c * 2 ^ suc s ≡ 2 * (c * 2 ^ s)
double s c =
    let p : 2 ^ suc s ≡ 2 * 2 ^ s = omega arith in
    ap (λ x. c * x) p
    ∙ sym (mul_assoc c 2 (2 ^ s))
    ∙ ap (λ x. x * 2 ^ s) (mul_comm c 2)
    ∙ mul_assoc 2 c (2 ^ s)

digits-high :
    (s n a c : ℕ) → a < 2 ^ s → a ≤ n → digits (λ b. b) max n a (c * 2 ^ s) ≡ a + c * 2 ^ s
digits-high s zero zero c l le = omega arith
digits-high s (suc n) zero c l le = omega arith
digits-high s zero (suc a) c l le = absurd (omega arith)
digits-high zero (suc n) (suc a) c l le = absurd (omega arith)
digits-high (suc s) (suc n) (suc a) c l le =
    let v = c * 2 ^ s in
    let e : c * 2 ^ suc s ≡ 2 * v = double s c in
    let halved : 2 * v / 2 ≡ v = omega arith in
    let even : 2 * v % 2 ≡ 0 = omega arith in
    let rest = digits-high s n (suc a / 2) c (omega arith) (omega arith) in
    rw e (rw (halved, even, rest) (omega arith))

pub bit_or-high : (s a c : ℕ) → a < 2 ^ s → bit_or a (c * 2 ^ s) ≡ a + c * 2 ^ s
bit_or-high s a c l = bit_or-bitwise a (c * 2 ^ s) ∙ digits-high s a a c l (omega arith)
