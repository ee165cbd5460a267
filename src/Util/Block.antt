-- ===== src/Util/Block.antt =====
-- A block of linear memory seen through a selector (src/util.c).
use native.Mathlib.Decide.{dec_lt}
use djstub.Base.{ℕ, ◌+◌, ◌≤◌, ◌<◌, ◌≡◌, subst, ◌⊎◌, inl, inr, Bytes, u32_mod, sub32, arith}
use djstub.Util.FarMem.{lin}
use djstub.Util.FilePart.{Outside}

-- Memory is as it was outside the `n` bytes from the address `from` on.
abbrev pub OutsideBlock : (from n : ℕ) → Bytes → Bytes → Type 0
OutsideBlock from n mem mem' = (a : ℕ) → a < u32_mod → (a < from) ⊎ (from + n ≤ a) → mem' a ≡ mem a

-- A block that covers another leaves the same outside.
pub OutsideBlock-mono :
    {from m n : ℕ} {mem mem' : Bytes}
    → m ≤ n
    → OutsideBlock from m mem mem'
    → OutsideBlock from n mem mem'
OutsideBlock-mono le outside a small (inl l) = outside a small (inl l)
OutsideBlock-mono le outside a small (inr l) = outside a small (inr (omega arith))

-- From offsets behind the base `mem_lin - va` to addresses.
pub Outside-block :
    (mem_lin va n : ℕ) (mem mem' : Bytes)
    → mem_lin + n ≤ u32_mod
    → va + n ≤ u32_mod
    → Outside (sub32 mem_lin va) va (va + n) mem mem'
    → OutsideBlock mem_lin n mem mem'
Outside-block mem_lin va n mem mem' room fits o a small out =
    let x = sub32 a (sub32 mem_lin va) in
    let e : lin (sub32 mem_lin va) x ≡ a = omega arith in
    subst (λ a. mem' a ≡ mem a) e
      (o x (omega arith) (elim (dec_lt x va) [
        | yes l ↦ inl l
        | no l ↦ elim (dec_lt x (va + n)) [
          | yes m ↦ absurd (omega arith)
          | no m ↦ inr (omega arith)
        ]
      ]))
