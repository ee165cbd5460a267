-- ===== src/Util/Transfer.antt =====
-- What a completed transfer from the file to client memory leaves, and how transfers compose.
use djstub.Base.{ℕ, ◌+◌, ◌-◌, ◌%◌, ◌≤◌, ◌<◌, ◌≡◌, refl, sym, ap, ◌∙◌, ◌⊎◌, inl, inr, u32_mod, arith}
use native.Mathlib.Nat.{add_assoc}
use native.Mathlib.Decide.{dec_lt}
use djstub.Run.{File, World}
use djstub.Util.FarMem.{lin}

-- From `w` to `w'`, `n` bytes at the file's position went to offset `o` behind linear address
-- `b`; no other offset changed but the one that pads an odd count.
pub record Transfer (b o n : ℕ) (w w' : World) : Type 0 where
  pub file : w'.file ≡ record w.file { pos = w.file.pos + n }
  pub scns : w'.scns ≡ w.scns
  pub inside : (i : ℕ) → i < n → w'.mem (lin b (o + i)) ≡ w.file.content (w.file.pos + i)
  pub outside :
      (x : ℕ) → x < u32_mod → (x < o) ⊎ (o + n + n % 2 ≤ x) → w'.mem (lin b x) ≡ w.mem (lin b x)

module _ (b o m n : ℕ) {w w₁ w₂ : World} (s : Transfer b o m w w₁)
    (t : Transfer b (o + m) n w₁ w₂) where
  inside_second :
      (i : ℕ) → m ≤ i → i < m + n → w₂.mem (lin b (o + i)) ≡ w.file.content (w.file.pos + i)
  inside_second i p h =
      ap (λ x. w₂.mem (lin b x)) (split o)
      ∙ t.inside (i - m) (omega arith)
      ∙ ap (λ (f : File). f.content (f.pos + (i - m))) s.file
      ∙ ap w.file.content (sym (split w.file.pos))
    where
      split : (k : ℕ) → k + i ≡ k + m + (i - m)
      split k = omega arith

  inside_all :
      (i : ℕ)
      → o + m + n < u32_mod
      → i < m + n
      → w₂.mem (lin b (o + i)) ≡ w.file.content (w.file.pos + i)
  inside_all i fits h = elim (dec_lt i m) [
    | yes p ↦ t.outside (o + i) (omega arith) (inl (omega arith)) ∙ s.inside i p
    | no p ↦ inside_second i (omega arith) h
  ]

  outside_all :
      (x : ℕ)
      → (m % 2 ≡ 0) ⊎ (n ≡ 0)
      → x < u32_mod
      → (x < o) ⊎ (o + (m + n) + (m + n) % 2 ≤ x)
      → w₂.mem (lin b x) ≡ w.mem (lin b x)
  outside_all x even hx (inl h) = t.outside x hx (inl (omega arith)) ∙ s.outside x hx (inl h)
  outside_all x even hx (inr h) =
      t.outside x hx (inr (omega arith)) ∙ s.outside x hx (inr (omega arith))

  pub Transfer-append : (m % 2 ≡ 0) ⊎ (n ≡ 0) → o + m + n < u32_mod → Transfer b o (m + n) w w₂
  Transfer-append even fits = record {
    file =
        t.file
        ∙ ap (λ (f : File). record f { pos = f.pos + n }) s.file
        ∙ ap (λ p. record w.file { pos = p }) (add_assoc w.file.pos m n);
    scns = t.scns ∙ s.scns;
    inside = λ i h. inside_all i fits h;
    outside = λ x hx h. outside_all x even hx h;
  }

-- Nothing to transfer.
pub Transfer-zero : (b o : ℕ) (w : World) → Transfer b o 0 w w
Transfer-zero b o w = record {
  file = ap (λ p. record w.file { pos = p }) (omega arith);
  scns = refl;
  inside = λ i h. absurd (omega arith);
  outside = λ x hx h. refl;
}
