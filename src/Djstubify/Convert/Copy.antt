-- ===== src/Djstubify/Convert/Copy.antt =====
-- The loop of `coff2exe` (djstubify2.py) that copies the payload.
use Prim.Native.Nat.{min}
use djstub.Base.{
  ℕ, zero, suc, ◌+◌, ◌-◌, ◌≤◌, ◌<◌, ◌≡◌, refl, ap, subst, ◌∙◌, some, eq→==, ne→==, arith,
}
use native.Mathlib.Decide.{ℕ_discrete, dec_lt}
use djstub.Djstubify.{Blob, append}
use djstub.Djstubify.Parts.{append-low, append-high, append-size}
use djstub.Djstubify.Convert.{slice, copy_loop}

-- `g` is `out` with `m` bytes of `f` from `pos` on behind it.
pub record IsCopied (out f : Blob) (pos m : ℕ) (g : Blob) : Type 0 where
  pub size : g.size ≡ out.size + m
  pub below : (i : ℕ) → i < out.size → g.content i ≡ out.content i
  pub copied : (j : ℕ) → j < m → g.content (out.size + j) ≡ f.content (pos + j)

IsCopied-more :
    (out f : Blob) (pos n m : ℕ) (g : Blob)
    → IsCopied (append out (slice f pos n)) f (pos + n) m g
    → IsCopied out f pos (n + m) g
IsCopied-more out f pos n m g h =
    let part = slice f pos n in
    let size = append-size out part in
    record {
      size = h.size ∙ omega (arith, size);
      below = λ i l. h.below i (omega (arith, size)) ∙ append-low out part i l;
      copied = λ j l. elim (dec_lt j n) [
        | yes p ↦ h.below (out.size + j) (omega (arith, size)) ∙ append-high out part j
        | no p ↦
            ap g.content (omega (arith, size))
            ∙ h.copied (j - n) (omega arith)
            ∙ ap f.content (omega arith)
      ];
    }

IsCopied-none : (out f : Blob) (pos : ℕ) → IsCopied out f pos 0 out
IsCopied-none out f pos = record {
  size = omega arith;
  below = λ i l. refl;
  copied = λ j l. absurd (omega arith);
}

module _ (f : Blob) where
  -- Where `rmoverlay` is 0 the rest of the file is copied.
  pub copy_loop-rest :
      (k left pos : ℕ) (out : Blob)
      → 0 < left
      → f.size - pos < k
      → (g : Blob) × (copy_loop k 0 left pos f out ≡ some g) × IsCopied out f pos (f.size - pos) g
  unfolding copy_loop
  copy_loop-rest zero left pos out some_left l = absurd (omega arith)
  copy_loop-rest (suc k) left pos out some_left l =
      let n = min 4096 (f.size - pos) in
      elim (ℕ_discrete n 0) [
        | yes e ↦ (
          out,
          rw (eq→== n 0 e, ne→== left 0 (omega arith)) refl,
          subst (λ m. IsCopied out f pos m out) (omega arith) (IsCopied-none out f pos),
        )
        | no e ↦
            let (g, run, h) =
              copy_loop-rest k left (pos + n) (append out (slice f pos n)) some_left
                (omega arith) in
            (
              g,
              rw (ne→== n 0 e, ne→== left 0 (omega arith)) run,
              subst (λ m. IsCopied out f pos m g) (omega arith)
                  (IsCopied-more out f pos n (f.size - (pos + n)) g h),
            )
      ]

  -- Otherwise `left` bytes are copied, where there are so many.
  pub copy_loop-part :
      (k rmoverlay left pos : ℕ) (out : Blob)
      → 0 < rmoverlay
      → left < k
      → left ≤ f.size - pos
      → (g : Blob) × (copy_loop k rmoverlay left pos f out ≡ some g) × IsCopied out f pos left g
  unfolding copy_loop
  copy_loop-part zero rm left pos out p l r = absurd (omega arith)
  copy_loop-part (suc k) rm left pos out p l r =
      let n = min (min 4096 left) (f.size - pos) in
      elim (ℕ_discrete left 0) [
        | yes e ↦ (
          out,
          rw (ne→== rm 0 (omega arith), eq→== left 0 e) refl,
          subst (λ m. IsCopied out f pos m out) (omega arith) (IsCopied-none out f pos),
        )
        | no e ↦
            let (g, run, h) =
              copy_loop-part k rm (left - n) (pos + n) (append out (slice f pos n)) p (omega arith)
                (omega arith) in
            (
              g,
              rw (ne→== rm 0 (omega arith)) (rw (ne→== n 0 (omega arith), ne→== left 0 e) run),
              subst (λ m. IsCopied out f pos m g) (omega arith)
                  (IsCopied-more out f pos n (left - n) g h),
            )
      ]
