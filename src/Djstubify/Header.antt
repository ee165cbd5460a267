-- ===== src/Djstubify/Header.antt =====
-- The header that djstubify2.py writes with -g.
use djstub.Base.{
  ℕ, ◌+◌, ◌*◌, ◌≤◌, ◌<◌, ◌≡◌, ◌≢◌, refl, ap, ◌∙◌, Option, some, List, [], ◌∷◌, ◌++◌, length, Bytes,
  word32, u32_mod, arith,
}
use djstub.Base.Options.{◌>>=◌}
use djstub.Asm.Memory.{store32, store32-apart, word32-store32, word32-agree}
use djstub.Djstubify.{Blob, size_at, write_sizes}
use djstub.Djstubify.Parts.{Fit, fit_none, fit_more, HasSizes, write_u32-run}

-- The header after the first of the overlays.
abbrev step : Blob → ℕ → Blob → Blob
step o i b = record b { content = store32 (0x1c + i * 4) o.size b.content }

-- The entry of the first overlay stays, the others are those of the rest.
entry-more :
    (o : Blob) (os : List Blob) (i : ℕ) (b c : Blob)
    → o.size < u32_mod
    → HasSizes os (i + 1) (step o i b) c
    → (before : List Blob) (p : Blob) (after : List Blob) → (o ∷ os) ≡ before ++ (p ∷ after)
    → size_at c.content (i + length before) ≡ p.size
unfolding size_at
entry-more o os i b c small h [] p after e =
    let same : o ≡ p = cc in
    let written : Bytes = store32 (0x1c + i * 4) o.size b.content in
    let kept : word32 c.content (0x1c + i * 4) ≡ word32 written (0x1c + i * 4) =
      word32-agree (0x1c + i * 4) written c.content λ q l r. h.below q (omega arith) in
    ap (λ k. word32 c.content (0x1c + k * 4)) (omega arith)
    ∙ kept
    ∙ word32-store32 (0x1c + i * 4) o.size b.content
    ∙ omega (arith, small)
    ∙ ap (λ (x : Blob). x.size) same
entry-more o os i b c small h (x ∷ before) p after e =
    let rest : os ≡ before ++ (p ∷ after) = cc in
    ap (λ k. word32 c.content (0x1c + k * 4)) (omega arith) ∙ h.entry before p after rest

HasSizes-more :
    (o : Blob) (os : List Blob) (i : ℕ) (b c : Blob)
    → o.size < u32_mod
    → HasSizes os (i + 1) (step o i b) c
    → HasSizes (o ∷ os) i b c
HasSizes-more o os i b c small h = record {
  size = h.size;
  below = λ q l.
      h.below q (omega arith) ∙ store32-apart (0x1c + i * 4) o.size q b.content (omega arith);
  above = λ q l.
      h.above q (omega arith) ∙ store32-apart (0x1c + i * 4) o.size q b.content (omega arith);
  entry = entry-more o os i b c small h;
}

no_entry :
    (before : List Blob) (o : Blob) (after : List Blob)
    → ◌≢◌ {A = List Blob} [] (before ++ (o ∷ after))
no_entry [] o after e = cc
no_entry (x ∷ before) o after e = cc

pub write_sizes-run :
    (os : List Blob) (i : ℕ) (b : Blob)
    → Fit os
    → 0x1c + (i + length os) * 4 ≤ b.size
    → (c : Blob) × (write_sizes os i b ≡ some c) × HasSizes os i b c
unfolding write_sizes
write_sizes-run [] i b fit_none l = (
  b,
  refl,
  record {
    size = refl;
    below = λ q r. refl;
    above = λ q r. refl;
    entry = λ before o after e. absurd (no_entry before o after e);
  },
)
write_sizes-run (o ∷ os) i b (fit_more small fit) l =
    let (c, run, h) = write_sizes-run os (i + 1) (step o i b) fit (omega arith) in
    (
      c,
      ap (λ (m : Option Blob). m >>= λ s. write_sizes os (i + 1) s)
            (write_u32-run (0x1c + i * 4) o.size b small (omega arith))
          ∙ run,
      HasSizes-more o os i b c small h,
    )
