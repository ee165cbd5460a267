-- ===== src/Djstubify/Parts.antt =====
-- Where the files lie that djstubify2.py has written behind one another, and the table of their
-- sizes in the header.
use djstub.Base.{
  ℕ, ◌+◌, ◌*◌, ◌≤◌, ◌<◌, ◌≡◌, refl, ap, ◌∙◌, some, List, [], ◌∷◌, ◌++◌, length, u32_mod, lt→ltb,
  le→ltb, le→leb, arith,
}
use djstub.Asm.Memory.{store32}
use djstub.Djstubify.{Blob, total, append, append_all, size_at, write_u32}

pub append-low : (a b : Blob) (i : ℕ) → i < a.size → (append a b).content i ≡ a.content i
unfolding append
append-low a b i l = rw (lt→ltb i a.size l)

pub append-high : (a b : Blob) (j : ℕ) → (append a b).content (a.size + j) ≡ b.content j
unfolding append
append-high a b j = rw (le→ltb (a.size + j) a.size (omega arith)) (ap b.content (omega arith))

pub append-size : (a b : Blob) → (append a b).size ≡ a.size + b.size
unfolding append
append-size a b = refl

pub append_all-size : (a : Blob) (bs : List Blob) → (append_all a bs).size ≡ a.size + total bs
unfolding append_all
append_all-size a [] = omega arith
append_all-size a (b ∷ bs) = omega (arith, append_all-size (append a b) bs, append-size a b)

-- The first file stands at the front.
pub append_all-low :
    (a : Blob) (bs : List Blob) (i : ℕ) → i < a.size → (append_all a bs).content i ≡ a.content i
unfolding append_all
append_all-low a [] i l = refl
append_all-low a (b ∷ bs) i l =
    append_all-low (append a b) bs i (omega (arith, append-size a b)) ∙ append-low a b i l

-- Each other file stands behind those before it.
pub append_all-part :
    (before : List Blob) (a o : Blob) (after : List Blob) (j : ℕ)
    → j < o.size
    → (append_all a (before ++ (o ∷ after))).content (a.size + total before + j) ≡ o.content j
unfolding append_all
append_all-part [] a o after j l =
    ap (append_all (append a o) after).content (omega arith)
    ∙ append_all-low (append a o) after (a.size + j) (omega (arith, append-size a o))
    ∙ append-high a o j
append_all-part (b ∷ before) a o after j l =
    ap (append_all (append a b) (before ++ (o ∷ after))).content (omega (arith, append-size a b))
    ∙ append_all-part before (append a b) o after j l

-- Each file is small enough for its size in the table.
pub data Fit : List Blob → Type 0 where
  fit_none : Fit []
  fit_more : {o : Blob} {os : List Blob} → o.size < u32_mod → Fit os → Fit (o ∷ os)

-- What the loop over the overlays makes of the header.
pub record HasSizes (os : List Blob) (i : ℕ) (b c : Blob) : Type 0 where
  pub size : c.size ≡ b.size
  pub below : (q : ℕ) → q < 0x1c + i * 4 → c.content q ≡ b.content q
  pub above : (q : ℕ) → 0x1c + (i + length os) * 4 ≤ q → c.content q ≡ b.content q
  pub entry :
      (before : List Blob) (o : Blob) (after : List Blob)
      → os ≡ before ++ (o ∷ after)
      → size_at c.content (i + length before) ≡ o.size

pub write_u32-run :
    (offset value : ℕ) (b : Blob)
    → value < u32_mod
    → offset + 4 ≤ b.size
    → write_u32 offset value b ≡ some (record b { content = store32 offset value b.content })
unfolding write_u32
write_u32-run offset value b v l = rw (lt→ltb value u32_mod v, le→leb (offset + 4) b.size l)
