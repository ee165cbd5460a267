-- ===== src/Asm/Frame.antt =====
-- The frame of a C function that consists of assembly: the arguments that its caller has pushed,
-- the return address and the caller's frame pointer.
use djstub.Base.{
  ℕ, zero, suc, ◌+◌, ◌*◌, ◌/◌, ◌%◌, ◌≤◌, ◌<◌, ◌≡◌, ◌⊎◌, refl, ap, ◌∙◌, List, [], ◌∷◌, Bytes,
  byte_at, length, word16, word32, add32, sub32, u32_mod, arith,
}
use djstub.Asm.{Machine, arg, arg_word}
use djstub.Asm.Memory.{store16, store32, store32-apart}

-- The arguments at `p`, the first one lowest; the last is pushed first.
unfoldable pub store_args : List ℕ → ℕ → Bytes → Bytes
store_args [] p mem = mem
store_args (a ∷ args) p mem = store32 p a (store_args args (p + 4) mem)

module _ {H : Type 0} (ret : ℕ) (args : List ℕ) (m : Machine H) where
  abbrev pub frame_pointer : ℕ
  frame_pointer = sub32 m.esp (4 * length args + 8)

  -- The state behind `push ebp; mov ebp, esp`.
  unfoldable pub frame : Machine H
  frame = record m {
    ebp = frame_pointer;
    esp = frame_pointer;
    mem =
        store32 frame_pointer m.ebp
          (store32 (frame_pointer + 4) ret (store_args args (frame_pointer + 8) m.mem));
  }

-- The bytes of a word.
abbrev bytes_of : ℕ → Bytes
bytes_of v = store32 0 v (λ _. 0)

store32-byte : (p v j : ℕ) (mem : Bytes) → j < 4 → store32 p v mem (p + j) ≡ bytes_of v j
unfolding store32 store16
store32-byte p v j mem h = ground arith

store_args-byte :
    (args : List ℕ) (p i j : ℕ) (mem : Bytes)
    → i < length args
    → j < 4
    → store_args args p mem (p + 4 * i + j) ≡ bytes_of (byte_at args i) j
unfolding store_args
store_args-byte [] p i j mem l h = absurd (omega arith)
store_args-byte (a ∷ args) p zero j mem l h =
    ap (store32 p a (store_args args (p + 4) mem)) (omega arith)
    ∙ store32-byte p a j (store_args args (p + 4) mem) h
store_args-byte (a ∷ args) p (suc i) j mem l h =
    store32-apart p a (p + 4 * suc i + j) (store_args args (p + 4) mem) (omega arith)
    ∙ ap (store_args args (p + 4) mem) (omega arith)
    ∙ store_args-byte args (p + 4) i j mem (omega arith) h

-- A call with room on the stack.
module _ {H : Type 0} (ret : ℕ) (args : List ℕ) (m : Machine H) (room : 4 * length args + 8 ≤ m.esp)
    (small : m.esp < u32_mod) where
  abbrev fp : ℕ
  fp = frame_pointer ret args m

  -- The byte of argument `i` at the address `q`.
  frame-byte :
      (i j q : ℕ)
      → i < length args
      → j < 4
      → q ≡ fp + 8 + 4 * i + j
      → (frame ret args m).mem q ≡ bytes_of (byte_at args i) j
  unfolding frame
  frame-byte i j q l h e =
      let below = store_args args (fp + 8) m.mem in
      store32-apart fp m.ebp q (store32 (fp + 4) ret below) (omega arith)
      ∙ store32-apart (fp + 4) ret q below (omega arith)
      ∙ ap below e
      ∙ store_args-byte args (fp + 8) i j m.mem l h

  pub frame-ebp : (frame ret args m).ebp ≡ fp
  unfolding frame
  frame-ebp = refl

  pub frame-esp : (frame ret args m).esp ≡ fp
  unfolding frame
  frame-esp = refl

  -- An argument, and its halves, at the displacement `d`.
  pub arg-frame :
      (i d : ℕ)
      → i < length args
      → d ≡ 8 + 4 * i
      → arg d (frame ret args m) ≡ byte_at args i % u32_mod
  unfolding word32 store16 store32
  arg-frame i d l e = omega (
    arith,
    frame-byte i 0 (add32 (frame ret args m).ebp d) l (omega arith) (omega (arith, frame-ebp, e)),
    frame-byte i 1 (add32 (frame ret args m).ebp d + 1) l (omega arith)
        (omega (arith, frame-ebp, e)),
    frame-byte i 2 (add32 (frame ret args m).ebp d + 2) l (omega arith)
        (omega (arith, frame-ebp, e)),
    frame-byte i 3 (add32 (frame ret args m).ebp d + 3) l (omega arith)
        (omega (arith, frame-ebp, e)),
  )

  pub arg_word-frame_low :
      (i d : ℕ)
      → i < length args
      → d ≡ 8 + 4 * i
      → arg_word d (frame ret args m) ≡ byte_at args i % 0x1_0000
  unfolding word16 store16 store32
  arg_word-frame_low i d l e = omega (
    arith,
    frame-byte i 0 (add32 (frame ret args m).ebp d) l (omega arith) (omega (arith, frame-ebp, e)),
    frame-byte i 1 (add32 (frame ret args m).ebp d + 1) l (omega arith)
        (omega (arith, frame-ebp, e)),
  )

  pub arg_word-frame_high :
      (i d : ℕ)
      → i < length args
      → d ≡ 8 + 4 * i + 2
      → arg_word d (frame ret args m) ≡ byte_at args i / 0x1_0000 % 0x1_0000
  unfolding word16 store16 store32
  arg_word-frame_high i d l e = omega (
    arith,
    frame-byte i 2 (add32 (frame ret args m).ebp d) l (omega arith) (omega (arith, frame-ebp, e)),
    frame-byte i 3 (add32 (frame ret args m).ebp d + 1) l (omega arith)
        (omega (arith, frame-ebp, e)),
  )

store_args-apart :
    (args : List ℕ) (p i : ℕ) (mem : Bytes)
    → (i < p) ⊎ (p + 4 * length args ≤ i)
    → store_args args p mem i ≡ mem i
unfolding store_args
store_args-apart [] p i mem h = refl
store_args-apart (a ∷ args) p i mem h =
    store32-apart p a i (store_args args (p + 4) mem) (ground arith)
    ∙ store_args-apart args (p + 4) i mem (ground arith)

-- A byte outside the frame keeps its value.
pub frame-apart :
    {H : Type 0} (ret : ℕ) (args : List ℕ) (m : Machine H) (i : ℕ)
    → (i < frame_pointer ret args m) ⊎ (frame_pointer ret args m + 8 + 4 * length args ≤ i)
    → (frame ret args m).mem i ≡ m.mem i
unfolding frame
frame-apart ret args m i h =
    let fp = frame_pointer ret args m in
    let below = store_args args (fp + 8) m.mem in
    store32-apart fp m.ebp i (store32 (fp + 4) ret below) (ground arith)
    ∙ store32-apart (fp + 4) ret i below (ground arith)
    ∙ store_args-apart args (fp + 8) i m.mem (ground arith)
