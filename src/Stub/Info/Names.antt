-- ===== src/Stub/Info/Names.antt =====
-- The names in `stubinfo` (src/stub.c).
use djstub.Base.{
  ℕ, zero, suc, ◌+◌, ◌≤◌, ◌<◌, ◌≡◌, ◌≢◌, refl, true, false, sym, ap, subst, ◌∙◌, ◌⊎◌, inl, inr,
  Option, none, some, List, [], ◌∷◌, ◌++◌, Bytes, byte_at, length, from_index, ◌==◌, ◌&&◌, not,
  eq→==, ne→==, lt→ltb, if◌then◌else◌, Bool-cases, arith,
}
use native.Mathlib.Decide.{ℕ_discrete}
use djstub.Libc.{or_else, no_nul_before, strncpy, store, find_nul, strcat, strrchr}
use djstub.Libc.Texts.{
  IsEnd, find_nul-IsEnd, IsEnd-unique, strcat-at, strcat-nul, strcat-apart, store-here, store-apart,
}
use djstub.Stub.Scan.{Search, parse_mz}
use djstub.Stub.Info.{skip_first, basename, payload_info, text_dbg}

strncpy-cases :
    (dst src : Bytes) (n i : ℕ) → i < n → (strncpy dst src n i ≡ src i) ⊎ (strncpy dst src n i ≡ 0)
unfolding strncpy
strncpy-cases dst src n i l = elim (Bool-cases (no_nul_before src i)) [
  | inl c ↦ inl (rw (lt→ltb i n l, c))
  | inr c ↦ inr (rw (lt→ltb i n l, c))
]

strncpy-first : (dst src : Bytes) (n : ℕ) → 0 < n → strncpy dst src n 0 ≡ src 0
unfolding strncpy no_nul_before
strncpy-first dst src n l = rw (lt→ltb 0 n l)

-- A byte that `strncpy` has copied, unless it is a NUL.
strncpy-copied :
    (dst src : Bytes) (n i : ℕ) → i < n → strncpy dst src n i ≢ 0 → strncpy dst src n i ≡ src i
strncpy-copied dst src n i l h = elim (strncpy-cases dst src n i l) [
  | inl e ↦ e
  | inr e ↦ absurd (h e)
]

earlier_nul : (b : Bytes) (i : ℕ) → no_nul_before b i ≡ false → (j : ℕ) × (j < i) × (b j ≡ 0)
unfolding no_nul_before
earlier_nul b zero e = absurd (cc)
earlier_nul b (suc i) e = elim (ℕ_discrete (b i) 0) [
  | yes z ↦ (i, omega arith, z)
  | no n ↦ elim (Bool-cases (no_nul_before b i)) [
    | inl c ↦
        let t : (no_nul_before b i && not (b i == 0)) ≡ true = rw (c, ne→== (b i) 0 n) refl in
        absurd cc
    | inr c ↦ let (j, l, z) = earlier_nul b i c in (j, omega arith, z)
  ]
]

-- Where `strncpy` leaves a NUL, the text has one there or before.
strncpy-ends :
    (dst src : Bytes) (n i : ℕ)
    → i < n
    → strncpy dst src n i ≡ 0
    → (src i ≡ 0) ⊎ ((j : ℕ) × (j < i) × (src j ≡ 0))
unfolding strncpy
strncpy-ends dst src n i l e = elim (Bool-cases (no_nul_before src i)) [
  | inl c ↦ inl (sym (rw (lt→ltb i n l, c) refl) ∙ e)
  | inr c ↦ inr (earlier_nul src i c)
]

-- The name of the second payload: the `k` bytes of the header up to the first NUL or, where there
-- is none in 12 bytes, all of these, and ".dbg" behind them.
pub record HasName (buf : Bytes) (name : Bytes) (k : ℕ) : Type 0 where
  pub short : k ≤ 12
  pub same : (i : ℕ) → i < k → name i ≡ buf (0x30 + i)
  pub suffix : (j : ℕ) → j < 4 → name (k + j) ≡ byte_at text_dbg j
  pub nul : name (k + 4) ≡ 0
  pub whole : k < 12 → buf (0x30 + k) ≡ 0

module _ (old src : Bytes) where
  -- The name as the header leaves it.
  abbrev named : Bytes
  named = store (strncpy old src 12) 12 0

  abbrev end : ℕ
  end = find_nul 20 named 0

  end-IsEnd : IsEnd 20 named 0 end
  end-IsEnd = find_nul-IsEnd 20 named 0

  end-short : end ≤ 12
  end-short =
      IsEnd-unique 20 named 0 end 12 end-IsEnd (store-here (strncpy old src 12) 12 0) (omega arith)

  named-copied : (i : ℕ) → i < end → named i ≡ src i
  named-copied i l =
      let apart = store-apart (strncpy old src 12) 12 0 i (omega (arith, end-short)) in
      apart
      ∙ strncpy-copied old src 12 i (omega (arith, end-short))
          (λ z. end-IsEnd.no_nul i (omega arith) l (apart ∙ z))

  end-nul : end < 12 → strncpy old src 12 end ≡ 0
  end-nul l =
      sym (store-apart (strncpy old src 12) 12 0 end (omega arith)) ∙ end-IsEnd.nul (omega arith)

  -- The name of the header is whole where it is shorter than its field.
  end-whole : end < 12 → src end ≡ 0
  end-whole l = elim (strncpy-ends old src 12 end l (end-nul l)) [
    | inl e ↦ e
    | inr (j, m, e) ↦ absurd (end-IsEnd.no_nul j (omega arith) m (named-copied j m ∙ e))
  ]

  strcat-same : (i : ℕ) → i < end → strcat 20 named text_dbg i ≡ src i
  strcat-same i l = strcat-apart 20 named text_dbg i (inl l) ∙ named-copied i l

  strcat-rest : (i : ℕ) → 17 ≤ i → strcat 20 named text_dbg i ≡ named i
  strcat-rest i l = strcat-apart 20 named text_dbg i (inr (omega (arith, end-short)))

-- Where a header gives a name for the second payload, the name in `stubinfo` in the end is the
-- name of the header up to its first NUL, or its first 12 bytes where there is none in them, with
-- ".dbg" and a NUL behind it, and no byte from the 17th on has changed since the header was read
-- (the field has 20).
pub payload_info-HasName :
    (ifile : ℕ) (buf : Bytes) (s : Search)
    → buf 0x30 ≢ 0
    → let info = (parse_mz buf s).info in
      let name = (payload_info ifile (parse_mz buf s) info).payload2_name in
      (k : ℕ) × HasName buf name k × ((i : ℕ) → 17 ≤ i → name i ≡ info.payload2_name i)
unfolding parse_mz payload_info
payload_info-HasName ifile buf s h =
    let old = s.info.payload2_name in
    let src = from_index 0x30 buf in
    let first =
      store-apart (strncpy old src 12) 12 0 0 (omega arith)
      ∙ strncpy-first old src 12 (omega arith) in
    rw (ne→== (named old src 0) 0 (λ z. h (sym first ∙ z))) (
      end old src,
      record {
        short = end-short old src;
        same = strcat-same old src;
        suffix = λ j l. strcat-at 20 (named old src) text_dbg j l;
        nul = strcat-nul 20 (named old src) text_dbg;
        whole = end-whole old src;
      },
      strcat-rest old src,
    )

abbrev backslash : ℕ
backslash = b'\\'

abbrev pub HasNone : List ℕ → Type 0
HasNone s = (i : ℕ) → i < length s → byte_at s i ≢ b'\\'

-- What `_basename` makes of a name: the name, or the part behind a backslash, and in it is none.
pub data IsBasename (name : List ℕ) : List ℕ → Type 0 where
  whole : HasNone name → IsBasename name name
  behind :
      {base : List ℕ}
      → (front : List ℕ) → name ≡ front ++ b'\\' ∷ base
      → HasNone base
      → IsBasename name base

-- What `strrchr` finds.
data IsLast (s : List ℕ) : Option (List ℕ) → Type 0 where
  missing : HasNone s → IsLast s none
  found :
      {p : List ℕ}
      → (front base : List ℕ) → p ≡ backslash ∷ base
      → s ≡ front ++ backslash ∷ base
      → HasNone base
      → IsLast s (some p)

HasNone-cons : (x : ℕ) (s : List ℕ) → x ≢ backslash → HasNone s → HasNone (x ∷ s)
HasNone-cons x s e h zero l = e
HasNone-cons x s e h (suc i) l = h i (omega arith)

IsLast-head :
    (x : ℕ) (s : List ℕ)
    → HasNone s
    → IsLast (x ∷ s) (if x == backslash then some (x ∷ s) else none)
IsLast-head x s h = elim (ℕ_discrete x backslash) [
  | yes e ↦ rw (eq→== x backslash e) (found [] s (ap (λ x. x ∷ s) e) (ap (λ x. x ∷ s) e) h)
  | no e ↦ rw (ne→== x backslash e) (missing (HasNone-cons x s e h))
]

IsLast-cons :
    {o : Option (List ℕ)} (x : ℕ) (s : List ℕ)
    → IsLast s o
    → IsLast (x ∷ s) (or_else o (if x == backslash then some (x ∷ s) else none))
IsLast-cons x s (missing h) = IsLast-head x s h
IsLast-cons x s (found front base e e' h) = found (x ∷ front) base e (ap (λ s. x ∷ s) e') h

strrchr-IsLast : (s : List ℕ) → IsLast s (strrchr s backslash)
unfolding strrchr
strrchr-IsLast [] = missing (λ i l. absurd (omega arith))
strrchr-IsLast (x ∷ s) = IsLast-cons x s (strrchr-IsLast s)

IsBasename-of :
    (name : List ℕ) (o : Option (List ℕ))
    → IsLast name o
    → IsBasename name (elim o [ none ↦ name | some p ↦ skip_first p ])
IsBasename-of name none (missing h) = whole h
IsBasename-of name (some p) (found front base e e' h) =
    subst (IsBasename name) (sym (ap skip_first e)) (behind front e' h)

-- `_basename` returns the name if there is no backslash in it, and the part behind a backslash
-- that has none in it if there is.
pub basename-IsBasename : (name : List ℕ) → IsBasename name (basename name)
unfolding basename
basename-IsBasename name = IsBasename-of name (strrchr name backslash) (strrchr-IsLast name)
