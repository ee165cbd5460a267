-- ===== src/Elf/Image.antt =====
-- What it means that the segments of an ELF file (src/elf.h) are in client memory, and when
-- they can be.
use Prim.Native.Nat.{max}
use native.Mathlib.Decide.{ℕ_discrete}
use djstub.Base.{
  ℕ, ◌+◌, ◌-◌, ◌%◌, ◌≤◌, ◌<◌, ◌≡◌, ◌≢◌, ◌⊎◌, ap, inl, inr, List, [], ◌∷◌, Bytes, u32_mod, ltb, ◌==◌,
  eq→==, ne→==, if◌then◌else◌, arith,
}
use djstub.Run.{File, off_limit}
use djstub.Util.FilePart.{Holds, Zeros}
use djstub.Elf.{Phdr, pt_load}
use djstub.Elf.Ranges.{Within}

-- The segment's bytes stand in the file, and its image stays below `hi`.
pub record Fits (f : File) (offset hi : ℕ) (p : Phdr) : Type 0 where
  pub in_file : offset + p.p_offset + p.p_filesz ≤ f.size
  pub file_small : f.size < off_limit
  pub size_le : p.p_filesz ≤ p.p_memsz
  pub in_memory : p.p_vaddr + p.p_memsz + 1 ≤ hi
  pub hi_small : hi < u32_mod

-- The segment is at its virtual address: its bytes of the file, then zeros.
pub record IsLoaded (f : File) (offset b : ℕ) (mem : Bytes) (p : Phdr) : Type 0 where
  pub file_part : Holds f b (offset + p.p_offset) p.p_vaddr p.p_filesz mem
  pub zero_part : Zeros b (p.p_vaddr + p.p_filesz) (p.p_vaddr + p.p_memsz) mem

-- The loadable segments fit, and stand in the order of their addresses from `lo` on, with no
-- overlap.
pub data Placed (f : File) (offset hi : ℕ) : ℕ → List Phdr → Type 0 where
  done : {lo : ℕ} → Placed f offset hi lo []
  skip :
      {lo : ℕ} {p : Phdr} {ps : List Phdr}
      → p.p_type ≢ pt_load
      → Placed f offset hi lo ps
      → Placed f offset hi lo (p ∷ ps)
  load :
      {lo : ℕ} {p : Phdr} {ps : List Phdr}
      → p.p_type ≡ pt_load
      → Fits f offset hi p
      → lo ≤ p.p_vaddr
      → Placed f offset hi (p.p_vaddr + p.p_memsz) ps
      → Placed f offset hi lo (p ∷ ps)

-- Every loadable segment of the list is loaded.
abbrev pub AllLoaded : File → ℕ → ℕ → Bytes → List Phdr → Type 0
AllLoaded f offset b mem [] = Unit {0}
AllLoaded f offset b mem (p ∷ ps) =
    (p.p_type ≡ pt_load → IsLoaded f offset b mem p) × AllLoaded f offset b mem ps

-- Whether a byte behind the segment pads what is written last of it, its zeros or else its bytes
-- of the file, to an even size.
abbrev pub pad : Phdr → ℕ
pad p = (if ltb p.p_filesz p.p_memsz then p.p_memsz - p.p_filesz else p.p_filesz) % 2

-- The offset is in no loadable segment, and in no byte that pads one.
abbrev pub AllApart : ℕ → List Phdr → Type 0
AllApart x [] = Unit {0}
AllApart x (p ∷ ps) =
    (p.p_type ≡ pt_load → (x < p.p_vaddr) ⊎ (p.p_vaddr + p.p_memsz + pad p ≤ x)) × AllApart x ps

-- 1 if any loadable segment is padded, and 0 if none is.
abbrev pub padding : List Phdr → ℕ
padding [] = 0
padding (p ∷ ps) = let rest = padding ps in if p.p_type == pt_load then max (pad p) rest else rest

pub pad-le : (p : Phdr) → pad p ≤ 1
pad-le p = omega arith

padding-load : (p : Phdr) (ps : List Phdr) → p.p_type ≡ pt_load → pad p ≤ padding (p ∷ ps)
padding-load p ps is = omega (
  arith,
  ap (λ b. if b then max (pad p) (padding ps) else padding ps) (eq→== p.p_type pt_load is),
)

padding-rest : (p : Phdr) (ps : List Phdr) → padding ps ≤ padding (p ∷ ps)
padding-rest p ps = elim (ℕ_discrete p.p_type pt_load) [
  | yes is ↦ omega (
    arith,
    ap (λ b. if b then max (pad p) (padding ps) else padding ps) (eq→== p.p_type pt_load is),
  )
  | no other ↦ omega (
    arith,
    ap (λ b. if b then max (pad p) (padding ps) else padding ps) (ne→== p.p_type pt_load other),
  )
]

pub padding-le : (ps : List Phdr) → padding ps ≤ 1
padding-le [] = omega arith
padding-le (p ∷ ps) = elim (ℕ_discrete p.p_type pt_load) [
  | yes is ↦ omega (
    arith,
    pad-le p,
    padding-le ps,
    ap (λ b. if b then max (pad p) (padding ps) else padding ps) (eq→== p.p_type pt_load is),
  )
  | no other ↦ omega (
    arith,
    padding-le ps,
    ap (λ b. if b then max (pad p) (padding ps) else padding ps) (ne→== p.p_type pt_load other),
  )
]

-- What is outside a range that all segments lie in, and its padding, is in none.
pub Within-AllApart :
    (beg end pads x : ℕ) (ps : List Phdr)
    → Within beg end ps
    → padding ps ≤ pads
    → (x < beg) ⊎ (end + pads ≤ x)
    → AllApart x ps
Within-AllApart beg end pads x [] w le o = tt
Within-AllApart beg end pads x (p ∷ ps) (w, within) le o = (
  λ is.
      let (low, high) = w is in
      let some_pad = padding-load p ps is in
      elim o [ inl l ↦ inl (omega arith) | inr l ↦ inr (omega arith) ],
  Within-AllApart beg end pads x ps within (omega (arith, padding-rest p ps)) o,
)
