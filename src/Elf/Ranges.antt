-- ===== src/Elf/Ranges.antt =====
-- The range of the loadable segments that the loop over the program headers in src/elf.c computes.
use native.Mathlib.Decide.{ℕ_discrete}
use djstub.Base.{
  ℕ, ◌+◌, ◌≤◌, ◌<◌, ◌≡◌, ◌≢◌, refl, ◌∙◌, ◌⊎◌, inl, inr, some, List, [], ◌∷◌, u32_mod, add32, eq→==,
  ne→==, arith,
}
use djstub.Elf.{Phdr, pt_load, grow_bounds, scan_phdrs}

-- A loadable segment above address 0 whose end is an address.
pub record IsHigh (p : Phdr) : Type 0 where
  pub above_zero : 0 < p.p_vaddr
  pub no_wrap : p.p_vaddr + p.p_memsz < u32_mod

-- The loadable segments are aligned and high.
abbrev pub AllHigh : List Phdr → Type 0
AllHigh [] = Unit {0}
AllHigh (p ∷ ps) = (p.p_type ≡ pt_load → IsHigh p × (p.p_align ≡ 4096)) × AllHigh ps

-- Each loadable segment lies within the range.
abbrev pub Within : ℕ → ℕ → List Phdr → Type 0
Within beg end [] = Unit {0}
Within beg end (p ∷ ps) =
    (p.p_type ≡ pt_load → (beg ≤ p.p_vaddr) × (p.p_vaddr + p.p_memsz ≤ end)) × Within beg end ps

-- A loadable segment starts, or ends, at the address.
pub data StartsAt (a : ℕ) : List Phdr → Type 0 where
  here : {p : Phdr} {ps : List Phdr} → p.p_type ≡ pt_load → a ≡ p.p_vaddr → StartsAt a (p ∷ ps)
  there : {p : Phdr} {ps : List Phdr} → StartsAt a ps → StartsAt a (p ∷ ps)

pub data EndsAt (a : ℕ) : List Phdr → Type 0 where
  here :
      {p : Phdr} {ps : List Phdr}
      → p.p_type ≡ pt_load
      → a ≡ p.p_vaddr + p.p_memsz
      → EndsAt a (p ∷ ps)
  there : {p : Phdr} {ps : List Phdr} → EndsAt a ps → EndsAt a (p ∷ ps)

-- There is a loadable segment.
pub data HasLoadable : List Phdr → Type 0 where
  here : {p : Phdr} {ps : List Phdr} → p.p_type ≡ pt_load → HasLoadable (p ∷ ps)
  there : {p : Phdr} {ps : List Phdr} → HasLoadable ps → HasLoadable (p ∷ ps)

-- The range `(beg', end')` is the range `(beg, end)` grown by the segments and no further.
pub record Grown (ps : List Phdr) (beg end beg' end' : ℕ) : Type 0 where
  pub within : Within beg' end' ps
  pub below : beg ≢ 0 → (beg' ≤ beg) × (beg' ≢ 0)
  pub above : end ≤ end'
  pub ne_zero : HasLoadable ps → beg' ≢ 0
  pub start : (beg' ≡ beg) ⊎ StartsAt beg' ps
  pub stop : (end' ≡ end) ⊎ EndsAt end' ps

-- One segment.
record GrownBy (p : Phdr) (beg end beg' end' : ℕ) : Type 0 where
  le_start : beg' ≤ p.p_vaddr
  end_le : p.p_vaddr + p.p_memsz ≤ end'
  below : beg ≢ 0 → beg' ≤ beg
  ne_zero : beg' ≢ 0
  above : end ≤ end'
  start : (beg' ≡ beg) ⊎ (beg' ≡ p.p_vaddr)
  stop : (end' ≡ end) ⊎ (end' ≡ p.p_vaddr + p.p_memsz)

grow_bounds-GrownBy :
    (p : Phdr) (beg end : ℕ)
    → IsHigh p
    → GrownBy p beg end (grow_bounds p (beg, end)).0 (grow_bounds p (beg, end)).1
unfolding grow_bounds
grow_bounds-GrownBy p beg end h =
    let top : add32 p.p_vaddr p.p_memsz ≡ p.p_vaddr + p.p_memsz = omega arith in
    rw top (record {
      le_start = ground arith;
      end_le = ground arith;
      below = ground arith;
      ne_zero = ground arith;
      above = ground arith;
      start = ground arith;
      stop = ground arith;
    })

Grown-cons :
    (p : Phdr) (ps : List Phdr) (beg end b e beg' end' : ℕ)
    → p.p_type ≡ pt_load
    → GrownBy p beg end b e
    → Grown ps b e beg' end'
    → Grown (p ∷ ps) beg end beg' end'
Grown-cons p ps beg end b e beg' end' is g r =
    let low = r.below g.ne_zero in
    record {
      within = (λ _. (omega arith, omega arith), r.within);
      below = λ h. (omega (arith, g.below h), low.1);
      above = omega arith;
      ne_zero = λ _. low.1;
      start = start g.start r.start;
      stop = stop g.stop r.stop;
    }
  where
    start :
        (b ≡ beg) ⊎ (b ≡ p.p_vaddr)
        → (beg' ≡ b) ⊎ StartsAt beg' ps
        → (beg' ≡ beg) ⊎ StartsAt beg' (p ∷ ps)
    start _ (inr s) = inr (there s)
    start (inl q) (inl s) = inl (s ∙ q)
    start (inr q) (inl s) = inr (here is (s ∙ q))

    stop :
        (e ≡ end) ⊎ (e ≡ p.p_vaddr + p.p_memsz)
        → (end' ≡ e) ⊎ EndsAt end' ps
        → (end' ≡ end) ⊎ EndsAt end' (p ∷ ps)
    stop _ (inr s) = inr (there s)
    stop (inl q) (inl s) = inl (s ∙ q)
    stop (inr q) (inl s) = inr (here is (s ∙ q))

Grown-skip :
    (p : Phdr) (ps : List Phdr) (beg end beg' end' : ℕ)
    → p.p_type ≢ pt_load
    → Grown ps beg end beg' end'
    → Grown (p ∷ ps) beg end beg' end'
Grown-skip p ps beg end beg' end' other r = record {
  within = (λ is. absurd (other is), r.within);
  below = r.below;
  above = r.above;
  ne_zero = ne_zero;
  start = start r.start;
  stop = stop r.stop;
}
  where
    ne_zero : HasLoadable (p ∷ ps) → beg' ≢ 0
    ne_zero (here is) = absurd (other is)
    ne_zero (there l) = r.ne_zero l

    start : (beg' ≡ beg) ⊎ StartsAt beg' ps → (beg' ≡ beg) ⊎ StartsAt beg' (p ∷ ps)
    start (inl e) = inl e
    start (inr s) = inr (there s)

    stop : (end' ≡ end) ⊎ EndsAt end' ps → (end' ≡ end) ⊎ EndsAt end' (p ∷ ps)
    stop (inl e) = inl e
    stop (inr s) = inr (there s)

no_segment : ¬ HasLoadable []
no_segment l = elim l [ ]

pub scan_phdrs-Grown :
    (ps : List Phdr) (beg end : ℕ)
    → AllHigh ps
    → (beg' : ℕ) × (end' : ℕ) × (scan_phdrs ps (beg, end) ≡ some (beg', end'))
      × Grown ps beg end beg' end'
unfolding scan_phdrs
scan_phdrs-Grown [] beg end h = (
  beg,
  end,
  refl,
  record {
    within = tt;
    below = λ n. (omega arith, n);
    above = omega arith;
    ne_zero = λ l. absurd (no_segment l);
    start = inl refl;
    stop = inl refl;
  },
)
scan_phdrs-Grown (p ∷ ps) beg end h = elim (ℕ_discrete p.p_type pt_load) [
  | yes is ↦
      let g = grow_bounds p (beg, end) in
      let r = scan_phdrs-Grown ps g.0 g.1 h.1 in
      let high = h.0 is in
      (
        r.0,
        r.1,
        rw (eq→== p.p_type pt_load is, eq→== p.p_align 4096 high.1) r.2,
        Grown-cons p ps beg end g.0 g.1 r.0 r.1 is (grow_bounds-GrownBy p beg end high.0) r.3,
      )
  | no other ↦
      let r = scan_phdrs-Grown ps beg end h.1 in
      (r.0, r.1, rw (ne→== p.p_type pt_load other) r.2, Grown-skip p ps beg end r.0 r.1 other r.3)
]

pub StartsAt-le :
    {a : ℕ} {ps : List Phdr} (beg end : ℕ) → StartsAt a ps → Within beg end ps → a ≤ end
StartsAt-le beg end (here is e) w = omega (arith, e, (w.0 is).1)
StartsAt-le beg end (there s) w = StartsAt-le beg end s w.1

-- A loadable segment above 0 ends above 0.
pub HasLoadable-lt :
    {ps : List Phdr} (beg end : ℕ) → HasLoadable ps → AllHigh ps → Within beg end ps → 0 < end
HasLoadable-lt beg end (here is) h w = omega (arith, (h.0 is).0.above_zero, (w.0 is).1)
HasLoadable-lt beg end (there l) h w = HasLoadable-lt beg end l h.1 w.1

pub StartsAt-HasLoadable : {a : ℕ} {ps : List Phdr} → StartsAt a ps → HasLoadable ps
StartsAt-HasLoadable (here is e) = here is
StartsAt-HasLoadable (there s) = there (StartsAt-HasLoadable s)

pub EndsAt-HasLoadable : {a : ℕ} {ps : List Phdr} → EndsAt a ps → HasLoadable ps
EndsAt-HasLoadable (here is e) = here is
EndsAt-HasLoadable (there s) = there (EndsAt-HasLoadable s)

pub EndsAt-lt : {a : ℕ} {ps : List Phdr} → EndsAt a ps → AllHigh ps → a < u32_mod
EndsAt-lt (here is e) h = omega (arith, e, (h.0 is).0.no_wrap)
EndsAt-lt (there s) h = EndsAt-lt s h.1
