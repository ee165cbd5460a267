-- ===== src/Elf/Bounds.antt =====
-- The address range that `read_elf_headers` of src/elf.c computes for the image.
use djstub.Base.{
  ℕ, ◌+◌, ◌≤◌, ◌<◌, ◌≡◌, refl, sym, ap, ◌∙◌, subst, ◌⊎◌, inl, inr, some, List, [], ◌∷◌, u32_mod,
  sub32, eq→==, arith,
}
use djstub.Elf.{Phdr, pt_load, grow_bounds, ElfH, Ehdr, make_handle}
use djstub.Elf.Ranges.{
  Grown, scan_phdrs-Grown, StartsAt-le, EndsAt-lt, AllHigh, Within, StartsAt, EndsAt, HasLoadable,
  HasLoadable-lt, StartsAt-HasLoadable, EndsAt-HasLoadable,
}

-- The handle's range is the hull of the loadable segments, or empty where there are none.
pub record IsHull (h : ElfH) (ps : List Phdr) : Type 0 where
  pub within : Within h.va (h.va + h.length) ps
  pub start : HasLoadable ps → StartsAt h.va ps
  pub stop : HasLoadable ps → EndsAt (h.va + h.length) ps
  pub empty : ¬ HasLoadable ps → (h.va ≡ 0) × (h.length ≡ 0)

Grown-IsHull :
    (ps : List Phdr) (beg end entry : ℕ)
    → AllHigh ps
    → Grown ps 0 0 beg end
    → IsHull (record { va = beg; length = sub32 end beg; entry = entry; phdr = ps }) ps
Grown-IsHull ps beg end entry high g = record {
  within = subst (λ t. Within beg t ps) (sym whole) g.within;
  start = λ l. elim g.start [ inl e ↦ absurd (g.ne_zero l e) | inr s ↦ s ];
  stop = λ l. elim g.stop [
    | inl e ↦ absurd (omega (arith, e, HasLoadable-lt beg end l high g.within))
    | inr s ↦ subst (λ t. EndsAt t ps) (sym whole) s
  ];
  empty = λ n.
      let b = start_zero n g.start in
      let e = stop_zero n g.stop in (b, ap (sub32 end) b ∙ ap (λ e. sub32 e 0) e);
}
  where
    start_zero : ¬ HasLoadable ps → (beg ≡ 0) ⊎ StartsAt beg ps → beg ≡ 0
    start_zero n (inl e) = e
    start_zero n (inr s) = absurd (n (StartsAt-HasLoadable s))

    stop_zero : ¬ HasLoadable ps → (end ≡ 0) ⊎ EndsAt end ps → end ≡ 0
    stop_zero n (inl e) = e
    stop_zero n (inr s) = absurd (n (EndsAt-HasLoadable s))

    le : (beg ≡ 0) ⊎ StartsAt beg ps → beg ≤ end
    le (inl e) = omega arith
    le (inr s) = StartsAt-le beg end s g.within

    small : (end ≡ 0) ⊎ EndsAt end ps → end < u32_mod
    small (inl e) = omega arith
    small (inr s) = EndsAt-lt s high

    whole : beg + sub32 end beg ≡ end
    whole = omega (arith, le g.start, small g.stop)

-- Where every loadable segment is aligned to 4096, stands above address 0 and ends within the
-- address space, the headers give a handle with the entry point of the header and the program
-- headers given. Its range, `va` to `va + length`, contains every loadable segment. Where there is
-- one, the range starts where one starts and ends where one ends; where there is none, `va` and
-- `length` are 0.
pub make_handle-IsHull :
    (ehdr : Ehdr) (ps : List Phdr)
    → AllHigh ps
    → (h : ElfH) × (make_handle ehdr ps ≡ some h)
      × (h.entry ≡ ehdr.e_entry)
      × (h.phdr ≡ ps)
      × IsHull h ps
unfolding make_handle
make_handle-IsHull ehdr ps high =
    let (beg, end, e, g) = scan_phdrs-Grown ps 0 0 high in
    (
      record { va = beg; length = sub32 end beg; entry = ehdr.e_entry; phdr = ps },
      rw (e, make_handle),
      refl,
      refl,
      Grown-IsHull ps beg end ehdr.e_entry high g,
    )

-- Of two loadable segments aligned to 4096, the first at address 0 and the second above it, the
-- first is left out of the range: the handle's range starts at the second.
pub make_handle-drops_zero :
    (ehdr : Ehdr) (p q : Phdr)
    → p.p_type ≡ pt_load
    → p.p_align ≡ 4096
    → p.p_vaddr ≡ 0
    → q.p_type ≡ pt_load
    → q.p_align ≡ 4096
    → 0 < q.p_vaddr
    → (h : ElfH) × (make_handle ehdr (p ∷ q ∷ []) ≡ some h) × (h.va ≡ q.p_vaddr)
unfolding make_handle
make_handle-drops_zero ehdr p q type_p align_p start_p type_q align_q start_q =
    let range = grow_bounds q (grow_bounds p (0, 0)) in
    (
      record {
        va = range.0;
        length = sub32 range.1 range.0;
        entry = ehdr.e_entry;
        phdr = p ∷ q ∷ [];
      },
      rw (
        eq→== p.p_type pt_load type_p,
        eq→== p.p_align 4096 align_p,
        eq→== q.p_type pt_load type_q,
        eq→== q.p_align 4096 align_q,
        make_handle,
      ),
      start,
    )
  where
    start : (grow_bounds q (grow_bounds p (0, 0))).0 ≡ q.p_vaddr
    start = ground arith
