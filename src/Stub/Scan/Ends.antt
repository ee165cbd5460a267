-- ===== src/Stub/Scan/Ends.antt =====
-- When the search of `fullstub` (src/stub.c) ends.
use native.Mathlib.Decide.{dec_lt}
use djstub.Base.{
  ℕ, zero, suc, ◌+◌, ◌-◌, ◌≤◌, ◌<◌, ◌≡◌, refl, sym, subst, ◌∙◌, inl, inr, true, false, word32,
  Bool-cases, arith,
}
use djstub.Run.{File, World, Host, ok, exit_failure, out_of_fuel, off_limit}
use djstub.Run.Reads.{Sound}
use djstub.Stub.Scan.{
  Format, coff, elf, Search, buf_size, is_mz, is_coff, is_elf, parse_mz, search_loop,
}
use djstub.Stub.Scan.Chain.{
  header_at, Chain, at_coff, at_elf, at_mz, At, moved, round_mz, round_coff, round_elf, round_other,
  round_short,
}

parse_mz-coffset : (buf : ℕ → ℕ) (s : Search) → (parse_mz buf s).coffset ≡ word32 buf 0x3c
unfolding parse_mz
parse_mz-coffset buf s = refl

-- What a run of the search may come to, other than the lack of fuel.
pub data Ended (host : Host) (f : File) (k : ℕ) (s : Search) (w : World) : Type 0 where
  refused : search_loop host k s w ≡ exit_failure → Ended host f k s w
  found :
      (format : Format) (r : Search)
      → search_loop host k s w ≡ ok (format, r) (moved host f w r.coffset)
      → Chain host f s format r
      → Ended host f k s w

module _ (host : Host) (f : File) where
  -- Every MZ header of the file points behind itself.
  abbrev pub IsForward : Type 0
  IsForward =
      (o : ℕ)
      → o + buf_size ≤ f.size
      → is_mz (header_at host f o) ≡ true
      → (o < word32 (header_at host f o) 0x3c) × (word32 (header_at host f o) 0x3c < off_limit)

  module _ (sound : Sound f) (small : f.size < off_limit) where
    -- A header that is not an MZ header ends the search.
    Ended-plain :
        (k : ℕ) (s : Search) (w : World)
        → At host f s.coffset w
        → s.coffset + buf_size ≤ f.size
        → is_mz (header_at host f s.coffset) ≡ false
        → Ended host f (suc k) s w
    Ended-plain k s w at room mz = elim (Bool-cases (is_coff (header_at host f s.coffset))) [
      | inl c ↦
          found coff s (round_coff host f sound k s w at room (omega arith) mz c)
            (at_coff room mz c)
      | inr other ↦ elim (Bool-cases (is_elf (header_at host f s.coffset))) [
        | inl e ↦
            found elf s (round_elf host f sound k s w at room (omega arith) mz other e)
              (at_elf room mz other e)
        | inr none ↦ refused (round_other host f sound k s w at room mz other none)
      ]
    ]

    Ended-next :
        (k : ℕ) (s : Search) (w : World)
        → At host f s.coffset w
        → s.coffset + buf_size ≤ f.size
        → is_mz (header_at host f s.coffset) ≡ true
        → (parse_mz (header_at host f s.coffset) s).coffset < off_limit
        → Ended host f k
            (parse_mz (header_at host f s.coffset) s)
            (moved host f w (parse_mz (header_at host f s.coffset) s).coffset)
        → Ended host f (suc k) s w
    Ended-next k s w at room mz low (refused e) =
        refused (round_mz host f sound k s w at room mz low ∙ e)
    Ended-next k s w at room mz low (found format r e c) =
        found format r (round_mz host f sound k s w at room mz low ∙ e) (at_mz room mz low c)

    -- Let the file be smaller than 2 GiB, let no read fail and let every MZ header in it point
    -- behind itself, at an offset below 2 GiB. Then the search that starts at an offset ends with
    -- one round for each byte behind that offset and one more: it exits, or it returns the format
    -- and the variables at the end of the chain of headers that starts there and leaves the file
    -- at its offset.
    pub search_loop-Ended :
        (k : ℕ) (s : Search) (w : World)
        → IsForward
        → f.size - s.coffset < k
        → At host f s.coffset w
        → Ended host f k s w
    search_loop-Ended zero s w forward fuel at = absurd (omega arith)
    search_loop-Ended (suc k) s w forward fuel at = elim (dec_lt f.size (s.coffset + buf_size)) [
      | yes short ↦ refused (round_short host f sound k s w at short)
      | no room ↦ elim (Bool-cases (is_mz (header_at host f s.coffset))) [
        | inr mz ↦ Ended-plain k s w at (omega arith) mz
        | inl mz ↦
            let next = parse_mz (header_at host f s.coffset) s in
            let e = parse_mz-coffset (header_at host f s.coffset) s in
            let on = forward s.coffset (omega arith) mz in
            Ended-next k s w at (omega arith) mz (omega (arith, e, on.1)) (
              search_loop-Ended k next (moved host f w next.coffset) forward
                (omega (arith, e, on.0)) refl)
      ]
    ]

  -- Where an MZ header within the file, which no read fails on, points at its own offset, the
  -- search that reaches it uses up any fuel.
  pub search_loop-spins :
      (k : ℕ) (s : Search) (w : World)
      → Sound f
      → s.coffset + buf_size ≤ f.size
      → is_mz (header_at host f s.coffset) ≡ true
      → word32 (header_at host f s.coffset) 0x3c ≡ s.coffset
      → s.coffset < off_limit
      → At host f s.coffset w
      → search_loop host k s w ≡ out_of_fuel
  search_loop-spins zero s w sound room mz self low at = unfold search_loop in refl
  search_loop-spins (suc k) s w sound room mz self low at =
      let next = parse_mz (header_at host f s.coffset) s in
      let same : next.coffset ≡ s.coffset =
        parse_mz-coffset (header_at host f s.coffset) s ∙ self in
      round_mz host f sound k s w at room mz (omega (arith, same))
      ∙ search_loop-spins k next (moved host f w next.coffset) sound (omega (arith, same))
          (subst (λ o. is_mz (header_at host f o) ≡ true) (sym same) mz)
          (subst (λ o. word32 (header_at host f o) 0x3c ≡ o) (sym same) self) (omega (arith, same))
          refl
