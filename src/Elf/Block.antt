-- ===== src/Elf/Block.antt =====
-- The image of an ELF file (src/elf.c) stays within the range that its headers announce, and so
-- within the block of memory behind the client's selector.
use djstub.Base.{
  ℕ, ◌+◌, ◌≤◌, ◌<◌, ◌≡◌, sym, ap, subst, transport, ◌∙◌, ◌⊎◌, inl, inr, some, List, u32_mod, add32,
  sub32, arith,
}
use mathlib.Core.Option.{some-injective}
use djstub.Run.{File, World, Host}
use djstub.Run.Returns.{Returns, mono}
use djstub.Run.Reads.{Sound}
use djstub.Util.FarMem.{FarPtr}
use djstub.Util.Block.{OutsideBlock, Outside-block}
use djstub.Util.FilePart.{IsOpen, Outside}
use djstub.Elf.{Phdr, Ehdr, ElfH, make_handle, read_elf_sections}
use djstub.Elf.Ranges.{AllHigh, Within}
use djstub.Elf.Bounds.{IsHull, make_handle-IsHull}
use djstub.Elf.Image.{
  Placed, done, skip, load, AllLoaded, AllApart, padding, padding-le, Within-AllApart,
}
use djstub.Elf.Sections.{read_elf_sections-HasImage}

-- Segments that fit somewhere fit within their range.
Placed-Within :
    {f : File} {offset hi lo : ℕ} {ps : List Phdr}
    → (beg end lo' : ℕ) → end + 1 < u32_mod
    → Placed f offset hi lo ps
    → Within beg end ps
    → (lo' ≤ lo) ⊎ (lo' ≤ beg)
    → Placed f offset (end + 1) lo' ps
Placed-Within beg end lo' small done within h = done
Placed-Within beg end lo' small (skip other placed) (w, within) h =
    skip other (Placed-Within beg end lo' small placed within h)
Placed-Within beg end lo' small (load {p} is fits le placed) (w, within) h =
    let (start, stop) = w is in
    load is
      (record {
        in_file = fits.in_file;
        file_small = fits.file_small;
        size_le = fits.size_le;
        in_memory = omega arith;
        hi_small = small;
      })
      (omega arith)
      (Placed-Within beg end (p.p_vaddr + p.p_memsz) small placed within (inl (omega arith)))

module _ (host : Host) (f : File) (sound : Sound f) (ptr : FarPtr) (offset base mem_lin : ℕ)
    (answer : host.segment_base ptr.seg ≡ some base) where
  -- Let `h` be the handle of program headers whose loadable segments are aligned to 4096, stand
  -- above address 0, end two bytes or more before the end of the address space and, in the order
  -- of the headers, stand behind one another with no overlap, with their bytes in a file that is
  -- smaller than 2 GiB and that no read fails on. Let the client's selector have the base that
  -- lets `h.va` be at the address `mem_lin`, with room there for `h.length` bytes and one more.
  -- Then `read_elf_sections` returns, every loadable segment has its bytes of the file at its
  -- virtual address and zeros behind them, and no linear address has changed but the `h.length`
  -- bytes from `mem_lin` on and, only where the size of the part of a loadable segment that is
  -- written last (its zeros or, where it has none, its bytes of the file) is odd, the one byte
  -- behind them.
  pub read_elf_sections-InBlock :
      (ehdr : Ehdr) (ps : List Phdr) (h : ElfH) (hi : ℕ) (w : World)
      → AllHigh ps
      → Placed f offset hi 0 ps
      → make_handle ehdr ps ≡ some h
      → h.va + h.length + 1 < u32_mod
      → mem_lin + h.length + 1 ≤ u32_mod
      → add32 base ptr.off ≡ sub32 mem_lin h.va
      → IsOpen f w
      → Returns
          (λ _ w'.
            AllLoaded f offset (sub32 mem_lin h.va) w'.mem ps
            × OutsideBlock mem_lin (h.length + padding ps) w.mem w'.mem)
          (read_elf_sections host h ptr offset w)
  read_elf_sections-InBlock ehdr ps h hi w high placed made small room at opened =
      let (h', e, _, same, hull) = make_handle-IsHull ehdr ps high in
      let found : h' ≡ h = some-injective h' h (sym e ∙ made) in
      let phdr : ps ≡ h.phdr = sym same ∙ ap (λ h. h.phdr) found in
      let range = subst (λ h. IsHull h ps) found hull in
      let pads = padding ps in
      let end : h.va + h.length + 1 ≡ h.va + (h.length + 1) = omega arith in
      let fitting : Placed f offset (h.va + (h.length + 1)) h.va h.phdr =
        transport (λ i. Placed f offset (end i) h.va (phdr i))
          (Placed-Within h.va (h.va + h.length) h.va small placed range.within
            (inr (omega arith))) in
      mono
        (read_elf_sections-HasImage host ptr offset base answer f sound (h.va + (h.length + 1)) h
          h.va w fitting opened)
        λ _ w' r. (
          transport (λ i. AllLoaded f offset (at i) w'.mem (sym phdr i)) r.loaded,
          Outside-block mem_lin h.va (h.length + pads) w.mem w'.mem (omega (arith, padding-le ps))
              (omega (arith, padding-le ps))
              (subst (λ b. Outside b h.va (h.va + (h.length + pads)) w.mem w'.mem) at
                λ x hx o. r.untouched x hx (
                  subst (AllApart x) phdr (
                    Within-AllApart h.va (h.va + h.length) pads x ps range.within (omega arith)
                      (omega arith)))),
        )
