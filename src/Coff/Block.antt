-- ===== src/Coff/Block.antt =====
-- The image of a COFF file (src/coff.c) within the block of memory behind the client's selector.
use Prim.Native.Nat.{max}
use djstub.Base.{Bytes, ◌%◌, ℕ, ◌+◌, ◌≤◌, ◌≡◌, subst, inl, inr, some, u32_mod, add32, sub32, arith}
use djstub.Run.{File, World, Host}
use djstub.Run.Returns.{Returns, mono}
use djstub.Run.Reads.{Sound}
use djstub.Util.FarMem.{FarPtr}
use djstub.Util.FilePart.{IsOpen}
use djstub.Util.Block.{OutsideBlock, Outside-block}
use djstub.Coff.{text, dat, bss, scn, CoffH, read_coff_sections}
use djstub.Coff.Sections.{InFile, IsLaidOut, Apart, HasImage, read_coff_sections-HasImage}

-- 1 if the size of any section is odd, and 0 if all are even.
abbrev pub padding : Bytes → ℕ
padding scns =
    max ((scn scns text).s_size % 2) (max ((scn scns dat).s_size % 2) ((scn scns bss).s_size % 2))

pub padding-le : (scns : Bytes) → padding scns ≤ 1
padding-le scns = omega arith

behind-Apart :
    (scns : Bytes)
    → IsLaidOut scns
    → (x : ℕ) → (scn scns bss).s_vaddr + (scn scns bss).s_size + padding scns ≤ x
    → Apart scns x
behind-Apart scns laid x l = record {
  of_text = inr (omega (arith, laid.text_data, laid.data_bss));
  of_data = inr (omega (arith, laid.data_bss));
  of_bss = inr (omega arith);
}

module _ (host : Host) (ptr : FarPtr) (offset base mem_lin : ℕ)
    (answer : host.segment_base ptr.seg ≡ some base) (f : File) (sound : Sound f) where
  -- Let no read of the open file fail, let the bytes of text and data stand in the file, which is
  -- smaller than 2 GiB, let text, data and bss follow one another in memory with no overlap and
  -- end below the end of the address space, and let the handle have the length that
  -- `read_coff_headers` computes. Let the selector's base be the address `mem_lin`, with room
  -- there for the length and one byte more. Then `read_coff_sections` returns, the image of the
  -- three sections is in memory at that base, and no linear address has changed but the `h.length`
  -- bytes from `mem_lin` on and, only where a section has an odd size, the one byte behind them.
  pub read_coff_sections-InBlock :
      (h : CoffH) (w : World)
      → InFile f offset (scn w.scns text)
      → InFile f offset (scn w.scns dat)
      → IsLaidOut w.scns
      → h.length ≡ add32 (scn w.scns bss).s_vaddr (scn w.scns bss).s_size
      → mem_lin + h.length + 1 ≤ u32_mod
      → add32 base ptr.off ≡ sub32 mem_lin 0
      → IsOpen f w
      → Returns
          (λ _ w'.
            HasImage f offset (sub32 mem_lin 0) w.scns w'.mem w.mem
            × OutsideBlock mem_lin (h.length + padding w.scns) w.mem w'.mem)
          (read_coff_sections host h ptr offset w)
  read_coff_sections-InBlock h w in_text in_data laid length room at opened =
      mono
        (read_coff_sections-HasImage host ptr offset base answer f sound h w in_text in_data laid
          opened)
        λ _ w' r.
          let image = subst (λ b. HasImage f offset b w.scns w'.mem w.mem) at r in
          (
            image,
            Outside-block mem_lin 0 (h.length + padding w.scns) w.mem w'.mem (omega arith)
                (omega (arith, laid.no_wrap))
                λ x small o. image.untouched x small (elim o [
                  | inl l ↦ absurd (omega arith)
                  | inr l ↦ behind-Apart w.scns laid x (omega (arith, laid.no_wrap))
                ]),
          )
