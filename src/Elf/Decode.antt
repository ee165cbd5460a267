-- ===== src/Elf/Decode.antt =====
-- The structures of src/elf.h in a buffer that holds more than them.
use mathlib.Core.Path.{ap₂}
use djstub.Base.{
  ℕ, zero, suc, ◌+◌, ◌*◌, ◌≤◌, ◌<◌, ◌≡◌, refl, ap, ◌∷◌, Bytes, fill, first-fill, Agree, word32-cong,
  from_index, word16, word32, arith,
}
use djstub.Elf.{decode_ehdr, decode_phdr, decode_phdrs, sizeof_ehdr, sizeof_phdr}

-- A structure read in full does not depend on what the buffer held.
pub decode_ehdr-fill : (old b : Bytes) → decode_ehdr (fill old sizeof_ehdr b) ≡ decode_ehdr b
unfolding decode_ehdr word16 word32
decode_ehdr-fill old b =
    ap (λ (ident : Bytes). record (decode_ehdr b) { e_ident = ident })
      (first-fill old b 16 sizeof_ehdr (omega arith))

pub decode_phdr-cong :
    {n : ℕ} (b c : Bytes) → Agree n b c → sizeof_phdr ≤ n → decode_phdr b ≡ decode_phdr c
unfolding decode_phdr
decode_phdr-cong b c h le = λ i. record {
  p_type = word 0 (omega arith) i;
  p_offset = word 4 (omega arith) i;
  p_vaddr = word 8 (omega arith) i;
  p_paddr = word 12 (omega arith) i;
  p_filesz = word 16 (omega arith) i;
  p_memsz = word 20 (omega arith) i;
  p_flags = word 24 (omega arith) i;
  p_align = word 28 (omega arith) i;
}
  where
    word : (k : ℕ) → k + 3 < sizeof_phdr → word32 b k ≡ word32 c k
    word k l = word32-cong b c k h (omega arith)

pub decode_phdrs-cong :
    (n : ℕ) (b c : Bytes) → Agree (sizeof_phdr * n) b c → decode_phdrs n b ≡ decode_phdrs n c
unfolding decode_phdrs
decode_phdrs-cong zero b c h = refl
decode_phdrs-cong (suc n) b c h = ap₂ ◌∷◌ (decode_phdr-cong b c h (omega arith)) (
    decode_phdrs-cong n (from_index sizeof_phdr b) (from_index sizeof_phdr c)
      λ i l. h (sizeof_phdr + i) (omega arith))
