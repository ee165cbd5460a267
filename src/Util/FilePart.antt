-- ===== src/Util/FilePart.antt =====
-- A part of the executable that `_long_read` of src/util.c has put into client memory, behind the
-- `lseek` that both loaders make first.
use djstub.Base.{
  ℕ, ◌+◌, ◌%◌, ◌≤◌, ◌<◌, ◌≡◌, sym, ap, ◌∙◌, ◌⊎◌, inl, some, Bytes, add32, u32_mod, arith, lt→ltb,
}
use djstub.Run.{File, World, Host, ok, off_limit, set_pos, seek_set}
use djstub.Run.Returns.{Returns, mono}
use djstub.Util.FarMem.{FarPtr, lin}
use djstub.Util.Transfer.{Transfer}
use djstub.Util.LongRead.{long_read}
use djstub.Run.Reads.{Sound}
use djstub.Util.LongRead.Complete.{long_read-Transfer}

-- The file `f`, at any position.
abbrev pub IsOpen : File → World → Type 0
IsOpen f w = w.file ≡ record f { pos = w.file.pos }

-- Offsets below `lo` and from `hi` on are as before.
abbrev pub Outside : ℕ → ℕ → ℕ → Bytes → Bytes → Type 0
Outside b lo hi mem mem' =
    (x : ℕ) → x < u32_mod → (x < lo) ⊎ (hi ≤ x) → mem' (lin b x) ≡ mem (lin b x)

-- The `n` bytes of the file from `from` on stand at offset `dest`.
abbrev pub Holds : File → ℕ → (from dest n : ℕ) → Bytes → Type 0
Holds f b from dest n mem = (i : ℕ) → i < n → mem (lin b (dest + i)) ≡ f.content (from + i)

abbrev pub Zeros : ℕ → (lo hi : ℕ) → Bytes → Type 0
Zeros b lo hi mem = (x : ℕ) → lo ≤ x → x < hi → mem (lin b x) ≡ 0

pub record HasPart (f : File) (b from dest n : ℕ) (w w' : World) : Type 0 where
  pub is_open : IsOpen f w'
  pub scns : w'.scns ≡ w.scns
  pub holds : Holds f b from dest n w'.mem
  pub outside : Outside b dest (dest + n + n % 2) w.mem w'.mem

pub seek_set-run : (x : ℕ) (w : World) → x < off_limit → seek_set x w ≡ ok tt (set_pos x w)
unfolding seek_set
seek_set-run x w h = rw (lt→ltb x off_limit h)

-- What is held stays so under writes behind it.
pub Holds-Outside :
    (f : File) (b from dest n lo hi : ℕ) (mem mem' : Bytes)
    → dest + n ≤ lo
    → lo < u32_mod
    → Outside b lo hi mem mem'
    → Holds f b from dest n mem
    → Holds f b from dest n mem'
Holds-Outside f b from dest n lo hi mem mem' le small o h i l =
    o (dest + i) (omega arith) (inl (omega arith)) ∙ h i l

module _ (f : File) (b from dest n : ℕ) (w w' : World) (opened : IsOpen f w) where
  Transfer-HasPart : Transfer b dest n (set_pos from w) w' → HasPart f b from dest n w w'
  Transfer-HasPart t = record {
    is_open =
        t.file
        ∙ ap (λ (g : File). record g { pos = from + n }) opened
        ∙ ap (λ (q : ℕ). record f { pos = q }) (ap (λ (g : File). g.pos) (sym t.file));
    scns = t.scns;
    holds = λ i h. t.inside i h ∙ ap (λ (g : File). g.content (from + i)) opened;
    outside = t.outside;
  }

module _ (host : Host) (ptr : FarPtr) (base : ℕ) (answer : host.segment_base ptr.seg ≡ some base)
    (f : File) (sound : Sound f) where
  pub long_read-HasPart :
      (from dest n : ℕ) (w : World)
      → from + n ≤ f.size
      → dest + n + 1 < u32_mod
      → IsOpen f w
      → Returns
          (λ m w'. (m ≡ n) × HasPart f (add32 base ptr.off) from dest n w w')
          (long_read host ptr dest n (set_pos from w))
  long_read-HasPart from dest n w in_file room opened =
      let size : w.file.size ≡ f.size = ap (λ (g : File). g.size) opened in
      mono
        (long_read-Transfer host ptr dest base answer n (set_pos from w) (omega arith)
          (λ q. ap (λ (g : File). g.faulty q) opened ∙ sound q) (omega arith))
        λ m w' h. (h.0, Transfer-HasPart f (add32 base ptr.off) from dest n w w' opened h.1)
