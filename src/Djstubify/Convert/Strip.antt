-- ===== src/Djstubify/Convert/Strip.antt =====
-- `coff2exe` of djstubify2.py with -s on a file that -g has linked with three overlays.
use djstub.Base.{
  ℕ, suc, ◌+◌, ◌-◌, ◌*◌, ◌/◌, ◌%◌, ◌≤◌, ◌<◌, ◌≡◌, ◌≢◌, ◌⊎◌, inl, inr, true, false, ◌||◌, refl, ◌∙◌,
  some, List, ◌∷◌, [], Bytes, from_index, word16, word32, ne→==, eq→==, ◌==◌, le→ltb, lt→leb, arith,
  ap, u32_mod,
}
use djstub.Libc.{store}
use djstub.Asm.Memory.{store16, store32, word32-store32_apart, word16-store32_apart}
use djstub.Stub.Scan.{Format, is_mz}
use djstub.Djstubify.{Blob, Link, size_at}
use djstub.Djstubify.Parts.{write_u32-run}
use djstub.Djstubify.Convert.{
  Walk, Mode, again, Last, last_loop, last_overlay, strip_overlay, walk_stub, walk, no_walk,
}
use djstub.Djstubify.Find.{map_of}
use djstub.Djstubify.Linked.{IsLinked}
use djstub.Djstubify.Started.{Begins}
use djstub.Djstubify.Convert.Walked.{
  announces, behind_stub, buf-is_mz, round_stub, payload_room, payload_round,
}
use djstub.Djstubify.Convert.Copy.{IsCopied}
use djstub.Djstubify.Convert.Table.{
  new_stub, new_stub-outside, table_word32, table_word16, table_stub_size,
}

-- With -s.
abbrev pub stripping : Mode
stripping = record { rmstub = false; strip = true }

-- A round of the loop over the types.
module _ (k t m : ℕ) (mv : Bytes) (l : Last) (pos : 0 < t) (lim : t < 0x10) where
  last_loop-on :
      size_at mv l.i ≢ 0
      → last_loop (suc k) (t + 0x10 * m) mv l
        ≡ last_loop k m mv (record {
          type_val = t;
          sz = size_at mv l.i;
          i = l.i + 1;
          offs = l.offs + size_at mv l.i;
        })
  unfolding last_loop
  last_loop-on ne =
      let value : (t + 0x10 * m) % 0x10 ≡ t = omega arith in
      let rest : (t + 0x10 * m) / 0x10 ≡ m = omega arith in
      rw (ne→== (t + 0x10 * m) 0 (omega arith), ne→== (size_at mv l.i) 0 ne) (rw (value, rest) refl)

  last_loop-break :
      size_at mv l.i ≡ 0
      → last_loop (suc k) (t + 0x10 * m) mv l
        ≡ some (record { type_val = t; sz = 0; i = l.i; offs = l.offs })
  unfolding last_loop
  last_loop-break e =
      let value : (t + 0x10 * m) % 0x10 ≡ t = omega arith in
      rw (ne→== (t + 0x10 * m) 0 (omega arith)) (rw e (rw value refl))

-- The last entry of a table of three sizes, the last of which may be 0.
module _ (b : Bytes) (t u d offs : ℕ) (map : word16 b 0x36 ≡ map_of (t ∷ u ∷ d ∷ [])) (pt : 0 < t)
    (pu : 0 < u) (pd : 0 < d) (lt : t < 0x10) (lu : u < 0x10) (ld : d < 0x10) (s0 : size_at b 0 ≢ 0)
    (s1 : size_at b 1 ≢ 0) where
  abbrev kept : ℕ
  kept = offs + size_at b 0 + size_at b 1

  abbrev two : Last
  two = record { type_val = u; sz = size_at b 1; i = 2; offs = kept }

  last_overlay-two : last_overlay b offs ≡ last_loop 3 (d + 0x10 * 0) b two
  unfolding last_overlay
  last_overlay-two = rw map (
      rw (ne→== (t + 0x10 * (u + 0x10 * (d + 0))) 0 (omega arith)) (
        last_loop-on 4 t (u + 0x10 * (d + 0)) b
          (record { type_val = 0; sz = 0; i = 0; offs = offs }) pt lt s0
        ∙ last_loop-on 3 u (d + 0) b
            (record { type_val = t; sz = size_at b 0; i = 1; offs = offs + size_at b 0 }) pu lu s1))

  pub last_overlay-full :
      size_at b 2 ≢ 0
      → last_overlay b offs
        ≡ some (record { type_val = d; sz = size_at b 2; i = 3; offs = kept + size_at b 2 })
  unfolding last_loop
  last_overlay-full s2 = last_overlay-two ∙ last_loop-on 2 d 0 b two pd ld s2

  pub last_overlay-bare :
      size_at b 2 ≡ 0
      → last_overlay b offs ≡ some (record { type_val = d; sz = 0; i = 2; offs = kept })
  last_overlay-bare s2 = last_overlay-two ∙ last_loop-break 2 d 0 b two pd ld s2

-- The variables behind the header of a stub whose last entry is `e`, with -s.
abbrev pub stripped : Blob → Last → Walk
stripped f e = record (behind_stub stripping f) {
  mzhdr_buf = record {
    content = store32 (0x1c + (e.i - 1) * 4) 0 (from_index 0 f.content);
    size = 0x40;
  };
  coff_file_size = e.offs - e.sz - word32 f.content 0x3c;
}

module _ (l : Link) (stub f a : Blob) (rest : List Blob) (h : IsLinked l stub f)
    (mz : is_mz stub.content ≡ true) (room : 0x40 ≤ stub.size) (ver : 8 ≤ l.stub_ver)
    (first : l.overlays ≡ a ∷ rest) (head : 0x40 ≤ a.size) (format : Format)
    (begins : Begins a.content format) (flag : announces l.stub_flags format ≡ true) (e : Last)
    (last : last_overlay (from_index 0 f.content) (word32 f.content 0x3c) ≡ some e)
    (debug : (e.type_val ≡ 4) ⊎ (e.type_val ≡ 5)) (two : 1 < e.i) (three : e.i ≤ 3) where
  debug_type : (e.type_val == 4 || e.type_val == 5) ≡ true
  debug_type = elim debug [
    | inl q ↦ rw (eq→== e.type_val 4 q) refl
    | inr q ↦ rw (ne→== e.type_val 4 (omega arith), eq→== e.type_val 5 q) refl
  ]

  strip_round : walk_stub stripping (from_index 0 f.content) no_walk ≡ some (again (stripped f e))
  unfolding walk_stub strip_overlay word16 word32
  strip_round = rw (le→ltb (f.content 0x3b) 8 (omega (arith, h.ver, ver))) (
      rw last (
        rw debug_type (
          rw (lt→leb e.i 1 two) (
            rw
              (write_u32-run (0x1c + (e.i - 1) * 4) 0
                (record { content = from_index 0 f.content; size = 0x40 }) (omega arith)
                (omega arith))
              refl))))

  pub walk-stripping : walk 2 stripping f no_walk ≡ some (stripped f e)
  unfolding walk
  walk-stripping = rw (le→ltb f.size 0x40 (omega (arith, h.size))) (
      rw
        (
          round_stub stripping (from_index 0 f.content) no_walk (buf-is_mz l stub f h mz room ver),
          strip_round,
        )
        (rw
          (le→ltb f.size (word32 f.content 0x3c + 0x40)
            (payload_room l stub f h mz room ver a rest first head))
          (rw
            (payload_round l stub f h mz room ver a rest first head stripping (stripped f e) format
              h.flags begins flag)
            refl)))

-- A stub with two files behind it and a table of three sizes.
pub record IsStripped (l : Link) (stub a b : Blob) (second : ℕ) (g : Blob) : Type 0 where
  pub size : g.size ≡ stub.size + a.size + b.size
  pub stub_size : word32 g.content 0x3c ≡ stub.size
  pub front : (q : ℕ) → q < 0x1c → g.content q ≡ stub.content q
  pub body : (q : ℕ) → 0x40 ≤ q → q < stub.size → g.content q ≡ stub.content q
  pub nmoffs : word32 g.content 0x28 ≡ l.nmoffs
  pub type_map : word16 g.content 0x36 ≡ l.type_map
  pub flags : word16 g.content 0x38 ≡ l.stub_flags
  pub ver : g.content 0x3b ≡ l.stub_ver
  pub size0 : size_at g.content 0 ≡ a.size
  pub size1 : size_at g.content 1 ≡ second
  pub size2 : size_at g.content 2 ≡ 0
  pub part0 : (j : ℕ) → j < a.size → g.content (stub.size + j) ≡ a.content j
  pub part1 : (j : ℕ) → j < b.size → g.content (stub.size + a.size + j) ≡ b.content j

module _ (l : Link) (stub stub' f g a b c : Blob) (h : IsLinked l stub f) (room : 0x40 ≤ stub'.size)
    (small : stub'.size < u32_mod) (three : l.overlays ≡ a ∷ b ∷ c ∷ []) (e : Last) where
  module _ (k : IsCopied (new_stub (stripped f e) stub' room small) f stub.size (a.size + b.size) g)
      (second : ℕ) (low : 1 < e.i) (high : e.i ≤ 3)
      (size1 : word32 (stripped f e).mzhdr_buf.content 0x20 ≡ second)
      (size2 : word32 (stripped f e).mzhdr_buf.content 0x24 ≡ 0) where
    out_ver : g.content 0x3b ≡ l.stub_ver
    unfolding store32 store16 store
    out_ver = k.below 0x3b (omega (arith, room)) ∙ h.ver

    pub out-IsStripped : IsStripped l stub' a b second g
    unfolding size_at word32 word16
    out-IsStripped = record {
      size = k.size ∙ omega arith;
      stub_size = table_stub_size (stripped f e) stub' f g stub.size (a.size + b.size) room small k;
      front = λ q p.
          k.below q (omega (arith, room))
          ∙ new_stub-outside (stripped f e) stub' room small q (inl p);
      body = λ q p r. k.below q r ∙ new_stub-outside (stripped f e) stub' room small q (inr p);
      nmoffs =
          table_word32 (stripped f e) stub' f g stub.size (a.size + b.size) room small k 0x28
            (omega arith) (omega arith)
          ∙ word32-store32_apart (0x1c + (e.i - 1) * 4) 0 0x28 (from_index 0 f.content)
              (omega arith)
          ∙ h.nmoffs;
      type_map =
          table_word16 (stripped f e) stub' f g stub.size (a.size + b.size) room small k 0x36
            (omega arith) (omega arith)
          ∙ word16-store32_apart (0x1c + (e.i - 1) * 4) 0 0x36 (from_index 0 f.content)
              (omega arith)
          ∙ h.type_map;
      flags =
          table_word16 (stripped f e) stub' f g stub.size (a.size + b.size) room small k 0x38
            (omega arith) (omega arith)
          ∙ word16-store32_apart (0x1c + (e.i - 1) * 4) 0 0x38 (from_index 0 f.content)
              (omega arith)
          ∙ h.flags;
      ver = out_ver;
      size0 =
          table_word32 (stripped f e) stub' f g stub.size (a.size + b.size) room small k 0x1c
            (omega arith) (omega arith)
          ∙ word32-store32_apart (0x1c + (e.i - 1) * 4) 0 0x1c (from_index 0 f.content)
              (omega arith)
          ∙ h.entry [] a (b ∷ c ∷ []) three;
      size1 =
          table_word32 (stripped f e) stub' f g stub.size (a.size + b.size) room small k 0x20
            (omega arith) (omega arith)
          ∙ size1;
      size2 =
          table_word32 (stripped f e) stub' f g stub.size (a.size + b.size) room small k 0x24
            (omega arith) (omega arith)
          ∙ size2;
      part0 = λ j p.
          k.copied j (omega arith)
          ∙ ap f.content (omega arith)
          ∙ h.part [] a (b ∷ c ∷ []) j three p;
      part1 = λ j p.
          ap g.content (omega arith)
          ∙ k.copied (a.size + j) (omega arith)
          ∙ ap f.content (omega arith)
          ∙ h.part (a ∷ []) b (c ∷ []) j three p;
    }
