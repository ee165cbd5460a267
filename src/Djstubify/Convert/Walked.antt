-- ===== src/Djstubify/Convert/Walked.antt =====
-- The walk of `coff2exe` (djstubify2.py) over a file that -g has linked.
use djstub.Base.{
  ℕ, ◌+◌, ◌≤◌, ◌<◌, ◌≡◌, refl, sym, ap, ◌∙◌, Bool, true, false, not, some, List, ◌∷◌, [], ◌||◌,
  ◌&&◌, ◌==◌, le→ltb, if◌then◌else◌, Bytes, from_index, word16, word32, arith,
}
use mathlib.Core.Path.{fun_ext}
use djstub.Stub.Scan.{Format, coff, elf, is_mz, is_coff, is_elf}
use djstub.Djstubify.{Blob, Link, total, find_offs, find_size}
use djstub.Djstubify.Convert.{
  Walk, Mode, again, leave, main_type, take_overlay, has_flag, walk_stub, walk_round, walk, no_walk,
}
use djstub.Djstubify.Linked.{IsLinked}
use djstub.Djstubify.Started.{Begins, begins_coff, begins_elf}

-- The format that the flags of the header announce.
abbrev pub announces : ℕ → Format → Bool
announces flags coff = not (has_flag flags 0x80)
announces flags elf = has_flag flags 0x80

-- Without -r and -s.
abbrev pub plain : Mode
plain = record { rmstub = false; strip = false }

-- With -r.
abbrev pub removing : Mode
removing = record { rmstub = true; strip = false }

pub from_index-zero : (b : Bytes) → from_index 0 b ≡ b
from_index-zero b = fun_ext λ i. ap b (omega arith)

-- The variables behind the header of a stub.
abbrev pub behind_stub : Mode → Blob → Walk
behind_stub m f = record {
  coffset = word32 f.content 0x3c;
  mzhdr_buf = record { content = from_index 0 f.content; size = 0x40 };
  coff_file_size = 0;
  rmoverlay = if m.rmstub || m.strip then 1 else 0;
  can_copy_ovl = 1;
  stub_v = f.content 0x3b;
  flags = word16 f.content 0x38;
}

and-false : (b : Bool) → (b && false) ≡ false
and-false true = refl
and-false false = refl

not-false : (b : Bool) → not b ≡ true → b ≡ false
not-false true e = sym e
not-false false e = refl

-- The three headers that a round knows.
module _ (m : Mode) (b : Bytes) (w : Walk) where
  pub round_stub : is_mz b ≡ true → walk_round m b w ≡ walk_stub m b w
  unfolding walk_round is_mz
  round_stub e =
      let c0 : b 0 ≡ b'M' = ground (arith, e) in
      let c1 : b 1 ≡ b'Z' = ground (arith, e) in
      let c8 : b 8 ≡ 4 = ground (arith, e) in
      let c9 : b 9 ≡ 0 = ground (arith, e) in rw (c0, c1, c8, c9) refl

  round_coff : is_coff b ≡ true → has_flag w.flags 0x80 ≡ false → walk_round m b w ≡ some (leave w)
  unfolding walk_round is_coff
  round_coff e flag =
      let c0 : b 0 ≡ 0x4c = ground (arith, e) in
      let c1 : b 1 ≡ 1 = ground (arith, e) in
      rw (c0, c1) (rw flag (rw (and-false (not (w.stub_v == 0))) refl))

  round_elf : is_elf b ≡ true → has_flag w.flags 0x80 ≡ true → walk_round m b w ≡ some (leave w)
  unfolding walk_round is_elf
  round_elf e flag =
      let c0 : b 0 ≡ 0x7f = ground (arith, e) in
      let c1 : b 1 ≡ 0x45 = ground (arith, e) in
      let c2 : b 2 ≡ 0x4c = ground (arith, e) in
      let c3 : b 3 ≡ 0x46 = ground (arith, e) in
      rw (c0, c1, c2, c3) (rw flag (rw (and-false (not (w.stub_v == 0))) refl))

module _ (l : Link) (stub f : Blob) (h : IsLinked l stub f) (mz : is_mz stub.content ≡ true)
    (room : 0x40 ≤ stub.size) (ver : 8 ≤ l.stub_ver) where
  abbrev pub buf : Bytes
  buf = from_index 0 f.content

  pub buf-is_mz : is_mz buf ≡ true
  unfolding is_mz
  buf-is_mz =
      rw
        (
          h.front 0 (omega arith),
          h.front 1 (omega arith),
          h.front 8 (omega arith),
          h.front 9 (omega arith),
        )
        mz

  walk_stub-plain : walk_stub plain buf no_walk ≡ some (again (behind_stub plain f))
  unfolding walk_stub word16 word32
  walk_stub-plain = rw (le→ltb (f.content 0x3b) 8 (omega (arith, h.ver, ver))) refl

  pub walk-removing :
      (off sz : ℕ)
      → find_offs (main_type l.stub_flags) f.content ≡ some off
      → find_size (main_type l.stub_flags) f.content ≡ some sz
      → walk 1 removing f no_walk
        ≡ some (record (behind_stub removing f) {
          coffset = word32 f.content 0x3c + off;
          coff_file_size = sz;
        })
  unfolding walk walk_stub take_overlay word16 word32
  walk-removing off sz offs size =
      let whole : buf ≡ f.content = from_index-zero f.content in
      rw (le→ltb f.size 0x40 (omega (arith, h.size))) (
        rw (round_stub removing buf no_walk buf-is_mz) (
          rw (le→ltb (f.content 0x3b) 8 (omega (arith, h.ver, ver)))
            (rw h.flags (rw (whole, offs, size) refl))))

  module _ (a : Blob) (rest : List Blob) (first : l.overlays ≡ a ∷ rest)
      (head : 0x40 ≤ a.size) where
    abbrev pub at_payload : Bytes
    at_payload = from_index (word32 f.content 0x3c) f.content

    at_payload-byte : (q : ℕ) → q < 0x40 → at_payload q ≡ a.content q
    at_payload-byte q p =
        ap f.content (omega (arith, h.stub_size)) ∙ h.part [] a rest q first (omega arith)

    pub payload_room : word32 f.content 0x3c + 0x40 ≤ f.size
    payload_room = omega (arith, h.stub_size, h.size, ap total first)

    pub payload_round :
        (m : Mode) (w : Walk) (format : Format)
        → w.flags ≡ l.stub_flags
        → Begins a.content format
        → announces l.stub_flags format ≡ true
        → walk_round m at_payload w ≡ some (leave w)
    unfolding is_coff is_elf
    payload_round m w coff e (begins_coff _ i) flag =
        let byte = at_payload-byte in
        round_coff m at_payload w (rw (byte 0 (omega arith), byte 1 (omega arith)) i)
          (rw e (not-false _ flag))
    payload_round m w elf e (begins_elf _ i j) flag =
        let byte = at_payload-byte in
        round_elf m at_payload w
          (rw
            (byte 0 (omega arith), byte 1 (omega arith), byte 2 (omega arith), byte 3 (omega arith))
            j)
          (rw e flag)

    pub walk-plain :
        (format : Format)
        → Begins a.content format
        → announces l.stub_flags format ≡ true
        → walk 2 plain f no_walk ≡ some (behind_stub plain f)
    unfolding walk
    walk-plain format begins flag = rw (le→ltb f.size 0x40 (omega (arith, h.size))) (
        rw (round_stub plain buf no_walk buf-is_mz, walk_stub-plain)
          (rw (le→ltb f.size (word32 f.content 0x3c + 0x40) payload_room)
            (rw (payload_round plain (behind_stub plain f) format h.flags begins flag) refl)))
