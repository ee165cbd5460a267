-- ===== src/Djstubify/Find.antt =====
-- `find_idx`, `find_size` and `find_offs` of djstubify2.py on a header that lists types of
-- overlays.
use djstub.Base.{
  ℕ, zero, suc, ◌+◌, ◌*◌, ◌%◌, ◌<◌, ◌≡◌, ◌≢◌, refl, ap, ◌∙◌, some, List, [], ◌∷◌, ◌++◌, length,
  Bytes, word16, eq→==, ne→==, arith,
}
use mathlib.Core.List.{append_assoc}
use djstub.Djstubify.{
  Blob, total, size_at, find_idx_loop, find_idx, find_size, find_offs_loop, find_offs,
}

-- The map of a list of types, four bits for each, the first one lowest.
abbrev pub map_of : List ℕ → ℕ
map_of [] = 0
map_of (t ∷ ts) = t + 0x10 * map_of ts

-- The types `ts` fill their four bits, and none of them is `t`.
pub data Others (t : ℕ) : List ℕ → Type 0 where
  none_yet : Others t []
  other : {u : ℕ} {us : List ℕ} → 0 < u → u < 0x10 → u ≢ t → Others t us → Others t (u ∷ us)

-- The table has the sizes of some files from an entry on.
abbrev pub HasTable : Bytes → ℕ → List Blob → Type 0
HasTable buf cnt os =
    (b : List Blob) (p : Blob) (a : List Blob)
    → os ≡ b ++ (p ∷ a)
    → size_at buf (cnt + length b) ≡ p.size

module _ (t : ℕ) (pos : 0 < t) (low : t < 0x10) (after : List ℕ) where
  find_idx_loop-found :
      (before : List ℕ) (cnt k : ℕ)
      → Others t before
      → length before < k
      → find_idx_loop k (map_of (before ++ (t ∷ after))) t cnt ≡ some (cnt + length before)
  unfolding find_idx_loop
  find_idx_loop-found before cnt zero o l = absurd (omega arith)
  find_idx_loop-found [] cnt (suc k) o l =
      rw
        (
          ne→== (t + 0x10 * map_of after) 0 (omega arith),
          eq→== ((t + 0x10 * map_of after) % 0x10) t (omega arith),
        )
        (ap some (omega arith))
  find_idx_loop-found (u ∷ before) cnt (suc k) (other p q ne o) l =
      let m = map_of (before ++ (t ∷ after)) in
      rw (ne→== (u + 0x10 * m) 0 (omega arith), ne→== ((u + 0x10 * m) % 0x10) t (omega arith))
        (ap (λ n. find_idx_loop k n t (cnt + 1)) (omega arith)
          ∙ find_idx_loop-found before (cnt + 1) k o (omega arith)
          ∙ ap some (omega arith))

  find_offs_loop-found :
      (before : List ℕ) (os : List Blob) (cnt offs k : ℕ) (buf : Bytes)
      → Others t before
      → length before ≡ length os
      → HasTable buf cnt os
      → length before < k
      → find_offs_loop k (map_of (before ++ (t ∷ after))) t cnt offs buf ≡ some (offs + total os)
  unfolding find_offs_loop
  find_offs_loop-found before os cnt offs zero buf o e h l = absurd (omega arith)
  find_offs_loop-found [] [] cnt offs (suc k) buf o e h l =
      rw
        (
          ne→== (t + 0x10 * map_of after) 0 (omega arith),
          eq→== ((t + 0x10 * map_of after) % 0x10) t (omega arith),
        )
        (ap some (omega arith))
  find_offs_loop-found [] (p ∷ os) cnt offs (suc k) buf o e h l = absurd (omega arith)
  find_offs_loop-found (u ∷ before) [] cnt offs (suc k) buf o e h l = absurd (omega arith)
  find_offs_loop-found (u ∷ before) (p ∷ os) cnt offs (suc k) buf (other q r ne o) e h l =
      let m = map_of (before ++ (t ∷ after)) in
      let rest : HasTable buf (cnt + 1) os =
        λ b x a same. ap (size_at buf) (omega arith) ∙ h (p ∷ b) x a (ap (λ y. p ∷ y) same) in
      let size : size_at buf cnt ≡ p.size = ap (size_at buf) (omega arith) ∙ h [] p os refl in
      rw (ne→== (u + 0x10 * m) 0 (omega arith), ne→== ((u + 0x10 * m) % 0x10) t (omega arith))
        (ap (λ n. find_offs_loop k n t (cnt + 1) (offs + size_at buf cnt) buf) (omega arith)
          ∙ find_offs_loop-found before os (cnt + 1) (offs + size_at buf cnt) k buf o (omega arith)
              rest (omega arith)
          ∙ ap some (omega (arith, size)))

  module _ (before : List ℕ) (os : List Blob) (p : Blob) (rest : List Blob) (buf : Bytes)
      (others : Others t before) (same : length before ≡ length os) (few : length before < 4)
      (map : word16 buf 0x36 ≡ map_of (before ++ (t ∷ after)))
      (table : HasTable buf 0 (os ++ (p ∷ rest))) where
    pub find_idx-found : find_idx t buf ≡ some (length os)
    unfolding find_idx
    find_idx-found =
        rw (map, ne→== t 0 (omega arith))
          (find_idx_loop-found before 0 5 others (omega arith) ∙ ap some (omega arith))

    pub find_size-found : find_size t buf ≡ some p.size
    unfolding find_size
    find_size-found =
        rw find_idx-found (ap some (ap (size_at buf) (omega arith) ∙ table os p rest refl))

    pub find_offs-found : find_offs t buf ≡ some (total os)
    unfolding find_offs
    find_offs-found =
        rw (map, ne→== t 0 (omega arith))
          (find_offs_loop-found before os 0 0 5 buf others same
              (λ b x a e.
                table b x (a ++ (p ∷ rest))
                  (ap (λ y. y ++ (p ∷ rest)) e ∙ append_assoc b (x ∷ a) (p ∷ rest)))
              (omega arith)
            ∙ ap some (omega arith))
