-- ===== src/Libc.antt =====
-- What the C library calls of src/stub.c on text do. A text in memory is a buffer that ends at its
-- first NUL; a literal or an argument of the program is the list of its characters, none a NUL.
pub mod Texts
use djstub.Base.{
  ℕ, zero, suc, ◌+◌, ◌-◌, Bool, true, ◌&&◌, not, Option, none, some, List, [], ◌∷◌, Bytes, byte_at,
  length, ◌==◌, ltb, if◌then◌else◌,
}

-- No NUL stands before index `i`.
unfoldable pub no_nul_before : Bytes → ℕ → Bool
no_nul_before b zero = true
no_nul_before b (suc i) = no_nul_before b i && not (b i == 0)

-- `strncpy(dst, src, n)`: the rest of the `n` bytes is cleared.
unfoldable pub strncpy : Bytes → Bytes → ℕ → Bytes
unfolding no_nul_before
strncpy dst src n i = if ltb i n then (if no_nul_before src i then src i else 0) else dst i

-- `buf[k] = c`
unfoldable pub store : Bytes → ℕ → ℕ → Bytes
store buf k c i = if i == k then c else buf i

-- The index of the first NUL at or after `i`, looked for in `n` bytes.
unfoldable pub find_nul : ℕ → Bytes → ℕ → ℕ
find_nul zero b i = i
find_nul (suc n) b i = let rest = find_nul n b (suc i) in if b i == 0 then i else rest

-- `strcat(dst, s)` where `dst` holds a text within its first `n` bytes.
unfoldable pub strcat : ℕ → Bytes → List ℕ → Bytes
unfolding find_nul
strcat n dst s i =
    let k = find_nul n dst 0 in
    if ltb i k then dst i else if ltb i (k + length s + 1) then byte_at s (i - k) else dst i

-- The first result that there is.
abbrev pub or_else : Option (List ℕ) → Option (List ℕ) → Option (List ℕ)
or_else none o = o
or_else (some p) o = some p

-- `strrchr(s, c)`: the text from the last `c` on, `none` for NULL.
unfoldable pub strrchr : List ℕ → ℕ → Option (List ℕ)
strrchr [] c = none
strrchr (x ∷ s) c = or_else (strrchr s c) (if x == c then some (x ∷ s) else none)
