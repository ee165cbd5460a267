-- ===== src/Stub/Source.antt =====
-- Which file `fullstub` of src/stub.c opens, and whether it looks for the executable in it.
pub mod First
use Prim.Native.Nat.{bit_or}
use djstub.Base.{
  ℕ, ◌+◌, ◌*◌, ◌/◌, ◌%◌, ◌≡◌, ◌≢◌, refl, sym, ap, ◌∙◌, Option, none, some, List, [], ◌∷◌, ◌++◌,
  ◌==◌, eq→==, ne→==, if◌then◌else◌, Option-cases, arith,
}
use native.Mathlib.Decide.{ℕ_discrete}
use djstub.Stub.Scan.{Format, elf, StubInfo}

-- "ELFEXEC="
abbrev pub elfexec : List ℕ
elfexec = b'E' ∷ b'L' ∷ b'F' ∷ b'E' ∷ b'X' ∷ b'E' ∷ b'C' ∷ b'=' ∷ []

-- `s + strlen(prefix)` where `strncmp(s, prefix, strlen(prefix)) == 0`.
unfoldable pub after_prefix : List ℕ → List ℕ → Option (List ℕ)
after_prefix [] s = some s
after_prefix (c ∷ prefix) [] = none
after_prefix (c ∷ prefix) (x ∷ s) =
    let rest = after_prefix prefix s in if x == c then rest else none

-- The loop over `envp`, up to its `break`.
unfoldable pub find_elfexec : List (List ℕ) → Option (List ℕ)
find_elfexec [] = none
find_elfexec (s ∷ envp) =
    let rest = find_elfexec envp in
    elim (after_prefix elfexec s) [ none ↦ rest | some fname ↦ some fname ]

-- `SIFLG_ELFEXEC`, set in flags that do not have it.
abbrev pub siflg_elfexec : ℕ
siflg_elfexec = 0x1_0000

-- `fname`, `ops` as far as it is known (`done` says whether), and `stubinfo`.
unfoldable pub choose_file :
    List (List ℕ) → (argv0 : List ℕ) → StubInfo → List ℕ × Option Format × StubInfo
unfolding find_elfexec
choose_file envp argv0 info = elim (find_elfexec envp) [
  | none ↦ (argv0, none, info)
  | some fname ↦ (fname, some elf, record info { flags = bit_or info.flags siflg_elfexec })
]
