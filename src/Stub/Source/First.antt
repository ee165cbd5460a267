-- ===== src/Stub/Source/First.antt =====
-- The search for the variable ELFEXEC in the environment (`fullstub` of src/stub.c).
use native.Mathlib.Decide.{ℕ_discrete}
use mathlib.Core.List.{nil≢cons, head-eq_of_cons-eq, tail-eq_of_cons-eq}
use djstub.Base.{ℕ, ◌≡◌, ◌≢◌, refl, Option, none, some, List, [], ◌∷◌, ◌++◌, eq→==, ne→==}
use djstub.Stub.Source.{elfexec, after_prefix, find_elfexec}

-- The rest of the text behind the prefix, or `none` where it does not start with it.
data IsSplit (prefix s : List ℕ) : Option (List ℕ) → Type 0 where
  split : (rest : List ℕ) → s ≡ prefix ++ rest → IsSplit prefix s (some rest)
  other : ((rest : List ℕ) → s ≢ prefix ++ rest) → IsSplit prefix s none

IsSplit-cons :
    {prefix s : List ℕ} {o : Option (List ℕ)} {x c : ℕ}
    → x ≡ c
    → IsSplit prefix s o
    → IsSplit (c ∷ prefix) (x ∷ s) o
IsSplit-cons p (split rest e) = split rest (λ i. p i ∷ e i)
IsSplit-cons p (other h) = other (λ rest e. h rest (tail-eq_of_cons-eq e))

after_prefix-IsSplit : (prefix s : List ℕ) → IsSplit prefix s (after_prefix prefix s)
unfolding after_prefix
after_prefix-IsSplit [] s = split s refl
after_prefix-IsSplit (c ∷ prefix) [] = other (λ rest e. absurd (nil≢cons e))
after_prefix-IsSplit (c ∷ prefix) (x ∷ s) = elim (ℕ_discrete x c) [
  | yes p ↦ rw (eq→== x c p) (IsSplit-cons p (after_prefix-IsSplit prefix s))
  | no n ↦ rw (ne→== x c n) (other (λ rest e. n (head-eq_of_cons-eq e)))
]

-- What the first text that starts with "ELFEXEC=" has behind that, or `none` where no text does.
pub data IsFirst : List (List ℕ) → Option (List ℕ) → Type 0 where
  absent : IsFirst [] none
  here :
      {s : List ℕ} {envp : List (List ℕ)}
      → (fname : List ℕ) → s ≡ elfexec ++ fname
      → IsFirst (s ∷ envp) (some fname)
  later :
      {s : List ℕ} {envp : List (List ℕ)} {o : Option (List ℕ)}
      → ((rest : List ℕ) → s ≢ elfexec ++ rest)
      → IsFirst envp o
      → IsFirst (s ∷ envp) o

IsFirst-cons :
    {s : List ℕ} {envp : List (List ℕ)} {o : Option (List ℕ)}
    → (r : Option (List ℕ)) → IsSplit elfexec s r
    → IsFirst envp o
    → IsFirst (s ∷ envp) (elim r [ none ↦ o | some fname ↦ some fname ])
IsFirst-cons (some fname) (split rest e) h = here fname e
IsFirst-cons none (other n) h = later n h

-- `find_elfexec` gives what the first text of the environment that starts with "ELFEXEC=" has
-- behind that, and `none` where no text starts with it.
pub find_elfexec-IsFirst : (envp : List (List ℕ)) → IsFirst envp (find_elfexec envp)
unfolding find_elfexec
find_elfexec-IsFirst [] = absent
find_elfexec-IsFirst (s ∷ envp) =
    IsFirst-cons (after_prefix elfexec s) (after_prefix-IsSplit elfexec s)
      (find_elfexec-IsFirst envp)
