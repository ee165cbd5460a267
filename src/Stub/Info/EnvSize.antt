-- ===== src/Stub/Info/EnvSize.antt =====
-- `stubinfo.env_size` of src/stub.c against the environment block of DOS.
use djstub.Base.{ℕ, ◌+◌, ◌%◌, ◌≡◌, List, [], ◌∷◌, ◌++◌, length, u16_mod, arith}
use djstub.Stub.Scan.{StubInfo}
use djstub.Stub.Info.{texts_size, image_info}

-- The variables, each with a NUL behind it.
abbrev variables : List (List ℕ) → List ℕ
variables [] = []
variables (s ∷ envp) = s ++ 0 ∷ variables envp

-- What DOS keeps for a program: the variables, an empty one, the number of the texts that follow,
-- which is 1, and the name of the program.
unfoldable pub env_block : List (List ℕ) → (argv0 : List ℕ) → List ℕ
env_block envp argv0 = variables envp ++ 0 ∷ 1 ∷ 0 ∷ (argv0 ++ 0 ∷ [])

length-append : (xs ys : List ℕ) → length (xs ++ ys) ≡ length xs + length ys
length-append [] ys = omega arith
length-append (x ∷ xs) ys = omega (arith, length-append xs ys)

texts_size-variables :
    (envp : List (List ℕ)) (i : ℕ) → texts_size envp i ≡ i + length (variables envp)
unfolding texts_size
texts_size-variables [] i = omega arith
texts_size-variables (s ∷ envp) i =
    omega
      (arith, texts_size-variables envp (i + length s + 1), length-append s (0 ∷ variables envp))

-- `stubinfo.env_size` is the size of the block that DOS keeps for the environment and the
-- program's name, modulo 2^16.
pub image_info-env_size :
    (envp : List (List ℕ)) (argv0 : List ℕ) (va_size : ℕ) (info : StubInfo)
    → (image_info envp argv0 va_size info).env_size ≡ length (env_block envp argv0) % u16_mod
unfolding image_info env_block
image_info-env_size envp argv0 va_size info = omega (
  arith,
  texts_size-variables envp 3,
  length-append (variables envp) (0 ∷ 1 ∷ 0 ∷ (argv0 ++ 0 ∷ [])),
  length-append argv0 (0 ∷ []),
)
