-- ===== src/Ministub/Room.antt =====
-- The second loop over the environment stays within the table that the first has counted
-- (`main` of src/ministub.c).
use djstub.Base.{
  ℕ, zero, suc, ◌≤◌, ◌<◌, ◌≡◌, refl, ◌∙◌, ◌⊎◌, Bool, true, false, ◌&&◌, ◌||◌, not, some, Bytes,
  add32, ◌==◌, if◌then◌else◌, arith, Option,
}
use mathlib.Core.Option.{some-injective, none-ne-some}
use djstub.Libc.{store}
use djstub.Libc.Texts.{store-here, store-apart}
use djstub.Ministub.Table.{make_envp-empty, make_envp-filled}
use djstub.Ministub.{count_env, fill_env, make_envp}

-- The table `t'` is `t` below `c` and from `n` on.
abbrev Within : ℕ → ℕ → (ℕ → ℕ) → (ℕ → ℕ) → Type 0
Within c n t t' = (j : ℕ) → (j < c) ⊎ (n ≤ j) → t' j ≡ t j

-- A table comes back, filled between `c` and `n` at most.
abbrev pub IsFilled : ℕ → ℕ → (ℕ → ℕ) → Option (ℕ → ℕ) → Type 0
IsFilled c n t r = (c ≤ n) × ((t' : ℕ → ℕ) × (r ≡ some t') × Within c n t t')

-- One round of both loops: whether it is the last, whether it stores nothing, and what the rounds
-- behind it do.
round :
    (last skip : Bool) (counting : ℕ → Option ℕ) (filling : ℕ → (ℕ → ℕ) → Option (ℕ → ℕ))
    → ((c n : ℕ) (t : ℕ → ℕ) → counting c ≡ some n → IsFilled c n t (filling c t))
    → (v c n : ℕ) (t : ℕ → ℕ)
    → (if last then some c else counting (if skip then c else suc c)) ≡ some n
    → IsFilled c n t (
        if last
        then some t
        else filling (if skip then c else suc c) (if skip then t else store t c v))
round true skip counting filling rest v c n t e =
    let same : c ≡ n = some-injective c n e in (omega arith, (t, refl, λ j l. refl))
round false true counting filling rest v c n t e = rest c n t e
round false false counting filling rest v c n t e =
    let (le, (t', r, within)) = rest (suc c) n (store t c v) e in
    (omega arith, (t', r, λ j l. within j (omega arith) ∙ store-apart t c v j (omega arith)))

module _ (env : Bytes) (base : ℕ) where
  fill_env-IsFilled :
      (k i c n : ℕ) (letter : Bool) (t : ℕ → ℕ)
      → count_env env base k i letter c ≡ some n
      → IsFilled c n t (fill_env env base k i letter c t)
  unfolding count_env fill_env
  fill_env-IsFilled zero i c n letter t e = absurd (none-ne-some n e)
  fill_env-IsFilled (suc k) i c n letter t e =
      round (env i == 0 && env (suc i) == 0) (env i == 0 || letter)
        (λ c. count_env env base k (suc i) (not (env i == 0)) c)
        (λ c t. fill_env env base k (suc i) (not (env i == 0)) c t)
        (λ c n t e. fill_env-IsFilled k (suc i) c n (not (env i == 0)) t e) (add32 base i) c n t e

  -- Whatever the environment holds, if the first loop comes to an end with a count within the
  -- fuel, then so does the second, the table has NULL at that count, and no entry behind it is
  -- written.
  pub make_envp-room :
      (k n : ℕ) (garbage : ℕ → ℕ)
      → count_env env base k 0 false 0 ≡ some n
      → (envp : ℕ → ℕ) × (make_envp env base k garbage ≡ some (n, envp))
        × (envp n ≡ 0)
        × ((j : ℕ) → n < j → envp j ≡ garbage j)
  make_envp-room k zero garbage e = (
    store garbage 0 0,
    make_envp-empty env base k garbage e,
    store-here garbage 0 0,
    λ j l. store-apart garbage 0 0 j (omega arith),
  )
  make_envp-room k (suc n) garbage e =
      let t = store garbage (suc n) 0 in
      let (le, (t', r, within)) = fill_env-IsFilled k 0 0 (suc n) false t e in
      (
        t',
        make_envp-filled env base k n garbage t' e r,
        within (suc n) (omega arith) ∙ store-here garbage (suc n) 0,
        λ j l. within j (omega arith) ∙ store-apart garbage (suc n) 0 j (omega arith),
      )
