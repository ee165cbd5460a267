-- ===== src/Ministub.antt =====
-- src/ministub.c: the table of the environment that `main` makes, and, in the modules below, what
-- it does with it.
pub mod Table
pub mod Room
pub mod Assembly
pub mod Query
pub mod Enter
pub mod Main
use djstub.Base.{
  ℕ, zero, suc, Bool, false, ◌&&◌, ◌||◌, not, Option, none, some, Bytes, add32, ◌==◌, if◌then◌else◌,
}
use djstub.Base.Options.{◌>>=◌}
use djstub.Libc.{store}

-- The environment block, and its address.
module _ (env : Bytes) (base : ℕ) where
  -- The loop that counts the entries, on fuel. `letter` says whether the byte before is one of a
  -- text.
  unfoldable pub count_env : ℕ → (i : ℕ) → (letter : Bool) → (envc : ℕ) → Option ℕ
  count_env zero i letter envc = none
  count_env (suc k) i letter envc =
      let rest =
        count_env k (suc i) (not (env i == 0)) (if env i == 0 || letter then envc else suc envc) in
      if env i == 0 && env (suc i) == 0 then some envc else rest

  -- The loop that fills `envp`, the same but for `envp[envc2++] = &env[i]`.
  unfoldable pub fill_env :
      ℕ → (i : ℕ) → (letter : Bool) → (envc2 : ℕ) → (envp : ℕ → ℕ) → Option (ℕ → ℕ)
  fill_env zero i letter envc2 envp = none
  fill_env (suc k) i letter envc2 envp =
      let skip = env i == 0 || letter in
      let rest =
        fill_env k (suc i) (not (env i == 0)) (if skip then envc2 else suc envc2)
          (if skip then envp else store envp envc2 (add32 base i)) in
      if env i == 0 && env (suc i) == 0 then some envp else rest

  -- Both loops, with `envp[envc] = NULL` and `if (envc)` between them. `garbage` is what `malloc`
  -- left in `envp`.
  unfoldable pub make_envp : ℕ → (garbage : ℕ → ℕ) → Option (ℕ × (ℕ → ℕ))
  unfolding count_env fill_env
  make_envp k garbage = do
    envc ← count_env k 0 false 0
    let envp = store garbage envc 0
    envp' ← (if envc == 0 then some envp else fill_env k 0 false 0 envp)
    some (envc, envp')
