-- ===== src/Ministub/Table.antt =====
-- What the table of the environment holds (`main` of src/ministub.c).
use djstub.Base.{
  ℕ, zero, suc, ◌+◌, ◌≤◌, ◌<◌, ◌≡◌, ◌≢◌, refl, ap, ◌∙◌, ◌⊎◌, Bool, true, false, some, List, [], ◌∷◌,
  Bytes, add32, byte_at, length, ne→==, arith,
}
use djstub.Libc.{store}
use djstub.Libc.Texts.{store-here, store-apart}
use djstub.Ministub.{count_env, fill_env, make_envp}

-- Behind the first byte of a text, `Inside env i starts r` says that the texts behind the present
-- one start at the offsets `starts`, and that the NUL of the last, which another NUL follows, is
-- `r` bytes from `i`.
pub data Inside (env : Bytes) : ℕ → List ℕ → ℕ → Type 0 where
  char :
      {i r : ℕ} {starts : List ℕ}
      → env i ≢ 0
      → Inside env (suc i) starts r
      → Inside env i starts (suc r)
  last : {i : ℕ} → env i ≡ 0 → env (suc i) ≡ 0 → Inside env i [] 1
  next :
      {i r : ℕ} {starts : List ℕ}
      → env i ≡ 0
      → env (suc i) ≢ 0
      → Inside env (suc (suc i)) starts r
      → Inside env i (suc i ∷ starts) (suc (suc r))

-- An environment: texts one behind the other, with a NUL behind the last.
pub data Block (env : Bytes) : List ℕ → ℕ → Type 0 where
  empty : env 0 ≡ 0 → env 1 ≡ 0 → Block env [] 1
  texts :
      {r : ℕ} {starts : List ℕ} → env 0 ≢ 0 → Inside env 1 starts r → Block env (0 ∷ starts) (suc r)

module _ (env : Bytes) (base : ℕ) where
  count-char :
      (k i c : ℕ)
      → env i ≢ 0
      → count_env env base (suc k) i true c ≡ count_env env base k (suc i) true c
  unfolding count_env
  count-char k i c h = rw (ne→== _ 0 h)

  count-first :
      (k i c : ℕ)
      → env i ≢ 0
      → count_env env base (suc k) i false c ≡ count_env env base k (suc i) true (suc c)
  unfolding count_env
  count-first k i c h = rw (ne→== _ 0 h)

  count-nul :
      (k i c : ℕ) (l : Bool)
      → env i ≡ 0
      → env (suc i) ≢ 0
      → count_env env base (suc k) i l c ≡ count_env env base k (suc i) false c
  unfolding count_env
  count-nul k i c l h n = rw (h, ne→== _ 0 n)

  count-end :
      (k i c : ℕ) (l : Bool)
      → env i ≡ 0
      → env (suc i) ≡ 0
      → count_env env base (suc k) i l c ≡ some c
  unfolding count_env
  count-end k i c l h n = rw (h, n)

  count-Inside :
      {i r : ℕ} {starts : List ℕ}
      → (k c : ℕ) → Inside env i starts r
      → r ≤ k
      → count_env env base k i true c ≡ some (c + length starts)
  count-Inside zero c (char h t) f = absurd (omega arith)
  count-Inside zero c (last h n) f = absurd (omega arith)
  count-Inside zero c (next h n t) f = absurd (omega arith)
  count-Inside (suc k) c (char h t) f = count-char k _ c h ∙ count-Inside k c t (omega arith)
  count-Inside (suc k) c (last h n) f = count-end k _ c true h n ∙ ap some (omega arith)
  count-Inside (suc zero) c (next h n t) f = absurd (omega arith)
  count-Inside (suc (suc k)) c (next h n t) f =
      count-nul (suc k) _ c true h n
      ∙ count-first k _ c n
      ∙ count-Inside k (suc c) t (omega arith)
      ∙ ap some (omega arith)

  fill-char :
      (k i c : ℕ) (t : ℕ → ℕ)
      → env i ≢ 0
      → fill_env env base (suc k) i true c t ≡ fill_env env base k (suc i) true c t
  unfolding fill_env
  fill-char k i c t h = rw (ne→== _ 0 h)

  fill-first :
      (k i c : ℕ) (t : ℕ → ℕ)
      → env i ≢ 0
      → fill_env env base (suc k) i false c t
        ≡ fill_env env base k (suc i) true (suc c) (store t c (add32 base i))
  unfolding fill_env
  fill-first k i c t h = rw (ne→== _ 0 h)

  fill-nul :
      (k i c : ℕ) (t : ℕ → ℕ)
      → env i ≡ 0
      → env (suc i) ≢ 0
      → fill_env env base (suc k) i true c t ≡ fill_env env base k (suc i) false c t
  unfolding fill_env
  fill-nul k i c t h n = rw (h, ne→== _ 0 n)

  fill-end :
      (k i c : ℕ) (t : ℕ → ℕ)
      → env i ≡ 0
      → env (suc i) ≡ 0
      → fill_env env base (suc k) i true c t ≡ some t
  unfolding fill_env
  fill-end k i c t h n = rw (h, n)

  -- The pointers to the texts, from index `c` on.
  store_all : ℕ → List ℕ → (ℕ → ℕ) → ℕ → ℕ
  store_all c [] t = t
  store_all c (p ∷ ps) t = store_all (suc c) ps (store t c (add32 base p))

  fill-Inside :
      {i r : ℕ} {starts : List ℕ}
      → (k c : ℕ) (t : ℕ → ℕ) → Inside env i starts r
      → r ≤ k
      → fill_env env base k i true c t ≡ some (store_all c starts t)
  unfolding store_all
  fill-Inside zero c t (char h x) f = absurd (omega arith)
  fill-Inside zero c t (last h n) f = absurd (omega arith)
  fill-Inside zero c t (next h n x) f = absurd (omega arith)
  fill-Inside (suc k) c t (char h x) f = fill-char k _ c t h ∙ fill-Inside k c t x (omega arith)
  fill-Inside (suc k) c t (last h n) f = fill-end k _ c t h n
  fill-Inside (suc zero) c t (next h n x) f = absurd (omega arith)
  fill-Inside (suc (suc k)) c t (next {i} h n x) f =
      fill-nul (suc k) _ c t h n
      ∙ fill-first k _ c t n
      ∙ fill-Inside k (suc c) (store t c (add32 base (suc i))) x (omega arith)

  store_all-apart :
      (c : ℕ) (ps : List ℕ) (t : ℕ → ℕ) (j : ℕ)
      → (j < c) ⊎ (c + length ps ≤ j)
      → store_all c ps t j ≡ t j
  unfolding store_all
  store_all-apart c [] t j h = refl
  store_all-apart c (p ∷ ps) t j h =
      store_all-apart (suc c) ps (store t c (add32 base p)) j (omega arith)
      ∙ store-apart t c (add32 base p) j (omega arith)

  here :
      (c : ℕ) (ps : List ℕ) (t : ℕ → ℕ) (i j : ℕ) → i ≡ j → store_all c ps t i ≡ store_all c ps t j
  here c ps t i j e = ap (store_all c ps t) e

  store_all-at :
      (c : ℕ) (ps : List ℕ) (t : ℕ → ℕ) (j : ℕ)
      → j < length ps
      → store_all c ps t (c + j) ≡ add32 base (byte_at ps j)
  unfolding store_all
  store_all-at c [] t j h = absurd (omega arith)
  store_all-at c (p ∷ ps) t zero h =
      let v = add32 base p in
      here (suc c) ps (store t c v) (c + 0) c (omega arith)
      ∙ store_all-apart (suc c) ps (store t c v) c (omega arith)
      ∙ store-here t c v
  store_all-at c (p ∷ ps) t (suc j) h =
      let v = add32 base p in
      here (suc c) ps (store t c v) (c + suc j) (suc c + j) (omega arith)
      ∙ store_all-at (suc c) ps (store t c v) j (omega arith)

  pub make_envp-empty :
      (k : ℕ) (garbage : ℕ → ℕ)
      → count_env env base k 0 false 0 ≡ some 0
      → make_envp env base k garbage ≡ some (0, store garbage 0 0)
  unfolding make_envp
  make_envp-empty k garbage e = rw e

  pub make_envp-filled :
      (k n : ℕ) (garbage envp : ℕ → ℕ)
      → count_env env base k 0 false 0 ≡ some (suc n)
      → fill_env env base k 0 false 0 (store garbage (suc n) 0) ≡ some envp
      → make_envp env base k garbage ≡ some (suc n, envp)
  unfolding make_envp
  make_envp-filled k n garbage envp e e' = rw e (rw (ne→== (suc n) 0 (omega arith)) (rw e'))

  -- `envp` with a pointer for each text, NULL behind them, and the rest of it as it was.
  pub record HasTable (starts : List ℕ) (garbage envp : ℕ → ℕ) : Type 0 where
    pub entries : (j : ℕ) → j < length starts → envp j ≡ add32 base (byte_at starts j)
    pub null : envp (length starts) ≡ 0
    pub rest : (j : ℕ) → length starts < j → envp j ≡ garbage j

  -- Let the environment be a block of texts with a NUL behind each and another behind the last,
  -- whose second last NUL is at an offset below the fuel. Then `make_envp` gives the number of
  -- texts and a table with the address of the start of each, in their order, and NULL behind them;
  -- what stands behind that is as before.
  pub make_envp-HasTable :
      {r : ℕ} {starts : List ℕ}
      → (k : ℕ) (garbage : ℕ → ℕ) → Block env starts r
      → r ≤ k
      → (envp : ℕ → ℕ) × (make_envp env base k garbage ≡ some (length starts, envp))
        × HasTable starts garbage envp
  unfolding store_all
  make_envp-HasTable zero garbage (empty h n) f = absurd (omega arith)
  make_envp-HasTable zero garbage (texts h x) f = absurd (omega arith)
  make_envp-HasTable (suc k) garbage (empty h n) f = (
    store garbage 0 0,
    make_envp-empty (suc k) garbage (count-end k 0 0 false h n),
    record {
      entries = λ j l. absurd (omega arith);
      null = store-here garbage 0 0;
      rest = λ j l. store-apart garbage 0 0 j (omega arith);
    },
  )
  make_envp-HasTable (suc k) garbage (texts {starts} h x) f =
      let n = suc (length starts) in
      (
        store_all 0 (0 ∷ starts) (store garbage n 0),
        make_envp-filled (suc k) (length starts) garbage _
            (count-first k 0 0 h ∙ count-Inside k 1 x (omega arith) ∙ ap some (omega arith))
            (fill-first k 0 0 (store garbage n 0) h ∙ fill-Inside k 1 _ x (omega arith)),
        record {
          entries = λ j l.
              here 0 (0 ∷ starts) (store garbage n 0) j (0 + j) (omega arith)
              ∙ store_all-at 0 (0 ∷ starts) (store garbage n 0) j l;
          null =
              store_all-apart 0 (0 ∷ starts) (store garbage n 0) n (omega arith)
              ∙ store-here garbage n 0;
          rest = λ j l.
              store_all-apart 0 (0 ∷ starts) (store garbage n 0) j (omega arith)
              ∙ store-apart garbage n 0 j (omega arith);
        },
      )
