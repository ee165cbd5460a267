-- ===== src/Ministub/Main.antt =====
-- `main` of src/ministub.c, behind the table of the environment: which loader it starts.
pub mod Coded
pub mod Enters
use djstub.Base.{
  ℕ, ◌+◌, ◌*◌, ◌%◌, u32_mod, Bool, true, false, Option, none, some, Bytes, to_u16, not, ◌==◌,
  if◌then◌else◌,
}
use djstub.Util.Init.{Lowmem, Outcome, returned, exit_failure, abort, dpmi_init}
use djstub.Ministub.{make_envp}
use djstub.Ministub.Enter.{StubCall}

-- What `main` runs on, with a state `S` of DOS and of the DPMI host. `argv_at` and `envp_at` are
-- the addresses of the tables. Ministub.Main.Coded makes `query` and `enter_stub` of their code.
pub record Launcher (S : Type 0) : Type 0 where
  -- Whether the variable COMCOM_FULLSTUB is set.
  pub wants_fullstub : Bool
  -- `DPMIQueryExtension`: the result, and what it stores through `sel` and `off`.
  pub query : S → (ℕ × ℕ × ℕ) × S
  -- `open(argv[0], O_RDONLY)`, `none` for -1.
  pub open_argv : S → Option ℕ × S
  pub low : Lowmem S
  pub fullstub : (argc argv : ℕ) → (envp : ℕ → ℕ) → S → Outcome (Unit {0}) S
  pub enter_stub : StubCall → (envp : ℕ → ℕ) → S → ℕ × S
  pub argv_at : ℕ
  pub envp_at : ℕ
  -- What `psp_sel` holds before.
  pub psp_garbage : ℕ

-- `EXIT_FAILURE`
abbrev pub failure : ℕ
failure = 1

-- `DJSTUB_API_VER | (MINISTUB_VER << 8)`
abbrev pub stub_version : ℕ
stub_version = 5 + 9 * 0x100

module _ {S : Type 0} (l : Launcher S) (argc envc : ℕ) (envp : ℕ → ℕ) where
  -- From `fullstub(argc, argv, envp)` on.
  unfoldable pub run_fullstub : S → Outcome ℕ S
  run_fullstub s = elim (l.fullstub argc l.argv_at envp s) [
    | returned _ s ↦ returned failure s
    | exit_failure ↦ exit_failure
    | abort ↦ abort
  ]

  -- From the result of `dpmi_init` on; `close` and `puts` change nothing that is modelled.
  unfoldable pub call_stub : (sel off fd : ℕ) → Outcome (ℕ × ℕ) S → Outcome ℕ S
  call_stub sel off fd exit_failure = exit_failure
  call_stub sel off fd abort = abort
  call_stub sel off fd (returned (err, psp_sel) s) =
      let c : StubCall = record {
        sel = sel;
        off = off;
        argc = argc;
        argv = l.argv_at;
        envc = envc;
        envp = l.envp_at;
        psp = psp_sel;
        fd = fd;
        ver = stub_version;
      } in
      if not (err == 0)
      then returned failure s
      else let (r, s') = l.enter_stub c envp s in returned r s'

  -- From `open` on.
  unfoldable pub call_opened : (sel off : ℕ) → Option ℕ × S → Outcome ℕ S
  unfolding call_stub
  call_opened sel off (none, s) = returned failure s
  call_opened sel off (some fd, s) = call_stub sel off fd (dpmi_init l.low 0 l.psp_garbage s)

  -- From `getenv` on. `sel` and `off` are 16-bit variables.
  unfoldable pub choose_loader : S → Outcome ℕ S
  unfolding run_fullstub call_opened
  choose_loader s =
      let ((err, sel, off), s') = l.query s in
      if l.wants_fullstub
      then run_fullstub s
      else if not (err == 0)
      then run_fullstub s'
      else call_opened (to_u16 sel) (to_u16 off) (l.open_argv s')

module _ {S : Type 0} (l : Launcher S) (env : Bytes) (env_at : ℕ) where
  -- With fuel for the loops over the environment, `none` where it is too little. The copy of
  -- argv[0] has the text of argv[0].
  unfoldable pub main : ℕ → (garbage : ℕ → ℕ) → (argc : ℕ) → S → Option (Outcome ℕ S)
  unfolding choose_loader
  main k garbage argc s =
      if argc == 0 then some (returned failure s) else elim (make_envp env env_at k garbage) [
        | none ↦ none
        | some (envc, envp) ↦ some (choose_loader l argc envc envp s)
      ]
