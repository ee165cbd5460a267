-- ===== src/Ministub/Main/Enters.antt =====
-- How `main` of src/ministub.c enters the loader of the DPMI host.
use djstub.Base.{
  ℕ, ◌+◌, ◌≤◌, ◌≡◌, ◌≢◌, refl, ap, ◌∙◌, Bool, false, some, List, Bytes, to_u16, length, ◌==◌, not,
  ne→==, if◌then◌else◌,
}
use djstub.Util.Init.{Outcome, returned, dpmi_init}
use djstub.Util.Init.Pool.{Event, Answers, logged, Agree, asked, seg, size, dpmi_init-asked}
use djstub.Ministub.Table.{Block, HasTable, make_envp-HasTable}
use djstub.Ministub.Enter.{StubCall}
use djstub.Ministub.Main.{Launcher, choose_loader, run_fullstub, call_opened, call_stub, main}

module _ (a : Answers) (l : Launcher (List Event)) where
  -- What `main` passes to the loader: of the selector and the offset the low 16 bits.
  abbrev pub stub_call : (sel off argc envc fd psp : ℕ) → StubCall
  stub_call sel off argc envc fd psp = record {
    sel = to_u16 sel;
    off = to_u16 off;
    argc = argc;
    argv = l.argv_at;
    envc = envc;
    envp = l.envp_at;
    psp = psp;
    fd = fd;
    ver = 0x905;
  }

  -- The host knows the extension, and the executable opens.
  pub record Serves (sel off fd : ℕ) (log : List Event) : Type 0 where
    pub no_fullstub : l.wants_fullstub ≡ false
    pub known : l.query log ≡ ((0, sel, off), log)
    pub opened : l.open_argv log ≡ (some fd, log)
    pub is_logged : l.low ≡ logged a

  module _ (argc envc sel off fd : ℕ) (envp : ℕ → ℕ) (log : List Event)
      (s : Serves sel off fd log) where
    abbrev init : Outcome (ℕ × ℕ) (List Event)
    init = dpmi_init (logged a) 0 l.psp_garbage log

    abbrev after : Outcome (ℕ × ℕ) (List Event) → Outcome ℕ (List Event)
    after r = call_stub l argc envc envp (to_u16 sel) (to_u16 off) fd r

    call_opened-run :
        call_opened l argc envc envp (to_u16 sel) (to_u16 off) (l.open_argv log) ≡ after init
    unfolding call_opened
    call_opened-run =
        ap (call_opened l argc envc envp (to_u16 sel) (to_u16 off)) s.opened
        ∙ ap (λ low. after (dpmi_init low 0 l.psp_garbage log)) s.is_logged

    -- The choice, for the wish and the answer of the host.
    abbrev chosen : Bool → (ℕ × ℕ × ℕ) × List Event → Outcome ℕ (List Event)
    chosen wish ((err, sel, off), s) =
        if wish
        then run_fullstub l argc envc envp log
        else if not (err == 0)
        then run_fullstub l argc envc envp s
        else call_opened l argc envc envp (to_u16 sel) (to_u16 off) (l.open_argv s)

    choose_loader-run : choose_loader l argc envc envp log ≡ after init
    unfolding choose_loader
    choose_loader-run =
        let start : choose_loader l argc envc envp log ≡ chosen l.wants_fullstub (l.query log) =
          refl in
        start
        ∙ ap (λ wish. chosen wish (l.query log)) s.no_fullstub
        ∙ ap (chosen false) s.known
        ∙ call_opened-run

    choose_loader-enters :
        Agree a
        → a.to_query.esi ≢ 0
        → seg a 0 + size a 0 ≤ 0x1_0000
        → let r = l.enter_stub (stub_call sel off argc envc fd a.to_call.1) envp (asked a 0 log) in
          choose_loader l argc envc envp log ≡ returned r.0 r.1
    unfolding call_stub
    choose_loader-enters agree pool room =
        choose_loader-run ∙ ap after (dpmi_init-asked a 0 l.psp_garbage log agree pool room).0

  -- Let the environment be a block of texts whose second last NUL is at an offset within the fuel,
  -- let there be an argument, let COMCOM_FULLSTUB not be set, let the DPMI host know the
  -- extension, let the executable open, and let DOS and the host agree to the switch to protected
  -- mode, with a pool in low memory that fits with the PSP in the first MiB. Then `main` returns
  -- what the loader of the host returns, which it calls after the switch, at the low 16 bits of
  -- the selector and of the offset that the query gives, with the number of the texts, a table of
  -- their addresses that ends in NULL, the selector of the PSP, the file's descriptor and the
  -- version 0x905.
  pub main-enters :
      (env : Bytes) (env_at k argc sel off fd : ℕ) (garbage : ℕ → ℕ) (starts : List ℕ) (end : ℕ)
      (log : List Event)
      → Block env starts end
      → end ≤ k
      → argc ≢ 0
      → Serves sel off fd log
      → Agree a
      → a.to_query.esi ≢ 0
      → seg a 0 + size a 0 ≤ 0x1_0000
      → (envp : ℕ → ℕ) × HasTable env env_at starts garbage envp
        × (let r =
              l.enter_stub
                (stub_call sel off argc (length starts) fd a.to_call.1)
                envp
                (asked a 0 log) in
            main l env env_at k garbage argc log ≡ some (returned r.0 r.1))
  unfolding main
  main-enters env env_at k argc sel off fd garbage starts end log block fuel args serves agree pool
        room =
      let (envp, e, table) = make_envp-HasTable env env_at k garbage block fuel in
      (
        envp,
        table,
        rw (main, ne→== argc 0 args)
            (rw e (
              ap some (
                choose_loader-enters argc (length starts) sel off fd envp log serves agree pool
                  room))),
      )
