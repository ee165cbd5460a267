-- ===== src/Stub/Main.antt =====
-- `fullstub` of src/stub.c from end to end: the composition of the search, the loader, the
-- services for the client, and the switch to protected mode.
pub mod Prepare
pub mod Refuses
pub mod Starts
pub mod Switch
use djstub.Base.{
  ℕ, ◌/◌, Option, none, some, List, [], ◌∷◌, Bytes, word16, to_u16, ◌==◌, if◌then◌else◌,
}
use djstub.Run.{File, World, Host, Run, exit_failure, abort, Cmd, pure, exit, and_then, ◌>>=◌, ◌>>◌}
use djstub.Util.Init.{
  Lowmem, Outcome, returned, exit_failure as exited, abort as aborted, get_low_pool, psp_segment,
  shrink_low, dpmi_init,
}
use djstub.Stub.Scan.{StubInfo, Search, Format, coff, elf, search_loop}
use djstub.Stub.Source.{choose_file}
use djstub.Stub.Info.{image_info, store_payload}
use djstub.Stub.Client.{Services, Client, map_client}
use djstub.Stub.Loader.{Ldops, elf_ops, coff_ops}

-- What the stub runs on, with a state `S` of DOS, the DPMI server and the low memory. The base of
-- a selector depends on the state.
pub record System (S : Type 0) : Type 0 where
  -- `open`: the descriptor and the file, `none` for -1.
  pub open_file : List ℕ → Option (ℕ × File)
  pub host : Host
  pub segment_base : S → ℕ → Option ℕ
  pub services : Services S
  pub low : Lowmem S
  -- The data selector and the offset of `stubinfo` there.
  pub my_ds : ℕ
  pub stubinfo_at : ℕ

-- What there is when the image is loaded: `entry` is `clnt_entry.offset32`.
pub record Prepared (S : Type 0) : Type 0 where
  pub client : Client
  pub entry : ℕ
  pub state : S

-- The registers that the client starts with, and what it finds.
pub record Start (S : Type 0) : Type 0 where
  pub cs : ℕ
  pub eip : ℕ
  pub ds : ℕ
  pub es : ℕ
  pub fs : ℕ
  pub info : StubInfo
  pub state : S

module _ {S : Type 0} (sys : System S) where
  -- The host in a state of the server.
  abbrev pub host_at : S → Host
  host_at s = record sys.host { segment_base = sys.segment_base s }

  abbrev lift : {A : Type 0} → Outcome A S → Cmd (A × S)
  lift (returned a s) = pure (a, s)
  lift exited = exit
  lift aborted = λ _. abort

  unfoldable pub alloc_psp : S → ℕ × S
  alloc_psp s =
      let (p, s) = sys.services.segment_to_descriptor (psp_segment sys.low) s in
      let sel = to_u16 p in (sel, sys.services.set_segment_limit sel 0xff s)

  -- `stubinfo.psp_selector`; `psp_sel` holds garbage before.
  unfoldable pub switch_mode : (minkeep : ℕ) → S → Cmd (ℕ × S)
  unfolding alloc_psp
  switch_mode minkeep s = do
    ((rc, psp_sel), s) ← lift (dpmi_init sys.low (minkeep / 0x10) (word16 sys.host.stack 0) s)
    if rc == 0
        then pure (psp_sel, s)
        else do (_, s) ← lift (shrink_low sys.low (minkeep / 0x10) s); pure (alloc_psp s)

  unfoldable pub jump_to_entry : (psp_selector : ℕ) → Prepared S → S → Start S
  jump_to_entry psp_selector p s = record {
    cs = p.client.entry_selector;
    eip = p.entry;
    ds = p.client.clnt_ds;
    es = sys.my_ds;
    fs = p.client.stubinfo_fs;
    info = record p.client.info { psp_selector = psp_selector };
    state = s;
  }

  -- From `dpmi_init` on.
  unfoldable pub start_client : Prepared S → Cmd (Start S)
  unfolding switch_mode jump_to_entry
  start_client p = do
    (psp_sel, s) ← switch_mode p.client.info.minkeep p.state
    pure (jump_to_entry psp_sel p s)

  module _ (envp : List (List ℕ)) (argv0 : List ℕ) (ifile : ℕ) where
    module _ {H : Type 0} (ops : Host → Ldops H) where
      -- From `stubinfo.self_fd` to `LOADER_VER`, behind `ops->read_sections`.
      unfoldable pub load_image : (handle : H) → Search → Client → S → Cmd (Prepared S)
      load_image handle search c s = do
        (ops (host_at s)).read_sections handle (record { off = 0; seg = c.clnt_ds }) search.coffset
        info ← store_payload ifile search c.info
        pure (record {
          client = record c { info = info };
          entry = (ops sys.host).get_entry handle;
          state = s;
        })

      -- From `ops->get_va` on.
      unfoldable pub prepare_client : (handle : H) → Search → S → Cmd (Prepared S)
      unfolding load_image
      prepare_client handle search s =
          let o = ops sys.host in
          let info = image_info envp argv0 (o.get_length handle) search.info in
          elim (map_client sys.services (get_low_pool sys.low) sys.my_ds sys.stubinfo_at
            (o.get_va handle) info s) [ none ↦ exit | some (c, s) ↦ load_image handle search c s ]

      -- From `ops->read_headers` on.
      unfoldable pub prepare : Search → S → Cmd (Prepared S)
      unfolding prepare_client
      prepare search s = do
        handle ← (ops sys.host).read_headers
        elim handle [ none ↦ exit | some h ↦ prepare_client h search s ]

    unfoldable pub prepare_format : Format → Search → S → Cmd (Prepared S)
    unfolding prepare
    prepare_format elf search s = prepare elf_ops search s
    prepare_format coff search s = prepare coff_ops search s

  -- `while (!done)`, with fuel.
  unfoldable pub find_format : ℕ → Option Format → Search → Cmd (Format × Search)
  find_format k none search = search_loop sys.host k search
  find_format k (some format) search = pure (format, search)

  -- The initial values of the variables of the search.
  abbrev pub no_search : StubInfo → Search
  no_search info = record {
    coffset = 0;
    coffsize = 0;
    noffset = 0;
    nsize = 0;
    noffset2 = 0;
    nsize2 = 0;
    info = info;
  }

  -- With fuel for the search, for the memory and the static variables `scns` and `stubinfo`.
  unfoldable pub fullstub :
      ℕ → (argv envp : List (List ℕ)) → (mem scns : Bytes) → StubInfo → S → Run (Start S)
  unfolding choose_file find_format prepare_format start_client
  fullstub k [] envp mem scns info s = exit_failure
  fullstub k (argv0 ∷ argv) envp mem scns info s =
      let (fname, format, info) = choose_file envp argv0 info in
      elim (sys.open_file fname) [
        | none ↦ exit_failure
        | some (ifile, f) ↦
            and_then
              (find_format k format (no_search info) (record { file = f; mem = mem; scns = scns }))
              λ (format, search). prepare_format envp argv0 ifile format search s >>= start_client
      ]
