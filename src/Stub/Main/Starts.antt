-- ===== src/Stub/Main/Starts.antt =====
-- `fullstub` of src/stub.c from its arguments to the start of the client.
use djstub.Base.{
  ℕ, ◌+◌, ◌/◌, ◌≤◌, ◌<◌, ◌≡◌, ◌≢◌, refl, sym, ap, subst, ◌∙◌, Option, none, some, List, ◌∷◌, Bytes,
  u32_mod, minus_one,
}
use djstub.Run.{File, World, Host, Run, ok, exit_failure, and_then, off_limit, Cmd, ◌>>=◌}
use djstub.Run.Returns.{Returns, returns, bind}
use djstub.Run.Reads.{Sound}
use djstub.Util.Init.{get_low_pool}
use djstub.Elf.{ElfH}
use djstub.Coff.{CoffH}
use djstub.Stub.Scan.{StubInfo, Search, Format, coff, elf}
use djstub.Stub.Scan.Chain.{Chain, moved, search_loop-Chain}
use djstub.Stub.Source.{choose_file}
use djstub.Stub.Info.{image_info}
use djstub.Stub.Client.Selectors.{Descriptor, IsServer}
use djstub.Stub.Client.{Client}
use djstub.Stub.Client.Mapped.{HasSelectors, IsMapped}
use djstub.Stub.Loader.{Ldops, elf_ops, coff_ops}
use djstub.Stub.Loader.Loads.{Loads}
use djstub.Stub.Main.{
  System, Prepared, Start, no_search, prepare, prepare_format, jump_to_entry, start_client,
  find_format, fullstub,
}
use djstub.Stub.Main.Switch.{Keeps, KeepsDescriptors, Answered, HasPsp, switch-Keeps}
use djstub.Stub.Main.Prepare.{given, size, IsPrepared, prepare-IsPrepared}

-- The state when the file is open.
abbrev pub first_world : File → (mem scns : Bytes) → World
first_world f mem scns = record { file = record f { pos = 0 }; mem = mem; scns = scns }

-- The loader of a format.
pub data IsLoader : (H : Type 0) → Format → (Host → Ldops H) → Type 1 where
  is_elf : IsLoader ElfH elf elf_ops
  is_coff : IsLoader CoffH coff coff_ops

module _ {S : Type 0} (sys : System S) where
  prepare_format-loader :
      {H : Type 0} {format : Format} {ops : Host → Ldops H} (envp : List (List ℕ)) (argv0 : List ℕ)
      (ifile : ℕ) (search : Search) (s : S)
      → IsLoader H format ops
      → prepare_format sys envp argv0 ifile format search s
        ≡ prepare sys envp argv0 ifile ops search s
  unfolding prepare_format
  prepare_format-loader envp argv0 ifile search s is_elf = refl
  prepare_format-loader envp argv0 ifile search s is_coff = refl

  -- `fullstub` behind the choice of the file, and behind `open`.
  module _ (k : ℕ) (argv0 : List ℕ) (envp : List (List ℕ)) (mem scns : Bytes) (s : S) where
    abbrev pub started : ℕ → Format × Search → Cmd (Start S)
    started ifile (format, search) =
        prepare_format sys envp argv0 ifile format search s >>= start_client sys

    abbrev pub opened : Option Format → StubInfo → Option (ℕ × File) → Run (Start S)
    opened format info none = exit_failure
    opened format info (some (ifile, f)) =
        and_then
          (find_format sys k format (no_search sys info)
            (record { file = f; mem = mem; scns = scns }))
          (started ifile)

    abbrev pub chosen : List ℕ × Option Format × StubInfo → Run (Start S)
    chosen (fname, format, info) = opened format info (sys.open_file fname)

    pub fullstub-chosen :
        (argv : List (List ℕ)) (info : StubInfo)
        → fullstub sys k (argv0 ∷ argv) envp mem scns info s ≡ chosen (choose_file envp argv0 info)
    unfolding fullstub
    fullstub-chosen argv info = elim (sys.open_file (choose_file envp argv0 info).0) [
      | none ↦ refl
      | some x ↦ refl
    ]

  module _ {view : S → ℕ → Option Descriptor} (server : IsServer sys.services view)
      (answers : (s : S) (sel : ℕ) (d : Descriptor)
        → view s sel ≡ some d
        → sys.segment_base s sel ≡ some d.base)
      (envp : List (List ℕ)) (argv0 : List ℕ) (ifile : ℕ) (search : Search) (s : S) {H : Type 0}
      (ops : Host → Ldops H) (start len : ℕ) (h : H) (w : World) (Image : ℕ → Bytes → Type 0)
      (alias of_psp : Descriptor) where
    abbrev Ready : Prepared S → World → Type 0
    Ready = IsPrepared sys server answers envp argv0 ifile search s ops start len h w Image alias

    abbrev Mapped : Client → S → Type 0
    Mapped =
        IsMapped sys.services server (get_low_pool sys.low) sys.my_ds sys.stubinfo_at start
          (image_info envp argv0 len search.info) s alias

    -- The client starts in its code, with its data, the stub's and `stubinfo` in the segment
    -- registers, what it starts with is prepared, its selectors show in the state at the jump what
    -- they showed before the switch, and the switch has given the selector of the PSP.
    pub record IsStarted (st : Start S) (w' : World) : Type 0 where
      pub prepared : Prepared S
      pub ready : Ready prepared w'
      pub cs : st.cs ≡ prepared.client.entry_selector
      pub eip : st.eip ≡ (ops sys.host).get_entry h
      pub ds : st.ds ≡ prepared.client.clnt_ds
      pub es : st.es ≡ sys.my_ds
      pub fs : st.fs ≡ prepared.client.stubinfo_fs
      pub info : st.info ≡ record prepared.client.info { psp_selector = st.info.psp_selector }
      pub mapped : Mapped prepared.client st.state
      pub psp :
          HasPsp sys server
            (prepared.client.info.minkeep / 0x10)
            prepared.state
            of_psp
            st.info.psp_selector
            st.state

    Mapped-Keeps : (c : Client) (s₁ s₂ : S) → Keeps sys server s₁ s₂ → Mapped c s₁ → Mapped c s₂
    Mapped-Keeps c s₁ s₂ keeps m = record {
      code = keeps c.entry_selector _ m.code;
      dat = keeps c.clnt_ds _ m.dat;
      stubinfo = keeps c.stubinfo_fs _ m.stubinfo;
      mem_base = m.mem_base;
      mem_lin = m.mem_lin;
      handle = m.handle;
    }

    -- In a state that is prepared, DOS and the host answer as `Answered` says.
    abbrev pub Answers : Type 0
    Answers =
        (p : Prepared S) (w' : World)
        → Ready p w'
        → Answered sys server (p.client.info.minkeep / 0x10) p.state of_psp

    start_client-IsStarted :
        (p : Prepared S) (w' : World)
        → KeepsDescriptors sys server
        → 0x11_0000 < sys.low.esp
        → Answers
        → Ready p w'
        → Returns IsStarted (start_client sys p w')
    unfolding start_client jump_to_entry
    start_client-IsStarted p w' keeps stack switches ready =
        let (psp, s', e, kept, has) =
          switch-Keeps sys server (p.client.info.minkeep / 0x10) p.state keeps p.client.info.minkeep
            of_psp w' refl stack (switches p w' ready) in
        rw (start_client, e)
          (returns (record {
            prepared = p;
            ready = ready;
            cs = refl;
            eip = ready.entry;
            ds = refl;
            es = refl;
            fs = refl;
            info = refl;
            mapped = Mapped-Keeps p.client p.state s' kept ready.mapped;
            psp = has;
          }))

    -- Let the environment not name a file in ELFEXEC, let the program's file open, let no read of
    -- it fail and let it be smaller than 2 GiB, with a chain of MZ headers that leads to an
    -- executable. Let the loader of its format read the headers and then keep to `Loads`, let the
    -- DPMI server keep to `IsServer`, with the base of every descriptor in use to be found, have
    -- the selectors to give that the client needs, and give a block of memory within the address
    -- space that is larger than the image, and let the payload start below 2 GiB. Let the calls of
    -- DOS and of the DPMI host leave the descriptors in use alone, let the stack be above the
    -- program's block, and let, in the state that the set-up leaves, either no further host be
    -- found, DOS resize the block, and the server give a new descriptor for the PSP, or a host for
    -- 32 bits be found that, with DOS, agrees to what `dpmi_init` asks. Then there is a fuel with
    -- which `fullstub` comes to the jump, with everything that `IsPrepared` says: the image is in
    -- the block, the selectors show it, no linear address outside the block has changed since the
    -- headers were read, and the file stands at the payload. The jump goes to the entry point of
    -- the handle in the client's code selector, ds has the data selector, es that of the stub, fs
    -- that of `stubinfo`, and `stubinfo` is as prepared but for the selector of the PSP. In the
    -- state at the jump the three selectors of the client still show what `IsMapped` says, and the
    -- selector of the PSP shows its 256 bytes, or is the one that the host gave.
    pub fullstub-IsStarted :
        (argv : List (List ℕ)) (mem scns : Bytes) (info found : StubInfo) (fname : List ℕ)
        (f : File) (format : Format)
        → choose_file envp argv0 info ≡ (fname, none, found)
        → sys.open_file fname ≡ some (ifile, record f { pos = 0 })
        → Sound f
        → f.size < off_limit
        → Chain sys.host f (no_search sys found) format search
        → IsLoader H format ops
        → (ops sys.host).read_headers (moved sys.host f (first_world f mem scns) search.coffset)
          ≡ ok (some h) w
        → Loads ops search.coffset start len h w Image
        → (given sys server answers envp argv0 ifile search s ops start len h w Image alias).1
            + size sys server answers envp argv0 ifile search s ops start len h w Image alias
          ≤ u32_mod
        → len + 1 ≤ size sys server answers envp argv0 ifile search s ops start len h w Image alias
        → search.noffset < off_limit
        → HasSelectors sys.services server
            (get_low_pool sys.low)
            sys.my_ds
            sys.stubinfo_at
            start
            (image_info envp argv0 len search.info)
            s
            alias
        → (given sys server answers envp argv0 ifile search s ops start len h w Image alias).0
          ≢ minus_one
        → KeepsDescriptors sys server
        → 0x11_0000 < sys.low.esp
        → Answers
        → (k : ℕ) × Returns IsStarted (fullstub sys k (argv0 ∷ argv) envp mem scns info s)
    unfolding find_format
    fullstub-IsStarted argv mem scns info found fname f format chosen_file opened_file sound small
          chain loader headers loads room fits payload has allocated keeps stack switches =
        let w₀ = first_world f mem scns in
        let (k, e) =
          search_loop-Chain sys.host f sound (no_search sys found) search format w₀ small chain
            refl in
        let run : fullstub sys k (argv0 ∷ argv) envp mem scns info s
            ≡ and_then
                (prepare sys envp argv0 ifile ops search s (moved sys.host f w₀ search.coffset))
                (start_client sys) =
          fullstub-chosen k argv0 envp mem scns s argv info
          ∙ ap (chosen k argv0 envp mem scns s) chosen_file
          ∙ ap (opened k argv0 envp mem scns s none found) opened_file
          ∙ ap (λ r. and_then r (started k argv0 envp mem scns s ifile)) e
          ∙ ap (λ m. and_then (m (moved sys.host f w₀ search.coffset)) (start_client sys))
              (prepare_format-loader envp argv0 ifile search s loader) in
        (
          k,
          subst (Returns IsStarted) (sym run) (
              bind
                (prepare-IsPrepared sys server answers envp argv0 ifile search s ops start len h w
                  Image alias (moved sys.host f w₀ search.coffset) headers loads room fits payload
                  has allocated)
                λ p w' ready. start_client-IsStarted p w' keeps stack switches ready),
        )
