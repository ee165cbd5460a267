-- ===== src/Tests/Main.antt =====
-- `fullstub` of src/stub.c on a stub that is a COFF file, and a small DPMI server.
use djstub.Base.{
  ℕ, ◌*◌, ◌≡◌, refl, sym, ap, subst, inl, Option, List, some, none, [], ◌∷◌, fill, from_index,
  word16, word32, arith,
}
use djstub.Run.{World, Run, ok, exit_failure, read, seek_set}
use djstub.Run.Returns.{Returns}
use djstub.Util.Init.{Lowmem, get_low_pool, dpmi_init}
use djstub.Util.LongRead.{long_read}
use djstub.Util.FarMem.{farmemcpy, farmemset}
use djstub.Coff.{
  CoffH, scn, decode_coff_header, decode_opt_header, read_coff_headers, read_coff_sections,
  get_coff_entry,
}
use djstub.Coff.Sections.{HasImage}
use djstub.Stub.Scan.{coff, Search, parse_mz, search_loop, is_mz, is_coff}
use djstub.Stub.Info.{image_info, store_payload}
use djstub.Stub.Client.{map_selector, map_stubinfo, map_low, map_client, page_align}
use djstub.Stub.Client.Selectors.{Descriptor, IsNew}
use djstub.Stub.Client.Mapped.{HasSelectors, set_up}
use djstub.Stub.Main.Switch.{Keeps, KeepsDescriptors, NoHost, HasPsp, no_host, switch-Keeps}
use djstub.Stub.Loader.{coff_ops}
use djstub.Stub.Loader.Loads.{Loads, coff_ops-Loads}
use djstub.Stub.Main.{System, no_search, switch_mode, Start, fullstub, prepare}
use djstub.Stub.Main.Prepare.{IsPrepared, prepare-IsPrepared}
use djstub.Stub.Main.Starts.{IsStarted, is_coff as coff_loader, fullstub-IsStarted}
use djstub.Coff.Header.{header as coff_header}
use djstub.Stub.Main.Refuses.{at_headers, incomplete, fullstub-refuses}
use djstub.Stub.Source.{choose_file}
use djstub.Stub.Scan.Chain.{Chain, at_coff}
use djstub.Tests.Sample.{host, world, coff_bytes, coff_file, stub_file}
use djstub.Tests.Server.{State, give-keeps, shown, services, server}
use djstub.Tests.Client.{running, my_alias}
use djstub.Tests.Scan.{zeroed, after_mz, sample_Chain}

-- No extender is there, and DOS shrinks the block.
abbrev low : Lowmem State
low = record {
  dpmi_int = λ n r s. (record r { flags = 0 }, s);
  int2f = λ r s. (record r { flags = 1 }, s);
  lcall = λ sel off ax bx s. ((1, 0), s);
  memmove = λ dst src n s. s;
  psp = 0x1000;
  esp = 0x12_0000;
}

abbrev base_of : Option Descriptor → Option ℕ
base_of none = none
base_of (some d) = some d.base

answered : {o : Option Descriptor} {d : Descriptor} → o ≡ some d → base_of o ≡ some d.base
answered e = ap base_of e

abbrev sys : System State
sys = record {
  open_file = λ name. some (5, coff_file);
  host = host;
  segment_base = λ s sel. base_of (s.descriptors sel);
  services = services;
  low = low;
  my_ds = 15;
  stubinfo_at = 0x3000;
}

abbrev read_world : World
read_world = record (world coff_file) {
  file = record coff_file { pos = 168 };
  scns = fill (λ i. 0) 120 (from_index 48 coff_bytes);
}

abbrev coff_handle : CoffH
coff_handle = record { length = 0x2008; entry = 0x1234 }

headers_run : read_coff_headers host (world coff_file) ≡ ok (some coff_handle) read_world
unfolding read_coff_headers read decode_coff_header decode_opt_header word16 word32
headers_run = refl

coff_loads :
    Loads coff_ops 0 0 0x2008 coff_handle read_world
      (λ base mem. HasImage coff_file 0 base read_world.scns mem read_world.mem)
unfolding scn word32
coff_loads =
    coff_ops-Loads coff_file (λ p. refl) 0 read_world refl coff_handle (omega arith) (omega arith)
      (omega arith) refl

abbrev found : Search
found = no_search sys zeroed

has_selectors :
    HasSelectors services server
      (get_low_pool low)
      15
      0x3000
      0
      (image_info [] [] 0x2008 zeroed)
      running
      my_alias
unfolding map_low map_selector get_low_pool
has_selectors = record {
  of_entry = shown none;
  of_ds = shown none;
  new_entry = record { unused = refl; used = refl; base_small = omega arith };
  new_ds = record { unused = refl; used = refl; base_small = omega arith };
  new_fs = record { unused = refl; used = refl; base_small = omega arith };
}

prepare-IsPrepared_example :
    Returns
      (IsPrepared sys server
        (λ s sel d. answered)
        []
        []
        5
        found
        running
        coff_ops
        0
        0x2008
        coff_handle
        read_world
        (λ base mem. HasImage coff_file 0 base read_world.scns mem read_world.mem)
        my_alias)
      (prepare sys [] [] 5 coff_ops found running (world coff_file))
unfolding image_info page_align
prepare-IsPrepared_example =
    prepare-IsPrepared sys server (λ s sel d. answered) [] [] 5 found running coff_ops 0 0x2008
      coff_handle read_world
      (λ base mem. HasImage coff_file 0 base read_world.scns mem read_world.mem) my_alias
      (world coff_file) headers_run coff_loads (omega arith) (omega arith) (omega arith)
      has_selectors (λ e. absurd (omega (arith, e)))

-- The whole of `fullstub`: the registers, and the start of `stubinfo`.
abbrev eip_of : Run (Start State) → Option (ℕ × ℕ × ℕ × ℕ)
eip_of (ok r w) = some (r.cs, r.eip, r.ds, r.info.psp_selector)
eip_of _ = none

fullstub_runs :
    eip_of (fullstub sys 5 ((b'x' ∷ []) ∷ []) [] (λ a. 0) (λ a. 0) zeroed running)
    ≡ some (39, 0x1234, 47, 63)
unfolding fullstub read_coff_headers read decode_coff_header decode_opt_header word16 word32
    search_loop is_mz is_coff seek_set map_client read_coff_sections long_read farmemcpy farmemset
    store_payload dpmi_init get_coff_entry
fullstub_runs = refl

abbrev stub_name : List ℕ
stub_name = b'x' ∷ []

no_elfexec : choose_file [] stub_name zeroed ≡ (stub_name, none, zeroed)
unfolding choose_file
no_elfexec = refl

coff_Chain : Chain host coff_file found coff found
unfolding is_mz is_coff
coff_Chain = at_coff (omega arith) refl refl

-- The descriptor that the server gives for the PSP, at the segment 0x100.
abbrev my_psp : Descriptor
my_psp = record { base = 0x1000; limit = 0xffff; rights = 0xf2 }

sample_keeps : KeepsDescriptors sys server
sample_keeps = record {
  dpmi_int = λ n r s i d used. used;
  int2f = λ r s i d used. used;
  lcall = λ sel off ax bx s i d used. used;
  memmove = λ dst src n s i d used. used;
  to_descriptor = λ p s i d used.
      give-keeps (record { base = p * 0x10; limit = 0xffff; rights = 0xf2 }) d
        (s.descriptors s.next) s i refl used;
}

named_selectors :
    HasSelectors services server
      (get_low_pool low)
      15
      0x3000
      0
      (image_info [] stub_name 0x2008 zeroed)
      running
      my_alias
unfolding map_low map_selector get_low_pool
named_selectors = record {
  of_entry = shown none;
  of_ds = shown none;
  new_entry = record { unused = refl; used = refl; base_small = omega arith };
  new_ds = record { unused = refl; used = refl; base_small = omega arith };
  new_fs = record { unused = refl; used = refl; base_small = omega arith };
}

-- The state that the set-up leaves has a selector to give for the PSP.
abbrev set_up_state : State
set_up_state =
    set_up services server (get_low_pool low) 15 0x3000 0 (image_info [] stub_name 0x2008 zeroed)
      running

set_up_new :
    IsNew services server set_up_state (services.segment_to_descriptor 0x100 set_up_state) my_psp
unfolding map_low map_selector map_stubinfo get_low_pool
set_up_new = record { unused = refl; used = refl; base_small = omega arith }

sample_missing : NoHost sys server 0x10 set_up_state my_psp
sample_missing = record { missing = refl; agreed = refl; new = set_up_new; of_psp = refl }

switch-Keeps_example :
    (psp : ℕ) × (s' : State) × (switch_mode sys 0x100 set_up_state (world coff_file)
      ≡ ok (psp, s') (world coff_file))
    × Keeps sys server set_up_state s'
    × HasPsp sys server 0x10 set_up_state my_psp psp s'
switch-Keeps_example =
    switch-Keeps sys server 0x10 set_up_state sample_keeps 0x100 my_psp (world coff_file) refl
      (omega arith) (no_host sample_missing)

fullstub-IsStarted_example :
    (k : ℕ) × Returns
      (IsStarted sys server
        (λ s sel d. answered)
        []
        stub_name
        5
        found
        running
        coff_ops
        0
        0x2008
        coff_handle
        read_world
        (λ base mem. HasImage coff_file 0 base read_world.scns mem read_world.mem)
        my_alias
        my_psp)
      (fullstub sys k (stub_name ∷ []) [] (world coff_file).mem (λ i. 0) zeroed running)
unfolding image_info page_align
fullstub-IsStarted_example =
    fullstub-IsStarted sys server (λ s sel d. answered) [] stub_name 5 found running coff_ops 0
      0x2008 coff_handle read_world
      (λ base mem. HasImage coff_file 0 base read_world.scns mem read_world.mem) my_alias my_psp []
      (world coff_file).mem (λ i. 0) zeroed zeroed stub_name coff_file coff no_elfexec refl
      (λ p. refl) (omega arith) coff_Chain coff_loader headers_run coff_loads (omega arith)
      (omega arith) (omega arith) named_selectors (λ e. absurd (omega (arith, e))) sample_keeps
      (omega arith)
      (λ p w' ready. no_host (record {
        missing = refl;
        agreed = refl;
        new =
            subst (λ s. IsNew services server s (services.segment_to_descriptor 0x100 s) my_psp)
              (sym ready.state) set_up_new;
        of_psp = refl;
      }))

-- A stub whose COFF header announces no optional header.
abbrev bare : System State
bare = record sys { open_file = λ name. some (5, stub_file) }

bare_opthdr :
    (coff_header host
      (at_headers bare [] stub_name stub_file
        (λ p. refl)
        (λ a. 0)
        (λ a. 0)
        running
        after_mz.coffset)
      (λ p. refl)).f_opthdr
    ≡ 0
unfolding decode_coff_header word16 parse_mz word32
bare_opthdr = refl

fullstub-refuses_example :
    (k : ℕ) × (fullstub bare k (stub_name ∷ []) [] (λ a. 0) (λ a. 0) zeroed running ≡ exit_failure)
fullstub-refuses_example =
    fullstub-refuses bare [] stub_name stub_file (λ p. refl) (λ a. 0) (λ a. 0) running [] zeroed
      zeroed stub_name 5 coff after_mz no_elfexec refl (omega arith) sample_Chain
      (incomplete (omega (arith, bare_opthdr)) (inl (omega (arith, bare_opthdr))))
