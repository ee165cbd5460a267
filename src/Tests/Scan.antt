-- ===== src/Tests/Scan.antt =====
-- The search of src/stub.c for the executable, at concrete inputs.
use djstub.Base.{ℕ, ◌≡◌, refl, sym, subst, ◌<◌, [], ◌∷◌, true, word32, arith}
use djstub.Run.{File, off_limit, out_of_fuel}
use djstub.Stub.Scan.{StubInfo, Search, coff, is_mz, is_coff, parse_mz, search_loop}
use djstub.Stub.Scan.Chain.{header_at, Chain, at_coff, at_mz}
use djstub.Stub.Scan.Ends.{IsForward, Ended, search_loop-Ended, search_loop-spins}
use djstub.Tests.Sample.{host, world, at_offsets, sound_file, stub_file}

-- The static `stubinfo` before the program runs.
abbrev pub zeroed : StubInfo
zeroed = record {
  magic = λ i. 0;
  size = 0;
  minstack = 0;
  memory_handle = 0;
  initial_size = 0;
  minkeep = 0;
  ds_selector = 0;
  ds_segment = 0;
  psp_selector = 0;
  cs_selector = 0;
  env_size = 0;
  reserved = λ i. 0;
  argv0 = λ i. 0;
  dpmi_server = λ i. 0;
  stubinfo_ver = 0;
  self_fd = 0;
  self_offs = 0;
  self_size = 0;
  payload_offs = 0;
  payload_size = 0;
  payload2_offs = 0;
  payload2_size = 0;
  payload2_name = λ i. 0;
  mem_base = 0;
  flags = 0;
  uentry = 0;
  cpl_fd = 0;
  upl_base = 0;
  upl_size = 0;
  elfload_arg = 0;
}

abbrev pub start : Search
start = record {
  coffset = 0;
  coffsize = 0;
  noffset = 0;
  nsize = 0;
  noffset2 = 0;
  nsize2 = 0;
  info = zeroed;
}

abbrev pub after_mz : Search
after_mz = parse_mz (header_at host stub_file 0) start

sample_after : (after_mz.coffset ≡ 64) × (after_mz.noffset ≡ 164) × (after_mz.noffset2 ≡ 173)
unfolding parse_mz word32
sample_after = (refl, refl, refl)

coff_at_64 : is_coff (header_at host stub_file 64) ≡ true
unfolding is_coff
coff_at_64 = refl

pub sample_Chain : Chain host stub_file start coff after_mz
unfolding is_mz is_coff parse_mz word32
sample_Chain = at_mz (omega arith) refl (omega arith) (at_coff (omega arith) refl refl)

-- The only MZ header of the sample is the first.
mz_at_zero : (o : ℕ) → is_mz (header_at host stub_file o) ≡ true → o ≡ 0
unfolding is_mz
mz_at_zero o h = ground arith

link_at_zero :
    (0 < word32 (header_at host stub_file 0) 0x3c)
    × (word32 (header_at host stub_file 0) 0x3c < off_limit)
unfolding word32
link_at_zero = omega arith

sample_IsForward : IsForward host stub_file
sample_IsForward o room mz =
    subst
      (λ o.
        (o < word32 (header_at host stub_file o) 0x3c)
        × (word32 (header_at host stub_file o) 0x3c < off_limit))
      (sym (mz_at_zero o mz)) link_at_zero

search_loop-Ended_example : Ended host stub_file 201 start (world stub_file)
search_loop-Ended_example =
    search_loop-Ended host stub_file (λ p. refl) (omega arith) 201 start (world stub_file)
      sample_IsForward (omega arith) refl

-- An MZ header whose link is 0.
abbrev looping : File
looping = sound_file (at_offsets ((0, b'M') ∷ (1, b'Z') ∷ (8, 4) ∷ [])) 64 0

looping_mz : is_mz (header_at host looping 0) ≡ true
unfolding is_mz
looping_mz = refl

looping_link : word32 (header_at host looping 0) 0x3c ≡ 0
unfolding word32
looping_link = refl

search_loop-spins_example : search_loop host 1000 start (world looping) ≡ out_of_fuel
search_loop-spins_example =
    search_loop-spins host looping 1000 start (world looping) (λ p. refl) (omega arith) looping_mz
      looping_link (omega arith) refl
