-- ===== src/Djstubify/Options.antt =====
-- `main` of djstubify2.py: the options of the command line, and what they make the tool do.
pub mod Bits
pub mod Found
pub mod Links
use Prim.Native.Nat.{bit_and, bit_or}
use djstub.Base.{
  ℕ, zero, suc, ◌+◌, ◌-◌, ◌*◌, ◌^◌, Bool, true, false, ◌&&◌, ◌||◌, not, Option, none, some, List,
  [], ◌∷◌, ◌++◌, Bytes, ltb, leb, ◌==◌, if◌then◌else◌,
}
use djstub.Base.Options.{◌>>=◌}
use djstub.Stub.Scan.{is_mz}
use djstub.Djstubify.{Blob, Link, generate}
use djstub.Djstubify.Convert.{Mode, prepare_output, coff2exe}

-- An option with its argument, a number or a file (`none` is a file that does not open). The
-- number is 0 where -V and -t catch the exception of `int`.
pub data Opt : Type 0 where
  opt_v opt_d opt_i opt_r opt_s opt_g opt_h : Opt
  opt_V opt_t opt_n opt_f : ℕ → Opt
  opt_l opt_S : Option Blob → Opt
  opt_o : Opt

-- The variables of `main`, those of the module among them.
pub record Args : Type 0 where
  pub rmstub : Bool
  pub strip : Bool
  pub generate : Bool
  pub info : Bool
  pub oname : Bool
  pub overlay : List (Option Blob)
  pub nmoffs : ℕ
  pub stub_flags : ℕ
  pub type_map : ℕ
  pub type_val : ℕ
  pub type_shift : ℕ
  pub req_ver : ℕ
  pub stub_ver : ℕ
  pub stub : Option Blob

-- The variables before the options.
abbrev pub no_args : Args
no_args = record {
  rmstub = false;
  strip = false;
  generate = false;
  info = false;
  oname = false;
  overlay = [];
  nmoffs = 0;
  stub_flags = 0;
  type_map = 0;
  type_val = 0;
  type_shift = 0;
  req_ver = 0;
  stub_ver = 8;
  stub = none;
}

-- How a run ends: with an exit code, with a file written, or with the display of -i. An exception
-- that is not caught is the exit code 1.
pub data Ending : Type 0 where
  exits : ℕ → Ending
  writes : Blob → Ending
  shows : Ending

-- `go` goes on with the variables.
pub data Step : Type 0 where
  go : Args → Step
  stop : Ending → Step

-- The case of -V.
unfoldable pub take_version : ℕ → Args → Step
take_version n a =
    if n == 0 || ltb a.stub_ver n
    then stop (exits 1)
    else if n == a.stub_ver - 1
    then go (record a { req_ver = n; stub_ver = n })
    else if ltb n (a.stub_ver - 1)
    then stop (exits 1)
    else go (record a { req_ver = n })

-- The body of the loop over the options.
unfoldable pub take_opt : Opt → Args → Step
take_opt opt_v a = stop (exits 0)
take_opt (opt_V n) a = take_version n a
take_opt opt_d a = go a
take_opt opt_i a = go (record a { info = true })
take_opt opt_r a = go (record a { rmstub = true })
take_opt opt_s a = go (record a { strip = true })
take_opt opt_g a = go (record a { generate = true })
take_opt (opt_l file) a =
    if a.type_val == 0
    then stop (exits 1)
    else go (record a { overlay = a.overlay ++ (file ∷ []); type_shift = a.type_shift + 4 })
take_opt (opt_t n) a =
    if n == 0
    then stop (exits 1)
    else go (record a { type_val = n; type_map = bit_or a.type_map (n * 2 ^ a.type_shift) })
take_opt (opt_n n) a = go (record a { nmoffs = n })
take_opt (opt_f n) a = go (record a { stub_flags = bit_or a.stub_flags n })
take_opt opt_o a = go (record a { oname = true })
take_opt opt_h a = stop (exits 0)
take_opt (opt_S none) a = stop (exits 1)
take_opt (opt_S (some stub)) a = go (record a { stub = some stub })

unfoldable pub take_opts : List Opt → Args → Step
take_opts [] a = go a
take_opts (o ∷ os) a = elim (take_opt o a) [ go a' ↦ take_opts os a' | stop e ↦ stop e ]

abbrev pub has_files : List (Option Blob) → Bool
has_files [] = false
has_files (f ∷ fs) = true

-- `if not req_ver and ...`: a linked stub asks for version 7 unless -V is given.
unfoldable pub choose_ver : Args → Args
choose_ver a =
    if a.req_ver == 0 && leb 8 a.stub_ver && has_files a.overlay && a.stub_ver == 8
    then record a { stub_ver = 7; stub_flags = a.stub_flags - bit_and a.stub_flags 0x80 }
    else a

-- The files of -l, where all open.
abbrev pub all_files : List (Option Blob) → Option (List Blob)
all_files [] = some []
all_files (none ∷ fs) = none
all_files (some f ∷ fs) = do rest ← all_files fs; some (f ∷ rest)

abbrev pub written : Option Blob → Ending
written none = exits 1
written (some f) = writes f

-- `if generate`
unfoldable pub generate_file : Args → Blob → Ending
generate_file a stub = if not a.oname then exits 1 else elim (all_files a.overlay) [
  | none ↦ exits 1
  | some files ↦ written (
      generate
        (record {
          overlays = files;
          type_map = a.type_map;
          nmoffs = a.nmoffs;
          stub_flags = a.stub_flags;
          stub_ver = a.stub_ver;
        })
        stub)
]

-- The other branch, with the files of the command line.
unfoldable pub convert_file : (k n : ℕ) → Args → Blob → List (Option Blob) → Ending
convert_file k n a stub [] = exits 1
convert_file k n a stub (none ∷ files) = exits 1
convert_file k n a stub (some file ∷ files) =
    let mode : Mode = record { rmstub = a.rmstub; strip = a.strip } in
    if a.info
    then elim (prepare_output k mode a.stub_ver stub file) [ none ↦ exits 1 | some out ↦ shows ]
    else written (coff2exe k n mode a.stub_ver stub file)

-- `main` behind the options.
unfoldable pub act : (k n : ℕ) → Args → List (Option Blob) → Ending
act k n a files = elim a.stub [
  | none ↦ exits 1
  | some stub ↦
      if ltb stub.size 0x40 || not (is_mz stub.content)
      then exits 1
      else if a.generate
      then generate_file (choose_ver a) stub
      else convert_file k n (choose_ver a) stub files
]

-- `main`, with the fuel of `coff2exe`.
unfoldable pub djstubify : (k n : ℕ) → List Opt → List (Option Blob) → Ending
djstubify k n opts files = elim (take_opts opts no_args) [ go a ↦ act k n a files | stop e ↦ e ]
