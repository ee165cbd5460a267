-- ===== src/Djstubify/Options/Links.antt =====
-- The options -t and -l of djstubify2.py, and what a command line with them and -g links.
use Prim.Native.Nat.{bit_or-bitwise}
use native.Mathlib.Nat.{mul_assoc, mul_comm, add-mul, mul-le-mul_right}
use native.Mathlib.Numerals.{towards_suc}
use mathlib.Core.List.{append-nil, append_assoc}
use djstub.Base.{
  ℕ, ◌+◌, ◌*◌, ◌^◌, ◌≤◌, ◌<◌, ◌≡◌, refl, sym, ap, ◌∙◌, true, Option, some, none, List, [], ◌∷◌,
  ◌++◌, ne→==, le→ltb, arith,
}
use djstub.Stub.Scan.{is_mz}
use djstub.Djstubify.{Blob, Link, generate}
use djstub.Djstubify.Find.{map_of}
use djstub.Djstubify.Options.{
  Opt, opt_S, opt_g, opt_o, opt_V, opt_f, opt_n, opt_t, opt_l, Args, no_args, Step, go, stop,
  take_opt, take_opts, all_files, written, exits, generate_file, choose_ver, act, djstubify,
  take_version,
}
use djstub.Djstubify.Options.Bits.{bit_or-high}

-- A type with a file.
abbrev pub Part : Type 0
Part = ℕ × Blob

-- -t and -l for each file.
abbrev pub link_opts : List Part → List Opt
link_opts [] = []
link_opts ((t, f) ∷ ps) = opt_t t ∷ opt_l (some f) ∷ link_opts ps

abbrev pub types : List Part → List ℕ
types [] = []
types ((t, f) ∷ ps) = t ∷ types ps

abbrev pub files : List Part → List Blob
files [] = []
files ((t, f) ∷ ps) = f ∷ files ps

abbrev all_some : List Blob → List (Option Blob)
all_some [] = []
all_some (f ∷ fs) = some f ∷ all_some fs

all_files-all_some : (fs : List Blob) → all_files (all_some fs) ≡ some fs
all_files-all_some [] = refl
all_files-all_some (f ∷ fs) = rw (all_files-all_some fs) refl

-- The types fit in four bits and are not 0.
pub data AreTypes : List Part → Type 0 where
  are_none : AreTypes []
  are_more :
      {t : ℕ} {f : Blob} {ps : List Part} → 0 < t → t < 0x10 → AreTypes ps → AreTypes ((t, f) ∷ ps)

-- The variables behind -t and -l.
abbrev linked_one : ℕ → Blob → Args → Args
linked_one t f a = record a {
  type_val = t;
  type_map = a.type_map + t * 2 ^ a.type_shift;
  overlay = a.overlay ++ (some f ∷ []);
  type_shift = a.type_shift + 4;
}

pow4 : (s : ℕ) → 2 ^ (s + 4) ≡ 0x10 * 2 ^ s
pow4 s = simp towards_suc (omega arith)

mul-le : (t p : ℕ) → t < 0x10 → t * p + p ≤ 0x10 * p
mul-le t p l = omega (arith, mul-le-mul_right {m = t + 1} {n = 0x10} p (omega arith), add-mul t 1 p)

take_opts-go :
    (o : Opt) (os : List Opt) (a a' : Args)
    → take_opt o a ≡ go a'
    → take_opts (o ∷ os) a ≡ take_opts os a'
unfolding take_opts
take_opts-go o os a a' e = ap (λ (r : Step). elim r [ go b ↦ take_opts os b | stop x ↦ stop x ]) e

-- A file with its type.
take_opts-part :
    (t : ℕ) (f : Blob) (os : List Opt) (a : Args)
    → 0 < t
    → a.type_map < 2 ^ a.type_shift
    → take_opts (opt_t t ∷ opt_l (some f) ∷ os) a ≡ take_opts os (linked_one t f a)
unfolding take_opt
take_opts-part t f os a pos l =
    let typed : Args = record a { type_val = t; type_map = a.type_map + t * 2 ^ a.type_shift } in
    take_opts-go (opt_t t) (opt_l (some f) ∷ os) a typed
      (rw (ne→== t 0 (omega arith), bit_or-high a.type_shift a.type_map t l) refl)
    ∙ take_opts-go (opt_l (some f)) os typed (linked_one t f a) (rw (ne→== t 0 (omega arith)) refl)

unchanged :
    (a : Args)
    → go a
      ≡ go (record a { overlay = a.overlay ++ []; type_map = a.type_map + 0 * 2 ^ a.type_shift })
unchanged a =
    let p : a.overlay ++ [] ≡ a.overlay = append-nil a.overlay in
    let q : a.type_map + 0 * 2 ^ a.type_shift ≡ a.type_map = omega arith in
    λ i. go (record a { overlay = sym p i; type_map = sym q i })

regrouped :
    (t : ℕ) (f : Blob) (ps : List Part) (a : Args) (v s : ℕ)
    → go (record a {
      overlay = (a.overlay ++ (some f ∷ [])) ++ all_some (files ps);
      type_map = a.type_map + t * 2 ^ a.type_shift + map_of (types ps) * 2 ^ (a.type_shift + 4);
      type_val = v;
      type_shift = s;
    })
      ≡ go (record a {
        overlay = a.overlay ++ (some f ∷ all_some (files ps));
        type_map = a.type_map + (t + 0x10 * map_of (types ps)) * 2 ^ a.type_shift;
        type_val = v;
        type_shift = s;
      })
regrouped t f ps a v s =
    let p = append_assoc a.overlay (some f ∷ []) (all_some (files ps)) in
    let m = map_of (types ps) in
    let pw = 2 ^ a.type_shift in
    let q : a.type_map + t * pw + m * 2 ^ (a.type_shift + 4) ≡ a.type_map + (t + 0x10 * m) * pw =
      ap (λ x. a.type_map + t * pw + m * x) (pow4 a.type_shift)
      ∙ omega (
        arith,
        add-mul t (0x10 * m) pw,
        mul_assoc 0x10 m pw,
        mul_assoc m 0x10 pw,
        mul_comm m 0x10,
        ap (λ x. x * pw) (mul_comm m 0x10),
      ) in
    λ i. go (record a { overlay = p i; type_map = q i; type_val = v; type_shift = s })

take_opts-links :
    (ps : List Part) (a : Args)
    → AreTypes ps
    → a.type_map < 2 ^ a.type_shift
    → (v : ℕ) × (s : ℕ) × (take_opts (link_opts ps) a
        ≡ go (record a {
          overlay = a.overlay ++ all_some (files ps);
          type_map = a.type_map + map_of (types ps) * 2 ^ a.type_shift;
          type_val = v;
          type_shift = s;
        }))
unfolding take_opts
take_opts-links [] a are_none l = (a.type_val, a.type_shift, unchanged a)
take_opts-links ((t, f) ∷ ps) a (are_more pos lim are) l =
    let fits : a.type_map + t * 2 ^ a.type_shift < 2 ^ (a.type_shift + 4) =
      omega (arith, pow4 a.type_shift, mul-le t (2 ^ a.type_shift) lim) in
    let (v, s, e) = take_opts-links ps (linked_one t f a) are fits in
    (v, s, take_opts-part t f (link_opts ps) a pos l ∙ e ∙ regrouped t f ps a v s)

-- The command line of -S, -g, -o, -V 8, -f and -n with files.
abbrev pub link_line : Blob → (flags nmoffs : ℕ) → List Part → List Opt
link_line stub flags nmoffs ps =
    opt_S (some stub) ∷ opt_g ∷ opt_o ∷ opt_V 8 ∷ opt_f flags ∷ opt_n nmoffs ∷ link_opts ps

-- What it links.
abbrev pub link_of : (flags nmoffs : ℕ) → List Part → Link
link_of flags nmoffs ps = record {
  overlays = files ps;
  type_map = map_of (types ps);
  nmoffs = nmoffs;
  stub_flags = flags;
  stub_ver = 8;
}

abbrev before_links : Blob → (flags nmoffs : ℕ) → Args
before_links stub flags nmoffs = record no_args {
  generate = true;
  oname = true;
  req_ver = 8;
  stub_flags = flags;
  nmoffs = nmoffs;
  stub = some stub;
}

link_line-options :
    (stub : Blob) (flags nmoffs : ℕ) (ps : List Part)
    → take_opts (link_line stub flags nmoffs ps) no_args
      ≡ take_opts (link_opts ps) (before_links stub flags nmoffs)
unfolding take_opts take_opt take_version
link_line-options stub flags nmoffs ps =
    ap (λ x. take_opts (link_opts ps) (record (before_links stub flags nmoffs) { stub_flags = x }))
      (bit_or-bitwise 0 flags)

-- `if generate` behind those options.
generate_file-links :
    (stub : Blob) (flags nmoffs : ℕ) (ps : List Part) (v s : ℕ)
    → generate_file
        (record (before_links stub flags nmoffs) {
          overlay = all_some (files ps);
          type_map = 0 + map_of (types ps) * 2 ^ 0;
          type_val = v;
          type_shift = s;
        })
        stub
      ≡ written (generate (link_of flags nmoffs ps) stub)
unfolding generate_file
generate_file-links stub flags nmoffs ps v s =
    let link : ℕ → List Blob → Link =
      λ m fs. record (link_of flags nmoffs ps) { overlays = fs; type_map = m } in
    let m = map_of (types ps) in
    ap
      (λ (r : Option (List Blob)). elim r [
        | none ↦ exits 1
        | some fs ↦ written (generate (link (0 + m * 2 ^ 0) fs) stub)
      ])
      (all_files-all_some (files ps))
    ∙ ap (λ x. written (generate (link x (files ps)) stub)) (omega arith)

pub djstubify-links :
    (k n : ℕ) (stub : Blob) (flags nmoffs : ℕ) (ps : List Part) (args : List (Option Blob))
    → AreTypes ps
    → 0x40 ≤ stub.size
    → is_mz stub.content ≡ true
    → djstubify k n (link_line stub flags nmoffs ps) args
      ≡ written (generate (link_of flags nmoffs ps) stub)
unfolding djstubify act choose_ver
djstubify-links k n stub flags nmoffs ps args are room mz =
    let (v, s, e) = take_opts-links ps (before_links stub flags nmoffs) are (omega arith) in
    ap (λ (r : Step). elim r [ go a ↦ act k n a args | stop x ↦ x ])
      (link_line-options stub flags nmoffs ps ∙ e)
    ∙ rw (le→ltb stub.size 0x40 room, mz) (generate_file-links stub flags nmoffs ps v s)
