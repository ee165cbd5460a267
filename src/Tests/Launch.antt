-- ===== src/Tests/Launch.antt =====
-- A run of `main` of src/ministub.c.
use djstub.Base.{ℕ, ◌≡◌, refl, false, some, List, [], ◌∷◌, arith}
use djstub.Util.Init.{returned}
use djstub.Util.Init.Pool.{Event, logged, asked}
use djstub.Ministub.Table.{HasTable}
use djstub.Ministub.Main.{Launcher, main}
use djstub.Ministub.Main.Enters.{main-enters}
use djstub.Tests.Init.{answers, answers-Agree}
use djstub.Tests.Ministub.{block, block-Block, garbage}

-- The host knows the extension, at an offset above 16 bits, and the loader returns its offset.
abbrev launcher : Launcher (List Event)
launcher = record {
  wants_fullstub = false;
  query = λ log. ((0, 0x97, 0x5_1230), log);
  open_argv = λ log. (some 5, log);
  low = logged answers;
  fullstub = λ argc argv envp log. returned tt log;
  enter_stub = λ c envp log. (c.off, log);
  argv_at = 0x3_0000;
  envp_at = 0x3_0010;
  psp_garbage = 0;
}

main-enters_example :
    (envp : ℕ → ℕ) × HasTable block 0x500 (0 ∷ 3 ∷ []) garbage envp
    × (main launcher block 0x500 10 garbage 1 [] ≡ some (returned 0x1230 (asked answers 0 [])))
main-enters_example =
    main-enters answers launcher block 0x500 10 1 0x97 0x5_1230 5 garbage (0 ∷ 3 ∷ []) 5 []
      block-Block (omega arith) (omega arith)
      (record { no_fullstub = refl; known = refl; opened = refl; is_logged = refl }) answers-Agree
      (omega arith) (omega arith)
