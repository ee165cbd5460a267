-- ===== src/Tests/Ministub.antt =====
-- Runs of the model of src/ministub.c.
use djstub.Base.{ℕ, ◌<◌, ◌≡◌, refl, some, ◌∷◌, [], Bytes, false, arith}
use djstub.Ministub.{count_env, make_envp}
use djstub.Ministub.Table.{char, last, next, Block, texts, HasTable, make_envp-HasTable}
use djstub.Ministub.Room.{make_envp-room}
use djstub.Tests.Sample.{at_offsets}

-- The texts "A=" and "B".
abbrev pub block : Bytes
block = at_offsets ((0, b'A') ∷ (1, b'=') ∷ (3, b'B') ∷ [])

abbrev pub garbage : ℕ → ℕ
garbage j = 0xcc

count_runs : count_env block 0x500 10 0 false 0 ≡ some 2
unfolding count_env
count_runs = refl

pub block-Block : Block block (0 ∷ 3 ∷ []) 5
block-Block = texts (omega arith) (char (omega arith) (next refl (omega arith) (last refl refl)))

make_envp-HasTable_example :
    (envp : ℕ → ℕ) × (make_envp block 0x500 10 garbage ≡ some (2, envp))
    × HasTable block 0x500 (0 ∷ 3 ∷ []) garbage envp
make_envp-HasTable_example = make_envp-HasTable block 0x500 10 garbage block-Block (omega arith)

make_envp-room_example :
    (envp : ℕ → ℕ) × (make_envp block 0x500 10 garbage ≡ some (2, envp))
    × (envp 2 ≡ 0)
    × ((j : ℕ) → 2 < j → envp j ≡ 0xcc)
make_envp-room_example = make_envp-room block 0x500 10 2 garbage count_runs
