-- ===== src/Tests/Client.antt =====
-- Runs of the part of the model of src/stub.c that prepares the client, on a small DPMI server.
use djstub.Base.{
  word32, ℕ, ◌+◌, ◌≤◌, ◌<◌, ◌≡◌, refl, none, some, List, [], ◌∷◌, ◌++◌, length, u16_mod, ◌%◌, Bytes,
  add32, sub32, ◌==◌, if◌then◌else◌, arith,
}
use djstub.Stub.Scan.{parse_mz}
use djstub.Stub.Source.{elfexec, after_prefix, find_elfexec}
use djstub.Stub.Info.{basename, image_info, payload_info}
use djstub.Stub.Info.Layout.{stubinfo_payload2_offs, offset, member, store_info}
use djstub.Stub.Info.Layout.Offsets.{store_info-Holds}
use djstub.Stub.Info.Names.{HasName, payload_info-HasName}
use djstub.Stub.Client.{Client, map_selector, map_low, map_client}
use djstub.Stub.Client.Selectors.{Descriptor}
use djstub.Stub.Client.Mapped.{HasSelectors, IsMapped, map_client-IsMapped}
use djstub.Stub.Client.Block.{client_address-InBlock}
use djstub.Libc.{strncpy, strcat, store, strrchr}
use djstub.Stub.Client.{page_align}
use djstub.Stub.Info.EnvSize.{env_block, image_info-env_size}
use djstub.Tests.Sample.{at_offsets}
use djstub.Tests.Server.{State, shown, services, server}
use djstub.Tests.Scan.{zeroed, start}

-- The data segment of the stub has selector 15, and 23 is the next to be given.
abbrev pub running : State
running = record {
  descriptors = λ i.
      if i == 15
      then some (record { base = 0x10_0000; limit = 0xffff_ffff; rights = 0xf2 })
      else none;
  next = 23;
}

abbrev pub my_alias : Descriptor
my_alias = record { base = 0x10_0000; limit = 0xffff_ffff; rights = 0xf2 }

running-HasSelectors : HasSelectors services server 0x200 15 0x3000 0x1000 zeroed running my_alias
unfolding map_low map_selector
running-HasSelectors = record {
  of_entry = shown none;
  of_ds = shown none;
  new_entry = record { unused = refl; used = refl; base_small = omega arith };
  new_ds = record { unused = refl; used = refl; base_small = omega arith };
  new_fs = record { unused = refl; used = refl; base_small = omega arith };
}

map_client-IsMapped_example :
    (c : Client) × (s' : State) × (map_client services 0x200 15 0x3000 0x1000 zeroed running
      ≡ some (c, s'))
    × IsMapped services server 0x200 15 0x3000 0x1000 zeroed running my_alias c s'
map_client-IsMapped_example =
    map_client-IsMapped services server 0x200 15 0x3000 0x1000 zeroed running my_alias
      running-HasSelectors (λ e. absurd (omega (arith, e)))

-- An image of 0x12345 bytes at 0x1000, in a block at 4 MiB.
client_address-InBlock_example :
    (add32 (sub32 0x40_0000 0x1000) 0x2000 ≡ 0x40_1000)
    × (add32 (sub32 0x40_0000 0x1000) 0x2000 < 0x40_0000 + 0x1_3000)
unfolding image_info page_align
client_address-InBlock_example =
    client_address-InBlock [] [] 0x1000 0x1_2345 0x40_0000 0x2000 zeroed (omega arith) (omega arith)
      (omega arith) (omega arith) (omega arith)

-- A header that names its second payload "game".
abbrev game_header : Bytes
game_header = at_offsets ((0x30, b'g') ∷ (0x31, b'a') ∷ (0x32, b'm') ∷ (0x33, b'e') ∷ [])

game_name :
    (payload_info 3 (parse_mz game_header start) (parse_mz game_header start).info).payload2_name 7
    ≡ b'g'
unfolding payload_info parse_mz strncpy strcat store
game_name = refl

payload_info-HasName_example :
    let info = (parse_mz game_header start).info in
    let name = (payload_info 3 (parse_mz game_header start) info).payload2_name in
    (k : ℕ) × HasName game_header name k × ((i : ℕ) → 17 ≤ i → name i ≡ info.payload2_name i)
payload_info-HasName_example = payload_info-HasName 3 game_header start (omega arith)

-- A path of the drive's root.
abbrev path : List ℕ
path = b'C' ∷ b':' ∷ b'\\' ∷ b'X' ∷ []

path_base : basename path ≡ b'X' ∷ []
unfolding basename strrchr
path_base = refl

-- The variables A and ELFEXEC.
abbrev variables : List (List ℕ)
variables = (b'A' ∷ b'=' ∷ []) ∷ (elfexec ++ b'x' ∷ []) ∷ []

variables_run : find_elfexec variables ≡ some (b'x' ∷ [])
unfolding find_elfexec after_prefix
variables_run = refl

-- The block that DOS keeps for two variables and a name.
env_block_runs : length (env_block variables path) ≡ 21
unfolding env_block
env_block_runs = refl

image_info-env_size_example :
    (image_info variables path 0x2000 zeroed).env_size ≡ length (env_block variables path) % u16_mod
image_info-env_size_example = image_info-env_size variables path 0x2000 zeroed

-- A member of `stubinfo` in memory.
store_info-Holds_example :
    word32 (store_info (record zeroed { payload2_offs = 7 }) 0x1000 (λ i. 0xee)) 0x106c ≡ 7
unfolding offset member
store_info-Holds_example =
    store_info-Holds stubinfo_payload2_offs (record zeroed { payload2_offs = 7 }) 0x1000 (λ i. 0xee)
