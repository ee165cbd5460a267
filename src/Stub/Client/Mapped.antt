-- ===== src/Stub/Client/Mapped.antt =====
-- What `fullstub` of src/stub.c has set up for the client when it reads the image.
use djstub.Base.{
  ℕ, ◌≡◌, ◌≢◌, refl, sym, ap, ◌∙◌, Option, some, add32, sub32, minus_one, to_u16, arith, ne→==,
}
use mathlib.Core.Option.{some-injective}
use djstub.Stub.Scan.{StubInfo}
use djstub.Stub.Client.{
  Services, Client, map_selector, map_stubinfo, map_low, map_client, page_align,
}
use djstub.Stub.Client.Selectors.{
  Descriptor, IsServer, IsNew, IsNew-other, map_selector-here, map_selector-apart,
  map_stubinfo-here, map_stubinfo-apart,
}

module _ {S : Type 0} (services : Services S) {view : S → ℕ → Option Descriptor}
    (server : IsServer services view) (low_pool my_ds at va : ℕ) (info : StubInfo) (s : S) where
  -- The states between the calls.
  abbrev low : StubInfo × S
  low = map_low services low_pool info s

  abbrev entry : ℕ × S
  entry = services.allocate_ldt_descriptors 1 low.1

  abbrev ds : ℕ × S
  ds = services.allocate_ldt_descriptors 1 entry.1

  abbrev pub block : (ℕ × ℕ × ℕ) × S
  block = services.allocate_memory (page_align low.0.initial_size) ds.1

  abbrev pub block_base : ℕ
  block_base = sub32 block.0.1 va

  abbrev entry_mapped : S
  entry_mapped = map_selector services (to_u16 entry.0) block_base 0xc0fb block.1

  abbrev mapped : S
  mapped = map_selector services (to_u16 ds.0) block_base 0xc0f3 entry_mapped

  -- The server has three selectors to give, the last an alias with the descriptor `alias`.
  pub record HasSelectors (alias : Descriptor) : Type 0 where
    pub of_entry : Descriptor
    pub of_ds : Descriptor
    pub new_entry : IsNew services server low.1 entry of_entry
    pub new_ds : IsNew services server entry.1 ds of_ds
    pub new_fs : IsNew services server mapped (services.create_alias_descriptor my_ds mapped) alias

  -- The descriptors that the client starts with.
  pub record IsMapped (alias : Descriptor) (c : Client) (s' : S) : Type 0 where
    pub code :
        view s' c.entry_selector
        ≡ some (record { base = block_base; limit = 0xffff_ffff; rights = 0xc0fb })
    pub dat :
        view s' c.clnt_ds
        ≡ some (record { base = block_base; limit = 0xffff_ffff; rights = 0xc0f3 })
    pub stubinfo :
        view s' c.stubinfo_fs ≡ some (record alias { base = add32 alias.base at; limit = 0xa3 })
    pub mem_base : c.info.mem_base ≡ block_base
    pub mem_lin : c.mem_lin ≡ block.0.1
    pub handle : c.info.memory_handle ≡ block.0.2

  abbrev client : Client
  client = record {
    entry_selector = to_u16 entry.0;
    clnt_ds = to_u16 ds.0;
    stubinfo_fs = (map_stubinfo services my_ds at mapped).0;
    mem_lin = block.0.1;
    info = record low.0 { memory_handle = block.0.2; mem_base = block_base };
  }

  -- The state behind the set-up.
  abbrev pub set_up : S
  set_up = (map_stubinfo services my_ds at mapped).1

  map_client-run :
      block.0.0 ≢ minus_one
      → map_client services low_pool my_ds at va info s ≡ some (client, set_up)
  unfolding map_client
  map_client-run h = rw (ne→== block.0.0 minus_one h)

  -- Where the set-up succeeds this is the state that it leaves.
  pub map_client-set_up :
      (c : Client) (s' : S)
      → block.0.0 ≢ minus_one
      → map_client services low_pool my_ds at va info s ≡ some (c, s')
      → s' ≡ set_up
  map_client-set_up c s' h e =
      ap (λ (r : Client × S). r.1)
        (some-injective (c, s') (client, set_up) (sym e ∙ map_client-run h))

  -- The code selector is in use up to the end of the calls, and the data selector too.
  module _ (alias : Descriptor) (has : HasSelectors alias) where
    entry-used : view block.1 (to_u16 entry.0) ≡ some has.of_entry
    entry-used =
        ap (λ v. v (to_u16 entry.0)) (server.memory (page_align low.0.initial_size) ds.1)
        ∙ server.allocate_keeps 1 (to_u16 entry.0) entry.1 has.of_entry has.new_entry.used

    ds-used : view block.1 (to_u16 ds.0) ≡ some has.of_ds
    ds-used =
        ap (λ v. v (to_u16 ds.0)) (server.memory (page_align low.0.initial_size) ds.1)
        ∙ has.new_ds.used

    entry-ds : to_u16 entry.0 ≢ to_u16 ds.0
    entry-ds = IsNew-other services server has.new_ds has.new_entry.used

    entry-mapped :
        view mapped (to_u16 entry.0)
        ≡ some (record { base = block_base; limit = 0xffff_ffff; rights = 0xc0fb })
    entry-mapped =
        map_selector-apart services server (to_u16 ds.0) block_base 0xc0f3 (to_u16 entry.0)
          entry_mapped (omega arith) (omega arith) (omega arith) entry-ds
        ∙ map_selector-here services server (to_u16 entry.0) block_base 0xc0fb block.1 has.of_entry
            (omega arith) (omega arith) (omega arith) entry-used

    ds-mapped :
        view mapped (to_u16 ds.0)
        ≡ some (record { base = block_base; limit = 0xffff_ffff; rights = 0xc0f3 })
    ds-mapped =
        map_selector-here services server (to_u16 ds.0) block_base 0xc0f3 entry_mapped has.of_ds
          (omega arith) (omega arith) (omega arith)
          (map_selector-apart services server (to_u16 entry.0) block_base 0xc0fb (to_u16 ds.0)
              block.1 (omega arith) (omega arith) (omega arith) (λ e. entry-ds (sym e))
            ∙ ds-used)

    -- Let the DPMI server keep to `IsServer`, let it have three unused selectors to give, the last
    -- an alias whose base is a 32-bit word, and let its allocation not return -1. Then the set-up
    -- succeeds: the code and the data selector of the client both have the address of the block
    -- less that of the image for their base, a limit of 4 GiB and the rights 0xc0fb and 0xc0f3;
    -- the third selector is an alias of the data segment whose base has moved on to `stubinfo`,
    -- with its last byte for the limit; and `stubinfo` has the base and the handle of the block.
    pub map_client-IsMapped :
        block.0.0 ≢ minus_one
        → (c : Client) × (s' : S) × (map_client services low_pool my_ds at va info s ≡ some (c, s'))
          × IsMapped alias c s'
    map_client-IsMapped h = (
      client,
      (map_stubinfo services my_ds at mapped).1,
      map_client-run h,
      record {
        code = map_stubinfo-apart services server my_ds at mapped _ alias _ has.new_fs entry-mapped;
        dat = map_stubinfo-apart services server my_ds at mapped _ alias _ has.new_fs ds-mapped;
        stubinfo = map_stubinfo-here services server my_ds at mapped alias has.new_fs;
        mem_base = refl;
        mem_lin = refl;
        handle = refl;
      },
    )
