-- ===== src/Stub/Client.antt =====
-- The descriptors and the memory block that `fullstub` of src/stub.c gets from the DPMI server for
-- the client.
pub mod Selectors
pub mod Mapped
pub mod Block
use djstub.Base.{
  ℕ, ◌-◌, ◌*◌, ◌/◌, Option, none, some, add32, sub32, minus_one, to_u16, ◌==◌, if◌then◌else◌,
}
use djstub.Util.LongRead.{page_size}
use djstub.Stub.Scan.{StubInfo}
use djstub.Stub.Info.{sizeof_stubinfo}

-- The services that `fullstub` calls through src/dpmi.c, on the state `S` of a server. Results
-- that it does not look at are left out.
pub record Services (S : Type 0) : Type 0 where
  pub segment_to_descriptor : ℕ → S → ℕ × S
  pub create_alias_descriptor : ℕ → S → ℕ × S
  pub allocate_ldt_descriptors : ℕ → S → ℕ × S
  pub set_segment_base_address : ℕ → ℕ → S → S
  pub set_segment_limit : ℕ → ℕ → S → S
  pub set_descriptor_access_rights : ℕ → ℕ → S → S
  pub get_segment_base_address : ℕ → S → ℕ × S
  -- The return code, the address and the handle.
  pub allocate_memory : ℕ → S → (ℕ × ℕ × ℕ) × S

-- `PAGE_ALIGN` of 32 bits, whose mask clears the lowest 12.
unfoldable pub page_align : ℕ → ℕ
page_align addr = add32 addr (page_size - 1) / page_size * page_size

-- `clnt_entry.selector`, `clnt_ds`, `stubinfo_fs`, `mem_lin` and what is in `stubinfo`.
pub record Client : Type 0 where
  pub entry_selector : ℕ
  pub clnt_ds : ℕ
  pub stubinfo_fs : ℕ
  pub mem_lin : ℕ
  pub info : StubInfo

module _ {S : Type 0} (services : Services S) where
  -- Base, access rights and limit of a client selector, in the order of the calls.
  unfoldable pub map_selector : (sel mem_base rights : ℕ) → S → S
  map_selector sel mem_base rights s =
      let s = services.set_segment_base_address sel mem_base s in
      let s = services.set_descriptor_access_rights sel rights s in
      services.set_segment_limit sel 0xffff_ffff s

  -- The descriptor that shows `stubinfo`, at the offset `at` of the data segment, to the client.
  unfoldable pub map_stubinfo : (my_ds at : ℕ) → S → ℕ × S
  map_stubinfo my_ds at s =
      let (fs, s) = services.create_alias_descriptor my_ds s in
      let stubinfo_fs = to_u16 fs in
      let (base, s) = services.get_segment_base_address stubinfo_fs s in
      let stubinfo_mem = add32 base at in
      let s = services.set_segment_base_address stubinfo_fs stubinfo_mem s in
      (stubinfo_fs, services.set_segment_limit stubinfo_fs (sizeof_stubinfo - 1) s)

  -- The selectors of the low memory that the client keeps.
  unfoldable pub map_low : (low_pool : ℕ) → StubInfo → S → StubInfo × S
  map_low low_pool info s =
      let (ds, s) = services.segment_to_descriptor low_pool s in
      let ds_selector = to_u16 ds in
      let s = services.set_segment_limit ds_selector (sub32 info.minkeep 1) s in
      let (cs, s) = services.create_alias_descriptor ds_selector s in
      let cs_selector = to_u16 cs in
      let s = services.set_descriptor_access_rights cs_selector 0xfb s in
      (
        record info { ds_segment = low_pool; ds_selector = ds_selector; cs_selector = cs_selector },
        s,
      )

  -- From `stubinfo.ds_segment` to `ops->read_sections`; `none` is `exit(EXIT_FAILURE)`.
  unfoldable pub map_client : (low_pool my_ds at va : ℕ) → StubInfo → S → Option (Client × S)
  unfolding map_selector map_stubinfo map_low
  map_client low_pool my_ds at va info s =
      let (info, s) = map_low low_pool info s in
      let (entry, s) = services.allocate_ldt_descriptors 1 s in
      let entry_selector = to_u16 entry in
      let (ds, s) = services.allocate_ldt_descriptors 1 s in
      let clnt_ds = to_u16 ds in
      let ((rc, mem_lin, handle), s) = services.allocate_memory (page_align info.initial_size) s in
      if rc == minus_one
      then none
      else let mem_base = sub32 mem_lin va in
        let s = map_selector entry_selector mem_base 0xc0fb s in
        let s = map_selector clnt_ds mem_base 0xc0f3 s in
        let (fs, s) = map_stubinfo my_ds at s in
        some (
          record {
            entry_selector = entry_selector;
            clnt_ds = clnt_ds;
            stubinfo_fs = fs;
            mem_lin = mem_lin;
            info = record info { memory_handle = handle; mem_base = mem_base };
          },
          s,
        )
