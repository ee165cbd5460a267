-- ===== src/Stub/Main/Prepare.antt =====
-- The client's image is in the block of memory that `fullstub` of src/stub.c has allocated for it,
-- whichever loader reads it.
use djstub.Base.{
  ℕ, ◌+◌, ◌≤◌, ◌<◌, ◌≡◌, ◌≢◌, refl, ap, ◌∙◌, Option, some, List, Bytes, u32_mod, sub32, minus_one,
  arith,
}
use djstub.Run.{World, Host, ok, off_limit}
use djstub.Run.Returns.{Returns, returns, bind}
use djstub.Util.FilePart.{seek_set-run}
use djstub.Util.Block.{OutsideBlock, OutsideBlock-mono}
use djstub.Util.Init.{get_low_pool}
use djstub.Stub.Scan.{StubInfo, Search}
use djstub.Stub.Info.{image_info, store_payload}
use djstub.Stub.Client.{Client, map_client}
use djstub.Stub.Client.Selectors.{Descriptor, IsServer}
use djstub.Stub.Client.Block.{block_size}
use djstub.Stub.Client.Mapped.{
  HasSelectors, IsMapped, block, set_up, map_client-set_up, map_client-IsMapped,
}
use djstub.Stub.Loader.{Ldops}
use djstub.Stub.Loader.Loads.{Loads}
use djstub.Stub.Main.{System, Prepared, host_at, load_image, prepare_client, prepare}

module _ {S : Type 0} (sys : System S) {view : S → ℕ → Option Descriptor}
    (server : IsServer sys.services view)
    (answers : (s : S) (sel : ℕ) (d : Descriptor)
      → view s sel ≡ some d
      → sys.segment_base s sel ≡ some d.base)
    (envp : List (List ℕ)) (argv0 : List ℕ) (ifile : ℕ) (search : Search) (s : S) {H : Type 0}
    (ops : Host → Ldops H) (start len : ℕ) (h : H) (w : World) (Image : ℕ → Bytes → Type 0)
    (alias : Descriptor) where
  abbrev info : StubInfo
  info = image_info envp argv0 len search.info

  -- What `dpmi_allocate_memory` gives: the return code, the address and the handle.
  abbrev pub given : ℕ × ℕ × ℕ
  given =
      (block sys.services server (get_low_pool sys.low) sys.my_ds sys.stubinfo_at start info s).0

  abbrev pub size : ℕ
  size = block_size envp argv0 len search.info

  abbrev Mapped : Client → S → Type 0
  Mapped =
      IsMapped sys.services server (get_low_pool sys.low) sys.my_ds sys.stubinfo_at start info s
        alias

  abbrev final : S
  final = set_up sys.services server (get_low_pool sys.low) sys.my_ds sys.stubinfo_at start info s

  -- The image is in the block, the descriptors show it, no call of the server has followed the
  -- set-up, and the file stands at the payload.
  pub record IsPrepared (p : Prepared S) (w' : World) : Type 0 where
    pub mapped : Mapped p.client p.state
    pub state : p.state ≡ final
    pub image : Image (sub32 given.1 start) w'.mem
    pub outside : OutsideBlock given.1 size w.mem w'.mem
    pub entry : p.entry ≡ (ops sys.host).get_entry h
    pub self_offs : p.client.info.self_offs ≡ search.coffset
    pub payload_offs : p.client.info.payload_offs ≡ search.noffset
    pub at_payload : w'.file.pos ≡ search.noffset

  module _ (loads : Loads ops search.coffset start len h w Image) (room : given.1 + size ≤ u32_mod)
      (fits : len + 1 ≤ size) (payload : search.noffset < off_limit) where
    load_image-IsPrepared :
        (c : Client) (s' : S)
        → Mapped c s'
        → s' ≡ final
        → Returns IsPrepared (load_image sys envp argv0 ifile ops h search c s' w)
    unfolding load_image store_payload
    load_image-IsPrepared c s' m same =
        bind
          (loads.in_block (host_at sys s') (record { off = 0; seg = c.clnt_ds })
            (sub32 given.1 start) given.1 (answers s' c.clnt_ds _ m.dat) (omega arith)
            (omega arith))
          λ _ w' r. rw (seek_set-run search.noffset w' payload) (
            returns (record {
              mapped = record {
                code = m.code;
                dat = m.dat;
                stubinfo = m.stubinfo;
                mem_base = m.mem_base;
                mem_lin = m.mem_lin;
                handle = m.handle;
              };
              state = same;
              image = r.0;
              outside = OutsideBlock-mono fits r.1;
              entry = refl;
              self_offs = refl;
              payload_offs = refl;
              at_payload = refl;
            }))

    prepare_client-IsPrepared :
        HasSelectors sys.services server
          (get_low_pool sys.low)
          sys.my_ds
          sys.stubinfo_at
          start
          info
          s
          alias
        → given.0 ≢ minus_one
        → Returns IsPrepared (prepare_client sys envp argv0 ifile ops h search s w)
    unfolding prepare_client
    prepare_client-IsPrepared has allocated =
        let (c, s', e, m) =
          map_client-IsMapped sys.services server (get_low_pool sys.low) sys.my_ds sys.stubinfo_at
            start info s alias has allocated in
        let same =
          map_client-set_up sys.services server (get_low_pool sys.low) sys.my_ds sys.stubinfo_at
            start info s c s' allocated e in
        let o = ops sys.host in
        let mapping = λ (a n : ℕ).
          map_client sys.services (get_low_pool sys.low) sys.my_ds sys.stubinfo_at a
            (image_info envp argv0 n search.info) s in
        let e' : mapping (o.get_va h) (o.get_length h) ≡ some (c, s') =
          ap (λ a. mapping a (o.get_length h)) (loads.is_start sys.host)
          ∙ ap (mapping start) (loads.is_length sys.host)
          ∙ e in
        rw (prepare_client, e') (load_image-IsPrepared c s' m same)

  -- Let the DPMI server keep to `IsServer`, have the selectors to give that the client needs and
  -- not fail the allocation, and let `dpmi_get_segment_base_address` find the base of a descriptor
  -- that is in use. Let the loader read the headers and then keep to `Loads` for the handle, let
  -- the block of memory that is given end within the address space, let the image be smaller than
  -- the block, and let the payload start below 2 GiB. Then `prepare` returns: the selectors of the
  -- client show the block at the image's addresses, the server's state is that behind the set-up,
  -- the image is in the block, no linear address
  -- outside the block has changed since the headers were read, the entry point is that of the
  -- handle, `stubinfo` has the offsets of the executable and of the payload, and the file stands
  -- at the payload.
  pub prepare-IsPrepared :
      (w₀ : World)
      → (ops sys.host).read_headers w₀ ≡ ok (some h) w
      → Loads ops search.coffset start len h w Image
      → given.1 + size ≤ u32_mod
      → len + 1 ≤ size
      → search.noffset < off_limit
      → HasSelectors sys.services server
          (get_low_pool sys.low)
          sys.my_ds
          sys.stubinfo_at
          start
          info
          s
          alias
      → given.0 ≢ minus_one
      → Returns IsPrepared (prepare sys envp argv0 ifile ops search s w₀)
  unfolding prepare
  prepare-IsPrepared w₀ e loads room fits payload has allocated =
      rw e (prepare_client-IsPrepared loads room fits payload has allocated)
