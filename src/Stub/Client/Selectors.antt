-- ===== src/Stub/Client/Selectors.antt =====
-- The descriptors of the client that `fullstub` of src/stub.c sets up, on a DPMI server that does
-- what the specification says.
use djstub.Base.{
  ℕ, ◌≡◌, ◌≢◌, refl, sym, ap, ◌∙◌, Option, none, some, add32, to_u16, u16_mod, u32_mod, ◌<◌, arith,
  ◌==◌, eq→==, ne→==, if◌then◌else◌,
}
use mathlib.Core.Option.{none-ne-some}
use djstub.Stub.Client.{Services, map_selector, map_stubinfo}

pub record Descriptor : Type 0 where
  pub base : ℕ
  pub limit : ℕ
  pub rights : ℕ

abbrev change : (Descriptor → Descriptor) → Option Descriptor → Option Descriptor
change f none = none
change f (some d) = some (f d)

-- Where a selector has a descriptor, it is changed; a call on another selector has no effect.
abbrev pub adjust : ℕ → (Descriptor → Descriptor) → (ℕ → Option Descriptor) → ℕ → Option Descriptor
adjust sel f view i = if i == sel then change f (view i) else view i

-- What the services do to the descriptors that are in use.
pub record IsServer {S : Type 0} (services : Services S) (view : S → ℕ → Option Descriptor)
    : Type 0 where
  pub set_base :
      (sel b : ℕ) (s : S)
      → sel < u16_mod
      → b < u32_mod
      → view (services.set_segment_base_address sel b s)
        ≡ adjust sel (λ d. record d { base = b }) (view s)
  pub set_limit :
      (sel l : ℕ) (s : S)
      → sel < u16_mod
      → l < u32_mod
      → view (services.set_segment_limit sel l s)
        ≡ adjust sel (λ d. record d { limit = l }) (view s)
  pub set_rights :
      (sel r : ℕ) (s : S)
      → sel < u16_mod
      → r < u16_mod
      → view (services.set_descriptor_access_rights sel r s)
        ≡ adjust sel (λ d. record d { rights = r }) (view s)
  pub get_base :
      (sel : ℕ) (s : S) (d : Descriptor)
      → sel < u16_mod
      → d.base < u32_mod
      → view s sel ≡ some d
      → (services.get_segment_base_address sel s).0 ≡ d.base
  pub get_base_keeps : (sel : ℕ) (s : S) → view (services.get_segment_base_address sel s).1 ≡ view s
  pub memory : (n : ℕ) (s : S) → view (services.allocate_memory n s).1 ≡ view s
  pub allocate_keeps :
      (n i : ℕ) (s : S) (d : Descriptor)
      → view s i ≡ some d
      → view (services.allocate_ldt_descriptors n s).1 i ≡ some d
  pub alias_keeps :
      (sel i : ℕ) (s : S) (d : Descriptor)
      → view s i ≡ some d
      → view (services.create_alias_descriptor sel s).1 i ≡ some d

module _ {S : Type 0} (services : Services S) {view : S → ℕ → Option Descriptor}
    (server : IsServer services view) where
  -- The call has given a selector that was not in use before, with the descriptor `d`.
  pub record IsNew (s : S) (r : ℕ × S) (d : Descriptor) : Type 0 where
    pub unused : view s (to_u16 r.0) ≡ none
    pub used : view r.1 (to_u16 r.0) ≡ some d
    pub base_small : d.base < u32_mod

  -- The descriptors behind the three calls of `map_selector`.
  view-map_selector :
      (sel b r : ℕ) (s : S)
      → sel < u16_mod
      → b < u32_mod
      → r < u16_mod
      → view (map_selector services sel b r s)
        ≡ adjust sel
            (λ d. record d { limit = 0xffff_ffff })
            (adjust sel
              (λ d. record d { rights = r })
              (adjust sel (λ d. record d { base = b }) (view s)))
  unfolding map_selector
  view-map_selector sel b r s l m n =
      let s₁ = services.set_segment_base_address sel b s in
      let s₂ = services.set_descriptor_access_rights sel r s₁ in
      server.set_limit sel 0xffff_ffff s₂ l (omega arith)
      ∙ ap (adjust sel (λ d. record d { limit = 0xffff_ffff })) (
          server.set_rights sel r s₁ l n
          ∙ ap (adjust sel (λ d. record d { rights = r })) (server.set_base sel b s l m))

  pub map_selector-here :
      (sel b r : ℕ) (s : S) (d : Descriptor)
      → sel < u16_mod
      → b < u32_mod
      → r < u16_mod
      → view s sel ≡ some d
      → view (map_selector services sel b r s) sel
        ≡ some (record { base = b; limit = 0xffff_ffff; rights = r })
  map_selector-here sel b r s d l m n e =
      rw (view-map_selector sel b r s l m n, eq→== sel sel refl, e) refl

  pub map_selector-apart :
      (sel b r i : ℕ) (s : S)
      → sel < u16_mod
      → b < u32_mod
      → r < u16_mod
      → i ≢ sel
      → view (map_selector services sel b r s) i ≡ view s i
  map_selector-apart sel b r i s l m n h = rw (view-map_selector sel b r s l m n, ne→== i sel h)

  -- A selector in use is another than a new one.
  pub IsNew-other :
      {s : S} {r : ℕ × S} {d e : Descriptor} {i : ℕ}
      → IsNew s r d
      → view s i ≡ some e
      → i ≢ to_u16 r.0
  IsNew-other {e} new used same = none-ne-some e (sym new.unused ∙ ap (view _) (sym same) ∙ used)

  -- The alias, and what `stubinfo` is seen through.
  module _ (my_ds at : ℕ) (s : S) where
    abbrev pub alias_call : ℕ × S
    alias_call = services.create_alias_descriptor my_ds s

    abbrev sel : ℕ
    sel = to_u16 alias_call.0

    abbrev get_call : ℕ × S
    get_call = services.get_segment_base_address sel alias_call.1

    view-map_stubinfo :
        view (map_stubinfo services my_ds at s).1
        ≡ adjust sel
            (λ d. record d { limit = 0xa3 })
            (adjust sel (λ d. record d { base = add32 get_call.0 at }) (view alias_call.1))
    unfolding map_stubinfo
    view-map_stubinfo =
        let b = add32 get_call.0 at in
        server.set_limit sel 0xa3 (services.set_segment_base_address sel b get_call.1) (omega arith)
          (omega arith)
        ∙ ap (adjust sel (λ d. record d { limit = 0xa3 })) (
            server.set_base sel b get_call.1 (omega arith) (omega arith)
            ∙ ap (adjust sel (λ d. record d { base = b })) (server.get_base_keeps sel alias_call.1))

    map_stubinfo-selector : (map_stubinfo services my_ds at s).0 ≡ sel
    unfolding map_stubinfo
    map_stubinfo-selector = refl

    pub map_stubinfo-here :
        (d : Descriptor)
        → IsNew s alias_call d
        → view (map_stubinfo services my_ds at s).1 (map_stubinfo services my_ds at s).0
          ≡ some (record d { base = add32 d.base at; limit = 0xa3 })
    map_stubinfo-here d new =
        rw
          (
            map_stubinfo-selector,
            view-map_stubinfo,
            server.get_base sel alias_call.1 d (omega arith) new.base_small new.used,
            eq→== sel sel refl,
            new.used,
          )
          refl

    pub map_stubinfo-apart :
        (i : ℕ) (d e : Descriptor)
        → IsNew s alias_call d
        → view s i ≡ some e
        → view (map_stubinfo services my_ds at s).1 i ≡ some e
    map_stubinfo-apart i d e new used =
        rw (view-map_stubinfo, ne→== i sel (IsNew-other new used))
          (server.alias_keeps my_ds i s e used)
