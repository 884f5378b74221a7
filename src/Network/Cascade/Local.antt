-- ===== src/Network/Cascade/Local.antt =====
-- What the local strategy of `Cascade` of packages/core/src/network/cascade.ts does.
use holo_web_conductor.Common.{
  ℕ, ◌≡◌, refl, false, Option, none, some, Bytes, Text, arith, Option-cases, inl, inr,
}
use holo_web_conductor.Network.Types.{NetworkRecord}
use holo_web_conductor.Network.Cache.NetworkCache.{NetworkCache, get_record_sync, get_details_sync}
use holo_web_conductor.Network.Cascade.Sources.{
  Storage, NetworkService, Details, CascadeOptions, local, ErrorMode, usable,
}
use holo_web_conductor.Network.Cascade.Fetch.{
  details_after, details_from_cache, fetch_record, fetch_links, fetch_details, record_after,
  record_from_cache, record_from_network, details_from_network, links_offline,
}

usable_off :
    (o : CascadeOptions) (service : Option NetworkService)
    → o.use_network ≡ false
    → usable o service ≡ none
usable_off o none h = refl
usable_off o (some n) h = ground arith

module _ (encode : Bytes → Text) (mode : ErrorMode) {Local : Type 0} (storage : Storage Local)
    (service : Option NetworkService) where
  links_off :
      (options : CascadeOptions) (dna agent base : Bytes) (zome_index link_type : Option ℕ)
      (c : NetworkCache (Details Local))
      → usable (record options { use_network = false }) service ≡ none
      → fetch_links encode mode storage service options
          (some local)
          dna
          agent
          base
          zome_index
          link_type
          c
        ≡ fetch_links encode mode storage none options none dna agent base zome_index link_type c
  unfolding fetch_links links_offline
  links_off options dna agent base zome_index link_type c off = rw (off, fetch_links) refl

  record_after_off :
      (found : Option NetworkRecord) (o o' : CascadeOptions) (dna hash : Bytes)
      (c : NetworkCache (Details Local))
      → usable o service ≡ none
      → record_after encode mode storage service found o dna hash c
        ≡ record_after encode mode storage none found o' dna hash c
  unfolding record_after record_from_cache record_from_network
  record_after_off (some r) o o' dna hash c off = refl
  record_after_off none o o' dna hash c off =
      elim (Option-cases (get_record_sync encode hash c).0) [
        | inl e ↦ rw (e, record_from_cache, off, record_from_network) refl
        | inr (r, e) ↦ rw (e, record_from_cache) refl
      ]

  details_after_off :
      (found : Option (Details Local)) (o o' : CascadeOptions) (read now later : ℕ)
      (dna hash : Bytes) (c : NetworkCache (Details Local))
      → usable o service ≡ none
      → details_after encode mode storage service found o read now later dna hash c
        ≡ details_after encode mode storage none found o' read now later dna hash c
  unfolding details_after details_from_cache details_from_network
  details_after_off (some r) o o' read now later dna hash c off = refl
  details_after_off none o o' read now later dna hash c off =
      elim (Option-cases (get_details_sync encode read hash c).0) [
        | inl e ↦ rw (e, details_from_cache, off, details_from_network) refl
        | inr (r, e) ↦ rw (e, details_from_cache) refl
      ]

  -- The local strategy is a cascade without a network: each fetch gives the same, the cache that it
  -- leaves included, and so does not depend on the network.
  pub fetch-local :
      (options : CascadeOptions) (dna agent hash : Bytes) (zome_index link_type : Option ℕ)
      (read now later : ℕ) (c : NetworkCache (Details Local))
      → (fetch_record encode mode storage service options (some local) dna hash c
          ≡ fetch_record encode mode storage none options none dna hash c)
        × (fetch_links encode mode storage service options
              (some local)
              dna
              agent
              hash
              zome_index
              link_type
              c
            ≡ fetch_links encode mode storage none options none dna agent hash zome_index link_type
                c)
        × (fetch_details encode mode storage service options
              (some local)
              read
              now
              later
              dna
              agent
              hash
              c
            ≡ fetch_details encode mode storage none options none read now later dna agent hash c)
  unfolding fetch_record fetch_links fetch_details record_from_network details_from_network
      record_after record_from_cache details_after details_from_cache
  fetch-local options dna agent hash zome_index link_type read now later c =
      let off = usable_off (record options { use_network = false }) service refl in
      (
        record_after_off _ _ options dna hash c off,
        links_off options dna agent hash zome_index link_type c off,
        details_after_off _ _ options read now later dna hash c off,
      )
