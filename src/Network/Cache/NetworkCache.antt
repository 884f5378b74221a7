-- ===== src/Network/Cache/NetworkCache.antt =====
-- `NetworkCache` of packages/core/src/network/cache.ts: the four caches together. The text of a
-- hash, `encodeHashToBase64` of @holochain/client, is the parameter `encode`.
pub mod Links
pub mod Dual
pub mod History
use holo_web_conductor.Common.{
  ℕ, zero, suc, ◌*◌, ◌+◌, Bool, true, false, not, ◌&&◌, ◌||◌, Option, none, some, List, [], ◌∷◌,
  ◌++◌, Bytes, Text, if◌then◌else◌, ltb, length, seq_eq, any, or_else, decimal,
}
use holo_web_conductor.Common.JsMap
use holo_web_conductor.Common.JsMap.{JsMap}
use holo_web_conductor.Network.Types.{NetworkRecord, NetworkLink, CachedLinkDetail}
use holo_web_conductor.Network.Cache.Lru
use holo_web_conductor.Network.Cache.Lru.{Lru, has_base}
use holo_web_conductor.Network.Cache.Records
use holo_web_conductor.Network.Cache.Records.{RecordCache}
use holo_web_conductor.Network.Cache.Ttl
use holo_web_conductor.Network.Cache.Ttl.{Ttl}

-- The details of a record or an entry come as any value: the type `Details`.
pub record NetworkCache (Details : Type 0) : Type 0 where
  pub records : RecordCache NetworkRecord
  pub links : Lru (List NetworkLink)
  pub link_details : Lru (List CachedLinkDetail)
  pub details : Ttl Details

-- `NetworkCacheOptions`
pub record CacheOptions : Type 0 where
  pub record_max_entries : Option ℕ
  pub link_max_entries : Option ℕ
  pub max_entries : Option ℕ
  pub link_details_max_entries : Option ℕ
  pub details_max_entries : Option ℕ
  pub details_ttl : Option ℕ
  pub ttl : Option ℕ

-- The constructor.
unfoldable pub new : {Details : Type 0} → CacheOptions → NetworkCache Details
new o = record {
  records = record { map = []; alias_map = []; max_entries = or_else o.record_max_entries 10000 };
  links = record {
    map = [];
    max_entries = or_else o.link_max_entries (or_else o.max_entries 5000);
  };
  link_details = record { map = []; max_entries = or_else o.link_details_max_entries 5000 };
  details = record {
    map = [];
    max_entries = or_else o.details_max_entries 1000;
    ttl = or_else o.details_ttl (or_else o.ttl (2 * 60 * 1000));
  };
}

-- The test on two hashes that the loops write out.
abbrev pub has_hash : Bytes → NetworkLink → Bool
has_hash hash l = seq_eq l.create_link_hash hash

-- `some`, then `push`
unfoldable pub merge_link : NetworkLink → List NetworkLink → List NetworkLink
merge_link link links =
    if any (has_hash link.create_link_hash) links then links else links ++ link ∷ []

-- `findIndex`, then `splice`: the first link with the hash goes.
unfoldable pub remove_link : Bytes → List NetworkLink → List NetworkLink
remove_link hash [] = []
remove_link hash (l ∷ links) =
    let rest = remove_link hash links in if has_hash hash l then links else l ∷ rest

unfoldable pub merge_link_detail : NetworkLink → List CachedLinkDetail → List CachedLinkDetail
merge_link_detail link details =
    if any (λ d. has_hash link.create_link_hash d.create) details
    then details
    else details ++ record { create = link; delete_hashes = [] } ∷ []

pub add_delete_hash : Bytes → List Bytes → List Bytes
add_delete_hash hash hashes =
    if any (λ h. seq_eq h hash) hashes then hashes else hashes ++ hash ∷ []

-- The inner loop of `addDeleteToLinkDetailsCache`.
unfoldable pub add_delete : Bytes → Bytes → List CachedLinkDetail → List CachedLinkDetail
unfolding add_delete_hash
add_delete create delete_hash [] = []
add_delete create delete_hash (d ∷ details) =
    (if has_hash create d.create
      then record d { delete_hashes = add_delete_hash delete_hash d.delete_hashes }
      else d)
    ∷ add_delete create delete_hash details

-- A loop over the entries of a cache that changes the values in place, where the key fits.
pub edit {ℓ} : {V : Type ℓ} → (Text → Bool) → (V → V) → JsMap V → JsMap V
edit fits f [] = []
edit fits f ((key, v) ∷ m) = (key, if fits key then f v else v) ∷ edit fits f m

abbrev pub edit_lru {ℓ} : {V : Type ℓ} → (Text → Bool) → (V → V) → Lru V → Lru V
edit_lru fits f c = record c { map = edit fits f c.map }

-- The hash of a record's entry: `content?.entry_hash ?? content?.entryHash`
abbrev pub entry_hash_of : NetworkRecord → Option Bytes
entry_hash_of r = elim r.entry_hash [ none ↦ r.entry_hash_camel | some e ↦ some e ]

-- `instanceof Uint8Array && length > 0`
abbrev pub non_empty : Option Bytes → Option Bytes
non_empty none = none
non_empty (some []) = none
non_empty (some (b ∷ bs)) = some (b ∷ bs)

module _ (encode : Bytes → Text) where
  -- The key of the links at a base: with the type, if one is given.
  abbrev pub link_key : Bytes → Option ℕ → Text
  link_key base none = encode base
  link_key base (some link_type) = encode base ++ b':' ∷ decimal link_type

  unfoldable pub alias_other :
      Text → Option Bytes → Option Bytes → RecordCache NetworkRecord → RecordCache NetworkRecord
  alias_other key none entry c = c
  alias_other key (some action) none c = c
  alias_other key (some action) (some entry) c =
      let a = encode action in
      let e = encode entry in
      if seq_eq key a && not (seq_eq e a)
      then Records.set_alias e a c
      else if seq_eq key e && not (seq_eq a e)
      then Records.set_alias a e c
      else c

  -- `cacheRecordSync`, on the record cache.
  unfoldable pub cache_record :
      Bytes → NetworkRecord → RecordCache NetworkRecord → RecordCache NetworkRecord
  unfolding alias_other
  cache_record hash r c =
      alias_other (encode hash) (non_empty r.hash) (non_empty (entry_hash_of r))
        (Records.set (encode hash) r c)

  module _ {Details : Type 0} where
    -- `getRecordSync`
    unfoldable pub get_record_sync :
        Bytes → NetworkCache Details → Option NetworkRecord × NetworkCache Details
    get_record_sync hash c =
        let (r, records) = Records.get (encode hash) c.records in
        (r, record c { records = records })

    -- `cacheRecordSync`
    unfoldable pub cache_record_sync :
        Bytes → NetworkRecord → NetworkCache Details → NetworkCache Details
    cache_record_sync hash r c = record c { records = cache_record hash r c.records }

    -- `invalidateRecord`
    unfoldable pub invalidate_record : Bytes → NetworkCache Details → NetworkCache Details
    invalidate_record hash c = record c { records = Records.delete (encode hash) c.records }

    -- `getLinksSync`
    unfoldable pub get_links_sync :
        Bytes → Option ℕ → NetworkCache Details → Option (List NetworkLink) × NetworkCache Details
    get_links_sync base link_type c =
        let (l, links) = Lru.get (link_key base link_type) c.links in
        (l, record c { links = links })

    -- `cacheLinksSync`
    unfoldable pub cache_links_sync :
        Bytes → List NetworkLink → Option ℕ → NetworkCache Details → NetworkCache Details
    cache_links_sync base links link_type c = record c {
      links = Lru.set (link_key base link_type) links c.links;
    }

    -- `invalidateLinks`
    unfoldable pub invalidate_links : Bytes → Option ℕ → NetworkCache Details → NetworkCache Details
    invalidate_links base none c = record c { links = Lru.delete_by_prefix (encode base) c.links }
    invalidate_links base (some t) c = record c {
      links = Lru.delete (link_key base (some t)) c.links;
    }

    -- `mergeLinkIntoCache`
    unfoldable pub merge_link_into_cache :
        Bytes → NetworkLink → NetworkCache Details → NetworkCache Details
    merge_link_into_cache base link c = record c {
      links =
          edit_lru
            (λ key. seq_eq key (encode base) || seq_eq key (link_key base (some link.link_type)))
            (merge_link link) c.links;
    }

    -- `removeLinkFromCache`
    unfoldable pub remove_link_from_cache :
        Bytes → Bytes → NetworkCache Details → NetworkCache Details
    remove_link_from_cache base hash c = record c {
      links = edit_lru (has_base (encode base)) (remove_link hash) c.links;
    }

    -- `getLinkDetailsSync`
    unfoldable pub get_link_details_sync :
        Bytes
        → Option ℕ
        → NetworkCache Details
        → Option (List CachedLinkDetail) × NetworkCache Details
    get_link_details_sync base link_type c =
        let (l, details) = Lru.get (link_key base link_type) c.link_details in
        (l, record c { link_details = details })

    -- `cacheLinkDetailsSync`
    unfoldable pub cache_link_details_sync :
        Bytes → List CachedLinkDetail → Option ℕ → NetworkCache Details → NetworkCache Details
    cache_link_details_sync base details link_type c = record c {
      link_details = Lru.set (link_key base link_type) details c.link_details;
    }

    -- `invalidateLinkDetails`
    unfoldable pub invalidate_link_details :
        Bytes → Option ℕ → NetworkCache Details → NetworkCache Details
    invalidate_link_details base none c = record c {
      link_details = Lru.delete_by_prefix (encode base) c.link_details;
    }
    invalidate_link_details base (some t) c = record c {
      link_details = Lru.delete (link_key base (some t)) c.link_details;
    }

    -- `mergeLinkDetailIntoCache`
    unfoldable pub merge_link_detail_into_cache :
        Bytes → NetworkLink → NetworkCache Details → NetworkCache Details
    merge_link_detail_into_cache base link c = record c {
      link_details =
          edit_lru
            (λ key. seq_eq key (encode base) || seq_eq key (link_key base (some link.link_type)))
            (merge_link_detail link) c.link_details;
    }

    -- `addDeleteToLinkDetailsCache`
    unfoldable pub add_delete_to_link_details_cache :
        Bytes → Bytes → Bytes → NetworkCache Details → NetworkCache Details
    add_delete_to_link_details_cache base create delete_hash c = record c {
      link_details =
          edit_lru (has_base (encode base)) (add_delete create delete_hash) c.link_details;
    }

    -- `getDetailsSync`
    unfoldable pub get_details_sync :
        ℕ → Bytes → NetworkCache Details → Option Details × NetworkCache Details
    get_details_sync now hash c =
        let (d, details) = Ttl.get now (encode hash) c.details in
        (d, record c { details = details })

    -- `cacheDetailsSync`
    unfoldable pub cache_details_sync :
        ℕ → ℕ → Bytes → Details → NetworkCache Details → NetworkCache Details
    cache_details_sync now later hash d c = record c {
      details = Ttl.set now later (encode hash) d c.details;
    }

    -- `invalidateDetails`
    unfoldable pub invalidate_details : Bytes → NetworkCache Details → NetworkCache Details
    invalidate_details hash c = record c { details = Ttl.delete (encode hash) c.details }

-- `clear`
unfoldable pub clear : {Details : Type 0} → NetworkCache Details → NetworkCache Details
clear c = record {
  records = Records.clear c.records;
  links = Lru.clear c.links;
  link_details = Lru.clear c.link_details;
  details = Ttl.clear c.details;
}
