-- ===== src/Network/Cache/Examples.antt =====
-- Witnesses on small caches.
use holo_web_conductor.Common.{
  ℕ, ◌≡◌, refl, none, some, List, [], ◌∷◌, Bytes, Text, arith, inr, seq_eq,
}
use holo_web_conductor.Common.JsMap
use holo_web_conductor.Network.Types.{NetworkRecord, NetworkLink, not_stored, CachedLinkDetail}
use holo_web_conductor.Network.Cache.Lru
use holo_web_conductor.Network.Cache.Lru.{Lru, has_base}
use holo_web_conductor.Network.Cache.Lru.Eviction.{set-keeps_newest}
use holo_web_conductor.Network.Cache.Records
use holo_web_conductor.Network.Cache.Records.{RecordCache}
use holo_web_conductor.Network.Cache.Ttl.{Ttl}
use holo_web_conductor.Network.Cache.NetworkCache.{
  NetworkCache, cache_record, merge_link_into_cache, remove_link_from_cache,
}
use holo_web_conductor.Network.Cache.NetworkCache.Dual.{cache_record-both}
use holo_web_conductor.Network.Cache.NetworkCache.History.{
  look_up, store, invalidate, IsSound, run, run-IsSound,
}
use holo_web_conductor.Network.Cache.NetworkCache.Links.{remove-merge_link_into_cache}

abbrev two : Lru ℕ
two = record { map = (1 ∷ [], 10) ∷ (2 ∷ [], 20) ∷ []; max_entries = 2 }

two-Distinct : JsMap.Distinct two.map
two-Distinct = ((λ e. cc, tt), (tt, tt))

set-keeps_newest_example : (Lru.set (3 ∷ []) 30 two).map ≡ (2 ∷ [], 20) ∷ (3 ∷ [], 30) ∷ []
unfolding JsMap.delete seq_eq
set-keeps_newest_example = set-keeps_newest (3 ∷ []) 30 two two-Distinct

abbrev post : NetworkRecord
post = record {
  hash = some (5 ∷ []);
  entry_hash = some (6 ∷ []);
  entry_hash_camel = none;
  signature = 9 ∷ [];
  entry = not_stored;
}

abbrev no_records : RecordCache NetworkRecord
no_records = record { map = []; alias_map = []; max_entries = 2 }

no_records-IsSound : IsSound 2 no_records
no_records-IsSound = record {
  shape = record { distinct = tt; distinct_aliases = tt; leads = tt };
  limit = refl;
  bounded = omega arith;
}

-- The text of a hash, for the examples: the hash itself.
abbrev plain : Bytes → Text
plain b = b

cache_record-both_example :
    let c' = cache_record plain (6 ∷ []) post no_records in
    ((Records.get (5 ∷ []) c').0 ≡ some post) × ((Records.get (6 ∷ []) c').0 ≡ some post)
unfolding JsMap.get
cache_record-both_example =
    cache_record-both plain (6 ∷ []) (5 ∷ []) (6 ∷ []) post no_records no_records-IsSound.shape
      (omega arith) (refl, refl) (inr refl) (λ e. cc) refl

run-IsSound_example :
    IsSound 2
      (run plain (store (5 ∷ []) post ∷ look_up (6 ∷ []) ∷ invalidate (5 ∷ []) ∷ []) no_records)
run-IsSound_example =
    run-IsSound plain 2 (store (5 ∷ []) post ∷ look_up (6 ∷ []) ∷ invalidate (5 ∷ []) ∷ [])
      no_records (omega arith) no_records-IsSound

abbrev short_lived : Ttl ℕ
short_lived = record { map = []; max_entries = 1; ttl = 100 }

abbrev link : NetworkLink
link = record {
  create_link_hash = 1 ∷ 1 ∷ [];
  base = 8 ∷ [];
  target = 9 ∷ [];
  zome_index = 0;
  link_type = 2;
  tag = [];
  timestamp = 77;
  author = 3 ∷ [];
}

abbrev cache : NetworkCache ℕ
cache = record {
  records = no_records;
  links = record { map = (8 ∷ [], []) ∷ []; max_entries = 5 };
  link_details = record { map = []; max_entries = 5 };
  details = short_lived;
}

remove-merge_link_into_cache_example :
    remove_link_from_cache plain
      (8 ∷ [])
      (1 ∷ 1 ∷ [])
      (merge_link_into_cache plain (8 ∷ []) link cache)
    ≡ cache
remove-merge_link_into_cache_example =
    remove-merge_link_into_cache plain (8 ∷ []) link cache (λ e. refl, tt)

abbrev details : List CachedLinkDetail
details = record { create = link; delete_hashes = [] } ∷ []
