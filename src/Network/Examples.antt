-- ===== src/Network/Examples.antt =====
-- Witnesses on one cascade.
use holo_web_conductor.Common.{
  ◌≡◌, refl, true, false, none, some, [], ◌∷◌, ◌++◌, Bytes, Text, arith, codes, length, seq_eq,
  is_some, starts_with,
}
use holo_web_conductor.Common.JsMap
use holo_web_conductor.Network.Types.{NetworkRecord, NetworkLink, not_applicable}
use holo_web_conductor.Network.Cache.Records
use holo_web_conductor.Network.Cache.Records.Aliases.{IsCache}
use holo_web_conductor.Network.Cache.NetworkCache
use holo_web_conductor.Network.Cache.NetworkCache.{
  NetworkCache, get_links_sync, get_link_details_sync,
}
use holo_web_conductor.Network.AgentInfo.{AgentInfoFields, is_valid, validate_agent_info}
use holo_web_conductor.Network.AgentInfo.Signed.{IsOf, IsTimely, validate-IsOf}
use holo_web_conductor.Network.Cascade.Values.{
  Value, number, array, object, no_value, value, no_field, field,
}
use holo_web_conductor.Network.Cascade.Sources.{
  answers, throws, Storage, NetworkService, Details, CascadeOptions, propagate, swallow, local,
  StoredLink, is_entry_hash,
}
use holo_web_conductor.Network.Cascade.Fetch.{fetch_record, fetch_links, fetch_details}
use holo_web_conductor.Network.Cascade.Errors.{Passed, fetch-Passed}
use holo_web_conductor.Network.Cascade.Merging.{IsUnion, Gives, own_links, fetch_links-online}
use holo_web_conductor.Network.Cascade.Again.{fetch_record-again}

abbrev encode : Bytes → Text
encode hash = hash

abbrev far_record : NetworkRecord
far_record = record {
  hash = some (7 ∷ []);
  entry_hash = none;
  entry_hash_camel = none;
  signature = [];
  entry = not_applicable;
}

abbrev far_link : NetworkLink
far_link = record {
  create_link_hash = 1 ∷ [];
  base = 9 ∷ [];
  target = 8 ∷ [];
  zome_index = 0;
  link_type = 0;
  tag = [];
  timestamp = 50;
  author = 5 ∷ [];
}

abbrev own_link : StoredLink
own_link = record {
  create_link_hash = 2 ∷ [];
  base_address = 9 ∷ [];
  target_address = 8 ∷ [];
  timestamp = 60;
  zome_index = 0;
  link_type = 0;
  tag = [];
  author = 6 ∷ [];
}

abbrev far : NetworkService
far = record {
  is_available = true;
  fetch_record = λ dna hash. answers (some far_record);
  fetch_links = λ dna base link_type zome_index. answers (far_link ∷ []);
  fetch_details = λ dna hash. throws true;
}

abbrev near : Storage Text
near = record {
  get_action = λ hash. none;
  get_entry = λ hash. none;
  get_action_by_entry_hash = λ hash. none;
  get_links = λ base dna agent link_type. own_link ∷ [];
  get_details = λ hash dna agent. none;
  get_entry_details = λ hash dna agent. none;
}

abbrev options : CascadeOptions
options = record { use_network = true; cache_network_results = true }

abbrev empty : NetworkCache (Details Text)
empty = record {
  records = record { map = []; alias_map = []; max_entries = 10 };
  links = record { map = []; max_entries = 10 };
  link_details = record { map = []; max_entries = 10 };
  details = record { map = []; max_entries = 10; ttl = 1000 };
}

fetch-Passed_example :
    Passed propagate options
      (some far)
      (λ n. n.fetch_record [] (7 ∷ []))
      (fetch_record encode propagate near (some far) options none [] (7 ∷ []) empty).0
    × Passed propagate options
        (some far)
        (λ n. n.fetch_links [] (7 ∷ []) none none)
        (fetch_links encode propagate near (some far) options none [] [] (7 ∷ []) none none empty).0
    × Passed propagate options
        (some far)
        (λ n. n.fetch_details [] (7 ∷ []))
        (fetch_details encode propagate near (some far) options none 1 2 3 [] [] (7 ∷ []) empty).0
fetch-Passed_example =
    fetch-Passed encode propagate near (some far) options none [] [] (7 ∷ []) none none 1 2 3 empty

fetch_links-online_example :
    Gives
      (fetch_links encode swallow near (some far) options none [] [] (9 ∷ []) none none empty).0
      (IsUnion (far_link ∷ []) (own_links encode swallow near (some far) [] [] (9 ∷ []) none))
fetch_links-online_example =
    fetch_links-online encode swallow near (some far) options none [] [] (9 ∷ []) none none empty
      far (far_link ∷ []) refl refl

empty-IsCache : IsCache empty.records
empty-IsCache = record { distinct = tt; distinct_aliases = tt; leads = tt }

fetched :
    (fetch_record encode swallow near (some far) options none [] (7 ∷ []) empty).0
    ≡ answers (some far_record)
unfolding fetch_record is_entry_hash starts_with NetworkCache.get_record_sync Records.get JsMap.get
fetched = refl

fetch_record-again_example :
    (fetch_record encode swallow near none options
      (some local)
      []
      (7 ∷ [])
      (fetch_record encode swallow near (some far) options none [] (7 ∷ []) empty).1).0
    ≡ answers (some far_record)
fetch_record-again_example =
    fetch_record-again encode near swallow swallow (some far) none options options none (some local)
      [] [] (7 ∷ []) far_record empty empty-IsCache (omega arith) refl fetched

abbrev answer : Value
answer = object (field (97 ∷ []) (array (value (number 1) (value (number 255) no_value))) no_field)

-- 32 letters.
abbrev agent_text : Text
agent_text = codes "abcdefghijklmnopqrstuvwxyzabcdef"

abbrev info : AgentInfoFields
info = record {
  agent = agent_text;
  space = codes "s";
  created_at = [];
  expires_at = codes "1";
  is_tombstone = false;
  url = none;
  storage_arc = none;
}

abbrev key_text : Text
key_text = codes "kkk" ++ agent_text ++ codes "llll"

info-valid : validate_agent_info (λ s. some s) (λ s. some (length s)) 0 info key_text [] ≡ is_valid
unfolding validate_agent_info seq_eq
info-valid = refl

validate-IsOf_example :
    IsOf (λ s. some s) (λ s. some (length s)) info key_text
    × (is_some info.storage_arc ≡ false)
    × IsTimely (λ s. some s) (λ s. some (length s)) 0 info []
validate-IsOf_example =
    validate-IsOf (λ s. some s) (λ s. some (length s)) 0 info key_text [] info-valid
