-- ===== src/Chain/Examples.antt =====
-- Witnesses and tests on a cell whose hashes show the place of an action.
use holo_web_conductor.Common.{
  map, ℕ, ◌≡◌, refl, ap, true, inr, none, some, List, [], ◌∷◌, ◌++◌, length, Bytes,
}
use holo_web_conductor.Common.JsMap.{get}
use holo_web_conductor.Network.Cache.NetworkCache.{NetworkCache}
use holo_web_conductor.Chain.Types.{AppEntryType}
use holo_web_conductor.Chain.Hash.{
  Crypto, HoloHashType, action_hash_type, entry_hash_type, agent_hash_type, SeparatesPlaces,
  compute_action_hash, hash_from_32_and_type,
}
use holo_web_conductor.Chain.Storage.Tables.{Db, get_chain_head}
use holo_web_conductor.Chain.Storage.Queries.{cell_actions}
use holo_web_conductor.Chain.HostFunctions.{
  World, PendingRecord, creates, updates, creates_link, deletes_link, host_create_link,
  host_delete_link,
}
use holo_web_conductor.Chain.HostFunctions.Links.{Undone, link_hash, delete_link-create_link}
use holo_web_conductor.Chain.Genesis.{prefixed_key}
use holo_web_conductor.Chain.Linked.Ready.{IsReady, IsChain, chain}
use holo_web_conductor.Chain.Types.{ChainHead}
use holo_web_conductor.Chain.Activity.{get_agent_activity, pair_of}
use holo_web_conductor.Chain.Activity.Own.{own_activity}
use holo_web_conductor.Chain.Validation.{Rules, valid}
use holo_web_conductor.Chain.Call.{
  Guest, returns, asks, calls, ZomeCallRequest, run_guest, call_zome,
}
use holo_web_conductor.Chain.Call.Atomic.{at_rest}
use holo_web_conductor.Chain.Call.Published.{
  Publishes, request_cell, call_zome-IsReady, call_zome-Publishes,
}

abbrev prefix : HoloHashType → Bytes
prefix action_hash_type = 132 ∷ 41 ∷ 36 ∷ []
prefix entry_hash_type = 132 ∷ 33 ∷ 36 ∷ []
prefix agent_hash_type = 132 ∷ 32 ∷ 36 ∷ []

abbrev sample : Crypto
sample = record {
  blake2b256 = λ b. b;
  dht_location_from_32 = λ b. 0 ∷ 0 ∷ 0 ∷ 0 ∷ [];
  hash_type_prefix = prefix;
  serialize_action = λ d. d.action_seq ∷ [];
  encode_app_entry = λ b. b;
  sign = λ agent b. agent ++ b;
  encode = λ b. b;
}

fourth : Bytes → ℕ
fourth (a ∷ b ∷ c ∷ d ∷ more) = d
fourth _ = 0

sample-SeparatesPlaces : SeparatesPlaces sample
unfolding SeparatesPlaces compute_action_hash hash_from_32_and_type fourth
sample-SeparatesPlaces d e p q h = ap fourth h

abbrev agent_key : Bytes
agent_key =
    132 ∷ 32 ∷ 36 ∷ 1 ∷ 1 ∷ 1 ∷ 1 ∷ 1 ∷ 1 ∷ 1 ∷ 1 ∷ 1 ∷ 1 ∷ 1 ∷ 1 ∷ 1 ∷ 1 ∷ 1 ∷ 1 ∷ 1 ∷ 1 ∷ 1 ∷ 1
    ∷ 1 ∷ 1 ∷ 1 ∷ 1 ∷ 1 ∷ 1 ∷ 1 ∷ 1 ∷ 1 ∷ 1 ∷ 1 ∷ 1 ∷ 0 ∷ 0 ∷ 0 ∷ 0 ∷ []

agent_key-length : length (prefixed_key sample agent_key) ≡ 39
unfolding prefixed_key
agent_key-length = refl

abbrev empty : Db
empty = record { actions = []; entries = []; links = []; chain_heads = [] }

abbrev note_type : AppEntryType
note_type = record { zome_id = 0; entry_index = 1 }

-- Two entries, by two zomes, a link and its removal.
abbrev busy : Guest
busy = asks 1 (creates note_type (7 ∷ [])) λ first.
    calls 0 (asks 2 (updates first (8 ∷ [])) λ second. returns second) λ answer.
      asks 3 (creates_link first answer 0 0 [])
        λ link. asks 4 (deletes_link link) λ gone. returns gone

abbrev request : ZomeCallRequest
request = record {
  dna_hash = 5 ∷ [];
  agent_pub_key = agent_key;
  zome_index = 0;
  guest = busy;
  post_commit = none;
  rules = none;
  genesis_time = 0;
}

abbrev cache : NetworkCache Bytes
cache = record {
  records = record { map = []; alias_map = []; max_entries = 5 };
  links = record { map = []; max_entries = 5 };
  link_details = record { map = []; max_entries = 5 };
  details = record { map = []; max_entries = 5; ttl = 10 };
}

empty-IsChain : IsChain sample (request_cell sample request) empty
unfolding IsChain get_chain_head cell_actions get request_cell
empty-IsChain = inr (refl, refl)

call_zome-IsReady_example :
    IsReady sample
      (request_cell sample request)
      (call_zome sample request (at_rest empty cache)).1.storage.db
call_zome-IsReady_example =
    call_zome-IsReady sample sample-SeparatesPlaces request empty cache agent_key-length
      empty-IsChain

call_zome-Publishes_example :
    Publishes request.dna_hash request.agent_pub_key none []
      (chain
        (request_cell sample request)
        (call_zome sample request (at_rest empty cache)).1.storage.db)
      (call_zome sample request (at_rest empty cache)).0
unfolding cell_actions
call_zome-Publishes_example =
    call_zome-Publishes sample sample-SeparatesPlaces request empty cache agent_key-length
      empty-IsChain

abbrev world : World
world = record {
  context = record {
    dna_hash = 5 ∷ [];
    agent_pub_key = agent_key;
    zome_index = 0;
    pending_records = [];
    pending_cache_ops = none;
  };
  db = empty;
}

delete_link-create_link_example : Undone world (
    host_delete_link sample 2
      (link_hash sample 1 (6 ∷ []) (9 ∷ []) 0 0 [] world)
      (host_create_link sample 1 (6 ∷ []) (9 ∷ []) 0 0 [] world).1)
delete_link-create_link_example =
    delete_link-create_link sample 1 2 (6 ∷ []) (9 ∷ []) 0 0 [] world tt

ready :
    IsReady sample
      (request_cell sample request)
      (call_zome sample request (at_rest empty cache)).1.storage.db
ready =
    call_zome-IsReady sample sample-SeparatesPlaces request empty cache agent_key-length
      empty-IsChain

abbrev rules : Rules
rules = record {
  integrity_zomes = record { name = 1 ∷ []; has_wasm = true } ∷ [];
  validate = λ zome op. valid;
  fetch_create_link = λ hash. none;
}

abbrev written : List PendingRecord
written = (run_guest sample busy world).1.context.pending_records

own_activity_example :
    (h : ChainHead) × (get_chain_head
        (request_cell sample request)
        (call_zome sample request (at_rest empty cache)).1.storage.db
      ≡ some h)
    × (get_agent_activity agent_key agent_key
          (request_cell sample request)
          none
          (call_zome sample request (at_rest empty cache)).1.storage.db
        ≡ some (record {
          valid_activity = map pair_of (
              chain
                (request_cell sample request)
                (call_zome sample request (at_rest empty cache)).1.storage.db);
          rejected_activity = [];
          highest_observed = some (h.action_seq, h.action_hash);
        }))
own_activity_example =
    own_activity sample agent_key (request_cell sample request) none
      (call_zome sample request (at_rest empty cache)).1.storage.db ready
