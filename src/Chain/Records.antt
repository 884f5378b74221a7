-- ===== src/Chain/Records.antt =====
-- packages/core/src/dht/record-converter.ts: from the stored form of a record to the form that the
-- DHT operations are made of. The fields that those do not read (places, types, weights, tags) are
-- not in its target.
use holo_web_conductor.Common.{
  ◌==◌, Option, none, some, List, map, Bytes, length, if◌then◌else◌, codes,
}
use holo_web_conductor.Dht.OpTypes
use holo_web_conductor.Chain.Types
use holo_web_conductor.Chain.Types.{ActionData, ChainAction, EntryType, ChainEntry}
use holo_web_conductor.Chain.Hash.{Crypto, agent_hash_type, take, hash_from_32_and_type}
use holo_web_conductor.Chain.HostFunctions.{PendingRecord}

module _ (crypto : Crypto) where
  -- `ensureAgentPubKey`
  unfoldable pub ensure_agent_pub_key : Bytes → Bytes
  ensure_agent_pub_key raw =
      if length raw == 39 then raw else hash_from_32_and_type crypto (take 32 raw) agent_hash_type

  body_of : ActionData → OpTypes.ActionBody
  body_of (Types.dna h) = OpTypes.dna
  body_of (Types.agent_validation_pkg p) = OpTypes.agent_validation_pkg
  body_of Types.init_zomes_complete = OpTypes.init_zomes_complete
  body_of (Types.create e t) = OpTypes.create e
  body_of (Types.update e t a o) = OpTypes.update e a o
  body_of (Types.delete a e) = OpTypes.delete a e
  body_of (Types.create_link b t z l g) = OpTypes.create_link b t
  body_of (Types.delete_link l b) = OpTypes.delete_link b l

  -- `storedActionToClientAction`
  unfoldable pub stored_action_to_client_action : ChainAction → OpTypes.Action
  unfolding body_of
  stored_action_to_client_action a = record {
    author = ensure_agent_pub_key a.draft.author;
    timestamp = a.draft.timestamp;
    body = body_of a.draft.content;
  }

  -- `storedEntryToClientEntry`: every entry but an agent's is an app entry.
  unfoldable pub stored_entry_to_client_entry : ChainEntry → OpTypes.Entry
  stored_entry_to_client_entry e = record {
    entry_type = elim e.entry_type [ Types.agent ↦ codes "Agent" | _ ↦ codes "App" ];
    entry = e.entry_content;
  }

  -- `storedEntryToRecordEntry`
  unfoldable pub stored_entry_to_record_entry : Option ChainEntry → OpTypes.RecordEntry
  stored_entry_to_record_entry none = OpTypes.na
  stored_entry_to_record_entry (some e) = OpTypes.present (stored_entry_to_client_entry e)

  -- `buildRecord`
  unfoldable pub build_record : PendingRecord → OpTypes.ChainRecord
  build_record r = record {
    hash = r.action.action_hash;
    content = stored_action_to_client_action r.action;
    signature = r.action.signature;
    entry = stored_entry_to_record_entry r.entry;
  }

  -- `buildRecords`
  unfoldable pub build_records : List PendingRecord → List OpTypes.ChainRecord
  build_records records = map build_record records
