-- ===== src/Chain/Activity.antt =====
-- packages/core/src/ribosome/host-fn/{query,get_agent_activity}.ts: what a zome learns of chains.
pub mod Own
use holo_web_conductor.Common.{
  ℕ, Bool, true, false, Option, none, some, List, [], ◌∷◌, map, Bytes, Text, or_else, seq_eq,
  if◌then◌else◌,
}
use holo_web_conductor.Chain.Types.{ActionData, ChainAction, ChainEntry, entry_hash_if_new}
use holo_web_conductor.Chain.Storage.Tables.{Db}
use holo_web_conductor.Chain.Storage.Queries.{query_actions, order_by_seq, get_entry, StoredRecord}

included_entry : Option Bytes → Db → Option ChainEntry
included_entry none db = none
included_entry (some hash) db = get_entry hash db

-- A record of `query`, with its entry unless the entries are left out.
unfoldable pub queried_record : (include_entries : Bool) → Db → ChainAction → StoredRecord
unfolding included_entry
queried_record true db action = record {
  action = action;
  entry = included_entry (entry_hash_if_new action.draft.content) db;
}
queried_record false db action = record { action = action; entry = none }

abbrev first_type : List (ActionData → Bool) → Option (ActionData → Bool)
first_type [] = none
first_type (t ∷ types) = some t

-- `query`: of the types that are asked for only the first counts.
unfoldable pub query :
    (action_types : List (ActionData → Bool))
    → (include_entries : Option Bool) → Text
    → Db
    → List StoredRecord
query types include_entries cell db =
    map (queried_record (or_else include_entries true) db)
      (query_actions cell (first_type types) db)

-- `ChainItems`: of a full record the place and the hash, if there is one.
pub data ChainItems : Type 0 where
  not_requested : ChainItems
  hashes : List (ℕ × Bytes) → ChainItems
  full : List (ℕ × Option Bytes) → ChainItems

with_hash : List (ℕ × Option Bytes) → List (ℕ × Bytes)
with_hash [] = []
with_hash ((seq, none) ∷ items) = with_hash items
with_hash ((seq, some hash) ∷ items) = (seq, hash) ∷ with_hash items

-- `chainItemsToHashes`
unfoldable pub chain_items_to_hashes : ChainItems → List (ℕ × Bytes)
unfolding with_hash
chain_items_to_hashes not_requested = []
chain_items_to_hashes (hashes items) = items
chain_items_to_hashes (full items) = with_hash items

-- What is told of an agent. Of oneself the status is that of the highest action, or empty.
pub record AgentActivity : Type 0 where
  pub valid_activity : List (ℕ × Bytes)
  pub rejected_activity : List (ℕ × Bytes)
  pub highest_observed : Option (ℕ × Bytes)

abbrev pub pair_of : ChainAction → ℕ × Bytes
pair_of a = (a.draft.action_seq, a.action_hash)

abbrev pub last_of : ChainAction → List ChainAction → ℕ × Bytes
last_of a [] = pair_of a
last_of a (b ∷ more) = last_of b more

abbrev pub last_pair : List ChainAction → Option (ℕ × Bytes)
last_pair [] = none
last_pair (a ∷ more) = some (last_of a more)

-- `getAgentActivityFromLocal`; to sort the pairs is to sort the actions.
unfoldable pub get_agent_activity_from_local : Text → Db → AgentActivity
get_agent_activity_from_local cell db = record {
  valid_activity = map pair_of (order_by_seq (query_actions cell none db));
  rejected_activity = [];
  highest_observed = last_pair (order_by_seq (query_actions cell none db));
}

-- The answer of the network, as far as it is read.
pub record AgentActivityResponse : Type 0 where
  pub valid_items : ChainItems
  pub rejected_items : ChainItems
  pub highest_observed : Option (ℕ × Bytes)

-- `getAgentActivity`, with what the network answers, if there is one and it does; none if it
-- throws.
unfoldable pub get_agent_activity :
    (own asked : Bytes) → Text → Option AgentActivityResponse → Db → Option AgentActivity
get_agent_activity own asked cell response db =
    if seq_eq asked own then some (get_agent_activity_from_local cell db) else elim response [
      | none ↦ none
      | some r ↦ some (record {
        valid_activity = chain_items_to_hashes r.valid_items;
        rejected_activity = chain_items_to_hashes r.rejected_items;
        highest_observed = r.highest_observed;
      })
    ]
