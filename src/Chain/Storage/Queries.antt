-- ===== src/Chain/Storage/Queries.antt =====
-- The queries of the storage: actions, records, details and links.
use holo_web_conductor.Common.{
  ℕ, Bool, true, false, not, leb, ◌&&◌, ◌==◌, Option, none, some, List, [], ◌∷◌, map, keep, find,
  Bytes, Text, seq_eq, if◌then◌else◌,
}
use holo_web_conductor.Chain.Types.{
  ActionData, ChainAction, ChainEntry, ChainLink, entry_hash_if_new, updated_entry, deleted_entry,
}
use holo_web_conductor.Chain.Storage.Tables.{ActionRow, EntryRow, LinkRow, Db, get_action}

-- A column that may be null, against a value.
abbrev pub column_is : Option Bytes → Bytes → Bool
column_is none value = false
column_is (some column) value = seq_eq column value

-- The actions of a cell, in the order of the table.
unfoldable pub cell_actions : Text → List ActionRow → List ChainAction
cell_actions cell [] = []
cell_actions cell (row ∷ rows) =
    let rest = cell_actions cell rows in if seq_eq row.cell_id cell then row.action ∷ rest else rest

-- ORDER BY action_seq
unfoldable pub insert_by_seq : ChainAction → List ChainAction → List ChainAction
insert_by_seq a [] = a ∷ []
insert_by_seq a (b ∷ bs) =
    let rest = insert_by_seq a bs in
    if leb a.draft.action_seq b.draft.action_seq then a ∷ b ∷ bs else b ∷ rest

unfoldable pub order_by_seq : List ChainAction → List ChainAction
order_by_seq [] = []
order_by_seq (a ∷ more) = insert_by_seq a (order_by_seq more)

-- `queryActions`, whose filter is by type.
unfoldable pub query_actions : Text → Option (ActionData → Bool) → Db → List ChainAction
query_actions cell none db = order_by_seq (cell_actions cell db.actions)
query_actions cell (some has_type) db =
    order_by_seq (keep (λ a. has_type a.draft.content) (cell_actions cell db.actions))

abbrev entry_of : Option EntryRow → Option ChainEntry
entry_of none = none
entry_of (some row) = some row.entry

-- `getEntry`
unfoldable pub get_entry : Bytes → Db → Option ChainEntry
get_entry hash db = entry_of (find (λ row. seq_eq row.entry.entry_hash hash) db.entries)

-- `StoredRecord`, and the records of `getAllRecords`.
pub record StoredRecord : Type 0 where
  pub action : ChainAction
  pub entry : Option ChainEntry

entry_with : Option Bytes → Db → Option ChainEntry
entry_with none db = none
entry_with (some hash) db = get_entry hash db

unfoldable pub stored_record : Db → ChainAction → StoredRecord
unfolding entry_with
stored_record db action = record {
  action = action;
  entry = entry_with (entry_hash_if_new action.draft.content) db;
}

-- `getAllRecords`
unfoldable pub get_all_records : Text → Db → List StoredRecord
get_all_records cell db = map (stored_record db) (query_actions cell none db)

-- `getRecord`
unfoldable pub get_record : Bytes → Db → Option StoredRecord
get_record hash db = elim (get_action hash db) [
  | none ↦ none
  | some action ↦ some (stored_record db action)
]

abbrev pub first_action : List ChainAction → Option ChainAction
first_action [] = none
first_action (a ∷ more) = some a

abbrev makes : Bytes → ChainAction → Bool
makes hash a = column_is (entry_hash_if_new a.draft.content) hash

-- `getActionByEntryHash`: the lowest place in any chain.
unfoldable pub get_action_by_entry_hash : Bytes → Db → Option ChainAction
get_action_by_entry_hash hash db =
    first_action (order_by_seq (keep (makes hash) (map (λ row. row.action) db.actions)))

-- The rows of a cell that have the entry hash: its Create and Update actions.
unfoldable pub originating : Bytes → Text → Db → List ChainAction
originating hash cell db = keep (makes hash) (cell_actions cell db.actions)

-- The updates of a cell whose original entry has the hash.
unfoldable pub updates_of : Bytes → Text → Db → List ChainAction
updates_of hash cell db =
    keep (λ a. column_is (updated_entry a.draft.content) hash) (cell_actions cell db.actions)

-- The deletes of a cell that delete the entry.
unfoldable pub deletes_of : Bytes → Text → Db → List ChainAction
deletes_of hash cell db =
    keep (λ a. column_is (deleted_entry a.draft.content) hash) (cell_actions cell db.actions)

-- `RecordDetails`; its status is always valid. An update or a delete brings its hash with it.
pub record RecordDetails : Type 0 where
  pub action : ChainAction
  pub entry : ChainEntry
  pub updates : List ChainAction
  pub deletes : List ChainAction

-- `getDetails`. The first Create or Update is the originator.
unfoldable pub get_details : Bytes → Text → Db → Option RecordDetails
get_details hash cell db = elim (first_action (originating hash cell db)) [
  | none ↦ none
  | some action ↦ elim (get_entry hash db) [
    | none ↦ none
    | some entry ↦ some (record {
      action = action;
      entry = entry;
      updates = updates_of hash cell db;
      deletes = deletes_of hash cell db;
    })
  ]
]

pub data EntryDhtStatus : Type 0 where
  live dead pending rejected : EntryDhtStatus

-- `EntryDetails`, whose rejected actions are always none.
pub record EntryDetails : Type 0 where
  pub entry : ChainEntry
  pub actions : List ChainAction
  pub updates : List ChainAction
  pub deletes : List ChainAction
  pub entry_dht_status : EntryDhtStatus

-- `deletes.length > 0 ? 'Dead' : 'Live'`
abbrev pub status_by : List ChainAction → EntryDhtStatus
status_by [] = live
status_by (a ∷ more) = dead

-- `getEntryDetails`
unfoldable pub get_entry_details : Bytes → Text → Db → Option EntryDetails
get_entry_details hash cell db = elim (get_entry hash db) [
  | none ↦ none
  | some entry ↦ some (record {
    entry = entry;
    actions = originating hash cell db;
    updates = updates_of hash cell db;
    deletes = deletes_of hash cell db;
    entry_dht_status = status_by (deletes_of hash cell db);
  })
]

abbrev has_link_type : Option ℕ → ChainLink → Bool
has_link_type none link = true
has_link_type (some t) link = link.link_type == t

-- `deleted = 0` and the other conditions of the query of `getLinks`.
unfoldable pub is_listed : Bytes → Text → Option ℕ → LinkRow → Bool
is_listed base cell link_type row =
    seq_eq row.cell_id cell
    && seq_eq row.link.base_address base
    && not row.deleted
    && has_link_type link_type row.link

unfoldable pub listed : Bytes → Text → Option ℕ → List LinkRow → List ChainLink
listed base cell link_type [] = []
listed base cell link_type (row ∷ rows) =
    let rest = listed base cell link_type rows in
    if is_listed base cell link_type row then row.link ∷ rest else rest

-- `getLinks`
unfoldable pub get_links : Bytes → Text → Option ℕ → Db → List ChainLink
get_links base cell link_type db = listed base cell link_type db.links
