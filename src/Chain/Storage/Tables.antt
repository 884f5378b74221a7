-- ===== src/Chain/Storage/Tables.antt =====
-- The tables of the storage, the statements that write to them, and transactions.
use holo_web_conductor.Common.{
  ℕ, Bool, true, false, not, ◌&&◌, ◌||◌, ◌==◌, Option, none, some, List, [], ◌∷◌, ◌++◌, map, keep,
  find, Bytes, Text, seq_eq, if◌then◌else◌,
}
use holo_web_conductor.Common.JsMap
use holo_web_conductor.Common.JsMap.{JsMap}
use holo_web_conductor.Chain.Types.{ChainAction, ChainEntry, ChainHead, ChainLink}

pub record ActionRow : Type 0 where
  pub cell_id : Text
  pub action : ChainAction

pub record EntryRow : Type 0 where
  pub cell_id : Text
  pub entry : ChainEntry

pub record LinkRow : Type 0 where
  pub cell_id : Text
  pub link : ChainLink
  pub deleted : Bool
  pub delete_hash : Option Bytes

pub record Db : Type 0 where
  pub actions : List ActionRow
  pub entries : List EntryRow
  pub links : List LinkRow
  pub chain_heads : JsMap ChainHead

-- `getCellId`, whose parameter is `btoa`.
unfoldable pub get_cell_id : (Bytes → Text) → (dna agent : Bytes) → Text
get_cell_id encode dna agent = encode dna ++ b':' ∷ encode agent

-- A row that an inserted one replaces: its primary key is the same, or its place in the chain,
-- on which `idx_actions_cell_seq_unique` stands.
unfoldable pub replaces : ActionRow → ActionRow → Bool
replaces new old =
    seq_eq old.action.action_hash new.action.action_hash
    || (seq_eq old.cell_id new.cell_id
        && old.action.draft.action_seq == new.action.draft.action_seq)

-- INSERT OR REPLACE INTO actions
unfoldable pub insert_action : ActionRow → List ActionRow → List ActionRow
insert_action new rows = keep (λ old. not (replaces new old)) rows ++ new ∷ []

-- `putAction`
unfoldable pub put_action : ChainAction → Text → Db → Db
put_action action cell db = record db {
  actions = insert_action (record { cell_id = cell; action = action }) db.actions;
}

-- `putEntry`: the table has one row for an entry hash, whatever the cell.
unfoldable pub put_entry : ChainEntry → Text → Db → Db
put_entry entry cell db = record db {
  entries =
      keep (λ old. not (seq_eq old.entry.entry_hash entry.entry_hash)) db.entries
      ++ record { cell_id = cell; entry = entry } ∷ [];
}

abbrev pub links_hash : Bytes → LinkRow → Bool
links_hash hash row = seq_eq row.link.create_link_hash hash

-- `putLink`
unfoldable pub put_link : ChainLink → Text → Db → Db
put_link link cell db = record db {
  links =
      keep (λ old. not (links_hash link.create_link_hash old)) db.links
      ++ record { cell_id = cell; link = link; deleted = false; delete_hash = none } ∷ [];
}

unfoldable pub mark_deleted : (create_link_hash delete_hash : Bytes) → LinkRow → LinkRow
mark_deleted hash by row =
    if links_hash hash row then record row { deleted = true; delete_hash = some by } else row

-- `deleteLink`
unfoldable pub delete_link_row : (create_link_hash delete_hash : Bytes) → Db → Db
delete_link_row hash by db = record db { links = map (mark_deleted hash by) db.links }

-- `updateChainHead`
unfoldable pub update_chain_head : Text → ℕ → Bytes → ℕ → Db → Db
update_chain_head cell seq hash timestamp db = record db {
  chain_heads =
      JsMap.set cell (record { action_seq = seq; action_hash = hash; timestamp = timestamp })
        db.chain_heads;
}

-- `getChainHead`
unfoldable pub get_chain_head : Text → Db → Option ChainHead
get_chain_head cell db = JsMap.get cell db.chain_heads

abbrev action_of : Option ActionRow → Option ChainAction
action_of none = none
action_of (some row) = some row.action

-- `getAction`: the cell makes no difference.
unfoldable pub get_action : Bytes → Db → Option ChainAction
get_action hash db = action_of (find (λ row. seq_eq row.action.action_hash hash) db.actions)

-- `clear`
unfoldable pub clear : Db → Db
clear db = record { actions = []; entries = []; links = []; chain_heads = [] }

-- The storage object: the tables as the connection sees them, what a ROLLBACK brings back if a
-- transaction is open, and the flag `inTransaction`.
pub record DirectSqliteStorage : Type 0 where
  pub db : Db
  pub saved : Option Db
  pub in_transaction : Bool

-- `beginTransaction`; none if BEGIN throws, since a transaction is open already.
unfoldable pub begin_transaction : DirectSqliteStorage → Option DirectSqliteStorage
begin_transaction s = elim s.saved [
  | none ↦ some (record s { saved = some s.db; in_transaction = true })
  | some old ↦ none
]

-- `commitTransaction`; none if COMMIT throws, since no transaction is open.
unfoldable pub commit_transaction : DirectSqliteStorage → Option DirectSqliteStorage
commit_transaction s = elim s.saved [
  | none ↦ none
  | some old ↦ some (record s { saved = none; in_transaction = false })
]

-- `rollbackTransaction`
unfoldable pub rollback_transaction : DirectSqliteStorage → Option DirectSqliteStorage
rollback_transaction s = elim s.saved [
  | none ↦ none
  | some old ↦ some (record { db = old; saved = none; in_transaction = false })
]

-- `isTransactionActive`
abbrev pub is_transaction_active : DirectSqliteStorage → Bool
is_transaction_active s = s.in_transaction
