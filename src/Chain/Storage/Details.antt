-- ===== src/Chain/Storage/Details.antt =====
-- The details of an entry, as they are asked for in two ways, and the order of queries.
use holo_web_conductor.Common.{◌≡◌, refl, inl, inr, Option, none, some, Option-cases, Bytes, Text}
use holo_web_conductor.Chain.Types.{ChainAction}
use holo_web_conductor.Chain.Storage.Tables.{Db}
use holo_web_conductor.Chain.Storage.Queries.{
  first_action, RecordDetails, EntryDetails, originating, get_entry, get_details, get_entry_details,
}

-- The record of the first action, with the entry, updates and deletes; none without an action.
abbrev record_by : Option ChainAction → EntryDetails → Option RecordDetails
record_by none d = none
record_by (some action) d =
    some (record { action = action; entry = d.entry; updates = d.updates; deletes = d.deletes })

abbrev pub record_details_from : Option EntryDetails → Option RecordDetails
record_details_from none = none
record_details_from (some d) = record_by (first_action d.actions) d

-- The details of a record are those of its entry with the first of its actions, and there are
-- none exactly if the entry is missing or no action of the cell made it.
pub get_details-get_entry_details :
    (hash : Bytes) (cell : Text) (db : Db)
    → get_details hash cell db ≡ record_details_from (get_entry_details hash cell db)
unfolding get_details get_entry_details
get_details-get_entry_details hash cell db = elim (Option-cases (get_entry hash db)) [
  | inl e ↦ elim (Option-cases (first_action (originating hash cell db))) [
    | inl n ↦ rw (n, e, get_details, get_entry_details) refl
    | inr (a, n) ↦ rw (n, e, get_details, get_entry_details) refl
  ]
  | inr (entry, e) ↦ elim (Option-cases (first_action (originating hash cell db))) [
    | inl n ↦ rw (n, e, get_details, get_entry_details) (rw n refl)
    | inr (a, n) ↦ rw (n, e, get_details, get_entry_details) (rw n refl)
  ]
]
