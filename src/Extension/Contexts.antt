-- ===== src/Extension/Contexts.antt =====
-- packages/extension/src/lib/happ-context-storage.ts, `HappContextStorage`: the contexts of the
-- installed apps in the browser's database, and the copies of them in memory. The database is part
-- of the state: a table by id whose index by domain is unique, and a table of WASM by the hash of
-- the DNA, which is its own key here, without its base64. It fails only where that index refuses a
-- row. Its rows are in the order in which their ids came. The clock is an argument. The properties
-- of a DNA are kept as their encoded bytes.
pub mod Storage
pub mod Manager
pub mod Installing
pub mod Lifecycle
pub mod Rows
pub mod Seen
pub mod Consistent
pub mod Answers
pub mod Domains
pub mod Changes
pub mod Methods
pub mod Removing
pub mod Adding
pub mod Unpacking
pub mod Founding
pub mod Granting
pub mod Runs
pub mod Kept
pub mod Safe
use holo_web_conductor.Common.{
  ℕ, ◌%◌, ◌^◌, Bool, true, false, not, Option, none, some, List, [], ◌∷◌, map, Bytes, Text, seq_eq,
  if◌then◌else◌, or_else,
}
use holo_web_conductor.Common.JsMap
use holo_web_conductor.Common.JsMap.{JsMap}

-- `HappContextStatus`
pub data HappContextStatus : Type 0 where
  enabled_status : HappContextStatus
  disabled_status : HappContextStatus
  awaiting_memproofs : HappContextStatus

-- `ZomeDefinition`
pub record ZomeDefinition : Type 0 where
  pub name : Text
  pub index : ℕ
  pub wasm_hash : Option Bytes
  pub wasm : Option Bytes
  pub dependencies : List Text
  pub entry_defs : Option (List (Text × Text))
  pub link_types : Option (List Bytes)
  pub link_type_count : Option ℕ

pub record DnaManifestRuntime : Type 0 where
  pub name : Text
  pub network_seed : Option Text
  pub properties : Option Bytes
  pub integrity_zomes : List ZomeDefinition
  pub coordinator_zomes : List ZomeDefinition

-- `DnaContext`, and `StorableDnaContext` with the same fields.
pub record DnaContext : Type 0 where
  pub hash : Bytes
  pub wasm : Bytes
  pub name : Option Text
  pub properties : Option Bytes
  pub network_seed : Option Text
  pub manifest : Option DnaManifestRuntime

pub record HappContext : Type 0 where
  pub id : Text
  pub domain : Text
  pub agent_pub_key : Bytes
  pub agent_key_tag : Text
  pub dnas : List DnaContext
  pub app_name : Option Text
  pub app_version : Option Text
  pub installed_at : ℕ
  pub last_used : ℕ
  pub enabled : Bool
  pub status : HappContextStatus
  pub recovery_sealed : Option Bool

-- The rows of the database: those of older versions have no status.
pub record StorableContext : Type 0 where
  pub id : Text
  pub domain : Text
  pub agent_pub_key : List ℕ
  pub agent_key_tag : Text
  pub dnas : List DnaContext
  pub app_name : Option Text
  pub app_version : Option Text
  pub installed_at : ℕ
  pub last_used : ℕ
  pub enabled : Bool
  pub status : Option HappContextStatus
  pub recovery_sealed : Option Bool

pub record DnaWasmEntry : Type 0 where
  pub hash : Bytes
  pub wasm : List ℕ
  pub size : ℕ
  pub stored_at : ℕ

pub record HappContextStorage : Type 0 where
  pub contexts : JsMap StorableContext
  pub dna_wasm : JsMap DnaWasmEntry
  pub context_cache : JsMap HappContext
  pub domain_to_id : JsMap Text
  pub cache_initialized : Bool

-- `new Uint8Array(numbers)`; `Array.from(bytes)` are the same numbers.
unfoldable pub uint8_array : List ℕ → Bytes
uint8_array [] = []
uint8_array (n ∷ numbers) = (n % 2 ^ 8) ∷ uint8_array numbers

abbrev pub optional_array : Option (List ℕ) → Option Bytes
optional_array none = none
optional_array (some numbers) = some (uint8_array numbers)

-- A zome of `deserializeManifest`.
unfoldable pub zome_of : ZomeDefinition → ZomeDefinition
zome_of z = record z { wasm = optional_array z.wasm }

-- `deserializeManifest`
unfoldable pub deserialize_manifest : Option DnaManifestRuntime → Option DnaManifestRuntime
unfolding zome_of
deserialize_manifest none = none
deserialize_manifest (some m) = some (record m {
  integrity_zomes = map zome_of m.integrity_zomes;
  coordinator_zomes = map zome_of m.coordinator_zomes;
})

-- A DNA of `fromStorable`.
unfoldable pub dna_of : DnaContext → DnaContext
dna_of d = record d {
  hash = uint8_array d.hash;
  wasm = uint8_array d.wasm;
  manifest = deserialize_manifest d.manifest;
}

-- `toStorable`, with `serializeManifest`.
unfoldable pub to_storable : HappContext → StorableContext
to_storable c = record {
  id = c.id;
  domain = c.domain;
  agent_pub_key = c.agent_pub_key;
  agent_key_tag = c.agent_key_tag;
  dnas = c.dnas;
  app_name = c.app_name;
  app_version = c.app_version;
  installed_at = c.installed_at;
  last_used = c.last_used;
  enabled = c.enabled;
  status = some c.status;
  recovery_sealed = c.recovery_sealed;
}

-- `fromStorable`
unfoldable pub from_storable : StorableContext → HappContext
from_storable s = record {
  id = s.id;
  domain = s.domain;
  agent_pub_key = uint8_array s.agent_pub_key;
  agent_key_tag = s.agent_key_tag;
  dnas = map dna_of s.dnas;
  app_name = s.app_name;
  app_version = s.app_version;
  installed_at = s.installed_at;
  last_used = s.last_used;
  enabled = s.enabled;
  status = or_else s.status (if s.enabled then enabled_status else disabled_status);
  recovery_sealed = s.recovery_sealed;
}

-- The index by domain: the id of each row's domain.
unfoldable pub domain_index : JsMap StorableContext → JsMap Text
domain_index [] = []
domain_index ((id, row) ∷ rows) = (row.domain, id) ∷ domain_index rows

-- Another row has the domain.
unfoldable pub is_taken : (id domain : Text) → JsMap StorableContext → Bool
is_taken id domain rows = elim (JsMap.get domain (domain_index rows)) [
  | none ↦ false
  | some other ↦ not (seq_eq other id)
]

abbrev from_row : Option StorableContext → Option HappContext
from_row none = none
from_row (some row) = some (from_storable row)

-- The row that the index by domain leads to.
unfoldable pub find_domain : Text → JsMap StorableContext → Option StorableContext
find_domain domain rows = elim (JsMap.get domain (domain_index rows)) [
  | none ↦ none
  | some id ↦ JsMap.get id rows
]
