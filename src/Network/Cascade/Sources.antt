-- ===== src/Network/Cascade/Sources.antt =====
-- What `Cascade` of packages/core/src/network/cascade.ts reads from: the storage
-- (packages/core/src/storage/storage-provider.ts) and the network
-- (packages/core/src/network/types.ts) are interfaces there, and records of functions here.
use holo_web_conductor.Common.{
  ℕ, Bool, false, ◌||◌, Option, none, some, List, [], ◌∷◌, Bytes, if◌then◌else◌, ◌&&◌, starts_with,
}
use holo_web_conductor.Network.Types.{NetworkRecord, NetworkLink}
use holo_web_conductor.Network.Cascade.Values.{Value}

-- `isEntryHash`; the key of an agent counts as one.
unfoldable pub is_entry_hash : Bytes → Bool
is_entry_hash hash = starts_with (132 ∷ 33 ∷ 36 ∷ []) hash || starts_with (132 ∷ 32 ∷ 36 ∷ []) hash

-- A `StoredAction`, as far as the cascade reads it.
pub record StoredAction : Type 0 where
  pub action_hash : Bytes
  pub entry_hash : Option Bytes
  pub signature : Option Bytes

-- `StoredEntry`; the types of entry other than an agent's make no difference here.
pub record StoredEntry : Type 0 where
  pub is_agent : Bool
  pub entry_content : Bytes

-- `Link` of packages/core/src/storage/types.ts, as far as the cascade reads it.
pub record StoredLink : Type 0 where
  pub create_link_hash : Bytes
  pub base_address : Bytes
  pub target_address : Bytes
  pub timestamp : ℕ
  pub zome_index : ℕ
  pub link_type : ℕ
  pub tag : Bytes
  pub author : Bytes

-- What a call of the network gives, or whether the error that it throws is a `NetworkError`.
pub data Answer (A : Type 0) : Type 0 where
  answers : A → Answer A
  throws : (is_network_error : Bool) → Answer A

-- The part of `StorageProvider` that is called. Details of the storage are any value.
pub record Storage (Local : Type 0) : Type 0 where
  pub get_action : Bytes → Option StoredAction
  pub get_entry : Bytes → Option StoredEntry
  pub get_action_by_entry_hash : Bytes → Option StoredAction
  pub get_links : (base dna agent : Bytes) (link_type : Option ℕ) → List StoredLink
  pub get_details : (entry_hash dna agent : Bytes) → Option Local
  pub get_entry_details : (entry_hash dna agent : Bytes) → Option Local

-- The part of `NetworkService` that is called.
pub record NetworkService : Type 0 where
  pub is_available : Bool
  pub fetch_record : (dna hash : Bytes) → Answer (Option NetworkRecord)
  pub fetch_links : (dna base : Bytes) (link_type zome_index : Option ℕ) → Answer (List NetworkLink)
  pub fetch_details : (dna hash : Bytes) → Answer (Option Value)

-- The details that the cascade gives, with the mark of their source.
pub data Details (Local : Type 0) : Type 0 where
  from_storage : Local → Option StoredAction → Details Local
  from_network : Value → Details Local

-- `CascadeOptions`
pub record CascadeOptions : Type 0 where
  pub use_network : Bool
  pub cache_network_results : Bool

pub data GetStrategy : Type 0 where
  network local : GetStrategy

-- `NetworkErrorMode`
pub data ErrorMode : Type 0 where
  swallow propagate : ErrorMode

-- The options of a call: the local strategy takes the network away.
abbrev pub with_strategy : Option GetStrategy → CascadeOptions → CascadeOptions
with_strategy (some local) o = record o { use_network = false }
with_strategy _ o = o

-- `opts.useNetwork && this.network && this.network.isAvailable()`
abbrev pub usable : CascadeOptions → Option NetworkService → Option NetworkService
usable o none = none
usable o (some n) = if o.use_network && n.is_available then some n else none

-- `isNetworkError(error) && getNetworkErrorMode() === 'propagate'`
abbrev pub passes : ErrorMode → Bool → Bool
passes propagate is_network_error = is_network_error
passes swallow is_network_error = false
