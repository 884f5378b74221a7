-- ===== src/Network/Types.antt =====
-- packages/core/src/network/types.ts: records and links as they come from the network.
use holo_web_conductor.Common.{ℕ, Option, List, Bytes, Text}

pub data NetworkEntry : Type 0 where
  present : (entry_type : Text) (entry : Bytes) → NetworkEntry
  hidden not_applicable not_stored : NetworkEntry

-- A `NetworkRecord` with its signed action laid flat. Its action may spell the hash of its entry
-- in two ways.
pub record NetworkRecord : Type 0 where
  pub hash : Option Bytes
  pub entry_hash : Option Bytes
  pub entry_hash_camel : Option Bytes
  pub signature : Bytes
  pub entry : NetworkEntry

pub record NetworkLink : Type 0 where
  pub create_link_hash : Bytes
  pub base : Bytes
  pub target : Bytes
  pub zome_index : ℕ
  pub link_type : ℕ
  pub tag : Bytes
  pub timestamp : ℕ
  pub author : Bytes

-- `CachedLinkDetail`
pub record CachedLinkDetail : Type 0 where
  pub create : NetworkLink
  pub delete_hashes : List Bytes
