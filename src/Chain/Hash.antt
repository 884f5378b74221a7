-- ===== src/Chain/Hash.antt =====
-- packages/core/src/hash/index.ts, with packages/core/src/signing: the hashes of actions and
-- entries. The packages behind them are the fields of a record.
use holo_web_conductor.Common.{
  ℕ, zero, suc, ◌==◌, Bool, true, Option, none, some, [], ◌∷◌, ◌++◌, Bytes, Text, length, drop,
  if◌then◌else◌, ◌≡◌,
}
use holo_web_conductor.Chain.Types.{Draft, ActionData, dna, ChainAction}

-- `HoloHashType`, as far as it is used.
pub data HoloHashType : Type 0 where
  action_hash_type entry_hash_type agent_hash_type : HoloHashType

-- `blake2b256`, `dhtLocationFrom32` and `hash_type_prefix` (HASH_TYPE_PREFIX) come from packages.
-- `serialize_action` and `encode_app_entry` are MessagePack of an action, whose fields
-- packages/core/src/types/holochain-serialization.ts orders, and of the Entry enum with the tag
-- "App"; `sign` is the signature of an agent over bytes, and `encode` is `btoa`.
pub record Crypto : Type 0 where
  pub blake2b256 : Bytes → Bytes
  pub dht_location_from_32 : Bytes → Bytes
  pub hash_type_prefix : HoloHashType → Bytes
  pub serialize_action : Draft → Bytes
  pub encode_app_entry : Bytes → Bytes
  pub sign : (agent : Bytes) → Bytes → Bytes
  pub encode : Bytes → Text

abbrev pub take : ℕ → Bytes → Bytes
take zero more = []
take (suc n) [] = []
take (suc n) (b ∷ more) = b ∷ take n more

abbrev has_place : ActionData → ℕ → Bool
has_place (dna hash) seq = seq == 0
has_place _ seq = true

-- A Dna action stands at 0, which its serialised form leaves out.
unfoldable pub is_placed : Draft → Bool
is_placed draft = has_place draft.content draft.action_seq

module _ (crypto : Crypto) where
  -- `hashFrom32AndType`
  unfoldable pub hash_from_32_and_type : Bytes → HoloHashType → Bytes
  hash_from_32_and_type core type =
      crypto.hash_type_prefix type ++ core ++ crypto.dht_location_from_32 core

  -- `computeActionHashV2`
  unfoldable pub compute_action_hash : Draft → Bytes
  compute_action_hash draft =
      hash_from_32_and_type (crypto.blake2b256 (crypto.serialize_action draft)) action_hash_type

  -- `computeAppEntryHash`
  unfoldable pub compute_app_entry_hash : Bytes → Bytes
  compute_app_entry_hash content =
      hash_from_32_and_type (crypto.blake2b256 (crypto.encode_app_entry content)) entry_hash_type

  -- `computeAgentEntryHash`; none if it throws, since the key is not 39 bytes long.
  unfoldable pub compute_agent_entry_hash : Bytes → Option Bytes
  compute_agent_entry_hash key =
      if length key == 39
      then some (hash_from_32_and_type (take 32 (drop 3 key)) entry_hash_type)
      else none

  -- Serialised once, for the hash and for the signature.
  unfoldable pub seal : (agent : Bytes) → Draft → ChainAction
  seal agent draft = record {
    action_hash = compute_action_hash draft;
    signature = crypto.sign agent (crypto.serialize_action draft);
    draft = draft;
  }

  -- Actions at different places have different hashes.
  unfoldable pub SeparatesPlaces : Type 0
  SeparatesPlaces =
      (d e : Draft)
      → is_placed d ≡ true
      → is_placed e ≡ true
      → compute_action_hash d ≡ compute_action_hash e
      → d.action_seq ≡ e.action_seq
