-- ===== src/Network/Cache/Records.antt =====
-- `LRURecordCache` of packages/core/src/network/cache.ts: records under a canonical key, and an
-- alias map from the other hash of a record to that key.
pub mod Aliases
pub mod Newest
use holo_web_conductor.Common.{
  ℕ, zero, suc, Bool, true, false, not, Option, none, some, List, [], ◌∷◌, Text, if◌then◌else◌, ltb,
  length, seq_eq, or_else,
}
use holo_web_conductor.Common.JsMap
use holo_web_conductor.Common.JsMap.{JsMap}

pub record RecordCache {ℓ} (V : Type ℓ) : Type ℓ where
  pub map : JsMap V
  pub alias_map : JsMap Text
  pub max_entries : ℕ

-- `aliasMap.get(key) ?? key`
unfoldable pub canonical : Text → JsMap Text → Text
canonical key aliases = or_else (JsMap.get key aliases) key

-- The loop of `evictKey` over the aliases.
unfoldable pub drop_aliases : Text → JsMap Text → JsMap Text
drop_aliases key [] = []
drop_aliases key ((alias, target) ∷ m) =
    let rest = drop_aliases key m in if seq_eq target key then rest else (alias, target) ∷ rest

module _ {ℓ} {V : Type ℓ} where
  -- `get`: a hit moves its canonical key to the end.
  unfoldable pub get : Text → RecordCache V → Option V × RecordCache V
  get key c =
      let k = canonical key c.alias_map in
      elim (JsMap.get k c.map) [
        | none ↦ (none, c)
        | some value ↦ (some value, record c { map = JsMap.set k value (JsMap.delete k c.map) })
      ]

  -- `evictKey`
  unfoldable pub evict_key : Text → RecordCache V → RecordCache V
  evict_key key c = record c {
    map = JsMap.delete key c.map;
    alias_map = drop_aliases key c.alias_map;
  }

  pub evict_first : JsMap V → RecordCache V → RecordCache V
  evict_first [] c = c
  evict_first ((oldest, v) ∷ m) c = evict_key oldest c

  -- The `while` loop of `set`, with fuel.
  pub evict_while : ℕ → RecordCache V → RecordCache V
  unfolding evict_first evict_key
  evict_while zero c = c
  evict_while (suc fuel) c =
      let next = evict_while fuel (evict_first c.map c) in
      if ltb c.max_entries (length c.map) then next else c

  -- The entry is put at the end: an old one of the key is deleted first.
  pub put_last : Text → V → RecordCache V → RecordCache V
  put_last key value c = record c {
    map = JsMap.set key value (if JsMap.has key c.map then JsMap.delete key c.map else c.map);
  }

  -- `set`; a round for each entry is enough.
  unfoldable pub set : Text → V → RecordCache V → RecordCache V
  unfolding evict_while put_last
  set key value c = let c' = put_last key value c in evict_while (length c'.map) c'

  -- `setAlias`
  unfoldable pub set_alias : Text → Text → RecordCache V → RecordCache V
  set_alias alias target c =
      if seq_eq alias target then c else record c { alias_map = JsMap.set alias target c.alias_map }

  -- `delete`
  unfoldable pub delete : Text → RecordCache V → RecordCache V
  unfolding evict_key canonical
  delete key c = evict_key (canonical key c.alias_map) c

  -- `clear`
  unfoldable pub clear : RecordCache V → RecordCache V
  clear c = record c { map = []; alias_map = [] }

  -- `size`
  unfoldable pub size : RecordCache V → ℕ
  size c = length c.map
